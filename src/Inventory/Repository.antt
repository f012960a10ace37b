-- ===== src/Inventory/Repository.antt =====
-- The two repositories of src/modules/inventory/infrastructure/repositories: the locked inventory
-- bucket, and the reservations that are held on it. `NOW()` is the database's clock.
use govibe_core.Prelude.{
  ℕ, ◌+◌, Bool, ◌&&◌, Option, List, [], ◌∷◌, ltb, leb, ◌==◌, if◌then◌else◌, find_row, update_rows,
  select_rows, take,
}
use govibe_core.Store.{
  Db, Inventory, Reservation, ReservationStatus, is_held, Tx, ◌>>◌, gets, modify, require, throw_if,
  is_some, unique_violation,
}

-- `WHERE event_id = … AND ticket_type_id = …`
abbrev pub is_bucket : ℕ → ℕ → Inventory → Bool
is_bucket event_id ticket_type_id row =
    row.event_id == event_id && row.ticket_type_id == ticket_type_id

-- The bucket of an event's ticket type, if there is one.
unfoldable pub find_bucket : ℕ → ℕ → List Inventory → Option Inventory
find_bucket event_id ticket_type_id rows = find_row (is_bucket event_id ticket_type_id) rows

unfoldable pub lock_inventory : ℕ → ℕ → Tx (Option Inventory)
lock_inventory event_id ticket_type_id =
    gets (λ db. find_bucket event_id ticket_type_id db.inventories)

abbrev pub has_inventory : ℕ → Db → Bool
has_inventory id db = is_some (find_row (λ (r : Inventory). r.id == id) db.inventories)

abbrev pub set_reserved : ℕ → Inventory → Inventory
set_reserved n row = record row { reserved_count = n }

unfoldable pub update_reserved_count : ℕ → ℕ → Tx (Unit {0})
update_reserved_count id n db =
    (require (has_inventory id db)
        >> modify (λ d. record d {
          inventories = update_rows (λ r. r.id == id) (set_reserved n) d.inventories;
        }))
      db

abbrev pub add_sold : ℕ → Inventory → Inventory
add_sold delta row = record row { sold_count = row.sold_count + delta }

unfoldable pub increment_sold_count : ℕ → ℕ → Tx (Unit {0})
increment_sold_count id delta db =
    (require (has_inventory id db)
        >> modify (λ d. record d {
          inventories = update_rows (λ r. r.id == id) (add_sold delta) d.inventories;
        }))
      db

abbrev pub find_reservation : ℕ → List Reservation → Option Reservation
find_reservation id rows = find_row (λ r. r.id == id) rows

unfoldable pub create_held_reservation : Reservation → Tx (Unit {0})
create_held_reservation row db =
    (throw_if (is_some (find_reservation row.id db.reservations)) unique_violation
        >> modify (λ d. record d { reservations = row ∷ d.reservations }))
      db

-- `status = 'HELD' AND expires_at <= NOW()`
abbrev pub is_expired_held : ℕ → Reservation → Bool
is_expired_held now row = is_held row.status && leb row.expires_at now

-- `ORDER BY expires_at ASC`
unfoldable pub insert_by_expiry : Reservation → List Reservation → List Reservation
insert_by_expiry r [] = r ∷ []
insert_by_expiry r (x ∷ xs) =
    if leb r.expires_at x.expires_at then r ∷ x ∷ xs else x ∷ insert_by_expiry r xs

unfoldable pub sort_by_expiry : List Reservation → List Reservation
sort_by_expiry [] = []
sort_by_expiry (x ∷ xs) = insert_by_expiry x (sort_by_expiry xs)

unfoldable pub claim_expired_held_reservations : ℕ → ℕ → Tx (List Reservation)
unfolding insert_by_expiry sort_by_expiry
claim_expired_held_reservations now limit =
    gets (λ db. take limit (sort_by_expiry (select_rows (is_expired_held now) db.reservations)))

-- `… AND status = 'HELD' AND expires_at > NOW()`
abbrev pub is_active : ℕ → ℕ → ℕ → Reservation → Bool
is_active now event_id ticket_type_id row =
    row.event_id == event_id
    && (row.ticket_type_id == ticket_type_id && (is_held row.status && ltb now row.expires_at))

-- `COALESCE(SUM(quantity), 0)` over the active rows.
unfoldable pub active_quantity : ℕ → ℕ → ℕ → List Reservation → ℕ
active_quantity now event_id ticket_type_id [] = 0
active_quantity now event_id ticket_type_id (r ∷ rs) =
    (if is_active now event_id ticket_type_id r then r.quantity else 0)
    + active_quantity now event_id ticket_type_id rs

unfoldable pub get_active_reservation_quantity : ℕ → ℕ → ℕ → Tx ℕ
get_active_reservation_quantity now event_id ticket_type_id =
    gets (λ db. active_quantity now event_id ticket_type_id db.reservations)

abbrev pub set_status : ReservationStatus → Reservation → Reservation
set_status status row = record row { status = status }

unfoldable pub update_reservation_status : ℕ → ReservationStatus → Tx (Unit {0})
update_reservation_status id status db =
    (require (is_some (find_reservation id db.reservations))
        >> modify (λ d. record d {
          reservations = update_rows (λ r. r.id == id) (set_status status) d.reservations;
        }))
      db

unfoldable pub find_reservation_by_id : ℕ → Tx (Option Reservation)
find_reservation_by_id id = gets (λ db. find_reservation id db.reservations)
