-- ===== src/Inventory/Writes.antt =====
-- What each write of the two repositories leaves, when it does not fail.
use govibe_core.Prelude.{ℕ, ◌∷◌, ◌≡◌, arith, ◌==◌, update_rows}
use govibe_core.Store.{Db, Reservation, ReservationStatus, Post, ◌>>=◌}
use govibe_core.Inventory.Repository.{
  create_held_reservation, update_reserved_count, increment_sold_count, update_reservation_status,
  set_reserved, add_sold, set_status,
}

abbrev pub with_hold : Reservation → Db → Db
with_hold row db = record db { reservations = row ∷ db.reservations }

abbrev pub with_reserved : ℕ → ℕ → Db → Db
with_reserved id n db = record db {
  inventories = update_rows (λ r. r.id == id) (set_reserved n) db.inventories;
}

abbrev pub with_sold : ℕ → ℕ → Db → Db
with_sold id n db = record db {
  inventories = update_rows (λ r. r.id == id) (add_sold n) db.inventories;
}

abbrev pub with_status : ℕ → ReservationStatus → Db → Db
with_status id s db = record db {
  reservations = update_rows (λ r. r.id == id) (set_status s) db.reservations;
}

pub create_held_reservation_writes :
    (row : Reservation) (db : Db)
    → Post (create_held_reservation row db) (λ _ db'. db' ≡ with_hold row db)
unfolding create_held_reservation ◌>>=◌
create_held_reservation_writes row db = ground arith

pub update_reserved_count_writes :
    (id n : ℕ) (db : Db)
    → Post (update_reserved_count id n db) (λ _ db'. db' ≡ with_reserved id n db)
unfolding update_reserved_count ◌>>=◌
update_reserved_count_writes id n db = ground arith

pub increment_sold_count_writes :
    (id n : ℕ) (db : Db) → Post (increment_sold_count id n db) (λ _ db'. db' ≡ with_sold id n db)
unfolding increment_sold_count ◌>>=◌
increment_sold_count_writes id n db = ground arith

pub update_reservation_status_writes :
    (id : ℕ) (s : ReservationStatus) (db : Db)
    → Post (update_reservation_status id s db) (λ _ db'. db' ≡ with_status id s db)
unfolding update_reservation_status ◌>>=◌
update_reservation_status_writes id s db = ground arith
