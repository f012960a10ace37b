-- ===== src/Tickets/Safety.antt =====
-- Issuance and the capacity of a bucket: an issuance in time turns a hold into a sale of the same
-- size; one after the hold has run out adds a sale that no hold stands for.
use native.Mathlib.Nat.{le_refl}
use govibe_core.Prelude.{
  ℕ, ◌+◌, ◌≤◌, ◌<◌, ◌≡◌, refl, sym, subst, ap, ◌∙◌, true, Option, some, List, arith, ◌==◌,
  update_rows, update_rows-update_rows, find_row_sound,
}
use govibe_core.Store.{
  Db, Clock, Inventory, Order, Reservation, ReservationStatus, is_held, Ticket, Post, Post-weaken,
}
use govibe_core.Context.{RequestContext, Uuids}
use govibe_core.Inventory.Repository.{
  find_bucket, find_reservation, active_quantity, set_reserved, add_sold, set_status,
}
use govibe_core.Inventory.Quantity.{active_quantity-set_status, active_quantity-end_active}
use govibe_core.Inventory.Fits.{IsCovered, find_bucket_key, update-Fits}
use govibe_core.Inventory.Safety.{IsSafe, counted_at}
use govibe_core.Tickets.Allocator.{Reference}
use govibe_core.Tickets.Issue.{ticket_rows, issue_tx}
use govibe_core.Tickets.Effects.{IsLoaded, issued_stock, IsIssued, issue_tx-IsIssued}

-- The one update that the two writes to a bucket amount to.
abbrev pub sell : ℕ → ℕ → Inventory → Inventory
sell live quantity b = add_sold quantity (set_reserved live b)

-- The row that the order's link finds stands under the id of the link.
row_id :
    (id : ℕ) (rs : List Reservation) (row : Reservation)
    → find_reservation id rs ≡ some row
    → row.id ≡ id
row_id id rs row h = let s = find_row_sound (λ (r : Reservation). r.id == id) rs h in ground arith

module _ (now : ℕ) (order : Order) (row : Reservation) (b : Inventory) (ts : List Ticket)
    (db : Db) where
  unfoldable pub ended : List Reservation
  ended = update_rows (λ r. r.id == row.id) (set_status ReservationStatus.consumed) db.reservations

  unfoldable pub live : ℕ
  unfolding ended
  live = active_quantity now row.event_id row.ticket_type_id ended

  pub issued_inventories :
      (issued_stock now order row b ts db).inventories
      ≡ update_rows (λ r. r.id == b.id) (sell live row.quantity) db.inventories
  unfolding live
  issued_inventories =
      update_rows-update_rows (λ (r : Inventory). r.id == b.id) (add_sold row.quantity)
        (set_reserved live) db.inventories (λ r. refl)

  -- The hold that is consumed has not run out: its quantity leaves the active holds.
  live_drop :
      find_reservation row.id db.reservations ≡ some row
      → is_held row.status ≡ true
      → now < row.expires_at
      → live + row.quantity ≤ active_quantity now row.event_id row.ticket_type_id db.reservations
  unfolding live
  live_drop held active time =
      active_quantity-end_active now row.event_id row.ticket_type_id row.id
        ReservationStatus.consumed db.reservations row refl held (ground arith)

  issued_stock-IsSafe :
      IsSafe now db
      → find_reservation row.id db.reservations ≡ some row
      → is_held row.status ≡ true
      → now < row.expires_at
      → find_bucket row.event_id row.ticket_type_id db.inventories ≡ some b
      → IsSafe now (issued_stock now order row b ts db)
  unfolding live
  issued_stock-IsSafe safe held active time found = rw issued_inventories (
      update-Fits now b.id (sell live row.quantity) db.inventories db.reservations ended
        (λ c. ((refl, refl), refl)) safe here
        (λ e' t' c _ _.
          active_quantity-set_status now e' t' row.id ReservationStatus.consumed db.reservations
            refl))
    where
      here :
          (e' t' : ℕ) (c : Inventory)
          → find_bucket e' t' db.inventories ≡ some c
          → c.id ≡ b.id
          → IsCovered now ended (sell live row.quantity c)
      here e' t' c found' same =
          let one = safe.distinct e' t' row.event_id row.ticket_type_id c b found' found same in
          let key = find_bucket_key row.event_id row.ticket_type_id db.inventories b found in
          let drop = live_drop held active time in
          let counted = counted_at now row.event_id row.ticket_type_id b db safe found in
          let within : b.reserved_count + b.sold_count ≤ b.capacity_total =
            (safe.covered row.event_id row.ticket_type_id b found).within in
          subst (λ d. IsCovered now ended (sell live row.quantity d)) (sym one)
            (record { counted = rw (key.0, key.1) (le_refl _); within = omega arith })

-- While the linked hold has not run out, an issuance keeps every bucket covered.
pub issue_tx-IsSafe :
    (clock : Clock) (uuid : Uuids) (ctx : Option RequestContext) (order_id : ℕ)
    (refs : List Reference) (db : Db)
    → IsSafe clock.db db
    → ((order : Order) (row : Reservation)
        → IsLoaded order_id db order row
        → clock.db < row.expires_at)
    → Post (issue_tx clock uuid ctx order_id refs db) (λ _ db'. IsSafe clock.db db')
issue_tx-IsSafe clock uuid ctx order_id refs db safe in_time =
    Post-weaken (λ _ db'. IsSafe clock.db db') (IsIssued clock uuid order_id refs db) _
      (issue_tx-IsIssued clock uuid ctx order_id refs db)
      (λ r db' i. subst (IsSafe clock.db) (sym i.after) (
        issued_stock-IsSafe clock.db i.order i.row i.bucket (ticket_rows i.order i.row uuid 0 refs)
          db safe
          (ap (λ id. find_reservation id db.reservations)
              (row_id i.loaded.linked db.reservations i.row i.loaded.held)
            ∙ i.loaded.held)
          i.loaded.active (in_time i.order i.row i.loaded) i.located))
