-- ===== src/Inventory/Quantity.antt =====
-- The sum of the active holds on a bucket, under the passing of time and under each change of the
-- reservations that the use cases make.
use govibe_core.Prelude.{
  ℕ, ◌+◌, ◌≤◌, ◌≡◌, ◌≢◌, true, false, some, List, [], ◌∷◌, inl, inr, ◌⊎◌, arith, ◌==◌, find_row,
  update_rows, Bool-cases,
}
use govibe_core.Store.{Reservation, ReservationStatus, is_held}
use govibe_core.Inventory.Repository.{find_reservation, is_active, active_quantity, set_status}

-- Holds only run out: later, no more is active.
pub active_quantity-anti :
    (now later e t : ℕ) (rs : List Reservation)
    → now ≤ later
    → active_quantity later e t rs ≤ active_quantity now e t rs
unfolding active_quantity
active_quantity-anti now later e t [] h = omega arith
active_quantity-anti now later e t (r ∷ rs) h =
    ground (arith, active_quantity-anti now later e t rs h)

-- A change of some rows to a status other than HELD activates nothing.
pub active_quantity-set_status :
    (now e t id : ℕ) (s : ReservationStatus) (rs : List Reservation)
    → is_held s ≡ false
    → active_quantity now e t (update_rows (λ r. r.id == id) (set_status s) rs)
      ≤ active_quantity now e t rs
unfolding active_quantity update_rows
active_quantity-set_status now e t id s [] h = omega arith
active_quantity-set_status now e t id s (r ∷ rs) h =
    ground (arith, active_quantity-set_status now e t id s rs h)

-- The change takes the quantity of an active row out of the sum.
pub active_quantity-end_active :
    (now e t id : ℕ) (s : ReservationStatus) (rs : List Reservation) (row : Reservation)
    → is_held s ≡ false
    → find_reservation id rs ≡ some row
    → is_active now e t row ≡ true
    → active_quantity now e t (update_rows (λ r. r.id == id) (set_status s) rs) + row.quantity
      ≤ active_quantity now e t rs
unfolding active_quantity update_rows find_row
active_quantity-end_active now e t id s [] row h found act = absurd (ground arith)
active_quantity-end_active now e t id s (r ∷ rs) row h found act = elim (Bool-cases (r.id == id)) [
  | inl e1 ↦ ground (arith, active_quantity-set_status now e t id s rs h)
  | inr e1 ↦ ground (arith, active_quantity-end_active now e t id s rs row h)
]

-- A new row adds at most its quantity to its bucket, and nothing to another.
pub active_quantity-cons :
    (now e t : ℕ) (row : Reservation) (rs : List Reservation)
    → active_quantity now e t (row ∷ rs) ≤ active_quantity now e t rs + row.quantity
unfolding active_quantity
active_quantity-cons now e t row rs = ground arith

pub active_quantity-cons_other :
    (now e t : ℕ) (row : Reservation) (rs : List Reservation)
    → (row.event_id ≢ e) ⊎ (row.ticket_type_id ≢ t)
    → active_quantity now e t (row ∷ rs) ≡ active_quantity now e t rs
unfolding active_quantity
active_quantity-cons_other now e t row rs h = ground arith
