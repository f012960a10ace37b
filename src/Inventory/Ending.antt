-- ===== src/Inventory/Ending.antt =====
-- The use cases that end holds, and the repair of the cached count, keep every bucket covered.
use native.Mathlib.Nat.{le_refl}
use govibe_core.Prelude.{
  ℕ, ◌+◌, ◌≤◌, ◌≡◌, refl, sym, subst, not, ◌||◌, some, List, [], ◌∷◌, inl, inr, arith, ltb, ◌==◌,
  if◌then◌else◌, Bool-cases,
}
use govibe_core.Store.{
  Db, Clock, Inventory, Reservation, ReservationStatus, is_held, pure, Post, Post-bind, Post-gets,
  Post-or_throw, Post-weaken, Post-write,
}
use govibe_core.Context.{Uuids}
use govibe_core.Journal.Keeps.{SameStock, append_both-SameStock}
use govibe_core.Inventory.Repository.{find_bucket, active_quantity, update_reserved_count}
use govibe_core.Inventory.Quantity.{active_quantity-set_status}
use govibe_core.Inventory.Writes.{
  with_reserved, with_status, update_reserved_count_writes, update_reservation_status_writes,
}
use govibe_core.Inventory.Fits.{find_bucket_key}
use govibe_core.Inventory.Safety.{
  IsSafe, IsSafe-SameStock, end_hold-Fits, set_reserved-Fits, counted_at,
}
use govibe_core.Inventory.Expiry.{
  ReleaseResult, kept, release_held, release_expired_tx, journal_expiry, sweep_one, sweep_loop,
  SweepResult, sweep_tx, ReconcileResult, reconcile_tx,
}

-- A hold's end with any count between the active holds after and before it.
end_hold-IsSafe :
    (now e t n id : ℕ) (b : Inventory) (db : Db)
    → IsSafe now db
    → find_bucket e t db.inventories ≡ some b
    → active_quantity now e t (with_status id ReservationStatus.expired db).reservations ≤ n
    → n ≤ active_quantity now e t db.reservations
    → IsSafe now (with_reserved b.id n (with_status id ReservationStatus.expired db))
end_hold-IsSafe now e t n id b db safe found low high =
    end_hold-Fits now e t n id ReservationStatus.expired b db.inventories db.reservations refl safe
      found low high

pub release_held-IsSafe :
    (now : ℕ) (row : Reservation) (db : Db)
    → IsSafe now db
    → Post (release_held now row db) (λ _ db'. IsSafe now db')
unfolding release_held
release_held-IsSafe now row db safe = Post-gets Q _ _ db (
    Post-or_throw Q _ _ _ db (λ b found. Post-gets Q _ _ db (
      Post-write Q _ _ db _ (update_reservation_status_writes _ _ _) (
        Post-write Q _ _ _ _ (update_reserved_count_writes _ _ _) (
          end_hold-IsSafe now row.event_id row.ticket_type_id _ row.id b db safe found
            (active_quantity-set_status now _ _ row.id ReservationStatus.expired db.reservations
              refl)
            (le_refl _))))))
  where
    Q : ReleaseResult → Db → Type 0
    Q _ db' = IsSafe now db'

-- A release keeps every bucket covered, at whatever time it is told.
pub release_expired_tx-IsSafe :
    (told now id : ℕ) (db : Db)
    → IsSafe now db
    → Post (release_expired_tx told now id db) (λ _ db'. IsSafe now db')
unfolding release_expired_tx
release_expired_tx-IsSafe told now id db safe =
    Post-gets Q _ _ db (Post-or_throw Q _ _ _ db (λ row found. branch row))
  where
    Q : ReleaseResult → Db → Type 0
    Q _ db' = IsSafe now db'

    branch :
        (row : Reservation)
        → Post
            ((if not (is_held row.status) || ltb told row.expires_at
                then pure kept
                else release_held now row)
              db)
            Q
    branch row = elim (Bool-cases (not (is_held row.status) || ltb told row.expires_at)) [
      | inl p ↦ rw (p, if◌then◌else◌) safe
      | inr p ↦ rw (p, if◌then◌else◌) (release_held-IsSafe now row db safe)
    ]

journal_expiry-SameStock :
    (clock : Clock) (a o : ℕ) (row : Reservation) (db : Db)
    → Post (journal_expiry clock a o row db) (λ _ db'. SameStock db db')
unfolding journal_expiry
journal_expiry-SameStock clock a o row db = append_both-SameStock _ _ db

pub sweep_one-IsSafe :
    (clock : Clock) (a o : ℕ) (row : Reservation) (db : Db)
    → IsSafe clock.db db
    → Post (sweep_one clock a o row db) (λ _ db'. IsSafe clock.db db')
unfolding sweep_one
sweep_one-IsSafe clock a o row db safe = Post-gets Q _ _ db (
    Post-or_throw Q _ _ _ db (λ b found.
      Post-write Q _ _ db ended (update_reservation_status_writes _ _ _) (
        Post-gets Q _ _ _ (
          Post-write Q _ _ _ (written b) (update_reserved_count_writes _ _ _) (
            Post-weaken Q (λ _ db'. SameStock (written b) db') _
              (journal_expiry-SameStock clock a o row (written b))
              (λ _ db' same. IsSafe-SameStock clock.db (written b) db' same (
                end_hold-IsSafe clock.db row.event_id row.ticket_type_id _ row.id b db safe found
                  (le_refl _)
                  (active_quantity-set_status clock.db _ _ row.id ReservationStatus.expired
                    db.reservations refl))))))))
  where
    Q : Unit {0} → Db → Type 0
    Q _ db' = IsSafe clock.db db'

    ended : Db
    ended = with_status row.id ReservationStatus.expired db

    written : Inventory → Db
    written b =
        with_reserved b.id
          (active_quantity clock.db row.event_id row.ticket_type_id ended.reservations) ended

pub sweep_loop-IsSafe :
    (clock : Clock) (uuid : Uuids) (n : ℕ) (rows : List Reservation) (db : Db)
    → IsSafe clock.db db
    → Post (sweep_loop clock uuid n rows db) (λ _ db'. IsSafe clock.db db')
unfolding sweep_loop
sweep_loop-IsSafe clock uuid n [] db safe = safe
sweep_loop-IsSafe clock uuid n (row ∷ rows) db safe =
    Post-bind Q (λ _ db'. IsSafe clock.db db') _ _ db (sweep_one-IsSafe clock _ _ row db safe)
      (λ _ db1 safe1.
        Post-bind Q (λ _ db'. IsSafe clock.db db') _ _ db1
          (sweep_loop-IsSafe clock uuid (n + 1) rows db1 safe1) (λ _ db2 safe2. safe2))
  where
    Q : List ℕ → Db → Type 0
    Q _ db' = IsSafe clock.db db'

pub sweep_tx-IsSafe :
    (clock : Clock) (uuid : Uuids) (limit : ℕ) (db : Db)
    → IsSafe clock.db db
    → Post (sweep_tx clock uuid limit db) (λ _ db'. IsSafe clock.db db')
unfolding sweep_tx
sweep_tx-IsSafe clock uuid limit db safe = Post-gets Q _ _ db (
    Post-bind Q (λ _ db'. IsSafe clock.db db') _ _ db (sweep_loop-IsSafe clock uuid 0 _ db safe)
      (λ _ db2 safe2. safe2))
  where
    Q : SweepResult → Db → Type 0
    Q _ db' = IsSafe clock.db db'

pub reconcile_tx-IsSafe :
    (now e t : ℕ) (db : Db)
    → IsSafe now db
    → Post (reconcile_tx now e t db) (λ _ db'. IsSafe now db')
unfolding reconcile_tx
reconcile_tx-IsSafe now e t db safe = Post-gets Q _ _ db (
    Post-or_throw Q _ _ _ db (λ b found.
      Post-gets Q _ _ db
        (Post-bind Q (λ _ db'. IsSafe now db') _ _ db (correct b found) (λ _ db' s. s))))
  where
    Q : ReconcileResult → Db → Type 0
    Q _ db' = IsSafe now db'

    live : ℕ
    live = active_quantity now e t db.reservations

    repaired :
        (b : Inventory)
        → find_bucket e t db.inventories ≡ some b
        → IsSafe now (with_reserved b.id live db)
    repaired b found =
        let key = find_bucket_key e t db.inventories b found in
        let counted = counted_at now e t b db safe found in
        let within : b.reserved_count + b.sold_count ≤ b.capacity_total =
          (safe.covered e t b found).within in
        set_reserved-Fits now e t live b db.inventories db.reservations db.reservations safe found
          (le_refl _) (omega arith) (λ e' t' _. le_refl _)

    correct :
        (b : Inventory)
        → find_bucket e t db.inventories ≡ some b
        → Post
            ((if not (live == b.reserved_count) then update_reserved_count b.id live else pure tt)
              db)
            (λ _ db'. IsSafe now db')
    correct b found = elim (Bool-cases (not (live == b.reserved_count))) [
      | inl p ↦
          rw (p, if◌then◌else◌)
            (Post-weaken (λ _ db'. IsSafe now db') (λ _ db'. db' ≡ with_reserved b.id live db) _
              (update_reserved_count_writes b.id live db)
              (λ _ db' same. subst (IsSafe now) (sym same) (repaired b found)))
      | inr p ↦ rw (p, if◌then◌else◌) safe
    ]
