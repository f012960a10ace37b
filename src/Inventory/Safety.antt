-- ===== src/Inventory/Safety.antt =====
-- No use case of the inventory oversells a bucket: each keeps `Fits`.
use native.Mathlib.Decide.{ℕ_discrete}
use native.Mathlib.Nat.{le_trans, le_refl}
use govibe_core.Prelude.{
  ℕ, ◌+◌, ◌*◌, ◌≤◌, ◌≡◌, ◌≢◌, refl, sym, subst, false, Option, some, List, inl, inr, ◌⊎◌, arith,
  ◌==◌, if◌then◌else◌, update_rows, Bool-cases,
}
use govibe_core.Store.{
  Db, Clock, Inventory, Reservation, ReservationStatus, is_held, Post, Post-bind, Post-gets,
  Post-or_throw, Post-throw_if, Post-write, Post-read,
}
use govibe_core.Context.{Uuids}
use govibe_core.Journal.Keeps.{SameStock, append_both-SameStock}
use govibe_core.Inventory.Repository.{find_bucket, active_quantity, set_reserved, set_status}
use govibe_core.Inventory.Quantity.{
  active_quantity-anti, active_quantity-set_status, active_quantity-cons,
  active_quantity-cons_other,
}
use govibe_core.Inventory.Writes.{
  with_hold, with_reserved, create_held_reservation_writes, update_reserved_count_writes,
}
use govibe_core.Inventory.Fits.{IsCovered, Fits, find_bucket_key, update-Fits}
use govibe_core.Inventory.Reserve.{
  is_tight, authoritative_reserved, held_row, journal_hold, reserve_tx, ReserveResult,
}

-- The invariant of a database.
abbrev pub IsSafe : ℕ → Db → Type 0
IsSafe now db = Fits now db.inventories db.reservations

pub IsSafe-SameStock : (now : ℕ) (db db' : Db) → SameStock db db' → IsSafe now db → IsSafe now db'
IsSafe-SameStock now db db' (i, r) h = rw (i, r) h

-- Time alone breaks nothing.
pub IsSafe-later : (now later : ℕ) (db : Db) → now ≤ later → IsSafe now db → IsSafe later db
IsSafe-later now later db h v = record {
  covered = λ e t b found.
      let c = v.covered e t b found in
      record {
        counted =
            le_trans (active_quantity-anti now later b.event_id b.ticket_type_id db.reservations h)
              c.counted;
        within = c.within;
      };
  distinct = v.distinct;
}

-- Buckets of different ids stand under different keys.
other_key :
    (e t e' t' : ℕ) (b c : Inventory) (rows : List Inventory)
    → find_bucket e t rows ≡ some b
    → find_bucket e' t' rows ≡ some c
    → c.id ≢ b.id
    → (e ≢ e') ⊎ (t ≢ t')
other_key e t e' t' b c rows found found' diff = elim (ℕ_discrete e e') [
  | no p ↦ inl p
  | yes p ↦ elim (ℕ_discrete t t') [ no q ↦ inr q | yes q ↦ absurd (diff (ground (arith, p, q))) ]
]

-- Setting the count of one bucket, beside a change of the reservations that adds no active hold
-- to another bucket.
pub set_reserved-Fits :
    (now e t n : ℕ) (b : Inventory) (rows : List Inventory) (rs rs' : List Reservation)
    → Fits now rows rs
    → find_bucket e t rows ≡ some b
    → active_quantity now e t rs' ≤ n
    → n + b.sold_count ≤ b.capacity_total
    → ((e' t' : ℕ)
        → (e ≢ e') ⊎ (t ≢ t')
        → active_quantity now e' t' rs' ≤ active_quantity now e' t' rs)
    → Fits now (update_rows (λ r. r.id == b.id) (set_reserved n) rows) rs'
set_reserved-Fits now e t n b rows rs rs' fits found counted within others =
    update-Fits now b.id (set_reserved n) rows rs rs' (λ c. ((refl, refl), refl)) fits
      (λ e' t' c found' same.
        let one = fits.distinct e' t' e t c b found' found same in
        let key = find_bucket_key e t rows b found in
        subst (λ d. IsCovered now rs' (set_reserved n d)) (sym one)
          (record { counted = rw (key.0, key.1) counted; within = within }))
      (λ e' t' c found' diff. others e' t' (other_key e t e' t' b c rows found found' diff))

-- The update of one reservation's status to one that is not HELD, and of its bucket's count.
pub end_hold-Fits :
    (now e t n id : ℕ) (s : ReservationStatus) (b : Inventory) (rows : List Inventory)
    (rs : List Reservation)
    → is_held s ≡ false
    → Fits now rows rs
    → find_bucket e t rows ≡ some b
    → active_quantity now e t (update_rows (λ r. r.id == id) (set_status s) rs) ≤ n
    → n ≤ active_quantity now e t rs
    → Fits now
        (update_rows (λ r. r.id == b.id) (set_reserved n) rows)
        (update_rows (λ r. r.id == id) (set_status s) rs)
end_hold-Fits now e t n id s b rows rs ended fits found low high =
    let key = find_bucket_key e t rows b found in
    let old = fits.covered e t b found in
    let counted : active_quantity now e t rs ≤ b.reserved_count =
      rw (key.0, key.1) at old.counted in
    let within : b.reserved_count + b.sold_count ≤ b.capacity_total = old.within in
    set_reserved-Fits now e t n b rows rs _ fits found low (omega arith)
      (λ e' t' _. active_quantity-set_status now e' t' id s rs ended)

-- The count that a new hold starts from covers the active holds.
authoritative_reserved_covers :
    (now : ℕ) (e t : ℕ) (b : Inventory) (db : Db)
    → active_quantity now e t db.reservations ≤ b.reserved_count
    → Post
        (authoritative_reserved now e t b db)
        (λ n db'. (active_quantity now e t db.reservations ≤ n) × (db' ≡ db))
unfolding authoritative_reserved
authoritative_reserved_covers now e t b db h = elim (Bool-cases (is_tight b)) [
  | inl p ↦ rw (p, if◌then◌else◌) (le_refl _, refl)
  | inr p ↦ rw (p, if◌then◌else◌) (h, refl)
]

journal_hold-SameStock :
    (clock : Clock) (uuid : Uuids) (actor : ℕ) (corr : Option ℕ) (row : Reservation) (db : Db)
    → Post (journal_hold clock uuid actor corr row db) (λ _ db'. SameStock db db')
unfolding journal_hold
journal_hold-SameStock clock uuid actor corr row db = append_both-SameStock _ _ db

-- The cached count of a bucket that is found covers the active holds under its key.
pub counted_at :
    (now e t : ℕ) (b : Inventory) (db : Db)
    → IsSafe now db
    → find_bucket e t db.inventories ≡ some b
    → active_quantity now e t db.reservations ≤ b.reserved_count
counted_at now e t b db safe found =
    let key = find_bucket_key e t db.inventories b found in
    rw (key.0, key.1) at (safe.covered e t b found).counted

-- The writes of a hold on a bucket that has room for it.
hold_writes-IsSafe :
    (now e t n quantity : ℕ) (b : Inventory) (row : Reservation) (db : Db)
    → row.event_id ≡ e
    → row.ticket_type_id ≡ t
    → row.quantity ≡ quantity
    → IsSafe now db
    → find_bucket e t db.inventories ≡ some b
    → active_quantity now e t db.reservations ≤ n
    → n + quantity + b.sold_count ≤ b.capacity_total
    → IsSafe now (with_reserved b.id (n + quantity) (with_hold row db))
hold_writes-IsSafe now e t n quantity b row db ke kt kq safe found cover room =
    set_reserved-Fits now e t (n + quantity) b db.inventories db.reservations _ safe found
      (omega (arith, active_quantity-cons now e t row db.reservations)) room
      (λ e' t' other.
        omega (arith, active_quantity-cons_other now e' t' row db.reservations (rw (ke, kt) other)))

-- Reserving keeps every bucket covered.
pub reserve_tx-IsSafe :
    (clock : Clock) (uuid : Uuids) (actor : ℕ) (corr : Option ℕ) (e t quantity ttl : ℕ) (db : Db)
    → IsSafe clock.db db
    → Post (reserve_tx clock uuid actor corr e t quantity ttl db) (λ _ db'. IsSafe clock.db db')
unfolding reserve_tx
reserve_tx-IsSafe clock uuid actor corr e t quantity ttl db safe = Post-gets Q _ _ db (
    Post-or_throw Q _ _ _ db (λ b found.
      Post-read Q (λ n. active_quantity clock.db e t db.reservations ≤ n) _ _ db
        (authoritative_reserved_covers clock.db e t b db (counted_at clock.db e t b db safe found))
        (λ n cover. Post-throw_if Q _ _ _ db (λ room. Post-throw_if Q _ _ _ db (λ valid.
          Post-write Q _ _ db _ (create_held_reservation_writes _ db) (
            Post-write Q _ _ _ _ (update_reserved_count_writes _ _ _) (
              Post-bind Q (λ _ db'. SameStock (written b n) db') _ _ (written b n)
                (journal_hold-SameStock clock uuid actor corr row (written b n))
                (λ _ db' same. IsSafe-SameStock clock.db (written b n) db' same (
                  hold_writes-IsSafe clock.db e t n quantity b row db refl refl refl safe found
                    cover (ground arith))))))))))
  where
    Q : ReserveResult → Db → Type 0
    Q _ db' = IsSafe clock.db db'

    row : Reservation
    row = held_row (uuid 0) actor e t quantity (clock.app + ttl * 1000)

    written : Inventory → ℕ → Db
    written b n = with_reserved b.id (n + quantity) (with_hold row db)
