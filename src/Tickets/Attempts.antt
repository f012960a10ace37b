-- ===== src/Tickets/Attempts.antt =====
-- The issuance with its retries: a failed attempt is rolled back, so the next one starts from the
-- same database.
use govibe_core.Prelude.{
  ℕ, zero, suc, ◌+◌, ◌<◌, ◌≡◌, refl, sym, subst, Option, List, if◌then◌else◌, Bool-cases, inl, inr,
}
use govibe_core.Store.{
  Db, Clock, Order, Reservation, Call, Result, ok, err, commit, run_in_transaction, Post, Post-read,
}
use govibe_core.Context.{RequestContext, Uuids}
use govibe_core.Inventory.Safety.{IsSafe}
use govibe_core.Tickets.Allocator.{
  Reference, Generator, draw, is_unique_constraint_error, after_attempt, attempts, allocate_batch,
}
use govibe_core.Tickets.Issue.{issue_tx, reservation_quantity_tx, issue_counted, issue}
use govibe_core.Tickets.Effects.{IsLoaded, Loaded, load_validated-IsLoaded}
use govibe_core.Tickets.Safety.{issue_tx-IsSafe}

-- What one attempt leaves: `P` still, where it failed, and `Q` where it wrote.
abbrev pub Leaves : {A : Type 0} → (Db → Type 0) → (Db → Type 0) → Result A × Db → Type 0
Leaves P Q (ok a, db) = Q db
Leaves P Q (err e, db) = P db

module _ {A : Type 0} (generate : Generator) (count : ℕ) (writer : ℕ → List Reference → Call A)
    (P Q : Db → Type 0) (weaker : (db : Db) → P db → Q db)
    (each : (attempt : ℕ) (refs : List Reference) (db : Db)
      → P db
      → Leaves P Q (writer attempt refs db)) where
  after_attempt-keeps :
      (again : Call A)
      → ((db : Db) → P db → Q (again db).1)
      → (x : Result A × Db) → Leaves P Q x
      → Q (after_attempt again x).1
  unfolding after_attempt
  after_attempt-keeps again rest (ok a, db') q = q
  after_attempt-keeps again rest (err e, db') p = elim (Bool-cases (is_unique_constraint_error e)) [
    | inl retried ↦ rw (retried, if◌then◌else◌) (rest db' p)
    | inr stopped ↦ rw (stopped, if◌then◌else◌) (weaker db' p)
  ]

  attempts-keeps :
      (left attempt : ℕ) (db : Db) → P db → Q (attempts generate count writer left attempt db).1
  unfolding attempts
  attempts-keeps zero attempt db p = weaker db p
  attempts-keeps (suc left) attempt db p =
      after_attempt-keeps _ (attempts-keeps left (attempt + 1)) _
        (each attempt (draw generate attempt 0 count) db p)

  pub allocate_batch-keeps : (db : Db) → P db → Q (allocate_batch generate count writer db).1
  unfolding allocate_batch
  allocate_batch-keeps db p = attempts-keeps 5 1 db p

-- The hold that an order's tickets are issued for has not run out.
abbrev pub IsInTime : ℕ → ℕ → Db → Type 0
IsInTime now order_id db =
    (order : Order) (row : Reservation) → IsLoaded order_id db order row → now < row.expires_at

-- The quantity is read without a write.
reservation_quantity_tx_reads :
    (order_id : ℕ) (db : Db) → Post (reservation_quantity_tx order_id db) (λ _ db'. db' ≡ db)
unfolding reservation_quantity_tx
reservation_quantity_tx_reads order_id db =
    Post-read (λ _ db'. db' ≡ db) (Loaded order_id db) _ _ db (load_validated-IsLoaded order_id db)
      (λ p loaded. refl)

-- A transaction that is rolled back leaves what held before it.
commit-Leaves :
    {A : Type 0} (P Q : Db → Type 0) (db : Db) (x : Result (A × Db))
    → P db
    → Post x (λ _ db'. Q db')
    → Leaves P Q (commit db x)
commit-Leaves P Q db (ok (a, db')) p h = h
commit-Leaves P Q db (err e) p h = p

module _ (generate : Generator) (clock : Clock) (uuids : ℕ → Uuids) (ctx : Option RequestContext)
    (order_id : ℕ) where
  abbrev P : Db → Type 0
  P d = IsSafe clock.db d × IsInTime clock.db order_id d

  issue_counted-IsSafe :
      (db : Db) (x : Result (ℕ × Db))
      → P db
      → Post x (λ _ db'. db' ≡ db)
      → IsSafe clock.db (issue_counted generate clock uuids ctx order_id db x).1
  unfolding issue_counted
  issue_counted-IsSafe db (err e) p h = p.0
  issue_counted-IsSafe db (ok (count, db')) p h =
      allocate_batch-keeps generate count
        (λ attempt refs. run_in_transaction (issue_tx clock (uuids attempt) ctx order_id refs)) P
        (IsSafe clock.db) (λ d q. q.0)
        (λ attempt refs d q.
          commit-Leaves P (IsSafe clock.db) d (issue_tx clock (uuids attempt) ctx order_id refs d) q
            (issue_tx-IsSafe clock (uuids attempt) ctx order_id refs d q.0 q.1))
        db' (subst P (sym h) p)

  -- If every bucket is covered, and the hold that is linked to the order has not run out, every
  -- bucket is covered after an issuance of the order's tickets, whether it succeeds or fails and
  -- whatever its attempts meet.
  pub issue-IsSafe :
      (db : Db)
      → IsSafe clock.db db
      → IsInTime clock.db order_id db
      → IsSafe clock.db (issue generate clock uuids ctx order_id db).1
  unfolding issue
  issue-IsSafe db safe in_time =
      issue_counted-IsSafe db (reservation_quantity_tx order_id db) (safe, in_time)
        (reservation_quantity_tx_reads order_id db)
