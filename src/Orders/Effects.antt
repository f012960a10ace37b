-- ===== src/Orders/Effects.antt =====
-- What a committed checkout has checked and done.
use govibe_core.Prelude.{
  ℕ, ◌<◌, ◌≡◌, refl, sym, subst, true, false, Option, none, some, ◌∷◌, arith, if◌then◌else◌, ◌∙◌,
  update_rows, Option-cases, inl, inr, ◌⊎◌,
}
use govibe_core.Store.{
  Db, Clock, OrderResult, Reservation, IdempotencyKey, is_held, ok, Post, Post-gets, Post-or_throw,
  Post-throw_if, run_step, run_fail, transaction_aborted, err,
}
use govibe_core.Idempotency.{Scope, find_key, in_scope, pending_key, completed, try_create_pending}
use govibe_core.Inventory.Repository.{find_reservation}
use govibe_core.Orders.{claim_key, check_existing, load_reservation}

abbrev pub with_pending : Scope → ℕ → Db → Db
with_pending scope hash db = record db {
  idempotency_keys = pending_key scope hash ∷ db.idempotency_keys;
}

abbrev pub with_response : Scope → OrderResult → Db → Db
with_response scope r db = record db {
  idempotency_keys = update_rows (in_scope scope) (completed 201 r) db.idempotency_keys;
}

-- How a key is claimed: it is new.
pub record Claimed (scope : Scope) (hash : ℕ) (db : Db) (c : Option IdempotencyKey) (db' : Db)
    : Type 0 where
  pub unused : find_key scope db.idempotency_keys ≡ none
  pub claim : c ≡ none
  pub after : db' ≡ with_pending scope hash db

-- The two ends of `tryCreatePending`.
try_create_pending_cases :
    (scope : Scope) (hash : ℕ) (db : Db)
    → ((find_key scope db.idempotency_keys ≡ none)
        × (try_create_pending scope hash db ≡ ok (true, with_pending scope hash db)))
      ⊎ ((row : IdempotencyKey) × (find_key scope db.idempotency_keys ≡ some row)
          × (try_create_pending scope hash db ≡ ok (false, db)))
unfolding try_create_pending
try_create_pending_cases scope hash db = elim (Option-cases (find_key scope db.idempotency_keys)) [
  | inl e ↦ inl (e, rw (e, if◌then◌else◌) refl)
  | inr (row, e) ↦ inr (row, e, rw (e, if◌then◌else◌) refl)
]

pub claim_key-Claimed :
    (scope : Scope) (hash : ℕ) (db : Db) → Post (claim_key scope hash db) (Claimed scope hash db)
unfolding claim_key check_existing
claim_key-Claimed scope hash db = elim (try_create_pending_cases scope hash db) [
  | inl (e, run) ↦
      subst (λ x. Post x Q) (sym (run_step (check_existing scope hash) db _ _ _ run))
        (record { unused = e; claim = refl; after = refl })
  | inr (row, e, run) ↦
      subst (λ x. Post x Q)
        (sym (
          run_step (check_existing scope hash) db _ _ _ run
          ∙ run_fail _ db _ _ (λ i. err transaction_aborted)))
        tt
]
  where
    Q : Option IdempotencyKey → Db → Type 0
    Q = Claimed scope hash db

-- The guards on the reservation, as facts.
pub record IsEligible (clock : Clock) (actor id : ℕ) (db : Db) (row : Reservation) : Type 0 where
  pub found : find_reservation id db.reservations ≡ some row
  pub owned : row.owner_user_id ≡ actor
  pub held : is_held row.status ≡ true
  pub running : clock.app < row.expires_at

pub load_reservation-IsEligible :
    (clock : Clock) (actor id : ℕ) (db : Db)
    → Post
        (load_reservation clock actor id db)
        (λ row db'. IsEligible clock actor id db row × (db' ≡ db))
unfolding load_reservation
load_reservation-IsEligible clock actor id db = Post-gets Q _ _ db (
    Post-or_throw Q _ _ _ db (λ row found. Post-throw_if Q _ _ _ db (λ owned.
      Post-throw_if Q _ _ _ db (λ held. Post-throw_if Q _ _ _ db (λ running. (
        record { found = found; owned = ground arith; held = ground arith; running = ground arith },
        refl,
      ))))))
  where
    Q : Reservation → Db → Type 0
    Q row db' = IsEligible clock actor id db row × (db' ≡ db)
