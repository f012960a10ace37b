-- ===== src/Orders/Replay.antt =====
-- A key that is stored: a checkout under it is not answered.
use govibe_core.Prelude.{◌≡◌, refl, ap, ◌∙◌, ℕ, String, false, some, if◌then◌else◌}
use govibe_core.Store.{
  Db, Clock, OrderResult, IdempotencyKey, ok, err, in_aborted, transaction_aborted, commit,
  Post-committed, run_step, run_fail,
}
use govibe_core.Context.{RequestContext, Uuids}
use govibe_core.LaunchControl.{LaunchConfig}
use govibe_core.Idempotency.{Scope, find_key, find_by_key, try_create_pending}
use govibe_core.Orders.{
  CreateOrderInput, checkout_scope, claim_key, check_existing, create_order_tx, create_order,
}
use govibe_core.Orders.Checkout.{IsCheckedOut, create_order_tx-IsCheckedOut}

module _ (scope : Scope) (hash : ℕ) (db : Db) (key : IdempotencyKey)
    (stored : find_key scope db.idempotency_keys ≡ some key) where
  claim_old : try_create_pending scope hash db ≡ ok (false, db)
  unfolding try_create_pending
  claim_old = rw (stored, if◌then◌else◌) refl

  claim_refused : claim_key scope hash db ≡ err transaction_aborted
  unfolding claim_key check_existing
  claim_refused =
      run_step (check_existing scope hash) db _ _ _ claim_old
      ∙ run_fail _ db (in_aborted (find_by_key scope)) transaction_aborted refl

module _ (sha256 : String → ℕ) (request_hash : CreateOrderInput → ℕ) (config : LaunchConfig) where
  -- A checkout that succeeds was made for a hold of the user's that is held and runs on, under a
  -- key that was not stored, passed the launch control, placed a reserved order of the hold, and
  -- left its response under its key.
  pub create_order-IsCheckedOut :
      (clock : Clock) (uuid : Uuids) (ctx : RequestContext) (actor : ℕ) (input : CreateOrderInput)
      (db db' : Db) (r : OrderResult)
      → ctx.user_id ≡ some actor
      → create_order sha256 request_hash config clock uuid (some ctx) input db ≡ (ok r, db')
      → IsCheckedOut config clock uuid
          (checkout_scope sha256 actor input)
          (request_hash input)
          actor
          input
          db
          r
          db'
  unfolding create_order
  create_order-IsCheckedOut clock uuid ctx actor input db db' r user run =
      Post-committed
        (IsCheckedOut config clock uuid (checkout_scope sha256 actor input) (request_hash input)
          actor input db)
        (create_order_tx config clock uuid (checkout_scope sha256 actor input) (request_hash input)
          actor ctx.correlation_id input)
        db db' r
        (create_order_tx-IsCheckedOut config clock uuid (checkout_scope sha256 actor input)
          (request_hash input) actor ctx.correlation_id input db)
        (rw user at run)

  stored_key_refused :
      (clock : Clock) (uuid : Uuids) (ctx : RequestContext) (actor : ℕ) (input : CreateOrderInput)
      (db : Db) (key : IdempotencyKey)
      → ctx.user_id ≡ some actor
      → find_key (checkout_scope sha256 actor input) db.idempotency_keys ≡ some key
      → create_order sha256 request_hash config clock uuid (some ctx) input db
        ≡ (err transaction_aborted, db)
  unfolding create_order create_order_tx
  stored_key_refused clock uuid ctx actor input db key user stored = rw user (
      ap (commit db) (
        run_fail _ db _ _
          (claim_refused (checkout_scope sha256 actor input) (request_hash input) db key stored)))

  -- After a checkout that succeeded, every checkout of the same user whose key has the same hash,
  -- of the same request or of another one, at whatever time, fails in the aborted transaction, and
  -- leaves the database as it is: a key makes one order, and its stored response is not given.
  pub create_order_once :
      (clock later : Clock) (uuid uuid' : Uuids) (ctx ctx' : RequestContext) (actor : ℕ)
      (input input' : CreateOrderInput) (db db' : Db) (r : OrderResult)
      → ctx.user_id ≡ some actor
      → ctx'.user_id ≡ some actor
      → sha256 input'.idempotency_key ≡ sha256 input.idempotency_key
      → create_order sha256 request_hash config clock uuid (some ctx) input db ≡ (ok r, db')
      → create_order sha256 request_hash config later uuid' (some ctx') input' db'
        ≡ (err transaction_aborted, db')
  create_order_once clock later uuid uuid' ctx ctx' actor input input' db db' r user user' same
        run =
      stored_key_refused later uuid' ctx' actor input' db' c.key user'
        (ap (λ h. find_key (under h) db'.idempotency_keys) same ∙ c.stored)
    where
      c :
          IsCheckedOut config clock uuid
            (checkout_scope sha256 actor input)
            (request_hash input)
            actor
            input
            db
            r
            db'
      c = create_order-IsCheckedOut clock uuid ctx actor input db db' r user run

      under : ℕ → Scope
      under h = record { actor_user_id = actor; use_case = "checkout.create_order"; key_hash = h }
