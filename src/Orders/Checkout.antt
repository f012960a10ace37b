-- ===== src/Orders/Checkout.antt =====
-- A committed checkout.
use govibe_core.Prelude.{
  ℕ, ◌≡◌, refl, sym, subst, ap, ◌∙◌, true, Option, none, some, ◌∷◌, arith, if◌then◌else◌, find_row,
  update_rows,
}
use mathlib.Core.Path.{subst₂}
use text.Mathlib.TextPositions.{eq_refl}
use govibe_core.Store.{
  Db, Clock, OrderStatus, OrderResult, Reservation, IdempotencyKey, ok, Post, Post-bind, Post-write,
  Post-read, Post-ran, ◌>>=◌,
}
use govibe_core.Context.{Uuids}
use govibe_core.Journal.Keeps.{append_both_writes}
use govibe_core.LaunchControl.{LaunchConfig, assert_checkout_allowed}
use govibe_core.LaunchControl.Reads.{assert_checkout_allowed_reads, assert_checkout_allowed_events}
use govibe_core.Idempotency.{Scope, find_key, in_scope, pending_key, completed, complete}
use govibe_core.Orders.Writes.{insert_order_writes}
use govibe_core.Orders.{
  CreateOrderInput, answer, order_row, journal_order, place_order, create_order_tx,
}
use govibe_core.Orders.Effects.{
  with_pending, with_response, Claimed, claim_key-Claimed, IsEligible, load_reservation-IsEligible,
}

complete_writes :
    (scope : Scope) (r : OrderResult) (db : Db)
    → Post (complete scope 201 r db) (λ _ db'. db' ≡ with_response scope r db)
unfolding complete ◌>>=◌
complete_writes scope r db = ground arith

in_scope_self : (scope : Scope) (hash : ℕ) → in_scope scope (pending_key scope hash) ≡ true
in_scope_self scope hash = ground (arith, eq_refl scope.use_case)

-- What holds after a committed checkout.
pub record IsCheckedOut (config : LaunchConfig) (clock : Clock) (uuid : Uuids) (scope : Scope)
    (hash actor : ℕ) (input : CreateOrderInput) (db : Db) (r : OrderResult) (db' : Db)
    : Type 0 where
  pub row : Reservation
  pub eligible : IsEligible clock actor input.reservation_id db row
  pub allowed : assert_checkout_allowed config row.event_id input.currency db' ≡ ok (tt, db')
  pub unused : find_key scope db.idempotency_keys ≡ none
  pub result : r ≡ record { order_id = uuid 0; status = OrderStatus.reserved }
  pub placed : db'.orders ≡ order_row (uuid 0) actor row input ∷ db.orders
  pub key : IdempotencyKey
  pub stored : find_key scope db'.idempotency_keys ≡ some key
  pub same_request : key.request_hash ≡ hash
  pub response : key.response_body ≡ some r
  pub reservations : db'.reservations ≡ db.reservations
  pub inventories : db'.inventories ≡ db.inventories

module _ (config : LaunchConfig) (clock : Clock) (uuid : Uuids) (scope : Scope) (hash actor : ℕ)
    (corr : Option ℕ) (input : CreateOrderInput) (db : Db) where
  abbrev Q : OrderResult → Db → Type 0
  Q = IsCheckedOut config clock uuid scope hash actor input db

  abbrev result_new : OrderResult
  result_new = record { order_id = uuid 0; status = OrderStatus.reserved }

  -- The key that was claimed just now holds the response after `complete`.
  stored_new :
      find_key scope (with_response scope result_new (with_pending scope hash db)).idempotency_keys
      ≡ some (completed 201 result_new (pending_key scope hash))
  unfolding find_key find_row update_rows
  stored_new =
      let self = in_scope_self scope hash in rw (self, if◌then◌else◌, self, if◌then◌else◌) refl

  -- A claimed key: the order is placed.
  placed_case :
      (row : Reservation)
      → IsEligible clock actor input.reservation_id db row
      → assert_checkout_allowed config row.event_id input.currency (with_pending scope hash db)
        ≡ ok (tt, with_pending scope hash db)
      → find_key scope db.idempotency_keys ≡ none
      → Post (place_order clock uuid scope actor corr row input (with_pending scope hash db)) Q
  unfolding place_order journal_order
  placed_case row eligible allowed unused =
      Post-write Q _ _ (with_pending scope hash db) _ (insert_order_writes _ _) (
        Post-write Q _ _ _ _ (complete_writes scope result_new _) (
          Post-write Q _ _ _ _ (append_both_writes _ _ _) (record {
            row = row;
            eligible = eligible;
            allowed =
                assert_checkout_allowed_events config row.event_id input.currency
                  (with_pending scope hash db) _ refl allowed;
            unused = unused;
            result = refl;
            placed = refl;
            key = completed 201 result_new (pending_key scope hash);
            stored = stored_new;
            same_request = refl;
            response = refl;
            reservations = refl;
            inventories = refl;
          })))

  granted :
      (e : ℕ) (u : Unit {0}) (db1 db2 : Db)
      → assert_checkout_allowed config e input.currency db1 ≡ ok (u, db2)
      → db2 ≡ db1
      → assert_checkout_allowed config e input.currency db1 ≡ ok (tt, db1)
  granted e tt db1 db2 h same = h ∙ ap (λ d. ok (tt, d)) same

  -- The end of the transaction.
  last :
      (c : Option IdempotencyKey) (db1 : Db) (row : Reservation)
      → Claimed scope hash db c db1
      → IsEligible clock actor input.reservation_id db1 row
      → assert_checkout_allowed config row.event_id input.currency db1 ≡ ok (tt, db1)
      → Post (answer clock uuid scope actor corr row input c db1) Q
  unfolding answer
  last c db1 row claimed =
      subst₂
        (λ k d.
          IsEligible clock actor input.reservation_id d row
          → assert_checkout_allowed config row.event_id input.currency d ≡ ok (tt, d)
          → Post (answer clock uuid scope actor corr row input k d) Q)
        (sym claimed.claim) (sym claimed.after)
        (λ el al.
          placed_case row
            (record { found = el.found; owned = el.owned; held = el.held; running = el.running }) al
            claimed.unused)

  -- Whenever a checkout commits, `IsCheckedOut` holds.
  pub create_order_tx-IsCheckedOut :
      Post
        (create_order_tx config clock uuid scope hash actor corr input db)
        (IsCheckedOut config clock uuid scope hash actor input db)
  unfolding create_order_tx
  create_order_tx-IsCheckedOut =
      Post-bind Q (Claimed scope hash db) _ _ db (claim_key-Claimed scope hash db) (λ c db1 claimed.
        Post-read Q (IsEligible clock actor input.reservation_id db1) _ _ db1
          (load_reservation-IsEligible clock actor input.reservation_id db1)
          (λ row eligible.
            Post-bind Q
              (λ u db2.
                (assert_checkout_allowed config row.event_id input.currency db1 ≡ ok (u, db2))
                × (db2 ≡ db1))
              _ _ db1
              (Post-ran (λ _ db2. db2 ≡ db1)
                (assert_checkout_allowed config row.event_id input.currency) db1
                (assert_checkout_allowed_reads config row.event_id input.currency db1))
              (λ u db2 (allowed, same).
                subst (λ d. Post (answer clock uuid scope actor corr row input c d) Q) (sym same)
                  (last c db1 row claimed eligible (granted row.event_id u db1 db2 allowed same)))))
