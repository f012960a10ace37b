-- ===== src/Orders.antt =====
-- Checkout: an order is made of a held reservation, once for each idempotency key.
-- src/modules/orders/application/use-cases/create-order.use-case.ts and
-- src/modules/orders/infrastructure/repositories/prisma-order.repository.ts.
pub mod Writes
pub mod Effects
pub mod Checkout
pub mod Replay
use govibe_core.Prelude.{
  ℕ, String, Bool, true, false, true, false, not, Option, none, some, List, [], ◌∷◌, ◌==◌, leb,
  find_row, update_rows,
}
use govibe_core.Store.{
  Clock, Order, OrderStatus, OrderResult, Reservation, IdempotencyKey, is_held, num, text, err, Tx,
  pure, gets, or_throw, throw_if, in_aborted, modify, require, is_some, ◌>>=◌, ◌>>◌, Call,
  run_in_transaction, domain_conflict, not_found, invalid_state_transition, idempotency_conflict,
  unique_violation,
}
use govibe_core.Context.{RequestContext, user_of, correlation_of, Uuids}
use govibe_core.Journal.{append_audit, append_outbox, pending_event}
use govibe_core.LaunchControl.{LaunchConfig, assert_checkout_allowed}
use govibe_core.Idempotency.{Scope, find_by_key, try_create_pending, complete}
use govibe_core.Inventory.Repository.{find_reservation_by_id}

pub record CreateOrderInput : Type 0 where
  pub idempotency_key : String
  pub reservation_id : ℕ
  pub total_amount : ℕ
  pub currency : String

abbrev pub find_order : ℕ → List Order → Option Order
find_order id rows = find_row (λ r. r.id == id) rows

-- `OrderRepository.create`
unfoldable pub insert_order : Order → Tx (Unit {0})
insert_order row db =
    (throw_if (is_some (find_order row.id db.orders)) unique_violation
        >> modify (λ d. record d { orders = row ∷ d.orders }))
      db

-- `OrderRepository.findById`
unfoldable pub find_order_by_id : ℕ → Tx (Option Order)
find_order_by_id id = gets (λ db. find_order id db.orders)

abbrev pub set_order_status : OrderStatus → Order → Order
set_order_status s row = record row { status = s }

-- `OrderRepository.updateStatus`
unfoldable pub update_order_status : ℕ → OrderStatus → Tx (Unit {0})
update_order_status id s db =
    (require (is_some (find_order id db.orders))
        >> modify (λ d. record d {
          orders = update_rows (λ r. r.id == id) (set_order_status s) d.orders;
        }))
      db

abbrev pub checkout_scope : (String → ℕ) → ℕ → CreateOrderInput → Scope
checkout_scope sha256 actor input = record {
  actor_user_id = actor;
  use_case = "checkout.create_order";
  key_hash = sha256 input.idempotency_key;
}

-- What follows `tryCreatePending`: nothing for a key that was claimed; else the stored row, which
-- must be of the same request. The insert that failed has aborted the transaction by then.
unfoldable pub check_existing : Scope → ℕ → Bool → Tx (Option IdempotencyKey)
unfolding find_by_key
check_existing scope request_hash true = pure none
check_existing scope request_hash false = do
  found ← in_aborted (find_by_key scope)
  existing ← or_throw found (idempotency_conflict "Idempotency key collision.")
  throw_if (not (existing.request_hash == request_hash))
      (idempotency_conflict "Idempotency key reused with different payload.")
  pure (some existing)

unfoldable pub claim_key : Scope → ℕ → Tx (Option IdempotencyKey)
claim_key scope request_hash = do
  claimed ← try_create_pending scope request_hash
  check_existing scope request_hash claimed

-- The guards on the reservation.
unfoldable pub load_reservation : Clock → ℕ → ℕ → Tx Reservation
unfolding find_reservation_by_id
load_reservation clock actor reservation_id = do
  found ← find_reservation_by_id reservation_id
  row ← or_throw found (not_found "Reservation not found.")
  throw_if (not (row.owner_user_id == actor)) (not_found "Reservation not found.")
  throw_if (not (is_held row.status)) (invalid_state_transition "Reservation is not active.")
  throw_if (leb row.expires_at clock.app) (invalid_state_transition "Reservation has expired.")
  pure row

abbrev pub order_row : ℕ → ℕ → Reservation → CreateOrderInput → Order
order_row id actor row input = record {
  id = id;
  user_id = actor;
  event_id = row.event_id;
  reservation_id = some row.id;
  status = OrderStatus.reserved;
  total_amount = input.total_amount;
  currency = input.currency;
}

unfoldable pub journal_order :
    Clock → Uuids → ℕ → Option ℕ → Reservation → CreateOrderInput → Tx (Unit {0})
unfolding append_audit append_outbox
journal_order clock uuid actor correlation row input = do
  append_audit (record {
    id = uuid 1;
    actor_id = some actor;
    action = "ORDER_CREATED";
    entity_type = "order";
    entity_id = uuid 0;
    correlation_id = correlation;
    metadata =
        ("reservationId", num row.id)
        ∷ ("totalAmount", num input.total_amount)
        ∷ ("currency", text input.currency)
        ∷ [];
  })
  append_outbox (
      pending_event clock (uuid 2) "order" (uuid 0) "OrderCreated" (
        ("orderId", num (uuid 0))
        ∷ ("reservationId", num row.id)
        ∷ ("eventId", num row.event_id)
        ∷ []))

-- The writes for a new key.
unfoldable pub place_order :
    Clock → Uuids → Scope → ℕ → Option ℕ → Reservation → CreateOrderInput → Tx OrderResult
place_order clock uuid scope actor correlation row input = do
  insert_order (order_row (uuid 0) actor row input)
  let result : OrderResult = record { order_id = uuid 0; status = OrderStatus.reserved }
  complete scope 201 result
  journal_order clock uuid actor correlation row input
  pure result

-- A new key places the order; a stored one gives its response.
unfoldable pub answer :
    Clock
    → Uuids
    → Scope
    → ℕ
    → Option ℕ
    → Reservation
    → CreateOrderInput
    → Option IdempotencyKey
    → Tx OrderResult
answer clock uuid scope actor correlation row input none =
    place_order clock uuid scope actor correlation row input
answer clock uuid scope actor correlation row input (some existing) =
    or_throw existing.response_body
      (idempotency_conflict "Idempotent request is already in progress.")

unfoldable pub create_order_tx :
    LaunchConfig → Clock → Uuids → Scope → ℕ → ℕ → Option ℕ → CreateOrderInput → Tx OrderResult
create_order_tx config clock uuid scope request_hash actor correlation input = do
  claim ← claim_key scope request_hash
  row ← load_reservation clock actor input.reservation_id
  assert_checkout_allowed config row.event_id input.currency
  answer clock uuid scope actor correlation row input claim

-- `CreateOrderUseCase.execute`. The hashes of a key and of a request are arguments.
unfoldable pub create_order :
    (String → ℕ)
    → (CreateOrderInput → ℕ)
    → LaunchConfig
    → Clock
    → Uuids
    → Option RequestContext
    → CreateOrderInput
    → Call OrderResult
create_order sha256 request_hash config clock uuid ctx input db = elim (user_of ctx) [
  | none ↦ (err (domain_conflict "Authenticated user context is required."), db)
  | some actor ↦
      run_in_transaction
        (create_order_tx config clock uuid (checkout_scope sha256 actor input) (request_hash input)
          actor (correlation_of ctx) input)
        db
]
