-- ===== src/Payments/Verify.antt =====
-- The verification of an order's payment,
-- src/modules/payments/application/use-cases/verify-payment.use-case.ts, with the payment and
-- ledger repositories of src/modules/payments/infrastructure/repositories. The provider is called
-- over the network, so its answer is an argument.
use govibe_core.Prelude.{
  ℕ, ◌+◌, String, Bool, true, false, not, ◌&&◌, ◌||◌, Option, none, some, List, [], ◌∷◌, ◌==◌,
  text_eq, if◌then◌else◌, find_row, update_rows,
}
use govibe_core.Store.{
  Clock, OrderStatus, Payment, PaymentStatus, is_success, LedgerEntry, LedgerDirection, num, text,
  Result, ok, err, Tx, pure, gets, or_throw, throw_if, modify, require, is_some, ◌>>=◌, ◌>>◌, Call,
  run_in_transaction, not_found, invalid_state_transition, payment_already_processed,
  unique_violation,
}
use govibe_core.Context.{RequestContext, user_of, correlation_of, Uuids}
use govibe_core.Journal.{append_audit, append_outbox, pending_event}
use govibe_core.LaunchControl.{Provider}
use govibe_core.Orders.{find_order_by_id, update_order_status}

pub data ProviderStatus : Type 0 where
  success failed pending reversed refunded : ProviderStatus

-- The answer of `PaymentProvider.verifyPayment`.
pub record Verification : Type 0 where
  pub status : ProviderStatus
  pub amount_minor : ℕ
  pub currency : String

-- The providers' clients; a call may throw.
abbrev pub Providers : Type 0
Providers = Provider → ℕ → Result Verification

pub record VerifyInput : Type 0 where
  pub provider : Provider
  pub provider_ref : ℕ
  pub verified_success : Bool
  pub verified_currency : String

pub record VerifyResult : Type 0 where
  pub payment_id : ℕ
  pub order_id : ℕ
  pub payment_status : PaymentStatus
  pub order_status : OrderStatus

abbrev pub provider_name : Provider → String
provider_name Provider.paystack = "paystack"
provider_name Provider.momo = "momo"

abbrev pub provider_status_name : ProviderStatus → String
provider_status_name ProviderStatus.success = "SUCCESS"
provider_status_name ProviderStatus.failed = "FAILED"
provider_status_name ProviderStatus.pending = "PENDING"
provider_status_name ProviderStatus.reversed = "REVERSED"
provider_status_name ProviderStatus.refunded = "REFUNDED"

-- `mapProviderStatus`
unfoldable pub map_provider_status : ProviderStatus → PaymentStatus
map_provider_status ProviderStatus.success = PaymentStatus.success
map_provider_status ProviderStatus.failed = PaymentStatus.failed
map_provider_status ProviderStatus.reversed = PaymentStatus.reversed
map_provider_status ProviderStatus.refunded = PaymentStatus.refunded
map_provider_status ProviderStatus.pending = PaymentStatus.pending

-- `mapOrderStatus`
unfoldable pub map_order_status : PaymentStatus → OrderStatus
map_order_status PaymentStatus.success = OrderStatus.paid
map_order_status PaymentStatus.pending = OrderStatus.payment_pending
map_order_status _ = OrderStatus.failed

-- SUCCESS, REFUNDED and REVERSED end a payment.
unfoldable pub is_terminal : PaymentStatus → Bool
is_terminal PaymentStatus.success = true
is_terminal PaymentStatus.refunded = true
is_terminal PaymentStatus.reversed = true
is_terminal _ = false

abbrev pub is_option : Option ℕ → ℕ → Bool
is_option none n = false
is_option (some m) n = m == n

abbrev pub by_ref : Provider → ℕ → Payment → Bool
by_ref provider ref row =
    text_eq row.provider (provider_name provider) && is_option row.provider_ref ref

-- `PaymentRepository.findByProviderRef`
unfoldable pub find_by_ref : Provider → ℕ → List Payment → Option Payment
find_by_ref provider ref rows = find_row (by_ref provider ref) rows

unfoldable pub find_by_provider_ref : Provider → ℕ → Tx (Option Payment)
find_by_provider_ref provider ref = gets (λ db. find_by_ref provider ref db.payments)

abbrev pub set_payment_status : PaymentStatus → Payment → Payment
set_payment_status s row = record row { status = s }

-- `PaymentRepository.updateStatus`
unfoldable pub update_payment_status : ℕ → PaymentStatus → Tx (Unit {0})
update_payment_status id s db =
    (require (is_some (find_row (λ (r : Payment). r.id == id) db.payments))
        >> modify (λ d. record d {
          payments = update_rows (λ r. r.id == id) (set_payment_status s) d.payments;
        }))
      db

-- `LedgerRepository.append`
unfoldable pub append_ledger : LedgerEntry → Tx (Unit {0})
append_ledger row db =
    (throw_if (is_some (find_row (λ (r : LedgerEntry). r.id == row.id) db.ledger_entries))
          unique_violation
        >> modify (λ d. record d { ledger_entries = row ∷ d.ledger_entries }))
      db

abbrev pub credit_row : ℕ → Payment → Verification → Option ℕ → LedgerEntry
credit_row id payment v correlation = record {
  id = id;
  order_id = payment.order_id;
  payment_id = payment.id;
  direction = LedgerDirection.credit;
  account_type = "CUSTOMER_CASH_IN";
  amount = v.amount_minor;
  currency = v.currency;
  correlation_id = correlation;
}

-- The ledger entry of a success.
unfoldable pub credit_if_success :
    Uuids → Payment → Verification → Option ℕ → PaymentStatus → Tx (Unit {0})
unfolding append_ledger
credit_if_success uuid payment v correlation s =
    if is_success s then append_ledger (credit_row (uuid 0) payment v correlation) else pure tt

abbrev pub outcome_event : PaymentStatus → String
outcome_event PaymentStatus.success = "PaymentVerifiedSuccess"
outcome_event PaymentStatus.pending = "PaymentVerificationPending"
outcome_event _ = "PaymentVerifiedFailure"

unfoldable pub journal_verification :
    Clock
    → ℕ
    → ℕ
    → Option RequestContext
    → VerifyInput
    → Verification
    → Payment
    → PaymentStatus
    → Tx (Unit {0})
unfolding append_audit append_outbox
journal_verification clock audit_id outbox_id ctx input v payment s = do
  append_audit (record {
    id = audit_id;
    actor_id = user_of ctx;
    action = "PAYMENT_VERIFIED";
    entity_type = "payment";
    entity_id = payment.id;
    correlation_id = correlation_of ctx;
    metadata =
        ("provider", text (provider_name input.provider))
        ∷ ("providerRef", num input.provider_ref)
        ∷ ("providerStatus", text (provider_status_name v.status))
        ∷ ("orderId", num payment.order_id)
        ∷ [];
  })
  append_outbox (
      pending_event clock outbox_id "payment" payment.id (outcome_event s) (
        ("paymentId", num payment.id)
        ∷ ("orderId", num payment.order_id)
        ∷ ("provider", text (provider_name input.provider))
        ∷ ("providerStatus", text (provider_status_name v.status))
        ∷ []))

-- The first UUID goes to the ledger entry of a success; the journal takes the next two.
abbrev pub journal_base : PaymentStatus → ℕ
journal_base PaymentStatus.success = 1
journal_base _ = 0

unfoldable pub verify_tx :
    Clock → Uuids → Option RequestContext → VerifyInput → Verification → Tx VerifyResult
unfolding find_by_provider_ref find_order_by_id update_payment_status update_order_status
    credit_if_success journal_verification map_provider_status map_order_status is_terminal
verify_tx clock uuid ctx input v = do
  found ← find_by_provider_ref input.provider input.provider_ref
  payment ← or_throw found (not_found "Payment not found.")
  throw_if (is_terminal payment.status)
      (payment_already_processed "Payment is already in terminal state.")
  found_order ← find_order_by_id payment.order_id
  order ← or_throw found_order (not_found "Order not found.")
  throw_if (not (v.amount_minor == payment.amount) || not (text_eq v.currency order.currency)) (
      invalid_state_transition
        "Provider verification does not match expected payment amount or currency.")
  let status = map_provider_status v.status
  update_payment_status payment.id status
  let order_status = map_order_status status
  update_order_status payment.order_id order_status
  credit_if_success uuid payment v (correlation_of ctx) status
  let base = journal_base status
  journal_verification clock (uuid base) (uuid (base + 1)) ctx input v payment status
  pure (record {
    payment_id = payment.id;
    order_id = payment.order_id;
    payment_status = status;
    order_status = order_status;
  })

abbrev pub is_provider_success : ProviderStatus → Bool
is_provider_success ProviderStatus.success = true
is_provider_success _ = false

-- `VerifyPaymentUseCase.execute`
unfoldable pub verify :
    Providers → Clock → Uuids → Option RequestContext → VerifyInput → Call VerifyResult
verify providers clock uuid ctx input db = elim (providers input.provider input.provider_ref) [
  | err e ↦ (err e, db)
  | ok v ↦
      if not (text_eq v.currency input.verified_currency)
      then (err (invalid_state_transition "Webhook verification currency mismatch."), db)
      else if input.verified_success && not (is_provider_success v.status)
      then (
        err (
            invalid_state_transition "Webhook success state does not match provider verification."),
        db,
      )
      else run_in_transaction (verify_tx clock uuid ctx input v) db
]
