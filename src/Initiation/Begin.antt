-- ===== src/Initiation/Begin.antt =====
-- The first transaction of `initiatePayment` in src/modules/payments/application/payments.service.ts:
-- an idempotency key that is new, replayed or retried. SHA-256 in hexadecimal and JSON.stringify of
-- the fingerprint are arguments.
use govibe_core.Prelude.{
  ℕ, String, true, not, Option, none, some, [], ◌∷◌, text_eq, if◌then◌else◌, join, first_chars,
}
use govibe_core.Store.{
  PaymentIntent, PaymentIntentStatus, PaymentProvider, provider_text, intent_status_text,
  is_initiation_failed, flag, num, text, Json, Tx, pure, gets, throw_if, ◌>>=◌, ◌>>◌,
  idempotency_conflict,
}
use govibe_core.Intents.Repository.{
  find_by_buyer_and_idempotency, create_intent, mark_retry_pending, retry_pending,
  append_intent_audit, audit_of,
}
use govibe_core.Initiation.Guards.{Eligible}

-- InitiatePaymentInput
pub record InitiateInput : Type 0 where
  pub idempotency_key : String
  pub event_id : ℕ
  pub provider : PaymentProvider
  pub customer_phone : Option String

-- The functions that a request is hashed with.
pub record Hashing : Type 0 where
  pub sha256 : String → String
  pub trim : String → String
  pub stringify : (event_id : ℕ) → PaymentProvider → (customer_phone : Option String) → String

abbrev pub use_case : String
use_case = "payments.initiate"

-- `normalizePhone`
abbrev pub normalize_phone : (trim : String → String) → Option String → Option String
normalize_phone trim none = none
normalize_phone trim (some phone) = if text_eq (trim phone) "" then none else some (trim phone)

-- `idempotencyKeyHash`
abbrev pub key_hash_of : Hashing → InitiateInput → String
key_hash_of hashing input = hashing.sha256 input.idempotency_key

-- `requestFingerprintHash`
unfoldable pub fingerprint_of : Hashing → InitiateInput → String
fingerprint_of hashing input = hashing.sha256 (
    hashing.stringify input.event_id input.provider
      (normalize_phone hashing.trim input.customer_phone))

-- `buildProviderReference`
unfoldable pub build_provider_reference : String → String
build_provider_reference key_hash = join "pi_" (first_chars 24 key_hash)

-- What the transaction asks for.
pub data Action : Type 0 where
  call_provider : PaymentIntent → Action
  return_existing : PaymentIntent → Action

abbrev requested : Eligible → InitiateInput → Json
requested eligible input =
    ("eventId", num eligible.event.id)
    ∷ ("organizerId", num eligible.event.organizer_id)
    ∷ ("provider", text (provider_text input.provider))
    ∷ []

-- The intent of the key, where a request may be retried or replayed.
unfoldable pub begin_existing : Hashing → Eligible → InitiateInput → PaymentIntent → Tx Action
begin_existing hashing eligible input existing = do
  throw_if (not (text_eq existing.fingerprint_hash (fingerprint_of hashing input)))
      (idempotency_conflict "Idempotency key reused with different payload.")
  if is_initiation_failed existing.status
      then (mark_retry_pending existing.id
          >> (append_intent_audit (
                audit_of (retry_pending existing) "payment_initiation_requested"
                  (("retry", flag true) ∷ requested eligible input))
              >> pure (call_provider (retry_pending existing))))
      else (append_intent_audit (
            audit_of existing "payment_initiation_idempotent_replay" (
              ("eventId", num existing.event_id)
              ∷ ("provider", text (provider_text existing.provider))
              ∷ ("status", text (intent_status_text existing.status))
              ∷ []))
          >> pure (return_existing existing))

-- The row that is created; the database draws its id.
abbrev pub pending_intent : ℕ → Hashing → Eligible → InitiateInput → PaymentIntent
pending_intent id hashing eligible input = record {
  id = id;
  buyer_user_id = eligible.buyer.id;
  organizer_id = eligible.event.organizer_id;
  event_id = eligible.event.id;
  provider = input.provider;
  status = PaymentIntentStatus.initiation_pending;
  amount_minor = eligible.amount_minor;
  currency = eligible.event.price_currency;
  use_case = use_case;
  key_hash = key_hash_of hashing input;
  fingerprint_hash = fingerprint_of hashing input;
  provider_reference = build_provider_reference (key_hash_of hashing input);
  checkout_url = none;
  access_code = none;
  raw_response = none;
  failure_code = none;
  failure_message = none;
  initiated_at = none;
  verified_at = none;
  failed_at = none;
  verified_status = none;
  verified_amount = none;
  verified_currency = none;
  verification_raw = none;
}

unfoldable pub begin_new : ℕ → Hashing → Eligible → InitiateInput → Tx Action
begin_new id hashing eligible input = do
  let row = pending_intent id hashing eligible input
  create_intent row
  append_intent_audit (audit_of row "payment_initiation_requested" (requested eligible input))
  pure (call_provider row)

unfoldable pub begin_by : ℕ → Hashing → Eligible → InitiateInput → Option PaymentIntent → Tx Action
begin_by id hashing eligible input none = begin_new id hashing eligible input
begin_by id hashing eligible input (some existing) = begin_existing hashing eligible input existing

-- The transaction.
unfoldable pub begin_tx : ℕ → Hashing → Eligible → InitiateInput → Tx Action
begin_tx id hashing eligible input = do
  existing ←
      gets (find_by_buyer_and_idempotency eligible.buyer.id use_case (key_hash_of hashing input))
  begin_by id hashing eligible input existing
