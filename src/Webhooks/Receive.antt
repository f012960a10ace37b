-- ===== src/Webhooks/Receive.antt =====
-- What the service is given, and the storing of a delivery: `createWebhookEvent` and
-- `handleDuplicateDelivery` of src/modules/payments/application/payment-verification.service.ts.
use govibe_core.Prelude.{ℕ, String, Bool, true, false, Option, none, some, [], ◌∷◌, if◌then◌else◌}
use govibe_core.Store.{
  Db, PaymentIntent, PaymentProvider, provider_text, WebhookEvent, WebhookStatus, text, Json, Error,
  unique_violation, Result, ok, err, Call, run_in_transaction, atomic, ◌>=>◌, returns, throws,
}
use govibe_core.Outbox.Processor.{
  DispatchError, provider_auth, provider_timeout, provider_network, provider_response,
}
use govibe_core.Intents.Repository.{find_intent}
use govibe_core.Webhooks.Signature.{Header}
use govibe_core.Webhooks.Envelope.{Body, Envelope}
use govibe_core.Webhooks.Deliveries.{insert_webhook_event, find_by_payload_hash, find_by_event_id}
use govibe_core.Webhooks.Outcome.{ProviderVerification, WebhookResult, audit_if}

-- What a verification adapter does: it answers, or throws an error with a message.
pub data Answer : Type 0 where
  answered : ProviderVerification → Answer
  thrown : DispatchError → (message : String) → Answer

-- What the service is given: the hashes of node:crypto in hexadecimal, the HMAC with
-- PAYSTACK_SECRET_KEY as its key, the adapters of the registry, the clock, and the id that the
-- database draws for a delivery.
pub record Gateway : Type 0 where
  pub sha256 : String → String
  pub hmac : String → String
  pub verify_by_reference : PaymentProvider → String → Answer
  pub now : ℕ
  pub delivery_id : ℕ

-- PaymentWebhookInput; of the headers, x-paystack-signature.
pub record WebhookInput : Type 0 where
  pub provider : PaymentProvider
  pub raw_body : String
  pub parsed_body : Body
  pub signature : Header

-- `resolveVerificationFailureCode`
unfoldable pub verification_failure_code : DispatchError → String
verification_failure_code provider_timeout = "PROVIDER_VERIFICATION_TIMEOUT"
verification_failure_code (provider_response code status_code) = code
verification_failure_code provider_auth = "PROVIDER_VERIFICATION_AUTH_ERROR"
verification_failure_code provider_network = "PROVIDER_VERIFICATION_NETWORK_ERROR"
verification_failure_code _ = "PROVIDER_VERIFICATION_FAILED"

-- `isDuplicateError`
abbrev pub is_duplicate_error : Error → Bool
is_duplicate_error unique_violation = true
is_duplicate_error _ = false

abbrev pub id_of : Option PaymentIntent → Option ℕ
id_of none = none
id_of (some intent) = some intent.id

-- The row of a delivery that is received.
abbrev pub received_row : ℕ → Envelope → Option PaymentIntent → WebhookEvent
received_row id envelope intent = record {
  id = id;
  provider = envelope.provider;
  provider_event_id = envelope.provider_event_id;
  provider_reference = envelope.provider_reference;
  payload_hash = envelope.payload_hash;
  signature_valid = envelope.signature_valid;
  processing_status = WebhookStatus.received;
  failure_code = none;
  failure_message = none;
  payment_intent_id = id_of intent;
  processed_at = none;
}

-- The result of `createWebhookEvent`.
pub record Stored : Type 0 where
  pub created : Bool
  pub event : WebhookEvent

-- `??` of the two lookups of a delivery that is stored already.
abbrev pub first_of : {A : Type 0} → Option A → Option A → Option A
first_of (some a) other = some a
first_of none other = other

unfoldable pub existing_delivery : Envelope → Db → Option WebhookEvent
existing_delivery envelope db =
    first_of (find_by_payload_hash envelope.provider envelope.payload_hash db.webhook_events)
      (find_by_event_id envelope.provider envelope.provider_event_id db.webhook_events)

abbrev pub stored_before : Option WebhookEvent → Call Stored
stored_before none = throws unique_violation
stored_before (some row) = returns (record { created = false; event = row })

-- The `try` and `catch` of `createWebhookEvent`.
unfoldable pub after_create : Envelope → WebhookEvent → Result (Unit {0}) × Db → Result Stored × Db
after_create envelope row (ok u, db) = (ok (record { created = true; event = row }), db)
after_create envelope row (err e, db) =
    if is_duplicate_error e then stored_before (existing_delivery envelope db) db else (err e, db)

-- `createWebhookEvent`
unfoldable pub create_webhook_event : ℕ → Envelope → Option PaymentIntent → Call Stored
create_webhook_event id envelope intent db =
    let row = received_row id envelope intent in
    after_create envelope row (run_in_transaction (insert_webhook_event row) db)

-- The intent of a delivery that was stored before.
abbrev pub duplicate_intent : Option PaymentIntent → WebhookEvent → Db → Option PaymentIntent
duplicate_intent (some intent) delivery db = some intent
duplicate_intent none delivery db = elim (delivery.payment_intent_id) [
  | none ↦ none
  | some id ↦ find_intent id db
]

-- A write of an audit row by itself, where there is an intent.
unfoldable pub audit_call : Option PaymentIntent → String → Json → Call (Unit {0})
audit_call intent event_type details = atomic (audit_if intent (some (event_type, details)))

-- `handleDuplicateDelivery`
unfoldable pub handle_duplicate_delivery :
    WebhookEvent → Option PaymentIntent → Envelope → Call WebhookResult
handle_duplicate_delivery delivery found envelope db =
    let intent = duplicate_intent found delivery db in
    (audit_call intent "payment_webhook_duplicate" (
          ("provider", text (provider_text envelope.provider))
          ∷ ("providerEventId", text envelope.provider_event_id)
          ∷ ("payloadHash", text envelope.payload_hash)
          ∷ [])
        >=> λ _. returns (record {
          payment_intent_id = id_of intent;
          processing_status = WebhookStatus.duplicate;
        }))
      db
