-- ===== src/Webhooks/Process.antt =====
-- `processEnvelope` of src/modules/payments/application/payment-verification.service.ts. Outside its
-- transactions each statement commits by itself.
use govibe_core.Prelude.{
  ℕ, String, Bool, true, false, not, Option, none, some, [], ◌∷◌, if◌then◌else◌,
}
use govibe_core.Store.{
  Db, PaymentIntent, payment_provider_eq, provider_text, webhook_status_text, WebhookEvent,
  WebhookStatus, text, num, Json, Call, ◌>=>◌, returns,
}
use govibe_core.Intents.Repository.{find_by_provider_reference}
use govibe_core.Webhooks.Signature.{truthy}
use govibe_core.Webhooks.Envelope.{Envelope}
use govibe_core.Webhooks.Outcome.{
  WebhookResult, opt_text, reject_webhook, mark_webhook_processed, handle_verification_error,
}
use govibe_core.Webhooks.Settle.{handle_verification_result}
use govibe_core.Webhooks.Receive.{
  answered, thrown, Answer, Gateway, verification_failure_code, id_of, Stored, create_webhook_event,
  audit_call, handle_duplicate_delivery,
}

abbrev rejected_result : Option ℕ → Unit {0} → Call WebhookResult
rejected_result id _ =
    returns (record { payment_intent_id = id; processing_status = WebhookStatus.rejected })

-- The `try` and `catch` around the adapter.
unfoldable pub handle_answer : ℕ → WebhookEvent → PaymentIntent → Answer → Call WebhookResult
handle_answer now delivery intent (answered v) = handle_verification_result now delivery intent v
handle_answer now delivery intent (thrown e message) =
    handle_verification_error now delivery intent (verification_failure_code e) message

-- The verification of an intent whose provider is the delivery's.
unfoldable pub verify_delivery :
    Gateway → Envelope → WebhookEvent → PaymentIntent → String → Call WebhookResult
verify_delivery gateway envelope delivery intent reference =
    audit_call (some intent) "payment_verification_started" (
      ("provider", text (provider_text intent.provider))
      ∷ ("providerReference", text intent.provider_reference)
      ∷ ("webhookEventId", num delivery.id)
      ∷ [])
    >=> λ _.
        handle_answer gateway.now delivery intent
          (gateway.verify_by_reference envelope.provider reference)

abbrev provider_mismatch : PaymentIntent → Envelope → String × Json
provider_mismatch intent envelope = (
  "payment_verification_provider_mismatch",
  ("expectedProvider", text (provider_text intent.provider))
      ∷ ("actualProvider", text (provider_text envelope.provider))
      ∷ ("providerReference", text intent.provider_reference)
      ∷ [],
)

-- The guards on a supported delivery, by its reference and its intent.
unfoldable pub dispatch_delivery :
    Gateway → Envelope → WebhookEvent → Option String → Option PaymentIntent → Call WebhookResult
dispatch_delivery gateway envelope delivery none intent =
    reject_webhook gateway.now delivery intent "MISSING_PROVIDER_REFERENCE"
      "Webhook payload did not include a provider reference." none
    >=> rejected_result none
dispatch_delivery gateway envelope delivery (some reference) none =
    reject_webhook gateway.now delivery none "PAYMENT_INTENT_NOT_FOUND"
      "Payment intent could not be found for the provider reference." none
    >=> rejected_result none
dispatch_delivery gateway envelope delivery (some reference) (some intent) =
    if not (payment_provider_eq intent.provider envelope.provider)
    then reject_webhook gateway.now delivery (some intent) "PROVIDER_MISMATCH"
        "Webhook provider does not match payment intent provider."
        (some (provider_mismatch intent envelope))
      >=> rejected_result (some intent.id)
    else verify_delivery gateway envelope delivery intent reference

abbrev ignored : Envelope → String × Json
ignored envelope = (
  "payment_webhook_unsupported_event_ignored",
  ("eventType", opt_text envelope.event_type)
      ∷ ("providerReference", opt_text envelope.provider_reference)
      ∷ [],
)

-- A delivery that is new, by whether its event is supported.
unfoldable pub handle_supported :
    Gateway → Envelope → WebhookEvent → Option PaymentIntent → Bool → Call WebhookResult
handle_supported gateway envelope delivery intent true =
    dispatch_delivery gateway envelope delivery (truthy envelope.provider_reference) intent
handle_supported gateway envelope delivery intent false =
    mark_webhook_processed gateway.now delivery intent (some (ignored envelope)) >=> λ _.
    returns
      (record { payment_intent_id = id_of intent; processing_status = WebhookStatus.processed })

unfoldable pub handle_new_delivery :
    Gateway → Envelope → WebhookEvent → Option PaymentIntent → Call WebhookResult
handle_new_delivery gateway envelope delivery intent =
    audit_call intent "payment_webhook_received" (
      ("provider", text (provider_text envelope.provider))
      ∷ ("providerEventId", text envelope.provider_event_id)
      ∷ ("providerReference", opt_text envelope.provider_reference)
      ∷ ("processingStatus", text (webhook_status_text delivery.processing_status))
      ∷ [])
    >=> λ _. handle_supported gateway envelope delivery intent envelope.supported

-- The intent of the reference of an envelope.
abbrev pub intent_of : Envelope → Db → Option PaymentIntent
intent_of envelope db = elim (truthy envelope.provider_reference) [
  | none ↦ none
  | some reference ↦ find_by_provider_reference reference db
]

unfoldable pub after_stored :
    Gateway → Envelope → Option PaymentIntent → Stored → Call WebhookResult
after_stored gateway envelope intent stored =
    if stored.created
    then handle_new_delivery gateway envelope stored.event intent
    else handle_duplicate_delivery stored.event intent envelope

-- `processEnvelope`
unfoldable pub process_envelope : Gateway → Envelope → Call WebhookResult
process_envelope gateway envelope db =
    let intent = intent_of envelope db in
    (create_webhook_event gateway.delivery_id envelope intent
        >=> after_stored gateway envelope intent)
      db
