-- ===== src/Webhooks/Handle.antt =====
-- `handleWebhook` of src/modules/payments/application/payment-verification.service.ts.
use govibe_core.Prelude.{ℕ, String, false, Option, none, some, if◌then◌else◌, join}
use govibe_core.Store.{
  Db, PaymentProvider, WebhookEvent, WebhookStatus, webhook_signature, Result, ok, err, Call,
  run_in_transaction, ◌>=>◌, throws,
}
use govibe_core.Webhooks.Signature.{validate_paystack_signature}
use govibe_core.Webhooks.Envelope.{Envelope, parse_paystack_envelope, parse_momo_envelope}
use govibe_core.Webhooks.Deliveries.{insert_webhook_event}
use govibe_core.Webhooks.Outcome.{WebhookResult}
use govibe_core.Webhooks.Receive.{Gateway, WebhookInput, is_duplicate_error}
use govibe_core.Webhooks.Process.{process_envelope}

-- The row of a delivery whose signature is not valid.
abbrev pub unsigned_row : ℕ → ℕ → String → String → WebhookEvent
unsigned_row id now hash message = record {
  id = id;
  provider = PaymentProvider.paystack;
  provider_event_id = join "payload:" hash;
  provider_reference = none;
  payload_hash = hash;
  signature_valid = some false;
  processing_status = WebhookStatus.rejected;
  failure_code = some "INVALID_SIGNATURE";
  failure_message = some message;
  payment_intent_id = none;
  processed_at = some now;
}

-- The `catch` of `persistRejectedSignatureEvent`.
unfoldable pub swallow_duplicate : Result (Unit {0}) × Db → Result (Unit {0}) × Db
swallow_duplicate (ok u, db) = (ok u, db)
swallow_duplicate (err e, db) = if is_duplicate_error e then (ok tt, db) else (err e, db)

-- `persistRejectedSignatureEvent`
unfoldable pub persist_rejected_signature_event : Gateway → String → String → Call (Unit {0})
persist_rejected_signature_event gateway hash message db = swallow_duplicate (
    run_in_transaction
      (insert_webhook_event (unsigned_row gateway.delivery_id gateway.now hash message)) db)

-- An envelope that parses is processed.
unfoldable pub process_parsed : Gateway → Result Envelope → Call WebhookResult
process_parsed gateway (ok envelope) = process_envelope gateway envelope
process_parsed gateway (err e) = throws e

-- A delivery of Paystack, by the failure of its signature.
unfoldable pub handle_paystack :
    Gateway → WebhookInput → String → Option String → Call WebhookResult
handle_paystack gateway input hash (some message) =
    persist_rejected_signature_event gateway hash message >=> λ _.
    throws (webhook_signature message)
handle_paystack gateway input hash none =
    process_parsed gateway (parse_paystack_envelope input.parsed_body hash)

abbrev pub handle_by_provider :
    Gateway → WebhookInput → String → PaymentProvider → Call WebhookResult
handle_by_provider gateway input hash PaymentProvider.paystack =
    handle_paystack gateway input hash
      (validate_paystack_signature gateway.hmac input.raw_body input.signature)
handle_by_provider gateway input hash PaymentProvider.mtn_momo =
    process_parsed gateway (parse_momo_envelope input.parsed_body hash)

-- `handleWebhook`
unfoldable pub handle_webhook : Gateway → WebhookInput → Call WebhookResult
handle_webhook gateway input =
    handle_by_provider gateway input (gateway.sha256 input.raw_body) input.provider
