-- ===== src/Webhooks/Outcome.antt =====
-- What a delivery stores of its outcome: `rejectWebhook`, `markWebhookProcessed` and
-- `handleVerificationError` of src/modules/payments/application/payment-verification.service.ts.
use govibe_core.Prelude.{ℕ, String, Option, none, some, [], ◌∷◌}
use govibe_core.Store.{
  PaymentIntent, provider_text, WebhookEvent, WebhookStatus, Value, null, num, text, Json, Tx, pure,
  ◌>>◌, Call, atomic,
}
use govibe_core.Intents.Repository.{append_intent_audit, audit_of}
use govibe_core.Webhooks.Deliveries.{Processing, update_processing}

-- ProviderVerificationStatus
pub data VerificationStatus : Type 0 where
  success failed pending unknown : VerificationStatus

-- ProviderVerificationResult; the raw response is opaque.
pub record ProviderVerification : Type 0 where
  pub provider_reference : String
  pub status : VerificationStatus
  pub amount_minor : Option ℕ
  pub currency : Option String
  pub provider_status : String
  pub raw : ℕ

-- PaymentWebhookResult
pub record WebhookResult : Type 0 where
  pub payment_intent_id : Option ℕ
  pub processing_status : WebhookStatus

abbrev pub opt_text : Option String → Value
opt_text none = null
opt_text (some s) = text s

abbrev pub opt_num : Option ℕ → Value
opt_num none = null
opt_num (some n) = num n

abbrev pub result_of : PaymentIntent → WebhookStatus → WebhookResult
result_of intent status = record { payment_intent_id = some intent.id; processing_status = status }

-- The update of a delivery, with the intent that it found.
abbrev pub processing : ℕ → WebhookEvent → Option PaymentIntent → WebhookStatus → Processing
processing now delivery none status = record {
  status = status;
  payment_intent_id = some none;
  provider_reference = some delivery.provider_reference;
  signature_valid = none;
  failure_code = none;
  failure_message = none;
  processed_at = some (some now);
}
processing now delivery (some intent) status = record {
  status = status;
  payment_intent_id = some (some intent.id);
  provider_reference = some (some intent.provider_reference);
  signature_valid = none;
  failure_code = none;
  failure_message = none;
  processed_at = some (some now);
}

abbrev pub with_failure : String → String → Processing → Processing
with_failure code message p = record p {
  failure_code = some (some code);
  failure_message = some (some message);
}

-- `paymentIntent && audit`: the row of an audit, where there is an intent.
unfoldable pub audit_if : Option PaymentIntent → Option (String × Json) → Tx (Unit {0})
audit_if (some intent) (some (event_type, details)) =
    append_intent_audit (audit_of intent event_type details)
audit_if _ _ = pure tt

-- `rejectWebhook`
unfoldable pub reject_webhook :
    ℕ
    → WebhookEvent
    → Option PaymentIntent
    → String
    → String
    → Option (String × Json)
    → Call (Unit {0})
reject_webhook now delivery intent code message audit = atomic (
    update_processing delivery.id
      (with_failure code message (processing now delivery intent WebhookStatus.rejected))
    >> audit_if intent audit)

-- `markWebhookProcessed`
unfoldable pub mark_webhook_processed :
    ℕ → WebhookEvent → Option PaymentIntent → Option (String × Json) → Call (Unit {0})
mark_webhook_processed now delivery intent audit = atomic (
    update_processing delivery.id (processing now delivery intent WebhookStatus.processed)
    >> audit_if intent audit)

-- The transaction of `handleVerificationError`, of an error with its code and its message.
unfoldable pub error_tx : ℕ → WebhookEvent → PaymentIntent → String → String → Tx WebhookResult
error_tx now delivery intent code message = do
  update_processing delivery.id
      (with_failure code message (processing now delivery (some intent) WebhookStatus.failed))
  append_intent_audit (
      audit_of intent "payment_verification_failed" (
        ("provider", text (provider_text intent.provider))
        ∷ ("providerReference", text intent.provider_reference)
        ∷ ("failureCode", text code)
        ∷ ("failureMessage", text message)
        ∷ []))
  pure (result_of intent WebhookStatus.failed)

-- `handleVerificationError`
unfoldable pub handle_verification_error :
    ℕ → WebhookEvent → PaymentIntent → String → String → Call WebhookResult
handle_verification_error now delivery intent code message =
    atomic (error_tx now delivery intent code message)
