-- ===== src/Webhooks/Settle.antt =====
-- What a delivery whose intent is known does with the provider's answer: `handleVerificationResult`
-- and `applyTerminalTransition` of src/modules/payments/application/payment-verification.service.ts.
use govibe_core.Prelude.{
  ℕ, String, Bool, true, false, not, ◌&&◌, Option, none, some, [], ◌∷◌, ◌==◌, text_eq,
  if◌then◌else◌, join,
}
use govibe_core.Store.{
  PaymentIntent, PaymentIntentStatus, intent_status_text, is_intent_verified, WebhookEvent,
  WebhookStatus, Value, null, num, text, Json, Tx, pure, gets, ◌>>=◌, ◌>>◌, Call, atomic, ◌>=>◌,
  returns,
}
use govibe_core.Intents.Repository.{
  Verified, transition_to_verified, transition_to_failed, find_intent, append_intent_audit,
  audit_of,
}
use govibe_core.Webhooks.Deliveries.{update_processing}
use govibe_core.Webhooks.Outcome.{
  VerificationStatus, ProviderVerification, WebhookResult, opt_text, opt_num, result_of, processing,
  reject_webhook, mark_webhook_processed,
}

-- `targetStatus`
pub data Target : Type 0 where
  to_verified to_failed : Target

abbrev pub is_to_verified : Target → Bool
is_to_verified to_verified = true
is_to_verified to_failed = false

abbrev pub target_text : Target → String
target_text to_verified = "VERIFIED"
target_text to_failed = "FAILED"

abbrev pub stored : ℕ → ProviderVerification → Verified
stored now v = record {
  at = now;
  provider_status = v.provider_status;
  amount = v.amount_minor;
  currency = v.currency;
  raw = v.raw;
}

-- The conditional update of the intent.
unfoldable pub transition_to : Target → ℕ → ℕ → ProviderVerification → Tx ℕ
transition_to to_verified id now v = transition_to_verified id (stored now v)
transition_to to_failed id now v =
    transition_to_failed id (stored now v) "PROVIDER_PAYMENT_FAILED"
      (join "Provider reported " (join v.provider_status "."))

abbrev current_text : Option PaymentIntent → Value
current_text none = null
current_text (some row) = text (intent_status_text row.status)

abbrev is_already_processed : Option PaymentIntent → Target → Bool
is_already_processed none target = false
is_already_processed (some row) target = is_intent_verified row.status && is_to_verified target

-- The branch in which the update changed no row.
unfoldable pub skip_transition : ℕ → WebhookEvent → PaymentIntent → Target → Tx WebhookResult
skip_transition now delivery intent target = do
  current ← gets (find_intent intent.id)
  append_intent_audit (
      audit_of intent
        (if is_already_processed current target
          then "payment_status_transition_skipped_already_processed"
          else "payment_status_transition_rejected")
        (("currentStatus", current_text current)
          ∷ ("attemptedStatus", text (target_text target))
          ∷ ("reason", text "status_guard_prevented_duplicate_transition")
          ∷ []))
  update_processing delivery.id (processing now delivery (some intent) WebhookStatus.processed)
  pure (result_of intent WebhookStatus.processed)

abbrev outcome_event : Target → String
outcome_event to_verified = "payment_verification_succeeded"
outcome_event to_failed = "payment_verification_failed"

abbrev transition_event : Target → String
transition_event to_verified = "payment_status_transition_verified"
transition_event to_failed = "payment_status_transition_failed"

-- The reason that the audit row of a transition gives.
abbrev transition_reason : PaymentIntentStatus → Target → Value
transition_reason PaymentIntentStatus.initiation_pending to_verified =
    text "provider_verified_success_from_pending_local_state"
transition_reason PaymentIntentStatus.initiation_pending to_failed =
    text "provider_verified_failure_from_pending_local_state"
transition_reason _ _ = null

-- The branch in which the update changed the intent.
unfoldable pub record_transition :
    ℕ → WebhookEvent → PaymentIntent → ProviderVerification → Target → Tx WebhookResult
record_transition now delivery intent v target = do
  append_intent_audit (
      audit_of intent (outcome_event target) (
        ("providerStatus", text v.provider_status)
        ∷ ("providerReference", text intent.provider_reference)
        ∷ []))
  append_intent_audit (
      audit_of intent (transition_event target) (
        ("previousStatus", text (intent_status_text intent.status))
        ∷ ("newStatus", text (target_text target))
        ∷ ("reason", transition_reason intent.status target)
        ∷ []))
  update_processing delivery.id (processing now delivery (some intent) WebhookStatus.verified)
  pure (result_of intent WebhookStatus.verified)

-- The transaction of `applyTerminalTransition`.
unfoldable pub transition_tx :
    ℕ → WebhookEvent → PaymentIntent → ProviderVerification → Target → Tx WebhookResult
transition_tx now delivery intent v target = do
  count ← transition_to target intent.id now v
  if count == 1
      then record_transition now delivery intent v target
      else skip_transition now delivery intent target

-- `x !== y` of a field that may be null and one that is not.
abbrev pub amount_differs : Option ℕ → ℕ → Bool
amount_differs none n = true
amount_differs (some m) n = not (m == n)

abbrev pub currency_differs : Option String → String → Bool
currency_differs none s = true
currency_differs (some t) s = not (text_eq t s)

-- A rejection of the provider's answer.
unfoldable pub reject_answer :
    ℕ → WebhookEvent → PaymentIntent → String → String → String → Json → Call WebhookResult
reject_answer now delivery intent code message event_type details =
    reject_webhook now delivery (some intent) code message (some (event_type, details)) >=> λ _.
    returns (result_of intent WebhookStatus.rejected)

-- The end of `handleVerificationResult`, by the status of the payment.
unfoldable pub settle :
    ℕ
    → WebhookEvent
    → PaymentIntent
    → ProviderVerification
    → VerificationStatus
    → Call WebhookResult
settle now delivery intent v VerificationStatus.success =
    atomic (transition_tx now delivery intent v to_verified)
settle now delivery intent v VerificationStatus.failed =
    atomic (transition_tx now delivery intent v to_failed)
settle now delivery intent v _ =
    mark_webhook_processed now delivery (some intent) (
      some (
        "payment_verification_pending",
        ("providerStatus", text v.provider_status)
            ∷ ("providerReference", text intent.provider_reference)
            ∷ [],
      ))
    >=> λ _. returns (result_of intent WebhookStatus.processed)

-- `handleVerificationResult`
unfoldable pub handle_verification_result :
    ℕ → WebhookEvent → PaymentIntent → ProviderVerification → Call WebhookResult
handle_verification_result now delivery intent v =
    if not (text_eq v.provider_reference intent.provider_reference)
    then reject_answer now delivery intent "PAYMENT_VERIFICATION_REFERENCE_MISMATCH"
        "Provider verification reference did not match payment intent reference."
        "payment_verification_reference_mismatch"
        (("expectedReference", text intent.provider_reference)
          ∷ ("actualReference", text v.provider_reference)
          ∷ ("providerStatus", text v.provider_status)
          ∷ [])
    else if amount_differs v.amount_minor intent.amount_minor
    then reject_answer now delivery intent "PAYMENT_VERIFICATION_AMOUNT_MISMATCH"
        "Provider verification amount did not match payment intent amount."
        "payment_verification_amount_mismatch"
        (("expectedAmountMinor", num intent.amount_minor)
          ∷ ("actualAmountMinor", opt_num v.amount_minor)
          ∷ ("providerStatus", text v.provider_status)
          ∷ [])
    else if currency_differs v.currency intent.currency
    then reject_answer now delivery intent "PAYMENT_VERIFICATION_CURRENCY_MISMATCH"
        "Provider verification currency did not match payment intent currency."
        "payment_verification_currency_mismatch"
        (("expectedCurrency", text intent.currency)
          ∷ ("actualCurrency", opt_text v.currency)
          ∷ ("providerStatus", text v.provider_status)
          ∷ [])
    else settle now delivery intent v v.status
