-- ===== src/Tests/Webhooks.antt =====
-- Webhooks at concrete inputs: a charge that succeeded, delivered twice, and a forgery of it.
use govibe_core.Prelude.{
  ◌≡◌, refl, ap, Option, text_eq, String, Bool, true, none, some, [], ◌∷◌, find_row, select_rows,
  update_rows, arith, join, Each,
}
use govibe_core.Store.{
  Db, PaymentIntent, PaymentIntentStatus, PaymentProvider, WebhookStatus, ok, ◌>>=◌, ◌>=>◌, atomic,
}
use govibe_core.Intents.Repository.{
  find_intent, find_by_provider_reference, append_intent_audit, transition, transition_to_verified,
}
use govibe_core.Webhooks.Signature.{header_value, single, validate_paystack_signature}
use govibe_core.Webhooks.Envelope.{
  Body, Envelope, object, string, field, no_fields, field_of, assert_record, assert_optional_record,
  parse_paystack_envelope,
}
use govibe_core.Webhooks.Deliveries.{repeats, insert_webhook_event, update_processing}
use govibe_core.Webhooks.Outcome.{VerificationStatus, audit_if, result_of}
use govibe_core.Webhooks.Settle.{
  transition_to, transition_tx, record_transition, settle, handle_verification_result,
}
use govibe_core.Webhooks.Receive.{
  Answer, answered, Gateway, WebhookInput, after_create, create_webhook_event, audit_call,
}
use govibe_core.Webhooks.Process.{
  handle_answer, verify_delivery, dispatch_delivery, handle_supported, handle_new_delivery,
  after_stored, process_envelope,
}
use govibe_core.Webhooks.Handle.{unsigned_row, handle_paystack, process_parsed, handle_webhook}
use govibe_core.Webhooks.Confirm.{KeptOrConfirmed, handle_webhook-IsConfirmed}
use govibe_core.Webhooks.Forged.{IsRefused, handle_webhook-IsRefused}
use govibe_core.Webhooks.Repeat.{later, IsDuplicate, handle_webhook-IsDuplicate}
use govibe_core.Webhooks.Final.{deliver_all, deliver_all_final, handle_webhook-forged_first}
use govibe_core.Tests.Fixtures.{shop}

abbrev pub intent : PaymentIntent
intent = record {
  id = 80;
  buyer_user_id = 5;
  organizer_id = 3;
  event_id = 1;
  provider = PaymentProvider.paystack;
  status = PaymentIntentStatus.initiated;
  amount_minor = 4500;
  currency = "GHS";
  use_case = "payments.initiate";
  key_hash = "k";
  fingerprint_hash = "f";
  provider_reference = "pi_k";
  checkout_url = none;
  access_code = none;
  raw_response = none;
  failure_code = none;
  failure_message = none;
  initiated_at = some 900;
  verified_at = none;
  failed_at = none;
  verified_status = none;
  verified_amount = none;
  verified_currency = none;
  verification_raw = none;
}

abbrev pub till : Db
till = record shop { payment_intents = intent ∷ [] }

abbrev answer : PaymentProvider → String → Answer
answer _ reference = answered (record {
  provider_reference = reference;
  status = VerificationStatus.success;
  amount_minor = some 4500;
  currency = some "GHS";
  provider_status = "success";
  raw = 1;
})

abbrev pub gateway : Gateway
gateway = record {
  sha256 = λ s. s;
  hmac = λ s. join "signed " s;
  verify_by_reference = answer;
  now = 1000;
  delivery_id = 600;
}

abbrev pub charge : Body
charge = object (
    field "event" (string "charge.success")
      (field "data" (object (field "reference" (string "pi_k") no_fields)) no_fields))

abbrev pub delivery : String → WebhookInput
delivery signature = record {
  provider = PaymentProvider.paystack;
  raw_body = "b";
  parsed_body = charge;
  signature = single signature;
}

abbrev paid : Db
paid = (handle_webhook gateway (delivery "signed b") till).1

paid_runs :
    handle_webhook gateway (delivery "signed b") till
    ≡ (ok (result_of intent WebhookStatus.verified), paid)
unfolding handle_webhook validate_paystack_signature header_value handle_paystack
    parse_paystack_envelope assert_record assert_optional_record field_of process_parsed
    process_envelope find_by_provider_reference find_row create_webhook_event insert_webhook_event
    ◌>>=◌ after_create ◌>=>◌ after_stored handle_new_delivery audit_call atomic audit_if
    append_intent_audit handle_supported dispatch_delivery verify_delivery handle_answer
    handle_verification_result settle transition_tx transition_to transition_to_verified transition
    select_rows update_rows record_transition update_processing
paid_runs = refl

abbrev pub paid_intent : PaymentIntent
paid_intent = record intent {
  status = PaymentIntentStatus.verified;
  verified_at = some 1000;
  verified_status = some "success";
  verified_amount = some 4500;
  verified_currency = some "GHS";
  verification_raw = some 1;
}

paid_found : find_intent 80 paid ≡ some paid_intent
unfolding find_intent handle_webhook validate_paystack_signature header_value handle_paystack
    parse_paystack_envelope assert_record assert_optional_record field_of process_parsed
    process_envelope find_by_provider_reference find_row create_webhook_event insert_webhook_event
    ◌>>=◌ after_create ◌>=>◌ after_stored handle_new_delivery audit_call atomic audit_if
    append_intent_audit handle_supported dispatch_delivery verify_delivery handle_answer
    handle_verification_result settle transition_tx transition_to transition_to_verified transition
    select_rows update_rows record_transition update_processing
paid_found = refl

handle_webhook-IsConfirmed_example :
    Each
      (KeptOrConfirmed gateway till)
      till.payment_intents
      (handle_webhook gateway (delivery "signed b") till).1.payment_intents
handle_webhook-IsConfirmed_example = handle_webhook-IsConfirmed gateway till (delivery "signed b")

is_forged : ¬ (header_value (single "x") ≡ some "signed b")
unfolding header_value
is_forged e = absurd (ground (arith, ap is_b e))
  where
    is_b : Option String → Bool
    is_b none = true
    is_b (some s) = text_eq s "signed b"

handle_webhook-IsRefused_example : IsRefused till (handle_webhook gateway (delivery "x") till)
handle_webhook-IsRefused_example =
    handle_webhook-IsRefused gateway (delivery "x") till refl is_forged

handle_webhook-IsDuplicate_example :
    IsDuplicate paid (handle_webhook (later gateway answer 2000 601) (delivery "signed b") paid)
handle_webhook-IsDuplicate_example =
    handle_webhook-IsDuplicate gateway answer 2000 601 till paid
      (result_of intent WebhookStatus.verified) (delivery "signed b") paid_runs

deliver_all_final_example :
    find_intent 80
      (deliver_all ((gateway, delivery "x") ∷ (gateway, delivery "signed b") ∷ []) paid)
    ≡ some paid_intent
deliver_all_final_example =
    deliver_all_final ((gateway, delivery "x") ∷ (gateway, delivery "signed b") ∷ []) paid 80
      paid_intent paid_found refl

abbrev pub charge_envelope : Envelope
charge_envelope = record {
  provider = PaymentProvider.paystack;
  payload_hash = "b";
  provider_event_id = "payload:b";
  provider_reference = some "pi_k";
  event_type = some "charge.success";
  signature_valid = some true;
  supported = true;
}

nothing_stored : find_row (repeats (unsigned_row 600 1000 "b" "")) till.webhook_events ≡ none
unfolding find_row
nothing_stored = refl

is_signed : validate_paystack_signature gateway.hmac "b" (single "signed b") ≡ none
unfolding validate_paystack_signature header_value
is_signed = refl

charge_parses : parse_paystack_envelope charge "b" ≡ ok charge_envelope
unfolding parse_paystack_envelope assert_record assert_optional_record field_of
charge_parses = refl

handle_webhook-forged_first_example : IsDuplicate (handle_webhook gateway (delivery "x") till).1 (
    handle_webhook
      (later gateway answer 2000 601)
      (delivery "signed b")
      (handle_webhook gateway (delivery "x") till).1)
handle_webhook-forged_first_example =
    handle_webhook-forged_first gateway (delivery "x") till (delivery "signed b") charge_envelope
      answer 2000 601 refl is_forged nothing_stored refl is_signed charge_parses refl
