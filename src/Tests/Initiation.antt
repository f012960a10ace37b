-- ===== src/Tests/Initiation.antt =====
-- Initiations at concrete inputs: a new one, and one under a key of another request.
use govibe_core.Prelude.{◌≡◌, refl, false, none, some, [], ◌∷◌, find_row, update_rows, text_eq}
use govibe_core.Store.{
  Db, PaymentIntentStatus, PaymentProvider, Organizer, OrganizerStatus, ok, err, Error, ◌>>=◌,
  ◌>=>◌, atomic,
}
use govibe_core.LaunchControl.{
  has, is_excluded, load_event_scope, assert_event_scope_allowed, assert_provider_allowed,
  assert_currency_allowed, assert_payment_initiation_allowed,
}
use govibe_core.Intents.Repository.{
  find_intent, find_by_buyer_and_idempotency, create_intent, append_intent_audit, update_intent,
  mark_initiated,
}
use govibe_core.Initiation.Guards.{
  Eligible, find_user, find_payable_event, assert_event_eligible, check_eligible,
}
use govibe_core.Initiation.Begin.{
  InitiateInput, Hashing, use_case, fingerprint_of, build_provider_reference, begin_new, begin_by,
  begin_tx,
}
use govibe_core.Initiation.Attempt.{
  Attempting, initiated, attempted, persist_tx, after_persist, after_answer, after_ending,
}
use govibe_core.Initiation.Service.{
  Initiator, IntentView, to_view, after_action, after_guards, initiate_payment,
}
use govibe_core.Initiation.Final.{Holds}
use govibe_core.Initiation.Steps.{initiation, delivery, after_steps, after_steps-Holds}
use govibe_core.Initiation.Payable.{
  IsPayable, initiate_payment-IsPayable, initiate_payment-conflict,
}
use govibe_core.Tests.Fixtures.{shop, session, open_config}
use govibe_core.Tests.Webhooks.{gateway, delivery as charged, paid_intent}

abbrev host : Organizer
host = record { id = 3; owner_user_id = 8; status = OrganizerStatus.approved }

abbrev counter : Db
counter = record shop { organizers = host ∷ [] }

abbrev plain : Hashing
plain = record { sha256 = λ s. s; trim = λ s. s; stringify = λ event_id provider phone. "f" }

abbrev adapters : Attempting
adapters = record {
  initiate = λ provider request. initiated (record {
    provider_reference = request.provider_reference;
    checkout_url = some "u";
    access_code = none;
    raw_response = 7;
  });
  now = 1000;
  refuses = λ statement. none;
  failure_payload = λ caught. none;
  error_message = λ e. "";
}

abbrev initiator : Initiator
initiator = record { config = open_config; hashing = plain; attempting = adapters; intent_id = 90 }

abbrev request : InitiateInput
request = record {
  idempotency_key = "k";
  event_id = 1;
  provider = PaymentProvider.paystack;
  customer_phone = none;
}

abbrev answered_view : IntentView
answered_view = record {
  payment_intent_id = 90;
  event_id = 1;
  organizer_id = 3;
  buyer_user_id = 5;
  provider = PaymentProvider.paystack;
  status = PaymentIntentStatus.initiated;
  amount_minor = 4500;
  currency = "GHS";
  provider_reference = "pi_k";
  provider_checkout_url = some "u";
  provider_access_code = none;
  failure_code = none;
  failure_message = none;
  initiated_at = some 1000;
  verified_at = none;
  failed_at = none;
  provider_verified_status = none;
  provider_verified_amount = none;
  provider_verified_currency = none;
}

abbrev asked : Db
asked = (initiate_payment initiator (some session) request counter).1

initiation_runs :
    initiate_payment initiator (some session) request counter ≡ (ok answered_view, asked)
unfolding initiate_payment atomic ◌>=>◌ ◌>>=◌ check_eligible find_user find_row find_payable_event
    assert_event_eligible assert_payment_initiation_allowed load_event_scope
    assert_event_scope_allowed assert_provider_allowed assert_currency_allowed is_excluded has
    after_guards begin_tx find_by_buyer_and_idempotency begin_by begin_new create_intent
    fingerprint_of build_provider_reference append_intent_audit after_action after_answer attempted
    persist_tx mark_initiated update_intent update_rows after_persist after_ending to_view
initiation_runs = refl

initiate_payment-IsPayable_example :
    (eligible : Eligible) × IsPayable open_config plain.trim
      (some session)
      1
      PaymentProvider.paystack
      counter
      eligible
initiate_payment-IsPayable_example =
    initiate_payment-IsPayable initiator (some session) request counter asked answered_view
      initiation_runs

abbrev kept : Db
kept = record counter { payment_intents = paid_intent ∷ [] }

-- The stored request has the fingerprint "f".
abbrev other_hashing : Hashing
other_hashing = record plain { stringify = λ event_id provider phone. "g" }

key_is_used : find_by_buyer_and_idempotency 5 use_case "k" kept ≡ some paid_intent
unfolding find_by_buyer_and_idempotency find_row
key_is_used = refl

fingerprints_differ : text_eq "f" (fingerprint_of other_hashing request) ≡ false
unfolding fingerprint_of
fingerprints_differ = refl

initiate_payment-conflict_example :
    (e : Error) × (initiate_payment
        (record initiator { hashing = other_hashing })
        (some session)
        request
        kept
      ≡ (err e, kept))
initiate_payment-conflict_example =
    initiate_payment-conflict (record initiator { hashing = other_hashing }) (some session) request
      kept 5 paid_intent refl key_is_used fingerprints_differ

kept-Holds : Holds 80 paid_intent kept
unfolding find_intent find_row
kept-Holds = record { distinct = (refl, tt); found = refl }

after_steps-Holds_example : Holds 80 paid_intent (
    after_steps
      (delivery gateway (charged "signed b") ∷ initiation initiator (some session) request ∷ [])
      kept)
after_steps-Holds_example =
    after_steps-Holds 80 paid_intent
      (delivery gateway (charged "signed b") ∷ initiation initiator (some session) request ∷ [])
      kept refl kept-Holds
