-- ===== src/Initiation/Service.antt =====
-- `initiatePayment` and `getPaymentIntentForBuyer` of
-- src/modules/payments/application/payments.service.ts.
use govibe_core.Prelude.{ℕ, String, Option, none, some}
use govibe_core.Store.{
  PaymentIntent, PaymentProvider, PaymentIntentStatus, User, ok, err, Call, atomic, returns, ◌>=>◌,
  not_found,
}
use govibe_core.Context.{RequestContext}
use govibe_core.LaunchControl.{LaunchConfig}
use govibe_core.Intents.Repository.{find_owned_by_buyer}
use govibe_core.Initiation.Guards.{Eligible, check_eligible}
use govibe_core.Initiation.Begin.{
  InitiateInput, Hashing, Action, call_provider, return_existing, begin_tx, normalize_phone,
}
use govibe_core.Initiation.Attempt.{InitiateCall, Attempting, after_answer, after_ending}

-- PaymentIntentView, less the times of the row.
pub record IntentView : Type 0 where
  pub payment_intent_id : ℕ
  pub event_id : ℕ
  pub organizer_id : ℕ
  pub buyer_user_id : ℕ
  pub provider : PaymentProvider
  pub status : PaymentIntentStatus
  pub amount_minor : ℕ
  pub currency : String
  pub provider_reference : String
  pub provider_checkout_url : Option String
  pub provider_access_code : Option String
  pub failure_code : Option String
  pub failure_message : Option String
  pub initiated_at : Option ℕ
  pub verified_at : Option ℕ
  pub failed_at : Option ℕ
  pub provider_verified_status : Option String
  pub provider_verified_amount : Option ℕ
  pub provider_verified_currency : Option String

-- `toView`
unfoldable pub to_view : PaymentIntent → IntentView
to_view row = record {
  payment_intent_id = row.id;
  event_id = row.event_id;
  organizer_id = row.organizer_id;
  buyer_user_id = row.buyer_user_id;
  provider = row.provider;
  status = row.status;
  amount_minor = row.amount_minor;
  currency = row.currency;
  provider_reference = row.provider_reference;
  provider_checkout_url = row.checkout_url;
  provider_access_code = row.access_code;
  failure_code = row.failure_code;
  failure_message = row.failure_message;
  initiated_at = row.initiated_at;
  verified_at = row.verified_at;
  failed_at = row.failed_at;
  provider_verified_status = row.verified_status;
  provider_verified_amount = row.verified_amount;
  provider_verified_currency = row.verified_currency;
}

-- What the service is given.
pub record Initiator : Type 0 where
  pub config : LaunchConfig
  pub hashing : Hashing
  pub attempting : Attempting
  pub intent_id : ℕ

abbrev pub request_of : Initiator → InitiateInput → User → PaymentIntent → InitiateCall
request_of initiator input buyer intent = record {
  payment_intent_id = intent.id;
  provider_reference = intent.provider_reference;
  amount_minor = intent.amount_minor;
  currency = intent.currency;
  customer_email = buyer.email;
  customer_phone = normalize_phone initiator.hashing.trim input.customer_phone;
}

-- From the action on: the intent that is returned.
unfoldable pub after_action : Initiator → InitiateInput → Eligible → Action → Call PaymentIntent
after_action initiator input eligible (return_existing intent) db = (ok intent, db)
after_action initiator input eligible (call_provider intent) db =
    after_ending initiator.attempting intent input.provider (
      after_answer initiator.attempting intent
        (initiator.attempting.initiate input.provider
          (request_of initiator input eligible.buyer intent))
        db)

-- From the guards on.
unfoldable pub after_guards : Initiator → InitiateInput → Eligible → Call IntentView
after_guards initiator input eligible =
    atomic (begin_tx initiator.intent_id initiator.hashing eligible input) >=> λ action.
    after_action initiator input eligible action >=> λ row. returns (to_view row)

-- `initiatePayment`
unfoldable pub initiate_payment :
    Initiator → Option RequestContext → InitiateInput → Call IntentView
initiate_payment initiator ctx input =
    atomic
      (check_eligible initiator.config initiator.hashing.trim ctx input.event_id input.provider)
    >=> λ eligible. after_guards initiator input eligible

-- `getPaymentIntentForBuyer`
unfoldable pub get_payment_intent_for_buyer : ℕ → ℕ → Call IntentView
get_payment_intent_for_buyer intent_id buyer_user_id db =
    elim (find_owned_by_buyer intent_id buyer_user_id db) [
      | none ↦ (err (not_found "Payment intent not found."), db)
      | some row ↦ (ok (to_view row), db)
    ]
