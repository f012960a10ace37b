-- ===== src/Initiation/Attempt.antt =====
-- The call of the provider's adapter and what is recorded of it: the `try` and `catch` blocks of
-- `initiatePayment`, `recordInitiationFailure`, `recordProviderSuccessPersistenceFailure` and
-- `tryAppendAuditLog` of src/modules/payments/application/payments.service.ts. The adapters are an
-- argument, and so is which transactions the database refuses to commit.
use govibe_core.Prelude.{ℕ, String, true, not, Option, none, some, [], ◌∷◌, text_eq, if◌then◌else◌}
use govibe_core.Store.{
  Db, PaymentIntent, PaymentProvider, provider_text, flag, text, Json, Error, provider_error,
  internal_server_error, Result, ok, err, Tx, pure, ◌>>◌, Call, atomic, throws, ◌>=>◌,
}
use govibe_core.Outbox.Processor.{
  DispatchError, provider_auth, provider_timeout, provider_network, provider_response, error_code,
  named, nameless, webhook_signature,
}
use govibe_core.Intents.Repository.{
  Initiated, initiated_row, mark_initiated, mark_initiation_failed, append_intent_audit, audit_of,
}
use govibe_core.Webhooks.Outcome.{opt_text}

-- The input of an adapter, less the metadata, which is of the intent's ids.
pub record InitiateCall : Type 0 where
  pub payment_intent_id : ℕ
  pub provider_reference : String
  pub amount_minor : ℕ
  pub currency : String
  pub customer_email : String
  pub customer_phone : Option String

-- What an adapter answers.
pub record ProviderInitiation : Type 0 where
  pub provider_reference : String
  pub checkout_url : Option String
  pub access_code : Option String
  pub raw_response : ℕ

pub data InitiationAnswer : Type 0 where
  initiated : ProviderInitiation → InitiationAnswer
  thrown : DispatchError → (message : String) → InitiationAnswer

-- What the outer `catch` is given: an error of the provider, or the one that reports that the local
-- state was not stored.
pub data Caught : Type 0 where
  of_provider : DispatchError → (message : String) → Caught
  not_stored : Caught

-- The statements that the database may refuse.
pub data Statement : Type 0 where
  persist_initiated record_unstored append_fallback record_failure : Statement

-- What the attempt is given: the adapters, the clock, the statements that are refused, the JSON of
-- `resolveFailurePayload`, which is opaque, and the messages of the database's errors.
pub record Attempting : Type 0 where
  pub initiate : PaymentProvider → InitiateCall → InitiationAnswer
  pub now : ℕ
  pub refuses : Statement → Option Error
  pub failure_payload : Caught → Option ℕ
  pub error_message : Error → String

-- A transaction that the database may refuse.
unfoldable pub attempted : {A : Type 0} → Option Error → Tx A → Call A
attempted none m = atomic m
attempted (some e) m = throws e

-- `resolveFailureCode`
unfoldable pub initiation_failure_code : Caught → String
initiation_failure_code (of_provider provider_timeout message) = "PAYMENT_PROVIDER_TIMEOUT"
initiation_failure_code (of_provider provider_auth message) = "PAYMENT_PROVIDER_AUTH_ERROR"
initiation_failure_code (of_provider provider_network message) = "PAYMENT_PROVIDER_NETWORK_ERROR"
initiation_failure_code (of_provider (provider_response code status_code) message) = code
initiation_failure_code (of_provider (named name) message) = "PAYMENT_INITIATION_FAILED"
initiation_failure_code (of_provider nameless message) = "PAYMENT_INITIATION_FAILED"
initiation_failure_code (of_provider webhook_signature message) = "PAYMENT_INITIATION_FAILED"
initiation_failure_code not_stored = "PAYMENT_INITIATION_FAILED"

abbrev pub caught_message : Caught → String
caught_message (of_provider e message) = message
caught_message not_stored = "Payment provider initiation succeeded but local persistence failed."

-- The error that is thrown on.
abbrev pub rethrown : Caught → Error
rethrown (of_provider e message) = provider_error (error_code e) message
rethrown not_stored =
    internal_server_error "Payment provider initiation succeeded but local persistence failed."

-- `recordInitiationFailure`
unfoldable pub record_initiation_failure :
    Attempting → PaymentIntent → PaymentProvider → Caught → Call (Unit {0})
record_initiation_failure attempting intent provider caught =
    attempted (attempting.refuses record_failure) (
      mark_initiation_failed intent.id (record {
        code = initiation_failure_code caught;
        message = caught_message caught;
        raw_response = attempting.failure_payload caught;
        failed_at = attempting.now;
      })
      >> append_intent_audit (
          audit_of intent "payment_initiation_failed" (
            ("provider", text (provider_text provider))
            ∷ ("providerReference", text intent.provider_reference)
            ∷ ("failureCode", text (initiation_failure_code caught))
            ∷ ("failureMessage", text (caught_message caught))
            ∷ [])))

abbrev unstored_details : PaymentIntent → String → Json → Json
unstored_details intent message rest =
    ("providerReference", text intent.provider_reference) ∷ ("error", text message) ∷ rest

-- `tryAppendAuditLog`, and the `catch` of `recordProviderSuccessPersistenceFailure`.
unfoldable pub after_unstored : Attempting → PaymentIntent → String → Result (Unit {0}) × Db → Db
after_unstored attempting intent message (ok u, db) = db
after_unstored attempting intent message (err e, db) =
    (attempted (attempting.refuses append_fallback)
      (append_intent_audit (
        audit_of intent "payment_initiation_provider_created_db_update_failed"
          (unstored_details intent message (("auditFallback", flag true) ∷ []))))
      db).1

-- `recordProviderSuccessPersistenceFailure`; it never throws.
unfoldable pub record_persistence_failure :
    Attempting → PaymentIntent → ProviderInitiation → (message : String) → Db → Db
record_persistence_failure attempting intent answer message db =
    after_unstored attempting intent message (
      attempted (attempting.refuses record_unstored)
        (mark_initiation_failed intent.id (record {
          code = "LOCAL_PERSISTENCE_FAILURE_AFTER_PROVIDER_SUCCESS";
          message = "Provider initiation succeeded but the local state could not be finalized.";
          raw_response = some answer.raw_response;
          failed_at = attempting.now;
        })
          >> append_intent_audit (
              audit_of intent "payment_initiation_provider_created_db_update_failed"
                (unstored_details intent message [])))
        db)

abbrev pub initiated_of : Attempting → ProviderInitiation → Initiated
initiated_of attempting answer = record {
  checkout_url = answer.checkout_url;
  access_code = answer.access_code;
  raw_response = answer.raw_response;
  initiated_at = attempting.now;
}

-- The transaction that stores the provider's answer; the row that it returns.
unfoldable pub persist_tx : Attempting → PaymentIntent → ProviderInitiation → Tx PaymentIntent
persist_tx attempting intent answer = do
  let row = initiated_row (initiated_of attempting answer) intent
  mark_initiated intent.id (initiated_of attempting answer)
  append_intent_audit (
      audit_of row "payment_initiation_initiated" (
        ("provider", text (provider_text row.provider))
        ∷ ("providerReference", text row.provider_reference)
        ∷ ("providerCheckoutUrl", opt_text row.checkout_url)
        ∷ ("providerAccessCode", opt_text row.access_code)
        ∷ []))
  pure row

-- The `try` blocks end with the stored row, or with what is caught.
pub data Ending : Type 0 where
  stored : PaymentIntent → Ending
  failing : Caught → Ending

-- The inner `catch`.
unfoldable pub after_persist :
    Attempting → PaymentIntent → ProviderInitiation → Result PaymentIntent × Db → Ending × Db
after_persist attempting intent answer (ok row, db) = (stored row, db)
after_persist attempting intent answer (err e, db) = (
  failing not_stored,
  record_persistence_failure attempting intent answer (attempting.error_message e) db,
)

unfoldable pub after_answer : Attempting → PaymentIntent → InitiationAnswer → Db → Ending × Db
after_answer attempting intent (thrown e message) db = (failing (of_provider e message), db)
after_answer attempting intent (initiated answer) db =
    if not (text_eq answer.provider_reference intent.provider_reference)
    then (
      failing (
          of_provider (provider_response "PAYMENT_PROVIDER_REFERENCE_MISMATCH" 500)
            "Provider returned an unexpected payment reference."),
      db,
    )
    else after_persist attempting intent answer
        (attempted (attempting.refuses persist_initiated) (persist_tx attempting intent answer) db)

-- The outer `catch`.
unfoldable pub after_ending :
    Attempting → PaymentIntent → PaymentProvider → Ending × Db → Result PaymentIntent × Db
after_ending attempting intent provider (stored row, db) = (ok row, db)
after_ending attempting intent provider (failing caught, db) =
    (record_initiation_failure attempting intent provider caught >=> λ _. throws (rethrown caught))
      db
