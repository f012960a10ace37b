-- ===== src/Intents/Repository.antt =====
-- src/modules/payments/infrastructure/repositories/prisma-payment-intent.repository.ts,
-- prisma-payment-intent-audit-log.repository.ts. The database draws the id of an intent.
use govibe_core.Prelude.{
  ℕ, String, Bool, ◌&&◌, ◌||◌, Option, none, some, ◌∷◌, length, ◌==◌, text_eq, find_row,
  update_rows, select_rows,
}
use govibe_core.Store.{
  Db, PaymentIntent, PaymentIntentStatus, IntentAudit, Json, Tx, ok, modify, require, throw_if,
  is_some, ◌>>◌, unique_violation, is_open,
}

-- The unique key (buyer, use case, key hash).
abbrev pub has_key : ℕ → String → String → PaymentIntent → Bool
has_key buyer use_case key row =
    row.buyer_user_id == buyer && (text_eq row.use_case use_case && text_eq row.key_hash key)

abbrev pub has_reference : String → PaymentIntent → Bool
has_reference reference row = text_eq row.provider_reference reference

abbrev pub has_id : ℕ → PaymentIntent → Bool
has_id id row = row.id == id

unfoldable pub find_by_buyer_and_idempotency : ℕ → String → String → Db → Option PaymentIntent
find_by_buyer_and_idempotency buyer use_case key db =
    find_row (has_key buyer use_case key) db.payment_intents

unfoldable pub find_owned_by_buyer : ℕ → ℕ → Db → Option PaymentIntent
find_owned_by_buyer id buyer db =
    find_row (λ (row : PaymentIntent). row.id == id && row.buyer_user_id == buyer)
      db.payment_intents

unfoldable pub find_intent : ℕ → Db → Option PaymentIntent
find_intent id db = find_row (has_id id) db.payment_intents

unfoldable pub find_by_provider_reference : String → Db → Option PaymentIntent
find_by_provider_reference reference db = find_row (has_reference reference) db.payment_intents

-- The rows that break a unique constraint with a new row.
abbrev pub clashes : PaymentIntent → PaymentIntent → Bool
clashes new row =
    has_id new.id row
    || (has_reference new.provider_reference row
        || has_key new.buyer_user_id new.use_case new.key_hash row)

abbrev pub with_intent : PaymentIntent → Db → Db
with_intent row db = record db { payment_intents = row ∷ db.payment_intents }

unfoldable pub create_intent : PaymentIntent → Tx (Unit {0})
create_intent row db =
    (throw_if (is_some (find_row (clashes row) db.payment_intents)) unique_violation
        >> modify (with_intent row))
      db

-- What `markRetryPending` writes.
abbrev pub retry_pending : PaymentIntent → PaymentIntent
retry_pending row = record row {
  status = PaymentIntentStatus.initiation_pending;
  checkout_url = none;
  access_code = none;
  raw_response = none;
  failure_code = none;
  failure_message = none;
  failed_at = none;
}

-- The input of `markInitiated`.
pub record Initiated : Type 0 where
  pub checkout_url : Option String
  pub access_code : Option String
  pub raw_response : ℕ
  pub initiated_at : ℕ

abbrev pub initiated_row : Initiated → PaymentIntent → PaymentIntent
initiated_row input row = record row {
  status = PaymentIntentStatus.initiated;
  checkout_url = input.checkout_url;
  access_code = input.access_code;
  raw_response = some input.raw_response;
  initiated_at = some input.initiated_at;
  verified_at = none;
  failure_code = none;
  failure_message = none;
  failed_at = none;
  verified_status = none;
  verified_amount = none;
  verified_currency = none;
  verification_raw = none;
}

-- The input of `markFailed`.
pub record InitiationFailure : Type 0 where
  pub code : String
  pub message : String
  pub raw_response : Option ℕ
  pub failed_at : ℕ

abbrev pub initiation_failed_row : InitiationFailure → PaymentIntent → PaymentIntent
initiation_failed_row input row = record row {
  status = PaymentIntentStatus.initiation_failed;
  raw_response = input.raw_response;
  failure_code = some input.code;
  failure_message = some input.message;
  failed_at = some input.failed_at;
}

-- An update by primary key, whatever the status of the row is.
unfoldable pub update_intent : ℕ → (PaymentIntent → PaymentIntent) → Tx (Unit {0})
update_intent id f db =
    (require (is_some (find_row (has_id id) db.payment_intents))
        >> modify (λ d. record d { payment_intents = update_rows (has_id id) f d.payment_intents }))
      db

unfoldable pub mark_retry_pending : ℕ → Tx (Unit {0})
mark_retry_pending id = update_intent id retry_pending

unfoldable pub mark_initiated : ℕ → Initiated → Tx (Unit {0})
mark_initiated id input = update_intent id (initiated_row input)

unfoldable pub mark_initiation_failed : ℕ → InitiationFailure → Tx (Unit {0})
mark_initiation_failed id input = update_intent id (initiation_failed_row input)

-- What a provider says of a payment, as both transitions store it.
pub record Verified : Type 0 where
  pub at : ℕ
  pub provider_status : String
  pub amount : Option ℕ
  pub currency : Option String
  pub raw : ℕ

abbrev pub verified_row : Verified → PaymentIntent → PaymentIntent
verified_row input row = record row {
  status = PaymentIntentStatus.verified;
  verified_at = some input.at;
  failed_at = none;
  failure_code = none;
  failure_message = none;
  verified_status = some input.provider_status;
  verified_amount = input.amount;
  verified_currency = input.currency;
  verification_raw = some input.raw;
}

abbrev pub failed_row : Verified → String → String → PaymentIntent → PaymentIntent
failed_row input code message row = record row {
  status = PaymentIntentStatus.failed;
  failed_at = some input.at;
  failure_code = some code;
  failure_message = some message;
  verified_status = some input.provider_status;
  verified_amount = input.amount;
  verified_currency = input.currency;
  verification_raw = some input.raw;
}

-- The WHERE clause of both transitions.
abbrev pub is_open_of : ℕ → PaymentIntent → Bool
is_open_of id row = has_id id row && is_open row.status

-- `updateMany`: the number of rows that it updated.
unfoldable pub transition : ℕ → (PaymentIntent → PaymentIntent) → Tx ℕ
transition id f db = ok (
  length (select_rows (is_open_of id) db.payment_intents),
  record db { payment_intents = update_rows (is_open_of id) f db.payment_intents },
)

unfoldable pub transition_to_verified : ℕ → Verified → Tx ℕ
transition_to_verified id input = transition id (verified_row input)

unfoldable pub transition_to_failed : ℕ → Verified → String → String → Tx ℕ
transition_to_failed id input code message = transition id (failed_row input code message)

-- `PaymentIntentAuditLogRepository.append`
abbrev pub with_intent_audit : IntentAudit → Db → Db
with_intent_audit row db = record db { intent_audits = row ∷ db.intent_audits }

unfoldable pub append_intent_audit : IntentAudit → Tx (Unit {0})
append_intent_audit row = modify (with_intent_audit row)

-- A row about an intent.
abbrev pub audit_of : PaymentIntent → String → Json → IntentAudit
audit_of intent event_type details = record {
  payment_intent_id = intent.id;
  buyer_user_id = intent.buyer_user_id;
  event_type = event_type;
  details = details;
}
