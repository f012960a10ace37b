-- ===== src/Webhooks/Deliveries.antt =====
-- The stored deliveries of webhooks. src/modules/payments/infrastructure/repositories/
-- prisma-provider-webhook-event.repository.ts. The database draws the id of a delivery.
use govibe_core.Prelude.{
  ℕ, String, Bool, ◌&&◌, ◌||◌, Option, none, some, List, ◌∷◌, ◌==◌, text_eq, find_row, update_rows,
}
use govibe_core.Store.{
  Db, PaymentProvider, payment_provider_eq, WebhookEvent, WebhookStatus, Tx, modify, require,
  throw_if, is_some, ◌>>◌, unique_violation,
}

abbrev pub has_payload_hash : PaymentProvider → String → WebhookEvent → Bool
has_payload_hash provider hash row =
    payment_provider_eq row.provider provider && text_eq row.payload_hash hash

abbrev pub has_event_id : PaymentProvider → String → WebhookEvent → Bool
has_event_id provider id row =
    payment_provider_eq row.provider provider && text_eq row.provider_event_id id

abbrev pub is_delivery : ℕ → WebhookEvent → Bool
is_delivery id row = row.id == id

unfoldable pub find_by_payload_hash :
    PaymentProvider → String → List WebhookEvent → Option WebhookEvent
find_by_payload_hash provider hash rows = find_row (has_payload_hash provider hash) rows

unfoldable pub find_by_event_id : PaymentProvider → String → List WebhookEvent → Option WebhookEvent
find_by_event_id provider id rows = find_row (has_event_id provider id) rows

abbrev pub with_delivery : WebhookEvent → Db → Db
with_delivery row db = record db { webhook_events = row ∷ db.webhook_events }

-- The rows that break a unique constraint with a new row.
abbrev pub repeats : WebhookEvent → WebhookEvent → Bool
repeats new row =
    is_delivery new.id row
    || (has_event_id new.provider new.provider_event_id row
        || has_payload_hash new.provider new.payload_hash row)

-- `create`
unfoldable pub insert_webhook_event : WebhookEvent → Tx (Unit {0})
insert_webhook_event row db =
    (throw_if (is_some (find_row (repeats row) db.webhook_events)) unique_violation
        >> modify (with_delivery row))
      db

-- The input of `updateProcessing`; `none` is undefined, which keeps the column.
pub record Processing : Type 0 where
  pub status : WebhookStatus
  pub payment_intent_id : Option (Option ℕ)
  pub provider_reference : Option (Option String)
  pub signature_valid : Option (Option Bool)
  pub failure_code : Option (Option String)
  pub failure_message : Option (Option String)
  pub processed_at : Option (Option ℕ)

abbrev pub or_kept : {A : Type 0} → Option A → A → A
or_kept none a = a
or_kept (some b) a = b

abbrev pub processed_row : Processing → WebhookEvent → WebhookEvent
processed_row input row = record row {
  processing_status = input.status;
  payment_intent_id = or_kept input.payment_intent_id row.payment_intent_id;
  provider_reference = or_kept input.provider_reference row.provider_reference;
  signature_valid = or_kept input.signature_valid row.signature_valid;
  failure_code = or_kept input.failure_code row.failure_code;
  failure_message = or_kept input.failure_message row.failure_message;
  processed_at = or_kept input.processed_at row.processed_at;
}

-- `updateProcessing`
unfoldable pub update_processing : ℕ → Processing → Tx (Unit {0})
update_processing id input db =
    (require (is_some (find_row (is_delivery id) db.webhook_events))
        >> modify (λ d. record d {
          webhook_events = update_rows (is_delivery id) (processed_row input) d.webhook_events;
        }))
      db
