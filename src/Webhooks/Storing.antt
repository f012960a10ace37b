-- ===== src/Webhooks/Storing.antt =====
-- What storing a delivery does: the row is new, or a row of its payload or of its event is there, or
-- the id that was drawn is taken.
use govibe_core.Prelude.{◌≡◌, refl, Bool, true, false, Option, none, some, find_row, ℕ}
use govibe_core.Store.{
  Db, PaymentIntent, WebhookEvent, Result, ok, err, unique_violation, is_some, ◌>>=◌, ◌>>◌, commit,
  throw_if, modify,
}
use govibe_core.Webhooks.Envelope.{Envelope}
use govibe_core.Webhooks.Deliveries.{insert_webhook_event, repeats, with_delivery}
use govibe_core.Webhooks.Receive.{
  Stored, received_row, existing_delivery, after_create, create_webhook_event, stored_before,
}

-- The ways that `createWebhookEvent` can end.
pub data Storing (id : ℕ) (envelope : Envelope) (intent : Option PaymentIntent) (db : Db)
    : Result Stored × Db → Type 0 where
  fresh : Storing id envelope intent db (
    ok (record { created = true; event = received_row id envelope intent }),
    with_delivery (received_row id envelope intent) db,
  )
  known :
      (row : WebhookEvent)
      → existing_delivery envelope db ≡ some row
      → Storing id envelope intent db (ok (record { created = false; event = row }), db)
  refused : Storing id envelope intent db (err unique_violation, db)

module _ (id : ℕ) (envelope : Envelope) (intent : Option PaymentIntent) (db : Db) where
  repeated :
      (found : Option WebhookEvent)
      → existing_delivery envelope db ≡ found
      → Storing id envelope intent db (stored_before found db)
  repeated none e = refused
  repeated (some row) e = known row e

  abbrev outcome : Bool → Result Stored × Db
  outcome b = after_create envelope (received_row id envelope intent) (
      commit db (
        (throw_if b unique_violation >> modify (with_delivery (received_row id envelope intent)))
          db))

  storing : (b : Bool) → Storing id envelope intent db (outcome b)
  unfolding after_create ◌>>=◌
  storing true = repeated (existing_delivery envelope db) refl
  storing false = fresh

  pub create_webhook_event-Storing :
      Storing id envelope intent db (create_webhook_event id envelope intent db)
  unfolding create_webhook_event insert_webhook_event
  create_webhook_event-Storing =
      storing (is_some (find_row (repeats (received_row id envelope intent)) db.webhook_events))
