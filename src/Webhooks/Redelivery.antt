-- ===== src/Webhooks/Redelivery.antt =====
-- A delivery whose payload or event is stored is a duplicate.
use govibe_core.Prelude.{
  ◌≡◌, refl, sym, ap, ◌∙◌, ℕ, Bool, true, ◌||◌, Option, none, some, List, find_row, update_rows,
  find_row-update_rows, rewritten, is_some,
}
use govibe_core.Store.{Db, WebhookEvent, Ends, Ends-if}
use govibe_core.Webhooks.Envelope.{Envelope}
use govibe_core.Webhooks.Deliveries.{
  Processing, processed_row, is_delivery, has_payload_hash, has_event_id, find_by_payload_hash,
  find_by_event_id,
}
use govibe_core.Webhooks.Receive.{Gateway, Stored, existing_delivery, first_of}
use govibe_core.Webhooks.Process.{after_stored, intent_of}
use govibe_core.Webhooks.Keeps.{IsStable, with_processing}
use govibe_core.Webhooks.Course.{
  Course, handle_new_delivery-Ends, handle_duplicate_delivery-Ends, intent_known,
}

-- A row of the envelope's payload or event is stored.
abbrev pub Remembers : Envelope → Db → Type 0
Remembers envelope db = is_some (existing_delivery envelope db) ≡ true

rewritten_some :
    (q : WebhookEvent → Bool) (f : WebhookEvent → WebhookEvent) (o : Option WebhookEvent)
    → is_some (rewritten q f o) ≡ is_some o
rewritten_some q f none = refl
rewritten_some q f (some x) = refl

first_some : {A : Type 0} (a b : Option A) → is_some (first_of a b) ≡ (is_some a || is_some b)
first_some none b = refl
first_some (some a) b = refl

module _ (envelope : Envelope) where
  -- What is looked up of a delivery stands every update of the deliveries.
  updated_some :
      (p : WebhookEvent → Bool) (id : ℕ) (input : Processing) (rows : List WebhookEvent)
      → ((row : WebhookEvent) → p (processed_row input row) ≡ p row)
      → is_some (find_row p (update_rows (is_delivery id) (processed_row input) rows))
        ≡ is_some (find_row p rows)
  updated_some p id input rows keep =
      ap is_some (find_row-update_rows p (is_delivery id) (processed_row input) rows keep)
      ∙ rewritten_some (is_delivery id) (processed_row input) (find_row p rows)

  pub existing_some :
      (db : Db)
      → is_some (existing_delivery envelope db) ≡ (
          is_some
            (find_row (has_payload_hash envelope.provider envelope.payload_hash) db.webhook_events)
          || is_some (
              find_row
                (has_event_id envelope.provider envelope.provider_event_id)
                db.webhook_events))
  unfolding existing_delivery find_by_payload_hash find_by_event_id
  existing_some db = first_some _ _

  Remembers-IsStable : IsStable (Remembers envelope)
  unfolding existing_delivery
  Remembers-IsStable = record {
    audited = λ row d p. p;
    updated = λ id input d p.
        existing_some (with_processing id input d)
        ∙ ap
            (λ b.
              b
              || is_some (
                  find_row (has_event_id envelope.provider envelope.provider_event_id)
                    (with_processing id input d).webhook_events))
            (updated_some (has_payload_hash envelope.provider envelope.payload_hash) id input
              d.webhook_events (λ row. refl))
        ∙ ap
            (λ b.
              is_some (
                find_row (has_payload_hash envelope.provider envelope.payload_hash)
                  d.webhook_events)
              || b)
            (updated_some (has_event_id envelope.provider envelope.provider_event_id) id input
              d.webhook_events (λ row. refl))
        ∙ sym (existing_some d)
        ∙ p;
  }

  remembered :
      (gateway : Gateway) (db : Db) → Course gateway db (Remembers envelope) (Remembers envelope)
  unfolding existing_delivery
  remembered gateway db = record {
    before = Remembers-IsStable;
    after = Remembers-IsStable;
    weaken = λ d p. p;
    moves = λ intent reference v target found answer agrees d p. p;
  }

  pub after_stored-Ends :
      (gateway : Gateway) (db : Db) (stored : Stored)
      → Ends
          (Remembers envelope)
          (Remembers envelope)
          (after_stored gateway envelope (intent_of envelope db) stored)
  unfolding after_stored
  after_stored-Ends gateway db stored =
      Ends-if stored.created
        (λ _.
          handle_new_delivery-Ends (remembered gateway db) envelope stored.event
            (intent_of envelope db) (intent_known envelope db))
        (λ _.
          handle_duplicate_delivery-Ends (Remembers envelope) Remembers-IsStable stored.event
            (intent_of envelope db) envelope)
