-- ===== src/Webhooks/Confirm.antt =====
-- Only the provider's own answer finishes an intent.
use govibe_core.Prelude.{
  ◌≡◌, refl, sym, subst, String, true, Option, none, some, ◌⊎◌, inl, inr, arith, Each, Each-refl,
  Each-update_rows, update_rows,
}
use govibe_core.Store.{
  Db, PaymentProvider, ◌>>=◌, PaymentIntent, is_open, Result, ok, err, Ends, Ends-if, Ends-then,
  Ends-weaken, Ends-throws,
}
use govibe_core.Intents.Repository.{find_by_provider_reference, is_open_of}
use govibe_core.Webhooks.Envelope.{Envelope, parse_paystack_envelope}
use govibe_core.Webhooks.Deliveries.{insert_webhook_event}
use govibe_core.Webhooks.Outcome.{ProviderVerification}
use govibe_core.Webhooks.Settle.{Target}
use govibe_core.Webhooks.Receive.{Gateway, Stored, WebhookInput, answered, create_webhook_event}
use govibe_core.Webhooks.Process.{process_envelope, after_stored, intent_of}
use govibe_core.Webhooks.Handle.{
  handle_webhook, handle_by_provider, swallow_duplicate, handle_paystack, process_parsed,
  persist_rejected_signature_event,
}
use govibe_core.Webhooks.Keeps.{target_row}
use govibe_core.Webhooks.Course.{
  intent_known, Course, Agrees, handle_new_delivery-Ends, handle_duplicate_delivery-Ends,
}
use govibe_core.Webhooks.Storing.{Storing, fresh, known, refused, create_webhook_event-Storing}

-- A row of an intent that a delivery finished: the intent of some reference has its id, and the
-- provider's answer for that reference has the intent's reference, amount and currency.
pub record IsConfirmed (gateway : Gateway) (db : Db) (row row' : PaymentIntent) : Type 0 where
  pub intent : PaymentIntent
  pub reference : String
  pub verification : ProviderVerification
  pub target : Target
  pub found : find_by_provider_reference reference db ≡ some intent
  pub answer : gateway.verify_by_reference intent.provider reference ≡ answered verification
  pub agrees : Agrees intent verification target
  pub same_id : row.id ≡ intent.id
  pub was_open : is_open row.status ≡ true
  pub becomes : row' ≡ target_row target gateway.now verification row

-- What a delivery may do to the row of an intent.
abbrev pub KeptOrConfirmed : Gateway → Db → PaymentIntent → PaymentIntent → Type 0
KeptOrConfirmed gateway db row row' = (row' ≡ row) ⊎ IsConfirmed gateway db row row'

module _ (gateway : Gateway) (db : Db) where
  abbrev Same : Db → Type 0
  Same d = d.payment_intents ≡ db.payment_intents

  abbrev Told : Db → Type 0
  Told d = Each (KeptOrConfirmed gateway db) db.payment_intents d.payment_intents

  Same-Told : (d : Db) → Same d → Told d
  Same-Told d e =
      subst (Each (KeptOrConfirmed gateway db) db.payment_intents) (sym e)
        (Each-refl (KeptOrConfirmed gateway db) (λ row. inl refl) db.payment_intents)

  course : Course gateway db Same Told
  course = record {
    before = record { audited = λ row d p. p; updated = λ id input d p. p };
    after = record { audited = λ row d p. p; updated = λ id input d p. p };
    weaken = Same-Told;
    moves = λ intent reference v target found answer agrees d e.
        subst
          (λ rows.
            Each (KeptOrConfirmed gateway db) db.payment_intents
              (update_rows (is_open_of intent.id) (target_row target gateway.now v) rows))
          (sym e)
          (Each-update_rows (KeptOrConfirmed gateway db) (is_open_of intent.id)
            (target_row target gateway.now v) (λ row. inl refl)
            (λ row selected. inr (record {
              intent = intent;
              reference = reference;
              verification = v;
              target = target;
              found = found;
              answer = answer;
              agrees = agrees;
              same_id = ground (arith, selected);
              was_open = ground (arith, selected);
              becomes = refl;
            }))
            db.payment_intents);
  }

  create-Ends :
      (envelope : Envelope) (intent : Option PaymentIntent)
      → Ends Same Same (create_webhook_event gateway.delivery_id envelope intent)
  create-Ends envelope intent = record {
    at = λ d p. go d p (create_webhook_event-Storing gateway.delivery_id envelope intent d);
  }
    where
      go :
          (d : Db)
          → Same d
          → {c : Result Stored × Db} → Storing gateway.delivery_id envelope intent d c
          → Same c.1
      go d p fresh = p
      go d p (known row e) = p
      go d p refused = p

  after_stored-Ends :
      (envelope : Envelope) (stored : Stored)
      → Ends Same Told (after_stored gateway envelope (intent_of envelope db) stored)
  unfolding after_stored
  after_stored-Ends envelope stored =
      Ends-if stored.created
        (λ _.
          handle_new_delivery-Ends course envelope stored.event (intent_of envelope db)
            (intent_known envelope db))
        (λ _. Ends-weaken Same-Told (
          handle_duplicate_delivery-Ends Same course.before stored.event (intent_of envelope db)
            envelope))

  process_envelope-Told : (envelope : Envelope) → Told (process_envelope gateway envelope db).1
  unfolding process_envelope
  process_envelope-Told envelope =
      (Ends-then Same-Told (create-Ends envelope (intent_of envelope db))
          (after_stored-Ends envelope)).at
        db refl

  process_parsed-Told : (parsed : Result Envelope) → Told (process_parsed gateway parsed db).1
  unfolding process_parsed
  process_parsed-Told (ok envelope) = process_envelope-Told envelope
  process_parsed-Told (err e) = Same-Told db refl

  persist_rejected-Ends :
      (hash message : String)
      → Ends Same Same (persist_rejected_signature_event gateway hash message)
  unfolding persist_rejected_signature_event insert_webhook_event swallow_duplicate ◌>>=◌
  persist_rejected-Ends hash message = record { at = λ d p. ground arith }

  handle_paystack-Told :
      (input : WebhookInput) (hash : String) (failure : Option String)
      → Told (handle_paystack gateway input hash failure db).1
  unfolding handle_paystack
  handle_paystack-Told input hash none =
      process_parsed-Told (parse_paystack_envelope input.parsed_body hash)
  handle_paystack-Told input hash (some message) =
      (Ends-then Same-Told (persist_rejected-Ends hash message) (λ _. Ends-throws Same-Told)).at db
        refl

  -- A delivery, whatever it holds and however it ends, leaves every intent as it is, or makes an open
  -- intent VERIFIED or FAILED: then the answer of the intent's provider, asked for the reference that
  -- an intent of this id is found by, has the intent's reference, amount and currency and the status
  -- that the new state is for.
  pub handle_webhook-IsConfirmed :
      (input : WebhookInput)
      → Each
          (KeptOrConfirmed gateway db)
          db.payment_intents
          (handle_webhook gateway input db).1.payment_intents
  unfolding handle_webhook
  handle_webhook-IsConfirmed input = by_provider input.provider
    where
      by_provider :
          (p : PaymentProvider)
          → Told (handle_by_provider gateway input (gateway.sha256 input.raw_body) p db).1
      by_provider PaymentProvider.paystack = handle_paystack-Told input _ _
      by_provider PaymentProvider.mtn_momo = process_parsed-Told _
