-- ===== src/Webhooks/Repeat.antt =====
-- A webhook that is delivered again.
use govibe_core.Prelude.{
  ◌≡◌, refl, sym, ap, ◌∙◌, subst, ℕ, String, true, false, ◌||◌, Option, none, some, ◌∷◌, arith, inl,
  inr, Bool-cases, Option-cases, if◌then◌else◌, find_row, find_row-weaken, is_some, text_eq_refl,
}
use govibe_core.Store.{
  Db, Json, PaymentIntent, PaymentProvider, WebhookEvent, WebhookStatus, Result, ok, err,
  payment_provider_eq, ◌>=>◌, then-began, run_then, returns, run_then, ◌>>=◌, ◌>>◌, commit,
  unique_violation, throw_if, modify, atomic,
}
use govibe_core.Intents.Repository.{append_intent_audit}
use govibe_core.Webhooks.Envelope.{Envelope, parse_paystack_envelope}
use govibe_core.Webhooks.Deliveries.{
  has_payload_hash, has_event_id, find_by_payload_hash, find_by_event_id, repeats, with_delivery,
  insert_webhook_event,
}
use govibe_core.Webhooks.Outcome.{WebhookResult, audit_if}
use govibe_core.Webhooks.Receive.{
  Answer, WebhookInput, Gateway, Stored, received_row, existing_delivery, after_create,
  create_webhook_event, stored_before, handle_duplicate_delivery, audit_call, duplicate_intent,
}
use govibe_core.Webhooks.Process.{process_envelope, after_stored, intent_of}
use govibe_core.Webhooks.Handle.{
  handle_webhook, handle_by_provider, handle_paystack, process_parsed,
}
use govibe_core.Webhooks.Storing.{Storing, fresh, known, refused, create_webhook_event-Storing}
use govibe_core.Webhooks.Redelivery.{Remembers, existing_some, after_stored-Ends}

-- A call that acknowledges a duplicate, and changes neither an intent nor a stored delivery.
pub record IsDuplicate (db : Db) (c : Result WebhookResult × Db) : Type 0 where
  pub result : WebhookResult
  pub acknowledged : c.0 ≡ ok result
  pub duplicate : result.processing_status ≡ WebhookStatus.duplicate
  pub intents : c.1.payment_intents ≡ db.payment_intents
  pub deliveries : c.1.webhook_events ≡ db.webhook_events

same_provider_eq : (p : PaymentProvider) → payment_provider_eq p p ≡ true
same_provider_eq PaymentProvider.paystack = refl
same_provider_eq PaymentProvider.mtn_momo = refl

module _ (envelope : Envelope) where
  -- A row that is stored for the payload is remembered.
  pub stored_row-Remembers :
      (db : Db) (row : WebhookEvent)
      → row.provider ≡ envelope.provider
      → row.payload_hash ≡ envelope.payload_hash
      → Remembers envelope (with_delivery row db)
  unfolding existing_delivery find_by_payload_hash find_by_event_id find_row
  stored_row-Remembers db row p h =
      existing_some envelope (with_delivery row db)
      ∙ ap
          (λ b.
            is_some (
              if b
              then some row
              else find_row (has_payload_hash envelope.provider envelope.payload_hash)
                  db.webhook_events)
            || is_some (
                find_row (has_event_id envelope.provider envelope.provider_event_id)
                  (row ∷ db.webhook_events)))
          selected
    where
      selected : has_payload_hash envelope.provider envelope.payload_hash row ≡ true
      selected = ground (
        arith,
        p,
        h,
        same_provider_eq row.provider,
        text_eq_refl row.payload_hash,
        same_provider_eq envelope.provider,
        text_eq_refl envelope.payload_hash,
      )

  stored-Remembers :
      (id : ℕ) (intent : Option PaymentIntent) (db : Db) {c : Result Stored × Db}
      → Storing id envelope intent db c
      → (stored : Stored) (d : Db) → c ≡ (ok stored, d)
      → Remembers envelope d
  stored-Remembers id intent db fresh stored d e =
      subst (Remembers envelope) (ground (arith, e))
        (stored_row-Remembers db (received_row id envelope intent) refl refl)
  stored-Remembers id intent db (known row found) stored d e =
      subst (Remembers envelope) (ground (arith, e)) (ap is_some found)
  stored-Remembers id intent db refused stored d e = absurd (ground (arith, e))

  processed-Remembers :
      (gateway : Gateway) (db db' : Db) (r : WebhookResult)
      → process_envelope gateway envelope db ≡ (ok r, db')
      → Remembers envelope db'
  unfolding process_envelope
  processed-Remembers gateway db db' r run =
      let (stored, d, began, went) =
        then-began (create_webhook_event gateway.delivery_id envelope (intent_of envelope db))
          (after_stored gateway envelope (intent_of envelope db)) db db' r run in
      subst (λ c. Remembers envelope c.1) went
        ((after_stored-Ends envelope gateway db stored).at d (
          stored-Remembers gateway.delivery_id (intent_of envelope db) db
            (create_webhook_event-Storing gateway.delivery_id envelope (intent_of envelope db) db)
            stored d began))

  -- A delivery that is remembered cannot be inserted.
  repeated_row :
      (id : ℕ) (intent : Option PaymentIntent) (db : Db)
      → Remembers envelope db
      → is_some (find_row (repeats (received_row id envelope intent)) db.webhook_events) ≡ true
  repeated_row id intent db h =
      elim (Bool-cases (
        is_some (
          find_row (has_payload_hash envelope.provider envelope.payload_hash) db.webhook_events))) [
            | inl e ↦
                find_row-weaken (has_payload_hash envelope.provider envelope.payload_hash)
                  (repeats (received_row id envelope intent)) (λ row s. ground (arith, s))
                  db.webhook_events e
            | inr e ↦
                find_row-weaken (has_event_id envelope.provider envelope.provider_event_id)
                  (repeats (received_row id envelope intent)) (λ row s. ground (arith, s))
                  db.webhook_events (ground (arith, e, existing_some envelope db, h))
          ]

  create_repeated :
      (id : ℕ) (intent : Option PaymentIntent) (db : Db)
      → Remembers envelope db
      → (row : WebhookEvent) × (create_webhook_event id envelope intent db
          ≡ (ok (record { created = false; event = row }), db))
  unfolding create_webhook_event insert_webhook_event after_create ◌>>=◌
  create_repeated id intent db h = elim (Option-cases (existing_delivery envelope db)) [
    | inl e ↦ absurd (ground (arith, h, ap is_some e))
    | inr (row, e) ↦ (
      row,
      ap
            (λ b. after_create envelope (received_row id envelope intent) (
              commit db (
                (throw_if b unique_violation
                    >> modify (with_delivery (received_row id envelope intent)))
                  db)))
            (repeated_row id intent db h)
          ∙ ap (λ o. stored_before o db) e,
    )
  ]

  audit_runs :
      (intent : Option PaymentIntent) (event_type : String) (details : Json)
      (result : WebhookResult) (db : Db)
      → result.processing_status ≡ WebhookStatus.duplicate
      → IsDuplicate db ((audit_call intent event_type details >=> λ _. returns result) db)
  unfolding audit_call audit_if append_intent_audit atomic ◌>=>◌
  audit_runs none event_type details result db h = record {
    result = result;
    acknowledged = refl;
    duplicate = h;
    intents = refl;
    deliveries = refl;
  }
  audit_runs (some intent) event_type details result db h = record {
    result = result;
    acknowledged = refl;
    duplicate = h;
    intents = refl;
    deliveries = refl;
  }

  pub process_envelope-IsDuplicate :
      (gateway : Gateway) (db : Db)
      → Remembers envelope db
      → IsDuplicate db (process_envelope gateway envelope db)
  unfolding process_envelope after_stored handle_duplicate_delivery
  process_envelope-IsDuplicate gateway db h =
      let (row, e) = create_repeated gateway.delivery_id (intent_of envelope db) db h in
      subst (IsDuplicate db)
        (sym (
          run_then (create_webhook_event gateway.delivery_id envelope (intent_of envelope db))
            (after_stored gateway envelope (intent_of envelope db)) db db
            (record { created = false; event = row }) e))
        (audit_runs (duplicate_intent (intent_of envelope db) row db) _ _ _ db refl)

-- Another delivery: the hashes are the same, the adapters, the clock and the drawn id are not.
abbrev pub later : Gateway → (PaymentProvider → String → Answer) → ℕ → ℕ → Gateway
later gateway verify now id = record gateway {
  verify_by_reference = verify;
  now = now;
  delivery_id = id;
}

module _ (gateway : Gateway) (verify : PaymentProvider → String → Answer) (now id : ℕ) (db db' : Db)
    (r : WebhookResult) where
  parsed_again :
      (parsed : Result Envelope)
      → process_parsed gateway parsed db ≡ (ok r, db')
      → IsDuplicate db' (process_parsed (later gateway verify now id) parsed db')
  unfolding process_parsed
  parsed_again (ok envelope) run =
      process_envelope-IsDuplicate envelope (later gateway verify now id) db'
        (processed-Remembers envelope gateway db db' r run)
  parsed_again (err e) run = absurd (ground (arith, run))

  signed_again :
      (input : WebhookInput) (hash : String) (failure : Option String)
      → handle_paystack gateway input hash failure db ≡ (ok r, db')
      → IsDuplicate db' (handle_paystack (later gateway verify now id) input hash failure db')
  unfolding handle_paystack
  signed_again input hash none run =
      parsed_again (parse_paystack_envelope input.parsed_body hash) run
  signed_again input hash (some message) run =
      let (u, d, began, went) = then-began _ _ db db' r run in absurd (ground (arith, went))

  -- A webhook that was acknowledged is acknowledged as a duplicate when it is delivered again,
  -- whatever the provider answers by then, and changes neither an intent nor a stored delivery.
  pub handle_webhook-IsDuplicate :
      (input : WebhookInput)
      → handle_webhook gateway input db ≡ (ok r, db')
      → IsDuplicate db' (handle_webhook (later gateway verify now id) input db')
  unfolding handle_webhook
  handle_webhook-IsDuplicate input run = go input.provider run
    where
      go :
          (p : PaymentProvider)
          → handle_by_provider gateway input (gateway.sha256 input.raw_body) p db ≡ (ok r, db')
          → IsDuplicate db' (
              handle_by_provider
                (later gateway verify now id)
                input
                (gateway.sha256 input.raw_body)
                p
                db')
      go PaymentProvider.paystack run = signed_again input _ _ run
      go PaymentProvider.mtn_momo run = parsed_again _ run
