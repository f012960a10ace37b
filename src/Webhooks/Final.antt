-- ===== src/Webhooks/Final.antt =====
-- Sequences of deliveries, and a delivery that comes after a forgery of it.
use govibe_core.Prelude.{
  ◌≡◌, refl, sym, ap, ◌∙◌, ℕ, String, false, none, some, List, [], ◌∷◌, arith, inl, inr, find_row,
  find_row-Each, ◌==◌, is_some,
}
use govibe_core.Store.{
  Db, PaymentIntent, PaymentProvider, is_open, ok, run_in_transaction, throw_if, modify,
  unique_violation, ◌>>◌, ◌>>=◌, ◌>=>◌, throws, webhook_signature,
}
use govibe_core.Intents.Repository.{find_intent, has_id}
use govibe_core.Webhooks.Signature.{header_value, validate_paystack_signature}
use govibe_core.Webhooks.Envelope.{Envelope, parse_paystack_envelope, Body}
use govibe_core.Webhooks.Deliveries.{insert_webhook_event, repeats, with_delivery}
use govibe_core.Webhooks.Settle.{Target, to_verified, to_failed}
use govibe_core.Webhooks.Outcome.{ProviderVerification, WebhookResult}
use govibe_core.Webhooks.Receive.{Gateway, WebhookInput, Answer}
use govibe_core.Webhooks.Handle.{
  handle_webhook, handle_paystack, process_parsed, unsigned_row, persist_rejected_signature_event,
  swallow_duplicate,
}
use govibe_core.Webhooks.Keeps.{target_row}
use govibe_core.Webhooks.Confirm.{KeptOrConfirmed, handle_webhook-IsConfirmed}
use govibe_core.Webhooks.Forged.{checked}
use govibe_core.Webhooks.Repeat.{
  IsDuplicate, later, stored_row-Remembers, process_envelope-IsDuplicate,
}

-- Deliveries one after another; what each returns is left out.
unfoldable pub deliver_all : List (Gateway × WebhookInput) → Db → Db
deliver_all [] db = db
deliver_all ((gateway, input) ∷ rest) db = deliver_all rest (handle_webhook gateway input db).1

target_row_id :
    (target : Target) (now : ℕ) (v : ProviderVerification) (row : PaymentIntent)
    → (target_row target now v row).id ≡ row.id
target_row_id to_verified now v row = refl
target_row_id to_failed now v row = refl

module _ (gateway : Gateway) (db : Db) where
  pub same_id : (x y : PaymentIntent) → KeptOrConfirmed gateway db x y → y.id ≡ x.id
  same_id x y (inl e) = ap (λ (row : PaymentIntent). row.id) e
  same_id x y (inr c) =
      ap (λ (row : PaymentIntent). row.id) c.becomes
      ∙ target_row_id c.target gateway.now c.verification x

  kept : (x y : PaymentIntent) → KeptOrConfirmed gateway db x y → is_open x.status ≡ false → y ≡ x
  kept x y (inl e) h = e
  kept x y (inr c) h = absurd (ground (arith, c.was_open, h))

  pub final_once :
      (input : WebhookInput) (id : ℕ) (row : PaymentIntent)
      → find_intent id db ≡ some row
      → is_open row.status ≡ false
      → find_intent id (handle_webhook gateway input db).1 ≡ some row
  unfolding find_intent
  final_once input id row found h =
      let (y, again, r) =
        find_row-Each (KeptOrConfirmed gateway db) (has_id id)
          (λ x y r. ap (λ n. n == id) (same_id x y r)) db.payment_intents
          (handle_webhook gateway input db).1.payment_intents row
          (handle_webhook-IsConfirmed gateway db input) found in
      again ∙ ap some (kept row y r h)

-- An intent that is neither INITIATED nor INITIATION_PENDING stays as it is through every sequence of
-- deliveries, whatever the providers answer.
pub deliver_all_final :
    (deliveries : List (Gateway × WebhookInput)) (db : Db) (id : ℕ) (row : PaymentIntent)
    → find_intent id db ≡ some row
    → is_open row.status ≡ false
    → find_intent id (deliver_all deliveries db) ≡ some row
unfolding deliver_all
deliver_all_final [] db id row found h = found
deliver_all_final ((gateway, input) ∷ rest) db id row found h =
    deliver_all_final rest (handle_webhook gateway input db).1 id row
      (final_once gateway db input id row found h) h

-- What an envelope of Paystack has of its delivery.
parsed_paystack :
    (body : Body) (hash : String) (envelope : Envelope)
    → parse_paystack_envelope body hash ≡ ok envelope
    → (PaymentProvider.paystack ≡ envelope.provider) × (hash ≡ envelope.payload_hash)
unfolding parse_paystack_envelope
parsed_paystack body hash envelope e = ground (arith, e)

module _ (gateway : Gateway) (forged : WebhookInput) (db : Db) where
  abbrev hash : String
  hash = gateway.sha256 forged.raw_body

  persisted :
      (message : String)
      → find_row
          (repeats (unsigned_row gateway.delivery_id gateway.now hash message))
          db.webhook_events
        ≡ none
      → (handle_paystack gateway forged hash (some message) db).1
        ≡ with_delivery (unsigned_row gateway.delivery_id gateway.now hash message) db
  unfolding handle_paystack persist_rejected_signature_event insert_webhook_event swallow_duplicate
      ◌>>=◌ ◌>=>◌
  persisted message e =
      ap
        (λ o.
          (((λ d. swallow_duplicate (
                run_in_transaction
                  (throw_if (is_some o) unique_violation
                    >> modify
                        (with_delivery (unsigned_row gateway.delivery_id gateway.now hash message)))
                  d))
              >=> λ _. throws {A = WebhookResult} (webhook_signature message))
            db).1)
        e

  -- After a delivery of Paystack without its signature, of a payload that no stored delivery has, the
  -- delivery of the same payload with its signature is acknowledged as a duplicate, and changes no
  -- intent.
  pub handle_webhook-forged_first :
      (genuine : WebhookInput) (envelope : Envelope) (verify : PaymentProvider → String → Answer)
      (now id : ℕ)
      → forged.provider ≡ PaymentProvider.paystack
      → ¬ (header_value forged.signature ≡ some (gateway.hmac forged.raw_body))
      → find_row (repeats (unsigned_row gateway.delivery_id gateway.now hash "")) db.webhook_events
        ≡ none
      → genuine.provider ≡ PaymentProvider.paystack
      → validate_paystack_signature gateway.hmac genuine.raw_body genuine.signature ≡ none
      → parse_paystack_envelope genuine.parsed_body (gateway.sha256 genuine.raw_body) ≡ ok envelope
      → genuine.raw_body ≡ forged.raw_body
      → IsDuplicate (handle_webhook gateway forged db).1 (
          handle_webhook (later gateway verify now id) genuine (handle_webhook gateway forged db).1)
  unfolding handle_webhook handle_paystack process_parsed validate_paystack_signature
  handle_webhook-forged_first genuine envelope verify now id p bad new q signed parses same =
      let (message, e) =
        checked (gateway.hmac forged.raw_body) (header_value forged.signature) bad in
      let (provider, payload) =
        parsed_paystack genuine.parsed_body (gateway.sha256 genuine.raw_body) envelope parses in
      rw (p, q, e, signed, parses, persisted message new)
        (process_envelope-IsDuplicate envelope (later gateway verify now id)
          (with_delivery (unsigned_row gateway.delivery_id gateway.now hash message) db)
          (stored_row-Remembers envelope db
            (unsigned_row gateway.delivery_id gateway.now hash message) provider
            (ap gateway.sha256 (sym same) ∙ payload)))
