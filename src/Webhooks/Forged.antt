-- ===== src/Webhooks/Forged.antt =====
-- A delivery of Paystack without its signature.
use govibe_core.Prelude.{
  ◌≡◌, refl, sym, subst, find_row, ap, String, Bool, true, false, Option, none, some, text_eq,
  text_eq_sound, Bool-cases, inl, inr, if◌then◌else◌,
}
use govibe_core.Store.{
  Db, PaymentProvider, WebhookEvent, Error, run_in_transaction, throw_if, modify, unique_violation,
  ◌>>◌, is_some, Result, err, ◌>>=◌, ◌>=>◌, throws, webhook_signature,
}
use govibe_core.Webhooks.Signature.{
  header_value, truthy, check_signature, validate_paystack_signature,
}
use govibe_core.Webhooks.Deliveries.{insert_webhook_event, repeats, with_delivery}
use govibe_core.Webhooks.Outcome.{WebhookResult}
use govibe_core.Webhooks.Receive.{Gateway, WebhookInput}
use govibe_core.Webhooks.Handle.{
  handle_webhook, handle_by_provider, handle_paystack, persist_rejected_signature_event,
  swallow_duplicate, unsigned_row,
}

-- The tables that a delivery without its signature leaves alone, and its error.
pub record IsRefused (db : Db) (c : Result WebhookResult × Db) : Type 0 where
  pub error : Error
  pub fails : c.0 ≡ err error
  pub intents : c.1.payment_intents ≡ db.payment_intents
  pub audits : c.1.intent_audits ≡ db.intent_audits

pub checked :
    (expected : String) (found : Option String)
    → ¬ (found ≡ some expected)
    → (message : String) × (check_signature expected (truthy found) ≡ some message)
checked expected none h = ("Missing Paystack webhook signature.", refl)
checked expected (some s) h = elim (Bool-cases (text_eq s "")) [
  | inl e ↦ ("Missing Paystack webhook signature.", rw (e, if◌then◌else◌) refl)
  | inr e ↦ elim (Bool-cases (text_eq expected s)) [
    | inl f ↦ absurd (h (ap some (sym (text_eq_sound expected s f))))
    | inr f ↦ ("Invalid Paystack webhook signature.", rw (e, f, if◌then◌else◌) refl)
  ]
]

module _ (gateway : Gateway) (input : WebhookInput) (hash message : String) (db : Db) where
  abbrev row : WebhookEvent
  row = unsigned_row gateway.delivery_id gateway.now hash message

  persisted :
      (repeated : Bool)
      → IsRefused db (
          ((λ d. swallow_duplicate (
                run_in_transaction
                  (throw_if repeated unique_violation >> modify (with_delivery row))
                  d))
              >=> λ _. throws (webhook_signature message))
            db)
  unfolding swallow_duplicate ◌>>=◌ ◌>=>◌
  persisted true = record {
    error = webhook_signature message;
    fails = refl;
    intents = refl;
    audits = refl;
  }
  persisted false = record {
    error = webhook_signature message;
    fails = refl;
    intents = refl;
    audits = refl;
  }

  unsigned_delivery : IsRefused db (handle_paystack gateway input hash (some message) db)
  unfolding handle_paystack persist_rejected_signature_event insert_webhook_event ◌>=>◌
  unsigned_delivery = persisted (is_some (find_row (repeats row) db.webhook_events))

-- A delivery of Paystack whose signature is not the HMAC of its body fails, and changes no payment
-- intent and no audit row of one.
pub handle_webhook-IsRefused :
    (gateway : Gateway) (input : WebhookInput) (db : Db)
    → input.provider ≡ PaymentProvider.paystack
    → ¬ (header_value input.signature ≡ some (gateway.hmac input.raw_body))
    → IsRefused db (handle_webhook gateway input db)
unfolding handle_webhook validate_paystack_signature
handle_webhook-IsRefused gateway input db paystack forged =
    let (message, e) =
      checked (gateway.hmac input.raw_body) (header_value input.signature) forged in
    subst
      (λ p. IsRefused db (handle_by_provider gateway input (gateway.sha256 input.raw_body) p db))
      (sym paystack)
      (subst
        (λ f. IsRefused db (handle_paystack gateway input (gateway.sha256 input.raw_body) f db))
        (sym e) (unsigned_delivery gateway input (gateway.sha256 input.raw_body) message db))
