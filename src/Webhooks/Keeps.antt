-- ===== src/Webhooks/Keeps.antt =====
-- What the writes of a delivery keep: a predicate that stands an audit row more and an update of the
-- stored deliveries stands every step but the transition of the intent.
use govibe_core.Prelude.{◌≡◌, refl, ℕ, String, Option, none, some, arith, update_rows, join}
use govibe_core.Store.{
  Db, PaymentIntent, WebhookEvent, IntentAudit, Json, Post, Moves, Moves-writes, Moves-modify,
  Moves-pure, Moves-bind, Moves-gets, Ends, Ends-run, ◌>>=◌,
}
use govibe_core.Intents.Repository.{
  with_intent_audit, append_intent_audit, is_open_of, verified_row, failed_row,
  transition_to_verified, transition_to_failed, transition,
}
use govibe_core.Webhooks.Deliveries.{Processing, update_processing, is_delivery, processed_row}
use govibe_core.Webhooks.Outcome.{
  ProviderVerification, audit_if, reject_webhook, mark_webhook_processed, handle_verification_error,
  error_tx,
}
use govibe_core.Webhooks.Settle.{
  Target, to_verified, to_failed, stored, transition_to, record_transition, skip_transition,
}
use govibe_core.Webhooks.Receive.{audit_call}

-- The stored deliveries after an update of one.
abbrev pub with_processing : ℕ → Processing → Db → Db
with_processing id input db = record db {
  webhook_events = update_rows (is_delivery id) (processed_row input) db.webhook_events;
}

pub update_processing_writes :
    (id : ℕ) (input : Processing) (db : Db)
    → Post (update_processing id input db) (λ _ db'. db' ≡ with_processing id input db)
unfolding update_processing ◌>>=◌
update_processing_writes id input db = ground arith

pub record IsStable (P : Db → Type 0) : Type 0 where
  pub audited : (row : IntentAudit) (db : Db) → P db → P (with_intent_audit row db)
  pub updated : (id : ℕ) (input : Processing) (db : Db) → P db → P (with_processing id input db)

-- The row that a transition makes of an intent.
abbrev pub target_row : Target → ℕ → ProviderVerification → PaymentIntent → PaymentIntent
target_row to_verified now v = verified_row (stored now v)
target_row to_failed now v =
    failed_row (stored now v) "PROVIDER_PAYMENT_FAILED"
      (join "Provider reported " (join v.provider_status "."))

abbrev pub moved : Target → ℕ → ℕ → ProviderVerification → Db → Db
moved target id now v db = record db {
  payment_intents = update_rows (is_open_of id) (target_row target now v) db.payment_intents;
}

pub transition_to_writes :
    (target : Target) (id now : ℕ) (v : ProviderVerification) (db : Db)
    → Post (transition_to target id now v db) (λ _ db'. db' ≡ moved target id now v db)
unfolding transition_to transition_to_verified transition_to_failed transition
transition_to_writes to_verified id now v db = refl
transition_to_writes to_failed id now v db = refl

module _ (P : Db → Type 0) (stable : IsStable P) where
  update_processing-Moves : (id : ℕ) (input : Processing) → Moves P P (update_processing id input)
  update_processing-Moves id input =
      Moves-writes (with_processing id input) (update_processing_writes id input)
        (stable.updated id input)

  append-Moves : (row : IntentAudit) → Moves P P (append_intent_audit row)
  unfolding append_intent_audit
  append-Moves row = Moves-modify (stable.audited row)

  audit_if-Moves :
      (intent : Option PaymentIntent) (audit : Option (String × Json))
      → Moves P P (audit_if intent audit)
  unfolding audit_if
  audit_if-Moves (some intent) (some (event_type, details)) = append-Moves _
  audit_if-Moves (some intent) none = Moves-pure
  audit_if-Moves none audit = Moves-pure

  pub audit_call-Ends :
      (intent : Option PaymentIntent) (event_type : String) (details : Json)
      → Ends P P (audit_call intent event_type details)
  unfolding audit_call
  audit_call-Ends intent event_type details =
      Ends-run (λ d p. p) (audit_if-Moves intent (some (event_type, details)))

  pub reject_webhook-Ends :
      (now : ℕ) (delivery : WebhookEvent) (intent : Option PaymentIntent) (code message : String)
      (audit : Option (String × Json))
      → Ends P P (reject_webhook now delivery intent code message audit)
  unfolding reject_webhook
  reject_webhook-Ends now delivery intent code message audit =
      Ends-run (λ d p. p)
        (Moves-bind (update_processing-Moves _ _) (λ _. audit_if-Moves intent audit))

  pub mark_webhook_processed-Ends :
      (now : ℕ) (delivery : WebhookEvent) (intent : Option PaymentIntent)
      (audit : Option (String × Json))
      → Ends P P (mark_webhook_processed now delivery intent audit)
  unfolding mark_webhook_processed
  mark_webhook_processed-Ends now delivery intent audit =
      Ends-run (λ d p. p)
        (Moves-bind (update_processing-Moves _ _) (λ _. audit_if-Moves intent audit))

  pub handle_verification_error-Ends :
      (now : ℕ) (delivery : WebhookEvent) (intent : PaymentIntent) (code message : String)
      → Ends P P (handle_verification_error now delivery intent code message)
  unfolding handle_verification_error error_tx
  handle_verification_error-Ends now delivery intent code message =
      Ends-run (λ d p. p)
        (Moves-bind (update_processing-Moves _ _)
          (λ _. Moves-bind (append-Moves _) (λ _. Moves-pure)))

  pub skip_transition-Moves :
      (now : ℕ) (delivery : WebhookEvent) (intent : PaymentIntent) (target : Target)
      → Moves P P (skip_transition now delivery intent target)
  unfolding skip_transition
  skip_transition-Moves now delivery intent target = Moves-bind Moves-gets (λ _.
      Moves-bind (append-Moves _) (λ _. Moves-bind (update_processing-Moves _ _) (λ _. Moves-pure)))

  pub record_transition-Moves :
      (now : ℕ) (delivery : WebhookEvent) (intent : PaymentIntent) (v : ProviderVerification)
      (target : Target)
      → Moves P P (record_transition now delivery intent v target)
  unfolding record_transition
  record_transition-Moves now delivery intent v target = Moves-bind (append-Moves _) (λ _.
      Moves-bind (append-Moves _) (λ _. Moves-bind (update_processing-Moves _ _) (λ _. Moves-pure)))
