-- ===== src/Initiation/Steps.antt =====
-- Initiations and deliveries of webhooks as the steps of one database.
use govibe_core.Prelude.{◌≡◌, refl, ℕ, Bool, true, false, Option, List, [], ◌∷◌, arith}
use govibe_core.Store.{
  Db, PaymentIntent, PaymentIntentStatus, is_initiation_failed, is_open, Ends-then, Ends-run,
}
use govibe_core.Context.{RequestContext}
use govibe_core.Intents.Distinct.{Each-AreDistinct}
use govibe_core.Webhooks.Receive.{Gateway, WebhookInput}
use govibe_core.Webhooks.Handle.{handle_webhook}
use govibe_core.Webhooks.Confirm.{KeptOrConfirmed, handle_webhook-IsConfirmed}
use govibe_core.Webhooks.Final.{same_id, final_once}
use govibe_core.Initiation.Begin.{InitiateInput}
use govibe_core.Initiation.Service.{Initiator, initiate_payment}
use govibe_core.Initiation.Reads.{check_eligible-Moves}
use govibe_core.Initiation.Final.{Holds, after_guards-Ends}

-- A call of one of the two services.
pub data Step : Type 0 where
  initiation : Initiator → Option RequestContext → InitiateInput → Step
  delivery : Gateway → WebhookInput → Step

-- The database after a step, whatever the call returns.
unfoldable pub after_step : Step → Db → Db
after_step (initiation initiator ctx input) db = (initiate_payment initiator ctx input db).1
after_step (delivery gateway input) db = (handle_webhook gateway input db).1

unfoldable pub after_steps : List Step → Db → Db
after_steps [] db = db
after_steps (step ∷ steps) db = after_steps steps (after_step step db)

-- `status` is VERIFIED or FAILED.
abbrev pub is_final : PaymentIntentStatus → Bool
is_final PaymentIntentStatus.verified = true
is_final PaymentIntentStatus.failed = true
is_final _ = false

final_not_open : (s : PaymentIntentStatus) → is_final s ≡ true → is_open s ≡ false
final_not_open PaymentIntentStatus.verified h = refl
final_not_open PaymentIntentStatus.failed h = refl
final_not_open PaymentIntentStatus.initiated h = absurd (ground arith)
final_not_open PaymentIntentStatus.initiation_pending h = absurd (ground arith)
final_not_open PaymentIntentStatus.initiation_failed h = absurd (ground arith)

final_not_failed : (s : PaymentIntentStatus) → is_final s ≡ true → is_initiation_failed s ≡ false
final_not_failed PaymentIntentStatus.verified h = refl
final_not_failed PaymentIntentStatus.failed h = refl
final_not_failed PaymentIntentStatus.initiated h = absurd (ground arith)
final_not_failed PaymentIntentStatus.initiation_pending h = absurd (ground arith)
final_not_failed PaymentIntentStatus.initiation_failed h = absurd (ground arith)

module _ (id : ℕ) (row : PaymentIntent) where
  initiation_keeps :
      (initiator : Initiator) (ctx : Option RequestContext) (input : InitiateInput) (db : Db)
      → is_initiation_failed row.status ≡ false
      → Holds id row db
      → Holds id row (initiate_payment initiator ctx input db).1
  unfolding initiate_payment
  initiation_keeps initiator ctx input db settled h =
      (Ends-then (λ d p. p)
          (Ends-run (λ d p. p)
            (check_eligible-Moves (Holds id row) initiator.config initiator.hashing.trim ctx
              input.event_id input.provider))
          (λ eligible. after_guards-Ends id row settled initiator input eligible)).at
        db h

  delivery_keeps :
      (gateway : Gateway) (input : WebhookInput) (db : Db)
      → is_open row.status ≡ false
      → Holds id row db
      → Holds id row (handle_webhook gateway input db).1
  delivery_keeps gateway input db closed h = record {
    distinct =
        Each-AreDistinct (KeptOrConfirmed gateway db) (same_id gateway db) db.payment_intents
          (handle_webhook gateway input db).1.payment_intents
          (handle_webhook-IsConfirmed gateway db input) h.distinct;
    found = final_once gateway db input id row h.found closed;
  }

  step_keeps :
      (step : Step) (db : Db)
      → is_final row.status ≡ true
      → Holds id row db
      → Holds id row (after_step step db)
  unfolding after_step
  step_keeps (initiation initiator ctx input) db final h =
      initiation_keeps initiator ctx input db (final_not_failed row.status final) h
  step_keeps (delivery gateway input) db final h =
      delivery_keeps gateway input db (final_not_open row.status final) h

  -- Where no two intents have one id, an intent that is VERIFIED or FAILED stays as it is through every
  -- sequence of initiations and deliveries of webhooks, whatever the providers answer and whichever
  -- statements of an initiation the database refuses, and the ids stay distinct.
  pub after_steps-Holds :
      (steps : List Step) (db : Db)
      → is_final row.status ≡ true
      → Holds id row db
      → Holds id row (after_steps steps db)
  unfolding after_steps
  after_steps-Holds [] db final h = h
  after_steps-Holds (step ∷ steps) db final h =
      after_steps-Holds steps (after_step step db) final (step_keeps step db final h)
