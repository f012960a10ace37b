-- ===== src/Webhooks/Course.antt =====
-- The course of a delivery: from a database with `P` to one with `Q`, where the transition of the
-- intent is the one step that needs `Q`.
use govibe_core.Prelude.{
  ◌≡◌, refl, ap, ℕ, Bool, not-not, true, false, Option, none, some, ◌==◌, text_eq, text_eq_sound,
  arith, inl, inr, Bool-cases, String,
}
use govibe_core.Store.{
  Db, Json, PaymentIntent, WebhookEvent, payment_provider_eq, PaymentProvider, Moves, Moves-writes,
  Moves-bind, Moves-if, Ends, Ends-run, Ends-then, Ends-weaken, Ends-if, Ends-returns,
}
use govibe_core.Intents.Repository.{find_by_provider_reference}
use govibe_core.Webhooks.Envelope.{Envelope}
use govibe_core.Webhooks.Signature.{truthy}
use govibe_core.Webhooks.Outcome.{ProviderVerification, VerificationStatus}
use govibe_core.Webhooks.Settle.{
  Target, to_verified, to_failed, transition_tx, settle, reject_answer, handle_verification_result,
  amount_differs, currency_differs,
}
use govibe_core.Webhooks.Receive.{Gateway, Answer, answered, thrown, handle_duplicate_delivery}
use govibe_core.Webhooks.Process.{
  handle_answer, verify_delivery, dispatch_delivery, handle_supported, handle_new_delivery,
  intent_of,
}
use govibe_core.Webhooks.Keeps.{
  IsStable, moved, transition_to_writes, skip_transition-Moves, record_transition-Moves,
  mark_webhook_processed-Ends, reject_webhook-Ends, audit_call-Ends, handle_verification_error-Ends,
}

-- The status of a verification that each transition answers.
abbrev pub reported : Target → VerificationStatus
reported to_verified = VerificationStatus.success
reported to_failed = VerificationStatus.failed

-- What the guards of `handleVerificationResult` leave of a verification that reaches a transition.
pub record Agrees (intent : PaymentIntent) (v : ProviderVerification) (target : Target)
    : Type 0 where
  pub same_reference : v.provider_reference ≡ intent.provider_reference
  pub same_amount : v.amount_minor ≡ some intent.amount_minor
  pub same_currency : v.currency ≡ some intent.currency
  pub by_status : v.status ≡ reported target

same_amount_of : (a : Option ℕ) (n : ℕ) → amount_differs a n ≡ false → a ≡ some n
same_amount_of none n h = absurd (ground arith)
same_amount_of (some m) n h = ap some (ground (arith, h))

same_currency_of : (c : Option String) (s : String) → currency_differs c s ≡ false → c ≡ some s
same_currency_of none s h = absurd (ground arith)
same_currency_of (some t) s h = elim (Bool-cases (text_eq t s)) [
  | inl e ↦ ap some (text_eq_sound t s e)
  | inr e ↦ absurd (ground (arith, e, h))
]

pub same_provider : (p q : PaymentProvider) → payment_provider_eq p q ≡ true → p ≡ q
same_provider PaymentProvider.paystack PaymentProvider.paystack h = refl
same_provider PaymentProvider.mtn_momo PaymentProvider.mtn_momo h = refl
same_provider PaymentProvider.paystack PaymentProvider.mtn_momo h = absurd (ground arith)
same_provider PaymentProvider.mtn_momo PaymentProvider.paystack h = absurd (ground arith)

-- Two predicates that a delivery goes between.
pub record Course (gateway : Gateway) (db : Db) (P Q : Db → Type 0) : Type 0 where
  pub before : IsStable P
  pub after : IsStable Q
  pub weaken : (d : Db) → P d → Q d
  pub moves :
      (intent : PaymentIntent) (reference : String) (v : ProviderVerification) (target : Target)
      → find_by_provider_reference reference db ≡ some intent
      → gateway.verify_by_reference intent.provider reference ≡ answered v
      → Agrees intent v target
      → (d : Db) → P d
      → Q (moved target intent.id gateway.now v d)

module _ {gateway : Gateway} {db : Db} {P Q : Db → Type 0} (course : Course gateway db P Q) where
  transition_tx-Moves :
      (delivery : WebhookEvent) (intent : PaymentIntent) (v : ProviderVerification)
      (target : Target)
      → ((d : Db) → P d → Q (moved target intent.id gateway.now v d))
      → Moves P Q (transition_tx gateway.now delivery intent v target)
  unfolding transition_tx
  transition_tx-Moves delivery intent v target h =
      Moves-bind
        (Moves-writes (moved target intent.id gateway.now v)
          (transition_to_writes target intent.id gateway.now v) h)
        (λ count.
          Moves-if (count == 1)
            (record_transition-Moves Q course.after gateway.now delivery intent v target)
            (skip_transition-Moves Q course.after gateway.now delivery intent target))

  settle-Ends :
      (delivery : WebhookEvent) (intent : PaymentIntent) (v : ProviderVerification)
      (status : VerificationStatus)
      → ((target : Target)
          → status ≡ reported target
          → (d : Db) → P d
          → Q (moved target intent.id gateway.now v d))
      → Ends P Q (settle gateway.now delivery intent v status)
  unfolding settle
  settle-Ends delivery intent v VerificationStatus.success h =
      Ends-run course.weaken
        (transition_tx-Moves delivery intent v to_verified (h to_verified refl))
  settle-Ends delivery intent v VerificationStatus.failed h =
      Ends-run course.weaken (transition_tx-Moves delivery intent v to_failed (h to_failed refl))
  settle-Ends delivery intent v VerificationStatus.pending h =
      Ends-then course.weaken (mark_webhook_processed-Ends P course.before _ _ _ _)
        (λ _. Ends-returns course.weaken)
  settle-Ends delivery intent v VerificationStatus.unknown h =
      Ends-then course.weaken (mark_webhook_processed-Ends P course.before _ _ _ _)
        (λ _. Ends-returns course.weaken)

  reject_answer-Ends :
      (delivery : WebhookEvent) (intent : PaymentIntent) (code message event_type : String)
      (details : Json)
      → Ends P Q (reject_answer gateway.now delivery intent code message event_type details)
  unfolding reject_answer
  reject_answer-Ends delivery intent code message event_type details =
      Ends-then course.weaken (reject_webhook-Ends P course.before _ _ _ _ _ _)
        (λ _. Ends-returns course.weaken)

  handle_verification_result-Ends :
      (delivery : WebhookEvent) (intent : PaymentIntent) (v : ProviderVerification)
      → ((target : Target)
          → Agrees intent v target
          → (d : Db) → P d
          → Q (moved target intent.id gateway.now v d))
      → Ends P Q (handle_verification_result gateway.now delivery intent v)
  unfolding handle_verification_result
  handle_verification_result-Ends delivery intent v h =
      Ends-if _ (λ _. reject_answer-Ends _ _ _ _ _ _)
        (λ r.
          Ends-if _ (λ _. reject_answer-Ends _ _ _ _ _ _)
            (λ a.
              Ends-if _ (λ _. reject_answer-Ends _ _ _ _ _ _)
                (λ c. settle-Ends delivery intent v v.status (λ target s. h target (record {
                  same_reference =
                      text_eq_sound v.provider_reference intent.provider_reference (not-not _ r);
                  same_amount = same_amount_of v.amount_minor intent.amount_minor a;
                  same_currency = same_currency_of v.currency intent.currency c;
                  by_status = s;
                })))))

  handle_answer-Ends :
      (delivery : WebhookEvent) (intent : PaymentIntent) (reference : String) (answer : Answer)
      → find_by_provider_reference reference db ≡ some intent
      → gateway.verify_by_reference intent.provider reference ≡ answer
      → Ends P Q (handle_answer gateway.now delivery intent answer)
  unfolding handle_answer
  handle_answer-Ends delivery intent reference (answered v) found e =
      handle_verification_result-Ends delivery intent v
        (λ target agrees. course.moves intent reference v target found e agrees)
  handle_answer-Ends delivery intent reference (thrown x message) found e =
      Ends-weaken course.weaken (handle_verification_error-Ends P course.before _ _ _ _ _)

  verify_delivery-Ends :
      (envelope : Envelope) (delivery : WebhookEvent) (intent : PaymentIntent) (reference : String)
      → find_by_provider_reference reference db ≡ some intent
      → intent.provider ≡ envelope.provider
      → Ends P Q (verify_delivery gateway envelope delivery intent reference)
  unfolding verify_delivery
  verify_delivery-Ends envelope delivery intent reference found e =
      Ends-then course.weaken (audit_call-Ends P course.before _ _ _) (λ _.
        handle_answer-Ends delivery intent reference _ found
          (ap (λ p. gateway.verify_by_reference p reference) e))

  dispatch_delivery-Ends :
      (envelope : Envelope) (delivery : WebhookEvent) (reference : Option String)
      (intent : Option PaymentIntent)
      → ((r : String) (i : PaymentIntent)
          → reference ≡ some r
          → intent ≡ some i
          → find_by_provider_reference r db ≡ some i)
      → Ends P Q (dispatch_delivery gateway envelope delivery reference intent)
  unfolding dispatch_delivery
  dispatch_delivery-Ends envelope delivery none intent known =
      Ends-then course.weaken (reject_webhook-Ends P course.before _ _ _ _ _ _)
        (λ _. Ends-returns course.weaken)
  dispatch_delivery-Ends envelope delivery (some r) none known =
      Ends-then course.weaken (reject_webhook-Ends P course.before _ _ _ _ _ _)
        (λ _. Ends-returns course.weaken)
  dispatch_delivery-Ends envelope delivery (some r) (some i) known =
      Ends-if _
        (λ _.
          Ends-then course.weaken (reject_webhook-Ends P course.before _ _ _ _ _ _)
            (λ _. Ends-returns course.weaken))
        (λ e.
          verify_delivery-Ends envelope delivery i r (known r i refl refl)
            (same_provider i.provider envelope.provider (not-not _ e)))

  handle_supported-Ends :
      (envelope : Envelope) (delivery : WebhookEvent) (intent : Option PaymentIntent)
      (supported : Bool)
      → ((r : String) (i : PaymentIntent)
          → truthy envelope.provider_reference ≡ some r
          → intent ≡ some i
          → find_by_provider_reference r db ≡ some i)
      → Ends P Q (handle_supported gateway envelope delivery intent supported)
  unfolding handle_supported
  handle_supported-Ends envelope delivery intent true known =
      dispatch_delivery-Ends envelope delivery (truthy envelope.provider_reference) intent known
  handle_supported-Ends envelope delivery intent false known =
      Ends-then course.weaken (mark_webhook_processed-Ends P course.before _ _ _ _)
        (λ _. Ends-returns course.weaken)

  -- A new delivery takes `P` to `Q`.
  pub handle_new_delivery-Ends :
      (envelope : Envelope) (delivery : WebhookEvent) (intent : Option PaymentIntent)
      → ((r : String) (i : PaymentIntent)
          → truthy envelope.provider_reference ≡ some r
          → intent ≡ some i
          → find_by_provider_reference r db ≡ some i)
      → Ends P Q (handle_new_delivery gateway envelope delivery intent)
  unfolding handle_new_delivery
  handle_new_delivery-Ends envelope delivery intent known =
      Ends-then course.weaken (audit_call-Ends P course.before _ _ _)
        (λ _. handle_supported-Ends envelope delivery intent envelope.supported known)

-- A delivery that is stored already keeps what an audit row keeps.
pub handle_duplicate_delivery-Ends :
    (P : Db → Type 0)
    → IsStable P
    → (delivery : WebhookEvent) (intent : Option PaymentIntent) (envelope : Envelope)
    → Ends P P (handle_duplicate_delivery delivery intent envelope)
unfolding handle_duplicate_delivery
handle_duplicate_delivery-Ends P stable delivery intent envelope = record {
  at = λ d p.
      (Ends-then (λ d q. q) (audit_call-Ends P stable _ _ _) (λ _. Ends-returns (λ d q. q))).at d p;
}

-- The intent of an envelope is found by its reference.
pub intent_known :
    (envelope : Envelope) (db : Db) (r : String) (i : PaymentIntent)
    → truthy envelope.provider_reference ≡ some r
    → intent_of envelope db ≡ some i
    → find_by_provider_reference r db ≡ some i
intent_known envelope db r i t e = ground (arith, t, e)
