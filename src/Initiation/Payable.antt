-- ===== src/Initiation/Payable.antt =====
-- What an initiation has checked.
use govibe_core.Prelude.{
  ◌≡◌, refl, ap, ◌∙◌, ℕ, true, false, not-not, Option, some, arith, ◌==◌, inl, inr, find_row_sound,
  String, text_eq,
}
use govibe_core.Store.{
  Db, User, Organizer, is_published, is_approved, PaymentProvider, PaymentIntent, Result, ok, err,
  Error, Post, Post-at, Post-bind, Post-weaken, Post-gets, Post-or_throw, Post-throw_if, is_some,
  atomic, committed, then-began, Result-cases, run_atomic, run_rolled_back, Tx,
  idempotency_conflict, ◌>>=◌,
}
use govibe_core.Context.{RequestContext, user_of}
use govibe_core.LaunchControl.{LaunchConfig, Provider, assert_payment_initiation_allowed}
use govibe_core.Initiation.Guards.{
  Eligible, PayableEvent, find_user, find_payable_event, check_eligible, assert_event_eligible,
  valid_price, supported_provider,
}
use govibe_core.Intents.Repository.{find_by_buyer_and_idempotency}
use govibe_core.Initiation.Begin.{
  InitiateInput, Hashing, use_case, key_hash_of, fingerprint_of, begin_existing, begin_by, begin_tx,
}
use govibe_core.Initiation.Reads.{check_eligible-Moves}
use govibe_core.Initiation.Service.{Initiator, IntentView, after_guards, initiate_payment}

-- What the guards have checked.
pub record IsPayable (config : LaunchConfig) (trim : String → String) (ctx : Option RequestContext)
    (event_id : ℕ) (provider : PaymentProvider) (db : Db) (eligible : Eligible) : Type 0 where
  pub user_id : ℕ
  pub organizer : Organizer
  pub authenticated : user_of ctx ≡ some user_id
  pub buyer : find_user user_id db ≡ some eligible.buyer
  pub is_active : eligible.buyer.is_active ≡ true
  pub has_verified_email : is_some eligible.buyer.email_verified_at ≡ true
  pub event :
      find_payable_event event_id db
      ≡ some (record { event = eligible.event; organizer = organizer })
  pub is_on_sale : is_published eligible.event.status ≡ true
  pub is_trusted : is_approved organizer.status ≡ true
  pub takes_payments : eligible.event.payment_enabled ≡ true
  pub price : valid_price eligible.event.price_minor ≡ some eligible.amount_minor
  pub launched : config.payments_enabled ≡ true

-- The guards on an event.
pub record IsOnSale (found : PayableEvent) (amount : ℕ) : Type 0 where
  pub is_on_sale : is_published found.event.status ≡ true
  pub is_trusted : is_approved found.organizer.status ≡ true
  pub takes_payments : found.event.payment_enabled ≡ true
  pub price : valid_price found.event.price_minor ≡ some amount

on_sale :
    (trim : String → String) (found : PayableEvent) (db : Db)
    → Post (assert_event_eligible trim found db) (λ amount _. IsOnSale found amount)
unfolding assert_event_eligible
on_sale trim found db = Post-throw_if _ _ _ _ db (λ a. Post-throw_if _ _ _ _ db (λ b.
    Post-throw_if _ _ _ _ db (λ c. Post-or_throw _ _ _ _ db (λ amount d.
      Post-throw_if _ _ _ _ db (λ e. record {
        is_on_sale = not-not _ a;
        is_trusted = not-not _ b;
        takes_payments = not-not _ c;
        price = d;
      })))))

launched_lem :
    (config : LaunchConfig) (provider : Provider) (event_id : ℕ) (currency : String) (db : Db)
    → Post
        (assert_payment_initiation_allowed config provider event_id currency db)
        (λ _ _. config.payments_enabled ≡ true)
unfolding assert_payment_initiation_allowed
launched_lem config provider event_id currency db =
    Post-throw_if _ _ _ _ db (λ a. Post-weaken _ (λ _ _. Unit) _ (any _) (λ _ _ _. not-not _ a))
  where
    any : {A : Type 0} (x : Result (A × Db)) → Post x (λ _ _. Unit)
    any (ok (a, d)) = tt
    any (err e) = tt

-- The guards end normally only for a payable event, and the buyer is the one of the context.
pub check_eligible-IsPayable :
    (config : LaunchConfig) (trim : String → String) (ctx : Option RequestContext) (event_id : ℕ)
    (provider : PaymentProvider) (db : Db)
    → Post
        (check_eligible config trim ctx event_id provider db)
        (λ eligible _. IsPayable config trim ctx event_id provider db eligible)
unfolding check_eligible
check_eligible-IsPayable config trim ctx event_id provider db =
    Post-or_throw _ _ _ _ db (λ user_id a. Post-gets _ _ _ db (
      Post-or_throw _ _ _ _ db (λ buyer b. Post-throw_if _ _ _ _ db (λ c.
        Post-throw_if _ _ _ _ db (λ d. Post-gets _ _ _ db (
          Post-or_throw _ _ _ _ db (λ found e.
            Post-bind _ (λ amount _. IsOnSale found amount) (assert_event_eligible trim found) _ db
              (on_sale trim found db)
              (λ amount db1 s.
                Post-bind _ (λ _ _. config.payments_enabled ≡ true)
                  (assert_payment_initiation_allowed config (supported_provider provider)
                    found.event.id found.event.price_currency)
                  _ db1 (launched_lem config _ _ _ db1)
                  (λ _ _ l. record {
                    user_id = user_id;
                    organizer = found.organizer;
                    authenticated = a;
                    buyer = b;
                    is_active = not-not _ c;
                    has_verified_email = not-not _ d;
                    event = e;
                    is_on_sale = s.is_on_sale;
                    is_trusted = s.is_trusted;
                    takes_payments = s.takes_payments;
                    price = s.price;
                    launched = l;
                  })))))))))

-- An initiation that succeeds is of a payable event: the buyer of the context is active and has a
-- verified email, the event is published, takes payments and has a price, its organizer is approved,
-- and payments are switched on.
pub initiate_payment-IsPayable :
    (initiator : Initiator) (ctx : Option RequestContext) (input : InitiateInput) (db db' : Db)
    (view : IntentView)
    → initiate_payment initiator ctx input db ≡ (ok view, db')
    → (eligible : Eligible) × IsPayable initiator.config initiator.hashing.trim ctx input.event_id
        input.provider db eligible
unfolding initiate_payment atomic
initiate_payment-IsPayable initiator ctx input db db' view run =
    let (eligible, d, checked, went) =
      then-began
        (atomic (
          check_eligible initiator.config initiator.hashing.trim ctx input.event_id input.provider))
        (after_guards initiator input) db db' view run in
    (
      eligible,
      Post-at
          (λ e _.
            IsPayable initiator.config initiator.hashing.trim ctx input.event_id input.provider db
              e)
          (check_eligible-IsPayable initiator.config initiator.hashing.trim ctx input.event_id
            input.provider db)
          (committed
            (check_eligible initiator.config initiator.hashing.trim ctx input.event_id
              input.provider)
            db d eligible checked),
    )

begin_refused :
    (id : ℕ) (hashing : Hashing) (eligible : Eligible) (input : InitiateInput) (db : Db)
    (existing : PaymentIntent)
    → find_by_buyer_and_idempotency eligible.buyer.id use_case (key_hash_of hashing input) db
      ≡ some existing
    → text_eq existing.fingerprint_hash (fingerprint_of hashing input) ≡ false
    → begin_tx id hashing eligible input db
      ≡ err (idempotency_conflict "Idempotency key reused with different payload.")
unfolding begin_tx begin_by begin_existing ◌>>=◌
begin_refused id hashing eligible input db existing found differs =
    rw (found, begin_by, differs, ◌>>=◌) refl

-- An initiation under an idempotency key for which the buyer has an intent of a request with another
-- fingerprint fails and changes nothing, so it does not reach the provider.
pub initiate_payment-conflict :
    (initiator : Initiator) (ctx : Option RequestContext) (input : InitiateInput) (db : Db)
    (user_id : ℕ) (existing : PaymentIntent)
    → user_of ctx ≡ some user_id
    → find_by_buyer_and_idempotency user_id use_case (key_hash_of initiator.hashing input) db
      ≡ some existing
    → text_eq existing.fingerprint_hash (fingerprint_of initiator.hashing input) ≡ false
    → (e : Error) × (initiate_payment initiator ctx input db ≡ (err e, db))
unfolding initiate_payment after_guards find_user
initiate_payment-conflict initiator ctx input db user_id existing known found differs =
    elim (Result-cases (guards db)) [
      | inl (x, e) ↦ (x, run_rolled_back guards (after_guards initiator input) db x e)
      | inr ((eligible, d), e) ↦
          let checked =
            Post-at
              (λ el _.
                IsPayable initiator.config initiator.hashing.trim ctx input.event_id input.provider
                  db el)
              (check_eligible-IsPayable initiator.config initiator.hashing.trim ctx input.event_id
                input.provider db)
              e in
          let same =
            Post-at (λ _ d. d ≡ db)
              ((check_eligible-Moves (λ d. d ≡ db) initiator.config initiator.hashing.trim ctx
                  input.event_id input.provider).at
                db refl)
              e in
          (
            idempotency_conflict "Idempotency key reused with different payload.",
            run_atomic guards (after_guards initiator input) db eligible d e
                ∙ ap (after_guards initiator input eligible) same
                ∙ run_rolled_back (begin_tx initiator.intent_id initiator.hashing eligible input) _
                    db (idempotency_conflict "Idempotency key reused with different payload.")
                    (begin_refused initiator.intent_id initiator.hashing eligible input db existing
                      (ap
                          (λ n.
                            find_by_buyer_and_idempotency n use_case
                              (key_hash_of initiator.hashing input) db)
                          (is_buyer eligible checked)
                        ∙ found)
                      differs),
          )
    ]
  where
    guards : Tx Eligible
    guards =
        check_eligible initiator.config initiator.hashing.trim ctx input.event_id input.provider

    is_buyer :
        (eligible : Eligible)
        → IsPayable initiator.config initiator.hashing.trim ctx input.event_id input.provider db
            eligible
        → eligible.buyer.id ≡ user_id
    is_buyer eligible p = ground (
      arith,
      known,
      p.authenticated,
      find_row_sound (λ (u : User). u.id == p.user_id) db.users p.buyer,
    )
