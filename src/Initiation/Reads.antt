-- ===== src/Initiation/Reads.antt =====
-- The guards of an initiation only read, so they keep everything.
use govibe_core.Prelude.{String, Option, ℕ}
use govibe_core.Store.{
  Db, PaymentProvider, Moves, Moves-bind, Moves-pure, Moves-gets, Moves-or_throw, Moves-throw_if,
}
use govibe_core.Context.{RequestContext}
use govibe_core.LaunchControl.{
  LaunchConfig, Provider, load_event_scope, assert_event_scope_allowed, assert_provider_allowed,
  assert_currency_allowed, assert_payment_initiation_allowed,
}
use govibe_core.Initiation.Guards.{PayableEvent, assert_event_eligible, check_eligible}

module _ (P : Db → Type 0) where
  assert_event_eligible-Moves :
      (trim : String → String) (found : PayableEvent) → Moves P P (assert_event_eligible trim found)
  unfolding assert_event_eligible
  assert_event_eligible-Moves trim found = Moves-bind (Moves-throw_if _ _) (λ _.
      Moves-bind (Moves-throw_if _ _) (λ _. Moves-bind (Moves-throw_if _ _) (λ _.
        Moves-bind (Moves-or_throw _ _) (λ _. Moves-bind (Moves-throw_if _ _) (λ _. Moves-pure)))))

  launch-Moves :
      (config : LaunchConfig) (provider : Provider) (event_id : ℕ) (currency : String)
      → Moves P P (assert_payment_initiation_allowed config provider event_id currency)
  unfolding assert_payment_initiation_allowed load_event_scope assert_event_scope_allowed
      assert_provider_allowed assert_currency_allowed
  launch-Moves config provider event_id currency = Moves-bind (Moves-throw_if _ _) (λ _.
      Moves-bind (Moves-bind Moves-gets (λ _. Moves-or_throw _ _)) (λ _.
        Moves-bind (Moves-bind (Moves-throw_if _ _) (λ _. Moves-throw_if _ _))
          (λ _. Moves-bind (Moves-throw_if _ _) (λ _. Moves-throw_if _ _))))

  pub check_eligible-Moves :
      (config : LaunchConfig) (trim : String → String) (ctx : Option RequestContext) (event_id : ℕ)
      (provider : PaymentProvider)
      → Moves P P (check_eligible config trim ctx event_id provider)
  unfolding check_eligible
  check_eligible-Moves config trim ctx event_id provider = Moves-bind (Moves-or_throw _ _) (λ _.
      Moves-bind Moves-gets (λ _. Moves-bind (Moves-or_throw _ _) (λ _.
        Moves-bind (Moves-throw_if _ _) (λ _. Moves-bind (Moves-throw_if _ _) (λ _.
          Moves-bind Moves-gets (λ _. Moves-bind (Moves-or_throw _ _) (λ found.
            Moves-bind (assert_event_eligible-Moves trim found)
              (λ _. Moves-bind (launch-Moves config _ _ _) (λ _. Moves-pure)))))))))
