-- ===== src/Payments/Calls.antt =====
-- The whole verification, with the answer of the provider and the guards in front of the
-- transaction.
use govibe_core.Prelude.{
  ◌≡◌, refl, sym, subst, ap, ◌∙◌, true, not, ◌&&◌, Option, arith, if◌then◌else◌, text_eq,
  Bool-cases, inl, inr,
}
use govibe_core.Store.{
  Db, Clock, Result, Error, ok, err, Post, Post-at, commit, committed, commit-keeps, Result-cases,
  run_in_transaction, payment_already_processed, invalid_state_transition,
}
use govibe_core.Context.{RequestContext, Uuids}
use govibe_core.Payments.Verify.{
  Providers, Verification, VerifyInput, VerifyResult, verify, verify_tx, is_provider_success,
  map_provider_status, is_terminal, set_payment_status,
}
use govibe_core.Payments.Ledger.{AreBooked, verify_tx-AreBooked}
use govibe_core.Payments.Outcome.{Settles, verify_tx-Settles, verify_tx_finished}

-- The guards of the handler, once the provider has answered.
abbrev guarded :
    VerifyInput → Verification → Db → Result VerifyResult × Db → Result VerifyResult × Db
guarded input v db c =
    if not (text_eq v.currency input.verified_currency)
    then (err (invalid_state_transition "Webhook verification currency mismatch."), db)
    else if input.verified_success && not (is_provider_success v.status)
    then (
      err (invalid_state_transition "Webhook success state does not match provider verification."),
      db,
    )
    else c

module _ (providers : Providers) (clock : Clock) (uuid : Uuids) (ctx : Option RequestContext)
    (input : VerifyInput) (db : Db) where
  -- Every way a verification can go: the provider's error, a guard, or the transaction.
  abbrev tx : Verification → Result VerifyResult × Db
  tx v = run_in_transaction (verify_tx clock uuid ctx input v) db

  answered :
      (v : Verification)
      → providers input.provider input.provider_ref ≡ ok v
      → verify providers clock uuid ctx input db ≡ guarded input v db (tx v)
  unfolding verify
  answered v e = rw (e, verify) refl

  unanswered :
      (x : Error)
      → providers input.provider input.provider_ref ≡ err x
      → verify providers clock uuid ctx input db ≡ (err x, db)
  unfolding verify
  unanswered x e = rw (e, verify) refl

  -- A verification that succeeded ran its transaction on the provider's answer.
  pub verify_ran :
      {r : VerifyResult} {db' : Db}
      → verify providers clock uuid ctx input db ≡ (ok r, db')
      → (v : Verification) × (providers input.provider input.provider_ref ≡ ok v)
        × (verify_tx clock uuid ctx input v db ≡ ok (r, db'))
  verify_ran {r} {db'} run = elim (Result-cases (providers input.provider input.provider_ref)) [
    | inl (x, e) ↦ absurd (ground (arith, sym (unanswered x e) ∙ run))
    | inr (v, e) ↦ (
      v,
      e,
      committed (verify_tx clock uuid ctx input v) db db' r (passed v (sym (answered v e) ∙ run)),
    )
  ]
    where
      passed : (v : Verification) → guarded input v db (tx v) ≡ (ok r, db') → tx v ≡ (ok r, db')
      passed v h = elim (Bool-cases (not (text_eq v.currency input.verified_currency))) [
        | inl m ↦ absurd (ground (arith, m, h))
        | inr m ↦ elim (Bool-cases (input.verified_success && not (is_provider_success v.status))) [
          | inl n ↦ absurd (ground (arith, m, n, h))
          | inr n ↦ rw (m, n, if◌then◌else◌) at h
        ]
      ]

  guarded-keeps :
      (P : Db → Type 0) (v : Verification) (c : Result VerifyResult × Db)
      → P db
      → P c.1
      → P (guarded input v db c).1
  guarded-keeps P v c before after =
      elim (Bool-cases (not (text_eq v.currency input.verified_currency))) [
        | inl m ↦ rw (m, if◌then◌else◌) before
        | inr m ↦ elim (Bool-cases (input.verified_success && not (is_provider_success v.status))) [
          | inl n ↦ rw (m, n, if◌then◌else◌) before
          | inr n ↦ rw (m, n, if◌then◌else◌) after
        ]
      ]

  -- A verification that keeps `P` in its transaction keeps it.
  pub verify-keeps :
      (P : Db → Type 0)
      → P db
      → ((v : Verification) → Post (verify_tx clock uuid ctx input v db) (λ _ db'. P db'))
      → P (verify providers clock uuid ctx input db).1
  verify-keeps P before h = elim (Result-cases (providers input.provider input.provider_ref)) [
    | inl (x, e) ↦ subst (λ c. P c.1) (sym (unanswered x e)) before
    | inr (v, e) ↦
        subst (λ c. P c.1) (sym (answered v e))
          (guarded-keeps P v (tx v) before (commit-keeps P db _ before (h v)))
  ]

  -- If no two payments have one id, and every payment has in the ledger one credit of its amount
  -- and no other entry where it succeeded, and no entry otherwise, all this is so after a
  -- verification, whatever its outcome.
  pub verify-AreBooked :
      AreBooked db.ledger_entries db.payments
      → AreBooked
          (verify providers clock uuid ctx input db).1.ledger_entries
          (verify providers clock uuid ctx input db).1.payments
  verify-AreBooked h =
      verify-keeps (λ d. AreBooked d.ledger_entries d.payments) h
        (λ v. verify_tx-AreBooked clock uuid ctx input v db h)

  -- A verification that succeeds had an answer of the provider that was asked: afterwards the
  -- payment found by its reference has the status that the answer maps to, its order the status
  -- that this maps to, and the ledger has, exactly for a success, one more entry: a credit of the
  -- payment's amount in the order's currency.
  pub verify-Settles :
      (r : VerifyResult) (db' : Db)
      → verify providers clock uuid ctx input db ≡ (ok r, db')
      → (v : Verification) × (providers input.provider input.provider_ref ≡ ok v)
        × Settles uuid ctx input v db r db'
  verify-Settles r db' run =
      let (v, asked, ran) = verify_ran run in
      (
        v,
        asked,
        Post-at (Settles uuid ctx input v db) (verify_tx-Settles clock uuid ctx input v db) ran,
      )

-- A transaction that fails leaves an error and the database.
refused :
    (input : VerifyInput) (v : Verification) (db : Db) (x : Error)
    → (e : Error) × (guarded input v db (err x, db) ≡ (err e, db))
refused input v db x = elim (Bool-cases (not (text_eq v.currency input.verified_currency))) [
  | inl m ↦ (
    invalid_state_transition "Webhook verification currency mismatch.",
    rw (m, if◌then◌else◌) refl,
  )
  | inr m ↦ elim (Bool-cases (input.verified_success && not (is_provider_success v.status))) [
    | inl n ↦ (
      invalid_state_transition "Webhook success state does not match provider verification.",
      rw (m, n, if◌then◌else◌) refl,
    )
    | inr n ↦ (x, rw (m, n, if◌then◌else◌) refl)
  ]
]

-- A payment that a verification has finished is not verified again: a second verification of its
-- reference fails, with whatever provider's answer, time and context, and changes nothing.
pub verify_twice :
    (providers providers' : Providers) (clock later : Clock) (uuid uuid' : Uuids)
    (ctx ctx' : Option RequestContext) (input : VerifyInput) (r : VerifyResult) (db db' : Db)
    → verify providers clock uuid ctx input db ≡ (ok r, db')
    → is_terminal r.payment_status ≡ true
    → (e : Error) × (verify providers' later uuid' ctx' input db' ≡ (err e, db'))
verify_twice providers providers' clock later uuid uuid' ctx ctx' input r db db' run finished =
    elim (Result-cases (providers' input.provider input.provider_ref)) [
      | inl (x, e) ↦ (x, unanswered providers' later uuid' ctx' input db' x e)
      | inr (v', e) ↦
          let (x, h) =
            refused input v' db'
              (payment_already_processed "Payment is already in terminal state.") in
          (
            x,
            answered providers' later uuid' ctx' input db' v' e
                ∙ ap (λ c. guarded input v' db' (commit db' c)) (again v')
                ∙ h,
          )
    ]
  where
    settled :
        (v : Verification) × (providers input.provider input.provider_ref ≡ ok v)
        × Settles uuid ctx input v db r db'
    settled = verify-Settles providers clock uuid ctx input db r db' run

    again :
        (v' : Verification)
        → verify_tx later uuid' ctx' input v' db'
          ≡ err (payment_already_processed "Payment is already in terminal state.")
    again v' =
        verify_tx_finished later uuid' ctx' input v' db'
          (set_payment_status (map_provider_status settled.0.status) settled.2.payment)
          settled.2.found' (ap is_terminal (sym settled.2.result) ∙ finished)
