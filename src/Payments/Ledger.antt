-- ===== src/Payments/Ledger.antt =====
-- The ledger against the payments: a payment is credited once if it succeeded, and never otherwise.
use govibe_core.Prelude.{
  ℕ, ◌+◌, ◌≡◌, sym, subst, Bool, false, Option, some, List, [], ◌∷◌, arith, ◌==◌, if◌then◌else◌,
  find_row, update_rows, Bool-cases, inl, inr, refl, ◌∙◌, true, none, ap, ◌&&◌, ==_iff,
  find_row-update_rows, rewritten,
}
use govibe_core.Store.{
  Db, Clock, Payment, PaymentStatus, is_success, LedgerEntry, LedgerDirection, is_some, Post,
  Post-weaken,
}
use govibe_core.Context.{RequestContext, correlation_of, Uuids}
use govibe_core.Payments.Verify.{
  Verification, VerifyInput, VerifyResult, map_provider_status, is_terminal, find_by_ref, by_ref,
  set_payment_status, verify_tx,
}
use govibe_core.Payments.Effects.{credited, IsVerified, verify_tx-IsVerified}

abbrev pub is_credit : LedgerDirection → Bool
is_credit LedgerDirection.credit = true
is_credit LedgerDirection.debit = false

-- The number of entries of a payment, of any kind.
unfoldable pub entries : ℕ → List LedgerEntry → ℕ
entries id [] = 0
entries id (e ∷ es) = (if e.payment_id == id then 1 else 0) + entries id es

-- The number of entries that credit a payment with this amount.
unfoldable pub credits : ℕ → ℕ → List LedgerEntry → ℕ
credits id amount [] = 0
credits id amount (e ∷ es) =
    (if e.payment_id == id && (is_credit e.direction && e.amount == amount) then 1 else 0)
    + credits id amount es

-- One credit for a payment that succeeded, none for any other.
abbrev pub expected_credits : PaymentStatus → ℕ
expected_credits s = if is_success s then 1 else 0

-- A payment has the credits of its amount that its status calls for, and no other entry.
pub record IsBooked (es : List LedgerEntry) (p : Payment) : Type 0 where
  pub credited : credits p.id p.amount es ≡ expected_credits p.status
  pub alone : entries p.id es ≡ expected_credits p.status

abbrev pub find_payment : ℕ → List Payment → Option Payment
find_payment id ps = find_row (λ r. r.id == id) ps

-- Every payment is booked, and no two have one id.
abbrev pub AreBooked : List LedgerEntry → List Payment → Type 0
AreBooked es [] = Unit
AreBooked es (p ∷ ps) = IsBooked es p × (find_payment p.id ps ≡ none) × AreBooked es ps

pub find_row-IsBooked :
    (es : List LedgerEntry) (test : Payment → Bool) (ps : List Payment) (p : Payment)
    → AreBooked es ps
    → find_row test ps ≡ some p
    → IsBooked es p
unfolding find_row
find_row-IsBooked es test [] p h found = absurd (ground arith)
find_row-IsBooked es test (q ∷ ps) p h found = elim (Bool-cases (test q)) [
  | inl e ↦ subst (IsBooked es) (ground (arith, e, found)) h.0
  | inr e ↦ find_row-IsBooked es test ps p h.2 (ground (arith, e, found))
]

-- The payments with an id have this amount.
abbrev HaveAmount : ℕ → ℕ → List Payment → Type 0
HaveAmount id amount [] = Unit
HaveAmount id amount (p ∷ ps) = ((p.id == id) ≡ true → p.amount ≡ amount) × HaveAmount id amount ps

none-HaveAmount :
    (id amount : ℕ) (ps : List Payment) → find_payment id ps ≡ none → HaveAmount id amount ps
unfolding find_row
none-HaveAmount id amount [] h = tt
none-HaveAmount id amount (p ∷ ps) h =
    (λ same. absurd (ground (arith, same, h)), none-HaveAmount id amount ps (ground (arith, h)))

find_payment_found :
    (test : Payment → Bool) (ps : List Payment) (p : Payment)
    → find_row test ps ≡ some p
    → is_some (find_payment p.id ps) ≡ true
unfolding find_row
find_payment_found test [] p found = absurd (ground arith)
find_payment_found test (q ∷ ps) p found = elim (Bool-cases (test q)) [
  | inl e ↦ ground (arith, e, found)
  | inr e ↦
      let rest = find_payment_found test ps p (ground (arith, e, found)) in ground (arith, rest)
]

-- The payment that is found is the one with its id.
found-HaveAmount :
    (es : List LedgerEntry) (test : Payment → Bool) (ps : List Payment) (p : Payment)
    → AreBooked es ps
    → find_row test ps ≡ some p
    → HaveAmount p.id p.amount ps
unfolding find_row
found-HaveAmount es test [] p h found = tt
found-HaveAmount es test (q ∷ ps) p h found = elim (Bool-cases (test q)) [
  | inl e ↦
      let same : q ≡ p = ground (arith, e, found) in
      (
        λ _. ap (λ (r : Payment). r.amount) same,
        none-HaveAmount p.id p.amount ps
            (subst (λ (r : Payment). find_payment r.id ps ≡ none) same h.1),
      )
  | inr e ↦
      let rest : find_row test ps ≡ some p = ground (arith, e, found) in
      (
        λ same. absurd (
            ground (
              arith,
              find_payment_found test ps p rest,
              subst (λ n. find_payment n ps ≡ none) ((==_iff q.id p.id).0 same) h.1,
            )),
        found-HaveAmount es test ps p h.2 rest,
      )
]

status_id :
    (b : Bool) (s : PaymentStatus) (q : Payment)
    → (if b then set_payment_status s q else q).id ≡ q.id
status_id true s q = refl
status_id false s q = refl

credited-IsBooked :
    (uuid : Uuids) (p q : Payment) (v : Verification) (corr : Option ℕ) (s : PaymentStatus)
    (es : List LedgerEntry)
    → v.amount_minor ≡ p.amount
    → IsBooked es q
    → ((q.id == p.id) ≡ true → q.amount ≡ p.amount)
    → entries p.id es ≡ 0
    → IsBooked (credited uuid p v corr s es) (if q.id == p.id then set_payment_status s q else q)
unfolding credits entries
credited-IsBooked uuid p q v corr s es amount booked one none_yet =
    elim (Bool-cases (q.id == p.id)) [
      | inr e ↦
          rw (e, if◌then◌else◌)
            (record {
              credited = ground (arith, e, booked.credited);
              alone = ground (arith, e, booked.alone);
            })
      | inl e ↦
          let same = (==_iff q.id p.id).0 e in
          let price = one e in
          let unentered : entries q.id es ≡ 0 = subst (λ n. entries n es ≡ 0) (sym same) none_yet in
          let uncredited : credits q.id q.amount es ≡ 0 =
            booked.credited ∙ sym booked.alone ∙ unentered in
          rw (e, if◌then◌else◌)
            (record {
              credited = ground (arith, e, uncredited, amount, price);
              alone = ground (arith, e, unentered);
            })
    ]

-- A payment with no entry gets status `s`, and the entry that `s` calls for.
pub credited-AreBooked :
    (uuid : Uuids) (p : Payment) (v : Verification) (corr : Option ℕ) (s : PaymentStatus)
    (es : List LedgerEntry) (ps : List Payment)
    → v.amount_minor ≡ p.amount
    → AreBooked es ps
    → HaveAmount p.id p.amount ps
    → entries p.id es ≡ 0
    → AreBooked
        (credited uuid p v corr s es)
        (update_rows (λ r. r.id == p.id) (set_payment_status s) ps)
unfolding credits entries update_rows
credited-AreBooked uuid p v corr s es [] amount h one none_yet = tt
credited-AreBooked uuid p v corr s es (q ∷ ps) amount h one none_yet = (
  credited-IsBooked uuid p q v corr s es amount h.0 one.0 none_yet,
  subst (λ n. find_payment n (update_rows (λ r. r.id == p.id) (set_payment_status s) ps) ≡ none)
      (sym (status_id (q.id == p.id) s q))
      (find_row-update_rows (λ (r : Payment). r.id == q.id) (λ r. r.id == p.id)
          (set_payment_status s) ps (λ x. refl)
        ∙ ap (rewritten (λ (r : Payment). r.id == p.id) (set_payment_status s)) h.1),
  credited-AreBooked uuid p v corr s es ps amount h.2 one.1 none_yet,
)

-- A verification keeps the ledger in step with the payments.
pub verify_tx-AreBooked :
    (clock : Clock) (uuid : Uuids) (ctx : Option RequestContext) (input : VerifyInput)
    (v : Verification) (db : Db)
    → AreBooked db.ledger_entries db.payments
    → Post
        (verify_tx clock uuid ctx input v db)
        (λ _ db'. AreBooked db'.ledger_entries db'.payments)
unfolding find_by_ref is_terminal
verify_tx-AreBooked clock uuid ctx input v db h =
    Post-weaken Q (IsVerified uuid ctx input v db) _
      (verify_tx-IsVerified clock uuid ctx input v db)
      (λ r db' i.
        subst (λ (d : Db). AreBooked d.ledger_entries d.payments) (sym i.after)
          (credited-AreBooked uuid i.payment v (correlation_of ctx) (map_provider_status v.status)
            db.ledger_entries db.payments i.amount h
            (found-HaveAmount db.ledger_entries (by_ref input.provider input.provider_ref)
              db.payments i.payment h i.found)
            (no_entry i.payment i.unfinished (
              find_row-IsBooked db.ledger_entries (by_ref input.provider input.provider_ref)
                db.payments i.payment h i.found))))
  where
    Q : VerifyResult → Db → Type 0
    Q _ db' = AreBooked db'.ledger_entries db'.payments

    no_entry :
        (p : Payment)
        → is_terminal p.status ≡ false
        → IsBooked db.ledger_entries p
        → entries p.id db.ledger_entries ≡ 0
    no_entry p unfinished booked = ground (arith, booked.alone)
