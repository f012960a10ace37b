-- ===== src/Store/Calls.antt =====
-- Calls in sequence outside a transaction: each statement commits by itself, and what is committed
-- stays when a later one throws.
use govibe_core.Prelude.{◌≡◌, refl, ap, arith}
use govibe_core.Store.Records.{Db}
use govibe_core.Store.Transaction.{Error, Result, ok, err, Tx, Call, run_in_transaction, commit}
use govibe_core.Store.Rules.{Post}

-- A transaction as a step of a sequence. It is shut, so that a proof sees the transaction in it.
unfoldable pub atomic : {A : Type 0} → Tx A → Call A
atomic m = run_in_transaction m

abbrev onward : {A B : Type 0} → (A → Call B) → Result A × Db → Result B × Db
onward rest (ok a, db) = rest a db
onward rest (err e, db) = (err e, db)

infixl 5 ◌>=>◌
-- `const a = await first; rest`
unfoldable pub ◌>=>◌ : {A B : Type 0} → Call A → (A → Call B) → Call B
◌>=>◌ first rest db = onward rest (first db)

abbrev pub returns : {A : Type 0} → A → Call A
returns a db = (ok a, db)

abbrev pub throws : {A : Type 0} → Error → Call A
throws e db = (err e, db)

-- The rule for what holds of the database after a sequence, however it ends.
pub then-keeps :
    {A B : Type 0} (P Q : Db → Type 0) (first : Call A) (rest : A → Call B) (db : Db)
    → P (first db).1
    → ((d : Db) → P d → Q d)
    → ((a : A) (d : Db) → P d → Q (rest a d).1)
    → Q ((first >=> rest) db).1
unfolding ◌>=>◌
then-keeps {A} P Q first rest db p weaken k = go (first db) p
  where
    go : (c : Result A × Db) → P c.1 → Q (onward rest c).1
    go (ok a, d) p = k a d p
    go (err e, d) p = weaken d p

-- The call that a sequence which ended normally began with.
pub then-began :
    {A B : Type 0} (first : Call A) (rest : A → Call B) (db db' : Db) (b : B)
    → (first >=> rest) db ≡ (ok b, db')
    → (a : A) × (d : Db) × (first db ≡ (ok a, d)) × (rest a d ≡ (ok b, db'))
unfolding ◌>=>◌
then-began {A} {B} first rest db db' b h = go (first db) refl h
  where
    go :
        (c : Result A × Db)
        → first db ≡ c
        → onward rest c ≡ (ok b, db')
        → (a : A) × (d : Db) × (first db ≡ (ok a, d)) × (rest a d ≡ (ok b, db'))
    go (ok a, d) e h = (a, d, e, h)
    go (err x, d) e h = absurd (ground (arith, h))

pub run_then :
    {A B : Type 0} (first : Call A) (rest : A → Call B) (db d : Db) (a : A)
    → first db ≡ (ok a, d)
    → (first >=> rest) db ≡ rest a d
unfolding ◌>=>◌
run_then first rest db d a h = ap (onward rest) h

-- The rule for a sequence that begins with a transaction whose result matters.
pub atomic-then :
    {A B : Type 0} (Q : A → Db → Type 0) (R : Db → Type 0) (m : Tx A) (rest : A → Call B) (db : Db)
    → R db
    → Post (m db) Q
    → ((a : A) (d : Db) → Q a d → R (rest a d).1)
    → R ((atomic m >=> rest) db).1
unfolding ◌>=>◌ atomic
atomic-then {A} Q R m rest db before h k = go (m db) h
  where
    go : (x : Result (A × Db)) → Post x Q → R (onward rest (commit db x)).1
    go (ok (a, d)) q = k a d q
    go (err e) q = before

module _ {A B : Type 0} (m : Tx A) (rest : A → Call B) (db : Db) where
  pub run_atomic : (a : A) (d : Db) → m db ≡ ok (a, d) → (atomic m >=> rest) db ≡ rest a d
  unfolding ◌>=>◌ atomic
  run_atomic a d h = ap (λ x. onward rest (commit db x)) h

  pub run_rolled_back : (e : Error) → m db ≡ err e → (atomic m >=> rest) db ≡ (err e, db)
  unfolding ◌>=>◌ atomic
  run_rolled_back e h = ap (λ x. onward rest (commit db x)) h
