-- ===== src/Store/Rules.antt =====
-- The rules by which a postcondition goes through a transaction, and the steps of a run whose
-- outcome is known.
use govibe_core.Prelude.{
  Bool, true, false, Option, none, some, ◌≡◌, refl, sym, subst, arith, ◌⊎◌, inl, inr,
}
use govibe_core.Store.Records.{Db}
use govibe_core.Store.Transaction.{
  Error, Result, ok, err, Tx, or_throw, throw_if, gets, modify, require, ◌>>=◌, ◌>>◌, commit,
  run_in_transaction,
}

-- What holds of the result and the database whenever a transaction ends normally.
abbrev pub Post : {A : Type 0} → Result (A × Db) → (A → Db → Type 0) → Type 0
Post (ok (a, db)) Q = Q a db
Post (err e) Q = Unit

module _ {A : Type 0} (Q : A → Db → Type 0) where
  -- The rules by which a postcondition goes through the steps of a transaction.
  pub Post-bind :
      {B : Type 0} (R : B → Db → Type 0) (m : Tx B) (f : B → Tx A) (db : Db)
      → Post (m db) R
      → ((b : B) (db' : Db) → R b db' → Post (f b db') Q)
      → Post ((m >>= f) db) Q
  unfolding ◌>>=◌
  Post-bind {B} R m f db h k = go (m db) h
    where
      go :
          (x : Result (B × Db))
          → Post x R
          → Post (elim x [ ok (a, db') ↦ f a db' | err e ↦ err e ]) Q
      go (ok (b, db')) r = k b db' r
      go (err e) r = tt

  pub Post-or_throw :
      {B : Type 0} (o : Option B) (e : Error) (f : B → Tx A) (db : Db)
      → ((b : B) → o ≡ some b → Post (f b db) Q)
      → Post ((or_throw o e >>= f) db) Q
  unfolding ◌>>=◌
  Post-or_throw none e f db k = tt
  Post-or_throw (some b) e f db k = k b refl

  pub Post-throw_if :
      (c : Bool) (e : Error) (m : Tx A) (db : Db)
      → (c ≡ false → Post (m db) Q)
      → Post ((throw_if c e >> m) db) Q
  unfolding ◌>>=◌
  Post-throw_if true e m db k = tt
  Post-throw_if false e m db k = k refl

  pub Post-require :
      (c : Bool) (m : Tx A) (db : Db) → (c ≡ true → Post (m db) Q) → Post ((require c >> m) db) Q
  unfolding ◌>>=◌
  Post-require true m db k = k refl
  Post-require false m db k = tt

  pub Post-gets :
      {B : Type 0} (g : Db → B) (f : B → Tx A) (db : Db)
      → Post (f (g db) db) Q
      → Post ((gets g >>= f) db) Q
  unfolding ◌>>=◌
  Post-gets g f db h = h

  pub Post-modify :
      (g : Db → Db) (m : Tx A) (db : Db) → Post (m (g db)) Q → Post ((modify g >> m) db) Q
  unfolding ◌>>=◌
  Post-modify g m db h = h

  -- A weaker postcondition.
  pub Post-weaken :
      (R : A → Db → Type 0) (x : Result (A × Db))
      → Post x R
      → ((a : A) (db' : Db) → R a db' → Q a db')
      → Post x Q
  Post-weaken R (ok (a, db')) h k = k a db' h
  Post-weaken R (err e) h k = tt

  -- A step whose only write is known.
  pub Post-write :
      (m : Tx (Unit {0})) (k : Tx A) (db db1 : Db)
      → Post (m db) (λ _ db'. db' ≡ db1)
      → Post (k db1) Q
      → Post ((m >> k) db) Q
  Post-write m k db db1 h rest =
      Post-bind (λ _ db'. db' ≡ db1) m (λ _. k) db h
        (λ _ db' e. subst (λ d. Post (k d) Q) (sym e) rest)

  -- A step that only reads.
  pub Post-read :
      {B : Type 0} (R : B → Type 0) (m : Tx B) (f : B → Tx A) (db : Db)
      → Post (m db) (λ b db'. R b × (db' ≡ db))
      → ((b : B) → R b → Post (f b db) Q)
      → Post ((m >>= f) db) Q
  Post-read R m f db h rest =
      Post-bind (λ b db'. R b × (db' ≡ db)) m f db h
        (λ b db' (r, e). subst (λ d. Post (f b d) Q) (sym e) (rest b r))

-- The steps of a run whose outcome is known.
module _ {A B : Type 0} (f : B → Tx A) (db : Db) where
  pub run_gets : (g : Db → B) → (gets g >>= f) db ≡ f (g db) db
  unfolding ◌>>=◌
  run_gets g = refl

  pub run_found : (o : Option B) (e : Error) (b : B) → o ≡ some b → (or_throw o e >>= f) db ≡ f b db
  unfolding ◌>>=◌
  run_found o e b h = rw h refl

  pub run_missing : (o : Option B) (e : Error) → o ≡ none → (or_throw o e >>= f) db ≡ err e
  unfolding ◌>>=◌
  run_missing o e h = rw h refl

  pub run_step : (m : Tx B) (b : B) (db' : Db) → m db ≡ ok (b, db') → (m >>= f) db ≡ f b db'
  unfolding ◌>>=◌
  run_step m b db' h = rw (h, ◌>>=◌) refl

  pub run_fail : (m : Tx B) (e : Error) → m db ≡ err e → (m >>= f) db ≡ err e
  unfolding ◌>>=◌
  run_fail m e h = rw (h, ◌>>=◌) refl

module _ {A : Type 0} (m : Tx A) (db : Db) where
  pub run_throw : (c : Bool) (e : Error) → c ≡ true → (throw_if c e >> m) db ≡ err e
  unfolding ◌>>=◌
  run_throw true e h = refl
  run_throw false e h = absurd (ground (arith, h))

  pub run_pass : (c : Bool) (e : Error) → c ≡ false → (throw_if c e >> m) db ≡ m db
  unfolding ◌>>=◌
  run_pass true e h = absurd (ground (arith, h))
  run_pass false e h = refl

-- A postcondition together with the run that it is about.
pub Post-ran :
    {A : Type 0} (R : A → Db → Type 0) (m : Tx A) (db : Db)
    → Post (m db) R
    → Post (m db) (λ a db'. (m db ≡ ok (a, db')) × R a db')
Post-ran {A} R m db h = go (m db) refl h
  where
    go :
        (x : Result (A × Db))
        → m db ≡ x
        → Post x R
        → Post x (λ a db'. (m db ≡ ok (a, db')) × R a db')
    go (ok (a, db')) e r = (e, r)
    go (err x) e r = tt

-- A call that ended normally committed what its transaction wrote.
pub committed :
    {A : Type 0} (m : Tx A) (db db' : Db) (a : A)
    → run_in_transaction m db ≡ (ok a, db')
    → m db ≡ ok (a, db')
committed {A} m db db' a h = go (m db) refl h
  where
    go : (x : Result (A × Db)) → m db ≡ x → commit db x ≡ (ok a, db') → x ≡ ok (a, db')
    go (ok (b, d)) e h = ground (arith, h)
    go (err x) e h = absurd (ground (arith, h))

pub Post-committed :
    {A : Type 0} (R : A → Db → Type 0) (m : Tx A) (db db' : Db) (a : A)
    → Post (m db) R
    → run_in_transaction m db ≡ (ok a, db')
    → R a db'
Post-committed R m db db' a h run = subst (λ x. Post x R) (committed m db db' a run) h

-- A call keeps what its transaction keeps: a rollback keeps everything.
pub commit-keeps :
    {A : Type 0} (P : Db → Type 0) (db : Db) (x : Result (A × Db))
    → P db
    → Post x (λ _ db'. P db')
    → P (commit db x).1
commit-keeps P db (ok (a, db')) p h = h
commit-keeps P db (err e) p h = p

pub Result-cases :
    {A : Type 0} (x : Result A) → ((e : Error) × (x ≡ err e)) ⊎ ((a : A) × (x ≡ ok a))
Result-cases (ok a) = inr (a, refl)
Result-cases (err e) = inl (e, refl)

-- A postcondition at a run that is known.
pub Post-at :
    {A : Type 0} (Q : A → Db → Type 0) {x : Result (A × Db)} {a : A} {db : Db}
    → Post x Q
    → x ≡ ok (a, db)
    → Q a db
Post-at Q h run = subst (λ y. Post y Q) run h
