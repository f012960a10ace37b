-- ===== src/Store/Triples.antt =====
-- Hoare triples over the database: where a transaction or a call takes it. Each rule has the code as
-- a parameter of a record, so that a proof follows the code and names none of it.
use govibe_core.Prelude.{
  Bool, true, false, ◌≡◌, refl, sym, subst, if◌then◌else◌, Option, none, some,
}
use govibe_core.Store.Records.{Db}
use govibe_core.Store.Transaction.{
  Error, Result, ok, err, Tx, pure, throw, or_throw, throw_if, gets, modify, require, ◌>>=◌, Call,
}
use govibe_core.Store.Calls.{atomic, ◌>=>◌, then-keeps, returns, throws}
use govibe_core.Store.Rules.{Post, Post-bind, commit-keeps}

-- From a database with `P`, a transaction that ends normally leaves one with `Q`.
pub record Moves {A : Type 0} (P Q : Db → Type 0) (m : Tx A) : Type 0 where
  pub at : (db : Db) → P db → Post (m db) (λ _ d. Q d)

-- From a database with `P`, a call leaves one with `Q`, however it ends.
pub record Ends {A : Type 0} (P Q : Db → Type 0) (c : Call A) : Type 0 where
  pub at : (db : Db) → P db → Q (c db).1

module _ {A : Type 0} {P : Db → Type 0} where
  pub Moves-pure : {a : A} → Moves P P (pure a)
  Moves-pure = record { at = λ db p. p }

  pub Moves-gets : {g : Db → A} → Moves P P (gets g)
  Moves-gets = record { at = λ db p. p }

  pub Moves-throw : {e : Error} → Moves {A = A} P P (throw e)
  Moves-throw = record { at = λ db p. tt }

  pub Moves-or_throw : (o : Option A) (e : Error) → Moves P P (or_throw o e)
  Moves-or_throw none e = record { at = λ db p. tt }
  Moves-or_throw (some a) e = record { at = λ db p. p }

  pub Moves-if :
      {Q : Db → Type 0} {m n : Tx A} (c : Bool)
      → Moves P Q m
      → Moves P Q n
      → Moves P Q (if c then m else n)
  Moves-if true h k = h
  Moves-if false h k = k

  pub Moves-bind :
      {B : Type 0} {Q R : Db → Type 0} {m : Tx B} {f : B → Tx A}
      → Moves P Q m
      → ((b : B) → Moves Q R (f b))
      → Moves P R (m >>= f)
  Moves-bind {Q} {R} {m} {f} h k = record {
    at = λ db p. Post-bind (λ _ d. R d) (λ _ d. Q d) m f db (h.at db p) (λ b d q. (k b).at d q);
  }

  pub Moves-weaken :
      {Q R : Db → Type 0} {m : Tx A} → Moves P Q m → ((d : Db) → R d → P d) → Moves R Q m
  Moves-weaken h w = record { at = λ db r. h.at db (w db r) }

  pub Ends-run :
      {Q : Db → Type 0} {m : Tx A} → ((d : Db) → P d → Q d) → Moves P Q m → Ends P Q (atomic m)
  unfolding atomic
  Ends-run {Q} {m} w h = record { at = λ db p. commit-keeps Q db (m db) (w db p) (h.at db p) }

  pub Ends-returns : {Q : Db → Type 0} {a : A} → ((d : Db) → P d → Q d) → Ends P Q (returns a)
  Ends-returns w = record { at = w }

  pub Ends-throws :
      {Q : Db → Type 0} {e : Error} → ((d : Db) → P d → Q d) → Ends {A = A} P Q (throws e)
  Ends-throws w = record { at = w }

  pub Ends-weaken :
      {Q R : Db → Type 0} {c : Call A} → ((d : Db) → Q d → R d) → Ends P Q c → Ends P R c
  Ends-weaken w h = record { at = λ db p. w _ (h.at db p) }

  pub Ends-then :
      {B : Type 0} {Q : Db → Type 0} {c : Call B} {f : B → Call A}
      → ((d : Db) → P d → Q d)
      → Ends P P c
      → ((b : B) → Ends P Q (f b))
      → Ends P Q (c >=> f)
  Ends-then {Q} {c} {f} w h k = record {
    at = λ db p. then-keeps P Q c f db (h.at db p) w (λ b d q. (k b).at d q);
  }

  -- Each branch knows the test.
  pub Ends-if :
      {Q : Db → Type 0} {c c' : Call A} (t : Bool)
      → (t ≡ true → Ends P Q c)
      → (t ≡ false → Ends P Q c')
      → Ends P Q (if t then c else c')
  Ends-if true h k = h refl
  Ends-if false h k = k refl

module _ {P Q : Db → Type 0} where
  pub Moves-modify : {g : Db → Db} → ((d : Db) → P d → Q (g d)) → Moves P Q (modify g)
  Moves-modify h = record { at = h }

module _ {P : Db → Type 0} where
  pub Moves-throw_if : (c : Bool) (e : Error) → Moves P P (throw_if c e)
  Moves-throw_if true e = record { at = λ db p. tt }
  Moves-throw_if false e = record { at = λ db p. p }

  pub Moves-require : (c : Bool) → Moves P P (require c)
  Moves-require true = record { at = λ db p. p }
  Moves-require false = record { at = λ db p. tt }

-- A write that is known takes `P` to what holds of its result.
pub Moves-writes :
    {A : Type 0} {P Q : Db → Type 0} {m : Tx A} (g : Db → Db)
    → ((db : Db) → Post (m db) (λ _ d. d ≡ g db))
    → ((d : Db) → P d → Q (g d))
    → Moves P Q m
Moves-writes {A} {P} {Q} {m} g writes h = record { at = λ db p. go db p (m db) (writes db) }
  where
    go : (db : Db) → P db → (x : Result (A × Db)) → Post x (λ _ d. d ≡ g db) → Post x (λ _ d. Q d)
    go db p (ok (a, d)) e = subst Q (sym e) (h db p)
    go db p (err x) e = tt
