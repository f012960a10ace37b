-- ===== src/Prelude/Rowwise.antt =====
-- Two tables row by row: a relation between each row and the row that it has become.
use mathlib.Core.Path.{◌≡◌, sym, ap, subst, ◌∙◌}
use mathlib.Core.Bool.{Bool, true}
use mathlib.Core.Logic.{inl, inr}
use mathlib.Core.Option.{some}
use mathlib.Core.List.{List, [], ◌∷◌}
use native.Mathlib.Omega.{arith}
use govibe_core.Prelude.Tests.{if◌then◌else◌, Bool-cases}
use govibe_core.Prelude.Rows.{find_row, update_rows, is_some}

module _ {A : Type 0} where
  -- The second table has the rows of the first, each changed as the relation says.
  abbrev pub Each : (A → A → Type 0) → List A → List A → Type 0
  Each R [] [] = Unit
  Each R [] (y ∷ ys) = ⊥
  Each R (x ∷ xs) [] = ⊥
  Each R (x ∷ xs) (y ∷ ys) = R x y × Each R xs ys

  pub Each-refl : (R : A → A → Type 0) → ((x : A) → R x x) → (xs : List A) → Each R xs xs
  Each-refl R r [] = tt
  Each-refl R r (x ∷ xs) = (r x, Each-refl R r xs)

  pub Each-trans :
      (R : A → A → Type 0)
      → ((x y z : A) → R x y → R y z → R x z)
      → (xs ys zs : List A) → Each R xs ys
      → Each R ys zs
      → Each R xs zs
  Each-trans R t [] [] [] h k = tt
  Each-trans R t [] [] (z ∷ zs) h k = absurd k
  Each-trans R t [] (y ∷ ys) zs h k = absurd h
  Each-trans R t (x ∷ xs) [] zs h k = absurd h
  Each-trans R t (x ∷ xs) (y ∷ ys) [] h k = absurd k
  Each-trans R t (x ∷ xs) (y ∷ ys) (z ∷ zs) (r, h) (s, k) =
      (t x y z r s, Each-trans R t xs ys zs h k)

  pub Each-weaken :
      (R S : A → A → Type 0)
      → ((x y : A) → R x y → S x y)
      → (xs ys : List A) → Each R xs ys
      → Each S xs ys
  Each-weaken R S w [] [] h = tt
  Each-weaken R S w [] (y ∷ ys) h = absurd h
  Each-weaken R S w (x ∷ xs) [] h = absurd h
  Each-weaken R S w (x ∷ xs) (y ∷ ys) (r, h) = (w x y r, Each-weaken R S w xs ys h)

  pub Each-update_rows :
      (R : A → A → Type 0) (p : A → Bool) (f : A → A)
      → ((x : A) → R x x)
      → ((x : A) → p x ≡ true → R x (f x))
      → (xs : List A) → Each R xs (update_rows p f xs)
  unfolding update_rows
  Each-update_rows R p f r s [] = tt
  Each-update_rows R p f r s (x ∷ xs) = (
    elim (Bool-cases (p x)) [
      | inl e ↦ subst (λ b. R x (if b then f x else x)) (sym e) (s x e)
      | inr e ↦ subst (λ b. R x (if b then f x else x)) (sym e) (r x)
    ],
    Each-update_rows R p f r s xs,
  )

  -- A row that is found is found again where the condition stands and the row may only be kept.
  pub find_row-Each :
      (R : A → A → Type 0) (p : A → Bool)
      → ((x y : A) → R x y → p y ≡ p x)
      → (xs ys : List A) (x : A) → Each R xs ys
      → find_row p xs ≡ some x
      → (y : A) × (find_row p ys ≡ some y) × R x y
  unfolding find_row
  find_row-Each R p keep [] ys x h e = absurd (ground arith)
  find_row-Each R p keep (a ∷ xs) [] x h e = absurd h
  find_row-Each R p keep (a ∷ xs) (b ∷ ys) x (r, h) e = elim (Bool-cases (p a)) [
    | inl t ↦ (
      b,
      ap (λ c. if c then some b else find_row p ys) (keep a b r ∙ t),
      subst (λ z. R z b) (ground (arith, t, e)) r,
    )
    | inr t ↦
        let (y, found, s) =
          find_row-Each R p keep xs ys x h
            (sym (ap (λ c. if c then some a else find_row p xs) t) ∙ e) in
        (y, ap (λ c. if c then some b else find_row p ys) (keep a b r ∙ t) ∙ found, s)
  ]

module _ {A : Type 0} where
  -- A weaker condition selects a row where a stronger one does.
  pub find_row-weaken :
      (p q : A → Bool)
      → ((x : A) → p x ≡ true → q x ≡ true)
      → (xs : List A) → is_some (find_row p xs) ≡ true
      → is_some (find_row q xs) ≡ true
  unfolding find_row
  find_row-weaken p q w [] h = h
  find_row-weaken p q w (x ∷ xs) h = elim (Bool-cases (q x)) [
    | inl e ↦ ap (λ c. is_some (if c then some x else find_row q xs)) e
    | inr e ↦ elim (Bool-cases (p x)) [
      | inl t ↦ absurd (ground (arith, w x t, e))
      | inr t ↦
          ap (λ c. is_some (if c then some x else find_row q xs)) e
          ∙ find_row-weaken p q w xs
              (sym (ap (λ c. is_some (if c then some x else find_row p xs)) t) ∙ h)
    ]
  ]
