-- ===== src/Prelude/Rows.antt =====
-- A database table as the list of its rows: selection of a row, update of the rows that a
-- condition names, and the number of rows.
use Prim.Native.Nat.{ℕ, zero, suc}
use mathlib.Core.Path.{◌≡◌, refl, ap}
use mathlib.Core.Bool.{Bool, true, false}
use mathlib.Core.Logic.{inl, inr}
use mathlib.Core.Option.{Option, none, some}
use mathlib.Core.List.{List, [], ◌∷◌}
use native.Mathlib.Omega.{arith}
use govibe_core.Prelude.Tests.{if◌then◌else◌, Bool-cases}

module _ {ℓ} {A : Type ℓ} where
  abbrev pub is_some : Option A → Bool
  is_some none = false
  is_some (some a) = true

  abbrev pub length : List A → ℕ
  length [] = 0
  length (x ∷ xs) = suc (length xs)

  abbrev pub take : ℕ → List A → List A
  take zero xs = []
  take (suc n) [] = []
  take (suc n) (x ∷ xs) = x ∷ take n xs

  -- The first row that the condition selects: `findUnique`, `findFirst`, `rows[0]`.
  unfoldable pub find_row : (A → Bool) → List A → Option A
  find_row p [] = none
  find_row p (x ∷ xs) = if p x then some x else find_row p xs

  -- `update` and `updateMany`: every selected row is rewritten.
  unfoldable pub update_rows : (A → Bool) → (A → A) → List A → List A
  update_rows p f [] = []
  update_rows p f (x ∷ xs) = (if p x then f x else x) ∷ update_rows p f xs

  -- The rows that the condition selects, in the order of the table.
  unfoldable pub select_rows : (A → Bool) → List A → List A
  select_rows p [] = []
  select_rows p (x ∷ xs) = let rest = select_rows p xs in if p x then x ∷ rest else rest

  pub find_row_sound : (p : A → Bool) (xs : List A) {x : A} → find_row p xs ≡ some x → p x ≡ true
  unfolding find_row
  find_row_sound p [] h = absurd (ground arith)
  find_row_sound p (y ∷ xs) {x} h = elim (Bool-cases (p y)) [
    | inl e ↦ ground arith
    | inr e ↦ find_row_sound p xs (ground arith)
  ]

  -- What a selected row becomes.
  abbrev pub rewritten : (A → Bool) → (A → A) → Option A → Option A
  rewritten q f none = none
  rewritten q f (some x) = some (if q x then f x else x)

  -- An update that keeps what the condition reads is seen as an update of the row that is found.
  pub find_row-update_rows :
      (p q : A → Bool) (f : A → A) (xs : List A)
      → ((x : A) → p (f x) ≡ p x)
      → find_row p (update_rows q f xs) ≡ rewritten q f (find_row p xs)
  unfolding find_row update_rows
  find_row-update_rows p q f [] keep = refl
  find_row-update_rows p q f (x ∷ xs) keep =
      ground (arith, keep x, find_row-update_rows p q f xs keep)

  pub length-update_rows :
      (p : A → Bool) (f : A → A) (xs : List A) → length (update_rows p f xs) ≡ length xs
  unfolding update_rows
  length-update_rows p f [] = refl
  length-update_rows p f (x ∷ xs) = ap suc (length-update_rows p f xs)

  -- Two updates of the same rows are one.
  pub update_rows-update_rows :
      (p : A → Bool) (f g : A → A) (xs : List A)
      → ((x : A) → p (g x) ≡ p x)
      → update_rows p f (update_rows p g xs) ≡ update_rows p (λ x. f (g x)) xs
  unfolding update_rows
  update_rows-update_rows p f g [] keep = refl
  update_rows-update_rows p f g (x ∷ xs) keep =
      ground (arith, keep x, update_rows-update_rows p f g xs keep)
