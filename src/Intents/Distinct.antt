-- ===== src/Intents/Distinct.antt =====
-- The primary key of payment intents: no two rows have one id.
use govibe_core.Prelude.{
  ◌≡◌, refl, sym, ap, ◌∙◌, subst, ℕ, Bool, true, false, none, some, List, [], ◌∷◌, arith, ◌==◌,
  ==_refl, ==_iff, inl, inr, Bool-cases, Option-cases, if◌then◌else◌, find_row, update_rows,
  find_row-update_rows, find_row-weaken, rewritten, is_some, Each,
}
use govibe_core.Store.{PaymentIntent}
use govibe_core.Intents.Repository.{has_id, clashes}

abbrev pub AreDistinct : List PaymentIntent → Type 0
AreDistinct [] = Unit
AreDistinct (x ∷ xs) = (find_row (has_id x.id) xs ≡ none) × AreDistinct xs

-- Where ids are distinct, a row that is found is found by its id.
pub found_by_id :
    (p : PaymentIntent → Bool) (xs : List PaymentIntent) (a : PaymentIntent)
    → AreDistinct xs
    → find_row p xs ≡ some a
    → find_row (has_id a.id) xs ≡ some a
unfolding find_row
found_by_id p [] a d h = absurd (ground arith)
found_by_id p (x ∷ xs) a (new, d) h = elim (Bool-cases (p x)) [
  | inl e ↦ ground (arith, e, h, ==_refl a.id)
  | inr e ↦ elim (Bool-cases (x.id == a.id)) [
    | inl s ↦ absurd (
        ground (
          arith,
          found_by_id p xs a d (ground (arith, e, h)),
          subst (λ n. find_row (has_id n) xs ≡ none) ((==_iff x.id a.id).0 s) new,
        ))
    | inr s ↦
        ap (λ b. if b then some x else find_row (has_id a.id) xs) s
        ∙ found_by_id p xs a d (ground (arith, e, h))
  ]
]

-- An update that keeps ids keeps them distinct.
pub update_rows-AreDistinct :
    (q : PaymentIntent → Bool) (f : PaymentIntent → PaymentIntent)
    → ((x : PaymentIntent) → (f x).id ≡ x.id)
    → (xs : List PaymentIntent) → AreDistinct xs
    → AreDistinct (update_rows q f xs)
unfolding update_rows
update_rows-AreDistinct q f keep [] d = tt
update_rows-AreDistinct q f keep (x ∷ xs) (new, d) = (
  subst (λ n. find_row (has_id n) (update_rows q f xs) ≡ none) (sym (head_id (q x)))
      (find_row-update_rows (has_id x.id) q f xs (λ y. ap (λ n. n == x.id) (keep y))
        ∙ ap (rewritten q f) new),
  update_rows-AreDistinct q f keep xs d,
)
  where
    head_id : (b : Bool) → (if b then f x else x).id ≡ x.id
    head_id true = keep x
    head_id false = refl

-- So does a change row by row that keeps them.
pub none-Each :
    (R : PaymentIntent → PaymentIntent → Type 0)
    → ((x y : PaymentIntent) → R x y → y.id ≡ x.id)
    → (id : ℕ) (xs ys : List PaymentIntent) → Each R xs ys
    → find_row (has_id id) xs ≡ none
    → find_row (has_id id) ys ≡ none
unfolding find_row
none-Each R keep id [] [] h e = e
none-Each R keep id [] (y ∷ ys) h e = absurd h
none-Each R keep id (x ∷ xs) [] h e = refl
none-Each R keep id (x ∷ xs) (y ∷ ys) (r, h) e = elim (Bool-cases (x.id == id)) [
  | inl s ↦ absurd (ground (arith, s, e))
  | inr s ↦
      ap (λ b. if b then some y else find_row (has_id id) ys) (ap (λ n. n == id) (keep x y r) ∙ s)
      ∙ none-Each R keep id xs ys h (ground (arith, s, e))
]

pub Each-AreDistinct :
    (R : PaymentIntent → PaymentIntent → Type 0)
    → ((x y : PaymentIntent) → R x y → y.id ≡ x.id)
    → (xs ys : List PaymentIntent) → Each R xs ys
    → AreDistinct xs
    → AreDistinct ys
Each-AreDistinct R keep [] [] h d = tt
Each-AreDistinct R keep [] (y ∷ ys) h d = absurd h
Each-AreDistinct R keep (x ∷ xs) [] h d = absurd h
Each-AreDistinct R keep (x ∷ xs) (y ∷ ys) (r, h) (new, d) = (
  subst (λ n. find_row (has_id n) ys ≡ none) (sym (keep x y r)) (none-Each R keep x.id xs ys h new),
  Each-AreDistinct R keep xs ys h d,
)

-- A row that clashes with no other has an id of its own.
pub fresh_id :
    (row : PaymentIntent) (xs : List PaymentIntent)
    → is_some (find_row (clashes row) xs) ≡ false
    → find_row (has_id row.id) xs ≡ none
fresh_id row xs h = elim (Option-cases (find_row (has_id row.id) xs)) [
  | inl e ↦ e
  | inr (a, e) ↦ absurd (
      ground (
        arith,
        h,
        find_row-weaken (has_id row.id) (clashes row) (λ x s. ground (arith, s)) xs (ap is_some e),
      ))
]
