-- ===== src/Inventory/Fits.antt =====
-- The invariant of the inventory: no bucket is promised beyond its capacity, and the cached count
-- covers the active holds. Its preservation by an update of one bucket.
use govibe_core.Prelude.{
  ℕ, ◌+◌, ◌≤◌, ◌≡◌, refl, subst, sym, ◌≢◌, some, List, inl, inr, ◌⊎◌, arith, ◌==◌, find_row_sound,
  find_row-update_rows, rewritten, update_rows, Bool-cases, Option-cases,
}
use native.Mathlib.Nat.{le_trans}
use govibe_core.Store.{Inventory, Reservation}
use govibe_core.Inventory.Repository.{find_bucket, is_bucket, active_quantity}

-- What a bucket owes: the active holds are within the cached count, and that with what is sold
-- within the capacity.
pub record IsCovered (now : ℕ) (rs : List Reservation) (b : Inventory) : Type 0 where
  pub counted : active_quantity now b.event_id b.ticket_type_id rs ≤ b.reserved_count
  pub within : b.reserved_count + b.sold_count ≤ b.capacity_total

-- Every bucket that a lookup finds is covered, and two that share an id are one.
pub record Fits (now : ℕ) (rows : List Inventory) (rs : List Reservation) : Type 0 where
  pub covered : (e t : ℕ) (b : Inventory) → find_bucket e t rows ≡ some b → IsCovered now rs b
  pub distinct :
      (e t e' t' : ℕ) (b b' : Inventory)
      → find_bucket e t rows ≡ some b
      → find_bucket e' t' rows ≡ some b'
      → b.id ≡ b'.id
      → b ≡ b'

-- A bucket that is found stands under the key of the lookup.
pub find_bucket_key :
    (e t : ℕ) (rows : List Inventory) (b : Inventory)
    → find_bucket e t rows ≡ some b
    → (b.event_id ≡ e) × (b.ticket_type_id ≡ t)
unfolding find_bucket
find_bucket_key e t rows b h = let s = find_row_sound (is_bucket e t) rows h in ground arith

-- An update that keeps the key of each row.
pub find_bucket-update :
    (e t id : ℕ) (f : Inventory → Inventory) (rows : List Inventory)
    → ((b : Inventory) → is_bucket e t (f b) ≡ is_bucket e t b)
    → find_bucket e t (update_rows (λ b. b.id == id) f rows)
      ≡ rewritten (λ b. b.id == id) f (find_bucket e t rows)
unfolding find_bucket
find_bucket-update e t id f rows keep = find_row-update_rows (is_bucket e t) _ f rows keep

-- What an update finds afterwards: another bucket as it was, or the updated one.
pub updated_cases :
    (e t id : ℕ) (f : Inventory → Inventory) (rows : List Inventory) (b' : Inventory)
    → ((b : Inventory) → is_bucket e t (f b) ≡ is_bucket e t b)
    → find_bucket e t (update_rows (λ b. b.id == id) f rows) ≡ some b'
    → (b : Inventory) × (find_bucket e t rows ≡ some b)
      × (((b.id ≡ id) × (b' ≡ f b)) ⊎ ((b.id ≢ id) × (b' ≡ b)))
updated_cases e t id f rows b' keep h = elim (Option-cases (find_bucket e t rows)) [
  | inl e0 ↦ absurd (ground (arith, e0, h, find_bucket-update e t id f rows keep))
  | inr (b, e0) ↦ elim (Bool-cases (b.id == id)) [
    | inl same ↦ (
      b,
      e0,
      inl (ground arith, ground (arith, e0, h, same, find_bucket-update e t id f rows keep)),
    )
    | inr diff ↦ (
      b,
      e0,
      inr (ground arith, ground (arith, e0, h, diff, find_bucket-update e t id f rows keep)),
    )
  ]
]

module _ (now id : ℕ) (f : Inventory → Inventory) (rows : List Inventory)
    (rs rs' : List Reservation)
    (keep : (b : Inventory)
      → (((f b).event_id ≡ b.event_id) × ((f b).ticket_type_id ≡ b.ticket_type_id))
        × ((f b).id ≡ b.id))
    (fits : Fits now rows rs) where
  keeps_key : (e t : ℕ) (b : Inventory) → is_bucket e t (f b) ≡ is_bucket e t b
  keeps_key e t b = let k = keep b in rw (k.0.0, k.0.1) refl

  still-IsCovered :
      (e t : ℕ) (b : Inventory)
      → find_bucket e t rows ≡ some b
      → active_quantity now e t rs' ≤ active_quantity now e t rs
      → IsCovered now rs' b
  still-IsCovered e t b found less =
      let key = find_bucket_key e t rows b found in
      let old = fits.covered e t b found in
      record {
        counted = rw (key.0, key.1) (le_trans less (rw (key.0, key.1) at old.counted));
        within = old.within;
      }

  one_row :
      (b c b' c' : Inventory)
      → (b.id ≡ c.id → b ≡ c)
      → ((b.id ≡ id) × (b' ≡ f b)) ⊎ ((b.id ≢ id) × (b' ≡ b))
      → ((c.id ≡ id) × (c' ≡ f c)) ⊎ ((c.id ≢ id) × (c' ≡ c))
      → b'.id ≡ c'.id
      → b' ≡ c'
  one_row b c b' c' one x y same = grind (arith, keep b, keep c)

  -- The bucket at `id` is updated to one that is covered, and the active holds of the others do
  -- not grow: then every bucket is covered.
  pub update-Fits :
      ((e t : ℕ) (b : Inventory)
        → find_bucket e t rows ≡ some b
        → b.id ≡ id
        → IsCovered now rs' (f b))
      → ((e t : ℕ) (b : Inventory)
          → find_bucket e t rows ≡ some b
          → b.id ≢ id
          → active_quantity now e t rs' ≤ active_quantity now e t rs)
      → Fits now (update_rows (λ b. b.id == id) f rows) rs'
  update-Fits here others = record {
    covered = λ e t b' h.
        let (b, found, cases) = updated_cases e t id f rows b' (keeps_key e t) h in
        elim cases [
          | inl (same, e') ↦ subst (IsCovered now rs') (sym e') (here e t b found same)
          | inr (diff, e') ↦
              subst (IsCovered now rs') (sym e')
                (still-IsCovered e t b found (others e t b found diff))
        ];
    distinct = λ e t e2 t2 b' c' h h2 same.
        let (b, found, cases) = updated_cases e t id f rows b' (keeps_key e t) h in
        let (c, found2, cases2) = updated_cases e2 t2 id f rows c' (keeps_key e2 t2) h2 in
        one_row b c b' c' (fits.distinct e t e2 t2 b c found found2) cases cases2 same;
  }
