-- ===== src/Tickets/Allocator.antt =====
-- The allocation of ticket references with a bounded number of attempts,
-- src/shared/tickets/ticket-reference-allocator.service.ts. A reference is drawn from random bytes;
-- the drawing is an argument.
use govibe_core.Prelude.{ℕ, zero, suc, ◌+◌, Bool, true, false, List, [], ◌∷◌, if◌then◌else◌}
use govibe_core.Store.{
  Db, Result, Call, ok, err, Error, unique_violation, record_to_update_not_found, failure,
}

-- A serial and a public reference.
pub record Reference : Type 0 where
  pub ticket_serial : ℕ
  pub public_reference : ℕ

-- The reference that is drawn for a place of the batch in an attempt.
abbrev pub Generator : Type 0
Generator = ℕ → ℕ → Reference

-- `Array.from({ length: count })`, from place `i` on.
unfoldable pub draw : Generator → ℕ → ℕ → ℕ → List Reference
draw generate attempt i zero = []
draw generate attempt i (suc count) = generate attempt i ∷ draw generate attempt (i + 1) count

-- `isUniqueConstraintError`: every known request error of Prisma passes, not only P2002.
unfoldable pub is_unique_constraint_error : Error → Bool
is_unique_constraint_error unique_violation = true
is_unique_constraint_error record_to_update_not_found = true
is_unique_constraint_error _ = false

-- The end of an attempt: a unique violation starts the next one, any other error ends the loop.
unfoldable pub after_attempt : {A : Type 0} → Call A → Result A × Db → Result A × Db
unfolding is_unique_constraint_error
after_attempt again (ok a, db) = (ok a, db)
after_attempt again (err e, db) = if is_unique_constraint_error e then again db else (err e, db)

module _ {A : Type 0} (generate : Generator) (count : ℕ)
    (writer : ℕ → List Reference → Call A) where
  -- The loop, with the attempts that are left; the writer is told which attempt it serves.
  unfoldable pub attempts : ℕ → ℕ → Call A
  unfolding draw
  attempts zero attempt db =
      (err (failure "Ticket reference allocation failed after 5 attempts"), db)
  attempts (suc left) attempt db =
      after_attempt (attempts left (attempt + 1))
        (writer attempt (draw generate attempt 0 count) db)

  -- `allocateBatch`, with MAX_ATTEMPTS = 5.
  unfoldable pub allocate_batch : Call A
  allocate_batch = attempts 5 1
