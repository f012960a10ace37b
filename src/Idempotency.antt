-- ===== src/Idempotency.antt =====
-- The store of idempotency keys.
-- src/modules/idempotency/infrastructure/repositories/prisma-idempotency.repository.ts. A key is
-- stored by its SHA-256 hash, which is an argument.
use govibe_core.Prelude.{
  ℕ, String, Bool, true, false, ◌&&◌, Option, none, some, List, ◌∷◌, ◌==◌, text_eq, if◌then◌else◌,
  find_row, update_rows,
}
use govibe_core.Store.{IdempotencyKey, OrderResult, Tx, gets, modify, require, is_some, ◌>>◌, ok}

-- The primary key of the table.
pub record Scope : Type 0 where
  pub actor_user_id : ℕ
  pub use_case : String
  pub key_hash : ℕ

abbrev pub in_scope : Scope → IdempotencyKey → Bool
in_scope scope row =
    row.actor_user_id == scope.actor_user_id
    && (text_eq row.use_case scope.use_case && row.key_hash == scope.key_hash)

unfoldable pub find_key : Scope → List IdempotencyKey → Option IdempotencyKey
find_key scope rows = find_row (in_scope scope) rows

unfoldable pub find_by_key : Scope → Tx (Option IdempotencyKey)
find_by_key scope = gets (λ db. find_key scope db.idempotency_keys)

abbrev pub pending_key : Scope → ℕ → IdempotencyKey
pending_key scope request_hash = record {
  actor_user_id = scope.actor_user_id;
  use_case = scope.use_case;
  key_hash = scope.key_hash;
  request_hash = request_hash;
  response_code = none;
  response_body = none;
}

-- `true` where the row was created, `false` on a unique violation. The violation is caught, but the
-- transaction is aborted by it: the statements that follow are `in_aborted`.
unfoldable pub try_create_pending : Scope → ℕ → Tx Bool
try_create_pending scope request_hash db =
    if is_some (find_key scope db.idempotency_keys)
    then ok (false, db)
    else ok (
      true,
      record db { idempotency_keys = pending_key scope request_hash ∷ db.idempotency_keys },
    )

abbrev pub completed : ℕ → OrderResult → IdempotencyKey → IdempotencyKey
completed code body row = record row { response_code = some code; response_body = some body }

unfoldable pub complete : Scope → ℕ → OrderResult → Tx (Unit {0})
complete scope code body db =
    (require (is_some (find_key scope db.idempotency_keys))
        >> modify (λ d. record d {
          idempotency_keys = update_rows (in_scope scope) (completed code body) d.idempotency_keys;
        }))
      db
