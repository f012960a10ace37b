-- ===== src/Store/Transaction.antt =====
-- Errors as values, and transactions. src/shared/errors/domain-errors.ts,
-- src/shared/prisma/transaction-runner.service.ts.
use govibe_core.Prelude.{ℕ, String, Bool, true, false, Option, none, some}
pub use govibe_core.Prelude.{is_some}
use govibe_core.Store.Records.{Db}

-- The error classes of domain-errors.ts and of @nestjs/common with their messages, the two
-- codes of Prisma that the code meets, the error of a statement in an aborted transaction
-- (SQLSTATE 25P02), and that of a `Date` without a time.
pub data Error : Type 0 where
  domain_conflict : String → Error
  not_found : String → Error
  invalid_state_transition : String → Error
  idempotency_conflict : String → Error
  payment_already_processed : String → Error
  inventory_unavailable : String → Error
  launch_control_disabled : String → Error
  launch_control_violation : String → Error
  bad_request : String → Error
  forbidden : String → Error
  conflict : String → Error
  failure : String → Error
  webhook_signature : String → Error
  internal_server_error : String → Error
  provider_error : (name message : String) → Error
  hold_rejection :
      (status_code : ℕ) (message reason : String) (organizer_id venue_table_id : Option ℕ) → Error
  unique_violation : Error
  record_to_update_not_found : Error
  transaction_aborted : Error
  invalid_date : Error

pub data Result (A : Type 0) : Type 0 where
  ok : A → Result A
  err : Error → Result A

-- The body of a transaction. An error carries no database: what was written is rolled back.
abbrev pub Tx : Type 0 → Type 0
Tx A = Db → Result (A × Db)

module _ {A : Type 0} where
  abbrev pub pure : A → Tx A
  pure a db = ok (a, db)

  abbrev pub throw : Error → Tx A
  throw e db = err e

  -- `if (!row) throw e`
  abbrev pub or_throw : Option A → Error → Tx A
  or_throw none e = throw e
  or_throw (some a) e = pure a

  -- A read.
  abbrev pub gets : (Db → A) → Tx A
  gets f db = ok (f db, db)

infixl 5 ◌>>=◌ ◌>>◌
-- Shut, so that proofs go by the rules for `Post`; a test that runs code opens it.
unfoldable pub ◌>>=◌ : {A B : Type 0} → Tx A → (A → Tx B) → Tx B
◌>>=◌ m f db = elim (m db) [ ok (a, db') ↦ f a db' | err e ↦ err e ]

abbrev pub ◌>>◌ : {B : Type 0} → Tx (Unit {0}) → Tx B → Tx B
m >> k = m >>= λ _. k

-- `if (test) throw e`
abbrev pub throw_if : Bool → Error → Tx (Unit {0})
throw_if true e db = err e
throw_if false e db = ok (tt, db)

abbrev pub modify : (Db → Db) → Tx (Unit {0})
modify f db = ok (tt, f db)

-- A statement that is sent after one of its transaction has failed and the error was caught.
-- PostgreSQL has aborted the transaction and refuses the statement, whatever it is.
abbrev pub in_aborted : {A : Type 0} → Tx A → Tx A
in_aborted m = throw transaction_aborted

-- A Prisma `update` by primary key: it fails where no row has the key.
abbrev pub require : Bool → Tx (Unit {0})
require true db = ok (tt, db)
require false db = err record_to_update_not_found

-- What the caller of an operation has: its result, and the database afterwards.
abbrev pub Call : Type 0 → Type 0
Call A = Db → Result A × Db

abbrev pub commit : {A : Type 0} → Db → Result (A × Db) → Result A × Db
commit db (ok (a, db')) = (ok a, db')
commit db (err e) = (err e, db)

-- `runInTransaction`: commit on a normal end, roll back on a throw. The isolation level is left
-- out: transactions are taken one after another.
abbrev pub run_in_transaction : {A : Type 0} → Tx A → Call A
run_in_transaction m db = commit db (m db)
