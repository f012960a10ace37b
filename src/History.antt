-- ===== src/History.antt =====
-- The system over time: the use cases of the inventory, of checkout, of payment verification and
-- of issuance as the steps of one database, in any order and with any input. Each step is one
-- transaction (an issuance, one after another), and time does not run back.
pub mod Safety
use govibe_core.Prelude.{ℕ, ◌≤◌, ◌≡◌, String, Option}
use govibe_core.Store.{Db, Clock}
use govibe_core.Context.{RequestContext, Uuids}
use govibe_core.LaunchControl.{LaunchConfig}
use govibe_core.Inventory.Reserve.{ReserveInput, reserve}
use govibe_core.Inventory.Expiry.{release_expired, sweep, reconcile}
use govibe_core.Orders.{CreateOrderInput, create_order}
use govibe_core.Payments.Verify.{Providers, VerifyInput, verify}
use govibe_core.Tickets.Allocator.{Generator}
use govibe_core.Tickets.Issue.{issue}
use govibe_core.Tickets.Attempts.{IsInTime}

-- One operation, at the time of a clock.
pub data Step (clock : Clock) (db db' : Db) : Type 0 where
  reserves :
      (uuid : Uuids) (ctx : Option RequestContext) (input : ReserveInput)
      → db' ≡ (reserve clock uuid ctx input db).1
      → Step clock db db'
  releases :
      (id : ℕ) (now : Option ℕ) → db' ≡ (release_expired clock id now db).1 → Step clock db db'
  sweeps :
      (uuid : Uuids) (limit : Option ℕ) → db' ≡ (sweep clock uuid limit db).1 → Step clock db db'
  reconciles :
      (event_id ticket_type_id : ℕ)
      → db' ≡ (reconcile clock event_id ticket_type_id db).1
      → Step clock db db'
  orders :
      (sha256 : String → ℕ) (request_hash : CreateOrderInput → ℕ) (config : LaunchConfig)
      (uuid : Uuids) (ctx : Option RequestContext) (input : CreateOrderInput)
      → db' ≡ (create_order sha256 request_hash config clock uuid ctx input db).1
      → Step clock db db'
  verifies :
      (providers : Providers) (uuid : Uuids) (ctx : Option RequestContext) (input : VerifyInput)
      → db' ≡ (verify providers clock uuid ctx input db).1
      → Step clock db db'
  issues :
      (generate : Generator) (uuids : ℕ → Uuids) (ctx : Option RequestContext) (order_id : ℕ)
      → db' ≡ (issue generate clock uuids ctx order_id db).1
      → Step clock db db'

-- What is reached from a database at a time, and when.
pub data History (t0 : ℕ) (db0 : Db) : ℕ → Db → Type 0 where
  start : History t0 db0 t0 db0
  next :
      {t now : ℕ} {db db' : Db}
      → History t0 db0 t db
      → (clock : Clock) → now ≡ clock.db
      → t ≤ now
      → Step clock db db'
      → History t0 db0 now db'

-- An issuance is in time if the hold of its order has not run out; nothing is asked of the others.
abbrev pub IsTimely : {clock : Clock} {db db' : Db} → Step clock db db' → Type 0
IsTimely {clock} {db} (issues generate uuids ctx order_id e) = IsInTime clock.db order_id db
IsTimely _ = Unit

-- Every step of the history is in time.
abbrev pub AreTimely : {t0 : ℕ} {db0 : Db} {t : ℕ} {db : Db} → History t0 db0 t db → Type 0
AreTimely start = Unit
AreTimely (next h clock e le step) = AreTimely h × IsTimely step
