-- ===== src/History/Safety.antt =====
-- The invariant of the inventory over a history, step by step.
use govibe_core.Prelude.{
  ℕ, ◌+◌, ◌≤◌, ◌≡◌, sym, subst, String, Option, some, arith, Option-cases, inl, inr,
}
use govibe_core.Store.{Db, Clock, Inventory, Post-weaken, commit-keeps}
use govibe_core.Context.{RequestContext, user_of, correlation_of, Uuids, positive_integer}
use govibe_core.LaunchControl.{LaunchConfig}
use govibe_core.Inventory.Repository.{find_bucket, active_quantity}
use govibe_core.Inventory.Reserve.{ReserveInput, reserve}
use govibe_core.Inventory.Expiry.{release_expired, now_of, sweep, limit_of, reconcile}
use govibe_core.Inventory.Safety.{
  IsSafe, IsSafe-SameStock, IsSafe-later, reserve_tx-IsSafe, counted_at,
}
use govibe_core.Inventory.Ending.{release_expired_tx-IsSafe, sweep_tx-IsSafe, reconcile_tx-IsSafe}
use govibe_core.Orders.{CreateOrderInput, checkout_scope, create_order, create_order_tx}
use govibe_core.Orders.Checkout.{IsCheckedOut, create_order_tx-IsCheckedOut}
use govibe_core.Payments.Verify.{Providers, VerifyInput, verify, verify_tx}
use govibe_core.Payments.Effects.{IsVerified, verify_tx-IsVerified}
use govibe_core.Payments.Calls.{verify-keeps}
use govibe_core.Tickets.Attempts.{issue-IsSafe}
use govibe_core.History.{
  IsTimely, AreTimely, Step, reserves, releases, sweeps, reconciles, orders, verifies, issues,
  History, start, next,
}

-- If every bucket is covered, every bucket is covered after a reservation, whether it succeeds or
-- fails.
pub reserve-IsSafe :
    (clock : Clock) (uuid : Uuids) (ctx : Option RequestContext) (input : ReserveInput) (db : Db)
    → IsSafe clock.db db
    → IsSafe clock.db (reserve clock uuid ctx input db).1
unfolding reserve
reserve-IsSafe clock uuid ctx input db safe =
    elim (Option-cases (positive_integer input.quantity)) [
      | inl e ↦ rw (e, reserve) safe
      | inr (q, e) ↦ elim (Option-cases (positive_integer input.hold_ttl_seconds)) [
        | inl e2 ↦ rw (e, e2, reserve) safe
        | inr (ttl, e2) ↦ elim (Option-cases (user_of ctx)) [
          | inl e3 ↦ rw (e, e2, e3, reserve) safe
          | inr (actor, e3) ↦
              rw (e, e2, e3, reserve)
                (commit-keeps (IsSafe clock.db) db _ safe (
                  reserve_tx-IsSafe clock uuid actor (correlation_of ctx) input.event_id
                    input.ticket_type_id q ttl db safe))
        ]
      ]
    ]

-- If every bucket is covered, every bucket is covered after the release of one hold, whether it
-- succeeds or fails and whatever time it is told.
pub release_expired-IsSafe :
    (clock : Clock) (id : ℕ) (now : Option ℕ) (db : Db)
    → IsSafe clock.db db
    → IsSafe clock.db (release_expired clock id now db).1
unfolding release_expired
release_expired-IsSafe clock id now db safe =
    commit-keeps (IsSafe clock.db) db _ safe
      (release_expired_tx-IsSafe (now_of clock now) clock.db id db safe)

-- If every bucket is covered, every bucket is covered after a sweep of expired holds, whether it
-- succeeds or fails.
pub sweep-IsSafe :
    (clock : Clock) (uuid : Uuids) (limit : Option ℕ) (db : Db)
    → IsSafe clock.db db
    → IsSafe clock.db (sweep clock uuid limit db).1
unfolding sweep
sweep-IsSafe clock uuid limit db safe =
    commit-keeps (IsSafe clock.db) db _ safe (sweep_tx-IsSafe clock uuid (limit_of limit) db safe)

-- If every bucket is covered, every bucket is covered after the repair of a cached count, whether
-- it succeeds or fails.
pub reconcile-IsSafe :
    (clock : Clock) (e t : ℕ) (db : Db)
    → IsSafe clock.db db
    → IsSafe clock.db (reconcile clock e t db).1
unfolding reconcile
reconcile-IsSafe clock e t db safe =
    commit-keeps (IsSafe clock.db) db _ safe (reconcile_tx-IsSafe clock.db e t db safe)

create_order-IsSafe :
    (sha256 : String → ℕ) (request_hash : CreateOrderInput → ℕ) (config : LaunchConfig)
    (clock : Clock) (uuid : Uuids) (ctx : Option RequestContext) (input : CreateOrderInput)
    (db : Db)
    → IsSafe clock.db db
    → IsSafe clock.db (create_order sha256 request_hash config clock uuid ctx input db).1
unfolding create_order
create_order-IsSafe sha256 request_hash config clock uuid ctx input db safe =
    elim (Option-cases (user_of ctx)) [
      | inl e ↦ rw (e, create_order) safe
      | inr (actor, e) ↦
          rw (e, create_order)
            (commit-keeps (IsSafe clock.db) db _ safe (
              Post-weaken (λ _ d. IsSafe clock.db d)
                (IsCheckedOut config clock uuid (checkout_scope sha256 actor input)
                  (request_hash input) actor input db)
                (create_order_tx config clock uuid (checkout_scope sha256 actor input)
                  (request_hash input) actor (correlation_of ctx) input db)
                (create_order_tx-IsCheckedOut config clock uuid (checkout_scope sha256 actor input)
                  (request_hash input) actor (correlation_of ctx) input db)
                (λ r db' c. IsSafe-SameStock clock.db db db' (c.inventories, c.reservations) safe)))
    ]

verify-IsSafe :
    (providers : Providers) (clock : Clock) (uuid : Uuids) (ctx : Option RequestContext)
    (input : VerifyInput) (db : Db)
    → IsSafe clock.db db
    → IsSafe clock.db (verify providers clock uuid ctx input db).1
verify-IsSafe providers clock uuid ctx input db safe =
    verify-keeps providers clock uuid ctx input db (IsSafe clock.db) safe (λ v.
      Post-weaken (λ _ d. IsSafe clock.db d) (IsVerified uuid ctx input v db)
        (verify_tx clock uuid ctx input v db) (verify_tx-IsVerified clock uuid ctx input v db)
        (λ r db' i. subst (IsSafe clock.db) (sym i.after) safe))

-- Every step keeps every bucket covered.
pub Step-IsSafe :
    {clock : Clock} {db db' : Db} (step : Step clock db db')
    → IsTimely step
    → IsSafe clock.db db
    → IsSafe clock.db db'
Step-IsSafe {clock} {db} (reserves uuid ctx input e) timely s =
    subst (IsSafe clock.db) (sym e) (reserve-IsSafe clock uuid ctx input db s)
Step-IsSafe {clock} {db} (releases id now e) timely s =
    subst (IsSafe clock.db) (sym e) (release_expired-IsSafe clock id now db s)
Step-IsSafe {clock} {db} (sweeps uuid limit e) timely s =
    subst (IsSafe clock.db) (sym e) (sweep-IsSafe clock uuid limit db s)
Step-IsSafe {clock} {db} (reconciles event_id type_id e) timely s =
    subst (IsSafe clock.db) (sym e) (reconcile-IsSafe clock event_id type_id db s)
Step-IsSafe {clock} {db} (orders sha hash config uuid ctx input e) timely s =
    subst (IsSafe clock.db) (sym e) (create_order-IsSafe sha hash config clock uuid ctx input db s)
Step-IsSafe {clock} {db} (verifies providers uuid ctx input e) timely s =
    subst (IsSafe clock.db) (sym e) (verify-IsSafe providers clock uuid ctx input db s)
Step-IsSafe {clock} {db} (issues generate uuids ctx id e) in_time s =
    subst (IsSafe clock.db) (sym e) (issue-IsSafe generate clock uuids ctx id db s in_time)

pub History-IsSafe :
    {t0 : ℕ} {db0 : Db} {t : ℕ} {db : Db} (h : History t0 db0 t db)
    → AreTimely h
    → IsSafe t0 db0
    → IsSafe t db
History-IsSafe start timely safe = safe
History-IsSafe {db} (next {t} {db = before} h clock e le step) timely safe =
    subst (λ n. IsSafe n db) (sym e)
      (Step-IsSafe step timely.1
        (IsSafe-later t clock.db before (subst (λ n. t ≤ n) e le) (History-IsSafe h timely.0 safe)))

-- In every history of use cases, in any order and with any input, from a database in which every
-- bucket is covered, and in which each issuance comes before the hold of its order runs out: the
-- sold places of a bucket and the holds that are active on it stay within its capacity.
pub no_overselling :
    (t0 t : ℕ) (db0 db : Db) (event_id ticket_type_id : ℕ) (b : Inventory) (h : History t0 db0 t db)
    → IsSafe t0 db0
    → AreTimely h
    → find_bucket event_id ticket_type_id db.inventories ≡ some b
    → active_quantity t event_id ticket_type_id db.reservations + b.sold_count ≤ b.capacity_total
no_overselling t0 t db0 db event_id ticket_type_id b h safe timely found =
    let s : IsSafe t db = History-IsSafe h timely safe in
    let counted = counted_at t event_id ticket_type_id b db s found in
    let within : b.reserved_count + b.sold_count ≤ b.capacity_total =
      (s.covered event_id ticket_type_id b found).within in
    omega arith
