-- ===== src/Outbox/Lease.antt =====
-- Two claims of the outbox: while the first one's lease runs, the second gets none of its events.
use govibe_core.Prelude.{
  ℕ, zero, suc, ◌+◌, ◌<◌, ◌≡◌, refl, sym, ◌∙◌, ap, true, false, some, List, [], ◌∷◌, arith, ◌==◌,
  update_rows, select_rows, take,
}
use govibe_core.Store.{Db, Clock, OutboxEvent, Result, ok, err, ◌>>=◌}
use govibe_core.LaunchControl.{has}
use govibe_core.Outbox.Claims.{
  is_due, insert_by_creation, sort_by_creation, due_events, event_ids, set_next_attempt,
  claim_batch_tx, claim_batch,
}

-- No row has the id.
abbrev Lacks : ℕ → List OutboxEvent → Type 0
Lacks id rows = has ◌==◌ id (event_ids rows) ≡ false

Lacks-take : (id n : ℕ) (rows : List OutboxEvent) → Lacks id rows → Lacks id (take n rows)
unfolding has
Lacks-take id zero rows h = refl
Lacks-take id (suc n) [] h = refl
Lacks-take id (suc n) (r ∷ rows) h = ground (arith, Lacks-take id n rows)

Lacks-insert :
    (id : ℕ) (r : OutboxEvent) (rows : List OutboxEvent)
    → Lacks id (r ∷ rows)
    → Lacks id (insert_by_creation r rows)
unfolding has insert_by_creation
Lacks-insert id r [] h = h
Lacks-insert id r (x ∷ rows) h = ground (arith, Lacks-insert id r rows)

Lacks-sort : (id : ℕ) (rows : List OutboxEvent) → Lacks id rows → Lacks id (sort_by_creation rows)
unfolding has sort_by_creation
Lacks-sort id [] h = h
Lacks-sort id (x ∷ rows) h =
    Lacks-insert id x (sort_by_creation rows) (ground (arith, Lacks-sort id rows))

-- The rows that were claimed are not due before the lease ends.
Lacks-leased :
    (id now until : ℕ) (ids : List ℕ) (rows : List OutboxEvent)
    → now < until
    → has ◌==◌ id ids ≡ true
    → Lacks id (
        select_rows (is_due now) (
          update_rows
            (λ (r : OutboxEvent). has ◌==◌ r.id ids)
            (set_next_attempt (some until))
            rows))
unfolding has select_rows update_rows
Lacks-leased id now until ids [] h claimed = refl
Lacks-leased id now until ids (x ∷ rows) h claimed =
    ground (arith, Lacks-leased id now until ids rows h claimed)

-- The rows of a later query of the leased table.
due_events-leased :
    (id now until limit : ℕ) (ids : List ℕ) (table : List OutboxEvent)
    → now < until
    → has ◌==◌ id ids ≡ true
    → Lacks id (
        due_events now limit (
          update_rows
            (λ (r : OutboxEvent). has ◌==◌ r.id ids)
            (set_next_attempt (some until))
            table))
unfolding due_events
due_events-leased id now until limit ids table h claimed =
    Lacks-take id limit _ (Lacks-sort id _ (Lacks-leased id now until ids table h claimed))

-- What a claim gives and leaves.
pub claim_batch_result :
    (clock : Clock) (limit : ℕ) (db : Db)
    → claim_batch clock limit db ≡ (
      ok (due_events clock.db limit db.outbox_events),
      record db {
        outbox_events =
            update_rows
              (λ (r : OutboxEvent).
                has ◌==◌ r.id (event_ids (due_events clock.db limit db.outbox_events)))
              (set_next_attempt (some (clock.app + 30000)))
              db.outbox_events;
      },
    )
unfolding claim_batch claim_batch_tx ◌>>=◌
claim_batch_result clock limit db = refl

given : Result (List OutboxEvent) → List OutboxEvent
given (ok rows) = rows
given (err e) = []

-- Of two claims, one straight after the other and before its lease of thirty seconds ends, no
-- event id is in both.
pub claim_batch_disjoint :
    (first second : Clock) (limit limit' : ℕ) (db db1 db2 : Db) (rows rows' : List OutboxEvent)
    (id : ℕ)
    → claim_batch first limit db ≡ (ok rows, db1)
    → claim_batch second limit' db1 ≡ (ok rows', db2)
    → second.db < first.app + 30000
    → has ◌==◌ id (event_ids rows) ≡ true
    → has ◌==◌ id (event_ids rows') ≡ false
unfolding given
claim_batch_disjoint first second limit limit' db db1 db2 rows rows' id run run' soon claimed =
    rw (sym rows'_is, sym db1_is)
      (due_events-leased id second.db (first.app + 30000) limit'
        (event_ids (due_events first.db limit db.outbox_events)) db.outbox_events soon
        (rw rows_is claimed))
  where
    rows_is : due_events first.db limit db.outbox_events ≡ rows
    rows_is = ap (λ c. given c.0) (sym (claim_batch_result first limit db) ∙ run)

    db1_is :
        update_rows
          (λ (r : OutboxEvent).
            has ◌==◌ r.id (event_ids (due_events first.db limit db.outbox_events)))
          (set_next_attempt (some (first.app + 30000)))
          db.outbox_events
        ≡ db1.outbox_events
    db1_is = ap (λ c. c.1.outbox_events) (sym (claim_batch_result first limit db) ∙ run)

    rows'_is : due_events second.db limit' db1.outbox_events ≡ rows'
    rows'_is = ap (λ c. given c.0) (sym (claim_batch_result second limit' db1) ∙ run')
