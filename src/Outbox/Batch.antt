-- ===== src/Outbox/Batch.antt =====
-- A batch goes on to its end: no round is stopped by an error, since every claimed event is stored.
use govibe_core.Prelude.{
  ℕ, zero, suc, ◌+◌, ◌≤◌, ◌≡◌, refl, ap, ◌∙◌, true, Option, none, some, List, [], ◌∷◌, arith, ◌==◌,
  leb, if◌then◌else◌, find_row, update_rows, select_rows, take, length, rewritten,
  find_row-update_rows, Bool, Bool-cases, Option-cases, inl, inr,
}
use govibe_core.Store.{Db, Clock, OutboxEvent, Result, ok, err, is_some}
use govibe_core.LaunchControl.{has}
use govibe_core.Outbox.Claims.{
  find_event, is_due, insert_by_creation, sort_by_creation, due_events, event_ids, set_next_attempt,
}
use govibe_core.Outbox.Processor.{
  Dispatcher, deliver, process_rows, process_claimed, counted_rows, process_batch,
}
use govibe_core.Outbox.Lease.{claim_batch_result}
use govibe_core.Outbox.Lifecycle.{deliver_stored, marked, marked_id}

abbrev is_stored : List OutboxEvent → OutboxEvent → Bool
is_stored table r = is_some (find_event r.id table)

-- Every row has its event in the table.
abbrev AreStored : List OutboxEvent → List OutboxEvent → Type 0
AreStored table [] = Unit
AreStored table (r ∷ rows) = (is_stored table r ≡ true) × AreStored table rows

AreStored-cons :
    (x : OutboxEvent) (table rows : List OutboxEvent)
    → AreStored table rows
    → AreStored (x ∷ table) rows
unfolding find_row
AreStored-cons x table [] h = tt
AreStored-cons x table (r ∷ rows) h = (ground (arith, h.0), AreStored-cons x table rows h.1)

AreStored-self : (table : List OutboxEvent) → AreStored table table
unfolding find_row
AreStored-self [] = tt
AreStored-self (x ∷ table) = (ground arith, AreStored-cons x table table (AreStored-self table))

AreStored-select :
    (p : OutboxEvent → Bool) (table rows : List OutboxEvent)
    → AreStored table rows
    → AreStored table (select_rows p rows)
unfolding select_rows
AreStored-select p table [] h = tt
AreStored-select p table (r ∷ rows) h = elim (Bool-cases (p r)) [
  | inl e ↦ rw (e, if◌then◌else◌) (h.0, AreStored-select p table rows h.1)
  | inr e ↦ rw (e, if◌then◌else◌) (AreStored-select p table rows h.1)
]

AreStored-insert :
    (r : OutboxEvent) (table rows : List OutboxEvent)
    → is_stored table r ≡ true
    → AreStored table rows
    → AreStored table (insert_by_creation r rows)
unfolding insert_by_creation
AreStored-insert r table [] here h = (here, tt)
AreStored-insert r table (x ∷ rows) here h = elim (Bool-cases (leb r.created_at x.created_at)) [
  | inl e ↦ rw (e, if◌then◌else◌) (here, h)
  | inr e ↦ rw (e, if◌then◌else◌) (h.0, AreStored-insert r table rows here h.1)
]

AreStored-sort :
    (table rows : List OutboxEvent) → AreStored table rows → AreStored table (sort_by_creation rows)
unfolding sort_by_creation
AreStored-sort table [] h = tt
AreStored-sort table (x ∷ rows) h =
    AreStored-insert x table (sort_by_creation rows) h.0 (AreStored-sort table rows h.1)

AreStored-take :
    (n : ℕ) (table rows : List OutboxEvent) → AreStored table rows → AreStored table (take n rows)
AreStored-take zero table rows h = tt
AreStored-take (suc n) table [] h = tt
AreStored-take (suc n) table (x ∷ rows) h = (h.0, AreStored-take n table rows h.1)

is_some-rewritten :
    (q : OutboxEvent → Bool) (f : OutboxEvent → OutboxEvent) (o : Option OutboxEvent)
    → is_some (rewritten q f o) ≡ is_some o
is_some-rewritten q f none = refl
is_some-rewritten q f (some x) = refl

-- An update that keeps the ids loses no event.
AreStored-update :
    (q : OutboxEvent → Bool) (f : OutboxEvent → OutboxEvent) (table rows : List OutboxEvent)
    → ((r : OutboxEvent) → (f r).id ≡ r.id)
    → AreStored table rows
    → AreStored (update_rows q f table) rows
AreStored-update q f table [] keep h = tt
AreStored-update q f table (r ∷ rows) keep h = (
  ap is_some
        (find_row-update_rows (λ (x : OutboxEvent). x.id == r.id) q f table (λ x. rw keep refl))
      ∙ is_some-rewritten q f (find_event r.id table)
      ∙ h.0,
  AreStored-update q f table rows keep h.1,
)

length-take : (n : ℕ) (rows : List OutboxEvent) → length (take n rows) ≤ n
length-take zero rows = omega arith
length-take (suc n) [] = omega arith
length-take (suc n) (x ∷ rows) = omega (arith, length-take n rows)

-- The rest of the loop after a round.
unfoldable go_on :
    Dispatcher → (ℕ → ℕ) → ℕ → List OutboxEvent → Result (Unit {0}) × Db → Result (Unit {0}) × Db
unfolding process_rows
go_on dispatch times n rows c = elim c.0 [
  | ok u ↦ process_rows dispatch times (n + 1) rows c.1
  | err e ↦ (err e, c.1)
]

process_rows_next :
    (dispatch : Dispatcher) (times : ℕ → ℕ) (n : ℕ) (row : OutboxEvent) (rows : List OutboxEvent)
    (db db' : Db)
    → deliver (times n) row (dispatch n row) db ≡ (ok tt, db')
    → process_rows dispatch times n (row ∷ rows) db ≡ process_rows dispatch times (n + 1) rows db'
unfolding process_rows go_on
process_rows_next dispatch times n row rows db db' run = ap (go_on dispatch times n rows) run

-- The table after a round for each row, the first of them with number `n`.
abbrev after_rounds :
    Dispatcher → (ℕ → ℕ) → ℕ → List OutboxEvent → List OutboxEvent → List OutboxEvent
after_rounds dispatch times n [] table = table
after_rounds dispatch times n (row ∷ rows) table =
    after_rounds dispatch times (n + 1) rows
      (update_rows (λ r. r.id == row.id) (marked (times n) row (dispatch n row)) table)

-- The table in which the events with these rows are leased.
abbrev leased : Clock → List OutboxEvent → List OutboxEvent → List OutboxEvent
leased clock rows table =
    update_rows (λ (r : OutboxEvent). has ◌==◌ r.id (event_ids rows))
      (set_next_attempt (some (clock.app + 30000))) table

process_rows_ends :
    (dispatch : Dispatcher) (times : ℕ → ℕ) (n : ℕ) (rows : List OutboxEvent) (db : Db)
    → AreStored db.outbox_events rows
    → process_rows dispatch times n rows db
      ≡ (ok tt, record db { outbox_events = after_rounds dispatch times n rows db.outbox_events })
unfolding process_rows
process_rows_ends dispatch times n [] db h = refl
process_rows_ends dispatch times n (row ∷ rows) db h =
    elim (Option-cases (find_event row.id db.outbox_events)) [
      | inl e ↦ absurd (ground (arith, e, h.0))
      | inr (stored, e) ↦
          process_rows_next dispatch times n row rows db _
            (deliver_stored (times n) row (dispatch n row) db stored e)
          ∙ process_rows_ends dispatch times (n + 1) rows _ (
              AreStored-update (λ r. r.id == row.id) (marked (times n) row (dispatch n row))
                db.outbox_events rows (marked_id (times n) row (dispatch n row)) h.1)
    ]

-- A batch always ends normally, whatever the dispatcher throws, with the number of the events that
-- are due, at most a hundred of them and the earliest created first: each of these is leased, and
-- then, one after the other, marked by the outcome of its dispatch; nothing else is written.
pub process_batch_ends :
    (dispatch : Dispatcher) (clock : Clock) (times : ℕ → ℕ) (db : Db)
    → (process_batch dispatch clock times db ≡ (
      ok (length (due_events clock.db 100 db.outbox_events)),
      record db {
        outbox_events =
            after_rounds dispatch times 0
              (due_events clock.db 100 db.outbox_events)
              (leased clock (due_events clock.db 100 db.outbox_events) db.outbox_events);
      },
    ))
      × (length (due_events clock.db 100 db.outbox_events) ≤ 100)
unfolding process_batch process_claimed due_events
process_batch_ends dispatch clock times db =
    let table = db.outbox_events in
    let rows = due_events clock.db 100 table in
    (
      ap (process_claimed dispatch times) (claim_batch_result clock 100 db)
          ∙ ap (counted_rows (length rows)) (
              process_rows_ends dispatch times 0 rows _ (
                AreStored-update (λ (r : OutboxEvent). has ◌==◌ r.id (event_ids rows))
                  (set_next_attempt (some (clock.app + 30000))) table rows (λ r. refl)
                  (AreStored-take 100 table _ (
                    AreStored-sort table _
                      (AreStored-select (is_due clock.db) table table (AreStored-self table)))))),
      length-take 100 (sort_by_creation (select_rows (is_due clock.db) table)),
    )
