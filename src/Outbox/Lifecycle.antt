-- ===== src/Outbox/Lifecycle.antt =====
-- An event's phases, and a round of the processor as a step between them; a batch goes on to its
-- end.
use govibe_core.Prelude.{
  ℕ, ◌+◌, ◌≡◌, refl, ap, ◌∙◌, false, ◌&&◌, Option, none, some, List, arith, ltb, ◌==◌,
  if◌then◌else◌, update_rows, find_row-update_rows, find_row_sound,
}
use govibe_core.Store.{Db, OutboxEvent, ok, is_some, ◌>>=◌}
use govibe_core.Outbox.Claims.{
  find_event, update_event, as_processed, mark_processed, as_failed, mark_failure,
}
use govibe_core.Outbox.Processor.{
  DispatchError, is_retryable, failure_of, fail_event, after_mark, deliver,
}

-- The life of an event: it waits, with its number of failures, until it is delivered or given up.
pub data Phase : Type 0 where
  waiting : (failures : ℕ) → Phase
  delivered given_up : Phase

unfoldable pub phase_of : OutboxEvent → Phase
phase_of row =
    if row.processed
    then delivered
    else if is_some row.dead_lettered_at
    then given_up
    else waiting row.retry_count

-- An attempt at an event that has failed a number of times.
unfoldable pub next_phase : ℕ → Option DispatchError → Phase
next_phase failures none = delivered
next_phase failures (some e) =
    if is_retryable e && ltb (failures + 1) 10 then waiting (failures + 1) else given_up

-- An update of an event that is stored.
update_event_stored :
    (id : ℕ) (f : OutboxEvent → OutboxEvent) (db : Db) (stored : OutboxEvent)
    → find_event id db.outbox_events ≡ some stored
    → update_event id f db
      ≡ (ok tt, record db { outbox_events = update_rows (λ r. r.id == id) f db.outbox_events })
unfolding update_event ◌>>=◌
update_event_stored id f db stored found = rw found refl

find_event-updated :
    (id : ℕ) (f : OutboxEvent → OutboxEvent) (rows : List OutboxEvent) (stored : OutboxEvent)
    → ((r : OutboxEvent) → (f r).id ≡ r.id)
    → find_event id rows ≡ some stored
    → find_event id (update_rows (λ r. r.id == id) f rows) ≡ some (f stored)
find_event-updated id f rows stored keep found = rw (
  find_row-update_rows (λ (r : OutboxEvent). r.id == id) (λ r. r.id == id) f rows
      (λ r. rw keep refl),
  found,
  find_row_sound (λ (r : OutboxEvent). r.id == id) rows found,
  if◌then◌else◌,
)

-- What a round makes of the row.
abbrev pub marked : ℕ → OutboxEvent → Option DispatchError → OutboxEvent → OutboxEvent
marked now row none stored = as_processed now stored
marked now row (some e) stored = as_failed now (failure_of row e) stored

pub marked_id :
    (now : ℕ) (row : OutboxEvent) (outcome : Option DispatchError) (r : OutboxEvent)
    → (marked now row outcome r).id ≡ r.id
unfolding as_failed
marked_id now row none r = refl
marked_id now row (some e) r = refl

pub deliver_stored :
    (now : ℕ) (row : OutboxEvent) (outcome : Option DispatchError) (db : Db) (stored : OutboxEvent)
    → find_event row.id db.outbox_events ≡ some stored
    → deliver now row outcome db ≡ (
      ok tt,
      record db {
        outbox_events = update_rows (λ r. r.id == row.id) (marked now row outcome) db.outbox_events;
      },
    )
unfolding deliver mark_processed after_mark fail_event mark_failure
deliver_stored now row none db stored found =
    ap (after_mark now row) (update_event_stored row.id (as_processed now) db stored found)
deliver_stored now row (some e) db stored found =
    update_event_stored row.id (as_failed now (failure_of row e)) db stored found

phase_of-marked :
    (now : ℕ) (row : OutboxEvent) (outcome : Option DispatchError) (stored : OutboxEvent)
    → stored.processed ≡ false
    → phase_of (marked now row outcome stored) ≡ next_phase row.retry_count outcome
unfolding phase_of next_phase as_failed failure_of
phase_of-marked now row none stored h = refl
phase_of-marked now row (some e) stored h = ground arith

-- A round for an event that is stored and not processed ends normally, and takes it to the phase
-- that follows: delivered, given up at a lasting error or the tenth failure, or waiting.
pub deliver-next_phase :
    (now : ℕ) (row : OutboxEvent) (outcome : Option DispatchError) (db : Db) (stored : OutboxEvent)
    → find_event row.id db.outbox_events ≡ some stored
    → stored.processed ≡ false
    → ((deliver now row outcome db).0 ≡ ok tt)
      × (stored' : OutboxEvent) × (find_event row.id (deliver now row outcome db).1.outbox_events
          ≡ some stored')
      × (phase_of stored' ≡ next_phase row.retry_count outcome)
deliver-next_phase now row outcome db stored found open_row =
    let d = deliver_stored now row outcome db stored found in
    (
      ap (λ c. c.0) d,
      marked now row outcome stored,
      ap (λ c. find_event row.id c.1.outbox_events) d
          ∙ find_event-updated row.id (marked now row outcome) db.outbox_events stored
              (marked_id now row outcome) found,
      phase_of-marked now row outcome stored open_row,
    )
