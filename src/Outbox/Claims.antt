-- ===== src/Outbox/Claims.antt =====
-- src/shared/outbox/outbox-claim.repository.ts: a batch of due events is claimed for thirty
-- seconds, and an event is marked as processed or as failed.
use govibe_core.Prelude.{
  ℕ, ◌+◌, ◌*◌, ◌^◌, min, String, Bool, true, not, ◌&&◌, ◌||◌, Option, none, some, List, [], ◌∷◌,
  leb, ◌==◌, if◌then◌else◌, find_row, update_rows, select_rows, take, map,
}
use govibe_core.Store.{
  Clock, OutboxEvent, Tx, ◌>>◌, ◌>>=◌, pure, gets, modify, require, is_some, Call,
  run_in_transaction,
}
use govibe_core.LaunchControl.{has}

-- `next_attempt_at IS NULL OR next_attempt_at <= NOW()`
abbrev pub is_reached : ℕ → Option ℕ → Bool
is_reached now none = true
is_reached now (some t) = leb t now

-- `processed = false AND dead_lettered_at IS NULL AND …`
abbrev pub is_due : ℕ → OutboxEvent → Bool
is_due now row =
    not row.processed && (not (is_some row.dead_lettered_at) && is_reached now row.next_attempt_at)

-- `ORDER BY created_at ASC`
unfoldable pub insert_by_creation : OutboxEvent → List OutboxEvent → List OutboxEvent
insert_by_creation r [] = r ∷ []
insert_by_creation r (x ∷ xs) =
    let rest = insert_by_creation r xs in
    if leb r.created_at x.created_at then r ∷ x ∷ xs else x ∷ rest

unfoldable pub sort_by_creation : List OutboxEvent → List OutboxEvent
sort_by_creation [] = []
sort_by_creation (x ∷ xs) = insert_by_creation x (sort_by_creation xs)

-- The rows of the query, without those that another worker holds.
unfoldable pub due_events : ℕ → ℕ → List OutboxEvent → List OutboxEvent
due_events now limit rows = take limit (sort_by_creation (select_rows (is_due now) rows))

abbrev pub event_ids : List OutboxEvent → List ℕ
event_ids rows = map (λ (r : OutboxEvent). r.id) rows

abbrev pub set_next_attempt : Option ℕ → OutboxEvent → OutboxEvent
set_next_attempt t row = record row { next_attempt_at = t }

-- `claimBatch`; the rows come back as they were read.
unfoldable pub claim_batch_tx : Clock → ℕ → Tx (List OutboxEvent)
unfolding due_events
claim_batch_tx clock limit = do
  rows ← gets (λ db. due_events clock.db limit db.outbox_events)
  modify (λ db. record db {
    outbox_events =
        update_rows (λ (r : OutboxEvent). has ◌==◌ r.id (event_ids rows))
          (set_next_attempt (some (clock.app + 30000))) db.outbox_events;
  })
  pure rows

unfoldable pub claim_batch : Clock → ℕ → Call (List OutboxEvent)
claim_batch clock limit = run_in_transaction (claim_batch_tx clock limit)

abbrev pub find_event : ℕ → List OutboxEvent → Option OutboxEvent
find_event id rows = find_row (λ r. r.id == id) rows

-- `outboxEvent.update`, by primary key.
unfoldable pub update_event : ℕ → (OutboxEvent → OutboxEvent) → Call (Unit {0})
update_event id f = run_in_transaction (λ db.
    (require (is_some (find_event id db.outbox_events))
        >> modify
            (λ d. record d { outbox_events = update_rows (λ r. r.id == id) f d.outbox_events }))
      db)

abbrev pub as_processed : ℕ → OutboxEvent → OutboxEvent
as_processed now row = record row {
  processed = true;
  processed_at = some now;
  next_attempt_at = none;
  last_error_code = none;
  dead_lettered_at = none;
}

unfoldable pub mark_processed : ℕ → ℕ → Call (Unit {0})
unfolding update_event
mark_processed now id = update_event id (as_processed now)

pub record Failure : Type 0 where
  pub retry_count : ℕ
  pub error_code : String
  pub retryable : Bool

-- `!input.retryable || input.retryCount >= 10`
abbrev pub is_dead_letter : Failure → Bool
is_dead_letter f = not f.retryable || leb 10 f.retry_count

-- `Math.min(300, 2 ** Math.min(input.retryCount, 8))`
unfoldable pub delay_seconds : ℕ → ℕ
delay_seconds retry_count = min 300 (2 ^ min retry_count 8)

unfoldable pub as_failed : ℕ → Failure → OutboxEvent → OutboxEvent
unfolding delay_seconds
as_failed now f row = record row {
  retry_count = f.retry_count;
  last_error_code = some f.error_code;
  next_attempt_at =
      (if is_dead_letter f then none else some (now + delay_seconds f.retry_count * 1000));
  dead_lettered_at = (if is_dead_letter f then some now else none);
}

unfoldable pub mark_failure : ℕ → ℕ → Failure → Call (Unit {0})
unfolding update_event as_failed
mark_failure now id f = update_event id (as_failed now f)
