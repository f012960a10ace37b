-- ===== src/Tables/Hold.antt =====
-- `createHold` of src/modules/tables/application/table-reservations.service.ts, with the hashes of
-- src/modules/tables/application/table-idempotency.service.ts as arguments.
use govibe_core.Prelude.{
  ℕ, ◌+◌, ◌*◌, String, not, Option, none, some, ltb, ◌==◌, text_eq, if◌then◌else◌,
}
use govibe_core.Store.{
  Db, TableAudit, TableReservation, TableReservationStatus, EventTableStatus, Error, hold_rejection,
  bad_request, forbidden, conflict, not_found, Result, ok, err, Tx, pure, throw, gets, or_throw,
  throw_if, in_aborted, ◌>>=◌, ◌>>◌, Call, run_in_transaction,
}
use govibe_core.Context.{JsNumber}
use govibe_core.Tables.Repository.{
  HeldTable, LockedTable, find_event_table, find_locked_details, find_by_actor_and_idempotency,
  find_owned_reservation, count_active, create_table_reservation, update_event_table_state,
}
use govibe_core.Tables.Audit.{
  append_table_audit, with_table_audit, hold_created, reservation_rejected,
}
use govibe_core.Tables.Reconcile.{expire_stale}
use govibe_core.Tables.Eligible.{rejected, assert_hold_eligible, hold_duration_seconds}
use govibe_core.Webhooks.Receive.{is_duplicate_error}

-- The input of `createHold`.
pub record HoldInput : Type 0 where
  pub actor_user_id : ℕ
  pub event_id : ℕ
  pub event_table_id : ℕ
  pub idempotency_key : String

-- What the service is given: `trim`, the hash of a key, the hash of a request, the setting of the
-- duration, the clock, and the id that the database draws.
pub record HoldRuntime : Type 0 where
  pub trim : String → String
  pub hash_key : String → ℕ
  pub hash_request : (event_id event_table_id : ℕ) → ℕ
  pub duration : Option JsNumber
  pub now : ℕ
  pub reservation_id : ℕ

-- The table of the request, with its details.
unfoldable pub checked_details : HoldInput → Option LockedTable → Tx LockedTable
checked_details input none =
    throw (hold_rejection 404 "event table not found" "event_table_not_found" none none)
checked_details input (some found) = do
  throw_if (not (found.table.event_id == input.event_id))
      (rejected found 404 "event table not found" "event_table_not_found")
  pure found

abbrev pub key_of : HoldRuntime → HoldInput → ℕ
key_of runtime input = runtime.hash_key (runtime.trim input.idempotency_key)

abbrev pub request_hash_of : HoldRuntime → HoldInput → ℕ
request_hash_of runtime input = runtime.hash_request input.event_id input.event_table_id

-- The replay of a key.
unfoldable pub replay_hold : HoldRuntime → HoldInput → LockedTable → TableReservation → Tx HeldTable
replay_hold runtime input found existing = do
  throw_if (not (existing.fingerprint_hash == request_hash_of runtime input)) (
      rejected found 409 "idempotency key reused with different payload"
        "idempotency_fingerprint_mismatch")
  expire_stale found.table.id runtime.now
  replay ← gets (find_owned_reservation existing.id input.actor_user_id)
  or_throw replay (not_found "table reservation not found")

-- The row that is created.
abbrev pub new_hold : HoldRuntime → HoldInput → LockedTable → TableReservation
new_hold runtime input found = record {
  id = runtime.reservation_id;
  actor_user_id = input.actor_user_id;
  organizer_id = found.table.organizer_id;
  event_id = found.table.event_id;
  event_table_id = found.table.id;
  status = TableReservationStatus.held;
  amount_minor = found.table.price_minor;
  currency = found.table.currency;
  key_hash = key_of runtime input;
  fingerprint_hash = request_hash_of runtime input;
  hold_expires_at = runtime.now + hold_duration_seconds runtime.duration * 1000;
  expired_at = none;
}

-- The writes that follow the row, and the answer.
unfoldable pub announce_hold : HoldRuntime → HoldInput → LockedTable → Tx HeldTable
announce_hold runtime input found = do
  let row = new_hold runtime input found
  update_event_table_state found.table.id
      (record { status = EventTableStatus.held; hold_expires_at = some row.hold_expires_at })
  append_table_audit (hold_created found.table row)
  reservation ← gets (find_owned_reservation row.id input.actor_user_id)
  or_throw reservation (not_found "table reservation not found")

abbrev key_conflict : LockedTable → Error
key_conflict found =
    rejected found 409 "idempotency key reused with different payload" "idempotency_conflict"

abbrev owned_replay : HoldInput → Db → TableReservation → Option HeldTable
owned_replay input db row = find_owned_reservation row.id input.actor_user_id db

-- The reservation of the key, where it is of this request.
abbrev same_request : HoldRuntime → HoldInput → Db → Option TableReservation → Option HeldTable
same_request runtime input db none = none
same_request runtime input db (some row) =
    if row.fingerprint_hash == request_hash_of runtime input
    then owned_replay input db row
    else none

-- The `catch` of the insert, which has aborted the transaction.
unfoldable pub recover_hold : HoldRuntime → HoldInput → LockedTable → Tx HeldTable
recover_hold runtime input found = do
  replay ← in_aborted (
      gets (λ db.
        same_request runtime input db
          (find_by_actor_and_idempotency input.actor_user_id (key_of runtime input) db)))
  or_throw replay (key_conflict found)

unfoldable pub after_insert :
    HoldRuntime → HoldInput → LockedTable → Db → Result (Unit {0} × Db) → Result (HeldTable × Db)
after_insert runtime input found before (ok (u, db)) = announce_hold runtime input found db
after_insert runtime input found before (err e) =
    if is_duplicate_error e then recover_hold runtime input found before else err e

unfoldable pub insert_hold_row : HoldRuntime → HoldInput → LockedTable → Tx HeldTable
insert_hold_row runtime input found db =
    after_insert runtime input found db (create_table_reservation (new_hold runtime input found) db)

-- A key that is new.
unfoldable pub place_hold : HoldRuntime → HoldInput → LockedTable → Tx HeldTable
place_hold runtime input found = do
  expire_stale found.table.id runtime.now
  active ← gets (count_active found.table.id runtime.now)
  throw_if (ltb 0 active) (rejected found 409 "table is already held" "table_already_held")
  insert_hold_row runtime input found

unfoldable pub hold_by :
    HoldRuntime → HoldInput → LockedTable → Option TableReservation → Tx HeldTable
hold_by runtime input found none = place_hold runtime input found
hold_by runtime input found (some existing) = replay_hold runtime input found existing

-- The transaction of `createHold`.
unfoldable pub create_hold_tx : HoldRuntime → HoldInput → Tx HeldTable
create_hold_tx runtime input = do
  locked ← gets (find_event_table input.event_table_id)
  table ←
      or_throw locked (hold_rejection 404 "event table not found" "event_table_not_found" none none)
  details ← gets (find_locked_details input.event_table_id)
  found ← checked_details input details
  assert_hold_eligible found runtime.now
  existing ← gets (find_by_actor_and_idempotency input.actor_user_id (key_of runtime input))
  hold_by runtime input found existing

-- `toHttpException`
abbrev pub to_http : ℕ → String → Error
to_http status_code message =
    if status_code == 403
    then forbidden message
    else if status_code == 404
    then not_found message
    else conflict message

-- What a rejection is answered with, and the audit row of it.
unfoldable pub rejection_of : HoldInput → Error → Option (Error × TableAudit)
rejection_of input (hold_rejection status_code message reason organizer venue_table) = some (
  to_http status_code message,
  reservation_rejected input.actor_user_id input.event_id input.event_table_id organizer venue_table
      reason,
)
rejection_of input _ = none

unfoldable pub after_error : Error → Option (Error × TableAudit) → Call HeldTable
after_error e none db = (err e, db)
after_error e (some (answer, row)) db = (err answer, with_table_audit row db)

-- The `catch` of `createHold`: the audit row of a rejection commits by itself.
unfoldable pub after_hold : HoldInput → Result HeldTable × Db → Result HeldTable × Db
after_hold input (ok view, db) = (ok view, db)
after_hold input (err e, db) = after_error e (rejection_of input e) db

-- `createHold`
unfoldable pub create_hold : HoldRuntime → HoldInput → Call HeldTable
create_hold runtime input db =
    if text_eq (runtime.trim input.idempotency_key) ""
    then (err (bad_request "idempotencyKey is required"), db)
    else after_hold input (run_in_transaction (create_hold_tx runtime input) db)
