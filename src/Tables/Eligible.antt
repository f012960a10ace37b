-- ===== src/Tables/Eligible.antt =====
-- `assertHoldEligible` and `resolveHoldDurationSeconds` of
-- src/modules/tables/application/table-reservations.service.ts.
use govibe_core.Prelude.{ℕ, String, not, ◌||◌, Option, none, some, leb, ltb, ◌==◌, if◌then◌else◌}
use govibe_core.Store.{
  is_published, is_open_to_all, is_approved, is_table_active, EventTableStatus,
  event_table_status_eq, Error, hold_rejection, Tx, throw_if, ◌>>◌,
}
use govibe_core.Context.{JsNumber, nat, other}
use govibe_core.Tables.Repository.{LockedTable}

-- A rejection of a table that is found.
abbrev pub rejected : LockedTable → ℕ → (message reason : String) → Error
rejected found status_code message reason =
    hold_rejection status_code message reason (some found.table.organizer_id)
      (some found.table.venue_table_id)

-- `assertHoldEligible`
unfoldable pub assert_hold_eligible : LockedTable → ℕ → Tx (Unit {0})
assert_hold_eligible found now = do
  throw_if (not (is_published found.event.status))
      (rejected found 403 "event is not available for table holds" "event_not_published")
  throw_if (leb found.event.ends_at now) (rejected found 403 "event has ended" "event_ended")
  throw_if (not (is_open_to_all found.event.visibility))
      (rejected found 403 "event is not customer facing" "event_not_customer_facing")
  throw_if (not (is_approved found.organizer.status))
      (rejected found 403 "organizer is not approved" "organizer_not_approved")
  throw_if (not (found.venue_table.organizer_id == found.table.organizer_id))
      (rejected found 409 "venue table organizer mismatch" "venue_table_organizer_mismatch")
  throw_if (not (found.event.organizer_id == found.table.organizer_id))
      (rejected found 409 "event organizer mismatch" "event_organizer_mismatch")
  throw_if (not (is_table_active found.venue_table.status))
      (rejected found 409 "venue table is unavailable" "venue_table_unavailable")
  throw_if (event_table_status_eq found.table.status EventTableStatus.unavailable)
      (rejected found 409 "event table is unavailable" "event_table_unavailable")

-- `resolveHoldDurationSeconds`, of the number that the setting converts to, where it is set.
unfoldable pub hold_duration_seconds : Option JsNumber → ℕ
hold_duration_seconds none = 600
hold_duration_seconds (some other) = 600
hold_duration_seconds (some (nat n)) = if ltb n 60 || ltb 1800 n then 600 else n
