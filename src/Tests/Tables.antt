-- ===== src/Tests/Tables.antt =====
-- Holds of a table at concrete inputs: a hold, and another user's while it runs.
use govibe_core.Prelude.{ℕ, ◌≡◌, refl, none, [], ◌∷◌, arith, find_row, select_rows, update_rows}
use govibe_core.Store.{
  Db, Organizer, OrganizerStatus, VenueTable, VenueTableStatus, EventTable, EventTableStatus, err,
  conflict, ◌>>=◌,
}
use govibe_core.Tables.Repository.{
  find_event_table, find_locked_details, find_by_actor_and_idempotency, find_owned_reservation,
  create_table_reservation, find_event_table_state, find_expired_held, sort_holds, insert_hold,
  latest, find_latest_active, count_active, update_event_table_state,
}
use govibe_core.Tables.Audit.{append_table_audit}
use govibe_core.Tables.Reconcile.{
  next_state, store_state, reconcile_from, mark_all_expired, log_all_expired, expire_stale_from,
  expire_stale,
}
use govibe_core.Tables.Eligible.{assert_hold_eligible, hold_duration_seconds}
use govibe_core.Tables.Hold.{
  HoldInput, HoldRuntime, checked_details, announce_hold, after_insert, insert_hold_row, place_hold,
  hold_by, create_hold_tx, rejection_of, after_error, after_hold, create_hold,
}
use govibe_core.Tables.Keeps.{AreSingle}
use govibe_core.Tables.Calls.{holding, reading, after_calls, last_time, after_calls-AreSingle}
use govibe_core.Tests.Fixtures.{shop}

abbrev host : Organizer
host = record { id = 3; owner_user_id = 8; status = OrganizerStatus.approved }

abbrev booth : VenueTable
booth = record { id = 50; organizer_id = 3; status = VenueTableStatus.active }

abbrev booth_at_gala : EventTable
booth_at_gala = record {
  id = 51;
  organizer_id = 3;
  event_id = 1;
  venue_table_id = 50;
  status = EventTableStatus.available;
  price_minor = 20000;
  currency = "GHS";
  hold_expires_at = none;
}

abbrev lounge : Db
lounge = record shop {
  organizers = host ∷ [];
  venue_tables = booth ∷ [];
  event_tables = booth_at_gala ∷ [];
}

abbrev at_time : ℕ → ℕ → HoldRuntime
at_time now id = record {
  trim = λ s. s;
  hash_key = λ key. 1;
  hash_request = λ event_id event_table_id. 2;
  duration = none;
  now = now;
  reservation_id = id;
}

abbrev asked_by : ℕ → HoldInput
asked_by user = record {
  actor_user_id = user;
  event_id = 1;
  event_table_id = 51;
  idempotency_key = "k";
}

abbrev taken : Db
taken = (create_hold (at_time 1000 60) (asked_by 5) lounge).1

second_hold_is_refused :
    (create_hold (at_time 2000 61) (asked_by 6) taken).0 ≡ err (conflict "table is already held")
unfolding create_hold create_hold_tx ◌>>=◌ find_event_table find_row find_locked_details
    checked_details assert_hold_eligible find_by_actor_and_idempotency hold_by place_hold
    expire_stale find_event_table_state expire_stale_from find_expired_held sort_holds insert_hold
    select_rows mark_all_expired reconcile_from find_latest_active latest next_state store_state
    log_all_expired count_active insert_hold_row create_table_reservation after_insert announce_hold
    hold_duration_seconds update_event_table_state update_rows append_table_audit
    find_owned_reservation after_hold rejection_of after_error
second_hold_is_refused = refl

lounge-AreSingle : AreSingle 1000 lounge
unfolding count_active select_rows
lounge-AreSingle table = omega arith

after_calls-AreSingle_example :
    AreSingle
      (last_time 1000 (
        holding (at_time 1000 60) (asked_by 5)
        ∷ reading 60 5 1500
        ∷ holding (at_time 2000 61) (asked_by 6)
        ∷ []))
      (after_calls
        (holding (at_time 1000 60) (asked_by 5)
          ∷ reading 60 5 1500
          ∷ holding (at_time 2000 61) (asked_by 6)
          ∷ [])
        lounge)
after_calls-AreSingle_example =
    after_calls-AreSingle 1000
      (holding (at_time 1000 60) (asked_by 5)
        ∷ reading 60 5 1500
        ∷ holding (at_time 2000 61) (asked_by 6)
        ∷ [])
      lounge (omega arith, (omega arith, (omega arith, tt))) lounge-AreSingle
