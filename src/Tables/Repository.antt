-- ===== src/Tables/Repository.antt =====
-- src/modules/tables/infrastructure/table-reservations.repository.ts, and what the holds use of
-- src/modules/tables/infrastructure/tables.repository.ts. The use case of a table reservation's key
-- is always tables.hold, so it is left out.
use govibe_core.Prelude.{
  ℕ, Bool, ◌&&◌, ◌||◌, Option, none, some, List, [], ◌∷◌, length, ltb, leb, ◌==◌, if◌then◌else◌,
  find_row, update_rows, select_rows,
}
use govibe_core.Store.{
  Db, TableReservation, TableReservationStatus, is_table_held, EventTable, EventTableStatus, Event,
  Organizer, VenueTable, Tx, modify, require, throw_if, is_some, ◌>>◌, unique_violation,
}

-- The unique key (actor, use case, key hash).
abbrev pub has_hold_key : ℕ → ℕ → TableReservation → Bool
has_hold_key actor key row = row.actor_user_id == actor && row.key_hash == key

unfoldable pub find_by_actor_and_idempotency : ℕ → ℕ → Db → Option TableReservation
find_by_actor_and_idempotency actor key db = find_row (has_hold_key actor key) db.table_reservations

abbrev pub holds_clash : TableReservation → TableReservation → Bool
holds_clash new row = row.id == new.id || has_hold_key new.actor_user_id new.key_hash row

abbrev pub with_table_reservation : TableReservation → Db → Db
with_table_reservation row db = record db { table_reservations = row ∷ db.table_reservations }

-- `create`
unfoldable pub create_table_reservation : TableReservation → Tx (Unit {0})
create_table_reservation row db =
    (throw_if (is_some (find_row (holds_clash row) db.table_reservations)) unique_violation
        >> modify (with_table_reservation row))
      db

-- TableReservationViewRecord: a reservation with its event table.
pub record HeldTable : Type 0 where
  pub reservation : TableReservation
  pub event_table : EventTable

abbrev pub with_event_table : Option EventTable → TableReservation → Option HeldTable
with_event_table none row = none
with_event_table (some table) row = some (record { reservation = row; event_table = table })

unfoldable pub find_event_table : ℕ → Db → Option EventTable
find_event_table id db = find_row (λ (t : EventTable). t.id == id) db.event_tables

abbrev pub joined_reservation : Db → Option TableReservation → Option HeldTable
joined_reservation db none = none
joined_reservation db (some row) = with_event_table (find_event_table row.event_table_id db) row

-- `findOwnedReservation`; a reservation has its event table by a foreign key.
unfoldable pub find_owned_reservation : ℕ → ℕ → Db → Option HeldTable
find_owned_reservation id actor db = joined_reservation db (
    find_row (λ (r : TableReservation). r.id == id && r.actor_user_id == actor)
      db.table_reservations)

-- A hold of the event table that has run out.
abbrev pub is_stale : ℕ → ℕ → TableReservation → Bool
is_stale now table row =
    row.event_table_id == table && (is_table_held row.status && leb row.hold_expires_at now)

-- A hold of the event table that runs.
abbrev pub is_active_hold : ℕ → ℕ → TableReservation → Bool
is_active_hold now table row =
    row.event_table_id == table && (is_table_held row.status && ltb now row.hold_expires_at)

-- `orderBy: { holdExpiresAt: 'asc' }`
unfoldable pub insert_hold : TableReservation → List TableReservation → List TableReservation
insert_hold row [] = row ∷ []
insert_hold row (r ∷ rs) =
    let rest = insert_hold row rs in
    if leb row.hold_expires_at r.hold_expires_at then row ∷ r ∷ rs else r ∷ rest

unfoldable pub sort_holds : List TableReservation → List TableReservation
sort_holds [] = []
sort_holds (r ∷ rs) = insert_hold r (sort_holds rs)

-- `findExpiredHeldByEventTable`
unfoldable pub find_expired_held : ℕ → ℕ → Db → List TableReservation
find_expired_held table now db = sort_holds (select_rows (is_stale now table) db.table_reservations)

abbrev pub later_of : TableReservation → Option TableReservation → Option TableReservation
later_of r none = some r
later_of r (some s) = if ltb r.hold_expires_at s.hold_expires_at then some s else some r

-- The first row by `orderBy: { holdExpiresAt: 'desc' }`.
unfoldable pub latest : List TableReservation → Option TableReservation
latest [] = none
latest (r ∷ rs) = later_of r (latest rs)

-- `findLatestActiveHeldReservationForEventTable`
unfoldable pub find_latest_active : ℕ → ℕ → Db → Option TableReservation
find_latest_active table now db =
    latest (select_rows (is_active_hold now table) db.table_reservations)

-- `countActiveHeldReservationsForEventTable`
unfoldable pub count_active : ℕ → ℕ → Db → ℕ
count_active table now db = length (select_rows (is_active_hold now table) db.table_reservations)

abbrev pub is_reservation : ℕ → TableReservation → Bool
is_reservation id row = row.id == id

abbrev pub as_expired : ℕ → TableReservation → TableReservation
as_expired now row = record row { status = TableReservationStatus.expired; expired_at = some now }

-- `markExpired`
unfoldable pub mark_expired : ℕ → ℕ → Tx (Unit {0})
mark_expired id now db =
    (require (is_some (find_row (is_reservation id) db.table_reservations))
        >> modify (λ d. record d {
          table_reservations =
              update_rows (is_reservation id) (as_expired now) d.table_reservations;
        }))
      db

-- EventTableStateRecord
pub record TableState : Type 0 where
  pub status : EventTableStatus
  pub hold_expires_at : Option ℕ

abbrev pub state_of : Option EventTable → Option TableState
state_of none = none
state_of (some t) = some (record { status = t.status; hold_expires_at = t.hold_expires_at })

-- `findEventTableState`
unfoldable pub find_event_table_state : ℕ → Db → Option TableState
find_event_table_state id db = state_of (find_event_table id db)

abbrev pub in_state : TableState → EventTable → EventTable
in_state state row = record row { status = state.status; hold_expires_at = state.hold_expires_at }

-- `updateEventTableState`
unfoldable pub update_event_table_state : ℕ → TableState → Tx (Unit {0})
update_event_table_state id state db =
    (require (is_some (find_event_table id db))
        >> modify (λ d. record d {
          event_tables =
              update_rows (λ (t : EventTable). t.id == id) (in_state state) d.event_tables;
        }))
      db

-- LockedEventTableRecord
pub record LockedTable : Type 0 where
  pub table : EventTable
  pub organizer : Organizer
  pub event : Event
  pub venue_table : VenueTable

abbrev pub locked_of :
    EventTable → Option Organizer → Option Event → Option VenueTable → Option LockedTable
locked_of t (some o) (some e) (some v) =
    some (record { table = t; organizer = o; event = e; venue_table = v })
locked_of t _ _ _ = none

abbrev pub with_relations : Db → Option EventTable → Option LockedTable
with_relations db none = none
with_relations db (some t) =
    locked_of t (find_row (λ (o : Organizer). o.id == t.organizer_id) db.organizers)
      (find_row (λ (e : Event). e.id == t.event_id) db.events)
      (find_row (λ (v : VenueTable). v.id == t.venue_table_id) db.venue_tables)

-- `findLockedEventTableDetails`; an event table has its relations by foreign keys.
unfoldable pub find_locked_details : ℕ → Db → Option LockedTable
find_locked_details id db = with_relations db (find_event_table id db)
