-- ===== src/Tables/Reconcile.antt =====
-- `expireStaleHoldForEventTableWithinTx`, `reconcileEventTableStateWithinTx` and
-- `getOwnedReservation` of src/modules/tables/application/table-reservations.service.ts.
use govibe_core.Prelude.{
  ℕ, Bool, true, false, not, ◌&&◌, ◌||◌, Option, none, some, List, [], ◌∷◌, leb, ◌==◌,
  if◌then◌else◌,
}
use govibe_core.Store.{
  TableReservation, is_table_held, EventTableStatus, event_table_status_eq, Tx, pure, gets,
  or_throw, ◌>>=◌, ◌>>◌, Call, atomic, not_found,
}
use govibe_core.Tables.Repository.{
  HeldTable, TableState, find_event_table_state, find_expired_held, find_latest_active,
  find_owned_reservation, mark_expired, update_event_table_state,
}
use govibe_core.Tables.Audit.{append_table_audit, hold_expired}

-- The state of a table that no hold runs on.
abbrev pub released : TableState → EventTableStatus → TableState
released state EventTableStatus.held = record {
  status = EventTableStatus.available;
  hold_expires_at = none;
}
released state status = record { status = status; hold_expires_at = none }

-- The state that follows from the latest hold that runs.
unfoldable pub next_state : TableState → Option TableReservation → TableState
next_state state (some hold) = record {
  status = EventTableStatus.held;
  hold_expires_at = some hold.hold_expires_at;
}
next_state state none = released state state.status

abbrev pub same_time : Option ℕ → Option ℕ → Bool
same_time none none = true
same_time (some m) (some n) = m == n
same_time _ _ = false

-- `changed`
abbrev pub has_changed : TableState → TableState → Bool
has_changed state next =
    not (event_table_status_eq next.status state.status)
    || not (same_time next.hold_expires_at state.hold_expires_at)

-- The write of the state, where it has changed.
unfoldable pub store_state : ℕ → TableState → TableState → Tx TableState
store_state table state next =
    if has_changed state next then (update_event_table_state table next >> pure next) else pure next

-- `reconcileEventTableStateWithinTx`, from the state that it is given.
unfoldable pub reconcile_from : ℕ → ℕ → TableState → Tx TableState
reconcile_from table now state = do
  hold ← gets (find_latest_active table now)
  store_state table state (next_state state hold)

-- `reconcileEventTableStateWithinTx`, without a state.
unfoldable pub reconcile_table : ℕ → ℕ → Tx TableState
reconcile_table table now = do
  found ← gets (find_event_table_state table)
  state ← or_throw found (not_found "event table not found")
  reconcile_from table now state

unfoldable pub mark_all_expired : ℕ → List TableReservation → Tx (Unit {0})
mark_all_expired now [] = pure tt
mark_all_expired now (row ∷ rows) = mark_expired row.id now >> mark_all_expired now rows

unfoldable pub log_all_expired :
    ℕ → EventTableStatus → EventTableStatus → List TableReservation → Tx (Unit {0})
log_all_expired now previous next [] = pure tt
log_all_expired now previous next (row ∷ rows) =
    append_table_audit (hold_expired now previous next row)
    >> log_all_expired now previous next rows

-- `expireStaleHoldForEventTableWithinTx`, by the state of the table.
unfoldable pub expire_stale_from : ℕ → ℕ → Option TableState → Tx (Unit {0})
expire_stale_from table now none = pure tt
expire_stale_from table now (some state) = do
  expired ← gets (find_expired_held table now)
  mark_all_expired now expired
  next ← reconcile_from table now state
  log_all_expired now state.status next.status expired

unfoldable pub expire_stale : ℕ → ℕ → Tx (Unit {0})
expire_stale table now = do
  state ← gets (find_event_table_state table)
  expire_stale_from table now state

-- The repair that a read of a reservation makes.
unfoldable pub refresh_table : ℕ → TableReservation → Tx (Unit {0})
refresh_table now row =
    if is_table_held row.status && leb row.hold_expires_at now
    then expire_stale row.event_table_id now
    else (reconcile_table row.event_table_id now >>= λ _. pure tt)

unfoldable pub get_owned_tx : ℕ → ℕ → ℕ → Tx HeldTable
get_owned_tx id actor now = do
  found ← gets (find_owned_reservation id actor)
  existing ← or_throw found (not_found "table reservation not found")
  refresh_table now existing.reservation
  again ← gets (find_owned_reservation id actor)
  or_throw again (not_found "table reservation not found")

-- `getOwnedReservation`
unfoldable pub get_owned_reservation : ℕ → ℕ → ℕ → Call HeldTable
get_owned_reservation id actor now = atomic (get_owned_tx id actor now)
