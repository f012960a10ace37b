-- ===== src/Tables/Calls.antt =====
-- Holds and reads of reservations one after another, as time goes on.
use govibe_core.Prelude.{refl, ℕ, ◌≤◌, List, [], ◌∷◌, length, arith, select_rows}
use govibe_core.Store.{Db, TableReservation}
use govibe_core.Tables.Repository.{is_active_hold, count_active}
use govibe_core.Tables.Reconcile.{get_owned_reservation}
use govibe_core.Tables.Hold.{HoldInput, HoldRuntime, create_hold}
use govibe_core.Tables.Keeps.{AreSingle, get_owned-AreSingle}
use govibe_core.Tables.Single.{create_hold-AreSingle}

-- A call of the service.
pub data TableCall : Type 0 where
  holding : HoldRuntime → HoldInput → TableCall
  reading : (id actor now : ℕ) → TableCall

abbrev pub time_of : TableCall → ℕ
time_of (holding runtime input) = runtime.now
time_of (reading id actor now) = now

unfoldable pub after_call : TableCall → Db → Db
after_call (holding runtime input) db = (create_hold runtime input db).1
after_call (reading id actor now) db = (get_owned_reservation id actor now db).1

unfoldable pub after_calls : List TableCall → Db → Db
after_calls [] db = db
after_calls (call ∷ calls) db = after_calls calls (after_call call db)

-- No call is before the time, or before the call that it follows.
abbrev pub AreInOrder : ℕ → List TableCall → Type 0
AreInOrder now [] = Unit
AreInOrder now (call ∷ calls) = (now ≤ time_of call) × AreInOrder (time_of call) calls

-- The time of the last call.
unfoldable pub last_time : ℕ → List TableCall → ℕ
last_time now [] = now
last_time now (call ∷ calls) = last_time (time_of call) calls

-- Fewer holds run later.
active_later :
    (now later table : ℕ) (rows : List TableReservation)
    → now ≤ later
    → length (select_rows (is_active_hold later table) rows)
      ≤ length (select_rows (is_active_hold now table) rows)
unfolding select_rows
active_later now later table [] h = omega arith
active_later now later table (row ∷ rows) h = ground (arith, h, active_later now later table rows h)

single_later : (now later : ℕ) (db : Db) → now ≤ later → AreSingle now db → AreSingle later db
unfolding count_active
single_later now later db h p table =
    omega (arith, p table, active_later now later table db.table_reservations h)

call_keeps :
    (call : TableCall) (db : Db)
    → AreSingle (time_of call) db
    → AreSingle (time_of call) (after_call call db)
unfolding after_call
call_keeps (holding runtime input) db p = create_hold-AreSingle runtime.now runtime refl input db p
call_keeps (reading id actor now) db p = get_owned-AreSingle now id actor now db p

-- Where at most one hold runs on every event table, this is so after every sequence of holds and of
-- reads of reservations whose times do not go back, at the time of the last.
pub after_calls-AreSingle :
    (now : ℕ) (calls : List TableCall) (db : Db)
    → AreInOrder now calls
    → AreSingle now db
    → AreSingle (last_time now calls) (after_calls calls db)
unfolding last_time after_calls
after_calls-AreSingle now [] db order p = p
after_calls-AreSingle now (call ∷ calls) db (h, order) p =
    after_calls-AreSingle (time_of call) calls (after_call call db) order
      (call_keeps call db (single_later now (time_of call) db h p))
