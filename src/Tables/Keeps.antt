-- ===== src/Tables/Keeps.antt =====
-- What expiry and reconciliation keep: no event table is held twice.
use govibe_core.Prelude.{
  ◌≡◌, ℕ, ◌≤◌, Bool, false, ◌&&◌, Option, none, some, List, [], ◌∷◌, length, leb, arith, inl, inr,
  Bool-cases, update_rows, select_rows,
}
use govibe_core.Store.{
  Db, TableReservation, is_table_held, TableAudit, EventTableStatus, Post, Moves, Moves-bind,
  Moves-pure, Moves-gets, Moves-or_throw, Moves-if, Moves-modify, Moves-writes, Ends-run, ◌>>=◌,
}
use govibe_core.Tables.Repository.{
  TableState, is_active_hold, is_reservation, as_expired, count_active, mark_expired,
  update_event_table_state,
}
use govibe_core.Tables.Audit.{append_table_audit}
use govibe_core.Tables.Reconcile.{
  has_changed, store_state, next_state, reconcile_from, reconcile_table, mark_all_expired,
  log_all_expired, expire_stale_from, expire_stale, refresh_table, get_owned_tx,
  get_owned_reservation,
}

-- At this time every event table has at most one hold that runs.
abbrev pub AreSingle : ℕ → Db → Type 0
AreSingle now db = (table : ℕ) → count_active table now db ≤ 1

-- Rows that an update takes out of a selection do not make it longer.
length-select_rows-update_rows :
    {A : Type 0} (p q : A → Bool) (f : A → A) (xs : List A)
    → ((x : A) → p (f x) ≡ false)
    → length (select_rows p (update_rows q f xs)) ≤ length (select_rows p xs)
unfolding select_rows update_rows
length-select_rows-update_rows p q f [] out = omega arith
length-select_rows-update_rows p q f (x ∷ xs) out = elim (Bool-cases (q x)) [
  | inl e ↦ ground (arith, e, out x, length-select_rows-update_rows p q f xs out)
  | inr e ↦ ground (arith, e, length-select_rows-update_rows p q f xs out)
]

expired_inactive :
    (now at table : ℕ) (row : TableReservation)
    → is_active_hold now table (as_expired at row) ≡ false
expired_inactive now at table row = ground arith

module _ (now : ℕ) where
  abbrev P : Db → Type 0
  P = AreSingle now

  abbrev with_expired : ℕ → ℕ → Db → Db
  with_expired id at db = record db {
    table_reservations = update_rows (is_reservation id) (as_expired at) db.table_reservations;
  }

  mark_expired_writes :
      (id at : ℕ) (db : Db) → Post (mark_expired id at db) (λ _ db'. db' ≡ with_expired id at db)
  unfolding mark_expired ◌>>=◌
  mark_expired_writes id at db = ground arith

  mark_expired-Moves : (id at : ℕ) → Moves P P (mark_expired id at)
  unfolding count_active
  mark_expired-Moves id at =
      Moves-writes (with_expired id at) (mark_expired_writes id at) (λ d p table. omega (
        arith,
        p table,
        length-select_rows-update_rows (is_active_hold now table) (is_reservation id)
            (as_expired at) d.table_reservations (expired_inactive now at table),
      ))

  pub append-Moves : (row : TableAudit) → Moves P P (append_table_audit row)
  unfolding append_table_audit count_active
  append-Moves row = Moves-modify (λ d p. p)

  pub update_state-Moves :
      (table : ℕ) (state : TableState) → Moves P P (update_event_table_state table state)
  unfolding update_event_table_state count_active ◌>>=◌
  update_state-Moves table state = record { at = λ db p. ground (arith, p) }

  reconcile_from-Moves :
      (table at : ℕ) (state : TableState) → Moves P P (reconcile_from table at state)
  unfolding reconcile_from store_state
  reconcile_from-Moves table at state = Moves-bind Moves-gets (λ hold.
      Moves-if (has_changed state (next_state state hold))
        (Moves-bind (update_state-Moves table _) (λ _. Moves-pure)) Moves-pure)

  mark_all-Moves : (at : ℕ) (rows : List TableReservation) → Moves P P (mark_all_expired at rows)
  unfolding mark_all_expired
  mark_all-Moves at [] = Moves-pure
  mark_all-Moves at (row ∷ rows) =
      Moves-bind (mark_expired-Moves row.id at) (λ _. mark_all-Moves at rows)

  log_all-Moves :
      (at : ℕ) (previous next : EventTableStatus) (rows : List TableReservation)
      → Moves P P (log_all_expired at previous next rows)
  unfolding log_all_expired
  log_all-Moves at previous next [] = Moves-pure
  log_all-Moves at previous next (row ∷ rows) =
      Moves-bind (append-Moves _) (λ _. log_all-Moves at previous next rows)

  expire_from-Moves :
      (table at : ℕ) (state : Option TableState) → Moves P P (expire_stale_from table at state)
  unfolding expire_stale_from
  expire_from-Moves table at none = Moves-pure
  expire_from-Moves table at (some state) = Moves-bind Moves-gets (λ expired.
      Moves-bind (mark_all-Moves at expired) (λ _.
        Moves-bind (reconcile_from-Moves table at state)
          (λ next. log_all-Moves at state.status next.status expired)))

  pub expire_stale-Moves : (table at : ℕ) → Moves P P (expire_stale table at)
  unfolding expire_stale
  expire_stale-Moves table at = Moves-bind Moves-gets (λ state. expire_from-Moves table at state)

  refresh-Moves : (at : ℕ) (row : TableReservation) → Moves P P (refresh_table at row)
  unfolding refresh_table reconcile_table
  refresh-Moves at row =
      Moves-if (is_table_held row.status && leb row.hold_expires_at at)
        (expire_stale-Moves row.event_table_id at)
        (Moves-bind
          (Moves-bind Moves-gets (λ found.
            Moves-bind (Moves-or_throw _ _)
              (λ state. reconcile_from-Moves row.event_table_id at state)))
          (λ _. Moves-pure))

  -- A read of a reservation, at whatever time, keeps the holds single.
  pub get_owned-AreSingle :
      (id actor at : ℕ) (db : Db)
      → AreSingle now db
      → AreSingle now (get_owned_reservation id actor at db).1
  unfolding get_owned_reservation get_owned_tx
  get_owned-AreSingle id actor at =
      (Ends-run {P = P} {Q = P} (λ d p. p)
        (Moves-bind Moves-gets (λ found. Moves-bind (Moves-or_throw found _) (λ existing.
          Moves-bind (refresh-Moves at existing.reservation)
            (λ _. Moves-bind Moves-gets (λ again. Moves-or_throw again _)))))).at
