-- ===== src/Tables/Single.antt =====
-- No event table is held twice.
use govibe_core.Prelude.{
  ◌≡◌, subst, ℕ, Bool, true, false, Option, none, some, length, ltb, arith, inl, inr, Bool-cases,
  if◌then◌else◌, find_row, select_rows, is_some, text_eq,
}
use govibe_core.Store.{
  Db, TableReservation, TableAudit, Error, Result, ok, err, Post, Post-gets, Post-throw_if, Moves,
  Moves-bind, Moves-pure, Moves-gets, Moves-or_throw, Moves-throw_if, Moves-throw, commit-keeps,
  ◌>>=◌, ◌>>◌, throw_if, modify, unique_violation, run_in_transaction,
}
use govibe_core.Tables.Repository.{
  HeldTable, LockedTable, is_active_hold, count_active, create_table_reservation,
  with_table_reservation, holds_clash,
}
use govibe_core.Tables.Eligible.{assert_hold_eligible}
use govibe_core.Tables.Hold.{
  HoldInput, HoldRuntime, checked_details, replay_hold, new_hold, announce_hold, recover_hold,
  after_insert, insert_hold_row, place_hold, hold_by, create_hold_tx, rejection_of, after_error,
  after_hold, create_hold,
}
use govibe_core.Tables.Keeps.{AreSingle, append-Moves, update_state-Moves, expire_stale-Moves}

module _ (now : ℕ) where
  abbrev P : Db → Type 0
  P = AreSingle now

  replay-Moves :
      (runtime : HoldRuntime) (input : HoldInput) (found : LockedTable)
      (existing : TableReservation)
      → Moves P P (replay_hold runtime input found existing)
  unfolding replay_hold
  replay-Moves runtime input found existing = Moves-bind (Moves-throw_if _ _) (λ _.
      Moves-bind (expire_stale-Moves now _ _)
        (λ _. Moves-bind Moves-gets (λ replay. Moves-or_throw replay _)))

  announce-Moves :
      (runtime : HoldRuntime) (input : HoldInput) (found : LockedTable)
      → Moves P P (announce_hold runtime input found)
  unfolding announce_hold
  announce-Moves runtime input found = Moves-bind (update_state-Moves now _ _) (λ _.
      Moves-bind (append-Moves now _)
        (λ _. Moves-bind Moves-gets (λ reservation. Moves-or_throw reservation _)))

  recover-Moves :
      (runtime : HoldRuntime) (input : HoldInput) (found : LockedTable)
      → Moves P P (recover_hold runtime input found)
  unfolding recover_hold
  recover-Moves runtime input found = Moves-bind Moves-throw (λ replay. Moves-or_throw replay _)

  of_table :
      (table : ℕ) (row : TableReservation)
      → is_active_hold now table row ≡ true
      → row.event_table_id ≡ table
  of_table table row h = ground (arith, h)

  -- A row of a table that has no running hold.
  with_row-AreSingle :
      (row : TableReservation) (db : Db)
      → ltb 0 (count_active row.event_table_id now db) ≡ false
      → AreSingle now db
      → AreSingle now (with_table_reservation row db)
  unfolding count_active select_rows
  with_row-AreSingle row db free p table = elim (Bool-cases (is_active_hold now table row)) [
    | inr e ↦ ground (arith, e, p table)
    | inl e ↦ ground (
      arith,
      e,
      subst (λ t. ltb 0 (length (select_rows (is_active_hold now t) db.table_reservations)) ≡ false)
          (of_table table row e) free,
    )
  ]

  insert-AreSingle :
      (runtime : HoldRuntime) (input : HoldInput) (found : LockedTable) (db : Db)
      → ltb 0 (count_active found.table.id now db) ≡ false
      → AreSingle now db
      → Post (insert_hold_row runtime input found db) (λ _ d. P d)
  unfolding insert_hold_row create_table_reservation after_insert ◌>>=◌ announce_hold
  insert-AreSingle runtime input found db free p =
      go (is_some (find_row (holds_clash (new_hold runtime input found)) db.table_reservations))
    where
      go :
          (clash : Bool)
          → Post
              (after_insert runtime input found db (
                (throw_if clash unique_violation
                    >> modify (with_table_reservation (new_hold runtime input found)))
                  db))
              (λ _ d. P d)
      go true = (recover-Moves runtime input found).at db p
      go false =
          (announce-Moves runtime input found).at _
            (with_row-AreSingle (new_hold runtime input found) db free p)

  check-Moves :
      (input : HoldInput) (details : Option LockedTable) → Moves P P (checked_details input details)
  unfolding checked_details
  check-Moves input none = Moves-throw
  check-Moves input (some found) = Moves-bind (Moves-throw_if _ _) (λ _. Moves-pure)

  eligible-Moves : (found : LockedTable) (at : ℕ) → Moves P P (assert_hold_eligible found at)
  unfolding assert_hold_eligible
  eligible-Moves found at = Moves-bind (Moves-throw_if _ _) (λ _.
      Moves-bind (Moves-throw_if _ _) (λ _. Moves-bind (Moves-throw_if _ _) (λ _.
        Moves-bind (Moves-throw_if _ _) (λ _. Moves-bind (Moves-throw_if _ _) (λ _.
          Moves-bind (Moves-throw_if _ _)
            (λ _. Moves-bind (Moves-throw_if _ _) (λ _. Moves-throw_if _ _)))))))

  module _ (runtime : HoldRuntime) (on_time : runtime.now ≡ now) (input : HoldInput) where
    place-Moves : (found : LockedTable) → Moves P P (place_hold runtime input found)
    unfolding place_hold
    place-Moves found = Moves-bind (expire_stale-Moves now _ _) (λ _. record {
      at = λ d p.
          Post-gets (λ _ d. P d) _ _ d
            (Post-throw_if (λ _ d. P d) _ _ _ d
              (λ free.
                insert-AreSingle runtime input found d
                  (subst (λ t. ltb 0 (count_active found.table.id t d) ≡ false) on_time free) p));
    })

    hold_by-Moves :
        (found : LockedTable) (existing : Option TableReservation)
        → Moves P P (hold_by runtime input found existing)
    unfolding hold_by
    hold_by-Moves found none = place-Moves found
    hold_by-Moves found (some existing) = replay-Moves runtime input found existing

    create_tx-Moves : Moves P P (create_hold_tx runtime input)
    unfolding create_hold_tx
    create_tx-Moves = Moves-bind Moves-gets (λ locked.
        Moves-bind (Moves-or_throw locked _) (λ table. Moves-bind Moves-gets (λ details.
          Moves-bind (check-Moves input details) (λ found.
            Moves-bind (eligible-Moves found runtime.now)
              (λ _. Moves-bind Moves-gets (λ existing. hold_by-Moves found existing))))))

    after_error-keeps :
        (e : Error) (rejection : Option (Error × TableAudit)) (db : Db)
        → P db
        → P (after_error e rejection db).1
    unfolding after_error count_active
    after_error-keeps e none db p = p
    after_error-keeps e (some (answer, row)) db p = p

    after_hold-keeps : (c : Result HeldTable × Db) → P c.1 → P (after_hold input c).1
    unfolding after_hold
    after_hold-keeps (ok view, db) p = p
    after_hold-keeps (err e, db) p = after_error-keeps e (rejection_of input e) db p

    -- A hold that is asked for keeps the holds single, whatever the outcome.
    pub create_hold-AreSingle :
        (db : Db) → AreSingle now db → AreSingle now (create_hold runtime input db).1
    unfolding create_hold
    create_hold-AreSingle db p =
        elim (Bool-cases (text_eq (runtime.trim input.idempotency_key) "")) [
          | inl e ↦ rw (e, if◌then◌else◌) p
          | inr e ↦
              rw (e, if◌then◌else◌)
                (after_hold-keeps (run_in_transaction (create_hold_tx runtime input) db)
                  (commit-keeps P db (create_hold_tx runtime input db) p (create_tx-Moves.at db p)))
        ]
