-- ===== src/Inventory/Room.antt =====
-- The run of a reservation's transaction, with room and without.
use govibe_core.Prelude.{
  ℕ, ◌+◌, ◌*◌, ◌≤◌, ◌<◌, ◌≡◌, refl, ◌∙◌, true, false, Option, some, List, [], ◌∷◌, arith, ◌==◌,
  ==_refl, if◌then◌else◌, find_row, Bool-cases, inl, inr,
}
use govibe_core.Store.{
  Db, Clock, Inventory, Reservation, AuditLog, OutboxEvent, ok, err, ◌>>=◌, ◌>>◌, is_some,
  inventory_unavailable, run_gets, run_found, run_step, run_throw, run_pass,
}
use govibe_core.Context.{Uuids}
use govibe_core.Journal.{append_audit, append_outbox}
use govibe_core.Journal.Keeps.{with_audit, with_event}
use govibe_core.Inventory.Repository.{
  is_bucket, find_bucket, active_quantity, set_reserved, update_reserved_count, find_reservation,
  create_held_reservation, get_active_reservation_quantity,
}
use govibe_core.Inventory.Writes.{with_hold, with_reserved}
use govibe_core.Inventory.Fits.{find_bucket-update}
use govibe_core.Inventory.Reserve.{
  ReserveResult, is_tight, authoritative_reserved, held_row, journal_hold, last_time, reserve_tx,
}

-- The reserved places that count: those of the active holds where the bucket is tight, else the
-- cached count.
abbrev pub counting : ℕ → ℕ → ℕ → Inventory → List Reservation → ℕ
counting now e t b rs = if is_tight b then active_quantity now e t rs else b.reserved_count

-- No row has one of the ids that the operation draws.
pub record AreFresh (uuid : Uuids) (db : Db) : Type 0 where
  pub reservation : is_some (find_reservation (uuid 0) db.reservations) ≡ false
  pub audit : is_some (find_row (λ (r : AuditLog). r.id == uuid 1) db.audit_logs) ≡ false
  pub event : is_some (find_row (λ (r : OutboxEvent). r.id == uuid 2) db.outbox_events) ≡ false

has_inventory_found :
    (e t : ℕ) (rows : List Inventory) (b : Inventory)
    → find_bucket e t rows ≡ some b
    → is_some (find_row (λ (r : Inventory). r.id == b.id) rows) ≡ true
unfolding find_bucket find_row
has_inventory_found e t [] b h = absurd (ground arith)
has_inventory_found e t (r ∷ rows) b h = elim (Bool-cases (is_bucket e t r)) [
  | inl p ↦ ground arith
  | inr p ↦ ground (arith, has_inventory_found e t rows b (ground arith))
]

append_audit_runs :
    (row : AuditLog) (db : Db)
    → is_some (find_row (λ (r : AuditLog). r.id == row.id) db.audit_logs) ≡ false
    → append_audit row db ≡ ok (tt, with_audit row db)
unfolding append_audit ◌>>=◌
append_audit_runs row db a = rw a refl

append_outbox_runs :
    (event : OutboxEvent) (db : Db)
    → is_some (find_row (λ (r : OutboxEvent). r.id == event.id) db.outbox_events) ≡ false
    → append_outbox event db ≡ ok (tt, with_event event db)
unfolding append_outbox ◌>>=◌
append_outbox_runs event db e = rw e refl

append_both_runs :
    (row : AuditLog) (event : OutboxEvent) (db : Db)
    → is_some (find_row (λ (r : AuditLog). r.id == row.id) db.audit_logs) ≡ false
    → is_some (find_row (λ (r : OutboxEvent). r.id == event.id) db.outbox_events) ≡ false
    → (append_audit row >> append_outbox event) db ≡ ok (tt, with_event event (with_audit row db))
append_both_runs row event db a e =
    run_step _ db _ tt (with_audit row db) (append_audit_runs row db a)
    ∙ append_outbox_runs event (with_audit row db) e

module _ (clock : Clock) (uuid : Uuids) (actor : ℕ) (corr : Option ℕ) (e t quantity ttl : ℕ)
    (b : Inventory) (db : Db) (found : find_bucket e t db.inventories ≡ some b) where
  abbrev n : ℕ
  n = counting clock.db e t b db.reservations

  counts : authoritative_reserved clock.db e t b db ≡ ok (n, db)
  unfolding authoritative_reserved get_active_reservation_quantity
  counts = elim (Bool-cases (is_tight b)) [
    | inl p ↦ rw (p, if◌then◌else◌) refl
    | inr p ↦ rw (p, if◌then◌else◌) refl
  ]

  pub reserve_tx_refuses :
      b.capacity_total < quantity + (n + b.sold_count)
      → reserve_tx clock uuid actor corr e t quantity ttl db
        ≡ err (inventory_unavailable "Not enough tickets available.")
  unfolding reserve_tx
  reserve_tx_refuses full =
      run_gets _ db _
      ∙ run_found _ db _ _ b found
      ∙ run_step _ db _ n db counts
      ∙ run_throw _ db _ _ (ground arith)

  abbrev row : Reservation
  row = held_row (uuid 0) actor e t quantity (clock.app + ttl * 1000)

  abbrev pub stocked : Db
  stocked = with_reserved b.id (n + quantity) (with_hold row db)

  holds :
      is_some (find_reservation (uuid 0) db.reservations) ≡ false
      → create_held_reservation row db ≡ ok (tt, with_hold row db)
  unfolding create_held_reservation ◌>>=◌
  holds fresh = rw fresh refl

  updates : update_reserved_count b.id (n + quantity) (with_hold row db) ≡ ok (tt, stocked)
  unfolding update_reserved_count ◌>>=◌
  updates = rw (has_inventory_found e t db.inventories b found) refl

  journals :
      AreFresh uuid db
      → (audit : AuditLog) × (event : OutboxEvent) × (journal_hold clock uuid actor corr row stocked
          ≡ ok (tt, with_event event (with_audit audit stocked)))
  unfolding journal_hold
  journals fresh = (_, _, append_both_runs _ _ stocked fresh.audit fresh.event)

  abbrev answered : ReserveResult
  answered = record {
    reservation_id = uuid 0;
    expires_at = clock.app + ttl * 1000;
    quantity = quantity;
  }

  pub reserve_tx_accepts :
      AreFresh uuid db
      → quantity + (n + b.sold_count) ≤ b.capacity_total
      → clock.app + ttl * 1000 ≤ last_time
      → (audit : AuditLog) × (event : OutboxEvent) × (reserve_tx clock uuid actor corr e t quantity
            ttl db
          ≡ ok (answered, with_event event (with_audit audit stocked)))
  unfolding reserve_tx
  reserve_tx_accepts fresh room valid =
      let (audit, event, journal) = journals fresh in
      (
        audit,
        event,
        run_gets _ db _
            ∙ run_found _ db _ _ b found
            ∙ run_step _ db _ n db counts
            ∙ run_pass _ db _ _ (ground arith)
            ∙ run_pass _ db _ _ (ground (arith, valid))
            ∙ run_step _ db _ tt (with_hold row db) (holds fresh.reservation)
            ∙ run_step _ (with_hold row db) _ tt stocked updates
            ∙ run_step _ stocked _ tt (with_event event (with_audit audit stocked)) journal,
      )

  pub stocked_bucket : find_bucket e t stocked.inventories ≡ some (set_reserved (n + quantity) b)
  stocked_bucket = rw (
    find_bucket-update e t b.id (set_reserved (n + quantity)) db.inventories (λ c. refl),
    found,
    ==_refl b.id,
    if◌then◌else◌,
  )

  pub stocked_hold : find_reservation (uuid 0) stocked.reservations ≡ some row
  unfolding find_row
  stocked_hold = rw (==_refl (uuid 0), if◌then◌else◌)
