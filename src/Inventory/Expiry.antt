-- ===== src/Inventory/Expiry.antt =====
-- The end of holds, and the repair of a bucket's cached count. src/modules/inventory/application/
-- use-cases: release-expired-reservation, sweep-expired-reservations, reconcile-inventory-drift.
use govibe_core.Prelude.{
  ℕ, ◌+◌, ◌*◌, Bool, not, ◌||◌, Option, none, some, List, [], ◌∷◌, length, ltb, ◌==◌, if◌then◌else◌,
}
use govibe_core.Store.{
  Clock, Reservation, ReservationStatus, is_held, num, Tx, pure, or_throw, ◌>>◌, ◌>>=◌, Call,
  run_in_transaction, not_found,
}
use govibe_core.Context.{Uuids}
use govibe_core.Journal.{append_audit, append_outbox, pending_event}
use govibe_core.Inventory.Repository.{
  lock_inventory, get_active_reservation_quantity, update_reservation_status, update_reserved_count,
  find_reservation_by_id, claim_expired_held_reservations,
}

pub data ReleaseResult : Type 0 where
  kept : ReleaseResult
  released : ℕ → ℕ → ReleaseResult

-- The writes of a release: the count is taken before the status is changed.
unfoldable pub release_held : ℕ → Reservation → Tx ReleaseResult
unfolding lock_inventory get_active_reservation_quantity update_reservation_status
    update_reserved_count
release_held now_db row = do
  found ← lock_inventory row.event_id row.ticket_type_id
  bucket ← or_throw found (not_found "Inventory not found")
  live ← get_active_reservation_quantity now_db row.event_id row.ticket_type_id
  update_reservation_status row.id ReservationStatus.expired
  update_reserved_count bucket.id live
  pure (released bucket.id live)

-- `ReleaseExpiredReservationUseCase.execute`; `now` is the input's, or the process's clock.
unfoldable pub release_expired_tx : ℕ → ℕ → ℕ → Tx ReleaseResult
unfolding find_reservation_by_id
release_expired_tx now now_db reservation_id = do
  found ← find_reservation_by_id reservation_id
  row ← or_throw found (not_found "Reservation not found")
  if not (is_held row.status) || ltb now row.expires_at then pure kept else release_held now_db row

abbrev pub now_of : Clock → Option ℕ → ℕ
now_of clock none = clock.app
now_of clock (some now) = now

unfoldable pub release_expired : Clock → ℕ → Option ℕ → Call ReleaseResult
release_expired clock reservation_id now =
    run_in_transaction (release_expired_tx (now_of clock now) clock.db reservation_id)

-- The two journal entries of a hold that the sweep ends.
unfoldable pub journal_expiry : Clock → ℕ → ℕ → Reservation → Tx (Unit {0})
unfolding append_audit append_outbox
journal_expiry clock audit_id outbox_id row = do
  append_audit (record {
    id = audit_id;
    actor_id = none;
    action = "RESERVATION_EXPIRED";
    entity_type = "ticket_reservation";
    entity_id = row.id;
    correlation_id = none;
    metadata =
        ("eventId", num row.event_id)
        ∷ ("ticketTypeId", num row.ticket_type_id)
        ∷ ("quantity", num row.quantity)
        ∷ ("expiresAt", num row.expires_at)
        ∷ [];
  })
  append_outbox (
      pending_event clock outbox_id "ticket_reservation" row.id "TicketReservationExpired" (
        ("reservationId", num row.id)
        ∷ ("eventId", num row.event_id)
        ∷ ("ticketTypeId", num row.ticket_type_id)
        ∷ ("quantity", num row.quantity)
        ∷ []))

-- One round of the sweep's loop: the count is taken after the status is changed.
unfoldable pub sweep_one : Clock → ℕ → ℕ → Reservation → Tx (Unit {0})
unfolding lock_inventory get_active_reservation_quantity update_reservation_status
    update_reserved_count journal_expiry
sweep_one clock audit_id outbox_id row = do
  found ← lock_inventory row.event_id row.ticket_type_id
  bucket ← or_throw found (not_found "Inventory bucket not found for expired reservation.")
  update_reservation_status row.id ReservationStatus.expired
  live ← get_active_reservation_quantity clock.db row.event_id row.ticket_type_id
  update_reserved_count bucket.id live
  journal_expiry clock audit_id outbox_id row

-- The loop, from its `n`-th round; each round draws two UUIDs.
unfoldable pub sweep_loop : Clock → Uuids → ℕ → List Reservation → Tx (List ℕ)
sweep_loop clock uuid n [] = pure []
sweep_loop clock uuid n (row ∷ rows) = do
  sweep_one clock (uuid (2 * n)) (uuid (2 * n + 1)) row
  ids ← sweep_loop clock uuid (n + 1) rows
  pure (row.id ∷ ids)

pub record SweepResult : Type 0 where
  pub swept : ℕ
  pub reservation_ids : List ℕ

-- `input?.limit ?? DEFAULT_SWEEP_LIMIT`
abbrev pub limit_of : Option ℕ → ℕ
limit_of none = 100
limit_of (some n) = n

unfoldable pub sweep_tx : Clock → Uuids → ℕ → Tx SweepResult
unfolding claim_expired_held_reservations sweep_loop
sweep_tx clock uuid limit = do
  rows ← claim_expired_held_reservations clock.db limit
  ids ← sweep_loop clock uuid 0 rows
  pure (record { swept = length ids; reservation_ids = ids })

-- `SweepExpiredReservationsUseCase.execute`, without its log line and its counter.
unfoldable pub sweep : Clock → Uuids → Option ℕ → Call SweepResult
sweep clock uuid limit = run_in_transaction (sweep_tx clock uuid (limit_of limit))

pub record ReconcileResult : Type 0 where
  pub inventory_id : ℕ
  pub cached_reserved_count : ℕ
  pub live_reserved_count : ℕ
  pub corrected : Bool

unfoldable pub reconcile_tx : ℕ → ℕ → ℕ → Tx ReconcileResult
unfolding lock_inventory get_active_reservation_quantity update_reserved_count
reconcile_tx now_db event_id ticket_type_id = do
  found ← lock_inventory event_id ticket_type_id
  bucket ← or_throw found (not_found "Inventory not found")
  live ← get_active_reservation_quantity now_db event_id ticket_type_id
  let corrected = not (live == bucket.reserved_count)
  if corrected then update_reserved_count bucket.id live else pure tt
  pure (record {
    inventory_id = bucket.id;
    cached_reserved_count = bucket.reserved_count;
    live_reserved_count = live;
    corrected = corrected;
  })

-- `ReconcileInventoryDriftUseCase.execute`
unfoldable pub reconcile : Clock → ℕ → ℕ → Call ReconcileResult
reconcile clock event_id ticket_type_id =
    run_in_transaction (reconcile_tx clock.db event_id ticket_type_id)
