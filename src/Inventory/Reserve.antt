-- ===== src/Inventory/Reserve.antt =====
-- A timed hold on a number of tickets.
-- src/modules/inventory/application/use-cases/reserve-inventory.use-case.ts.
use govibe_core.Prelude.{
  ℕ, ◌+◌, ◌*◌, ◌/◌, max, Bool, Option, none, some, [], ◌∷◌, ltb, leb, if◌then◌else◌,
}
use govibe_core.Store.{
  Clock, Inventory, Reservation, ReservationStatus, num, err, Tx, pure, throw_if, or_throw, ◌>>◌,
  ◌>>=◌, Call, run_in_transaction, domain_conflict, not_found, inventory_unavailable, invalid_date,
}
use govibe_core.Context.{RequestContext, user_of, correlation_of, Uuids, JsNumber, positive_integer}
use govibe_core.Journal.{append_audit, append_outbox, pending_event}
use govibe_core.Inventory.Repository.{
  lock_inventory, get_active_reservation_quantity, create_held_reservation, update_reserved_count,
}

pub record ReserveInput : Type 0 where
  pub event_id : ℕ
  pub ticket_type_id : ℕ
  pub quantity : JsNumber
  pub hold_ttl_seconds : JsNumber

pub record ReserveResult : Type 0 where
  pub reservation_id : ℕ
  pub expires_at : ℕ
  pub quantity : ℕ

-- `capacityTotal - reservedCount - soldCount <= max(floor(capacityTotal * 0.05), 50)`, with the
-- subtracted counts on the right. For the values of an INTEGER column the floor of the
-- floating-point product is the quotient by 20.
abbrev pub is_tight : Inventory → Bool
is_tight row =
    leb row.capacity_total
      (max (row.capacity_total / 20) 50 + (row.reserved_count + row.sold_count))

-- The number of reserved tickets that counts: summed up anew where the bucket is tight.
unfoldable pub authoritative_reserved : ℕ → ℕ → ℕ → Inventory → Tx ℕ
unfolding get_active_reservation_quantity
authoritative_reserved now event_id ticket_type_id row =
    if is_tight row
    then get_active_reservation_quantity now event_id ticket_type_id
    else pure row.reserved_count

-- The row that `createHeldReservation` inserts.
abbrev pub held_row : ℕ → ℕ → ℕ → ℕ → ℕ → ℕ → Reservation
held_row id owner event_id ticket_type_id quantity expires_at = record {
  id = id;
  owner_user_id = owner;
  event_id = event_id;
  ticket_type_id = ticket_type_id;
  quantity = quantity;
  status = ReservationStatus.held;
  expires_at = expires_at;
}

-- The two journal entries of a new hold.
unfoldable pub journal_hold : Clock → Uuids → ℕ → Option ℕ → Reservation → Tx (Unit {0})
unfolding append_audit append_outbox
journal_hold clock uuid actor correlation row = do
  append_audit (record {
    id = uuid 1;
    actor_id = some actor;
    action = "INVENTORY_RESERVED";
    entity_type = "ticket_reservation";
    entity_id = row.id;
    correlation_id = correlation;
    metadata =
        ("eventId", num row.event_id)
        ∷ ("ticketTypeId", num row.ticket_type_id)
        ∷ ("quantity", num row.quantity)
        ∷ ("expiresAt", num row.expires_at)
        ∷ [];
  })
  append_outbox (
      pending_event clock (uuid 2) "ticket_reservation" row.id "TicketReservationCreated" (
        ("reservationId", num row.id)
        ∷ ("eventId", num row.event_id)
        ∷ ("ticketTypeId", num row.ticket_type_id)
        ∷ ("quantity", num row.quantity)
        ∷ ("expiresAt", num row.expires_at)
        ∷ []))

-- The last time that a `Date` holds; a later one is an Invalid Date, which the insert refuses.
abbrev pub last_time : ℕ
last_time = 8640000000000000

-- The body of the transaction, for a quantity and a duration that passed the guards.
unfoldable pub reserve_tx : Clock → Uuids → ℕ → Option ℕ → ℕ → ℕ → ℕ → ℕ → Tx ReserveResult
unfolding lock_inventory authoritative_reserved create_held_reservation update_reserved_count
    journal_hold
reserve_tx clock uuid actor correlation event_id ticket_type_id quantity ttl = do
  found ← lock_inventory event_id ticket_type_id
  bucket ← or_throw found (not_found "Inventory bucket not found.")
  reserved ← authoritative_reserved clock.db event_id ticket_type_id bucket
  throw_if (ltb bucket.capacity_total (quantity + (reserved + bucket.sold_count)))
      (inventory_unavailable "Not enough tickets available.")
  let expires_at = clock.app + ttl * 1000
  throw_if (ltb last_time expires_at) invalid_date
  let row = held_row (uuid 0) actor event_id ticket_type_id quantity expires_at
  create_held_reservation row
  update_reserved_count bucket.id (reserved + quantity)
  journal_hold clock uuid actor correlation row
  pure (record { reservation_id = uuid 0; expires_at = expires_at; quantity = quantity })

-- `ReserveInventoryUseCase.execute`
unfoldable pub reserve : Clock → Uuids → Option RequestContext → ReserveInput → Call ReserveResult
reserve clock uuid ctx input db = elim (positive_integer input.quantity) [
  | none ↦ (err (domain_conflict "Reservation quantity must be a positive integer."), db)
  | some quantity ↦ elim (positive_integer input.hold_ttl_seconds) [
    | none ↦ (err (domain_conflict "Hold TTL must be a positive integer."), db)
    | some ttl ↦ elim (user_of ctx) [
      | none ↦ (err (domain_conflict "Authenticated user context is required."), db)
      | some actor ↦
          run_in_transaction
            (reserve_tx clock uuid actor (correlation_of ctx) input.event_id input.ticket_type_id
              quantity ttl)
            db
    ]
  ]
]
