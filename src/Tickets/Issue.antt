-- ===== src/Tickets/Issue.antt =====
-- The issuance of the tickets of a paid order,
-- src/modules/tickets/application/use-cases/issue-tickets.use-case.ts.
use govibe_core.Prelude.{ℕ, ◌+◌, not, Option, none, some, List, [], ◌∷◌, map, length, ◌==◌}
use govibe_core.Store.{
  Result, ok, err, Db, Clock, Order, OrderStatus, is_paid, Reservation, ReservationStatus, is_held,
  Ticket, TicketStatus, num, nums, ok, err, Tx, pure, or_throw, throw_if, ◌>>=◌, ◌>>◌, Call,
  run_in_transaction, not_found, invalid_state_transition,
}
use govibe_core.Context.{RequestContext, user_of, correlation_of, Uuids}
use govibe_core.Journal.{append_audit, append_outbox, pending_event}
use govibe_core.Orders.{find_order_by_id, update_order_status}
use govibe_core.Inventory.Repository.{
  lock_inventory, get_active_reservation_quantity, update_reserved_count, increment_sold_count,
  update_reservation_status, find_reservation_by_id,
}
use govibe_core.Tickets.Repository.{create_ticket}
use govibe_core.Tickets.Allocator.{Reference, Generator, allocate_batch}

-- `loadValidatedOrderReservation`
unfoldable pub load_validated : ℕ → Tx (Order × Reservation)
unfolding find_order_by_id find_reservation_by_id
load_validated order_id = do
  found_order ← find_order_by_id order_id
  order ← or_throw found_order (not_found "Order not found.")
  throw_if (not (is_paid order.status))
      (invalid_state_transition "Only paid orders can issue tickets.")
  linked ←
      or_throw order.reservation_id (invalid_state_transition "Order has no linked reservation.")
  found ← find_reservation_by_id linked
  row ← or_throw found (not_found "Reservation not found.")
  throw_if (not (is_held row.status)) (invalid_state_transition "Reservation is not consumable.")
  pure (order, row)

abbrev pub ticket_row : Order → Reservation → ℕ → Reference → Ticket
ticket_row order row id ref = record {
  id = id;
  event_id = order.event_id;
  organizer_id = none;
  ticket_type_id = some row.ticket_type_id;
  owner_user_id = order.user_id;
  order_id = some order.id;
  payment_intent_id = none;
  status = TicketStatus.active;
  admission_token_hash = none;
  ticket_serial = ref.ticket_serial;
  public_reference = ref.public_reference;
  used_at = none;
  expires_at = none;
}

-- `refs.map(…)`: the rows to insert, each with the next UUID.
unfoldable pub ticket_rows : Order → Reservation → Uuids → ℕ → List Reference → List Ticket
ticket_rows order row uuid n [] = []
ticket_rows order row uuid n (ref ∷ refs) =
    ticket_row order row (uuid n) ref ∷ ticket_rows order row uuid (n + 1) refs

unfoldable pub create_tickets : List Ticket → Tx (Unit {0})
unfolding create_ticket
create_tickets [] = pure tt
create_tickets (t ∷ ts) = do create_ticket t; create_tickets ts

unfoldable pub journal_issue :
    Clock → ℕ → ℕ → Option RequestContext → Order → Reservation → List ℕ → Tx (Unit {0})
unfolding append_audit append_outbox
journal_issue clock audit_id outbox_id ctx order row ids = do
  append_audit (record {
    id = audit_id;
    actor_id = user_of ctx;
    action = "TICKETS_ISSUED";
    entity_type = "order";
    entity_id = order.id;
    correlation_id = correlation_of ctx;
    metadata =
        ("reservationId", num row.id)
        ∷ ("quantity", num row.quantity)
        ∷ ("ticketIds", nums ids)
        ∷ [];
  })
  append_outbox (
      pending_event clock outbox_id "order" order.id "TicketsIssued"
        (("orderId", num order.id) ∷ ("ticketIds", nums ids) ∷ ("quantity", num row.quantity) ∷ []))

pub record IssueResult : Type 0 where
  pub order_id : ℕ
  pub issued_ticket_ids : List ℕ

-- The transaction of `issueWithReferences`.
unfoldable pub issue_tx :
    Clock → Uuids → Option RequestContext → ℕ → List Reference → Tx IssueResult
unfolding load_validated lock_inventory ticket_rows create_tickets update_reservation_status
    get_active_reservation_quantity update_reserved_count increment_sold_count update_order_status
    journal_issue
issue_tx clock uuid ctx order_id refs = do
  loaded ← load_validated order_id
  let order = loaded.0
  let row = loaded.1
  throw_if (not (row.quantity == length refs)) (
      invalid_state_transition
        "Allocated ticket reference batch does not match reservation quantity.")
  found ← lock_inventory row.event_id row.ticket_type_id
  bucket ← or_throw found (not_found "Inventory bucket not found.")
  let tickets = ticket_rows order row uuid 0 refs
  let ids = map (λ (t : Ticket). t.id) tickets
  create_tickets tickets
  update_reservation_status row.id ReservationStatus.consumed
  remaining ← get_active_reservation_quantity clock.db row.event_id row.ticket_type_id
  update_reserved_count bucket.id remaining
  increment_sold_count bucket.id row.quantity
  update_order_status order.id OrderStatus.fulfilled
  journal_issue clock (uuid (length refs)) (uuid (length refs + 1)) ctx order row ids
  pure (record { order_id = order.id; issued_ticket_ids = ids })

-- `getReservationQuantity`
unfoldable pub reservation_quantity_tx : ℕ → Tx ℕ
unfolding load_validated
reservation_quantity_tx order_id = do loaded ← load_validated order_id; pure loaded.1.quantity

-- The issuance once the quantity is known; each attempt draws its own UUIDs.
unfoldable pub issue_counted :
    Generator
    → Clock
    → (ℕ → Uuids)
    → Option RequestContext
    → ℕ
    → Db
    → Result (ℕ × Db)
    → Result IssueResult × Db
issue_counted generate clock uuids ctx order_id db (err e) = (err e, db)
issue_counted generate clock uuids ctx order_id db (ok (count, db')) =
    allocate_batch generate count
      (λ attempt refs. run_in_transaction (issue_tx clock (uuids attempt) ctx order_id refs)) db'

-- `IssueTicketsUseCase.execute`
unfoldable pub issue :
    Generator → Clock → (ℕ → Uuids) → Option RequestContext → ℕ → Call IssueResult
issue generate clock uuids ctx order_id db =
    issue_counted generate clock uuids ctx order_id db (reservation_quantity_tx order_id db)
