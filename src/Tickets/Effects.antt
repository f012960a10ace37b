-- ===== src/Tickets/Effects.antt =====
-- What a committed issuance has done, table by table.
use govibe_core.Prelude.{ℕ, ◌≡◌, refl, true, Option, some, List, [], ◌∷◌, map, length, arith}
use govibe_core.Store.{
  Db, Clock, Inventory, Order, OrderStatus, is_paid, Reservation, ReservationStatus, is_held,
  Ticket, AuditLog, OutboxEvent, ◌>>=◌, Post, Post-gets, Post-or_throw, Post-throw_if, Post-write,
  Post-read,
}
use govibe_core.Context.{RequestContext, Uuids}
use govibe_core.Journal.Keeps.{with_audit, with_event, append_both_writes}
use govibe_core.Orders.{find_order}
use govibe_core.Orders.Writes.{with_order_status, update_order_status_writes}
use govibe_core.Inventory.Repository.{find_bucket, find_reservation, active_quantity}
use govibe_core.Inventory.Writes.{
  with_reserved, with_sold, with_status, update_reserved_count_writes, increment_sold_count_writes,
  update_reservation_status_writes,
}
use govibe_core.Tickets.Repository.{create_ticket}
use govibe_core.Tickets.Allocator.{Reference}
use govibe_core.Tickets.Issue.{load_validated, ticket_rows, create_tickets, issue_tx, IssueResult}

-- What `loadValidatedOrderReservation` has checked.
pub record IsLoaded (order_id : ℕ) (db : Db) (order : Order) (row : Reservation) : Type 0 where
  pub found : find_order order_id db.orders ≡ some order
  pub paid : is_paid order.status ≡ true
  pub linked : ℕ
  pub link : order.reservation_id ≡ some linked
  pub held : find_reservation linked db.reservations ≡ some row
  pub active : is_held row.status ≡ true

abbrev pub Loaded : ℕ → Db → Order × Reservation → Type 0
Loaded order_id db p = IsLoaded order_id db p.0 p.1

pub load_validated-IsLoaded :
    (order_id : ℕ) (db : Db)
    → Post (load_validated order_id db) (λ p db'. Loaded order_id db p × (db' ≡ db))
unfolding load_validated
load_validated-IsLoaded order_id db = Post-gets Q _ _ db (
    Post-or_throw Q _ _ _ db (λ order found. Post-throw_if Q _ _ _ db (λ paid.
      Post-or_throw Q _ _ _ db (λ linked link. Post-gets Q _ _ db (
        Post-or_throw Q _ _ _ db (λ row held. Post-throw_if Q _ _ _ db (λ active. (
          record {
            found = found;
            paid = ground arith;
            linked = linked;
            link = link;
            held = held;
            active = ground arith;
          },
          refl,
        ))))))))
  where
    Q : Order × Reservation → Db → Type 0
    Q p db' = Loaded order_id db p × (db' ≡ db)

-- The tickets in front of the table, in the order of the inserts.
abbrev pub stacked : List Ticket → List Ticket → List Ticket
stacked [] rest = rest
stacked (t ∷ ts) rest = stacked ts (t ∷ rest)

abbrev pub with_tickets : List Ticket → Db → Db
with_tickets ts db = record db { tickets = stacked ts db.tickets }

pub create_ticket_writes :
    (t : Ticket) (db : Db) → Post (create_ticket t db) (λ _ db'. db' ≡ with_tickets (t ∷ []) db)
unfolding create_ticket ◌>>=◌
create_ticket_writes t db = ground arith

pub create_tickets_writes :
    (ts : List Ticket) (db : Db) → Post (create_tickets ts db) (λ _ db'. db' ≡ with_tickets ts db)
unfolding create_tickets
create_tickets_writes [] db = refl
create_tickets_writes (t ∷ ts) db =
    Post-write (λ _ db'. db' ≡ with_tickets (t ∷ ts) db) _ _ db _ (create_ticket_writes t db)
      (create_tickets_writes ts (with_tickets (t ∷ []) db))

-- The database after the writes of an issuance.
abbrev pub issued_stock : ℕ → Order → Reservation → Inventory → List Ticket → Db → Db
issued_stock now order row b ts db =
    let ended = with_status row.id ReservationStatus.consumed (with_tickets ts db) in
    let live = active_quantity now row.event_id row.ticket_type_id ended.reservations in
    with_order_status order.id OrderStatus.fulfilled
      (with_sold b.id row.quantity (with_reserved b.id live ended))

-- What a committed issuance has checked and done; `db'` is the database after it.
pub record IsIssued (clock : Clock) (uuid : Uuids) (order_id : ℕ) (refs : List Reference) (db : Db)
    (r : IssueResult) (db' : Db) : Type 0 where
  pub order : Order
  pub row : Reservation
  pub bucket : Inventory
  pub loaded : IsLoaded order_id db order row
  pub matched : row.quantity ≡ length refs
  pub located : find_bucket row.event_id row.ticket_type_id db.inventories ≡ some bucket
  pub result : r ≡ record {
    order_id = order.id;
    issued_ticket_ids = map (λ (t : Ticket). t.id) (ticket_rows order row uuid 0 refs);
  }
  pub audit : AuditLog
  pub event : OutboxEvent
  pub event_type : event.event_type ≡ "TicketsIssued"
  pub about : event.aggregate_id ≡ order.id
  pub after :
      db'
      ≡ with_event event (
          with_audit audit
            (issued_stock clock.db order row bucket (ticket_rows order row uuid 0 refs) db))

pub issue_tx-IsIssued :
    (clock : Clock) (uuid : Uuids) (ctx : Option RequestContext) (order_id : ℕ)
    (refs : List Reference) (db : Db)
    → Post (issue_tx clock uuid ctx order_id refs db) (IsIssued clock uuid order_id refs db)
unfolding issue_tx
issue_tx-IsIssued clock uuid ctx order_id refs db =
    Post-read Q (Loaded order_id db) _ _ db (load_validated-IsLoaded order_id db) (λ p loaded.
      Post-throw_if Q _ _ _ db (λ matched. Post-gets Q _ _ db (
        Post-or_throw Q _ _ _ db (λ b located. Post-write Q _ _ db _ (create_tickets_writes _ db) (
          Post-write Q _ _ _ _ (update_reservation_status_writes _ _ _) (
            Post-gets Q _ _ _ (
              Post-write Q _ _ _ _ (update_reserved_count_writes _ _ _) (
                Post-write Q _ _ _ _ (increment_sold_count_writes _ _ _) (
                  Post-write Q _ _ _ _ (update_order_status_writes _ _ _) (
                    Post-write Q _ _ _ _ (append_both_writes _ _ _)
                      (finish p loaded (ground arith) b located _ _ refl refl)))))))))))
  where
    Q : IssueResult → Db → Type 0
    Q = IsIssued clock uuid order_id refs db

    finish :
        (p : Order × Reservation)
        → Loaded order_id db p
        → p.1.quantity ≡ length refs
        → (b : Inventory) → find_bucket p.1.event_id p.1.ticket_type_id db.inventories ≡ some b
        → (audit : AuditLog) (event : OutboxEvent) → event.event_type ≡ "TicketsIssued"
        → event.aggregate_id ≡ p.0.id
        → Q
            (record {
              order_id = p.0.id;
              issued_ticket_ids = map (λ (t : Ticket). t.id) (ticket_rows p.0 p.1 uuid 0 refs);
            })
            (with_event event (
              with_audit audit
                (issued_stock clock.db p.0 p.1 b (ticket_rows p.0 p.1 uuid 0 refs) db)))
    finish p loaded matched b located audit event named about = record {
      order = p.0;
      row = p.1;
      bucket = b;
      loaded = loaded;
      matched = matched;
      located = located;
      result = refl;
      audit = audit;
      event = event;
      event_type = named;
      about = about;
      after = refl;
    }
