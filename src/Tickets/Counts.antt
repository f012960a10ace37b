-- ===== src/Tickets/Counts.antt =====
-- The counts after an issuance: of tickets, of sold places and of reserved places; and that an
-- issuance for a hold that has run out can book more places than there are.
use govibe_core.Prelude.{
  ℕ, suc, ◌+◌, ◌≡◌, refl, sym, subst, ap, Option, some, List, [], ◌∷◌, length, arith, ==_refl,
  if◌then◌else◌,
}
use govibe_core.Store.{
  Db, Clock, Inventory, Order, Reservation, Ticket, ok, Post, Post-at, Post-weaken,
}
use govibe_core.Context.{RequestContext, Uuids}
use govibe_core.Inventory.Repository.{find_bucket, active_quantity}
use govibe_core.Tickets.Allocator.{Reference}
use govibe_core.Tickets.Issue.{ticket_rows, issue_tx, IssueResult}
use govibe_core.Tickets.Effects.{IsLoaded, stacked, issued_stock, IsIssued, issue_tx-IsIssued}
use govibe_core.Store.{AuditLog, OutboxEvent}
use govibe_core.Journal.Keeps.{with_audit, with_event}
use govibe_core.Inventory.Fits.{find_bucket-update}
use govibe_core.Tickets.Safety.{sell, live, issued_inventories}

-- The tickets of a batch of rows stand in front of the table.
length-stacked : (ts rest : List Ticket) → length (stacked ts rest) ≡ length ts + length rest
length-stacked [] rest = omega arith
length-stacked (t ∷ ts) rest = omega (arith, length-stacked ts (t ∷ rest))

length-ticket_rows :
    (order : Order) (row : Reservation) (uuid : Uuids) (n : ℕ) (refs : List Reference)
    → length (ticket_rows order row uuid n refs) ≡ length refs
unfolding ticket_rows
length-ticket_rows order row uuid n [] = refl
length-ticket_rows order row uuid n (ref ∷ refs) =
    ap suc (length-ticket_rows order row uuid (n + 1) refs)

-- What an issuance does to the counts: as many tickets are made, and as many are booked as sold,
-- as the hold was for; nothing else of the bucket changes but the cached count.
pub record Sells (now order_id : ℕ) (db db' : Db) : Type 0 where
  pub order : Order
  pub row : Reservation
  pub loaded : IsLoaded order_id db order row
  pub before : Inventory
  pub after : Inventory
  pub found : find_bucket row.event_id row.ticket_type_id db.inventories ≡ some before
  pub found' : find_bucket row.event_id row.ticket_type_id db'.inventories ≡ some after
  pub sold : after.sold_count ≡ before.sold_count + row.quantity
  pub capacity : after.capacity_total ≡ before.capacity_total
  pub counted :
      after.reserved_count ≡ active_quantity now row.event_id row.ticket_type_id db'.reservations
  pub made : length db'.tickets ≡ row.quantity + length db.tickets

bucket_after :
    (now : ℕ) (order : Order) (row : Reservation) (b : Inventory) (ts : List Ticket) (db : Db)
    → find_bucket row.event_id row.ticket_type_id db.inventories ≡ some b
    → find_bucket row.event_id row.ticket_type_id (issued_stock now order row b ts db).inventories
      ≡ some (sell (live now order row b [] db) row.quantity b)
unfolding live
bucket_after now order row b ts db located = rw (
  issued_inventories now order row b ts db,
  find_bucket-update row.event_id row.ticket_type_id b.id
      (sell (live now order row b ts db) row.quantity) db.inventories (λ c. refl),
  located,
  ==_refl b.id,
  if◌then◌else◌,
)

issued-Sells :
    (clock : Clock) (uuid : Uuids) (ctx : Option RequestContext) (order_id : ℕ)
    (refs : List Reference) (db : Db)
    → Post (issue_tx clock uuid ctx order_id refs db) (λ _ db'. Sells clock.db order_id db db')
unfolding live
issued-Sells clock uuid ctx order_id refs db =
    Post-weaken (λ _ db'. Sells clock.db order_id db db') (IsIssued clock uuid order_id refs db) _
      (issue_tx-IsIssued clock uuid ctx order_id refs db)
      (λ r db' i.
        subst (Sells clock.db order_id db) (sym i.after)
          (sells i.order i.row i.bucket i.audit i.event i.loaded i.located i.matched))
  where
    sells :
        (order : Order) (row : Reservation) (b : Inventory) (audit : AuditLog) (event : OutboxEvent)
        → IsLoaded order_id db order row
        → find_bucket row.event_id row.ticket_type_id db.inventories ≡ some b
        → row.quantity ≡ length refs
        → Sells clock.db order_id db (
            with_event event (
              with_audit audit
                (issued_stock clock.db order row b (ticket_rows order row uuid 0 refs) db)))
    sells order row b audit event loaded located matched = record {
      order = order;
      row = row;
      loaded = loaded;
      before = b;
      after = sell (live clock.db order row b [] db) row.quantity b;
      found = located;
      found' = bucket_after clock.db order row b (ticket_rows order row uuid 0 refs) db located;
      sold = refl;
      capacity = refl;
      counted = refl;
      made = omega (
        arith,
        length-stacked (ticket_rows order row uuid 0 refs) db.tickets,
        length-ticket_rows order row uuid 0 refs,
      );
    }

-- An issuance of an order's tickets that succeeds makes as many tickets as the order's hold is
-- for, adds as many to the sold count of its bucket, keeps the capacity, and sets the cached count
-- to the active holds that are left.
pub issue_tx-Sells :
    (clock : Clock) (uuid : Uuids) (ctx : Option RequestContext) (order_id : ℕ)
    (refs : List Reference) (r : IssueResult) (db db' : Db)
    → issue_tx clock uuid ctx order_id refs db ≡ ok (r, db')
    → Sells clock.db order_id db db'
issue_tx-Sells clock uuid ctx order_id refs r db db' run =
    Post-at (λ _ d. Sells clock.db order_id db d) (issued-Sells clock uuid ctx order_id refs db) run
