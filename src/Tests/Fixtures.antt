-- ===== src/Tests/Fixtures.antt =====
-- A database with one event, one bucket, one hold, one order and one payment, at time 1000.
use govibe_core.Prelude.{
  ℕ, ◌+◌, ◌≤◌, ◌≡◌, sym, subst, true, none, some, List, [], ◌∷◌, arith, find_row, ◌∙◌,
}
use govibe_core.Store.{
  User, Db, Clock, Inventory, Reservation, ReservationStatus, Order, OrderStatus, Payment,
  PaymentStatus, Event, EventStatus, EventVisibility,
}
use govibe_core.Context.{RequestContext, Uuids}
use govibe_core.LaunchControl.{LaunchConfig}
use govibe_core.Inventory.Repository.{find_bucket, active_quantity}
use govibe_core.Inventory.Fits.{IsCovered, Fits}
use govibe_core.Inventory.Safety.{IsSafe}
use govibe_core.Orders.{CreateOrderInput}

abbrev pub noon : Clock
noon = record { app = 1000; db = 1000 }

abbrev pub session : RequestContext
session = record { user_id = some 5; correlation_id = none }

abbrev pub from_100 : Uuids
from_100 n = 100 + n

abbrev pub from_200 : Uuids
from_200 n = 200 + n

abbrev pub bucket : Inventory
bucket = record {
  id = 9;
  event_id = 1;
  ticket_type_id = 2;
  capacity_total = 20;
  reserved_count = 3;
  sold_count = 10;
}

abbrev pub hold : Reservation
hold = record {
  id = 7;
  owner_user_id = 5;
  event_id = 1;
  ticket_type_id = 2;
  quantity = 3;
  status = ReservationStatus.held;
  expires_at = 60000;
}

abbrev pub gala : Event
gala = record {
  id = 1;
  organizer_id = 3;
  venue_id = 4;
  status = EventStatus.published;
  visibility = EventVisibility.open_to_all;
  ends_at = 90000;
  payment_enabled = true;
  price_minor = some 4500;
  price_currency = "GHS";
}

abbrev pub buyer : User
buyer = record { id = 5; email = "a@b.c"; is_active = true; email_verified_at = some 1 }

abbrev pub paid_order : Order
paid_order = record {
  id = 30;
  user_id = 5;
  event_id = 1;
  reservation_id = some 7;
  status = OrderStatus.paid;
  total_amount = 4500;
  currency = "GHS";
}

abbrev pub open_payment : Payment
open_payment = record {
  id = 40;
  order_id = 30;
  provider = "paystack";
  provider_ref = some 77;
  status = PaymentStatus.initiated;
  amount = 4500;
}

abbrev pub shop : Db
shop = record {
  inventories = bucket ∷ [];
  reservations = hold ∷ [];
  orders = paid_order ∷ [];
  payments = open_payment ∷ [];
  ledger_entries = [];
  tickets = [];
  audit_logs = [];
  outbox_events = [];
  idempotency_keys = [];
  organizers = [];
  events = gala ∷ [];
  gates = [];
  venue_tables = [];
  event_tables = [];
  table_reservations = [];
  scan_audits = [];
  users = buyer ∷ [];
  payment_intents = [];
  intent_audits = [];
  webhook_events = [];
  issuance_audits = [];
  table_audits = [];
}

abbrev pub open_config : LaunchConfig
open_config = record {
  checkout_enabled = true;
  payments_enabled = true;
  admissions_enabled = true;
  allowed_providers = none;
  allowed_currencies = none;
  allowed_organizer_ids = none;
  allowed_event_ids = none;
  allowed_gate_ids = none;
}

abbrev pub checkout : CreateOrderInput
checkout = record {
  idempotency_key = "k1";
  reservation_id = 7;
  total_amount = 4500;
  currency = "GHS";
}

-- One bucket that is covered is a table in which every bucket is.
pub one_bucket-Fits :
    (now : ℕ) (row : Inventory) (rs : List Reservation)
    → active_quantity now row.event_id row.ticket_type_id rs ≤ row.reserved_count
    → row.reserved_count + row.sold_count ≤ row.capacity_total
    → Fits now (row ∷ []) rs
unfolding find_bucket find_row
one_bucket-Fits now row rs counted within = record {
  covered = λ e t b h.
      subst (IsCovered now rs) (sym (only e t b h)) (record { counted = counted; within = within });
  distinct = λ e t e' t' b b' h h' _. only e t b h ∙ sym (only e' t' b' h');
}
  where
    only : (e t : ℕ) (b : Inventory) → find_bucket e t (row ∷ []) ≡ some b → b ≡ row
    only e t b h = ground (arith, h)

pub shop-IsSafe : IsSafe 1000 shop
unfolding active_quantity
shop-IsSafe = one_bucket-Fits 1000 bucket (hold ∷ []) (omega arith) (omega arith)
