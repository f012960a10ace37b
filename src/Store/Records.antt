-- ===== src/Store/Records.antt =====
-- The rows of prisma/schema.prisma, with the columns that the modelled code reads or writes, and
-- the database as the list of the rows of each table. A UUID, a hash and a reference are only
-- compared, so they are numbers; a time is in milliseconds.
use govibe_core.Prelude.{ℕ, String, Bool, Option, List}
use govibe_core.Store.Values.{Json}
use govibe_core.Store.PaymentRecords.{User, PaymentIntent, IntentAudit, WebhookEvent, IssuanceAudit}
use govibe_core.Store.Status.{
  ReservationStatus, OrderStatus, PaymentStatus, TicketStatus, EventStatus, EventVisibility,
  OrganizerStatus, VenueTableStatus, EventTableStatus, TableReservationStatus, LedgerDirection,
  RejectionReason, TableAuditEvent,
}

-- The two clocks of an operation: `new Date()` in the process, and `NOW()` in the database.
pub record Clock : Type 0 where
  pub app : ℕ
  pub db : ℕ

pub record Inventory : Type 0 where
  pub id : ℕ
  pub event_id : ℕ
  pub ticket_type_id : ℕ
  pub capacity_total : ℕ
  pub reserved_count : ℕ
  pub sold_count : ℕ

pub record Reservation : Type 0 where
  pub id : ℕ
  pub owner_user_id : ℕ
  pub event_id : ℕ
  pub ticket_type_id : ℕ
  pub quantity : ℕ
  pub status : ReservationStatus
  pub expires_at : ℕ

pub record Order : Type 0 where
  pub id : ℕ
  pub user_id : ℕ
  pub event_id : ℕ
  pub reservation_id : Option ℕ
  pub status : OrderStatus
  pub total_amount : ℕ
  pub currency : String

pub record Payment : Type 0 where
  pub id : ℕ
  pub order_id : ℕ
  pub provider : String
  pub provider_ref : Option ℕ
  pub status : PaymentStatus
  pub amount : ℕ

pub record LedgerEntry : Type 0 where
  pub id : ℕ
  pub order_id : ℕ
  pub payment_id : ℕ
  pub direction : LedgerDirection
  pub account_type : String
  pub amount : ℕ
  pub currency : String
  pub correlation_id : Option ℕ

pub record Ticket : Type 0 where
  pub id : ℕ
  pub event_id : ℕ
  pub organizer_id : Option ℕ
  pub ticket_type_id : Option ℕ
  pub owner_user_id : ℕ
  pub order_id : Option ℕ
  pub payment_intent_id : Option ℕ
  pub status : TicketStatus
  pub admission_token_hash : Option ℕ
  pub ticket_serial : ℕ
  pub public_reference : ℕ
  pub used_at : Option ℕ
  pub expires_at : Option ℕ

pub record AuditLog : Type 0 where
  pub id : ℕ
  pub actor_id : Option ℕ
  pub action : String
  pub entity_type : String
  pub entity_id : ℕ
  pub correlation_id : Option ℕ
  pub metadata : Json

pub record OutboxEvent : Type 0 where
  pub id : ℕ
  pub aggregate_type : String
  pub aggregate_id : ℕ
  pub event_type : String
  pub payload : Json
  pub created_at : ℕ
  pub processed : Bool
  pub processed_at : Option ℕ
  pub retry_count : ℕ
  pub next_attempt_at : Option ℕ
  pub last_error_code : Option String
  pub dead_lettered_at : Option ℕ

-- The body of a stored response: of an order, its id and status.
pub record OrderResult : Type 0 where
  pub order_id : ℕ
  pub status : OrderStatus

pub record IdempotencyKey : Type 0 where
  pub actor_user_id : ℕ
  pub use_case : String
  pub key_hash : ℕ
  pub request_hash : ℕ
  pub response_code : Option ℕ
  pub response_body : Option OrderResult

pub record Organizer : Type 0 where
  pub id : ℕ
  pub owner_user_id : ℕ
  pub status : OrganizerStatus

pub record Event : Type 0 where
  pub id : ℕ
  pub organizer_id : ℕ
  pub venue_id : ℕ
  pub status : EventStatus
  pub visibility : EventVisibility
  pub ends_at : ℕ
  pub payment_enabled : Bool
  pub price_minor : Option ℕ
  pub price_currency : String

pub record Gate : Type 0 where
  pub id : ℕ
  pub venue_id : ℕ

pub record VenueTable : Type 0 where
  pub id : ℕ
  pub organizer_id : ℕ
  pub status : VenueTableStatus

pub record EventTable : Type 0 where
  pub id : ℕ
  pub organizer_id : ℕ
  pub event_id : ℕ
  pub venue_table_id : ℕ
  pub status : EventTableStatus
  pub price_minor : ℕ
  pub currency : String
  pub hold_expires_at : Option ℕ

pub record TableReservation : Type 0 where
  pub id : ℕ
  pub actor_user_id : ℕ
  pub organizer_id : ℕ
  pub event_id : ℕ
  pub event_table_id : ℕ
  pub status : TableReservationStatus
  pub amount_minor : ℕ
  pub currency : String
  pub key_hash : ℕ
  pub fingerprint_hash : ℕ
  pub hold_expires_at : ℕ
  pub expired_at : Option ℕ

-- A row of the admission scans; the database draws its id.
pub record ScanAudit : Type 0 where
  pub ticket_id : Option ℕ
  pub event_id : Option ℕ
  pub organizer_id : Option ℕ
  pub scanned_by_user_id : ℕ
  pub rejection_reason : Option RejectionReason
  pub token_hash : ℕ
  pub device_id : Option ℕ
  pub gate_label : Option String
  pub provided_event_id : Option ℕ
  pub scanned_at : ℕ

-- A row of table_audit_logs, of the events that the reservation service writes.
pub record TableAudit : Type 0 where
  pub actor_user_id : ℕ
  pub organizer_id : Option ℕ
  pub event_id : ℕ
  pub venue_table_id : Option ℕ
  pub event_table_id : ℕ
  pub reservation_id : Option ℕ
  pub event : TableAuditEvent
  pub reason : Option String
  pub metadata : Json

-- The tables.
pub record Db : Type 0 where
  pub inventories : List Inventory
  pub reservations : List Reservation
  pub orders : List Order
  pub payments : List Payment
  pub ledger_entries : List LedgerEntry
  pub tickets : List Ticket
  pub audit_logs : List AuditLog
  pub outbox_events : List OutboxEvent
  pub idempotency_keys : List IdempotencyKey
  pub organizers : List Organizer
  pub events : List Event
  pub gates : List Gate
  pub venue_tables : List VenueTable
  pub event_tables : List EventTable
  pub table_reservations : List TableReservation
  pub scan_audits : List ScanAudit
  pub users : List User
  pub payment_intents : List PaymentIntent
  pub intent_audits : List IntentAudit
  pub webhook_events : List WebhookEvent
  pub issuance_audits : List IssuanceAudit
  pub table_audits : List TableAudit
