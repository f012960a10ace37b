-- ===== src/Store/Status.antt =====
-- The enums of prisma/schema.prisma, with the comparisons that the code makes.
use govibe_core.Prelude.{String, Bool, true, false}

pub data ReservationStatus : Type 0 where
  held expired consumed cancelled : ReservationStatus

pub data OrderStatus : Type 0 where
  created reserved payment_pending paid fulfilled completed expired failed cancelled : OrderStatus

pub data PaymentStatus : Type 0 where
  initiated pending success failed reversed refunded : PaymentStatus

pub data TicketStatus : Type 0 where
  issued active used exited invalidated refunded blocked voided expired : TicketStatus

pub data EventStatus : Type 0 where
  draft published cancelled archived : EventStatus

pub data EventVisibility : Type 0 where
  restricted unlisted open_to_all : EventVisibility

pub data OrganizerStatus : Type 0 where
  draft pending_review approved suspended rejected : OrganizerStatus

pub data VenueTableStatus : Type 0 where
  active inactive maintenance : VenueTableStatus

pub data EventTableStatus : Type 0 where
  available held unavailable : EventTableStatus

pub data TableReservationStatus : Type 0 where
  held expired cancelled : TableReservationStatus

pub data LedgerDirection : Type 0 where
  debit credit : LedgerDirection

pub data PaymentProvider : Type 0 where
  paystack mtn_momo : PaymentProvider

pub data PaymentIntentStatus : Type 0 where
  initiation_pending initiated initiation_failed verified failed : PaymentIntentStatus

-- WebhookProcessingStatus
pub data WebhookStatus : Type 0 where
  received verified rejected duplicate processed failed : WebhookStatus

pub data TableAuditEvent : Type 0 where
  venue_table_created venue_table_updated event_table_created event_table_updated : TableAuditEvent
  table_hold_created table_hold_expired table_hold_cancelled : TableAuditEvent
  table_reservation_rejected : TableAuditEvent

-- AdmissionRejectionReason
pub data RejectionReason : Type 0 where
  invalid_token ticket_not_found ticket_not_issued ticket_voided ticket_expired : RejectionReason
  ticket_already_used event_not_active event_mismatch organizer_mismatch : RejectionReason
  token_replay_detected staff_not_authorized : RejectionReason

-- `status === ReservationStatus.HELD`
abbrev pub is_held : ReservationStatus → Bool
is_held ReservationStatus.held = true
is_held _ = false

-- `status === OrderStatus.PAID`
abbrev pub is_paid : OrderStatus → Bool
is_paid OrderStatus.paid = true
is_paid _ = false

-- `status === TicketStatus.ISSUED`
abbrev pub is_issued : TicketStatus → Bool
is_issued TicketStatus.issued = true
is_issued _ = false

-- `status === EventStatus.PUBLISHED`
abbrev pub is_published : EventStatus → Bool
is_published EventStatus.published = true
is_published _ = false

-- `status === PaymentStatus.SUCCESS`
abbrev pub is_success : PaymentStatus → Bool
is_success PaymentStatus.success = true
is_success _ = false

-- `status === TableReservationStatus.HELD`
abbrev pub is_table_held : TableReservationStatus → Bool
is_table_held TableReservationStatus.held = true
is_table_held _ = false

-- Equality of two states of an event table.
abbrev pub event_table_status_eq : EventTableStatus → EventTableStatus → Bool
event_table_status_eq EventTableStatus.available EventTableStatus.available = true
event_table_status_eq EventTableStatus.held EventTableStatus.held = true
event_table_status_eq EventTableStatus.unavailable EventTableStatus.unavailable = true
event_table_status_eq _ _ = false

abbrev pub payment_provider_eq : PaymentProvider → PaymentProvider → Bool
payment_provider_eq PaymentProvider.paystack PaymentProvider.paystack = true
payment_provider_eq PaymentProvider.mtn_momo PaymentProvider.mtn_momo = true
payment_provider_eq _ _ = false

-- `status === PaymentIntentStatus.VERIFIED`
abbrev pub is_intent_verified : PaymentIntentStatus → Bool
is_intent_verified PaymentIntentStatus.verified = true
is_intent_verified _ = false

-- `status === PaymentIntentStatus.INITIATION_FAILED`
abbrev pub is_initiation_failed : PaymentIntentStatus → Bool
is_initiation_failed PaymentIntentStatus.initiation_failed = true
is_initiation_failed _ = false

-- `status in [INITIATED, INITIATION_PENDING]`
abbrev pub is_open : PaymentIntentStatus → Bool
is_open PaymentIntentStatus.initiated = true
is_open PaymentIntentStatus.initiation_pending = true
is_open _ = false

-- `status === OrganizerStatus.APPROVED`
abbrev pub is_approved : OrganizerStatus → Bool
is_approved OrganizerStatus.approved = true
is_approved _ = false

abbrev pub provider_text : PaymentProvider → String
provider_text PaymentProvider.paystack = "PAYSTACK"
provider_text PaymentProvider.mtn_momo = "MTN_MOMO"

abbrev pub intent_status_text : PaymentIntentStatus → String
intent_status_text PaymentIntentStatus.initiation_pending = "INITIATION_PENDING"
intent_status_text PaymentIntentStatus.initiated = "INITIATED"
intent_status_text PaymentIntentStatus.initiation_failed = "INITIATION_FAILED"
intent_status_text PaymentIntentStatus.verified = "VERIFIED"
intent_status_text PaymentIntentStatus.failed = "FAILED"

abbrev pub webhook_status_text : WebhookStatus → String
webhook_status_text WebhookStatus.received = "RECEIVED"
webhook_status_text WebhookStatus.verified = "VERIFIED"
webhook_status_text WebhookStatus.rejected = "REJECTED"
webhook_status_text WebhookStatus.duplicate = "DUPLICATE"
webhook_status_text WebhookStatus.processed = "PROCESSED"
webhook_status_text WebhookStatus.failed = "FAILED"

-- `visibility === 'PUBLIC'`
abbrev pub is_open_to_all : EventVisibility → Bool
is_open_to_all EventVisibility.open_to_all = true
is_open_to_all _ = false

-- `status === VenueTableStatus.ACTIVE`
abbrev pub is_table_active : VenueTableStatus → Bool
is_table_active VenueTableStatus.active = true
is_table_active _ = false

abbrev pub event_table_status_text : EventTableStatus → String
event_table_status_text EventTableStatus.available = "AVAILABLE"
event_table_status_text EventTableStatus.held = "HELD"
event_table_status_text EventTableStatus.unavailable = "UNAVAILABLE"
