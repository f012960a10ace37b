-- ===== src/Store/PaymentRecords.antt =====
-- The rows of prisma/schema.prisma that payment intents, their webhooks and their tickets need,
-- less the raw headers and payloads of a webhook. A response of a provider is opaque, so it is a
-- number.
use govibe_core.Prelude.{ℕ, String, Bool, Option}
use govibe_core.Store.Values.{Json}
use govibe_core.Store.Status.{PaymentProvider, PaymentIntentStatus, WebhookStatus}

pub record User : Type 0 where
  pub id : ℕ
  pub email : String
  pub is_active : Bool
  pub email_verified_at : Option ℕ

pub record PaymentIntent : Type 0 where
  pub id : ℕ
  pub buyer_user_id : ℕ
  pub organizer_id : ℕ
  pub event_id : ℕ
  pub provider : PaymentProvider
  pub status : PaymentIntentStatus
  pub amount_minor : ℕ
  pub currency : String
  pub use_case : String
  pub key_hash : String
  pub fingerprint_hash : String
  pub provider_reference : String
  pub checkout_url : Option String
  pub access_code : Option String
  pub raw_response : Option ℕ
  pub failure_code : Option String
  pub failure_message : Option String
  pub initiated_at : Option ℕ
  pub verified_at : Option ℕ
  pub failed_at : Option ℕ
  pub verified_status : Option String
  pub verified_amount : Option ℕ
  pub verified_currency : Option String
  pub verification_raw : Option ℕ

pub record IntentAudit : Type 0 where
  pub payment_intent_id : ℕ
  pub buyer_user_id : ℕ
  pub event_type : String
  pub details : Json

pub record WebhookEvent : Type 0 where
  pub id : ℕ
  pub provider : PaymentProvider
  pub provider_event_id : String
  pub provider_reference : Option String
  pub payload_hash : String
  pub signature_valid : Option Bool
  pub processing_status : WebhookStatus
  pub failure_code : Option String
  pub failure_message : Option String
  pub payment_intent_id : Option ℕ
  pub processed_at : Option ℕ

pub record IssuanceAudit : Type 0 where
  pub payment_intent_id : ℕ
  pub ticket_id : Option ℕ
  pub buyer_user_id : ℕ
  pub event_id : ℕ
  pub organizer_id : ℕ
  pub audit_event : String
  pub reason : Option String
