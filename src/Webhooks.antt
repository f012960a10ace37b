-- ===== src/Webhooks.antt =====
-- Webhooks of the payment providers: src/modules/payments/application/
-- payment-verification.service.ts, src/modules/payments/webhooks/webhook-signature.service.ts and
-- the repository of the deliveries.
pub mod Signature
pub mod Envelope
pub mod Deliveries
pub mod Outcome
pub mod Settle
pub mod Receive
pub mod Process
pub mod Handle
pub mod Keeps
pub mod Storing
pub mod Course
pub mod Confirm
pub mod Forged
pub mod Redelivery
pub mod Repeat
pub mod Final
