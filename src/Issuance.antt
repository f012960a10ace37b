-- ===== src/Issuance.antt =====
-- The ticket of a verified payment intent:
-- src/modules/tickets/application/ticket-issuance.service.ts.
pub mod Repository
pub mod Service
pub mod Ready
pub mod Once
