-- ===== src/Intents.antt =====
-- Payment intents: their repository (src/modules/payments/infrastructure/repositories/
-- prisma-payment-intent.repository.ts and prisma-payment-intent-audit-log.repository.ts).
pub mod Repository
pub mod Distinct
