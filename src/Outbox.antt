-- ===== src/Outbox.antt =====
-- The delivery of the outbox events: src/shared/outbox/outbox-claim.repository.ts (claims and
-- marks), src/shared/outbox/outbox.processor.ts (a batch), src/shared/outbox/outbox.service.ts.
pub mod Claims
pub mod Processor
pub mod Backoff
pub mod Lease
pub mod Lifecycle
pub mod Batch
