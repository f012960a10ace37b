-- ===== src/Tests.antt =====
-- Runs of the use cases on a small database, and each theorem that has hypotheses at an input
-- where they hold.
pub mod Fixtures
pub mod Inventory
pub mod Orders
pub mod Payments
pub mod Tickets
pub mod Outbox
pub mod Admissions
pub mod Webhooks
pub mod Initiation
pub mod Issuance
pub mod Tables
