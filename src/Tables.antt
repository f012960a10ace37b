-- ===== src/Tables.antt =====
-- Timed holds of the tables of an event: src/modules/tables/application/
-- table-reservations.service.ts with its repositories and its audit log.
pub mod Repository
pub mod Audit
pub mod Reconcile
pub mod Eligible
pub mod Hold
pub mod Keeps
pub mod Single
pub mod Calls
