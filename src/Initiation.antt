-- ===== src/Initiation.antt =====
-- The initiation of payments: src/modules/payments/application/payments.service.ts.
pub mod Guards
pub mod Begin
pub mod Attempt
pub mod Service
pub mod Reads
pub mod Final
pub mod Steps
pub mod Payable
