-- ===== src/Payments.antt =====
-- Payments: the verification of a payment with its provider.
pub mod Verify
pub mod Effects
pub mod Ledger
pub mod Outcome
pub mod Calls
