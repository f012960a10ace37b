-- ===== src/Tickets.antt =====
-- Tickets: their table, their references, and the issuance of an order's tickets.
pub mod Repository
pub mod Allocator
pub mod Issue
pub mod Effects
pub mod Safety
pub mod Counts
pub mod Attempts
pub mod Generator
pub mod Unpack
