-- ===== src/Inventory.antt =====
-- Ticket inventory: the buckets of an event's ticket types, and the timed holds on them.
-- src/modules/inventory/.
pub mod Repository
pub mod Reserve
pub mod Expiry
pub mod Quantity
pub mod Writes
pub mod Fits
pub mod Safety
pub mod Ending
pub mod Room
pub mod Accept
