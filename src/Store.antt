-- ===== src/Store.antt =====
-- The database that all components share: the enums and rows of prisma/schema.prisma, the tables,
-- the errors, and a transaction as a computation that keeps its writes only if it ends normally
-- (src/shared/prisma/transaction-runner.service.ts).
pub mod Status
pub mod Values
pub mod PaymentRecords
pub mod Records
pub mod Transaction
pub mod Rules
pub mod Calls
pub mod Triples
pub use Status.*
pub use Values.*
pub use PaymentRecords.*
pub use Records.*
unfoldable pub use Transaction.*
pub use Rules.*
unfoldable pub use Calls.*
pub use Triples.*
