-- ===== src/Admissions.antt =====
-- The admission of a ticket at the gate, src/modules/admissions/application/admissions.service.ts,
-- with the reads and the conditional update of
-- src/modules/tickets/infrastructure/repositories/prisma-ticket.repository.ts.
pub mod Scan
pub mod Once
pub mod Guards
