-- ===== src/Lib.antt =====
-- The core of the ticketing backend: from a timed hold on tickets or on a table to a paid order
-- or a verified payment intent, its tickets, and the delivery of the events that announce them.
--
-- Parts, and where they stand (paths from the repository's root):
-- - Prelude: names passed on, Boolean tests (Prelude.Tests), tables as lists of rows
--   (Prelude.Rows), a predicate of every row (Prelude.Rowwise).
-- - Store: the enums (Store.Status) and rows (Store.Records, Store.PaymentRecords) of
--   prisma/schema.prisma, and JSON values (Store.Values); errors and transactions
--   (Store.Transaction; src/shared/errors/domain-errors.ts,
--   src/shared/prisma/transaction-runner.service.ts). A transaction is a function from the
--   database to an error, which keeps no write, or a result and the database afterwards; a call
--   of a use case (`Call`) returns a result or an error, and the database that is left.
--   Store.Calls puts calls one after another, so that what an earlier statement wrote stays when
--   a later one fails. `Post` and its rules carry a postcondition through the steps of a
--   transaction; Store.Triples has the rules for a property that every write keeps, of
--   transactions (`Moves`) and of calls (`Ends`).
-- - Context: src/shared/context/request-context.service.ts, drawn UUIDs, JavaScript numbers.
-- - Journal: the audit log and the outbox as they are written
--   (src/modules/audit/infrastructure/repositories/prisma-audit-log.repository.ts,
--   src/shared/outbox/prisma-outbox.repository.ts).
-- - Inventory: src/modules/inventory/application/use-cases and infrastructure/repositories.
--   Inventory.Reserve is reserve-inventory.use-case.ts; Inventory.Expiry is
--   release-expired-reservation, sweep-expired-reservations and reconcile-inventory-drift.
-- - LaunchControl: src/shared/launch-control/launch-control.service.ts.
-- - Idempotency:
--   src/modules/idempotency/infrastructure/repositories/prisma-idempotency.repository.ts.
-- - Orders: src/modules/orders/application/use-cases/create-order.use-case.ts and the order
--   repository. It uses LaunchControl, Idempotency, Inventory and Journal as the use case does.
-- - Payments: src/modules/payments/application/use-cases/verify-payment.use-case.ts with the
--   payment and ledger repositories.
-- - Intents: src/modules/payments/infrastructure/repositories/prisma-payment-intent.repository.ts
--   and prisma-payment-intent-audit-log.repository.ts.
-- - Initiation: src/modules/payments/application/payments.service.ts: the guards, the attempt at
--   an intent, the call of the provider, and what is recorded of its answer.
-- - Webhooks: src/modules/payments/application/payment-verification.service.ts: the signature,
--   the envelope, the stored delivery, and the transition of the intent that it names.
-- - Tickets: src/modules/tickets/application/use-cases/issue-tickets.use-case.ts and
--   src/shared/tickets/ticket-reference-allocator.service.ts. Tickets.Generator is
--   src/shared/tickets/ticket-reference-generator.service.ts, on given random bytes; an issuance
--   takes its references as drawn.
-- - Issuance: src/modules/tickets/application/ticket-issuance.service.ts, the ticket of a
--   verified payment intent.
-- - Tables: src/modules/tables/application/table-reservations.service.ts with the tables
--   repository and the audit rows of tables: holds, their expiry and their reconciliation.
-- - Admissions: src/modules/admissions/application/admissions.service.ts (Admissions.Scan), with
--   the scan's read and update of the ticket repository.
-- - Outbox: src/shared/outbox/outbox-claim.repository.ts (Outbox.Claims) and
--   src/shared/outbox/outbox.processor.ts (Outbox.Processor).
-- - History: the use cases as the steps of one database.
-- - Tests: runs on a small database, and the theorems with hypotheses at inputs that meet them.
--
-- How the code is modelled. A table is the list of its rows, a new row at the head. UUIDs are
-- numbers, since they are only compared, and so are the hashes and references of orders and
-- tickets; the hashes and references of payment intents and webhooks are texts. Times are in
-- milliseconds. An operation is given two clocks where it reads both, the process's (`new
-- Date()`) and the database's (`NOW()`), and each is read once. The results of `randomUUID()`,
-- SHA-256, HMAC, `trim`, the request hash, the payment adapters and providers, the drawn ticket
-- numbers and references, and the outbox dispatcher are arguments. Transactions run one after
-- another, in any order (History), and an issuance is a step as a whole, its attempts included.
-- In the code the transactions of reserving, checkout, payment verification, both issuances,
-- table holds, the transition of a webhook's intent and the scan are Serializable, so that those
-- of them that commit have such an order; that the database refuses one for a conflict with
-- another is left out. The others (expiry, reconciliation, initiation, the stored delivery, the
-- claim of outbox events, reads of reservations) run at READ COMMITTED, with a lock on the
-- inventory row or on the event table's row where they take one, so for them the order is an
-- assumption. Which transactions of an initiation the database refuses to commit is an argument
-- (Initiation.Attempt). A statement that fails aborts its transaction in PostgreSQL: what the
-- code goes on to send after it has caught a unique violation is refused
-- (Store.Transaction.in_aborted). `floor(capacityTotal * 0.05)` is the quotient by 20, which it
-- is for the values of an INTEGER column; counts and amounts are unbounded naturals. Loops are
-- recursions on the rows that they visit, and the allocation of references runs on its five
-- attempts, as the code does. The messages of launch control leave out the ids that the code puts
-- in. SKIP LOCKED leaves out rows of another worker's transaction; with transactions one after
-- another there are none.
--
-- A bucket is covered (Inventory.Fits.IsCovered) if the holds that are active on it are within
-- its cached count, and the cached count with the sold places is within its capacity. A database
-- is safe (Inventory.Safety.IsSafe) if every bucket that a lookup finds is covered and no two
-- have one id.
--
-- Not modelled: logs, telemetry, HTTP, authentication, validation pipes, Redis, and the HTTP
-- calls of the provider and verification adapters, which are I/O and framework code; the
-- management of venue tables and event tables, events, organizers, ticket views and admin
-- support, which do not take part in the path from a hold to a ticket.
pub mod Prelude
pub mod Store
pub mod Context
pub mod Journal
pub mod Inventory
pub mod LaunchControl
pub mod Idempotency
pub mod Orders
pub mod Tickets
pub mod Payments
pub mod Intents
pub mod Webhooks
pub mod Initiation
pub mod Issuance
pub mod Tables
pub mod Admissions
pub mod Outbox
pub mod History
pub mod Tests
