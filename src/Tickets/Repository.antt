-- ===== src/Tickets/Repository.antt =====
-- The ticket table, src/modules/tickets/infrastructure/repositories/prisma-ticket.repository.ts,
-- with the unique indexes of prisma/migrations on the serial and on the public reference.
use govibe_core.Prelude.{Bool, ◌||◌, ◌∷◌, ◌==◌, find_row}
use govibe_core.Store.{Ticket, Tx, modify, throw_if, is_some, ◌>>◌, unique_violation}

-- The row would break the primary key or one of the unique indexes.
abbrev pub collides : Ticket → Ticket → Bool
collides a b =
    a.id == b.id || (a.ticket_serial == b.ticket_serial || a.public_reference == b.public_reference)

-- `TicketRepository.create`
unfoldable pub create_ticket : Ticket → Tx (Unit {0})
create_ticket row db =
    (throw_if (is_some (find_row (λ r. collides row r) db.tickets)) unique_violation
        >> modify (λ d. record d { tickets = row ∷ d.tickets }))
      db
