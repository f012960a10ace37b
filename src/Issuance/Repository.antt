-- ===== src/Issuance/Repository.antt =====
-- What the issuance uses of src/modules/tickets/infrastructure/repositories/
-- prisma-ticket.repository.ts. The ticket number is the serial, and the version of a token is 1.
use govibe_core.Prelude.{
  ℕ, String, Bool, false, ◌&&◌, ◌||◌, Option, none, some, ◌∷◌, ◌==◌, find_row,
}
use govibe_core.Store.{
  Db, Ticket, PaymentIntent, IssuanceAudit, Tx, modify, throw_if, is_some, ◌>>◌, unique_violation,
}

abbrev pub is_id : Option ℕ → ℕ → Bool
is_id none n = false
is_id (some m) n = m == n

abbrev pub is_of_intent : PaymentIntent → Ticket → Bool
is_of_intent intent row =
    is_id row.payment_intent_id intent.id
    && (row.owner_user_id == intent.buyer_user_id && row.event_id == intent.event_id)

-- `findByPaymentIntentOwnerAndEvent`
unfoldable pub find_issued : PaymentIntent → Db → Option Ticket
find_issued intent db = find_row (is_of_intent intent) db.tickets

-- Rows that break the primary key or a unique index, for a ticket of the intent.
abbrev pub clashes_with : PaymentIntent → Ticket → Ticket → Bool
clashes_with intent new row =
    row.id == new.id
    || (row.ticket_serial == new.ticket_serial
        || (row.public_reference == new.public_reference
            || (is_same new.admission_token_hash row.admission_token_hash
                || is_of_intent intent row)))
  where
    is_same : Option ℕ → Option ℕ → Bool
    is_same none h = false
    is_same (some n) h = is_id h n

abbrev pub with_ticket : Ticket → Db → Db
with_ticket row db = record db { tickets = row ∷ db.tickets }

-- `createIssuedTicket`
unfoldable pub create_issued_ticket : PaymentIntent → Ticket → Tx (Unit {0})
create_issued_ticket intent row db =
    (throw_if (is_some (find_row (clashes_with intent row) db.tickets)) unique_violation
        >> modify (with_ticket row))
      db

abbrev pub with_issuance_audit : IssuanceAudit → Db → Db
with_issuance_audit row db = record db { issuance_audits = row ∷ db.issuance_audits }

-- `appendIssuanceAudit`
unfoldable pub append_issuance_audit :
    PaymentIntent → (ticket_id : Option ℕ) → (audit_event : String) → Option String → Tx (Unit {0})
append_issuance_audit intent ticket_id audit_event reason = modify (
    with_issuance_audit (record {
      payment_intent_id = intent.id;
      ticket_id = ticket_id;
      buyer_user_id = intent.buyer_user_id;
      event_id = intent.event_id;
      organizer_id = intent.organizer_id;
      audit_event = audit_event;
      reason = reason;
    }))
