-- ===== src/Issuance/Service.antt =====
-- `issueTicketFromVerifiedPayment` of src/modules/tickets/application/ticket-issuance.service.ts. What
-- it draws at random is an argument.
use govibe_core.Prelude.{
  ℕ, String, Bool, true, false, ◌&&◌, Option, none, some, ◌==◌, find_row, if◌then◌else◌,
}
use govibe_core.Store.{
  Db, Organizer, Event, Ticket, TicketStatus, PaymentIntent, is_intent_verified, intent_status_text,
  Error, not_found, invalid_state_transition, Result, ok, err, Tx, pure, gets, throw, in_aborted,
  or_throw, is_some, ◌>>=◌, ◌>>◌, Call, atomic, ◌>=>◌, returns, throws,
}
use govibe_core.Intents.Repository.{find_intent}
use govibe_core.Initiation.Guards.{PayableEvent, find_user, find_payable_event}
use govibe_core.Issuance.Repository.{find_issued, create_issued_ticket, append_issuance_audit}
use govibe_core.Webhooks.Receive.{is_duplicate_error}

-- What an issuance draws: the ticket's id and number, and an admission token with its hash; and the
-- messages of the database's errors.
pub record Drawn : Type 0 where
  pub ticket_id : ℕ
  pub ticket_number : ℕ
  pub token : String
  pub token_hash : ℕ
  pub error_message : Error → String

-- IssuanceOutcome
pub data Outcome : Type 0 where
  created : Ticket → (token : String) → Outcome
  existing : Ticket → Outcome
  rejected : (message : String) → Outcome
  failed : (message : String) → Outcome

-- `hasIssuanceSnapshot`
unfoldable pub has_issuance_snapshot : PaymentIntent → Db → Bool
has_issuance_snapshot intent db =
    is_some (find_user intent.buyer_user_id db)
    && (is_some (find_row (λ (o : Organizer). o.id == intent.organizer_id) db.organizers)
        && is_some (find_payable_event intent.event_id db))

-- The event of the intent, where it still has the intent's organizer.
abbrev pub of_same_organizer : PaymentIntent → Option PayableEvent → Option Event
of_same_organizer intent none = none
of_same_organizer intent (some found) =
    if found.event.organizer_id == intent.organizer_id then some found.event else none

unfoldable pub find_event_of : PaymentIntent → Db → Option Event
find_event_of intent db = of_same_organizer intent (find_payable_event intent.event_id db)

-- The ticket that is created.
abbrev pub issued_ticket : Drawn → PaymentIntent → Event → Ticket
issued_ticket drawn intent event = record {
  id = drawn.ticket_id;
  event_id = intent.event_id;
  organizer_id = some intent.organizer_id;
  ticket_type_id = none;
  owner_user_id = intent.buyer_user_id;
  order_id = none;
  payment_intent_id = some intent.id;
  status = TicketStatus.issued;
  admission_token_hash = some drawn.token_hash;
  ticket_serial = drawn.ticket_number;
  public_reference = drawn.ticket_number;
  used_at = none;
  expires_at = some event.ends_at;
}

-- The `catch` of the insert, which has aborted the transaction.
unfoldable pub recover_issued : Drawn → PaymentIntent → Error → Option Ticket → Tx Outcome
recover_issued drawn intent e (some ticket) =
    in_aborted (
      append_issuance_audit intent (some ticket.id) "ticket_issuance_idempotent_replay"
        (some "p2002_recovered_existing_ticket"))
    >> pure (existing ticket)
recover_issued drawn intent e none =
    in_aborted
      (append_issuance_audit intent none "ticket_issuance_failed" (some (drawn.error_message e)))
    >> throw e

-- The look for the ticket that is there, at the start of the `catch`.
abbrev look_again : PaymentIntent → Error → Tx (Option Ticket)
look_again intent e =
    if is_duplicate_error e then in_aborted (gets (find_issued intent)) else pure none

-- The `try` and `catch` of the insert, from its result.
unfoldable pub after_ticket :
    Drawn → PaymentIntent → Ticket → Db → Result (Unit {0} × Db) → Result (Outcome × Db)
after_ticket drawn intent ticket before (ok (u, db)) =
    (append_issuance_audit intent (some ticket.id) "ticket_issued" none
        >> pure (created ticket drawn.token))
      db
after_ticket drawn intent ticket before (err e) =
    (look_again intent e >>= recover_issued drawn intent e) before

unfoldable pub create_ticket_of : Drawn → PaymentIntent → Event → Tx Outcome
create_ticket_of drawn intent event db =
    let ticket = issued_ticket drawn intent event in
    after_ticket drawn intent ticket db (create_issued_ticket intent ticket db)

unfoldable pub issue_by : Drawn → PaymentIntent → Event → Option Ticket → Tx Outcome
issue_by drawn intent event none = create_ticket_of drawn intent event
issue_by drawn intent event (some ticket) =
    append_issuance_audit intent (some ticket.id) "ticket_issuance_idempotent_replay" none
    >> pure (existing ticket)

abbrev pub lacks_context : Outcome
lacks_context = failed "Verified payment intent is missing ticket issuance context."

-- From the event of the intent on.
unfoldable pub issue_for_event : Drawn → PaymentIntent → Option Event → Tx Outcome
issue_for_event drawn intent none =
    append_issuance_audit intent none "ticket_issuance_failed" (some "missing_event_snapshot")
    >> pure lacks_context
issue_for_event drawn intent (some event) = do
  append_issuance_audit intent none "ticket_issuance_requested" none
  ticket ← gets (find_issued intent)
  issue_by drawn intent event ticket

-- From the snapshot of the intent on.
unfoldable pub issue_with_snapshot : Drawn → PaymentIntent → Bool → Tx Outcome
issue_with_snapshot drawn intent false =
    append_issuance_audit intent none "ticket_issuance_failed" (some "missing_issuance_snapshot")
    >> pure lacks_context
issue_with_snapshot drawn intent true = do
  event ← gets (find_event_of intent)
  issue_for_event drawn intent event

-- From the status of the intent on.
unfoldable pub issue_intent : Drawn → PaymentIntent → Bool → Tx Outcome
issue_intent drawn intent false =
    append_issuance_audit intent none "ticket_issuance_rejected_payment_not_verified"
      (some (intent_status_text intent.status))
    >> pure (rejected "Only verified payment intents can issue tickets.")
issue_intent drawn intent true = do
  snapshot ← gets (has_issuance_snapshot intent)
  issue_with_snapshot drawn intent snapshot

-- The transaction.
unfoldable pub issue_from_intent_tx : Drawn → (payment_intent_id : ℕ) → Tx Outcome
issue_from_intent_tx drawn id = do
  found ← gets (find_intent id)
  intent ← or_throw found (not_found "payment intent not found")
  issue_intent drawn intent (is_intent_verified intent.status)

-- IssuedTicketResponseDto; the token is that of the QR code.
pub record IssuedTicket : Type 0 where
  pub ticket : Ticket
  pub token : Option String

-- The answer to an outcome. The rows of a rejection stay committed.
unfoldable pub answer_of : Outcome → Call IssuedTicket
answer_of (created ticket token) = returns (record { ticket = ticket; token = some token })
answer_of (existing ticket) = returns (record { ticket = ticket; token = none })
answer_of (rejected message) = throws (invalid_state_transition message)
answer_of (failed message) = throws (invalid_state_transition message)

-- `issueTicketFromVerifiedPayment`
unfoldable pub issue_from_intent : Drawn → (payment_intent_id : ℕ) → Call IssuedTicket
issue_from_intent drawn id = atomic (issue_from_intent_tx drawn id) >=> answer_of
