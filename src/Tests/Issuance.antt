-- ===== src/Tests/Issuance.antt =====
-- Issuances at concrete inputs: the ticket of a verified intent, and its replay.
use govibe_core.Prelude.{ℕ, ◌≡◌, refl, none, some, [], ◌∷◌, find_row}
use govibe_core.Store.{Db, Organizer, OrganizerStatus, ok, ◌>>=◌, ◌>=>◌, atomic}
use govibe_core.Intents.Repository.{find_intent}
use govibe_core.Initiation.Guards.{find_user, find_payable_event}
use govibe_core.Issuance.Repository.{find_issued, create_issued_ticket, append_issuance_audit}
use govibe_core.Issuance.Service.{
  Drawn, IssuedTicket, has_issuance_snapshot, find_event_of, issued_ticket, after_ticket,
  create_ticket_of, issue_by, issue_for_event, issue_with_snapshot, issue_intent,
  issue_from_intent_tx, answer_of, issue_from_intent,
}
use govibe_core.Issuance.Ready.{IsIssued}
use govibe_core.Issuance.Once.{issue_from_intent-IsIssued, issue_from_intent_twice}
use govibe_core.Tests.Fixtures.{shop, gala}
use govibe_core.Tests.Webhooks.{paid_intent}

abbrev host : Organizer
host = record { id = 3; owner_user_id = 8; status = OrganizerStatus.approved }

abbrev paid_for : Db
paid_for = record shop { organizers = host ∷ []; payment_intents = paid_intent ∷ [] }

abbrev draw : ℕ → Drawn
draw n = record {
  ticket_id = n;
  ticket_number = n;
  token = "t";
  token_hash = n;
  error_message = λ e. "";
}

abbrev seat : IssuedTicket
seat = record { ticket = issued_ticket (draw 70) paid_intent gala; token = some "t" }

abbrev seated : Db
seated = (issue_from_intent (draw 70) 80 paid_for).1

issuance_runs : issue_from_intent (draw 70) 80 paid_for ≡ (ok seat, seated)
unfolding issue_from_intent atomic ◌>=>◌ ◌>>=◌ issue_from_intent_tx find_intent find_row
    issue_intent has_issuance_snapshot find_user find_payable_event issue_with_snapshot
    find_event_of issue_for_event append_issuance_audit find_issued issue_by create_ticket_of
    create_issued_ticket after_ticket answer_of
issuance_runs = refl

issue_from_intent-IsIssued_example : IsIssued 80 seat.ticket seated
issue_from_intent-IsIssued_example =
    issue_from_intent-IsIssued (draw 70) 80 paid_for seated seat issuance_runs

issue_from_intent_twice_example :
    (db2 : Db) × (issue_from_intent (draw 71) 80 seated
      ≡ (ok (record { ticket = seat.ticket; token = none }), db2))
    × (db2.tickets ≡ seated.tickets)
issue_from_intent_twice_example =
    issue_from_intent_twice (draw 70) (draw 71) 80 paid_for seated seat issuance_runs
