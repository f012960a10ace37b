-- ===== src/Tests/Admissions.antt =====
-- Admission at concrete inputs: a ticket is scanned twice.
use govibe_core.Prelude.{
  ℕ, ◌≡◌, refl, String, false, none, some, [], ◌∷◌, find_row, select_rows, update_rows,
}
use govibe_core.Store.{
  Db, Ticket, TicketStatus, Organizer, OrganizerStatus, ok, ◌>>=◌, run_in_transaction,
}
use govibe_core.Admissions.Scan.{
  ScanInput, ScanResponse, ScanTicket, find_for_admission_scan, preflight, classify_ticket_state,
  mark_used_if_issuable, accept_ticket, admit_tx, acceptance, after_preflight, after_lookup,
  scan_ticket,
}
use govibe_core.Admissions.Once.{admit_once}
use govibe_core.Admissions.Guards.{IsAdmissible, scan_ticket-IsAdmissible}
use govibe_core.Tests.Fixtures.{shop, gala}

abbrev seat : Ticket
seat = record {
  id = 70;
  event_id = 1;
  organizer_id = none;
  ticket_type_id = some 2;
  owner_user_id = 5;
  order_id = none;
  payment_intent_id = none;
  status = TicketStatus.issued;
  admission_token_hash = some 500;
  ticket_serial = 1;
  public_reference = 1;
  used_at = none;
  expires_at = none;
}

abbrev host : Organizer
host = record { id = 3; owner_user_id = 8; status = OrganizerStatus.approved }

abbrev door : Db
door = record shop { tickets = seat ∷ []; organizers = host ∷ [] }

abbrev token_hash : String → ℕ
token_hash _ = 500

abbrev entry : ScanInput
entry = record {
  ticket_id = 70;
  token = "t";
  scanned_by_user_id = 8;
  event_id = some 1;
  device_id = none;
  gate_label = none;
}

abbrev seen : ScanTicket
seen = record { ticket = seat; event = gala; organizer = host }

abbrev after_entry : Db
after_entry = (scan_ticket token_hash entry 5000 door).1

entry_runs : scan_ticket token_hash entry 5000 door ≡ (ok (acceptance 70 5000), after_entry)
unfolding scan_ticket find_for_admission_scan find_row after_lookup preflight classify_ticket_state
    after_preflight admit_tx ◌>>=◌ mark_used_if_issuable select_rows update_rows accept_ticket
entry_runs = refl

abbrev admitted : Db
admitted = (run_in_transaction (admit_tx 500 entry seen 5000) door).1

admit_runs : admit_tx 500 entry seen 5000 door ≡ ok (acceptance 70 5000, admitted)
unfolding admit_tx ◌>>=◌ mark_used_if_issuable select_rows update_rows accept_ticket
admit_runs = refl

admit_once_example :
    (r' : ScanResponse) × (db2 : Db) × (admit_tx 500 entry seen 6000 admitted ≡ ok (r', db2))
    × (r'.accepted ≡ false)
admit_once_example =
    admit_once 500 entry entry seen seen 5000 6000 door admitted (acceptance 70 5000) admit_runs
      refl refl

scan_ticket-IsAdmissible_example :
    (t : ScanTicket) × (find_for_admission_scan 70 door ≡ some t) × IsAdmissible 500 entry 5000 t
scan_ticket-IsAdmissible_example =
    scan_ticket-IsAdmissible token_hash entry 5000 door after_entry (acceptance 70 5000) entry_runs
      refl
