-- ===== src/Admissions/Scan.antt =====
-- `AdmissionsService.scanTicket`: a first look at the ticket, and a transaction that marks it as
-- used if it still may be. The hash of a token is an argument. A ticket has its event, and an event
-- its organizer, by foreign keys.
use govibe_core.Prelude.{
  ℕ, String, Bool, true, false, not, ◌&&◌, Option, none, some, ◌∷◌, length, ltb, ◌==◌,
  if◌then◌else◌, find_row, update_rows, select_rows,
}
use govibe_core.Store.{
  Db, Ticket, TicketStatus, is_issued, Event, is_published, Organizer, RejectionReason, ScanAudit,
  Tx, ok, pure, gets, modify, ◌>>=◌, ◌>>◌, Call, run_in_transaction,
}

pub record ScanInput : Type 0 where
  pub ticket_id : ℕ
  pub token : String
  pub scanned_by_user_id : ℕ
  pub event_id : Option ℕ
  pub device_id : Option ℕ
  pub gate_label : Option String

-- AdmissionScanResponseDto; the status says the same as `accepted`.
pub record ScanResponse : Type 0 where
  pub accepted : Bool
  pub rejection_reason : Option RejectionReason
  pub ticket_id : Option ℕ
  pub scanned_at : ℕ

-- AdmissionScanTicketRecord
pub record ScanTicket : Type 0 where
  pub ticket : Ticket
  pub event : Event
  pub organizer : Organizer

abbrev pub with_organizer : Ticket → Event → Option Organizer → Option ScanTicket
with_organizer t e none = none
with_organizer t e (some o) = some (record { ticket = t; event = e; organizer = o })

abbrev pub with_event_of : Db → Ticket → Option Event → Option ScanTicket
with_event_of db t none = none
with_event_of db t (some e) =
    with_organizer t e (find_row (λ (o : Organizer). o.id == e.organizer_id) db.organizers)

abbrev pub joined : Db → Option Ticket → Option ScanTicket
joined db none = none
joined db (some t) = with_event_of db t (find_row (λ (e : Event). e.id == t.event_id) db.events)

-- `findForAdmissionScan`
unfoldable pub find_for_admission_scan : ℕ → Db → Option ScanTicket
find_for_admission_scan id db = joined db (find_row (λ (t : Ticket). t.id == id) db.tickets)

-- `x && x !== y`
abbrev pub differs : Option ℕ → ℕ → Bool
differs none n = false
differs (some m) n = not (m == n)

-- `ticket.expiresAt && scannedAt > ticket.expiresAt`
abbrev pub is_over : Option ℕ → ℕ → Bool
is_over none now = false
is_over (some t) now = ltb t now

-- `!ticket.admissionTokenHash || ticket.admissionTokenHash !== tokenHash`
abbrev pub is_wrong_token : Option ℕ → ℕ → Bool
is_wrong_token none hash = true
is_wrong_token (some h) hash = not (h == hash)

-- The tests of `classifyTicketState` that follow those of the status.
abbrev pub classify_issued : ScanTicket → ℕ → Option RejectionReason
classify_issued t now =
    if not (is_published t.event.status)
    then some RejectionReason.event_not_active
    else if is_over t.ticket.expires_at now
    then some RejectionReason.ticket_expired
    else if ltb t.event.ends_at now
    then some RejectionReason.event_not_active
    else none

abbrev pub classify_status : TicketStatus → Option RejectionReason → Option RejectionReason
classify_status TicketStatus.used rest = some RejectionReason.ticket_already_used
classify_status TicketStatus.voided rest = some RejectionReason.ticket_voided
classify_status TicketStatus.invalidated rest = some RejectionReason.ticket_voided
classify_status TicketStatus.refunded rest = some RejectionReason.ticket_voided
classify_status TicketStatus.blocked rest = some RejectionReason.ticket_voided
classify_status TicketStatus.expired rest = some RejectionReason.ticket_expired
classify_status TicketStatus.issued rest = rest
classify_status _ rest = some RejectionReason.ticket_not_issued

-- `classifyTicketState`
unfoldable pub classify_ticket_state : ScanTicket → ℕ → Option RejectionReason
classify_ticket_state t now = classify_status t.ticket.status (classify_issued t now)

-- The guards of `scanTicket` on a ticket that is found.
unfoldable pub preflight : ℕ → ScanInput → ScanTicket → ℕ → Option RejectionReason
unfolding classify_ticket_state
preflight hash input t now =
    if is_wrong_token t.ticket.admission_token_hash hash
    then some RejectionReason.invalid_token
    else if differs t.ticket.organizer_id t.event.organizer_id
    then some RejectionReason.organizer_mismatch
    else if not (t.organizer.owner_user_id == input.scanned_by_user_id)
    then some RejectionReason.staff_not_authorized
    else if differs input.event_id t.ticket.event_id
    then some RejectionReason.event_mismatch
    else classify_ticket_state t now

abbrev pub organizer_of : ScanTicket → ℕ
organizer_of t = elim t.ticket.organizer_id [ none ↦ t.event.organizer_id | some id ↦ id ]

-- The row of a decision on a ticket that is found: `buildTicketAuditInput`.
abbrev pub ticket_audit : ℕ → ScanInput → ScanTicket → ℕ → Option RejectionReason → ScanAudit
ticket_audit hash input t now reason = record {
  ticket_id = some t.ticket.id;
  event_id = some t.ticket.event_id;
  organizer_id = some (organizer_of t);
  scanned_by_user_id = input.scanned_by_user_id;
  rejection_reason = reason;
  token_hash = hash;
  device_id = input.device_id;
  gate_label = input.gate_label;
  provided_event_id = input.event_id;
  scanned_at = now;
}

-- The row for a ticket that is not found.
abbrev pub missing_audit : ℕ → ScanInput → ℕ → ScanAudit
missing_audit hash input now = record {
  ticket_id = none;
  event_id = none;
  organizer_id = none;
  scanned_by_user_id = input.scanned_by_user_id;
  rejection_reason = some RejectionReason.ticket_not_found;
  token_hash = hash;
  device_id = input.device_id;
  gate_label = input.gate_label;
  provided_event_id = input.event_id;
  scanned_at = now;
}

abbrev pub with_scan : ScanAudit → Db → Db
with_scan row db = record db { scan_audits = row ∷ db.scan_audits }

abbrev pub rejection : RejectionReason → ℕ → ScanResponse
rejection reason now = record {
  accepted = false;
  rejection_reason = some reason;
  ticket_id = none;
  scanned_at = now;
}

abbrev pub acceptance : ℕ → ℕ → ScanResponse
acceptance id now = record {
  accepted = true;
  rejection_reason = none;
  ticket_id = some id;
  scanned_at = now;
}

-- The WHERE clause of `markUsedIfIssuable`.
abbrev pub is_issuable : ℕ → ℕ → Ticket → Bool
is_issuable id hash t =
    t.id == id && (is_issued t.status && not (is_wrong_token t.admission_token_hash hash))

abbrev pub as_used : ℕ → Ticket → Ticket
as_used now t = record t { status = TicketStatus.used; used_at = some now }

-- `markUsedIfIssuable`: the number of rows that it updated.
unfoldable pub mark_used_if_issuable : ℕ → ℕ → ℕ → Tx ℕ
mark_used_if_issuable id hash now db = ok (
  length (select_rows (is_issuable id hash) db.tickets),
  record db { tickets = update_rows (is_issuable id hash) (as_used now) db.tickets },
)

-- Why a ticket that was not updated is rejected.
abbrev pub reason_reloaded : Option RejectionReason → RejectionReason
reason_reloaded none = RejectionReason.token_replay_detected
reason_reloaded (some reason) = reason

-- The end of a transaction that updated no ticket.
unfoldable pub reject_reloaded : ℕ → ScanInput → ℕ → Option ScanTicket → Tx ScanResponse
unfolding classify_ticket_state
reject_reloaded hash input now none = do
  modify (with_scan (missing_audit hash input now))
  pure (rejection RejectionReason.ticket_not_found now)
reject_reloaded hash input now (some t) = do
  let reason = reason_reloaded (classify_ticket_state t now)
  modify (with_scan (ticket_audit hash input t now (some reason)))
  pure (rejection reason now)

unfoldable pub accept_ticket : ℕ → ScanInput → ScanTicket → ℕ → Tx ScanResponse
accept_ticket hash input t now = do
  modify (with_scan (ticket_audit hash input t now none))
  pure (acceptance t.ticket.id now)

-- The transaction of `scanTicket`, for the ticket as the first look saw it.
unfoldable pub admit_tx : ℕ → ScanInput → ScanTicket → ℕ → Tx ScanResponse
unfolding mark_used_if_issuable accept_ticket find_for_admission_scan reject_reloaded
admit_tx hash input t now = do
  updated ← mark_used_if_issuable t.ticket.id hash now
  reloaded ← gets (find_for_admission_scan t.ticket.id)
  if updated == 1 then accept_ticket hash input t now else reject_reloaded hash input now reloaded

unfoldable pub after_preflight :
    ℕ → ScanInput → ScanTicket → ℕ → Option RejectionReason → Call ScanResponse
unfolding admit_tx
after_preflight hash input t now (some reason) db =
    (ok (rejection reason now), with_scan (ticket_audit hash input t now (some reason)) db)
after_preflight hash input t now none db = run_in_transaction (admit_tx hash input t now) db

unfoldable pub after_lookup : ℕ → ScanInput → ℕ → Option ScanTicket → Call ScanResponse
unfolding preflight after_preflight
after_lookup hash input now none db = (
  ok (rejection RejectionReason.ticket_not_found now),
  with_scan (missing_audit hash input now) db,
)
after_lookup hash input now (some t) db =
    after_preflight hash input t now (preflight hash input t now) db

-- `AdmissionsService.scanTicket`
unfoldable pub scan_ticket : (String → ℕ) → ScanInput → ℕ → Call ScanResponse
unfolding find_for_admission_scan after_lookup
scan_ticket sha256 input now db =
    after_lookup (sha256 input.token) input now (find_for_admission_scan input.ticket_id db) db
