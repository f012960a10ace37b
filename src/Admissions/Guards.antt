-- ===== src/Admissions/Guards.antt =====
-- What an accepted scan has checked.
use govibe_core.Prelude.{
  ℕ, ◌≤◌, ◌≡◌, refl, sym, ap, ◌∙◌, String, true, false, Option, none, some, arith, Option-cases,
  inl, inr,
}
use govibe_core.Store.{Db, ok, TicketStatus, is_issued, is_published, RejectionReason}
use govibe_core.Admissions.Scan.{
  ScanInput, ScanResponse, ScanTicket, find_for_admission_scan, classify_ticket_state,
  classify_status, classify_issued, preflight, differs, is_over, is_wrong_token, after_preflight,
  after_lookup, scan_ticket,
}

-- The ticket may be admitted by this scan: it is issued for a published event that has not ended,
-- it has not expired, its token is the one presented, and the event is the scanner's.
pub record IsAdmissible (hash : ℕ) (input : ScanInput) (now : ℕ) (t : ScanTicket) : Type 0 where
  pub token : is_wrong_token t.ticket.admission_token_hash hash ≡ false
  pub organizer : differs t.ticket.organizer_id t.event.organizer_id ≡ false
  pub owner : t.organizer.owner_user_id ≡ input.scanned_by_user_id
  pub event : differs input.event_id t.ticket.event_id ≡ false
  pub issued : is_issued t.ticket.status ≡ true
  pub published : is_published t.event.status ≡ true
  pub fresh : is_over t.ticket.expires_at now ≡ false
  pub running : now ≤ t.event.ends_at

status_passes :
    (s : TicketStatus) (rest : Option RejectionReason)
    → classify_status s rest ≡ none
    → (is_issued s ≡ true) × (rest ≡ none)
status_passes TicketStatus.issued rest h = (refl, h)
status_passes TicketStatus.active rest h = absurd (ground arith)
status_passes TicketStatus.used rest h = absurd (ground arith)
status_passes TicketStatus.exited rest h = absurd (ground arith)
status_passes TicketStatus.invalidated rest h = absurd (ground arith)
status_passes TicketStatus.refunded rest h = absurd (ground arith)
status_passes TicketStatus.blocked rest h = absurd (ground arith)
status_passes TicketStatus.voided rest h = absurd (ground arith)
status_passes TicketStatus.expired rest h = absurd (ground arith)

issued_passes :
    (t : ScanTicket) (now : ℕ)
    → classify_issued t now ≡ none
    → (is_published t.event.status ≡ true)
      × (is_over t.ticket.expires_at now ≡ false)
      × (now ≤ t.event.ends_at)
issued_passes t now h = ground arith

guards_pass :
    (hash : ℕ) (input : ScanInput) (t : ScanTicket) (now : ℕ)
    → preflight hash input t now ≡ none
    → (is_wrong_token t.ticket.admission_token_hash hash ≡ false)
      × (differs t.ticket.organizer_id t.event.organizer_id ≡ false)
      × (t.organizer.owner_user_id ≡ input.scanned_by_user_id)
      × (differs input.event_id t.ticket.event_id ≡ false)
      × (classify_ticket_state t now ≡ none)
unfolding preflight
guards_pass hash input t now h = ground arith

preflight-IsAdmissible :
    (hash : ℕ) (input : ScanInput) (t : ScanTicket) (now : ℕ)
    → preflight hash input t now ≡ none
    → IsAdmissible hash input now t
unfolding classify_ticket_state
preflight-IsAdmissible hash input t now h =
    let (token, organizer, owner, event, state) = guards_pass hash input t now h in
    let (issued, rest) = status_passes t.ticket.status (classify_issued t now) state in
    let (published, fresh, running) = issued_passes t now rest in
    record {
      token = token;
      organizer = organizer;
      owner = owner;
      event = event;
      issued = issued;
      published = published;
      fresh = fresh;
      running = running;
    }

-- A scan that is accepted is of a ticket that is found and may be admitted by it.
pub scan_ticket-IsAdmissible :
    (sha256 : String → ℕ) (input : ScanInput) (now : ℕ) (db db' : Db) (r : ScanResponse)
    → scan_ticket sha256 input now db ≡ (ok r, db')
    → r.accepted ≡ true
    → (t : ScanTicket) × (find_for_admission_scan input.ticket_id db ≡ some t)
      × IsAdmissible (sha256 input.token) input now t
unfolding scan_ticket after_lookup after_preflight
scan_ticket-IsAdmissible sha256 input now db db' r run accepted =
    elim (Option-cases (find_for_admission_scan input.ticket_id db)) [
      | inl e ↦
          absurd
            (ground (arith, ap (λ o. after_lookup hash input now o db) (sym e) ∙ run, accepted))
      | inr (t, e) ↦ elim (Option-cases (preflight hash input t now)) [
        | inr (reason, p) ↦ absurd (
            ground (
              arith,
              ap (λ o. after_preflight hash input t now o db) (sym p)
                  ∙ ap (λ o. after_lookup hash input now o db) (sym e)
                  ∙ run,
              accepted,
            ))
        | inl p ↦ (t, e, preflight-IsAdmissible hash input t now p)
      ]
    ]
  where
    hash : ℕ
    hash = sha256 input.token
