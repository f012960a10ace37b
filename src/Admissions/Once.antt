-- ===== src/Admissions/Once.antt =====
-- A ticket is admitted once.
use govibe_core.Prelude.{
  ℕ, ◌≡◌, refl, sym, ap, ◌∙◌, true, false, Option, none, some, List, [], ◌∷◌, arith, length, ◌==◌,
  if◌then◌else◌, update_rows, select_rows, Bool-cases, inl, inr,
}
use govibe_core.Store.{Db, Ticket, Result, ok, err, ◌>>=◌}
use govibe_core.Admissions.Scan.{
  ScanInput, ScanResponse, ScanTicket, find_for_admission_scan, is_issuable, as_used,
  mark_used_if_issuable, reject_reloaded, accept_ticket, admit_tx,
}

-- A row that was marked cannot be marked again.
none_left :
    (id hash now : ℕ) (rows : List Ticket)
    → select_rows (is_issuable id hash) (update_rows (is_issuable id hash) (as_used now) rows) ≡ []
unfolding select_rows update_rows
none_left id hash now [] = refl
none_left id hash now (t ∷ rows) = elim (Bool-cases (is_issuable id hash t)) [
  | inl p ↦ ground (arith, p, none_left id hash now rows)
  | inr p ↦ ground (arith, p, none_left id hash now rows)
]

abbrev marked : ℕ → ℕ → ℕ → Db → Db
marked id hash now db = record db {
  tickets = update_rows (is_issuable id hash) (as_used now) db.tickets;
}

rejected_ends :
    (hash : ℕ) (input : ScanInput) (now : ℕ) (o : Option ScanTicket) (db : Db)
    → (r : ScanResponse) × (db' : Db) × (reject_reloaded hash input now o db ≡ ok (r, db'))
      × (r.accepted ≡ false)
unfolding reject_reloaded ◌>>=◌
rejected_ends hash input now none db = (_, _, refl, refl)
rejected_ends hash input now (some t) db = (_, _, refl, refl)

module _ (hash : ℕ) (input : ScanInput) (t : ScanTicket) (now : ℕ) (db : Db) where
  abbrev id : ℕ
  id = t.ticket.id

  abbrev updated : ℕ
  updated = length (select_rows (is_issuable id hash) db.tickets)

  abbrev reloaded : Option ScanTicket
  reloaded = find_for_admission_scan id (marked id hash now db)

  admits :
      (updated == 1) ≡ true
      → admit_tx hash input t now db ≡ accept_ticket hash input t now (marked id hash now db)
  unfolding admit_tx mark_used_if_issuable ◌>>=◌
  admits h = rw (h, if◌then◌else◌) refl

  rejects :
      (updated == 1) ≡ false
      → admit_tx hash input t now db
        ≡ reject_reloaded hash input now reloaded (marked id hash now db)
  unfolding admit_tx mark_used_if_issuable ◌>>=◌
  rejects h = rw (h, if◌then◌else◌) refl

  -- An accepted scan has marked the rows.
  accepted_marks :
      (r : ScanResponse) (db' : Db)
      → admit_tx hash input t now db ≡ ok (r, db')
      → r.accepted ≡ true
      → db'.tickets ≡ (marked id hash now db).tickets
  unfolding accept_ticket ◌>>=◌
  accepted_marks r db' run accepted = elim (Bool-cases (updated == 1)) [
    | inl h ↦ ap tickets_of (sym (sym (admits h) ∙ run))
    | inr h ↦
        let (r', db2, ran, refused) =
          rejected_ends hash input now reloaded (marked id hash now db) in
        absurd (ground (arith, sym ran ∙ sym (rejects h) ∙ run, accepted, refused))
  ]
    where
      tickets_of : Result (ScanResponse × Db) → List Ticket
      tickets_of (ok (a, d)) = d.tickets
      tickets_of (err e) = []

-- A ticket is admitted once by its token: after a scan that was accepted, the transaction of any
-- other scan of the same ticket with the same token hash ends normally and rejects, at whatever
-- time, and whatever its first look at the ticket saw.
pub admit_once :
    (hash : ℕ) (input input' : ScanInput) (t t' : ScanTicket) (now now' : ℕ) (db db' : Db)
    (r : ScanResponse)
    → admit_tx hash input t now db ≡ ok (r, db')
    → r.accepted ≡ true
    → t'.ticket.id ≡ t.ticket.id
    → (r' : ScanResponse) × (db2 : Db) × (admit_tx hash input' t' now' db' ≡ ok (r', db2))
      × (r'.accepted ≡ false)
admit_once hash input input' t t' now now' db db' r run accepted same =
    let (r', db2, ran, refused) =
      rejected_ends hash input' now' (reloaded hash input' t' now' db')
        (marked t'.ticket.id hash now' db') in
    (r', db2, rejects hash input' t' now' db' (ground (arith, ap length left)) ∙ ran, refused)
  where
    left : select_rows (is_issuable t'.ticket.id hash) db'.tickets ≡ []
    left =
        rw (same, accepted_marks hash input t now db r db' run accepted)
          (none_left t.ticket.id hash now db.tickets)
