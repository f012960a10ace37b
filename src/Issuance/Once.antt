-- ===== src/Issuance/Once.antt =====
-- One ticket for an intent.
use govibe_core.Prelude.{◌≡◌, refl, subst, ℕ, Bool, true, false, Option, none, some, arith}
use govibe_core.Store.{
  Db, Event, Ticket, PaymentIntent, is_intent_verified, ok, Post, Post-at, Post-gets, Post-or_throw,
  ◌>>=◌, atomic, ◌>=>◌, then-began, committed,
}
use govibe_core.Intents.Repository.{find_intent}
use govibe_core.Issuance.Repository.{find_issued, append_issuance_audit}
use govibe_core.Issuance.Service.{
  Drawn, Outcome, created, existing, rejected, failed, has_issuance_snapshot, find_event_of,
  issue_by, issue_for_event, issue_with_snapshot, issue_intent, issue_from_intent_tx, IssuedTicket,
  answer_of, issue_from_intent,
}
use govibe_core.Issuance.Ready.{IsIssued, Leaves, for_event}

module _ (drawn : Drawn) (id : ℕ) where
  -- A branch that only writes an audit row of its refusal.
  by_event :
      (intent : PaymentIntent) (event : Option Event) (db : Db)
      → find_intent id db ≡ some intent
      → is_intent_verified intent.status ≡ true
      → has_issuance_snapshot intent db ≡ true
      → find_event_of intent db ≡ event
      → Post (issue_for_event drawn intent event db) (Leaves id)
  unfolding issue_for_event append_issuance_audit ◌>>=◌
  by_event intent none db f v s e = tt
  by_event intent (some event) db f v s e =
      for_event drawn id intent event db
        (record { found = f; verified = v; snapshot = s; event_found = e })

  by_snapshot :
      (intent : PaymentIntent) (snapshot : Bool) (db : Db)
      → find_intent id db ≡ some intent
      → is_intent_verified intent.status ≡ true
      → has_issuance_snapshot intent db ≡ snapshot
      → Post (issue_with_snapshot drawn intent snapshot db) (Leaves id)
  unfolding issue_with_snapshot append_issuance_audit ◌>>=◌
  by_snapshot intent false db f v s = tt
  by_snapshot intent true db f v s = by_event intent _ db f v s refl

  by_status :
      (intent : PaymentIntent) (verified : Bool) (db : Db)
      → find_intent id db ≡ some intent
      → is_intent_verified intent.status ≡ verified
      → Post (issue_intent drawn intent verified db) (Leaves id)
  unfolding issue_intent append_issuance_audit ◌>>=◌
  by_status intent false db f v = tt
  by_status intent true db f v = by_snapshot intent _ db f v refl

  pub issue_tx-Leaves : (db : Db) → Post (issue_from_intent_tx drawn id db) (Leaves id)
  unfolding issue_from_intent_tx
  issue_tx-Leaves db =
      Post-gets (Leaves id) _ _ db
        (Post-or_throw (Leaves id) _ _ _ db (λ intent f. by_status intent _ db f refl))

  -- The answer is of an outcome with a ticket.
  answered :
      (outcome : Outcome) (db db' : Db) (r : IssuedTicket)
      → Leaves id outcome db
      → answer_of outcome db ≡ (ok r, db')
      → IsIssued id r.ticket db'
  unfolding answer_of
  answered (created ticket token) db db' r h e =
      subst (λ (c : Db). IsIssued id r.ticket c) (ground (arith, e))
        (subst (λ t. IsIssued id t db) (ground (arith, e)) h)
  answered (existing ticket) db db' r h e =
      subst (λ (c : Db). IsIssued id r.ticket c) (ground (arith, e))
        (subst (λ t. IsIssued id t db) (ground (arith, e)) h)
  answered (rejected message) db db' r h e = absurd (ground (arith, e))
  answered (failed message) db db' r h e = absurd (ground (arith, e))

  -- An issuance that succeeds leaves its ticket as that of a verified intent, whose buyer, event and
  -- organizer are there.
  pub issue_from_intent-IsIssued :
      (db db' : Db) (r : IssuedTicket)
      → issue_from_intent drawn id db ≡ (ok r, db')
      → IsIssued id r.ticket db'
  unfolding issue_from_intent atomic
  issue_from_intent-IsIssued db db' r run =
      let (outcome, d, began, went) =
        then-began (atomic (issue_from_intent_tx drawn id)) answer_of db db' r run in
      answered outcome d db' r
        (Post-at (Leaves id) (issue_tx-Leaves db)
          (committed (issue_from_intent_tx drawn id) db d outcome began))
        went

  -- Where the ticket is issued, an issuance gives it again, without a token.
  replays :
      (ticket : Ticket) (db : Db)
      → IsIssued id ticket db
      → (db' : Db) × (issue_from_intent drawn id db
          ≡ (ok (record { ticket = ticket; token = none }), db'))
        × (db'.tickets ≡ db.tickets)
  unfolding issue_from_intent issue_from_intent_tx issue_intent issue_with_snapshot issue_for_event
      issue_by append_issuance_audit answer_of atomic ◌>=>◌ ◌>>=◌ find_issued
  replays ticket db h = (
    (issue_from_intent drawn id db).1,
    rw (h.found, h.verified, h.snapshot, h.event_found, h.issued) refl,
    rw (h.found, h.verified, h.snapshot, h.event_found, h.issued) refl,
  )

-- After an issuance that succeeded, another one for the intent, whatever it draws, gives the same
-- ticket without a token, and makes no ticket.
pub issue_from_intent_twice :
    (drawn drawn' : Drawn) (id : ℕ) (db db' : Db) (r : IssuedTicket)
    → issue_from_intent drawn id db ≡ (ok r, db')
    → (db2 : Db) × (issue_from_intent drawn' id db'
        ≡ (ok (record { ticket = r.ticket; token = none }), db2))
      × (db2.tickets ≡ db'.tickets)
issue_from_intent_twice drawn drawn' id db db' r run =
    replays drawn' id r.ticket db' (issue_from_intent-IsIssued drawn id db db' r run)
