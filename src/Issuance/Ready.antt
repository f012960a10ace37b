-- ===== src/Issuance/Ready.antt =====
-- What an issuance leaves, from the guards on.
use govibe_core.Prelude.{
  ◌≡◌, refl, ap, ℕ, Bool, true, false, Option, none, some, arith, ==_refl, if◌then◌else◌, find_row,
  is_some,
}
use govibe_core.Store.{
  Db, Event, Ticket, PaymentIntent, is_intent_verified, Post, Post-gets, Post-modify, ◌>>=◌, ◌>>◌,
  throw_if, modify, unique_violation,
}
use govibe_core.Intents.Repository.{find_intent}
use govibe_core.Initiation.Guards.{find_user, find_payable_event}
use govibe_core.Issuance.Repository.{
  is_of_intent, find_issued, clashes_with, with_ticket, create_issued_ticket, append_issuance_audit,
}
use govibe_core.Issuance.Service.{
  Drawn, Outcome, created, existing, rejected, failed, has_issuance_snapshot, find_event_of,
  issued_ticket, after_ticket, create_ticket_of, issue_by, issue_for_event,
}

-- The ticket has been issued for a verified intent, whose buyer and event are there.
pub record IsIssued (id : ℕ) (ticket : Ticket) (db : Db) : Type 0 where
  pub intent : PaymentIntent
  pub event : Event
  pub found : find_intent id db ≡ some intent
  pub verified : is_intent_verified intent.status ≡ true
  pub snapshot : has_issuance_snapshot intent db ≡ true
  pub event_found : find_event_of intent db ≡ some event
  pub issued : find_issued intent db ≡ some ticket

-- What the transaction leaves of each outcome.
abbrev pub Leaves : ℕ → Outcome → Db → Type 0
Leaves id (created ticket token) db = IsIssued id ticket db
Leaves id (existing ticket) db = IsIssued id ticket db
Leaves id (rejected message) db = Unit
Leaves id (failed message) db = Unit

module _ (drawn : Drawn) (id : ℕ) (intent : PaymentIntent) (event : Event) where
  -- The guards before the ticket, and no word of the ticket.
  pub record IsReady (db : Db) : Type 0 where
    pub found : find_intent id db ≡ some intent
    pub verified : is_intent_verified intent.status ≡ true
    pub snapshot : has_issuance_snapshot intent db ≡ true
    pub event_found : find_event_of intent db ≡ some event

  issued_lem :
      (db : Db) (ticket : Ticket)
      → IsReady db
      → find_issued intent db ≡ some ticket
      → IsIssued id ticket db
  issued_lem db ticket r e = record {
    intent = intent;
    event = event;
    found = r.found;
    verified = r.verified;
    snapshot = r.snapshot;
    event_found = r.event_found;
    issued = e;
  }

  created_lem : (db : Db) → IsReady db → Post (create_ticket_of drawn intent event db) (Leaves id)
  unfolding create_ticket_of after_ticket create_issued_ticket append_issuance_audit ◌>>=◌
      find_intent has_issuance_snapshot find_event_of find_user find_payable_event find_issued
      find_row
  created_lem db r =
      go (is_some (find_row (clashes_with intent (issued_ticket drawn intent event)) db.tickets))
    where
      own : is_of_intent intent (issued_ticket drawn intent event) ≡ true
      own = ground (arith, ==_refl intent.id, ==_refl intent.buyer_user_id, ==_refl intent.event_id)

      go :
          (clash : Bool)
          → Post
              (after_ticket drawn intent (issued_ticket drawn intent event) db (
                (throw_if clash unique_violation
                    >> modify (with_ticket (issued_ticket drawn intent event)))
                  db))
              (Leaves id)
      go true = tt
      go false = record {
        intent = intent;
        event = event;
        found = r.found;
        verified = r.verified;
        snapshot = r.snapshot;
        event_found = r.event_found;
        issued =
            ap
              (λ b.
                if b
                then some (issued_ticket drawn intent event)
                else find_row (is_of_intent intent) db.tickets)
              own;
      }

  replayed :
      (db : Db) (ticket : Ticket)
      → find_issued intent db ≡ some ticket
      → IsReady db
      → Post (issue_by drawn intent event (some ticket) db) (Leaves id)
  unfolding issue_by append_issuance_audit find_intent has_issuance_snapshot find_event_of find_user
      find_payable_event find_issued
  replayed db ticket e r = Post-modify (Leaves id) _ _ db (record {
    intent = intent;
    event = event;
    found = r.found;
    verified = r.verified;
    snapshot = r.snapshot;
    event_found = r.event_found;
    issued = e;
  })

  by_ticket :
      (ticket : Option Ticket) (db : Db)
      → find_issued intent db ≡ ticket
      → IsReady db
      → Post (issue_by drawn intent event ticket db) (Leaves id)
  unfolding issue_by
  by_ticket none db e r = created_lem db r
  by_ticket (some t) db e r = replayed db t e r

  pub for_event :
      (db : Db) → IsReady db → Post (issue_for_event drawn intent (some event) db) (Leaves id)
  unfolding issue_for_event append_issuance_audit find_intent has_issuance_snapshot find_event_of
      find_user find_payable_event
  for_event db r = Post-modify (Leaves id) _ _ db (
      Post-gets (Leaves id) _ _ _ (
        by_ticket _ _ refl (record {
          found = r.found;
          verified = r.verified;
          snapshot = r.snapshot;
          event_found = r.event_found;
        })))
