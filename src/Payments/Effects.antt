-- ===== src/Payments/Effects.antt =====
-- What a committed verification has checked and done.
use govibe_core.Prelude.{
  ℕ, ◌≡◌, refl, true, false, Option, some, List, ◌∷◌, arith, ◌==◌, text_eq, if◌then◌else◌,
  update_rows, Bool-cases, inl, inr,
}
use govibe_core.Store.{
  Db, Clock, Order, Payment, PaymentStatus, is_success, LedgerEntry, AuditLog, OutboxEvent, ◌>>=◌,
  Post, Post-gets, Post-or_throw, Post-throw_if, Post-write,
}
use govibe_core.Context.{RequestContext, correlation_of, Uuids}
use govibe_core.Journal.Keeps.{with_audit, with_event, append_both_writes}
use govibe_core.Orders.{find_order}
use govibe_core.Orders.Writes.{with_order_status, update_order_status_writes}
use govibe_core.Payments.Verify.{
  Verification, VerifyInput, VerifyResult, map_provider_status, map_order_status, is_terminal,
  find_by_ref, set_payment_status, update_payment_status, append_ledger, credit_row,
  credit_if_success, outcome_event, verify_tx,
}

abbrev pub with_payment_status : ℕ → PaymentStatus → Db → Db
with_payment_status id s db = record db {
  payments = update_rows (λ r. r.id == id) (set_payment_status s) db.payments;
}

-- The ledger after the entry of a success; any other status adds nothing.
abbrev pub credited :
    Uuids → Payment → Verification → Option ℕ → PaymentStatus → List LedgerEntry → List LedgerEntry
credited uuid payment v correlation s es =
    if is_success s then credit_row (uuid 0) payment v correlation ∷ es else es

abbrev pub with_credit : Uuids → Payment → Verification → Option ℕ → PaymentStatus → Db → Db
with_credit uuid payment v correlation s db = record db {
  ledger_entries = credited uuid payment v correlation s db.ledger_entries;
}

update_payment_status_writes :
    (id : ℕ) (s : PaymentStatus) (db : Db)
    → Post (update_payment_status id s db) (λ _ db'. db' ≡ with_payment_status id s db)
unfolding update_payment_status ◌>>=◌
update_payment_status_writes id s db = ground arith

append_ledger_writes :
    (row : LedgerEntry) (db : Db)
    → Post
        (append_ledger row db)
        (λ _ db'. db' ≡ record db { ledger_entries = row ∷ db.ledger_entries })
unfolding append_ledger ◌>>=◌
append_ledger_writes row db = ground arith

credit_if_success_writes :
    (uuid : Uuids) (p : Payment) (v : Verification) (corr : Option ℕ) (s : PaymentStatus) (db : Db)
    → Post (credit_if_success uuid p v corr s db) (λ _ db'. db' ≡ with_credit uuid p v corr s db)
unfolding credit_if_success
credit_if_success_writes uuid p v corr s db = elim (Bool-cases (is_success s)) [
  | inl e ↦ rw (e, if◌then◌else◌) (append_ledger_writes (credit_row (uuid 0) p v corr) db)
  | inr e ↦ rw (e, if◌then◌else◌) refl
]

-- The database after the writes of a verification with outcome `s`.
abbrev pub verified_books : Uuids → Payment → Verification → Option ℕ → PaymentStatus → Db → Db
verified_books uuid payment v corr s db =
    with_credit uuid payment v corr s (
      with_order_status payment.order_id (map_order_status s) (with_payment_status payment.id s db))

pub record IsVerified (uuid : Uuids) (ctx : Option RequestContext) (input : VerifyInput)
    (v : Verification) (db : Db) (r : VerifyResult) (db' : Db) : Type 0 where
  pub payment : Payment
  pub order : Order
  pub found : find_by_ref input.provider input.provider_ref db.payments ≡ some payment
  pub unfinished : is_terminal payment.status ≡ false
  pub found_order : find_order payment.order_id db.orders ≡ some order
  pub amount : v.amount_minor ≡ payment.amount
  pub currency : text_eq v.currency order.currency ≡ true
  pub result : r ≡ record {
    payment_id = payment.id;
    order_id = payment.order_id;
    payment_status = map_provider_status v.status;
    order_status = map_order_status (map_provider_status v.status);
  }
  pub audit : AuditLog
  pub event : OutboxEvent
  pub event_type : event.event_type ≡ outcome_event (map_provider_status v.status)
  pub after :
      db'
      ≡ with_event event (
          with_audit audit
            (verified_books uuid payment v (correlation_of ctx) (map_provider_status v.status) db))

pub verify_tx-IsVerified :
    (clock : Clock) (uuid : Uuids) (ctx : Option RequestContext) (input : VerifyInput)
    (v : Verification) (db : Db)
    → Post (verify_tx clock uuid ctx input v db) (IsVerified uuid ctx input v db)
unfolding verify_tx
verify_tx-IsVerified clock uuid ctx input v db = Post-gets Q _ _ db (
    Post-or_throw Q _ _ _ db (λ p found. Post-throw_if Q _ _ _ db (λ unfinished.
      Post-gets Q _ _ db (
        Post-or_throw Q _ _ _ db (λ order found_order. Post-throw_if Q _ _ _ db (λ matches.
          Post-write Q _ _ db _ (update_payment_status_writes _ _ db) (
            Post-write Q _ _ _ _ (update_order_status_writes _ _ _) (
              Post-write Q _ _ _ _
                (credit_if_success_writes uuid p v (correlation_of ctx) status (ordered p))
                (Post-write Q _ _ _ _ (append_both_writes _ _ _) (
                  finish p order found unfinished found_order (ground arith) (ground arith) _ _
                    refl))))))))))
  where
    Q : VerifyResult → Db → Type 0
    Q = IsVerified uuid ctx input v db

    status : PaymentStatus
    status = map_provider_status v.status

    ordered : Payment → Db
    ordered p =
        with_order_status p.order_id (map_order_status status) (with_payment_status p.id status db)

    finish :
        (p : Payment) (order : Order)
        → find_by_ref input.provider input.provider_ref db.payments ≡ some p
        → is_terminal p.status ≡ false
        → find_order p.order_id db.orders ≡ some order
        → v.amount_minor ≡ p.amount
        → text_eq v.currency order.currency ≡ true
        → (audit : AuditLog) (event : OutboxEvent)
        → event.event_type ≡ outcome_event (map_provider_status v.status)
        → Q
            (record {
              payment_id = p.id;
              order_id = p.order_id;
              payment_status = map_provider_status v.status;
              order_status = map_order_status (map_provider_status v.status);
            })
            (with_event event (
              with_audit audit
                (verified_books uuid p v (correlation_of ctx) (map_provider_status v.status) db)))
    finish p order found unfinished found_order amount currency audit event named = record {
      payment = p;
      order = order;
      found = found;
      unfinished = unfinished;
      found_order = found_order;
      amount = amount;
      currency = currency;
      result = refl;
      audit = audit;
      event = event;
      event_type = named;
      after = refl;
    }
