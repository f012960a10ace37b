-- ===== src/Payments/Outcome.antt =====
-- The rows after a verification, and a second verification of a finished payment.
use govibe_core.Prelude.{
  ℕ, ◌≡◌, refl, ap, ◌∙◌, true, Option, some, List, ◌∷◌, arith, ◌==◌, ==_refl, if◌then◌else◌,
  text_eq_sound, find_row_sound, find_row-update_rows, update_rows,
}
use govibe_core.Store.{
  Db, Clock, Order, OrderStatus, Payment, PaymentStatus, is_success, LedgerEntry, LedgerDirection,
  err, Post, Post-weaken, payment_already_processed, run_gets, run_found, run_throw,
}
use govibe_core.Context.{RequestContext, correlation_of, Uuids}
use govibe_core.Orders.{find_order, set_order_status}
use govibe_core.Payments.Verify.{
  Verification, VerifyInput, VerifyResult, map_provider_status, map_order_status, is_terminal,
  find_by_ref, by_ref, set_payment_status, verify_tx,
}
use govibe_core.Payments.Effects.{credited, IsVerified, verify_tx-IsVerified}

-- A credit of the payment's whole amount in the currency of its order.
abbrev pub cash_in : ℕ → Payment → Order → Option ℕ → LedgerEntry
cash_in id payment order correlation = record {
  id = id;
  order_id = payment.order_id;
  payment_id = payment.id;
  direction = LedgerDirection.credit;
  account_type = "CUSTOMER_CASH_IN";
  amount = payment.amount;
  currency = order.currency;
  correlation_id = correlation;
}

-- The rows after a committed verification: the payment and its order have the statuses that the
-- provider's answer maps to, and a success adds one credit of the payment's amount to the ledger.
pub record Settles (uuid : Uuids) (ctx : Option RequestContext) (input : VerifyInput)
    (v : Verification) (db : Db) (r : VerifyResult) (db' : Db) : Type 0 where
  pub payment : Payment
  pub order : Order
  pub found : find_by_ref input.provider input.provider_ref db.payments ≡ some payment
  pub found_order : find_order payment.order_id db.orders ≡ some order
  pub result : r.payment_status ≡ map_provider_status v.status
  pub found' :
      find_by_ref input.provider input.provider_ref db'.payments
      ≡ some (set_payment_status (map_provider_status v.status) payment)
  pub found_order' :
      find_order payment.order_id db'.orders
      ≡ some (set_order_status (map_order_status (map_provider_status v.status)) order)
  pub ledger : db'.ledger_entries ≡ (
      if is_success r.payment_status
      then cash_in (uuid 0) payment order (correlation_of ctx) ∷ db.ledger_entries
      else db.ledger_entries)

-- The payment that is found is among the rows that are updated.
payment_after :
    (input : VerifyInput) (s : PaymentStatus) (ps : List Payment) (p : Payment)
    → find_by_ref input.provider input.provider_ref ps ≡ some p
    → find_by_ref input.provider input.provider_ref
        (update_rows (λ r. r.id == p.id) (set_payment_status s) ps)
      ≡ some (set_payment_status s p)
unfolding find_by_ref
payment_after input s ps p found = rw (
  find_row-update_rows (by_ref input.provider input.provider_ref) (λ r. r.id == p.id)
      (set_payment_status s) ps (λ x. refl),
  found,
  ==_refl p.id,
  if◌then◌else◌,
)

order_after :
    (id : ℕ) (s : OrderStatus) (os : List Order) (o : Order)
    → find_order id os ≡ some o
    → find_order id (update_rows (λ r. r.id == id) (set_order_status s) os)
      ≡ some (set_order_status s o)
order_after id s os o found = rw (
  find_row-update_rows (λ (r : Order). r.id == id) (λ r. r.id == id) (set_order_status s) os
      (λ x. refl),
  found,
  find_row_sound (λ (r : Order). r.id == id) os found,
  if◌then◌else◌,
)

ledger_after :
    (uuid : Uuids) (p : Payment) (o : Order) (v : Verification) (corr : Option ℕ)
    (s s' : PaymentStatus) (es : List LedgerEntry)
    → v.amount_minor ≡ p.amount
    → v.currency ≡ o.currency
    → s' ≡ s
    → credited uuid p v corr s es ≡ (if is_success s' then cash_in (uuid 0) p o corr ∷ es else es)
ledger_after uuid p o v corr s s' es amount currency same = ground arith

-- Whenever a verification commits, `Settles` holds.
pub verify_tx-Settles :
    (clock : Clock) (uuid : Uuids) (ctx : Option RequestContext) (input : VerifyInput)
    (v : Verification) (db : Db)
    → Post (verify_tx clock uuid ctx input v db) (Settles uuid ctx input v db)
verify_tx-Settles clock uuid ctx input v db =
    Post-weaken (Settles uuid ctx input v db) (IsVerified uuid ctx input v db) _
      (verify_tx-IsVerified clock uuid ctx input v db)
      (λ r db' i. record {
        payment = i.payment;
        order = i.order;
        found = i.found;
        found_order = i.found_order;
        result = ap (λ (x : VerifyResult). x.payment_status) i.result;
        found' =
            ap (λ (d : Db). find_by_ref input.provider input.provider_ref d.payments) i.after
            ∙ payment_after input _ db.payments i.payment i.found;
        found_order' =
            ap (λ (d : Db). find_order i.payment.order_id d.orders) i.after
            ∙ order_after i.payment.order_id _ db.orders i.order i.found_order;
        ledger =
            ap (λ (d : Db). d.ledger_entries) i.after
            ∙ ledger_after uuid i.payment i.order v (correlation_of ctx)
                (map_provider_status v.status) r.payment_status db.ledger_entries i.amount
                (text_eq_sound v.currency i.order.currency i.currency)
                (ap (λ (x : VerifyResult). x.payment_status) i.result);
      })

-- A finished payment is refused.
pub verify_tx_finished :
    (clock : Clock) (uuid : Uuids) (ctx : Option RequestContext) (input : VerifyInput)
    (v : Verification) (db : Db) (p : Payment)
    → find_by_ref input.provider input.provider_ref db.payments ≡ some p
    → is_terminal p.status ≡ true
    → verify_tx clock uuid ctx input v db
      ≡ err (payment_already_processed "Payment is already in terminal state.")
unfolding verify_tx
verify_tx_finished clock uuid ctx input v db p found terminal =
    run_gets _ db _ ∙ run_found _ db _ _ p found ∙ run_throw _ db _ _ terminal
