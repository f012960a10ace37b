-- ===== src/Tests/Payments.antt =====
-- Payment verification at concrete inputs.
use govibe_core.Prelude.{◌≡◌, refl, true, none, some, find_row, update_rows}
use govibe_core.Store.{Db, Error, PaymentStatus, OrderStatus, ok, err, ◌>>=◌}
use govibe_core.LaunchControl.{Provider}
use govibe_core.Payments.Verify.{
  VerifyResult, Providers, verify, ProviderStatus, Verification, VerifyInput, is_terminal,
  verify_tx, find_by_provider_ref, find_by_ref, map_provider_status, map_order_status,
  update_payment_status, credit_if_success, append_ledger, journal_verification,
}
use govibe_core.Payments.Ledger.{credits, entries, AreBooked}
use govibe_core.Payments.Outcome.{Settles}
use govibe_core.Payments.Calls.{verify-AreBooked, verify-Settles, verify_twice}
use govibe_core.Orders.{find_order_by_id, update_order_status}
use govibe_core.Journal.{append_audit, append_outbox}
use govibe_core.Tests.Fixtures.{noon, session, from_100, from_200, shop}

abbrev paid_answer : Verification
paid_answer = record { status = ProviderStatus.success; amount_minor = 4500; currency = "GHS" }

abbrev webhook : VerifyInput
webhook = record {
  provider = Provider.paystack;
  provider_ref = 77;
  verified_success = true;
  verified_currency = "GHS";
}

abbrev paystack_says : Providers
paystack_says provider ref = ok paid_answer

abbrev after_payment : Db
after_payment = (verify paystack_says noon from_100 (some session) webhook shop).1

abbrev verified : VerifyResult
verified = record {
  payment_id = 40;
  order_id = 30;
  payment_status = PaymentStatus.success;
  order_status = OrderStatus.paid;
}

verify_runs :
    verify paystack_says noon from_100 (some session) webhook shop ≡ (ok verified, after_payment)
unfolding ◌>>=◌ verify verify_tx find_by_provider_ref find_by_ref find_row is_terminal
    find_order_by_id map_provider_status map_order_status update_payment_status update_rows
    update_order_status credit_if_success append_ledger journal_verification append_audit
    append_outbox
verify_runs = refl

verify-AreBooked_example : AreBooked after_payment.ledger_entries after_payment.payments
unfolding credits entries find_row
verify-AreBooked_example =
    verify-AreBooked paystack_says noon from_100 (some session) webhook shop
      (record { credited = refl; alone = refl }, refl, tt)

verify-Settles_example :
    (v : Verification) × (paystack_says Provider.paystack 77 ≡ ok v)
    × Settles from_100 (some session) webhook v shop verified after_payment
verify-Settles_example =
    verify-Settles paystack_says noon from_100 (some session) webhook shop verified after_payment
      verify_runs

verify_twice_example :
    (e : Error) × (verify paystack_says noon from_200 none webhook after_payment
      ≡ (err e, after_payment))
unfolding is_terminal
verify_twice_example =
    verify_twice paystack_says paystack_says noon noon from_100 from_200 (some session) none webhook
      verified shop after_payment verify_runs refl
