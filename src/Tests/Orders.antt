-- ===== src/Tests/Orders.antt =====
-- Checkout at concrete inputs.
use govibe_core.Prelude.{ℕ, ◌≡◌, refl, String, some, find_row, update_rows}
use govibe_core.Store.{Db, OrderStatus, OrderResult, ok, err, ◌>>=◌, transaction_aborted}
use govibe_core.Journal.{append_audit, append_outbox}
use govibe_core.LaunchControl.{
  assert_checkout_allowed, load_event_scope, assert_event_scope_allowed, assert_currency_allowed,
  is_excluded,
}
use govibe_core.Idempotency.{find_key, try_create_pending, complete}
use govibe_core.Inventory.Repository.{find_reservation_by_id}
use govibe_core.Orders.{
  CreateOrderInput, insert_order, checkout_scope, check_existing, claim_key, load_reservation,
  journal_order, place_order, answer, create_order_tx, create_order,
}
use govibe_core.Orders.Checkout.{IsCheckedOut}
use govibe_core.Orders.Replay.{create_order-IsCheckedOut, create_order_once}
use govibe_core.Tests.Fixtures.{noon, session, from_100, from_200, shop, open_config, checkout}

abbrev sha256 : String → ℕ
sha256 _ = 50

abbrev request_hash : CreateOrderInput → ℕ
request_hash input = input.total_amount

abbrev after_checkout : Db
after_checkout =
    (create_order sha256 request_hash open_config noon from_100 (some session) checkout shop).1

abbrev new_order : OrderResult
new_order = record { order_id = 100; status = OrderStatus.reserved }

checkout_runs :
    create_order sha256 request_hash open_config noon from_100 (some session) checkout shop
    ≡ (ok new_order, after_checkout)
unfolding create_order create_order_tx ◌>>=◌ claim_key try_create_pending find_key find_row
    check_existing load_reservation find_reservation_by_id assert_checkout_allowed load_event_scope
    assert_event_scope_allowed assert_currency_allowed is_excluded answer place_order insert_order
    complete update_rows journal_order append_audit append_outbox
checkout_runs = refl

-- Another request under the same key, while the hold is running.
create_order_once_example :
    create_order sha256 request_hash open_config
      (record { app = 2000; db = 2000 })
      from_200
      (some session)
      (record checkout { total_amount = 4400 })
      after_checkout
    ≡ (err transaction_aborted, after_checkout)
create_order_once_example =
    create_order_once sha256 request_hash open_config noon (record { app = 2000; db = 2000 })
      from_100 from_200 session session 5 checkout (record checkout { total_amount = 4400 }) shop
      after_checkout new_order refl refl refl checkout_runs

create_order-IsCheckedOut_example :
    IsCheckedOut open_config noon from_100
      (checkout_scope sha256 5 checkout)
      4500
      5
      checkout
      shop
      new_order
      after_checkout
create_order-IsCheckedOut_example =
    create_order-IsCheckedOut sha256 request_hash open_config noon from_100 session 5 checkout shop
      after_checkout new_order refl checkout_runs
