-- ===== src/Tests/Tickets.antt =====
-- Issuance at concrete inputs.
use govibe_core.Prelude.{ℕ, ◌≡◌, refl, some, List, [], ◌∷◌, arith, find_row, update_rows}
use govibe_core.Store.{ok, Clock, run_in_transaction, Db, ◌>>=◌}
use govibe_core.Inventory.Safety.{IsSafe}
use govibe_core.Tickets.Allocator.{Reference}
use govibe_core.Tickets.Generator.{
  absorb, emit, emit_all, feed, feed_all, flush, letters, spell, base32, generate_serial,
  generate_public_reference,
}
use govibe_core.Tickets.Unpack.{unpack, unpack-letters}
use govibe_core.Tickets.Issue.{
  issue_tx, issue, load_validated, ticket_rows, create_tickets, journal_issue,
}
use govibe_core.Tickets.Attempts.{IsInTime, issue-IsSafe}
use govibe_core.Tickets.Counts.{Sells, issue_tx-Sells}
use govibe_core.Tickets.Repository.{create_ticket}
use govibe_core.Orders.{find_order_by_id, update_order_status}
use govibe_core.Journal.{append_audit, append_outbox}
use govibe_core.Inventory.Repository.{
  find_bucket, lock_inventory, update_reserved_count, increment_sold_count, active_quantity,
  get_active_reservation_quantity, update_reservation_status, find_reservation_by_id,
}
use govibe_core.Tests.Fixtures.{
  noon, session, from_100, shop, shop-IsSafe, hold, bucket, one_bucket-Fits,
}

abbrev ref_of : ℕ → Reference
ref_of n = record { ticket_serial = n; public_reference = n }

abbrev three : List Reference
three = ref_of 1 ∷ ref_of 2 ∷ ref_of 3 ∷ []

abbrev after_issue : Db
after_issue = (run_in_transaction (issue_tx noon from_100 (some session) 30 three) shop).1

issue_runs :
    issue_tx noon from_100 (some session) 30 three shop
    ≡ ok (record { order_id = 30; issued_ticket_ids = 100 ∷ 101 ∷ 102 ∷ [] }, after_issue)
unfolding ◌>>=◌ issue_tx load_validated find_order_by_id find_row find_reservation_by_id
    lock_inventory find_bucket ticket_rows create_tickets create_ticket update_reservation_status
    update_rows get_active_reservation_quantity active_quantity update_reserved_count
    increment_sold_count update_order_status journal_issue append_audit append_outbox
issue_runs = refl

-- An issuance once the hold has run out, and its places are held by another: 13 places are sold
-- and 10 held, of 20.
abbrev late_shop : Db
late_shop = record shop {
  inventories = record bucket { reserved_count = 10 } ∷ [];
  reservations = record hold { id = 8; quantity = 10; expires_at = 90000 } ∷ hold ∷ [];
}

late_shop-IsSafe : IsSafe 70000 late_shop
unfolding active_quantity
late_shop-IsSafe =
    one_bucket-Fits 70000 (record bucket { reserved_count = 10 }) late_shop.reservations
      (omega arith) (omega arith)

abbrev late : Clock
late = record { app = 70000; db = 70000 }

abbrev after_late : Db
after_late = (run_in_transaction (issue_tx late from_100 (some session) 30 three) late_shop).1

late_issue_oversells :
    find_bucket 1 2 after_late.inventories
    ≡ some (record bucket { reserved_count = 10; sold_count = 13 })
unfolding ◌>>=◌ issue_tx load_validated find_order_by_id find_row find_reservation_by_id
    lock_inventory find_bucket ticket_rows create_tickets create_ticket update_reservation_status
    update_rows get_active_reservation_quantity active_quantity update_reserved_count
    increment_sold_count update_order_status journal_issue append_audit append_outbox
late_issue_oversells = refl

-- The one hold of the shop runs out at 60000.
shop-IsInTime : IsInTime 1000 30 shop
unfolding find_row
shop-IsInTime order row loaded = ground (arith, loaded.held)

issue_tx-Sells_example : Sells 1000 30 shop after_issue
issue_tx-Sells_example =
    issue_tx-Sells noon from_100 (some session) 30 three
      (record { order_id = 30; issued_ticket_ids = 100 ∷ 101 ∷ 102 ∷ [] }) shop after_issue
      issue_runs

issue-IsSafe_example :
    IsSafe 1000 (issue (λ _ i. ref_of i) noon (λ _. from_100) (some session) 30 shop).1
issue-IsSafe_example =
    issue-IsSafe (λ _ i. ref_of i) noon (λ _. from_100) (some session) 30 shop shop-IsSafe
      shop-IsInTime

-- The bytes of "foobar", whose letters are known from RFC 4648.
abbrev foobar : List ℕ
foobar = 102 ∷ 111 ∷ 111 ∷ 98 ∷ 97 ∷ 114 ∷ []

serial_of_foobar : generate_serial foobar ≡ "GVS-MZXW6YTBOI"
unfolding generate_serial base32 spell letters flush feed_all feed emit_all emit absorb
serial_of_foobar = refl

reference_of_foobar : generate_public_reference foobar ≡ "GV-MZXW6YTBOI"
unfolding generate_public_reference base32 spell letters flush feed_all feed emit_all emit absorb
reference_of_foobar = refl

unpack-letters_example : unpack 6 (letters foobar) ≡ foobar
unpack-letters_example =
    unpack-letters foobar
      (omega arith, (omega arith, (omega arith, (omega arith, (omega arith, (omega arith, tt))))))
