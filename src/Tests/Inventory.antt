-- ===== src/Tests/Inventory.antt =====
-- The inventory at concrete inputs.
use govibe_core.Prelude.{◌+◌, ◌≤◌, ◌≡◌, refl, none, some, arith, find_row, update_rows, select_rows}
use govibe_core.Store.{Db, Clock, Inventory, ◌>>=◌}
use govibe_core.Context.{nat}
use govibe_core.Journal.{append_audit, append_outbox}
use govibe_core.Inventory.Repository.{
  find_bucket, lock_inventory, update_reserved_count, create_held_reservation, active_quantity,
  get_active_reservation_quantity, update_reservation_status, insert_by_expiry, sort_by_expiry,
  claim_expired_held_reservations,
}
use govibe_core.Store.{err, inventory_unavailable}
use govibe_core.Inventory.Reserve.{
  ReserveInput, authoritative_reserved, journal_hold, reserve_tx, reserve,
}
use govibe_core.Inventory.Expiry.{
  release_expired, reconcile, sweep_tx, sweep, sweep_loop, sweep_one, journal_expiry,
}
use govibe_core.Inventory.Safety.{IsSafe, IsSafe-later}
use govibe_core.Inventory.Accept.{reserve_refuses}
use govibe_core.History.{History, start, next, reserves, sweeps}
use govibe_core.History.Safety.{
  no_overselling, reserve-IsSafe, release_expired-IsSafe, sweep-IsSafe, reconcile-IsSafe,
}
use govibe_core.Tests.Fixtures.{noon, session, from_100, from_200, shop, shop-IsSafe, bucket}

abbrev two_places : ReserveInput
two_places = record {
  event_id = 1;
  ticket_type_id = 2;
  quantity = nat 2;
  hold_ttl_seconds = nat 60;
}

abbrev late : Clock
late = record { app = 70000; db = 70000 }

abbrev after_reserve : Db
after_reserve = (reserve noon from_100 (some session) two_places shop).1

-- The shop's hold has run out by then, and the new one has not.
abbrev minute_later : Clock
minute_later = record { app = 60500; db = 60500 }

abbrev after_sweep : Db
after_sweep = (sweep minute_later from_200 none after_reserve).1

abbrev swept_bucket : Inventory
swept_bucket = record bucket { reserved_count = 2 }

sweep_counts : find_bucket 1 2 after_sweep.inventories ≡ some swept_bucket
unfolding reserve reserve_tx ◌>>=◌ lock_inventory find_bucket find_row authoritative_reserved
    create_held_reservation update_reserved_count update_rows journal_hold append_audit
    append_outbox get_active_reservation_quantity active_quantity sweep sweep_tx sweep_loop
    sweep_one journal_expiry claim_expired_held_reservations sort_by_expiry insert_by_expiry
    select_rows update_reservation_status
sweep_counts = refl

abbrev two_steps : History 1000 shop 60500 after_sweep
two_steps =
    next (next start noon refl (omega arith) (reserves from_100 (some session) two_places refl))
      minute_later refl (omega arith) (sweeps from_200 none refl)

no_overselling_example : active_quantity 60500 1 2 after_sweep.reservations + 10 ≤ 20
no_overselling_example =
    no_overselling 1000 60500 shop after_sweep 1 2 swept_bucket two_steps shop-IsSafe ((tt, tt), tt)
      sweep_counts

reserve-IsSafe_example : IsSafe 1000 after_reserve
reserve-IsSafe_example = reserve-IsSafe noon from_100 (some session) two_places shop shop-IsSafe

-- The hold of the shop is released at 70000.
release_expired-IsSafe_example : IsSafe 70000 (release_expired late 7 none shop).1
release_expired-IsSafe_example =
    release_expired-IsSafe late 7 none shop (IsSafe-later 1000 70000 shop (omega arith) shop-IsSafe)

sweep-IsSafe_example : IsSafe 70000 (sweep late from_100 (some 10) shop).1
sweep-IsSafe_example =
    sweep-IsSafe late from_100 (some 10) shop
      (IsSafe-later 1000 70000 shop (omega arith) shop-IsSafe)

reconcile-IsSafe_example : IsSafe 70000 (reconcile late 1 2 shop).1
reconcile-IsSafe_example =
    reconcile-IsSafe late 1 2 shop (IsSafe-later 1000 70000 shop (omega arith) shop-IsSafe)

abbrev nine_places : ReserveInput
nine_places = record two_places { quantity = nat 9 }

reserve_refuses_example :
    reserve noon from_100 (some session) nine_places shop
    ≡ (err (inventory_unavailable "Not enough tickets available."), shop)
unfolding find_bucket find_row active_quantity
reserve_refuses_example =
    reserve_refuses noon from_100 session 5 9 60 nine_places bucket shop refl refl refl refl
      (omega arith)
