-- ===== src/Inventory/Accept.antt =====
-- When a reservation is made and when it is refused: by the room that is left.
use govibe_core.Prelude.{ℕ, ◌+◌, ◌<◌, ◌≡◌, ap, some}
use govibe_core.Store.{Db, Clock, Inventory, err, commit, inventory_unavailable}
use govibe_core.Context.{RequestContext, Uuids, positive_integer}
use govibe_core.Inventory.Repository.{find_bucket}
use govibe_core.Inventory.Reserve.{ReserveInput, reserve}
use govibe_core.Inventory.Room.{counting, reserve_tx_refuses}

-- 9999-12-31T23:59:59.999Z, the last time with a year of four digits.
abbrev pub end_of_9999 : ℕ
end_of_9999 = 253402300799999

module _ (clock : Clock) (uuid : Uuids) (ctx : RequestContext) (actor quantity ttl : ℕ)
    (input : ReserveInput) (b : Inventory) (db : Db) where
  -- A reservation of a positive quantity for a positive time by a user, of a bucket that is found, is refused with the
  -- database unchanged where the quantity exceeds what the capacity leaves beside the sold places
  -- and the reserved ones that count.
  pub reserve_refuses :
      positive_integer input.quantity ≡ some quantity
      → positive_integer input.hold_ttl_seconds ≡ some ttl
      → ctx.user_id ≡ some actor
      → find_bucket input.event_id input.ticket_type_id db.inventories ≡ some b
      → b.capacity_total
        < quantity
          + (counting clock.db input.event_id input.ticket_type_id b db.reservations + b.sold_count)
      → reserve clock uuid (some ctx) input db
        ≡ (err (inventory_unavailable "Not enough tickets available."), db)
  unfolding reserve
  reserve_refuses positive lasting user found full =
      rw (positive, lasting, user, reserve)
        (ap (commit db) (
          reserve_tx_refuses clock uuid actor ctx.correlation_id input.event_id input.ticket_type_id
            quantity ttl b db found full))
