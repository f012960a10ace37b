-- ===== src/Orders/Writes.antt =====
-- What the writes of the order table leave, when they do not fail.
use govibe_core.Prelude.{ℕ, ◌∷◌, ◌≡◌, arith, ◌==◌, update_rows}
use govibe_core.Store.{Db, Order, OrderStatus, Post, ◌>>=◌}
use govibe_core.Orders.{insert_order, update_order_status, set_order_status}

abbrev pub with_order : Order → Db → Db
with_order row db = record db { orders = row ∷ db.orders }

abbrev pub with_order_status : ℕ → OrderStatus → Db → Db
with_order_status id s db = record db {
  orders = update_rows (λ r. r.id == id) (set_order_status s) db.orders;
}

pub insert_order_writes :
    (row : Order) (db : Db) → Post (insert_order row db) (λ _ db'. db' ≡ with_order row db)
unfolding insert_order ◌>>=◌
insert_order_writes row db = ground arith

pub update_order_status_writes :
    (id : ℕ) (s : OrderStatus) (db : Db)
    → Post (update_order_status id s db) (λ _ db'. db' ≡ with_order_status id s db)
unfolding update_order_status ◌>>=◌
update_order_status_writes id s db = ground arith
