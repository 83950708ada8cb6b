-- ===== src/Stock.antt =====
-- Where the pieces of a listing are: on the shelf, under a hold, or under an order.
use kintsugi.Prelude.{
  ℕ, ◌+◌, Bool, true, false, ◌&&◌, Option, none, some, ◌==◌, if◌then◌else◌, is_key,
}
use kintsugi.Prelude.Table.{Table, find_unique, sum_by}
use kintsugi.Schema.{Db, Reservation, Order, OrderItem, OrderStatus, is_held}

-- The orders whose lines keep their stock. FAILED and CANCELLED orders have given it back.
abbrev pub keeps_stock : OrderStatus → Bool
keeps_stock OrderStatus.failed = false
keeps_stock OrderStatus.cancelled = false
keeps_stock _ = true

abbrev pub order_keeps_stock : Option Order → Bool
order_keeps_stock none = false
order_keeps_stock (some o) = keeps_stock o.status

abbrev pub on_shelf : ℕ → Db → ℕ
on_shelf listing_id db = elim (find_unique listing_id db.listings) [
  | none ↦ 0
  | some l ↦ l.quantity
]

abbrev pub held_weight : ℕ → ℕ → Reservation → ℕ
held_weight listing_id id r =
    if r.listing_id == listing_id && is_held r.status then r.quantity else 0

abbrev pub on_hold : ℕ → Db → ℕ
on_hold listing_id db = sum_by (held_weight listing_id) db.reservations

abbrev pub line_weight : ℕ → Table Order → ℕ → OrderItem → ℕ
line_weight listing_id orders id i =
    if is_key i.listing_id listing_id && order_keeps_stock (find_unique i.order_id orders)
    then i.quantity
    else 0

abbrev pub in_orders : ℕ → Db → ℕ
in_orders listing_id db = sum_by (line_weight listing_id db.orders) db.order_items

-- Every piece of the listing, wherever it is.
abbrev pub stock : ℕ → Db → ℕ
stock listing_id db = on_shelf listing_id db + on_hold listing_id db + in_orders listing_id db
