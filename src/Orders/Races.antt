-- ===== src/Orders/Races.antt =====
-- Releases of one order that overlap (backend/src/lib/orders.ts, releaseOrder).
use kintsugi.Prelude.{ℕ, ◌+◌, ◌≡◌, true, Option, some, [], ◌∷◌, arith}
use kintsugi.Prelude.Table.{Table, find_unique, sum_by}
use kintsugi.Prelude.Text.{Text}
use kintsugi.Schema.{Db, Order, OrderItem, OrderStatus, is_stock_committed}
use kintsugi.Orders.{
  release_order, release_after, return_line, return_lines, lines_of, update_order, close_order,
}
use kintsugi.Orders.Conservation.{
  IsListed, line_quantity, on_shelf-return_lines, return_line-IsListed, return_lines-frame,
}
use kintsugi.Stock.{on_shelf}

return_lines-IsListed :
    (k : ℕ) (items : Table OrderItem) (db : Db) → IsListed k db → IsListed k (return_lines items db)
unfolding return_lines
return_lines-IsListed k [] db h = h
return_lines-IsListed k ((id, i) ∷ items) db h =
    return_lines-IsListed k items (return_line i.listing_id i.quantity db)
      (return_line-IsListed k i.listing_id i.quantity db h)

-- The stock of an order can come back twice: where two releases both read the order, in a state that
-- commits its stock, before either of them writes, the second one gives back to the shelf of every
-- listing what the first one gave back already, though the order holds the pieces once. The listing
-- is there.
pub release_after_twice :
    (now later order_id k : ℕ) (status other : OrderStatus) (reason why : Option Text) (o : Order)
    (db : Db)
    → find_unique order_id db.orders ≡ some o
    → is_stock_committed o.status ≡ true
    → IsListed k db
    → on_shelf k
        (release_after later order_id other why
          (some o)
          (release_order now order_id status reason db).1).1
      ≡ on_shelf k db
        + sum_by (line_quantity k) (lines_of order_id db)
        + sum_by (line_quantity k) (lines_of order_id db)
unfolding release_order release_after lines_of
release_after_twice now later order_id k status other reason why o db e on listed =
    let items = lines_of order_id db in
    let returned = return_lines items db in
    let first = update_order order_id (close_order now status reason) returned in
    let frame = return_lines-frame items db in
    let once = on_shelf-return_lines k items db listed in
    let twice = on_shelf-return_lines k items first (return_lines-IsListed k items db listed) in
    ground (arith, e, on, frame, once, twice)
