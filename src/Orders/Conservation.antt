-- ===== src/Orders/Conservation.antt =====
-- Payment and release move stock between the shelf and the orders, and make or lose none.
use kintsugi.Prelude.{
  ℕ, ◌+◌, ◌≡◌, refl, sym, ◌∙◌, inl, inr, Bool, true, false, ◌&&◌, Option, none, some, [], ◌∷◌,
  arith, ◌==◌, if◌then◌else◌, Option-cases, is_key, is_some,
}
use kintsugi.Prelude.Table.{Table, find_unique, update, update_many, sum_by}
use kintsugi.Prelude.Table.Lookup.{
  find_unique-update_self, find_unique-update_ne, find_unique-update-none, find_unique-update_many,
  find_unique-update_many-none, is_some-update,
}
use kintsugi.Prelude.Table.Sums.{sum_by-congr, sum_by-add, sum_by-find_many}
use kintsugi.Prelude.Text.{Text}
use kintsugi.Schema.{Db, ListingStatus, Order, OrderItem, OrderStatus, is_stock_committed}
use kintsugi.Reservations.{lock_listing, restored_status}
use kintsugi.Reservations.Conservation.{on_shelf-set_listing}
use kintsugi.Orders.{
  update_order, settle_paid, close_order, set_status, sell_line, sell_lines, return_line,
  return_lines, lines_of, mark_order_paid, release_order, claim_order_for_payment, unclaim_order,
  is_claimable, is_processing,
}
use kintsugi.Stock.{stock, on_shelf, in_orders, line_weight, keeps_stock, order_keeps_stock}

keeps-update :
    (j k : ℕ) (f : Order → Order) (orders : Table Order) (o : Order)
    → find_unique k orders ≡ some o
    → order_keeps_stock (find_unique j (update k f orders))
      ≡ (if j == k then keeps_stock (f o).status else order_keeps_stock (find_unique j orders))
keeps-update j k f orders o e =
    ground (arith, find_unique-update_self k f orders o e, find_unique-update_ne j k f orders)

-- A change of an order that leaves it keeping its stock, or not keeping it.
pub in_orders-update_order :
    (listing_id order_id : ℕ) (f : Order → Order) (o : Order) (db : Db)
    → find_unique order_id db.orders ≡ some o
    → keeps_stock (f o).status ≡ keeps_stock o.status
    → in_orders listing_id (update_order order_id f db) ≡ in_orders listing_id db
in_orders-update_order listing_id order_id f o db e same =
    sum_by-congr (line_weight listing_id (update order_id f db.orders))
      (line_weight listing_id db.orders) db.order_items
      (λ j i. ground (arith, keeps-update i.order_id order_id f db.orders o e, e, same))

-- An update by a key that is not there changes nothing.
pub in_orders-absent :
    (listing_id order_id : ℕ) (f : Order → Order) (db : Db)
    → find_unique order_id db.orders ≡ none
    → in_orders listing_id (update_order order_id f db) ≡ in_orders listing_id db
in_orders-absent listing_id order_id f db e =
    sum_by-congr (line_weight listing_id (update order_id f db.orders))
      (line_weight listing_id db.orders) db.order_items
      (λ j i. ground (
        arith,
        e,
        find_unique-update_ne i.order_id order_id f db.orders,
        find_unique-update-none i.order_id order_id f db.orders,
      ))

pub in_orders-update_many :
    (listing_id : ℕ) (p : ℕ → Order → Bool) (f : Order → Order) (db : Db)
    → ((j : ℕ) (o : Order) → p j o ≡ true → keeps_stock (f o).status ≡ keeps_stock o.status)
    → in_orders listing_id (record db { orders = update_many p f db.orders })
      ≡ in_orders listing_id db
in_orders-update_many listing_id p f db same =
    sum_by-congr (line_weight listing_id (update_many p f db.orders))
      (line_weight listing_id db.orders) db.order_items (λ j i. rw (kept i.order_id))
  where
    kept :
        (k : ℕ)
        → order_keeps_stock (find_unique k (update_many p f db.orders))
          ≡ order_keeps_stock (find_unique k db.orders)
    kept k = elim (Option-cases (find_unique k db.orders)) [
      | inl absent ↦ rw (absent, find_unique-update_many-none k p f db.orders absent)
      | inr (o, e) ↦ rw (find_unique-update_many k p f db.orders o e, e) (ground (arith, same k o))
    ]

-- The pieces of a listing in a line.
abbrev pub line_quantity : ℕ → ℕ → OrderItem → ℕ
line_quantity listing_id id i = if is_key i.listing_id listing_id then i.quantity else 0

-- An order that stops keeping its stock takes its lines out of the sum.
in_orders-close :
    (listing_id order_id : ℕ) (f : Order → Order) (o : Order) (db : Db)
    → find_unique order_id db.orders ≡ some o
    → keeps_stock o.status ≡ true
    → keeps_stock (f o).status ≡ false
    → in_orders listing_id (update_order order_id f db)
        + sum_by (line_quantity listing_id) (lines_of order_id db)
      ≡ in_orders listing_id db
unfolding lines_of
in_orders-close listing_id order_id f o db e on off =
    rw (sum_by-find_many (line_quantity listing_id) (λ id i. i.order_id == order_id) db.order_items)
      (sym (
        sum_by-add (line_weight listing_id (update order_id f db.orders))
          (λ j i. if i.order_id == order_id then line_quantity listing_id j i else 0)
          (line_weight listing_id db.orders) db.order_items
          (λ j i. ground (arith, keeps-update i.order_id order_id f db.orders o e, e, on, off))))

-- Selling out changes listings only, and no quantity.
sell_line-frame :
    (l : Option ℕ) (db : Db) → sell_line l db ≡ record db { listings = (sell_line l db).listings }
sell_line-frame l db = ground arith

pub sell_lines-frame :
    (items : Table OrderItem) (db : Db)
    → sell_lines items db ≡ record db { listings = (sell_lines items db).listings }
unfolding sell_lines
sell_lines-frame [] db = refl
sell_lines-frame ((id, item) ∷ items) db = ground (
  arith,
  sell_line-frame item.listing_id db,
  sell_lines-frame items (sell_line item.listing_id db),
)

on_shelf-sell_line :
    (listing_id : ℕ) (l : Option ℕ) (db : Db)
    → on_shelf listing_id (sell_line l db) ≡ on_shelf listing_id db
unfolding lock_listing
on_shelf-sell_line listing_id none db = refl
on_shelf-sell_line listing_id (some k) db = elim (Option-cases (find_unique k db.listings)) [
  | inl gone ↦ ground (arith, gone)
  | inr (l, e) ↦
      ground (arith, e, on_shelf-set_listing k listing_id l.quantity ListingStatus.sold l db e)
]

on_shelf-sell_lines :
    (listing_id : ℕ) (items : Table OrderItem) (db : Db)
    → on_shelf listing_id (sell_lines items db) ≡ on_shelf listing_id db
unfolding sell_lines
on_shelf-sell_lines listing_id [] db = refl
on_shelf-sell_lines listing_id ((id, item) ∷ items) db =
    on_shelf-sell_lines listing_id items (sell_line item.listing_id db)
    ∙ on_shelf-sell_line listing_id item.listing_id db

return_line-frame :
    (l : Option ℕ) (n : ℕ) (db : Db)
    → return_line l n db ≡ record db { listings = (return_line l n db).listings }
return_line-frame l n db = ground arith

pub return_lines-frame :
    (items : Table OrderItem) (db : Db)
    → return_lines items db ≡ record db { listings = (return_lines items db).listings }
unfolding return_lines
return_lines-frame [] db = refl
return_lines-frame ((id, item) ∷ items) db = ground (
  arith,
  return_line-frame item.listing_id item.quantity db,
  return_lines-frame items (return_line item.listing_id item.quantity db),
)

-- A listing that is in the catalogue's table, on sale or not.
abbrev pub IsListed : ℕ → Db → Type 0
IsListed listing_id db = is_some (find_unique listing_id db.listings) ≡ true

pub return_line-IsListed :
    (listing_id : ℕ) (l : Option ℕ) (n : ℕ) (db : Db)
    → IsListed listing_id db
    → IsListed listing_id (return_line l n db)
unfolding lock_listing
return_line-IsListed listing_id none n db h = h
return_line-IsListed listing_id (some k) n db h = elim (Option-cases (find_unique k db.listings)) [
  | inl gone ↦ ground (arith, gone, h)
  | inr (l, e) ↦ ground (
    arith,
    e,
    h,
    is_some-update listing_id k
        (λ x. record x { quantity = l.quantity + n; status = restored_status l.status })
        db.listings,
  )
]

on_shelf-return_line :
    (listing_id : ℕ) (l : Option ℕ) (n : ℕ) (db : Db)
    → IsListed listing_id db
    → on_shelf listing_id (return_line l n db)
      ≡ on_shelf listing_id db + (if is_key l listing_id then n else 0)
unfolding lock_listing
on_shelf-return_line listing_id none n db h = ground arith
on_shelf-return_line listing_id (some k) n db h = elim (Option-cases (find_unique k db.listings)) [
  | inl gone ↦ ground (arith, gone, h)
  | inr (l, e) ↦ ground (
    arith,
    e,
    h,
    on_shelf-set_listing k listing_id (l.quantity + n) (restored_status l.status) l db e,
  )
]

-- Every line of a listing comes back to its shelf.
pub on_shelf-return_lines :
    (listing_id : ℕ) (items : Table OrderItem) (db : Db)
    → IsListed listing_id db
    → on_shelf listing_id (return_lines items db)
      ≡ on_shelf listing_id db + sum_by (line_quantity listing_id) items
unfolding return_lines sum_by
on_shelf-return_lines listing_id [] db h = omega arith
on_shelf-return_lines listing_id ((id, item) ∷ items) db h = omega (
  arith,
  on_shelf-return_line listing_id item.listing_id item.quantity db h,
  on_shelf-return_lines listing_id items (return_line item.listing_id item.quantity db)
      (return_line-IsListed listing_id item.listing_id item.quantity db h),
)

sold_stock :
    (now order_id listing_id : ℕ) (o : Order) (db : Db)
    → find_unique order_id db.orders ≡ some o
    → is_stock_committed o.status ≡ true
    → stock listing_id
        (update_order order_id (settle_paid now) (sell_lines (lines_of order_id db) db))
      ≡ stock listing_id db
sold_stock now order_id listing_id o db e on = rw (sell_lines-frame (lines_of order_id db) db) (
    ground (
      arith,
      on_shelf-sell_lines listing_id (lines_of order_id db) db,
      in_orders-update_order listing_id order_id (settle_paid now) o db e (ground arith),
    ))

-- Payment moves no stock: the pieces stay under the order, whether the call throws or not.
pub mark_order_paid-stock :
    (now order_id listing_id : ℕ) (db : Db)
    → stock listing_id (mark_order_paid now order_id db).1 ≡ stock listing_id db
unfolding mark_order_paid
mark_order_paid-stock now order_id listing_id db =
    elim (Option-cases (find_unique order_id db.orders)) [
      | inl gone ↦ ground (arith, gone)
      | inr (o, e) ↦ ground (arith, e, sold_stock now order_id listing_id o db e)
    ]

returned_stock :
    (now order_id listing_id : ℕ) (status : OrderStatus) (reason : Option Text) (o : Order)
    (db : Db)
    → IsListed listing_id db
    → keeps_stock status ≡ false
    → find_unique order_id db.orders ≡ some o
    → is_stock_committed o.status ≡ true
    → stock listing_id (
        update_order order_id
          (close_order now status reason)
          (return_lines (lines_of order_id db) db))
      ≡ stock listing_id db
returned_stock now order_id listing_id status reason o db listed off e on =
    rw (return_lines-frame (lines_of order_id db) db) (
      ground (
        arith,
        on_shelf-return_lines listing_id (lines_of order_id db) db listed,
        in_orders-close listing_id order_id (close_order now status reason) o db e (ground arith)
            off,
      ))

-- Release gives back to the shelf of each listing exactly what the order had of it.
pub release_order-stock :
    (now order_id listing_id : ℕ) (status : OrderStatus) (reason : Option Text) (db : Db)
    → IsListed listing_id db
    → keeps_stock status ≡ false
    → stock listing_id (release_order now order_id status reason db).1 ≡ stock listing_id db
unfolding release_order
release_order-stock now order_id listing_id status reason db listed off =
    elim (Option-cases (find_unique order_id db.orders)) [
      | inl gone ↦ ground (arith, gone)
      | inr (o, e) ↦
          ground (arith, e, returned_stock now order_id listing_id status reason o db listed off e)
    ]

pub claim_order_for_payment-stock :
    (now user_id order_id listing_id : ℕ) (db : Db)
    → stock listing_id (claim_order_for_payment now user_id order_id db).1 ≡ stock listing_id db
unfolding claim_order_for_payment
claim_order_for_payment-stock now user_id order_id listing_id db = omega (
  arith,
  in_orders-update_many listing_id (is_claimable user_id order_id)
      (set_status now OrderStatus.processing) db (λ j o h. ground arith),
)

pub unclaim_order-stock :
    (now order_id listing_id : ℕ) (db : Db)
    → stock listing_id (unclaim_order now order_id db) ≡ stock listing_id db
unfolding unclaim_order
unclaim_order-stock now order_id listing_id db = omega (
  arith,
  in_orders-update_many listing_id (λ id o. id == order_id && is_processing o.status)
      (set_status now OrderStatus.pending_payment) db (λ j o h. ground arith),
)
