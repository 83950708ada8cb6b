-- ===== src/Orders/Settlement.antt =====
-- A settled order: what a repeated webhook, sweep or cancellation does to it, and what a release
-- that comes between a claim and its payment does.
use kintsugi.Prelude.{
  ℕ, ◌≡◌, refl, ◌≢◌, ◌⊎◌, inl, inr, Bool, true, false, ◌&&◌, ◌||◌, ◌==◌, if◌then◌else◌, Option,
  none, some, [], ◌∷◌, is_key, arith, Option-cases,
}
use kintsugi.Prelude.Table.{Table, find_unique, update}
use kintsugi.Prelude.Table.Lookup.{
  find_unique-update, find_unique-update-none, find_unique-update_self,
}
use kintsugi.Prelude.Action.{ok, err, not_payable}
use kintsugi.Prelude.Text.{Text}
use kintsugi.Schema.{Db, Listing, ListingStatus, Order, OrderItem, OrderStatus, is_stock_committed}
use kintsugi.Reservations.{lock_listing}
use kintsugi.Orders.{
  mark_order_paid, release_order, settle_paid, close_order, sell_line, sell_lines, return_lines,
  lines_of,
}
use kintsugi.Orders.Conservation.{sell_lines-frame, return_lines-frame}

-- The row of the order after the two writes of a settlement.
sold_row :
    (now order_id : ℕ) (items : Table OrderItem) (o : Order) (db : Db)
    → find_unique order_id db.orders ≡ some o
    → find_unique order_id (update order_id (settle_paid now) (sell_lines items db).orders)
      ≡ some (settle_paid now o)
sold_row now order_id items o db e =
    rw (sell_lines-frame items db)
      (find_unique-update_self order_id (settle_paid now) db.orders o e)

closed_row :
    (now order_id : ℕ) (status : OrderStatus) (reason : Option Text) (items : Table OrderItem)
    (o : Order) (db : Db)
    → find_unique order_id db.orders ≡ some o
    → find_unique order_id
        (update order_id (close_order now status reason) (return_lines items db).orders)
      ≡ some (close_order now status reason o)
closed_row now order_id status reason items o db e =
    rw (return_lines-frame items db)
      (find_unique-update_self order_id (close_order now status reason) db.orders o e)

-- A payment that is recorded is recorded once: a second call of `markOrderPaid` on the order that
-- the first one left reports no transition and writes nothing.
pub mark_order_paid_twice :
    (now later order_id : ℕ) (b : Bool) (db : Db)
    → (mark_order_paid now order_id db).0 ≡ ok b
    → mark_order_paid later order_id (mark_order_paid now order_id db).1
      ≡ (ok false, (mark_order_paid now order_id db).1)
unfolding mark_order_paid
mark_order_paid_twice now later order_id b db h =
    elim (Option-cases (find_unique order_id db.orders)) [
      | inl gone ↦ absurd (ground (arith, gone, h))
      | inr (o, e) ↦ ground (arith, e, h, sold_row now order_id (lines_of order_id db) o db e)
    ]

-- Whether a line of the order is of the listing.
abbrev pub is_named : ℕ → Table OrderItem → Bool
is_named k [] = false
is_named k ((id, i) ∷ items) = is_key i.listing_id k || is_named k items

-- A listing of which nothing is left is SOLD once a line of it is paid for; every other one stays.
abbrev pub sold_out : Bool → Option Listing → Option Listing
sold_out named none = none
sold_out named (some l) =
    some (if named && l.quantity == 0 then record l { status = ListingStatus.sold } else l)

sell_line-listing :
    (k : ℕ) (listing_id : Option ℕ) (db : Db)
    → find_unique k (sell_line listing_id db).listings
      ≡ sold_out (is_key listing_id k) (find_unique k db.listings)
unfolding lock_listing
sell_line-listing k none db = elim (Option-cases (find_unique k db.listings)) [
  | inl gone ↦ ground (arith, gone)
  | inr (l, e) ↦ ground (arith, e)
]
sell_line-listing k (some j) db = elim (Option-cases (find_unique j db.listings)) [
  | inl gone ↦ elim (Option-cases (find_unique k db.listings)) [
    | inl none_ ↦ ground (arith, gone, none_)
    | inr (l, e) ↦ ground (arith, gone, e)
  ]
  | inr (x, at) ↦
      let sell : Listing → Listing =
        λ l. record l { quantity = x.quantity; status = ListingStatus.sold } in
      elim (Option-cases (find_unique k db.listings)) [
        | inl none_ ↦ ground (arith, at, none_, find_unique-update-none k j sell db.listings none_)
        | inr (l, e) ↦ ground (arith, at, e, find_unique-update k j sell db.listings l e)
      ]
]

sold_out-twice : (a b : Bool) (l : Option Listing) → sold_out b (sold_out a l) ≡ sold_out (a || b) l
sold_out-twice a b none = refl
sold_out-twice a b (some l) = ground arith

sell_lines-listing :
    (k : ℕ) (items : Table OrderItem) (db : Db)
    → find_unique k (sell_lines items db).listings
      ≡ sold_out (is_named k items) (find_unique k db.listings)
unfolding sell_lines
sell_lines-listing k [] db = elim (Option-cases (find_unique k db.listings)) [
  | inl gone ↦ ground (arith, gone)
  | inr (l, e) ↦ ground (arith, e)
]
sell_lines-listing k ((id, i) ∷ items) db = ground (
  arith,
  sell_lines-listing k items (sell_line i.listing_id db),
  sell_line-listing k i.listing_id db,
  sold_out-twice (is_key i.listing_id k) (is_named k items) (find_unique k db.listings),
)

-- What `markOrderPaid` does, by the state of the order: a PAID one is left alone, and any other one
-- that commits no stock is refused and left alone; one that still commits stock moves to PAID and
-- reports it, and the listings of its lines of which nothing is left are SOLD, while every other
-- listing stays as it was.
pub mark_order_paid-branches :
    (now order_id k : ℕ) (o : Order) (db : Db)
    → find_unique order_id db.orders ≡ some o
    → ((o.status ≡ OrderStatus.paid) × (mark_order_paid now order_id db ≡ (ok false, db)))
      ⊎ (((is_stock_committed o.status ≡ true)
            × ((mark_order_paid now order_id db).0 ≡ ok true)
            × (find_unique order_id (mark_order_paid now order_id db).1.orders
                ≡ some (settle_paid now o))
            × (find_unique k (mark_order_paid now order_id db).1.listings
                ≡ sold_out (is_named k (lines_of order_id db)) (find_unique k db.listings)))
          ⊎ ((is_stock_committed o.status ≡ false)
              × (mark_order_paid now order_id db ≡ (err not_payable 409, db))))
unfolding mark_order_paid
mark_order_paid-branches now order_id k o db e = ground (
  arith,
  e,
  sold_row now order_id (lines_of order_id db) o db e,
  sell_lines-listing k (lines_of order_id db) db,
)

-- The stock of an order comes back once: after a release of an order that exists, to a state that
-- commits no stock, a second release, to whatever state, succeeds and writes nothing.
pub release_order_twice :
    (now later order_id : ℕ) (status other : OrderStatus) (reason why : Option Text) (o : Order)
    (db : Db)
    → find_unique order_id db.orders ≡ some o
    → is_stock_committed status ≡ false
    → release_order later order_id other why (release_order now order_id status reason db).1
      ≡ (ok tt, (release_order now order_id status reason db).1)
unfolding release_order
release_order_twice now later order_id status other reason why o db e off =
    ground (arith, e, off, closed_row now order_id status reason (lines_of order_id db) o db e)

-- A release closes an order that is PROCESSING, whose buyer is being charged at that time: after a
-- release of such an order to a state that commits no stock and is not PAID, the charge cannot be
-- recorded, since `markOrderPaid` throws NOT_PAYABLE and writes nothing.
pub released_while_processing :
    (now later order_id : ℕ) (status : OrderStatus) (reason : Option Text) (o : Order) (db : Db)
    → find_unique order_id db.orders ≡ some o
    → o.status ≡ OrderStatus.processing
    → is_stock_committed status ≡ false
    → status ≢ OrderStatus.paid
    → mark_order_paid later order_id (release_order now order_id status reason db).1
      ≡ (err not_payable 409, (release_order now order_id status reason db).1)
unfolding mark_order_paid release_order
released_while_processing now later order_id status reason o db e on off unpaid =
    ground (
      arith,
      e,
      on,
      off,
      unpaid,
      closed_row now order_id status reason (lines_of order_id db) o db e,
    )
