-- ===== src/Orders/Checkout.antt =====
-- Checkout turns holds into the lines of one order: what it charges, and that it takes over exactly
-- the pieces that were on hold.
use kintsugi.Prelude.{
  ℕ, ◌+◌, ◌*◌, ◌≡◌, refl, ap, inl, inr, true, Option, none, some, [], ◌∷◌, ◌++◌, arith, ◌==◌,
  if◌then◌else◌, Option-cases,
}
use kintsugi.Prelude.Table.{Table, find_unique, find_many, create, count, sum_by, IsKeyed}
use kintsugi.Prelude.Table.Lookup.{
  find_unique-create_ne, find_unique-create_new, update_many-in_ids,
}
use kintsugi.Prelude.Table.Sums.{sum_by-append, sum_by-update_many, sum_by-find_many}
use kintsugi.Prelude.Action.{ok, Run-cases}
use kintsugi.Prelude.Text.{Text}
use kintsugi.Schema.{Db, Listing, Order, OrderItem, OrderStatus, Reservation, SellerProfile, ShipTo}
use kintsugi.Reservations.{is_live_hold_of}
use kintsugi.Orders.{
  Basket, collect_lines, add_line, new_line, create_order_from_holds, place_order, new_order,
  convert, empty_basket, chosen_address, lines_of,
}
use kintsugi.Stock.{stock, line_weight, order_keeps_stock, held_weight}

abbrev pub line_total : ℕ → OrderItem → ℕ
line_total id i = i.unit_price_cents * i.quantity

-- What a line adds to the total of an order.
abbrev pub own_total : ℕ → ℕ → OrderItem → ℕ
own_total order_id id i = if i.order_id == order_id then line_total id i else 0

abbrev pub hold_quantity : ℕ → ℕ → Reservation → ℕ
hold_quantity listing_id id r = if r.listing_id == listing_id then r.quantity else 0

-- What the loop adds to a basket, with the order already among `orders`.
pub record IsCollected (listing_id order_id : ℕ) (orders : Table Order) (holds : Table Reservation)
    (db db' : Db) (before after : Basket) : Type 0 where
  pieces :
      sum_by (line_weight listing_id orders) after.items
      ≡ sum_by (line_weight listing_id orders) before.items
        + sum_by (hold_quantity listing_id) holds
  priced :
      after.subtotal_cents + sum_by (own_total order_id) before.items
      ≡ before.subtotal_cents + sum_by (own_total order_id) after.items
  pub same : db' ≡ db

module _ (listing_id order_id now : ℕ) (item_ids : ℕ → ℕ) (orders : Table Order)
    (keeps : order_keeps_stock (find_unique order_id orders) ≡ true) where
  add_line-IsCollected :
      (id : ℕ) (hold : Reservation) (holds : Table Reservation) (l : Listing) (s : SellerProfile)
      (db db' : Db) (before after : Basket)
      → IsCollected listing_id order_id orders holds db db'
          (add_line (item_ids id) (new_line order_id hold l s.shop_name) l.currency before)
          after
      → IsCollected listing_id order_id orders ((id, hold) ∷ holds) db db' before after
  unfolding sum_by
  add_line-IsCollected id hold holds l s db db' before after h =
      let line : OrderItem = new_line order_id hold l s.shop_name in
      record {
        pieces = ground (
          arith,
          keeps,
          h.pieces,
          sum_by-append (line_weight listing_id orders) before.items ((item_ids id, line) ∷ []),
        );
        priced = ground (
          arith,
          h.priced,
          sum_by-append (own_total order_id) before.items ((item_ids id, line) ∷ []),
        );
        same = h.same;
      }

  collect_lines-IsCollected :
      (holds : Table Reservation) (before after : Basket) (db db' : Db)
      → collect_lines order_id item_ids now holds before db ≡ (ok after, db')
      → IsCollected listing_id order_id orders holds db db' before after
  unfolding collect_lines sum_by
  collect_lines-IsCollected [] before after db db' e = record {
    pieces = ground arith;
    priced = ground arith;
    same = ground arith;
  }
  collect_lines-IsCollected ((id, hold) ∷ holds) before after db db' e =
      elim (Option-cases (find_unique hold.listing_id db.listings)) [
        | inl gone ↦ absurd (ground (arith, gone, e))
        | inr (l, el) ↦ elim (Option-cases (find_unique l.seller_id db.sellers)) [
          | inl gone ↦ absurd (ground (arith, gone, el, e))
          | inr (s, es) ↦ add_line-IsCollected id hold holds l s db db' before after (
              collect_lines-IsCollected holds
                (add_line (item_ids id) (new_line order_id hold l s.shop_name) l.currency before)
                after db db' (ground (arith, el, es, e)))
        ]
      ]

-- No order and no line has the key yet.
abbrev pub IsFreshOrder : ℕ → Db → Type 0
IsFreshOrder order_id db =
    (find_unique order_id db.orders ≡ none)
    × (count (λ j i. i.order_id == order_id) db.order_items ≡ 0)

old_lines :
    (listing_id order_id : ℕ) (o : Order) (orders : Table Order) (t : Table OrderItem)
    → count (λ j i. i.order_id == order_id) t ≡ 0
    → sum_by (line_weight listing_id (create order_id o orders)) t
      ≡ sum_by (line_weight listing_id orders) t
unfolding count sum_by
old_lines listing_id order_id o orders [] h = refl
old_lines listing_id order_id o orders ((j, i) ∷ t) h = ground (
  arith,
  old_lines listing_id order_id o orders t,
  find_unique-create_ne i.order_id order_id o orders,
)

live_hold_weight :
    (listing_id user_id now : ℕ) (t : Table Reservation)
    → sum_by (held_weight listing_id) (find_many (is_live_hold_of user_id now) t)
      ≡ sum_by (hold_quantity listing_id) (find_many (is_live_hold_of user_id now) t)
unfolding find_many sum_by
live_hold_weight listing_id user_id now [] = refl
live_hold_weight listing_id user_id now ((j, r) ∷ t) =
    ground (arith, live_hold_weight listing_id user_id now t)

placed_stock :
    (listing_id order_id now user_id : ℕ) (o : Order) (items : Table OrderItem) (db : Db)
    → IsKeyed db.reservations
    → IsFreshOrder order_id db
    → let holds = find_many (is_live_hold_of user_id now) db.reservations in
      sum_by (line_weight listing_id (create order_id o db.orders)) items
        ≡ sum_by (hold_quantity listing_id) holds
      → stock listing_id (place_order order_id now o items holds db) ≡ stock listing_id db
placed_stock listing_id order_id now user_id o items db keyed fresh taken = omega (
  arith,
  taken,
  sum_by-append (line_weight listing_id (create order_id o db.orders)) db.order_items items,
  old_lines listing_id order_id o db.orders db.order_items fresh.1,
  live_hold_weight listing_id user_id now db.reservations,
  ap (sum_by (held_weight listing_id))
      (update_many-in_ids (is_live_hold_of user_id now) (convert now) db.reservations keyed),
  sum_by-update_many (held_weight listing_id) (is_live_hold_of user_id now) (convert now)
      db.reservations (λ j v. ground arith),
)

-- The basket that the loop ends with, against the table of orders with the new one in it.
pub collected :
    (listing_id order_id now user_id : ℕ) (item_ids : ℕ → ℕ) (reference : Text) (to : ShipTo)
    (basket : Basket) (holds : Table Reservation) (db db' : Db)
    → IsFreshOrder order_id db
    → collect_lines order_id item_ids now holds empty_basket db ≡ (ok basket, db')
    → IsCollected listing_id order_id
        (create order_id (new_order now reference user_id to basket) db.orders)
        holds
        db
        db'
        empty_basket
        basket
collected listing_id order_id now user_id item_ids reference to basket holds db db' fresh e =
    collect_lines-IsCollected listing_id order_id now item_ids
      (create order_id (new_order now reference user_id to basket) db.orders)
      (rw (
        find_unique-create_new order_id (new_order now reference user_id to basket) db.orders
          fresh.0))
      holds empty_basket basket db db' e

-- Checkout moves each piece from a hold to a line of the order, and makes or loses none, whether it
-- throws or not.
pub create_order_from_holds-stock :
    (listing_id order_id : ℕ) (item_ids : ℕ → ℕ) (reference : Text) (now user_id : ℕ)
    (address_id : Option ℕ) (db : Db)
    → IsKeyed db.reservations
    → IsFreshOrder order_id db
    → stock listing_id
        (create_order_from_holds order_id item_ids reference now user_id address_id db).1
      ≡ stock listing_id db
unfolding create_order_from_holds sum_by
create_order_from_holds-stock listing_id order_id item_ids reference now user_id address_id db keyed
      fresh =
    elim (Option-cases (chosen_address user_id address_id db)) [
      | inl missing ↦ ground (arith, missing)
      | inr (to, ea) ↦
          let holds = find_many (is_live_hold_of user_id now) db.reservations in
          elim (Run-cases (collect_lines order_id item_ids now holds empty_basket db)) [
            | inr (c, n, db', e) ↦ ground (arith, ea, e)
            | inl (basket, db', e) ↦
                let got =
                  collected listing_id order_id now user_id item_ids reference to basket holds db
                    db' fresh e in
                ground (
                  arith,
                  ea,
                  e,
                  got.same,
                  got.pieces,
                  placed_stock listing_id order_id now user_id
                      (new_order now reference user_id to basket) basket.items db keyed fresh,
                )
          ]
    ]

no_old_total :
    (order_id : ℕ) (t : Table OrderItem)
    → count (λ j i. i.order_id == order_id) t ≡ 0
    → sum_by (own_total order_id) t ≡ 0
unfolding count sum_by
no_old_total order_id [] h = refl
no_old_total order_id ((j, i) ∷ t) h = ground (arith, no_old_total order_id t)

-- The order that checkout has made: it waits for payment, and its total is what its lines cost.
pub record IsPlaced (order_id user_id : ℕ) (db : Db) : Type 0 where
  pub order : Order
  pub found : find_unique order_id db.orders ≡ some order
  pub waiting : order.status ≡ OrderStatus.pending_payment
  pub buyer : order.buyer_id ≡ user_id
  pub total : order.subtotal_cents ≡ sum_by line_total (lines_of order_id db)

-- A checkout that succeeds, with a key that no order and no line of an order has yet, has made the
-- order of this buyer, which waits for payment and is charged at the sum of price times quantity
-- over the lines that the database now has for it.
pub create_order_from_holds-IsPlaced :
    (order_id : ℕ) (item_ids : ℕ → ℕ) (reference : Text) (now user_id : ℕ) (address_id : Option ℕ)
    (db db' : Db)
    → IsFreshOrder order_id db
    → create_order_from_holds order_id item_ids reference now user_id address_id db
      ≡ (ok order_id, db')
    → IsPlaced order_id user_id db'
unfolding create_order_from_holds sum_by lines_of
create_order_from_holds-IsPlaced order_id item_ids reference now user_id address_id db db' fresh e =
    elim (Option-cases (chosen_address user_id address_id db)) [
      | inl missing ↦ absurd (ground (arith, missing, e))
      | inr (to, ea) ↦
          let holds = find_many (is_live_hold_of user_id now) db.reservations in
          elim (Run-cases (collect_lines order_id item_ids now holds empty_basket db)) [
            | inr (c, n, db1, ec) ↦ absurd (ground (arith, ea, ec, e))
            | inl (basket, db1, ec) ↦
                let o : Order = new_order now reference user_id to basket in
                let got =
                  collected 0 order_id now user_id item_ids reference to basket holds db db1 fresh
                    ec in
                let done : db' ≡ place_order order_id now o basket.items holds db =
                  ground (arith, ea, ec, e, got.same) in
                rw done (record {
                  order = o;
                  found = find_unique-create_new order_id o db.orders fresh.0;
                  waiting = refl;
                  buyer = refl;
                  total = omega (
                    arith,
                    got.priced,
                    sum_by-find_many line_total (λ j i. i.order_id == order_id)
                        (db.order_items ++ basket.items),
                    sum_by-append (own_total order_id) db.order_items basket.items,
                    no_old_total order_id db.order_items fresh.1,
                  );
                })
          ]
    ]
