-- ===== src/Orders.antt =====
-- Orders and their payment (backend/src/lib/orders.ts, with the address that checkout copies from
-- backend/src/lib/addresses.ts). Times, references and the keys that the database mints are
-- arguments. Notices to sellers are sent after the transaction and change none of these tables.
pub mod Sweeps
pub mod Checkout
pub mod Payment
pub mod Settlement
pub mod Races
pub mod Charging
pub mod Stranded
pub mod Conservation
use kintsugi.Prelude.{
  ℕ, ◌+◌, ◌-◌, ◌*◌, Bool, true, false, not, ◌&&◌, Option, none, some, [], ◌∷◌, ◌++◌, ltb, leb, ◌==◌,
  if◌then◌else◌, is_some, is_none, is_key,
}
use mathlib.Core.Option
use kintsugi.Prelude.Table.{
  Table, find_unique, find_first, find_many, update, update_many, create, count, in_ids,
}
use kintsugi.Prelude.Action.{
  Action, Result, ok, err, pure, gets, or_throw, throw_if, modify, transaction, ◌>>=◌, ◌>>◌,
  no_address, nothing_to_buy, item_gone, hold_expired, not_payable, record_not_found,
}
use kintsugi.Prelude.Text.{Text, text}
use kintsugi.Schema.{
  Db, Address, ShipTo, Listing, ListingStatus, Reservation, ReservationStatus, Order, OrderItem,
  OrderStatus, FulfilmentStatus, is_held, is_stock_committed,
}
use kintsugi.Reservations.{lock_listing, present, is_live_hold_of, set_listing, restored_status}

-- Thirty minutes and two minutes, in milliseconds.
abbrev pub order_payment_ttl_ms : ℕ
order_payment_ttl_ms = 30 * 60 * 1000

abbrev pub order_processing_ttl_ms : ℕ
order_processing_ttl_ms = 2 * 60 * 1000

unfoldable pub get_address : ℕ → ℕ → Db → Option ShipTo
get_address user_id address_id db =
    Option.map (λ row. row.1.ship_to)
      (find_first (λ id a. id == address_id && (a.user_id == user_id && is_none a.deleted_at))
        db.addresses)

-- Of the rows in the order of their creation, the last default, or the last.
abbrev pub later_default : Address → Option Address → Option Address
later_default a none = some a
later_default a (some b) = if a.is_default && not b.is_default then some a else some b

unfoldable pub preferred : ℕ → Table Address → Option Address
preferred user_id [] = none
preferred user_id ((id, a) ∷ rows) =
    let rest = preferred user_id rows in
    if a.user_id == user_id && is_none a.deleted_at then later_default a rest else rest

unfoldable pub default_address : ℕ → Db → Option ShipTo
unfolding preferred
default_address user_id db = Option.map (λ a. a.ship_to) (preferred user_id db.addresses)

abbrev pub chosen_address : ℕ → Option ℕ → Db → Option ShipTo
chosen_address user_id none db = default_address user_id db
chosen_address user_id (some address_id) db = get_address user_id address_id db

pub record Basket : Type 0 where
  pub subtotal_cents : ℕ
  pub currency : Text
  pub items : Table OrderItem

abbrev pub empty_basket : Basket
empty_basket = record { subtotal_cents = 0; currency = text "USD"; items = [] }

abbrev pub new_line : ℕ → Reservation → Listing → Text → OrderItem
new_line order_id hold listing shop_name = record {
  order_id = order_id;
  listing_id = some hold.listing_id;
  seller_id = some listing.seller_id;
  title = listing.title;
  unit_price_cents = listing.price_cents;
  quantity = hold.quantity;
  seller_name = shop_name;
  fulfilment = FulfilmentStatus.unfulfilled;
  shipped_at = none;
  delivered_at = none;
  carrier = none;
  tracking_number = none;
  fulfilment_note = none;
}

abbrev pub add_line : ℕ → OrderItem → Text → Basket → Basket
add_line item_id line currency basket = record {
  subtotal_cents = basket.subtotal_cents + line.unit_price_cents * line.quantity;
  currency = currency;
  items = basket.items ++ (item_id, line) ∷ [];
}

-- The loop over the holds. `item_ids` gives the key of the line that each hold becomes.
unfoldable pub collect_lines : ℕ → (ℕ → ℕ) → ℕ → Table Reservation → Basket → Action Db Basket
unfolding lock_listing
collect_lines order_id item_ids now [] basket = pure basket
collect_lines order_id item_ids now ((id, hold) ∷ holds) basket = do
  listing ← or_throw (present (← gets (lock_listing hold.listing_id))) item_gone 409
  seller ← gets (λ db. find_unique listing.seller_id db.sellers)
  seller ← or_throw seller record_not_found 500
  still ← gets (λ db.
      find_first (λ i r. i == id && (is_held r.status && ltb now r.expires_at)) db.reservations)
  throw_if (is_none still) hold_expired 409
  collect_lines order_id item_ids now holds (
      add_line (item_ids id) (new_line order_id hold listing seller.shop_name) listing.currency
        basket)

abbrev pub new_order : ℕ → Text → ℕ → ShipTo → Basket → Order
new_order now reference user_id ship_to basket = record {
  reference = reference;
  buyer_id = user_id;
  status = OrderStatus.pending_payment;
  subtotal_cents = basket.subtotal_cents;
  currency = basket.currency;
  ship_to = ship_to;
  payment_provider = none;
  payment_intent_id = none;
  paid_at = none;
  failure_reason = none;
  refunded_cents = 0;
  created_at = now;
  updated_at = now;
}

abbrev pub convert : ℕ → Reservation → Reservation
convert now r = record r { status = ReservationStatus.converted; released_at = some now }

-- The order and its lines, and the holds that it takes over.
abbrev pub place_order : ℕ → ℕ → Order → Table OrderItem → Table Reservation → Db → Db
place_order order_id now order items holds db = record db {
  orders = create order_id order db.orders;
  order_items = db.order_items ++ items;
  reservations = update_many (in_ids holds) (convert now) db.reservations;
}

abbrev pub is_empty {ℓ} : {V : Type ℓ} → Table V → Bool
is_empty [] = true
is_empty (x ∷ t) = false

unfoldable pub create_order_from_holds : ℕ → (ℕ → ℕ) → Text → ℕ → ℕ → Option ℕ → Action Db ℕ
unfolding collect_lines
create_order_from_holds order_id item_ids reference now user_id address_id = do
  ship_to ← or_throw (← gets (chosen_address user_id address_id)) no_address 400
  transaction (do
    holds ← gets (λ db. find_many (is_live_hold_of user_id now) db.reservations)
    throw_if (is_empty holds) nothing_to_buy 400
    basket ← collect_lines order_id item_ids now holds empty_basket
    modify (
        place_order order_id now (new_order now reference user_id ship_to basket) basket.items
          holds)
    pure order_id)

-- A write to an order also sets its `updatedAt`.
abbrev pub set_status : ℕ → OrderStatus → Order → Order
set_status now status o = record o { status = status; updated_at = now }

abbrev pub update_order : ℕ → (Order → Order) → Db → Db
update_order order_id f db = record db { orders = update order_id f db.orders }

unfoldable pub attach_payment_intent : ℕ → ℕ → Text → ℕ → Db → Db
attach_payment_intent now order_id provider intent_id = update_order order_id (λ o. record o {
  payment_provider = some provider;
  payment_intent_id = some intent_id;
  updated_at = now;
})

abbrev pub is_pending : OrderStatus → Bool
is_pending OrderStatus.pending_payment = true
is_pending _ = false

abbrev pub is_processing : OrderStatus → Bool
is_processing OrderStatus.processing = true
is_processing _ = false

abbrev pub is_paid : OrderStatus → Bool
is_paid OrderStatus.paid = true
is_paid _ = false

abbrev pub is_claimable : ℕ → ℕ → ℕ → Order → Bool
is_claimable user_id order_id id o =
    id == order_id && (o.buyer_id == user_id && is_pending o.status)

-- One conditional UPDATE; the result says whether this caller's matched.
unfoldable pub claim_order_for_payment : ℕ → ℕ → ℕ → Db → Bool × Db
claim_order_for_payment now user_id order_id db = (
  count (is_claimable user_id order_id) db.orders == 1,
  record db {
    orders =
        update_many (is_claimable user_id order_id) (set_status now OrderStatus.processing)
          db.orders;
  },
)

unfoldable pub unclaim_order : ℕ → ℕ → Db → Db
unclaim_order now order_id db = record db {
  orders =
      update_many (λ id o. id == order_id && is_processing o.status)
        (set_status now OrderStatus.pending_payment) db.orders;
}

unfoldable pub lines_of : ℕ → Db → Table OrderItem
lines_of order_id db = find_many (λ id i. i.order_id == order_id) db.order_items

-- A listing is SOLD once nothing is left of it; its quantity was taken when the hold was placed.
abbrev pub sell_out : ℕ → Option Listing → Db → Db
sell_out listing_id none db = db
sell_out listing_id (some l) db =
    if l.quantity == 0 then set_listing listing_id l.quantity ListingStatus.sold db else db

abbrev pub sell_line : Option ℕ → Db → Db
sell_line none db = db
sell_line (some listing_id) db = sell_out listing_id (lock_listing listing_id db) db

unfoldable pub sell_lines : Table OrderItem → Db → Db
unfolding lock_listing
sell_lines [] db = db
sell_lines ((id, item) ∷ items) db = sell_lines items (sell_line item.listing_id db)

abbrev pub settle_paid : ℕ → Order → Order
settle_paid now o = record o {
  status = OrderStatus.paid;
  paid_at = some now;
  failure_reason = none;
  updated_at = now;
}

unfoldable pub pay_lines : ℕ → ℕ → Order → Action Db Bool
unfolding lines_of sell_lines
pay_lines now order_id order = do
  throw_if (not (is_stock_committed order.status)) not_payable 409
  items ← gets (lines_of order_id)
  modify (sell_lines items)
  modify (update_order order_id (settle_paid now))
  pure true

-- What follows the read of the order, which takes no lock.
unfoldable pub paid_after : ℕ → ℕ → Option Order → Action Db Bool
unfolding pay_lines
paid_after now order_id row = do
  order ← or_throw row record_not_found 500
  if is_paid order.status then pure false else pay_lines now order_id order

-- The result says whether this call moved the order to PAID. The function is the read and what
-- follows with no other write in between.
unfoldable pub mark_order_paid : ℕ → ℕ → Action Db Bool
unfolding paid_after
mark_order_paid now order_id =
    transaction (do row ← gets (λ db. find_unique order_id db.orders); paid_after now order_id row)

abbrev pub return_stock : ℕ → ℕ → Option Listing → Db → Db
return_stock listing_id quantity none db = db
return_stock listing_id quantity (some l) db =
    set_listing listing_id (l.quantity + quantity) (restored_status l.status) db

abbrev pub return_line : Option ℕ → ℕ → Db → Db
return_line none quantity db = db
return_line (some listing_id) quantity db =
    return_stock listing_id quantity (lock_listing listing_id db) db

unfoldable pub return_lines : Table OrderItem → Db → Db
unfolding lock_listing
return_lines [] db = db
return_lines ((id, item) ∷ items) db =
    return_lines items (return_line item.listing_id item.quantity db)

abbrev pub close_order : ℕ → OrderStatus → Option Text → Order → Order
close_order now status reason o = record o {
  status = status;
  failure_reason = reason;
  updated_at = now;
}

unfoldable pub undo_lines : ℕ → ℕ → OrderStatus → Option Text → Action Db (Unit {0})
unfolding lines_of return_lines
undo_lines now order_id status reason = do
  items ← gets (lines_of order_id)
  modify (return_lines items)
  modify (update_order order_id (close_order now status reason))

-- What follows the read of the order, which takes no lock: the stock is given back, unless the order
-- was past the states that can give it back.
unfoldable pub release_after :
    ℕ → ℕ → OrderStatus → Option Text → Option Order → Action Db (Unit {0})
unfolding undo_lines
release_after now order_id status reason row = do
  order ← or_throw row record_not_found 500
  if is_stock_committed order.status then undo_lines now order_id status reason else pure tt

-- The read and what follows with no other write in between.
unfoldable pub release_order : ℕ → ℕ → OrderStatus → Option Text → Action Db (Unit {0})
unfolding release_after
release_order now order_id status reason = transaction (do
  row ← gets (λ db. find_unique order_id db.orders)
  release_after now order_id status reason row)

unfoldable pub find_order_by_intent_id : ℕ → Db → Option (ℕ × Order)
find_order_by_intent_id intent_id db =
    find_first (λ id o. is_key o.payment_intent_id intent_id) db.orders

unfoldable pub get_order : ℕ → ℕ → Db → Option (ℕ × Order)
get_order user_id order_id db =
    find_first (λ id o. id == order_id && o.buyer_id == user_id) db.orders
