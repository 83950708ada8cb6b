-- ===== src/Sales.antt =====
-- What a seller has sold, and sending it (backend/src/lib/sales.ts). The notices that follow a write
-- are left out.
pub mod Parcel
pub mod Books
pub mod Summary
use kintsugi.Prelude.{
  ℕ, zero, suc, ◌+◌, ◌*◌, Bool, true, false, not, ◌&&◌, ◌||◌, Option, none, some, List, [], ◌∷◌,
  ltb, ◌==◌, if◌then◌else◌, is_some, is_none, is_key, contains,
}
use kintsugi.Prelude.Table.{Table, find_unique, find_first, find_many, update, count, sum_by, ids}
use kintsugi.Prelude.Action.{
  Action, Result, ok, err, ◌>>=◌, ◌>>◌, throw, throw_if, or_throw, gets, modify, not_found,
  not_shippable, not_shipped, already_delivered, already_unfulfillable, reason_required,
}
use kintsugi.Prelude.Text.{Text, trim, length}
use kintsugi.Schema.{Db, Order, OrderItem, OrderStatus, FulfilmentStatus, Refund, RefundStatus}
use kintsugi.Refunds.{World, Issued, refund_unfulfillable_line}

abbrev pub is_settled : OrderStatus → Bool
is_settled OrderStatus.paid = true
is_settled OrderStatus.refunded = true
is_settled _ = false

abbrev pub is_settled_row : Option Order → Bool
is_settled_row none = false
is_settled_row (some o) = is_settled o.status

-- A line of the seller, in an order whose money moved.
unfoldable pub find_sale : ℕ → ℕ → Db → Option (ℕ × OrderItem)
find_sale seller_id order_item_id db =
    find_first
      (λ id i.
        id == order_item_id
        && (is_key i.seller_id seller_id && is_settled_row (find_unique i.order_id db.orders)))
      db.order_items

abbrev pub is_bought_by : ℕ → Option Order → Bool
is_bought_by buyer_id none = false
is_bought_by buyer_id (some o) = (o.buyer_id == buyer_id) && is_settled o.status

-- A line that the buyer paid for.
unfoldable pub find_purchase : ℕ → ℕ → Db → Option (ℕ × OrderItem)
find_purchase buyer_id order_item_id db =
    find_first
      (λ id i. id == order_item_id && is_bought_by buyer_id (find_unique i.order_id db.orders))
      db.order_items

-- `text?.trim() || null`
abbrev pub tidy : Option Text → Option Text
tidy none = none
tidy (some t) = if length (trim t) == 0 then none else some (trim t)

abbrev pub update_line : ℕ → (OrderItem → OrderItem) → Db → Db
update_line id f db = record db { order_items = update id f db.order_items }

abbrev pub track : Option Text → Option Text → OrderItem → OrderItem
track carrier tracking_number i = record i {
  carrier = tidy carrier;
  tracking_number = tidy tracking_number;
}

abbrev pub ship : ℕ → Option Text → Option Text → OrderItem → OrderItem
ship now carrier tracking_number i = record i {
  fulfilment = FulfilmentStatus.shipped;
  shipped_at = some now;
  carrier = tidy carrier;
  tracking_number = tidy tracking_number;
  fulfilment_note = none;
}

unfoldable pub ship_line : ℕ → Option Text → Option Text → ℕ × OrderItem → Action Db OrderItem
ship_line now carrier tracking_number (id, i) db = elim i.fulfilment [
  | FulfilmentStatus.shipped ↦
      (ok (track carrier tracking_number i), update_line id (track carrier tracking_number) db)
  | FulfilmentStatus.unfulfilled ↦ (
    ok (ship now carrier tracking_number i),
    update_line id (ship now carrier tracking_number) db,
  )
  | FulfilmentStatus.delivered ↦ (err not_shippable 409, db)
  | FulfilmentStatus.unfulfillable ↦ (err not_shippable 409, db)
]

unfoldable pub mark_shipped : ℕ → ℕ → ℕ → Option Text → Option Text → Action Db OrderItem
unfolding find_sale ship_line
mark_shipped now seller_id order_item_id carrier tracking_number = do
  line ← or_throw (← gets (find_sale seller_id order_item_id)) not_found 404
  ship_line now carrier tracking_number line

abbrev pub deliver : ℕ → OrderItem → OrderItem
deliver now i = record i { fulfilment = FulfilmentStatus.delivered; delivered_at = some now }

unfoldable pub deliver_line : ℕ → ℕ × OrderItem → Action Db (Unit {0})
deliver_line now (id, i) db = elim i.fulfilment [
  | FulfilmentStatus.delivered ↦ (ok tt, db)
  | FulfilmentStatus.shipped ↦ (ok tt, update_line id (deliver now) db)
  | FulfilmentStatus.unfulfilled ↦ (err not_shipped 409, db)
  | FulfilmentStatus.unfulfillable ↦ (err not_shipped 409, db)
]

unfoldable pub mark_delivered : ℕ → ℕ → ℕ → Action Db (Unit {0})
unfolding find_purchase deliver_line
mark_delivered now buyer_id order_item_id = do
  line ← or_throw (← gets (find_purchase buyer_id order_item_id)) not_found 404
  deliver_line now line

abbrev pub is_delivered : FulfilmentStatus → Bool
is_delivered FulfilmentStatus.delivered = true
is_delivered _ = false

abbrev pub is_unfulfillable : FulfilmentStatus → Bool
is_unfulfillable FulfilmentStatus.unfulfillable = true
is_unfulfillable _ = false

-- What the seller is told of the refund that follows.
pub record Unfulfillable : Type 0 where
  pub refund : Option Issued
  pub refund_failed : Bool

abbrev pub give_up : Text → OrderItem → OrderItem
give_up reason i = record i {
  fulfilment = FulfilmentStatus.unfulfillable;
  fulfilment_note = some reason;
  shipped_at = none;
}

abbrev pub told : Result (Option Issued) × Db → Result Unfulfillable × Db
told (ok refund, db) = (ok record { refund = refund; refund_failed = false }, db)
told (err _ _, db) = (ok record { refund = none; refund_failed = true }, db)

-- The mark, then the refund, whose failure does not take the mark back.
unfoldable pub give_up_line : World → Text → ℕ → Action Db Unfulfillable
unfolding refund_unfulfillable_line
give_up_line w reason id db =
    told (refund_unfulfillable_line w id reason (update_line id (give_up reason) db))

unfoldable pub mark_unfulfillable : World → ℕ → ℕ → Text → Action Db Unfulfillable
unfolding find_sale give_up_line
mark_unfulfillable w seller_id order_item_id reason = do
  line ← or_throw (← gets (find_sale seller_id order_item_id)) not_found 404
  throw_if (is_delivered line.1.fulfilment) already_delivered 409
  throw_if (is_unfulfillable line.1.fulfilment) already_unfulfillable 409
  throw_if (length (trim reason) == 0) reason_required 400
  give_up_line w (trim reason) line.0
