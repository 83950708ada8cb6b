-- ===== src/Sales/Parcel.antt =====
-- The way of a line from the sale to the buyer (backend/src/lib/sales.ts): what each request asks
-- for, and how far it takes which line.
pub mod Stages
use kintsugi.Prelude.{
  ℕ, ◌≡◌, refl, ap, [], ◌∷◌, inl, inr, Bool, true, false, ◌&&◌, ◌||◌, is_key, if◌then◌else◌, Option,
  none, some, ◌==◌, arith, Bool-cases, Option-cases,
}
use kintsugi.Prelude.Table.{Table, find_unique, find_first, update, IsKeyed}
use kintsugi.Prelude.Table.Lookup.{
  find_unique-update, find_unique-update-none, find_first-by_key, find_first-none,
}
use kintsugi.Prelude.Text.{Text, trim, length}
use kintsugi.Schema.{Db, OrderItem, FulfilmentStatus, RefundTrigger}
use kintsugi.Refunds.{World, refund_unfulfillable_line, line_refund}
use kintsugi.Refunds.Frame.{issue_refund-untouched}
use kintsugi.Sales.{
  is_settled_row, is_bought_by, find_sale, find_purchase, mark_shipped, mark_delivered,
  mark_unfulfillable, ship_line, deliver_line, give_up_line, update_line, ship, track, deliver,
  give_up, is_delivered, is_unfulfillable,
}

-- How far a line is, and since when the buyer has it.
pub record Parcel : Type 0 where
  pub fulfilment : FulfilmentStatus
  pub delivered_at : Option ℕ

abbrev pub parcel : OrderItem → Parcel
parcel i = record { fulfilment = i.fulfilment; delivered_at = i.delivered_at }

abbrev pub map_parcel : Option OrderItem → Option Parcel
map_parcel none = none
map_parcel (some i) = some (parcel i)

unfoldable pub line : ℕ → Db → Option Parcel
line id db = map_parcel (find_unique id db.order_items)

-- The requests of sellers and buyers.
pub data Request : Type 0 where
  sends : (seller_id order_item_id : ℕ) → (carrier tracking_number : Option Text) → Request
  confirms : (buyer_id order_item_id : ℕ) → Request
  cannot_send : (seller_id order_item_id : ℕ) → Text → Request

unfoldable pub serve : World → Request → Db → Db
serve w (sends seller_id id carrier tracking_number) db =
    (mark_shipped w.now seller_id id carrier tracking_number db).1
serve w (confirms buyer_id id) db = (mark_delivered w.now buyer_id id db).1
serve w (cannot_send seller_id id reason) db = (mark_unfulfillable w seller_id id reason db).1

-- The line that a request names, and whether it may ask for it: sellers for their own lines, buyers
-- for theirs, in an order whose money moved.
abbrev pub named_line : Request → ℕ
named_line (sends seller_id id carrier tracking_number) = id
named_line (confirms buyer_id id) = id
named_line (cannot_send seller_id id reason) = id

abbrev pub may_ask : Request → Db → OrderItem → Bool
may_ask (sends seller_id id carrier tracking_number) db i =
    is_key i.seller_id seller_id && is_settled_row (find_unique i.order_id db.orders)
may_ask (confirms buyer_id id) db i = is_bought_by buyer_id (find_unique i.order_id db.orders)
may_ask (cannot_send seller_id id reason) db i =
    is_key i.seller_id seller_id && is_settled_row (find_unique i.order_id db.orders)

-- How far each request takes a parcel at a time.
abbrev pub goes : ℕ → Request → Parcel → Parcel
goes now (sends seller_id id carrier tracking_number) p = elim p.fulfilment [
  | FulfilmentStatus.unfulfilled ↦ record p { fulfilment = FulfilmentStatus.shipped }
  | FulfilmentStatus.shipped ↦ p
  | FulfilmentStatus.delivered ↦ p
  | FulfilmentStatus.unfulfillable ↦ p
]
goes now (confirms buyer_id id) p = elim p.fulfilment [
  | FulfilmentStatus.unfulfilled ↦ p
  | FulfilmentStatus.shipped ↦ record {
    fulfilment = FulfilmentStatus.delivered;
    delivered_at = some now;
  }
  | FulfilmentStatus.delivered ↦ p
  | FulfilmentStatus.unfulfillable ↦ p
]
goes now (cannot_send seller_id id reason) p =
    let lost = record p { fulfilment = FulfilmentStatus.unfulfillable } in
    if length (trim reason) == 0 then p else elim p.fulfilment [
      | FulfilmentStatus.unfulfilled ↦ lost
      | FulfilmentStatus.shipped ↦ lost
      | FulfilmentStatus.delivered ↦ p
      | FulfilmentStatus.unfulfillable ↦ p
    ]

unfoldable pub expected : ℕ → Request → ℕ → Db → Option Parcel
expected now request k db = elim (find_unique k db.order_items) [
  | none ↦ none
  | some i ↦ some (
      if k == named_line request && may_ask request db i
      then goes now request (parcel i)
      else parcel i)
]
