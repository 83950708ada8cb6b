-- ===== src/Orders/Charging.antt =====
-- Which requests charge the card of an order (backend/src/routes/orders.ts,
-- `POST /orders/:id/pay`).
use kintsugi.Prelude.{ℕ, ◌≡◌, inl, inr, ◌&&◌, some, arith, ◌==◌, is_some, Option-cases}
use kintsugi.Prelude.Table.{find_unique, find_first, IsKeyed}
use kintsugi.Prelude.Table.Lookup.{find_first-by_key, find_first-none}
use kintsugi.Schema.{Db, Order}
use kintsugi.Orders.{get_order, is_pending}
use kintsugi.Orders.Payment.{claim_order_for_payment-won}
use kintsugi.Orders.Sweeps.{pay, Confirmation}

-- A request asks the provider to charge the card exactly where the order is the buyer's, has a
-- payment to confirm, and waits for payment, whatever the card is answered and whatever other
-- requests do in the meantime. The order exists, and orders have distinct keys.
pub pay-charges :
    (now user_id order_id : ℕ) (confirm : ℕ → Confirmation) (others : Db → Db) (o : Order) (db : Db)
    → IsKeyed db.orders
    → find_unique order_id db.orders ≡ some o
    → (pay now user_id order_id confirm others db).0
      ≡ (o.buyer_id == user_id && (is_some o.payment_intent_id && is_pending o.status))
unfolding pay get_order
pay-charges now user_id order_id confirm others o db keyed e =
    let won = claim_order_for_payment-won now user_id order_id o db keyed e in
    elim (Option-cases (find_first (λ id x. id == order_id && x.buyer_id == user_id) db.orders)) [
      | inl gone ↦
          let not_mine = find_first-none order_id (λ x. x.buyer_id == user_id) db.orders o gone e in
          ground (arith, gone, not_mine)
      | inr ((j, x), found) ↦
          let (row, mine) =
            find_first-by_key order_id (λ x. x.buyer_id == user_id) db.orders j x keyed found in
          elim (Option-cases x.payment_intent_id) [
            | inl none_ ↦ ground (arith, found, row, mine, e, none_)
            | inr (intent, some_) ↦ ground (arith, found, row, mine, e, some_, won)
          ]
    ]
