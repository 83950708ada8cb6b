-- ===== src/Payouts/Summary.antt =====
-- The seller's earnings summary against the lines it sums up (backend/src/lib/payouts.ts).
use kintsugi.Prelude.{
  ℕ, ◌+◌, ◌≡◌, ◌∙◌, Bool, not, ◌&&◌, none, some, List, [], ◌∷◌, arith, if◌then◌else◌,
}
use kintsugi.Prelude.Table.{Table, find_unique, find_many, sum_by}
use kintsugi.Schema.{Db, OrderItem, FulfilmentStatus}
use kintsugi.Payouts.{
  line_total, seller_items, is_refunded, is_spoken_for, is_payable, payable_items, add_earnings,
  order_ids, Earnings, add_earning, is_delivered, is_past_hold, earnings_summary, gates_of,
  no_earnings,
}
use kintsugi.Payouts.Claiming.{gross_cents}

-- What one line adds to the part that can be paid.
eligible-add_earning :
    (hold now : ℕ) (refunded spoken : Bool) (i : OrderItem) (e : Earnings)
    → (add_earning hold now refunded spoken i e).eligible_cents
      ≡ e.eligible_cents
        + (if is_delivered i.fulfilment
              && (is_past_hold hold now i.delivered_at && (not refunded && not spoken))
            then line_total i
            else 0)
eligible-add_earning hold now refunded spoken i e = elim i.fulfilment [
  | FulfilmentStatus.delivered ↦ elim i.delivered_at [
    | none ↦ ground arith
    | some at ↦ ground arith
  ]
  | FulfilmentStatus.unfulfilled ↦ ground arith
  | FulfilmentStatus.shipped ↦ ground arith
  | FulfilmentStatus.unfulfillable ↦ ground arith
]

eligible-add_earnings :
    (hold now : ℕ) (db : Db) (orders : List ℕ) (items : Table OrderItem) (e : Earnings)
    → (add_earnings hold now db orders items e).eligible_cents
      ≡ e.eligible_cents + gross_cents (find_many (is_payable hold now db orders) items)
unfolding add_earnings find_many sum_by
eligible-add_earnings hold now db orders [] e = ground arith
eligible-add_earnings hold now db orders ((id, i) ∷ items) e =
    let refunded = is_refunded db orders id i in
    let spoken = is_spoken_for db id in
    let rest =
      eligible-add_earnings hold now db orders items (add_earning hold now refunded spoken i e) in
    rest ∙ ground (arith, eligible-add_earning hold now refunded spoken i e)

-- The figure that the seller is shown is the one that a payout at that moment would be made from:
-- the payable and the withheld amount together are the sum of the lines that `payableItems`
-- selects, and all of it is payable exactly where both gates of the seller are open.
pub earnings_summary-payable :
    (hold now seller_id : ℕ) (db : Db)
    → ((earnings_summary hold now seller_id db).payable_cents
          + (earnings_summary hold now seller_id db).withheld_cents
        ≡ gross_cents (payable_items hold now seller_id db))
      × ((earnings_summary hold now seller_id db).payable_cents ≡ (
          if (gates_of (find_unique seller_id db.sellers)).payouts_enabled
            && (gates_of (find_unique seller_id db.sellers)).payouts_ready
          then gross_cents (payable_items hold now seller_id db)
          else 0))
unfolding earnings_summary payable_items
earnings_summary-payable hold now seller_id db =
    let items = seller_items seller_id db in
    let total = eligible-add_earnings hold now db (order_ids items) items no_earnings in
    (ground (arith, total), ground (arith, total))
