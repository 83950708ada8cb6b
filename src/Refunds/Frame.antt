-- ===== src/Refunds/Frame.antt =====
-- What a refund leaves alone (backend/src/lib/refunds.ts): a claw-back touches no order and no
-- refund, and no refund touches a line of an order or a request for a return.
use kintsugi.Prelude.{
  ℕ, ◌≡◌, refl, ap, inl, inr, Option, none, some, arith, ◌==◌, min, Option-cases,
}
use kintsugi.Prelude.Table.{Table, find_unique, find_first}
use kintsugi.Prelude.Text.{trim}
use kintsugi.Schema.{Db, Order, OrderItem, Refund, RefundStatus, ReturnRequest, Payout}
use kintsugi.Orders.{update_order}
use kintsugi.Payouts.Reversal.{
  Reverse, ReversalAnswer, reverse_for_refund, reverse_line, claw_back, mark_reversal, claim_line,
}
use kintsugi.Refunds.{
  World, RefundRequest, RefundAnswer, issue_refund, refund_order, claim_and_send, settle_answer,
  claim_refund_headroom, claw_back_line, refund_in_full, unconfirmed, broke, insert_refund,
  update_refund,
}

-- What no refund writes.
abbrev pub untouched : Db → Table ReturnRequest × Table OrderItem
untouched db = (db.return_requests, db.order_items)

-- A claw-back touches neither orders nor refunds nor the lines of orders nor requests for returns.
abbrev pub IsFramed : Db → Db → Type 0
IsFramed db db' =
    (db'.orders ≡ db.orders) × (db'.refunds ≡ db.refunds) × (untouched db' ≡ untouched db)

mark_reversal-frame :
    (id : ℕ) (answer : ReversalAnswer) (db : Db) → IsFramed db (mark_reversal id answer db)
mark_reversal-frame id (ReversalAnswer.reversed r n) db = (refl, refl, refl)
mark_reversal-frame id ReversalAnswer.refused db = (refl, refl, refl)

claw_back-frame :
    (reverse : Reverse) (debt_id id oid target : ℕ) (payout : Payout) (db : Db)
    → IsFramed db (claw_back reverse debt_id id payout oid target db).1
unfolding claw_back
claw_back-frame reverse debt_id id oid target payout db =
    elim (Option-cases payout.provider_transfer_id) [
      | inl gone ↦ (ground (arith, gone), ground (arith, gone), ground (arith, gone))
      | inr (t, e) ↦
          let (orders, refunds, requests) = mark_reversal-frame id (reverse t target) db in
          (ground (arith, e, orders), ground (arith, e, refunds), ground (arith, e, requests))
    ]

pub claw_back_line-frame :
    (reverse : Reverse) (debt_id now : ℕ) (item : Option ℕ) (amount : ℕ) (db : Db)
    → IsFramed db (claw_back_line reverse debt_id now item amount db)
unfolding reverse_for_refund reverse_line
claw_back_line-frame reverse debt_id now none amount db = (refl, refl, refl)
claw_back_line-frame reverse debt_id now (some item) amount db =
    elim (Option-cases (find_first (λ _ p. p.order_item_id == item) db.payout_items)) [
      | inl gone ↦ (ground (arith, gone), ground (arith, gone), ground (arith, gone))
      | inr ((id, line), e) ↦ elim (Option-cases (find_unique line.payout_id db.payouts)) [
        | inl gone ↦ (ground (arith, e, gone), ground (arith, e, gone), ground (arith, e, gone))
        | inr (payout, e') ↦
            let (orders, refunds, requests) =
              claw_back-frame reverse debt_id id line.order_item_id (min line.amount_cents amount)
                payout (claim_line now id db) in
            (
              ground (arith, e, e', orders),
              ground (arith, e, e', refunds),
              ground (arith, e, e', requests),
            )
      ]
    ]

settle_answer-untouched :
    (w : World) (input : RefundRequest) (o : Order) (answer : RefundAnswer) (db : Db)
    → untouched (settle_answer w input o answer db).1 ≡ untouched db
unfolding settle_answer
settle_answer-untouched w input o (RefundAnswer.succeeded id) db =
    let row : Refund → Refund = λ x. record x {
      status = RefundStatus.succeeded;
      provider_refund_id = some id;
      completed_at = some w.now;
    } in
    let db' =
      update_order input.order_id (refund_in_full w.now) (update_refund w.refund_id row db) in
    (claw_back_line-frame w.reverse w.debt_id w.now input.order_item_id input.amount_cents db').2
settle_answer-untouched w input o (RefundAnswer.pending id) db = refl
settle_answer-untouched w input o (RefundAnswer.failed why) db = refl
settle_answer-untouched w input o (unconfirmed why) db = refl
settle_answer-untouched w input o (broke why) db = refl

-- A refund touches no request for a return and no line of an order.
pub issue_refund-untouched :
    (w : World) (input : RefundRequest) (db : Db)
    → untouched (issue_refund w input db).1 ≡ untouched db
unfolding issue_refund refund_order claim_and_send claim_refund_headroom
issue_refund-untouched w input db = elim (Option-cases (find_unique input.order_id db.orders)) [
  | inl gone ↦ ground (arith, gone)
  | inr (o, e) ↦ elim (Option-cases o.payment_intent_id) [
    | inl gone ↦ ground (arith, e, gone)
    | inr (intent, e') ↦
        let claimed =
          insert_refund w (trim input.reason) input o
            (claim_refund_headroom w.now input.order_id input.amount_cents db).1 in
        ground (
          arith,
          e,
          e',
          settle_answer-untouched w input o (w.refund_intent intent input.amount_cents w.refund_id)
              claimed,
        )
  ]
]

pub issue_refund-requests :
    (w : World) (input : RefundRequest) (db : Db)
    → (issue_refund w input db).1.return_requests ≡ db.return_requests
issue_refund-requests w input db = ap (λ u. u.0) (issue_refund-untouched w input db)
