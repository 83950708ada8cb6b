-- ===== src/Refunds/Settling.antt =====
-- A refund from its request to its end (backend/src/lib/refunds.ts, issueRefund and
-- settleRefundFromProvider).
use kintsugi.Prelude.{
  ℕ, ◌+◌, ◌≡◌, refl, sym, inl, inr, true, false, ◌&&◌, none, some, ◌++◌, arith, leb, Option-cases,
  Bool-cases,
}
use kintsugi.Prelude.Table.{find_unique, IsKeyed, update}
use kintsugi.Prelude.Table.Lookup.{find_unique-update_many, find_unique-create_new, count-by_key}
use kintsugi.Prelude.Text.{Text, text, trim}
use kintsugi.Schema.{Db, Order, OrderStatus, Refund, RefundStatus}
use kintsugi.Orders.{is_paid, update_order}
use kintsugi.Payouts.{is_active}
use kintsugi.Refunds.{
  World, RefundRequest, RefundAnswer, issue_refund, refund_order, claim_and_send, settle_answer,
  claim_refund_headroom, claw_back_line, has_headroom, spend, give_back, new_refund, fail_row,
  refund_in_full, unconfirmed, broke, insert_refund, fail_refund, update_refund,
}
use kintsugi.Refunds.Books.{
  IsBalanced, is_in_books, booked, claimed-books, unclaimed-books, moved-books, relabel-booked,
  fail-booked, full-books,
}
use kintsugi.Refunds.Frame.{IsFramed, claw_back_line-frame}

give_back_paid-books :
    (now amount n m : ℕ) (o : Order)
    → is_in_books (some o) n ≡ true
    → is_paid o.status ≡ true
    → m + amount ≡ n
    → is_in_books (some (give_back now amount o)) m ≡ true
give_back_paid-books now amount n m o h paid total = elim o.status [
  | OrderStatus.pending_payment ↦ ground (arith, paid)
  | OrderStatus.processing ↦ ground (arith, paid)
  | OrderStatus.paid ↦ ground (arith, h, total)
  | OrderStatus.failed ↦ ground (arith, paid)
  | OrderStatus.cancelled ↦ ground (arith, paid)
  | OrderStatus.refunded ↦ ground (arith, paid)
]

-- A refund that counts, of an order that is PAID, fails: the order has the room again.
fail_refund-IsBalanced :
    (k now id : ℕ) (why : Text) (r : Refund) (o : Order) (db : Db)
    → IsBalanced k db
    → find_unique id db.refunds ≡ some r
    → is_active r.status ≡ true
    → find_unique r.order_id db.orders ≡ some o
    → is_paid o.status ≡ true
    → IsBalanced k (fail_refund now id r.order_id r.amount_cents why db)
fail_refund-IsBalanced k now id why r o db h found active e paid =
    let refunds = update id (fail_row now why) db.refunds in
    let total = fail-booked k id now why db.refunds r found active in
    moved-books k r.order_id (booked k db.refunds) (booked k refunds) (give_back now r.amount_cents)
      db.orders h
      (λ x e' books here.
        give_back_paid-books now r.amount_cents (booked k db.refunds) (booked k refunds) x books
          (ground (arith, e, e', paid)) (ground (arith, total, here)))
      (λ there. ground (arith, total, there))

-- The refund of a row that counts is relabelled, and the order is closed where it is full.
pub finished-IsBalanced :
    (k id : ℕ) (f : Refund → Refund) (g : Order → Order) (order_id : ℕ) (r : Refund) (db : Db)
    → IsBalanced k db
    → find_unique id db.refunds ≡ some r
    → (f r).order_id ≡ r.order_id
    → (f r).amount_cents ≡ r.amount_cents
    → is_active (f r).status ≡ is_active r.status
    → ((n : ℕ) (o : Order) → is_in_books (some o) n ≡ true → is_in_books (some (g o)) n ≡ true)
    → IsBalanced k (update_order order_id g (update_refund id f db))
finished-IsBalanced k id f g order_id r db h found same_order same_amount same_active closes =
    let same =
      relabel-booked k id f db.refunds r found
        (ground (arith, same_order, same_amount, same_active)) in
    moved-books k order_id (booked k db.refunds) (booked k (update id f db.refunds)) g db.orders h
      (λ x e' books here. ground (arith, same, closes (booked k db.refunds) x books))
      (λ there. same)

pub framed-IsBalanced : (k : ℕ) (db db' : Db) → IsFramed db db' → IsBalanced k db → IsBalanced k db'
framed-IsBalanced k db db' (orders, refunds, requests) h = ground (arith, orders, refunds, h)

failed-IsBalanced :
    (w : World) (input : RefundRequest) (why : Text) (k : ℕ) (r : Refund) (o : Order) (db : Db)
    → IsBalanced k db
    → find_unique w.refund_id db.refunds ≡ some r
    → r.order_id ≡ input.order_id
    → r.amount_cents ≡ input.amount_cents
    → is_active r.status ≡ true
    → find_unique input.order_id db.orders ≡ some o
    → is_paid o.status ≡ true
    → IsBalanced k (fail_refund w.now w.refund_id input.order_id input.amount_cents why db)
failed-IsBalanced w input why k r o db h found of_order of_amount active e paid =
    let failed =
      fail_refund-IsBalanced k w.now w.refund_id why r o db h found active
        (ground (arith, of_order, e)) paid in
    rw (sym of_order) (rw (sym of_amount) failed)

settle_answer-IsBalanced :
    (w : World) (input : RefundRequest) (o paid_order : Order) (answer : RefundAnswer) (k : ℕ)
    (r : Refund) (db : Db)
    → IsBalanced k db
    → find_unique w.refund_id db.refunds ≡ some r
    → r.order_id ≡ input.order_id
    → r.amount_cents ≡ input.amount_cents
    → is_active r.status ≡ true
    → find_unique input.order_id db.orders ≡ some paid_order
    → is_paid paid_order.status ≡ true
    → IsBalanced k (settle_answer w input o answer db).1
unfolding settle_answer
settle_answer-IsBalanced w input o paid_order (RefundAnswer.succeeded id) k r db h found of_order
      of_amount active e paid =
    let row : Refund → Refund = λ x. record x {
      status = RefundStatus.succeeded;
      provider_refund_id = some id;
      completed_at = some w.now;
    } in
    let db' =
      update_order input.order_id (refund_in_full w.now) (update_refund w.refund_id row db) in
    framed-IsBalanced k db'
      (claw_back_line w.reverse w.debt_id w.now input.order_item_id input.amount_cents db')
      (claw_back_line-frame w.reverse w.debt_id w.now input.order_item_id input.amount_cents db')
      (finished-IsBalanced k w.refund_id row (refund_in_full w.now) input.order_id r db h found refl
        refl (sym active) (full-books w.now))
settle_answer-IsBalanced w input o paid_order (RefundAnswer.pending id) k r db h found of_order
      of_amount active e paid =
    finished-IsBalanced k w.refund_id
      (λ x. record x {
        status = RefundStatus.pending;
        provider_refund_id = some id;
        completed_at = none;
      })
      (refund_in_full w.now) input.order_id r db h found refl refl (sym active) (full-books w.now)
settle_answer-IsBalanced w input o paid_order (RefundAnswer.failed why) k r db h found of_order
      of_amount active e paid =
    failed-IsBalanced w input why k r paid_order db h found of_order of_amount active e paid
settle_answer-IsBalanced w input o paid_order (unconfirmed why) k r db h found of_order of_amount
      active e paid =
    let row : Refund → Refund =
      λ x. record x { failure_reason = some (text "Unconfirmed: " ++ why) } in
    ground (arith, h, relabel-booked k w.refund_id row db.refunds r found refl)
settle_answer-IsBalanced w input o paid_order (broke why) k r db h found of_order of_amount active e
      paid =
    failed-IsBalanced w input why k r paid_order db h found of_order of_amount active e paid

won-row :
    (now amount order_id : ℕ) (o : Order) (db : Db)
    → IsKeyed db.orders
    → find_unique order_id db.orders ≡ some o
    → (claim_refund_headroom now order_id amount db).0 ≡ true
    → (find_unique order_id (claim_refund_headroom now order_id amount db).1.orders
        ≡ some (spend now amount o))
      × (is_paid o.status ≡ true)
unfolding claim_refund_headroom
won-row now amount order_id o db keyed e won =
    let row =
      find_unique-update_many order_id (has_headroom order_id amount) (spend now amount) db.orders o
        e in
    let one =
      count-by_key order_id
        (λ x. is_paid x.status && leb (x.refunded_cents + amount) x.subtotal_cents) db.orders o
        keyed e in
    (ground (arith, row, one, won), ground (arith, one, won))

won-IsBalanced :
    (w : World) (reason : Text) (input : RefundRequest) (o : Order) (k : ℕ) (db : Db)
    → IsKeyed db.orders
    → (claim_refund_headroom w.now input.order_id input.amount_cents db).0 ≡ true
    → IsBalanced k db
    → IsBalanced k (
        insert_refund w reason input o
          (claim_refund_headroom w.now input.order_id input.amount_cents db).1)
unfolding claim_refund_headroom
won-IsBalanced w reason input o k db keyed won h =
    claimed-books w.now input.amount_cents k w.refund_id input.order_id
      (new_refund w.payment_provider reason input o) db.orders db.refunds keyed
      (ground (arith, won)) refl refl refl h

lost-IsBalanced :
    (now amount order_id k : ℕ) (db : Db)
    → IsKeyed db.orders
    → (claim_refund_headroom now order_id amount db).0 ≡ false
    → IsBalanced k db
    → IsBalanced k (claim_refund_headroom now order_id amount db).1
unfolding claim_refund_headroom
lost-IsBalanced now amount order_id k db keyed lost h =
    unclaimed-books now amount k order_id (booked k db.refunds) db.orders keyed lost h

claim_and_send-IsBalanced :
    (w : World) (reason : Text) (input : RefundRequest) (o : Order) (intent k : ℕ) (db : Db)
    → IsKeyed db.orders
    → find_unique w.refund_id db.refunds ≡ none
    → find_unique input.order_id db.orders ≡ some o
    → IsBalanced k db
    → IsBalanced k (claim_and_send w reason input o intent db).1
unfolding claim_and_send
claim_and_send-IsBalanced w reason input o intent k db keyed fresh e h =
    let r = new_refund w.payment_provider reason input o in
    let db' = (claim_refund_headroom w.now input.order_id input.amount_cents db).1 in
    elim (Bool-cases (claim_refund_headroom w.now input.order_id input.amount_cents db).0) [
      | inl won ↦
          let (row, paid) = won-row w.now input.amount_cents input.order_id o db keyed e won in
          let settled =
            settle_answer-IsBalanced w input o (spend w.now input.amount_cents o)
              (w.refund_intent intent input.amount_cents w.refund_id) k r
              (insert_refund w reason input o db')
              (won-IsBalanced w reason input o k db keyed won h)
              (find_unique-create_new w.refund_id r db.refunds fresh) refl refl refl row paid in
          ground (arith, won, settled)
      | inr lost ↦
          ground
            (arith, lost, lost-IsBalanced w.now input.amount_cents input.order_id k db keyed lost h)
    ]

-- A refund, whatever the provider answers and wherever it stops, keeps the books of an order in
-- balance, its own order or any other: what the order has refunded is what its refund rows that did
-- not fail come to, it is not more than the order took, and an order that is REFUNDED has given back
-- all of it. The key of the new row is fresh, and orders have distinct keys.
pub issue_refund-IsBalanced :
    (w : World) (input : RefundRequest) (k : ℕ) (db : Db)
    → IsKeyed db.orders
    → find_unique w.refund_id db.refunds ≡ none
    → IsBalanced k db
    → IsBalanced k (issue_refund w input db).1
unfolding issue_refund refund_order
issue_refund-IsBalanced w input k db keyed fresh h =
    elim (Option-cases (find_unique input.order_id db.orders)) [
      | inl gone ↦ ground (arith, gone, h)
      | inr (o, e) ↦ elim (Option-cases o.payment_intent_id) [
        | inl none_ ↦ ground (arith, e, none_, h)
        | inr (intent, e') ↦ ground (
          arith,
          e,
          e',
          h,
          claim_and_send-IsBalanced w (trim input.reason) input o intent k db keyed fresh e h,
        )
      ]
    ]
