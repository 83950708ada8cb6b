-- ===== src/Sales/Books.antt =====
-- A line that cannot be sent is refunded (backend/src/lib/sales.ts with backend/src/lib/refunds.ts).
use kintsugi.Prelude.{
  ℕ, ◌+◌, ◌≤◌, ◌≡◌, refl, inl, inr, Bool, true, none, some, [], ◌∷◌, ◌++◌, is_none, arith,
  Option-cases, Bool-cases,
}
use kintsugi.Prelude.Table.{Table, find_unique, find_first, update, create, count, IsKeyed}
use kintsugi.Prelude.Action.{Result, ok, err}
use kintsugi.Prelude.Text.{Text, text, trim}
use kintsugi.Schema.{Db, Order, Refund, RefundStatus, RefundTrigger}
use kintsugi.Orders.{update_order}
use kintsugi.Refunds.{
  World, RefundRequest, RefundAnswer, unconfirmed, broke, issue_refund, refund_order,
  claim_and_send, claim_refund_headroom, settle_answer, new_refund, insert_refund, update_refund,
  fail_row, refund_in_full, is_active_for, refund_unfulfillable_line, line_refund, map_ok,
}
use kintsugi.Refunds.Frame.{claw_back_line-frame}
use kintsugi.Refunds.Books.{IsBalanced}
use kintsugi.Refunds.Settling.{issue_refund-IsBalanced}
use kintsugi.Prelude.Table.Lookup.{find_first-named}
use kintsugi.Sales.{find_sale, mark_unfulfillable, give_up_line, update_line, give_up, told}

map_ok-db : {A B : Type 0} (f : A → B) (r : Result A × Db) → (map_ok f r).1 ≡ r.1
map_ok-db f (ok a, db) = refl
map_ok-db f (err c n, db) = refl

told-db : (r : Result _ × Db) → (told r).1 ≡ r.1
told-db (ok a, db) = refl
told-db (err c n, db) = refl

pub refund_unfulfillable_line-IsBalanced :
    (w : World) (k id : ℕ) (reason : Text) (db : Db)
    → IsKeyed db.orders
    → find_unique w.refund_id db.refunds ≡ none
    → IsBalanced k db
    → IsBalanced k (refund_unfulfillable_line w id reason db).1
unfolding refund_unfulfillable_line
refund_unfulfillable_line-IsBalanced w k id reason db keyed fresh h =
    elim (Option-cases (find_unique id db.order_items)) [
      | inl gone ↦ ground (arith, gone, h)
      | inr (i, e) ↦
          let input = line_refund id i reason RefundTrigger.seller_unfulfillable none in
          ground (
            arith,
            e,
            h,
            issue_refund-IsBalanced w input k db keyed fresh h,
            map_ok-db some (issue_refund w input db),
          )
    ]

give_up_line-IsBalanced :
    (w : World) (k id : ℕ) (reason : Text) (db : Db)
    → IsKeyed db.orders
    → find_unique w.refund_id db.refunds ≡ none
    → IsBalanced k db
    → IsBalanced k (give_up_line w reason id db).1
unfolding give_up_line
give_up_line-IsBalanced w k id reason db keyed fresh h =
    let marked = update_line id (give_up reason) db in
    ground (
      arith,
      told-db (refund_unfulfillable_line w id reason marked),
      refund_unfulfillable_line-IsBalanced w k id reason marked keyed fresh h,
    )

found_none :
    {V : Type 0} (p : ℕ → V → Bool) (t : Table V) → is_none (find_first p t) ≡ true → count p t ≡ 0
unfolding find_first count
found_none p [] h = refl
found_none p ((j, v) ∷ t) h = elim (Bool-cases (p j v)) [
  | inl here ↦ absurd (ground (arith, here, h))
  | inr away ↦ ground (arith, away, found_none p t (ground (arith, away, h)))
]

count-created :
    {V : Type 0} (p : ℕ → V → Bool) (k : ℕ) (f : V → V) (u : V) (t : Table V)
    → find_unique k t ≡ none
    → count p (update k f (create k u t)) ≤ count p t + 1
unfolding find_unique count update create
count-created p k f u [] fresh = ground arith
count-created p k f u ((j, v) ∷ t) fresh = ground (arith, fresh, count-created p k f u t)

-- A refund adds at most one row that counts for a line.
settle_answer-adds :
    (w : World) (input : RefundRequest) (o : Order) (answer : RefundAnswer) (line : ℕ) (u : Refund)
    (t : Table Refund) (db : Db)
    → find_unique w.refund_id t ≡ none
    → db.refunds ≡ create w.refund_id u t
    → count (is_active_for line) (settle_answer w input o answer db).1.refunds
      ≤ count (is_active_for line) t + 1
unfolding settle_answer
settle_answer-adds w input o (RefundAnswer.succeeded id) line u t db fresh made =
    let row : Refund → Refund = λ x. record x {
      status = RefundStatus.succeeded;
      provider_refund_id = some id;
      completed_at = some w.now;
    } in
    let db' =
      update_order input.order_id (refund_in_full w.now) (update_refund w.refund_id row db) in
    let (orders, refunds, rest) =
      claw_back_line-frame w.reverse w.debt_id w.now input.order_item_id input.amount_cents db' in
    ground (arith, refunds, made, count-created (is_active_for line) w.refund_id row u t fresh)
settle_answer-adds w input o (RefundAnswer.pending id) line u t db fresh made =
    let row : Refund → Refund = λ x. record x {
      status = RefundStatus.pending;
      provider_refund_id = some id;
      completed_at = none;
    } in
    ground (arith, made, count-created (is_active_for line) w.refund_id row u t fresh)
settle_answer-adds w input o (RefundAnswer.failed why) line u t db fresh made =
    ground
      (arith, made, count-created (is_active_for line) w.refund_id (fail_row w.now why) u t fresh)
settle_answer-adds w input o (unconfirmed why) line u t db fresh made =
    let row : Refund → Refund =
      λ r. record r { failure_reason = some (text "Unconfirmed: " ++ why) } in
    ground (arith, made, count-created (is_active_for line) w.refund_id row u t fresh)
settle_answer-adds w input o (broke why) line u t db fresh made =
    ground
      (arith, made, count-created (is_active_for line) w.refund_id (fail_row w.now why) u t fresh)

claim_and_send-adds :
    (w : World) (reason : Text) (input : RefundRequest) (o : Order) (intent line : ℕ) (db : Db)
    → find_unique w.refund_id db.refunds ≡ none
    → count (is_active_for line) (claim_and_send w reason input o intent db).1.refunds
      ≤ count (is_active_for line) db.refunds + 1
unfolding claim_and_send claim_refund_headroom
claim_and_send-adds w reason input o intent line db fresh =
    let db' = (claim_refund_headroom w.now input.order_id input.amount_cents db).1 in
    let settled =
      settle_answer-adds w input o (w.refund_intent intent input.amount_cents w.refund_id) line
        (new_refund w.payment_provider reason input o) db.refunds
        (insert_refund w reason input o db') fresh refl in
    elim (Bool-cases (claim_refund_headroom w.now input.order_id input.amount_cents db).0) [
      | inl won ↦ ground (arith, won, settled)
      | inr lost ↦ ground (arith, lost)
    ]

issue_refund-adds :
    (w : World) (input : RefundRequest) (line : ℕ) (db : Db)
    → find_unique w.refund_id db.refunds ≡ none
    → count (is_active_for line) (issue_refund w input db).1.refunds
      ≤ count (is_active_for line) db.refunds + 1
unfolding issue_refund refund_order
issue_refund-adds w input line db fresh =
    elim (Option-cases (find_unique input.order_id db.orders)) [
      | inl gone ↦ ground (arith, gone)
      | inr (o, e) ↦ elim (Option-cases o.payment_intent_id) [
        | inl none_ ↦ ground (arith, e, none_)
        | inr (intent, e') ↦
            ground
              (arith, e, e', claim_and_send-adds w (trim input.reason) input o intent line db fresh)
      ]
    ]

-- A line for which a refund counts gets no other one when it is given up.
give_up_line-single :
    (w : World) (id : ℕ) (reason : Text) (db : Db)
    → find_unique w.refund_id db.refunds ≡ none
    → count (is_active_for id) db.refunds ≤ 1
    → count (is_active_for id) (give_up_line w reason id db).1.refunds ≤ 1
unfolding give_up_line refund_unfulfillable_line
give_up_line-single w id reason db fresh single =
    let marked = update_line id (give_up reason) db in
    let same = told-db (refund_unfulfillable_line w id reason marked) in
    elim (Option-cases (find_unique id marked.order_items)) [
      | inl gone ↦ ground (arith, same, gone, single)
      | inr (i, e) ↦
          let input = line_refund id i reason RefundTrigger.seller_unfulfillable none in
          let given = map_ok-db some (issue_refund w input marked) in
          elim (Bool-cases (is_none (find_first (is_active_for id) db.refunds))) [
            | inl free ↦ ground (
              arith,
              same,
              e,
              free,
              single,
              given,
              found_none (is_active_for id) db.refunds free,
              issue_refund-adds w input id marked fresh,
            )
            | inr taken ↦ ground (arith, same, e, taken, single)
          ]
    ]

-- Giving up a line, with the refund that follows and whatever the provider answers to it, gives the
-- line no second refund: where at most one refund of it is pending or went through before, that
-- holds after the call; and the books of every order stay in balance. The key of the new refund is
-- fresh, and orders have distinct keys.
pub mark_unfulfillable-IsBalanced :
    (w : World) (k seller_id id : ℕ) (reason : Text) (db : Db)
    → IsKeyed db.orders
    → find_unique w.refund_id db.refunds ≡ none
    → IsBalanced k db
    → count (is_active_for id) db.refunds ≤ 1
    → (count (is_active_for id) (mark_unfulfillable w seller_id id reason db).1.refunds ≤ 1)
      × IsBalanced k (mark_unfulfillable w seller_id id reason db).1
unfolding mark_unfulfillable find_sale
mark_unfulfillable-IsBalanced w k seller_id id reason db keyed fresh h single =
    elim (Option-cases (find_sale seller_id id db)) [
      | inl gone ↦ (ground (arith, gone, single), ground (arith, gone, h))
      | inr ((j, i), e) ↦
          let named : j ≡ id = find_first-named id _ db.order_items j i e in
          (
            ground
                (arith, e, named, single, give_up_line-single w id (trim reason) db fresh single),
            ground (arith, e, h, give_up_line-IsBalanced w k j (trim reason) db keyed fresh h),
          )
    ]
