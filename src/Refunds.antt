-- ===== src/Refunds.antt =====
-- Sending money back (backend/src/lib/refunds.ts). The answers of the payment provider, the times
-- and the keys that the database mints are arguments. Notices to buyers change none of these
-- tables, and the reversal of a transfer, which the source starts and does not wait for, is run to
-- its end here.
pub mod Books
pub mod Frame
pub mod Settling
pub mod Outcome
pub mod Headroom
use kintsugi.Prelude.{
  ℕ, ◌+◌, ◌-◌, ◌*◌, Bool, true, false, not, ◌&&◌, ◌||◌, Option, none, some, ◌++◌, ltb, leb, ◌==◌,
  if◌then◌else◌, is_some, is_none, is_key,
}
use kintsugi.Prelude.Table.{
  Table, find_unique, find_first, find_many, update, update_many, create, count,
}
use kintsugi.Prelude.Action.{
  Action, Result, ok, err, pure, throw, gets, or_throw, throw_if, modify, ◌>>=◌, ◌>>◌,
  reason_required, invalid_amount, not_found, not_refundable, no_payment_reference,
  exceeds_order_total, refund_in_progress, provider_refused, refund_unconfirmed, refund_failed,
}
use kintsugi.Prelude.Text.{Text, text, trim, length}
use kintsugi.Schema.{Db, Order, OrderItem, OrderStatus, Refund, RefundStatus, RefundTrigger}
use kintsugi.Orders.{is_paid, update_order}
use kintsugi.Payouts.{is_active}
use kintsugi.Payouts.Reversal.{Reverse, reverse_for_refund}

unfoldable pub refundable_cents : ℕ → Db → ℕ
refundable_cents order_id db = elim (find_unique order_id db.orders) [
  | none ↦ 0
  | some o ↦ if is_paid o.status then o.subtotal_cents - o.refunded_cents else 0
]

abbrev pub has_headroom : ℕ → ℕ → ℕ → Order → Bool
has_headroom order_id amount id o =
    id == order_id && (is_paid o.status && leb (o.refunded_cents + amount) o.subtotal_cents)

abbrev pub spend : ℕ → ℕ → Order → Order
spend now amount o = record o { refunded_cents = o.refunded_cents + amount; updated_at = now }

-- One UPDATE: whether it matched the order, and what it wrote.
unfoldable pub claim_refund_headroom : ℕ → ℕ → ℕ → Db → Bool × Db
claim_refund_headroom now order_id amount db = (
  count (has_headroom order_id amount) db.orders == 1,
  record db { orders = update_many (has_headroom order_id amount) (spend now amount) db.orders },
)

abbrev pub give_back : ℕ → ℕ → Order → Order
give_back now amount o = record o { refunded_cents = o.refunded_cents - amount; updated_at = now }

abbrev pub release_refund_headroom : ℕ → ℕ → ℕ → Db → Db
release_refund_headroom now order_id amount = update_order order_id (give_back now amount)

abbrev pub update_refund : ℕ → (Refund → Refund) → Db → Db
update_refund id f db = record db { refunds = update id f db.refunds }

-- What `refundIntent` answers for a payment intent, an amount and an idempotency key, or throws:
-- an error that leaves it open whether the money moved, or any other one.
pub data RefundAnswer : Type 0 where
  succeeded pending : ℕ → RefundAnswer
  failed unconfirmed broke : Text → RefundAnswer

abbrev pub RefundIntent : Type 0
RefundIntent = ℕ → ℕ → ℕ → RefundAnswer

pub record RefundRequest : Type 0 where
  pub order_id : ℕ
  pub order_item_id : Option ℕ
  pub amount_cents : ℕ
  pub reason : Text
  pub trigger : RefundTrigger
  pub initiated_by_id : Option ℕ

pub record Issued : Type 0 where
  pub id : ℕ
  pub status : RefundStatus
  pub amount_cents : ℕ
  pub currency : Text

abbrev pub or_default : Option Text → Text → Text
or_default none d = d
or_default (some t) d = t

abbrev pub new_refund : Text → Text → RefundRequest → Order → Refund
new_refund payment_provider reason input o = record {
  order_id = input.order_id;
  order_item_id = input.order_item_id;
  amount_cents = input.amount_cents;
  currency = o.currency;
  status = RefundStatus.pending;
  trigger = input.trigger;
  reason = reason;
  initiated_by_id = input.initiated_by_id;
  provider = or_default o.payment_provider payment_provider;
  provider_refund_id = none;
  failure_reason = none;
  completed_at = none;
}

abbrev pub fail_row : ℕ → Text → Refund → Refund
fail_row now why r = record r {
  status = RefundStatus.failed;
  failure_reason = some why;
  completed_at = some now;
}

-- The row is FAILED and the headroom is given back.
abbrev pub fail_refund : ℕ → ℕ → ℕ → ℕ → Text → Db → Db
fail_refund now refund_id order_id amount why db =
    release_refund_headroom now order_id amount (update_refund refund_id (fail_row now why) db)

abbrev pub refund_in_full : ℕ → Order → Order
refund_in_full now o =
    if leb o.subtotal_cents o.refunded_cents
    then record o { status = OrderStatus.refunded; updated_at = now }
    else o

-- Fully refunded orders get the status.
abbrev pub finish_order : ℕ → ℕ → Db → Db
finish_order now order_id = update_order order_id (refund_in_full now)

abbrev pub claw_back_line : Reverse → ℕ → ℕ → Option ℕ → ℕ → Db → Db
claw_back_line reverse debt_id now none amount db = db
claw_back_line reverse debt_id now (some item_id) amount db =
    (reverse_for_refund reverse debt_id now item_id amount db).1

-- What a call has to know beside its input: the clock, the keys that the database would mint, the
-- providers, and the name of the configured payment provider.
pub record World : Type 0 where
  pub now : ℕ
  pub refund_id : ℕ
  pub debt_id : ℕ
  pub refund_intent : RefundIntent
  pub reverse : Reverse
  pub payment_provider : Text

abbrev pub issued : ℕ → RefundStatus → RefundRequest → Order → Issued
issued id status input o = record {
  id = id;
  status = status;
  amount_cents = input.amount_cents;
  currency = o.currency;
}

-- The settling of the PENDING row on the provider's answer.
unfoldable pub settle_answer : World → RefundRequest → Order → RefundAnswer → Action Db Issued
settle_answer w input o (RefundAnswer.succeeded id) db =
    let row : Refund → Refund = λ r. record r {
      status = RefundStatus.succeeded;
      provider_refund_id = some id;
      completed_at = some w.now;
    } in
    (
      ok (issued w.refund_id RefundStatus.succeeded input o),
      claw_back_line w.reverse w.debt_id w.now input.order_item_id input.amount_cents
          (finish_order w.now input.order_id (update_refund w.refund_id row db)),
    )
settle_answer w input o (RefundAnswer.pending id) db =
    let row : Refund → Refund = λ r. record r {
      status = RefundStatus.pending;
      provider_refund_id = some id;
      completed_at = none;
    } in
    (
      ok (issued w.refund_id RefundStatus.pending input o),
      finish_order w.now input.order_id (update_refund w.refund_id row db),
    )
settle_answer w input o (RefundAnswer.failed why) db = (
  err provider_refused 502,
  fail_refund w.now w.refund_id input.order_id input.amount_cents why db,
)
settle_answer w input o (unconfirmed why) db =
    let row : Refund → Refund =
      λ r. record r { failure_reason = some (text "Unconfirmed: " ++ why) } in
    (err refund_unconfirmed 502, update_refund w.refund_id row db)
settle_answer w input o (broke why) db =
    (err refund_failed 502, fail_refund w.now w.refund_id input.order_id input.amount_cents why db)

abbrev pub insert_refund : World → Text → RefundRequest → Order → Db → Db
insert_refund w reason input o db = record db {
  refunds = create w.refund_id (new_refund w.payment_provider reason input o) db.refunds;
}

-- The claim, the row, the provider, the settling, in this order.
unfoldable pub claim_and_send : World → Text → RefundRequest → Order → ℕ → Action Db Issued
unfolding claim_refund_headroom settle_answer
claim_and_send w reason input o payment_intent_id db =
    let (claimed, db') = claim_refund_headroom w.now input.order_id input.amount_cents db in
    if claimed
    then settle_answer w input o (w.refund_intent payment_intent_id input.amount_cents w.refund_id)
        (insert_refund w reason input o db')
    else (err refund_in_progress 409, db')

unfoldable pub refund_order : World → Text → RefundRequest → Order → Action Db Issued
refund_order w reason input o = do
  throw_if (not (is_paid o.status)) not_refundable 409
  payment_intent_id ← or_throw o.payment_intent_id no_payment_reference 409
  throw_if (ltb o.subtotal_cents (o.refunded_cents + input.amount_cents)) exceeds_order_total 409
  claim_and_send w reason input o payment_intent_id

unfoldable pub issue_refund : World → RefundRequest → Action Db Issued
issue_refund w input = do
  throw_if (ltb (length (trim input.reason)) 3) reason_required 400
  throw_if (ltb input.amount_cents 1) invalid_amount 400
  o ← or_throw (← gets (λ db. find_unique input.order_id db.orders)) not_found 404
  refund_order w (trim input.reason) input o

abbrev pub is_active_for : ℕ → ℕ → Refund → Bool
is_active_for item_id _ r = is_key r.order_item_id item_id && is_active r.status

abbrev pub line_refund : ℕ → OrderItem → Text → RefundTrigger → Option ℕ → RefundRequest
line_refund item_id i reason trigger initiated_by_id = record {
  order_id = i.order_id;
  order_item_id = some item_id;
  amount_cents = i.unit_price_cents * i.quantity;
  reason = reason;
  trigger = trigger;
  initiated_by_id = initiated_by_id;
}

abbrev pub is_paid_row : Option Order → Bool
is_paid_row none = false
is_paid_row (some o) = is_paid o.status

abbrev pub map_ok : {A B : Type 0} → (A → B) → Result A × Db → Result B × Db
map_ok f (ok a, db) = (ok (f a), db)
map_ok f (err c n, db) = (err c n, db)

-- None where there is nothing to give back.
unfoldable pub refund_unfulfillable_line : World → ℕ → Text → Action Db (Option Issued)
unfolding issue_refund
refund_unfulfillable_line w item_id reason db = elim (find_unique item_id db.order_items) [
  | none ↦ (err not_found 404, db)
  | some i ↦
      if is_paid_row (find_unique i.order_id db.orders)
        && is_none (find_first (is_active_for item_id) db.refunds)
      then map_ok some
          (issue_refund w (line_refund item_id i reason RefundTrigger.seller_unfulfillable none) db)
      else (ok none, db)
]

-- What the provider reports of a refund that it had left open.
pub data RefundOutcome : Type 0 where
  succeeded pending : RefundOutcome
  failed : Text → RefundOutcome

pub data Applied : Type 0 where
  applied : RefundStatus → ℕ → Applied
  no_such_refund already_settled still_pending : Applied

abbrev pub is_refund_pending : RefundStatus → Bool
is_refund_pending RefundStatus.pending = true
is_refund_pending _ = false

abbrev pub settle_in_full : ℕ → Order → Order
settle_in_full now o = elim o.status [ OrderStatus.refunded ↦ o | _ ↦ refund_in_full now o ]

-- A REFUNDED order that has room again is PAID.
abbrev pub unwind : ℕ → Order → Order
unwind now o = elim o.status [
  | OrderStatus.refunded ↦
      if ltb o.refunded_cents o.subtotal_cents
      then record o { status = OrderStatus.paid; updated_at = now }
      else o
  | _ ↦ o
]

unfoldable pub apply_outcome : Reverse → ℕ → ℕ → ℕ → Refund → RefundOutcome → Db → Applied × Db
apply_outcome reverse debt_id now id r RefundOutcome.pending db = (still_pending, db)
apply_outcome reverse debt_id now id r RefundOutcome.succeeded db =
    let row : Refund → Refund =
      λ x. record x { status = RefundStatus.succeeded; completed_at = some now } in
    (
      applied RefundStatus.succeeded id,
      claw_back_line reverse debt_id now r.order_item_id r.amount_cents
          (update_order r.order_id (settle_in_full now) (update_refund id row db)),
    )
apply_outcome reverse debt_id now id r (RefundOutcome.failed why) db = (
  applied RefundStatus.failed id,
  update_order r.order_id (unwind now) (fail_refund now id r.order_id r.amount_cents why db),
)

unfoldable pub settle_refund_from_provider : Reverse → ℕ → ℕ → ℕ → RefundOutcome → Db → Applied × Db
unfolding apply_outcome
settle_refund_from_provider reverse debt_id now provider_refund_id outcome db =
    elim (find_first (λ _ r. is_key r.provider_refund_id provider_refund_id) db.refunds) [
      | none ↦ (no_such_refund, db)
      | some (id, r) ↦
          if is_refund_pending r.status
          then apply_outcome reverse debt_id now id r outcome db
          else (already_settled, db)
    ]

unfoldable pub refunds_for_order : ℕ → Db → Table Refund
refunds_for_order order_id db = find_many (λ _ r. r.order_id == order_id) db.refunds
