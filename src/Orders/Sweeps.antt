-- ===== src/Orders/Sweeps.antt =====
-- The sweeps over orders that nobody is finishing, and the requests that pay and cancel
-- (backend/src/lib/orders.ts, backend/src/routes/orders.ts). What the payment provider answers is
-- an argument: it may throw, have no record, or report an outcome.
use kintsugi.Prelude.{
  ℕ, ◌+◌, Bool, true, false, ◌&&◌, Option, none, some, [], ◌∷◌, leb, if◌then◌else◌,
}
use kintsugi.Prelude.Table.{Table, find_many}
use kintsugi.Prelude.Action.{
  Action, Result, ok, err, pure, throw, ◌>>=◌, ◌>>◌, provider_unreachable,
}
use kintsugi.Prelude.Text.{Text, text}
use kintsugi.Schema.{Db, Order, OrderStatus}
use kintsugi.Orders.{
  order_payment_ttl_ms, order_processing_ttl_ms, is_pending, is_processing, is_paid, unclaim_order,
  claim_order_for_payment, mark_order_paid, release_order, get_order,
}

abbrev pub not_in_time : Option Text
not_in_time = some (text "Payment wasn't completed in time.")

abbrev pub is_abandoned : ℕ → ℕ → Order → Bool
is_abandoned now id o = is_pending o.status && leb (o.created_at + order_payment_ttl_ms) now

-- The handler of the loop: what a thrown error leaves, and what it counts.
abbrev pub counted : Result (Unit {0}) → ℕ
counted (ok _) = 1
counted (err c n) = 0

unfoldable pub release_stale : ℕ → Table Order → ℕ → Db → ℕ × Db
release_stale now [] released db = (released, db)
release_stale now ((id, order) ∷ stale) released db =
    let (r, db') = release_order now id OrderStatus.cancelled not_in_time db in
    release_stale now stale (released + counted r) db'

unfoldable pub release_abandoned_orders : ℕ → Db → ℕ × Db
release_abandoned_orders now db = release_stale now (find_many (is_abandoned now) db.orders) 0 db

-- What `getIntent` answers, or that it throws.
pub data IntentAnswer : Type 0 where
  unreachable unknown succeeded pending : IntentAnswer
  failed : Text → IntentAnswer

pub record Provider : Type 0 where
  pub get_intent : ℕ → IntentAnswer
  -- Whether `cancelIntent` returns, or throws.
  pub cancel_intent : ℕ → Bool

unfoldable pub reopen : ℕ → ℕ → Action Db ℕ
reopen now order_id db = (ok 1, unclaim_order now order_id db)

unfoldable pub abandon : Provider → ℕ → ℕ → ℕ → Action Db ℕ
abandon provider now order_id intent_id =
    if provider.cancel_intent intent_id
    then release_order now order_id OrderStatus.cancelled not_in_time >> pure 1
    else throw provider_unreachable 502

unfoldable pub settle_answer : Provider → ℕ → ℕ → Order → ℕ → IntentAnswer → Action Db ℕ
unfolding reopen abandon
settle_answer provider now order_id order intent_id unreachable = throw provider_unreachable 502
settle_answer provider now order_id order intent_id unknown = reopen now order_id
settle_answer provider now order_id order intent_id succeeded =
    mark_order_paid now order_id >>= λ _. pure 1
settle_answer provider now order_id order intent_id pending =
    if leb (order.created_at + order_payment_ttl_ms) now
    then abandon provider now order_id intent_id
    else pure 0
settle_answer provider now order_id order intent_id (failed reason) =
    release_order now order_id OrderStatus.failed (some reason) >> pure 1

unfoldable pub settle_stuck : Provider → ℕ → ℕ → Order → Action Db ℕ
unfolding reopen settle_answer
settle_stuck provider now order_id order = elim order.payment_intent_id [
  | none ↦ reopen now order_id
  | some intent_id ↦
      settle_answer provider now order_id order intent_id (provider.get_intent intent_id)
]

abbrev pub or_zero : Result ℕ → ℕ
or_zero (ok n) = n
or_zero (err c n) = 0

unfoldable pub reconcile : Provider → ℕ → Table Order → ℕ → Db → ℕ × Db
reconcile provider now [] settled db = (settled, db)
reconcile provider now ((id, order) ∷ stuck) settled db =
    let (r, db') = settle_stuck provider now id order db in
    reconcile provider now stuck (settled + or_zero r) db'

abbrev pub is_stuck : ℕ → ℕ → Order → Bool
is_stuck now id o = is_processing o.status && leb (o.updated_at + order_processing_ttl_ms) now

unfoldable pub reconcile_processing_orders : Provider → ℕ → Db → ℕ × Db
reconcile_processing_orders provider now db =
    reconcile provider now (find_many (is_stuck now) db.orders) 0 db

-- What `confirmIntent` answers; a thrown PaymentError is definitive or indeterminate.
pub data Confirmation : Type 0 where
  succeeded pending refused unconfirmed : Confirmation
  failed : Text → Confirmation

pub data PayReply : Type 0 where
  not_found no_intent already_paid in_progress not_payable answered could_not_complete : PayReply

abbrev pub lost_claim : Option (ℕ × Order) → PayReply
lost_claim none = PayReply.not_payable
lost_claim (some (_, o)) =
    if is_paid o.status
    then PayReply.already_paid
    else (if is_processing o.status then PayReply.in_progress else PayReply.not_payable)

abbrev pub replied : {A : Type 0} → Result A × Db → PayReply × Db
replied (ok _, db) = (PayReply.answered, db)
replied (err c n, db) = (PayReply.could_not_complete, db)

unfoldable pub record_outcome : ℕ → ℕ → Confirmation → Db → PayReply × Db
record_outcome now order_id Confirmation.succeeded db = replied (mark_order_paid now order_id db)
record_outcome now order_id Confirmation.pending db = (PayReply.answered, db)
record_outcome now order_id Confirmation.refused db =
    (PayReply.could_not_complete, unclaim_order now order_id db)
record_outcome now order_id Confirmation.unconfirmed db = (PayReply.could_not_complete, db)
record_outcome now order_id (Confirmation.failed reason) db =
    replied (release_order now order_id OrderStatus.failed (some reason) db)

-- `POST /orders/:id/pay` with a well-formed card number. The first result says whether the request
-- asked the provider to charge the card. `others` is what other requests and sweeps do to the database
-- between the claim and the record, while the provider is asked.
unfoldable pub pay : ℕ → ℕ → ℕ → (ℕ → Confirmation) → (Db → Db) → Db → Bool × PayReply × Db
unfolding record_outcome
pay now user_id order_id confirm others db = elim (get_order user_id order_id db) [
  | none ↦ (false, PayReply.not_found, db)
  | some (_, order) ↦ elim order.payment_intent_id [
    | none ↦ (false, PayReply.no_intent, db)
    | some intent_id ↦
        let (won, db') = claim_order_for_payment now user_id order_id db in
        if won
        then (let (reply, db'') = record_outcome now order_id (confirm intent_id) (others db') in
            (true, reply, db''))
        else (false, lost_claim (get_order user_id order_id db'), db')
  ]
]

pub data CancelReply : Type 0 where
  cancelled not_found in_progress not_cancellable : CancelReply

-- `POST /orders/:id/cancel`
unfoldable pub cancel : ℕ → ℕ → ℕ → Db → CancelReply × Db
cancel now user_id order_id db = elim (get_order user_id order_id db) [
  | none ↦ (CancelReply.not_found, db)
  | some (_, order) ↦
      if is_processing order.status
      then (CancelReply.in_progress, db)
      else (if is_pending order.status
          then (
            CancelReply.cancelled,
            (release_order now order_id OrderStatus.cancelled
                (some (text "Cancelled by the buyer.")) db).1,
          )
          else (CancelReply.not_cancellable, db))
]
