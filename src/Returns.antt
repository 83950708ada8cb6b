-- ===== src/Returns.antt =====
-- A buyer asks to send a line back, and somebody answers (backend/src/lib/returns.ts). The return
-- window and the times are arguments; notices and listings of requests are left out.
pub mod Answers
use kintsugi.Prelude.{
  ℕ, ◌+◌, ◌*◌, Bool, true, false, not, ◌&&◌, ◌||◌, Option, none, some, [], ◌∷◌, ◌++◌, ltb, leb,
  ◌==◌, if◌then◌else◌, is_some, is_none, is_key, zero, suc,
}
use kintsugi.Prelude.Table.{Table, find_unique, find_first, update, update_many, create, count}
use kintsugi.Prelude.Action.{Result, ok, err}
use kintsugi.Prelude.Text.{Text, text, trim, length}
use kintsugi.Schema.{
  Db, Order, OrderItem, OrderStatus, FulfilmentStatus, Refund, RefundTrigger, ReturnRequest,
  ReturnStatus,
}
use kintsugi.Refunds.{World, Issued, issue_refund, is_active_for, line_refund}

pub data Ineligibility : Type 0 where
  not_your_order no_such_item order_not_paid not_delivered window_closed already_refunded :
      Ineligibility
  already_requested : Ineligibility

pub data Eligibility : Type 0 where
  eligible : (order_id amount_cents deadline : ℕ) → Eligibility
  ineligible : Ineligibility → Option ℕ → Eligibility

abbrev pub is_requested : Db → ℕ → Bool
is_requested db item_id = ltb 0 (count (λ _ q. q.order_item_id == item_id) db.return_requests)

-- The refunds and the requests of the line, after the facts of the order and of the line.
unfoldable pub line_eligibility : ℕ → ℕ → ℕ → OrderItem → ℕ → Db → Eligibility
line_eligibility window now item_id i delivered_at db =
    let deadline = delivered_at + window in
    if ltb deadline now
    then ineligible window_closed (some deadline)
    else (if ltb 0 (count (is_active_for item_id) db.refunds)
        then ineligible already_refunded none
        else (if is_requested db item_id
            then ineligible already_requested none
            else eligible i.order_id (i.unit_price_cents * i.quantity) deadline))

unfoldable pub delivered_eligibility : ℕ → ℕ → ℕ → OrderItem → Db → Eligibility
unfolding line_eligibility
delivered_eligibility window now item_id i db = elim i.fulfilment [
  | FulfilmentStatus.delivered ↦ elim i.delivered_at [
    | none ↦ ineligible not_delivered none
    | some at ↦ line_eligibility window now item_id i at db
  ]
  | _ ↦ ineligible not_delivered none
]

unfoldable pub order_eligibility : ℕ → ℕ → ℕ → OrderItem → OrderStatus → Db → Eligibility
unfolding delivered_eligibility
order_eligibility window now item_id i OrderStatus.refunded db = ineligible already_refunded none
order_eligibility window now item_id i OrderStatus.paid db =
    delivered_eligibility window now item_id i db
order_eligibility window now item_id i _ db = ineligible order_not_paid none

-- Every line has its order.
unfoldable pub eligibility : ℕ → ℕ → ℕ → ℕ → Db → Eligibility
unfolding order_eligibility
eligibility window now buyer_id item_id db = elim (find_unique item_id db.order_items) [
  | none ↦ ineligible no_such_item none
  | some i ↦ elim (find_unique i.order_id db.orders) [
    | none ↦ ineligible no_such_item none
    | some o ↦
        if o.buyer_id == buyer_id
        then order_eligibility window now item_id i o.status db
        else ineligible not_your_order none
  ]
]

pub data OpenOutcome : Type 0 where
  opened : (id deadline : ℕ) → OpenOutcome
  not_opened : Ineligibility → Option ℕ → OpenOutcome
  raced : OpenOutcome

abbrev pub new_request : ℕ → ℕ → ℕ → Text → Bool → ReturnRequest
new_request item_id order_id buyer_id reason not_as_described = record {
  order_item_id = item_id;
  order_id = order_id;
  buyer_id = buyer_id;
  status = ReturnStatus.open_;
  reason = reason;
  not_as_described = not_as_described;
  decision_note = none;
  decided_by_id = none;
  decided_at = none;
  refund_id = none;
}

-- The insertion, on the rows as they are then, against the unique index on the line.
unfoldable pub insert_request : ℕ → ReturnRequest → ℕ → Db → OpenOutcome × Db
insert_request id q deadline db =
    if is_requested db q.order_item_id
    then (raced, db)
    else (opened id deadline, record db { return_requests = create id q db.return_requests })

unfoldable pub open_return : ℕ → ℕ → ℕ → ℕ → ℕ → Text → Bool → Db → OpenOutcome × Db
unfolding insert_request
open_return id window now buyer_id item_id reason not_as_described db =
    elim (eligibility window now buyer_id item_id db) [
      | ineligible why deadline ↦ (not_opened why deadline, db)
      | eligible order_id amount deadline ↦
          insert_request id (new_request item_id order_id buyer_id (trim reason) not_as_described)
            deadline db
    ]

pub data RespondOutcome : Type 0 where
  done : ReturnStatus → Option ℕ → RespondOutcome
  no_such_request not_yours note_required refund_failed : RespondOutcome
  wrong_state : ReturnStatus → RespondOutcome

abbrev pub is_in : (ReturnStatus → Bool) → ℕ → ℕ → ReturnRequest → Bool
is_in source id k q = k == id && source q.status

-- One conditional UPDATE: whether it matched, and what it wrote.
unfoldable pub transition :
    ℕ → (ReturnStatus → Bool) → (ReturnRequest → ReturnRequest) → Db → Bool × Db
transition id source data_ db = (
  count (is_in source id) db.return_requests == 1,
  record db { return_requests = update_many (is_in source id) data_ db.return_requests },
)

abbrev pub is_open : ReturnStatus → Bool
is_open ReturnStatus.open_ = true
is_open _ = false

abbrev pub is_refused : ReturnStatus → Bool
is_refused ReturnStatus.refused = true
is_refused _ = false

-- OPEN, ESCALATED and REFUSED for a moderator, OPEN for the seller.
abbrev pub answerable : Bool → ReturnStatus → Bool
answerable moderator ReturnStatus.open_ = true
answerable moderator ReturnStatus.escalated = moderator
answerable moderator ReturnStatus.refused = moderator
answerable moderator _ = false

abbrev pub respond : ReturnStatus → ReturnStatus → Bool × Db → RespondOutcome × Db
respond status previous (true, db) = (done status none, db)
respond status previous (false, db) = (wrong_state previous, db)

unfoldable pub withdraw_return : ℕ → ℕ → ℕ → Db → RespondOutcome × Db
unfolding transition
withdraw_return now buyer_id id db = elim (find_unique id db.return_requests) [
  | none ↦ (no_such_request, db)
  | some q ↦
      if q.buyer_id == buyer_id
      then respond ReturnStatus.withdrawn q.status (
          transition id is_open
            (λ x. record x { status = ReturnStatus.withdrawn; decided_at = some now }) db)
      else (not_yours, db)
]

unfoldable pub escalate_return : ℕ → ℕ → Db → RespondOutcome × Db
unfolding transition
escalate_return buyer_id id db = elim (find_unique id db.return_requests) [
  | none ↦ (no_such_request, db)
  | some q ↦
      if q.buyer_id == buyer_id
      then respond ReturnStatus.escalated q.status
          (transition id is_refused (λ x. record x { status = ReturnStatus.escalated }) db)
      else (not_yours, db)
]

-- `slice(0, n)`
abbrev pub slice : ℕ → Text → Text
slice zero t = []
slice (suc n) [] = []
slice (suc n) (c ∷ t) = c ∷ slice n t

-- `input.note?.trim() || null`
abbrev pub some_note : Option Text → Option Text
some_note none = none
some_note (some t) = if length (trim t) == 0 then none else some (trim t)

abbrev pub approve_row : ℕ → ℕ → Option Text → ReturnRequest → ReturnRequest
approve_row now decided_by_id note q = record q {
  status = ReturnStatus.approved;
  decided_by_id = some decided_by_id;
  decision_note = some_note note;
  decided_at = some now;
}

abbrev pub is_approved : ReturnStatus → Bool
is_approved ReturnStatus.approved = true
is_approved _ = false

abbrev pub reopen_row : ReturnStatus → ReturnRequest → ReturnRequest
reopen_row previous q = record q {
  status = previous;
  decided_by_id = none;
  decision_note = none;
  decided_at = none;
}

-- The end of an approval: the refund is recorded on the request, or the request goes back.
unfoldable pub finish_approval : ℕ → ReturnStatus → Result Issued × Db → RespondOutcome × Db
finish_approval id previous (ok refund, db) =
    let row : ReturnRequest → ReturnRequest = λ q. record q { refund_id = some refund.id } in
    (
      done ReturnStatus.approved (some refund.id),
      record db { return_requests = update id row db.return_requests },
    )
finish_approval id previous (err c n, db) = (
  refund_failed,
  record db {
    return_requests = update_many (is_in is_approved id) (reopen_row previous) db.return_requests;
  },
)

abbrev pub return_reason : ReturnRequest → Text
return_reason q = slice 500 (text "Return approved: " ++ q.reason)

unfoldable pub approve_claimed :
    World → ℕ → ℕ → ReturnRequest → OrderItem → Bool × Db → RespondOutcome × Db
unfolding finish_approval
approve_claimed w id decided_by_id q i (false, db) = (wrong_state q.status, db)
approve_claimed w id decided_by_id q i (true, db) = finish_approval id q.status (
    issue_refund w
      (record (line_refund q.order_item_id i (return_reason q) RefundTrigger.buyer_return
        (some decided_by_id)) { order_id = q.order_id })
      db)

unfoldable pub approve_return : World → ℕ → ℕ → Option Text → Bool → Db → RespondOutcome × Db
unfolding approve_claimed
approve_return w id decided_by_id note allow_escalated db =
    elim (find_unique id db.return_requests) [
      | none ↦ (no_such_request, db)
      | some q ↦ elim (find_unique q.order_item_id db.order_items) [
        | none ↦ (no_such_request, db)
        | some i ↦
            approve_claimed w id decided_by_id q i
              (transition id (answerable allow_escalated) (approve_row w.now decided_by_id note) db)
      ]
    ]

abbrev pub refuse_row : ℕ → ℕ → Text → ReturnStatus → ReturnRequest → ReturnRequest
refuse_row now decided_by_id note status q = record q {
  status = status;
  decided_by_id = some decided_by_id;
  decision_note = some note;
  decided_at = some now;
}

unfoldable pub refuse_return : ℕ → ℕ → ℕ → Text → Bool → Db → RespondOutcome × Db
unfolding transition
refuse_return now id decided_by_id note terminal db =
    let status = if terminal then ReturnStatus.rejected else ReturnStatus.refused in
    if ltb (length (trim note)) 3
    then (note_required, db)
    else elim (find_unique id db.return_requests) [
      | none ↦ (no_such_request, db)
      | some q ↦
          respond status q.status (
            transition id (answerable terminal) (refuse_row now decided_by_id (trim note) status)
              db)
    ]
