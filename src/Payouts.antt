-- ===== src/Payouts.antt =====
-- What a seller is owed and how it is paid (backend/src/lib/payouts.ts). The transfers of the payout
-- provider, the hold period and the times are arguments.
pub mod Claiming
pub mod Sending
pub mod Reversal
pub mod Summary
pub mod Netting
pub mod Books
pub mod Clawback
pub mod Transfers
pub mod Running
use kintsugi.Prelude.{
  ℕ, ◌+◌, ◌-◌, ◌*◌, Bool, true, false, not, ◌&&◌, ◌||◌, Option, none, some, List, [], ◌∷◌, ◌++◌,
  ltb, leb, ◌==◌, if◌then◌else◌, is_some, is_none, is_key, contains,
}
use kintsugi.Prelude.Table.{
  Table, find_unique, find_first, find_many, update, update_many, create, sum_by, in_ids, ids,
}
use kintsugi.Prelude.Text.{Text, length}
use kintsugi.Schema.{
  Db, SellerProfile, Order, OrderItem, FulfilmentStatus, Refund, RefundStatus, Payout, PayoutItem,
  PayoutDebt, PayoutStatus,
}
use kintsugi.Orders.{is_paid}

abbrev pub line_total : OrderItem → ℕ
line_total i = i.unit_price_cents * i.quantity

abbrev pub is_paid_order : Option Order → Bool
is_paid_order none = false
is_paid_order (some o) = is_paid o.status

-- The lines of a seller on paid orders.
unfoldable pub seller_items : ℕ → Db → Table OrderItem
seller_items seller_id db =
    find_many
      (λ id i. is_key i.seller_id seller_id && is_paid_order (find_unique i.order_id db.orders))
      db.order_items

-- PENDING and SUCCEEDED; a FAILED refund is ignored, since the money never left.
abbrev pub is_active : RefundStatus → Bool
is_active RefundStatus.failed = false
is_active _ = true

abbrev pub order_ids : Table OrderItem → List ℕ
order_ids [] = []
order_ids ((id, i) ∷ items) = i.order_id ∷ order_ids items

-- A refund with no line withholds every line of its order.
abbrev pub blocks : List ℕ → ℕ → OrderItem → ℕ → Refund → Bool
blocks orders id i _ r =
    is_active r.status
    && (contains r.order_id orders
        && (is_none r.order_item_id && r.order_id == i.order_id || is_key r.order_item_id id))

unfoldable pub is_refunded : Db → List ℕ → ℕ → OrderItem → Bool
is_refunded db orders id i = is_some (find_first (blocks orders id i) db.refunds)

-- A line that is already in a payout, whatever became of the payout.
unfoldable pub is_spoken_for : Db → ℕ → Bool
is_spoken_for db id = is_some (find_first (λ _ p. p.order_item_id == id) db.payout_items)

abbrev pub is_delivered : FulfilmentStatus → Bool
is_delivered FulfilmentStatus.delivered = true
is_delivered _ = false

abbrev pub is_unfulfillable : FulfilmentStatus → Bool
is_unfulfillable FulfilmentStatus.unfulfillable = true
is_unfulfillable _ = false

-- `deliveredAt !== null && deliveredAt <= now - hold`
abbrev pub is_past_hold : ℕ → ℕ → Option ℕ → Bool
is_past_hold hold now none = false
is_past_hold hold now (some at) = leb (at + hold) now

abbrev pub is_payable : ℕ → ℕ → Db → List ℕ → ℕ → OrderItem → Bool
is_payable hold now db orders id i =
    is_delivered i.fulfilment
    && (is_past_hold hold now i.delivered_at
        && (not (is_refunded db orders id i) && not (is_spoken_for db id)))

unfoldable pub payable_items : ℕ → ℕ → ℕ → Db → Table OrderItem
unfolding seller_items is_refunded is_spoken_for
payable_items hold now seller_id db =
    let items = seller_items seller_id db in
    find_many (is_payable hold now db (order_ids items)) items

pub record Earnings : Type 0 where
  pub eligible_cents : ℕ
  pub held_cents : ℕ
  pub in_flight_cents : ℕ
  pub not_earned_cents : ℕ
  pub held_until : Option ℕ

abbrev pub earlier : ℕ → Option ℕ → Option ℕ
earlier t none = some t
earlier t (some u) = if ltb t u then some t else some u

-- A line that is neither refunded nor in a payout.
abbrev pub add_unpaid : ℕ → ℕ → FulfilmentStatus → Option ℕ → ℕ → Earnings → Earnings
add_unpaid hold now FulfilmentStatus.delivered (some at) amount e =
    if leb (at + hold) now
    then record e { eligible_cents = e.eligible_cents + amount }
    else record e {
      held_cents = e.held_cents + amount;
      held_until = earlier (at + hold) e.held_until;
    }
add_unpaid hold now _ _ amount e = record e { in_flight_cents = e.in_flight_cents + amount }

abbrev pub add_earning : ℕ → ℕ → Bool → Bool → OrderItem → Earnings → Earnings
add_earning hold now refunded spoken i e =
    if refunded || is_unfulfillable i.fulfilment
    then record e { not_earned_cents = e.not_earned_cents + line_total i }
    else (if spoken then e else add_unpaid hold now i.fulfilment i.delivered_at (line_total i) e)

unfoldable pub add_earnings : ℕ → ℕ → Db → List ℕ → Table OrderItem → Earnings → Earnings
add_earnings hold now db orders [] e = e
add_earnings hold now db orders ((id, i) ∷ items) e =
    add_earnings hold now db orders items
      (add_earning hold now (is_refunded db orders id i) (is_spoken_for db id) i e)

abbrev pub is_paid_out : PayoutStatus → Bool
is_paid_out PayoutStatus.paid = true
is_paid_out _ = false

abbrev pub is_paid_to : ℕ → Option Payout → Bool
is_paid_to seller_id none = false
is_paid_to seller_id (some p) = p.seller_id == seller_id && is_paid_out p.status

pub record EarningsSummary : Type 0 where
  pub paid_cents : ℕ
  pub payable_cents : ℕ
  pub held_cents : ℕ
  pub held_until : Option ℕ
  pub withheld_cents : ℕ
  pub in_flight_cents : ℕ
  pub not_earned_cents : ℕ
  pub debt_cents : ℕ

pub record Gates : Type 0 where
  pub payouts_enabled : Bool
  pub payouts_ready : Bool
  pub connect_account_id : Option ℕ

abbrev pub gates_of : Option SellerProfile → Gates
gates_of none = record { payouts_enabled = false; payouts_ready = false; connect_account_id = none }
gates_of (some s) = record {
  payouts_enabled = s.payouts_enabled;
  payouts_ready = s.payouts_ready;
  connect_account_id = s.connect_account_id;
}

abbrev pub no_earnings : Earnings
no_earnings = record {
  eligible_cents = 0;
  held_cents = 0;
  in_flight_cents = 0;
  not_earned_cents = 0;
  held_until = none;
}

abbrev pub open_debts : ℕ → Db → Table PayoutDebt
open_debts seller_id db =
    find_many (λ _ d. d.seller_id == seller_id && is_none d.settled_at) db.payout_debts

unfoldable pub earnings_summary : ℕ → ℕ → ℕ → Db → EarningsSummary
unfolding seller_items
earnings_summary hold now seller_id db =
    let items = seller_items seller_id db in
    let gates = gates_of (find_unique seller_id db.sellers) in
    let e = add_earnings hold now db (order_ids items) items no_earnings in
    let is_open = gates.payouts_enabled && gates.payouts_ready in
    record {
      paid_cents =
          sum_by (λ _ p. p.amount_cents)
            (find_many
              (λ _ p.
                is_none p.reversed_at && is_paid_to seller_id (find_unique p.payout_id db.payouts))
              db.payout_items);
      payable_cents = if is_open then e.eligible_cents else 0;
      held_cents = e.held_cents;
      held_until = e.held_until;
      withheld_cents = if is_open then 0 else e.eligible_cents;
      in_flight_cents = e.in_flight_cents;
      not_earned_cents = e.not_earned_cents;
      debt_cents = sum_by (λ _ d. d.amount_cents) (open_debts seller_id db);
    }
