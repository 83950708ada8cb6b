-- ===== src/Examples/Money.antt =====
-- The shop after its paid order was paid out, refunded or asked back.
use kintsugi.Prelude.{true, none, some, [], ◌∷◌}
use kintsugi.Prelude.Text.{text}
use kintsugi.Schema.{
  Db, Refund, RefundStatus, RefundTrigger, Payout, PayoutStatus, PayoutItem, PayoutDebt,
  ReturnRequest, ReturnStatus,
}
use kintsugi.Payouts.Reversal.{ReversalAnswer}
use kintsugi.Refunds.{World, RefundRequest, RefundAnswer, unconfirmed}
use kintsugi.Examples.Shop.{shop, open_order, paid_order}

-- A payment provider that gives back what it is asked to, and a payout provider that can take
-- nothing back; then a payment provider that cannot say.
abbrev pub world : World
world = record {
  now = 20;
  refund_id = 80;
  debt_id = 85;
  refund_intent = λ intent amount key. RefundAnswer.succeeded 800;
  reverse = λ transfer amount. ReversalAnswer.reversed 801 0;
  payment_provider = text "stub";
}

abbrev pub lost_world : World
lost_world = record world { refund_intent = λ intent amount key. unconfirmed (text "timeout") }

abbrev pub half_back : RefundRequest
half_back = record {
  order_id = 51;
  order_item_id = some 61;
  amount_cents = 500;
  reason = text "Broken";
  trigger = RefundTrigger.admin;
  initiated_by_id = some 3;
}

abbrev pub half_refund : Refund
half_refund = record {
  order_id = 51;
  order_item_id = some 61;
  amount_cents = 500;
  currency = text "USD";
  status = RefundStatus.pending;
  trigger = RefundTrigger.admin;
  reason = text "Broken";
  initiated_by_id = some 3;
  provider = text "stub";
  provider_refund_id = some 800;
  failure_reason = none;
  completed_at = none;
}

-- A refund of the paid order waits for the provider.
abbrev pub refund_shop : Db
refund_shop = record shop {
  orders = (50, open_order) ∷ (51, record paid_order { refunded_cents = 500 }) ∷ [];
  refunds = (80, half_refund) ∷ [];
}

abbrev pub claimed_payout : Payout
claimed_payout = record {
  seller_id = 7;
  amount_cents = 1200;
  netted_cents = 0;
  status = PayoutStatus.pending;
  provider_transfer_id = none;
  failure_reason = none;
  completed_at = none;
}

abbrev pub paid_payout : Payout
paid_payout = record claimed_payout {
  status = PayoutStatus.paid;
  provider_transfer_id = some 700;
  completed_at = some 9;
}

abbrev pub paid_line : PayoutItem
paid_line = record {
  payout_id = 90;
  order_item_id = 61;
  amount_cents = 1200;
  reversed_at = none;
  provider_reversal_id = none;
}

-- The delivered line is claimed for a payout, and is paid out.
abbrev pub claimed_shop : Db
claimed_shop = record shop {
  payouts = (90, claimed_payout) ∷ [];
  payout_items = (95, paid_line) ∷ [];
}

abbrev pub paid_shop : Db
paid_shop = record claimed_shop { payouts = (90, paid_payout) ∷ [] }

abbrev pub small_debt : PayoutDebt
small_debt = record { seller_id = 7; amount_cents = 300; order_item_id = none; settled_at = none }

abbrev pub large_debt : PayoutDebt
large_debt = record small_debt { amount_cents = 2000 }

-- The seller owes two debts, and the payout can absorb the first.
abbrev pub debt_shop : Db
debt_shop = record shop { payout_debts = (86, small_debt) ∷ (87, large_debt) ∷ [] }

abbrev pub request : ReturnRequest
request = record {
  order_item_id = 61;
  order_id = 51;
  buyer_id = 22;
  status = ReturnStatus.open_;
  reason = text "Cracked";
  not_as_described = true;
  decision_note = none;
  decided_by_id = none;
  decided_at = none;
  refund_id = none;
}

abbrev pub return_shop : Db
return_shop = record shop { return_requests = (97, request) ∷ [] }

abbrev pub refusal : ReturnRequest
refusal = record request { status = ReturnStatus.rejected; decided_by_id = some 3 }

abbrev pub answered_shop : Db
answered_shop = record shop { return_requests = (97, refusal) ∷ [] }
