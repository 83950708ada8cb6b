-- ===== src/Payouts/Reversal.antt =====
-- A refund that arrives after the seller was paid (backend/src/lib/payouts.ts, reverseForRefund).
use kintsugi.Prelude.{
  ℕ, ◌-◌, Bool, true, false, ◌&&◌, none, some, ltb, ◌==◌, if◌then◌else◌, is_none, min,
}
use kintsugi.Prelude.Table.{find_unique, find_first, update, update_many, count, create}
use kintsugi.Schema.{Db, Payout, PayoutItem, PayoutDebt}
use kintsugi.Payouts.{is_paid_out}

-- What `reverseTransfer` answers for a transfer and an amount, or throws.
pub data ReversalAnswer : Type 0 where
  reversed : (reversal_id reversed_cents : ℕ) → ReversalAnswer
  refused : ReversalAnswer

abbrev pub Reverse : Type 0
Reverse = ℕ → ℕ → ReversalAnswer

pub record ReversalOutcome : Type 0 where
  pub nothing_to_reverse : Bool
  pub reversed_cents : ℕ
  pub debt_cents : ℕ

abbrev pub nothing : ReversalOutcome
nothing = record { nothing_to_reverse = true; reversed_cents = 0; debt_cents = 0 }

abbrev pub reversed_part : ReversalAnswer → ℕ
reversed_part (reversed id n) = n
reversed_part refused = 0

abbrev pub mark_reversal : ℕ → ReversalAnswer → Db → Db
mark_reversal id (reversed reversal_id n) db = record db {
  payout_items =
      update id (λ p. record p { provider_reversal_id = some reversal_id }) db.payout_items;
}
mark_reversal id refused db = db

abbrev pub new_debt : ℕ → ℕ → ℕ → PayoutDebt
new_debt seller_id order_item_id shortfall = record {
  seller_id = seller_id;
  amount_cents = shortfall;
  order_item_id = some order_item_id;
  settled_at = none;
}

abbrev pub owe : ℕ → ℕ → ℕ → ℕ → Db → Db
owe debt_id seller_id order_item_id shortfall db =
    if ltb 0 shortfall
    then record db {
      payout_debts = create debt_id (new_debt seller_id order_item_id shortfall) db.payout_debts;
    }
    else db

-- After the claim of the line: the transfer is reversed as far as it can be, and the rest is owed. A
-- provider that reversed more than it was asked for would make the source report a negative debt,
-- and write none; the report is 0 here.
unfoldable pub claw_back : Reverse → ℕ → ℕ → Payout → ℕ → ℕ → Db → ReversalOutcome × Db
claw_back reverse debt_id id payout order_item_id target db = elim payout.provider_transfer_id [
  | none ↦ (record nothing { nothing_to_reverse = false }, db)
  | some transfer_id ↦
      let answer = reverse transfer_id target in
      let shortfall = target - reversed_part answer in
      (
        record {
          nothing_to_reverse = false;
          reversed_cents = reversed_part answer;
          debt_cents = shortfall;
        },
        owe debt_id payout.seller_id order_item_id shortfall (mark_reversal id answer db),
      )
]

abbrev pub is_unreversed : ℕ → ℕ → PayoutItem → Bool
is_unreversed id i p = i == id && is_none p.reversed_at

abbrev pub claim_line : ℕ → ℕ → Db → Db
claim_line now id db = record db {
  payout_items =
      update_many (is_unreversed id) (λ p. record p { reversed_at = some now }) db.payout_items;
}

unfoldable pub reverse_line :
    Reverse → ℕ → ℕ → ℕ → PayoutItem → ℕ → Payout → Db → ReversalOutcome × Db
unfolding claw_back
reverse_line reverse debt_id now id line refunded_cents payout db =
    let target = min line.amount_cents refunded_cents in
    if is_none line.reversed_at
      && (is_paid_out payout.status
          && (ltb 0 target && count (is_unreversed id) db.payout_items == 1))
    then claw_back reverse debt_id id payout line.order_item_id target (claim_line now id db)
    else (nothing, db)

unfoldable pub reverse_for_refund : Reverse → ℕ → ℕ → ℕ → ℕ → Db → ReversalOutcome × Db
unfolding reverse_line
reverse_for_refund reverse debt_id now order_item_id refunded_cents db =
    elim (find_first (λ _ p. p.order_item_id == order_item_id) db.payout_items) [
      | none ↦ (nothing, db)
      | some (id, line) ↦ elim (find_unique line.payout_id db.payouts) [
        | none ↦ (nothing, db)
        | some payout ↦ reverse_line reverse debt_id now id line refunded_cents payout db
      ]
    ]
