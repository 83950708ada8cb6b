-- ===== src/Examples/Payouts.antt =====
-- The theorems on payouts at the example's shop.
use kintsugi.Prelude.{some, ℕ, ◌+◌, ◌<◌, ◌≤◌, ◌≡◌, ◌≢◌, refl, arith, min}
use kintsugi.Prelude.Table.{find_unique, find_first, find_many, sum_by, count}
use kintsugi.Prelude.Text.{Text}
use kintsugi.Prelude.Action.{ok}
use kintsugi.Payouts.{payable_items, earnings_summary}
use kintsugi.Payouts.Claiming.{
  claim_payout, plan_payout, refused, raced, net_debts, commit, gross_cents, is_taken, refusal,
  commit_pending,
}
use kintsugi.Payouts.Summary.{earnings_summary-payable}
use kintsugi.Payouts.Netting.{owed_cents}
use kintsugi.Payouts.Books.{claim_payout-books, commit_raced, of_payout, claimed_row}
use kintsugi.Payouts.Sending.{send_claimed_payout, TransferAnswer, already_settled, transient}
use kintsugi.Payouts.Transfers.{send_claimed_payout_twice}
use kintsugi.Payouts.Reversal.{reverse_for_refund, nothing, reverse_line, claw_back, ReversalAnswer}
use kintsugi.Payouts.Clawback.{reverse_for_refund_twice, reverse_for_refund-total}
use kintsugi.Examples.Shop.{shop, sold_line}
use kintsugi.Examples.Money.{
  world, claimed_shop, paid_shop, debt_shop, claimed_payout, paid_payout, small_debt, large_debt,
}
use kintsugi.Examples.Money

earnings_summary-payable_example :
    ((earnings_summary 1 100 7 shop).payable_cents + (earnings_summary 1 100 7 shop).withheld_cents
      ≡ gross_cents (payable_items 1 100 7 shop))
    × ((earnings_summary 1 100 7 shop).payable_cents ≡ gross_cents (payable_items 1 100 7 shop))
unfolding find_unique
earnings_summary-payable_example = earnings_summary-payable 1 100 7 shop

claim_payout-books_example :
    (sum_by (of_payout 90) (claim_payout (λ i. i) 90 1 100 7 debt_shop).1.payout_items ≡ 900 + 300)
    × (find_unique 90 (claim_payout (λ i. i) 90 1 100 7 debt_shop).1.payouts
        ≡ some (claimed_row 7 900 300))
    × (owed_cents 7 (claim_payout (λ i. i) 90 1 100 7 debt_shop).1.payout_debts + 300
        ≡ owed_cents 7 debt_shop.payout_debts)
    × (0 < 900)
unfolding claim_payout commit plan_payout refusal find_unique find_many sum_by net_debts
    payable_items find_first commit_pending is_taken
claim_payout-books_example =
    claim_payout-books (λ i. i) 90 1 100 7 900 300 1 90 debt_shop refl refl refl (refl, (refl, tt))

commit_raced_example :
    commit
      (λ i. i)
      91
      101
      (plan_payout 1 100 7 debt_shop)
      (commit (λ i. i) 90 100 (plan_payout 1 100 7 debt_shop) debt_shop).1
    ≡ (ok (refused raced), (commit (λ i. i) 90 100 (plan_payout 1 100 7 debt_shop) debt_shop).1)
unfolding plan_payout find_unique find_many sum_by net_debts payable_items find_first is_taken
commit_raced_example =
    commit_raced (λ i. i) (λ i. i) 90 91 100 101 61 (plan_payout 1 100 7 debt_shop)
      (plan_payout 1 100 7 debt_shop) sold_line sold_line debt_shop refl refl refl

abbrev sends : ℕ → ℕ → ℕ → TransferAnswer
sends account amount key = TransferAnswer.sent 700

sends-final : (why : Text) → sends 900 1200 90 ≢ transient why
sends-final why h = ground (arith, h)

send_claimed_payout_twice_example :
    send_claimed_payout sends 101 90 (send_claimed_payout sends 100 90 claimed_shop).1
    ≡ (already_settled, (send_claimed_payout sends 100 90 claimed_shop).1)
unfolding find_unique
send_claimed_payout_twice_example =
    send_claimed_payout_twice sends sends 100 101 90 900 claimed_payout claimed_shop refl refl refl
      sends-final

abbrev takes_back : ℕ → ℕ → ReversalAnswer
takes_back transfer amount = ReversalAnswer.reversed 801 (min amount 700)

takes_back-le : (transfer cents : ℕ) → min cents 700 ≤ cents
takes_back-le transfer cents = ground arith

reverse_for_refund_twice_example :
    reverse_for_refund takes_back 86 101 61 1200
      (reverse_for_refund takes_back 85 100 61 1000 paid_shop).1
    ≡ (nothing, (reverse_for_refund takes_back 85 100 61 1000 paid_shop).1)
unfolding reverse_for_refund find_first find_unique reverse_line claw_back count
reverse_for_refund_twice_example =
    reverse_for_refund_twice 61 takes_back takes_back 85 86 100 101 1000 1200 paid_shop refl

reverse_for_refund-total_example :
    (700 + owed_cents 7 (reverse_for_refund takes_back 85 100 61 1000 paid_shop).1.payout_debts
      ≡ owed_cents 7 paid_shop.payout_debts + 1000)
    × ((reverse_for_refund takes_back 85 100 61 1000 paid_shop).0.reversed_cents ≡ 700)
    × ((reverse_for_refund takes_back 85 100 61 1000 paid_shop).0.reversed_cents
          + (reverse_for_refund takes_back 85 100 61 1000 paid_shop).0.debt_cents
        ≡ 1000)
unfolding find_first find_unique
reverse_for_refund-total_example =
    reverse_for_refund-total 61 takes_back 85 100 1000 95 700 Money.paid_line paid_payout paid_shop
      takes_back-le (refl, tt) refl refl refl refl refl (ground arith)
