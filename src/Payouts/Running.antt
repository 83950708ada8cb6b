-- ===== src/Payouts/Running.antt =====
-- A payout from its claim to its transfer, in one call (backend/src/lib/payouts.ts, runPayout).
use kintsugi.Prelude.{ℕ, ◌≡◌, refl, inl, inr, true, none, some, arith, ap, Option-cases}
use kintsugi.Prelude.Table.{find_unique, IsKeyed}
use kintsugi.Prelude.Table.Lookup.{find_unique-create_new, create-IsKeyed}
use kintsugi.Prelude.Action.{Action, Result, ok, err}
use kintsugi.Schema.{Db, PayoutStatus}
use kintsugi.Payouts.Claiming.{
  ClaimOutcome, Refusal, Plan, claim_payout, plan_payout, refusal, commit, commit_netted,
  commit_pending, new_payout,
}
use kintsugi.Payouts.Sending.{
  Transfer, TransferAnswer, SendOutcome, send_claimed_payout, account_of, settle_sent,
}
use kintsugi.Payouts.Transfers.{send_claimed_payout-outcome}

pub data RunOutcome : Type 0 where
  not_sent : Refusal → RunOutcome
  attempted : SendOutcome → RunOutcome

abbrev pub send_claim : Transfer → ℕ → Result ClaimOutcome × Db → Result RunOutcome × Db
send_claim transfer now (ok (ClaimOutcome.claimed payout_id amount netted n), db) =
    let (outcome, db') = send_claimed_payout transfer now payout_id db in
    (ok (attempted outcome), db')
send_claim transfer now (ok (ClaimOutcome.refused why), db) = (ok (not_sent why), db)
send_claim transfer now (err c n, db) = (err c n, db)

unfoldable pub run_payout : Transfer → (ℕ → ℕ) → ℕ → ℕ → ℕ → ℕ → Action Db RunOutcome
run_payout transfer item_ids payout_id hold now seller_id db =
    send_claim transfer now (claim_payout item_ids payout_id hold now seller_id db)

commit-row :
    (item_ids : ℕ → ℕ) (payout_id now amount netted n p : ℕ) (plan : Plan) (db : Db)
    → find_unique payout_id db.payouts ≡ none
    → (commit item_ids payout_id now plan db).0 ≡ ok (ClaimOutcome.claimed p amount netted n)
    → (p ≡ payout_id)
      × (find_unique payout_id (commit item_ids payout_id now plan db).1.payouts
          ≡ some (new_payout now amount PayoutStatus.pending none plan))
      × ((commit item_ids payout_id now plan db).1.sellers ≡ db.sellers)
unfolding commit commit_netted commit_pending
commit-row item_ids payout_id now amount netted n p plan db fresh h =
    let row =
      find_unique-create_new payout_id
        (new_payout now plan.netting.remaining PayoutStatus.pending none plan) db.payouts fresh in
    (ground (arith, h), ground (arith, h, row), ground (arith, h))

commit-IsKeyed :
    (item_ids : ℕ → ℕ) (payout_id now amount netted n p : ℕ) (plan : Plan) (db : Db)
    → find_unique payout_id db.payouts ≡ none
    → IsKeyed db.payouts
    → (commit item_ids payout_id now plan db).0 ≡ ok (ClaimOutcome.claimed p amount netted n)
    → IsKeyed (commit item_ids payout_id now plan db).1.payouts
unfolding commit commit_netted commit_pending
commit-IsKeyed item_ids payout_id now amount netted n p plan db fresh keyed h =
    let pending = new_payout now plan.netting.remaining PayoutStatus.pending none plan in
    ground (arith, h, create-IsKeyed payout_id pending db.payouts fresh keyed)

claim-commit :
    (item_ids : ℕ → ℕ) (payout_id hold now seller_id amount netted n p : ℕ) (db : Db)
    → (claim_payout item_ids payout_id hold now seller_id db).0
      ≡ ok (ClaimOutcome.claimed p amount netted n)
    → claim_payout item_ids payout_id hold now seller_id db
      ≡ commit item_ids payout_id now (plan_payout hold now seller_id db) db
unfolding claim_payout
claim-commit item_ids payout_id hold now seller_id amount netted n p db h =
    elim (Option-cases (refusal seller_id (plan_payout hold now seller_id db) db)) [
      | inl free ↦ ground (arith, free)
      | inr (why, e) ↦ absurd (ground (arith, e, h))
    ]

-- A run that claims a payout and whose transfer the provider makes reports that transfer, of the
-- claimed amount, as settled by this run, and leaves the payout PAID with the transfer on record. The
-- key of the payout is fresh, payouts have distinct keys, and the seller has an account.
pub run_payout-sent :
    (transfer : Transfer) (item_ids : ℕ → ℕ)
    (payout_id hold now seller_id amount netted n p account t : ℕ) (db : Db)
    → IsKeyed db.payouts
    → find_unique payout_id db.payouts ≡ none
    → (claim_payout item_ids payout_id hold now seller_id db).0
      ≡ ok (ClaimOutcome.claimed p amount netted n)
    → account_of (find_unique seller_id db.sellers) ≡ some account
    → transfer account amount payout_id ≡ TransferAnswer.sent t
    → ((run_payout transfer item_ids payout_id hold now seller_id db).0
        ≡ ok (attempted (SendOutcome.sent payout_id amount t true)))
      × (find_unique payout_id
            (run_payout transfer item_ids payout_id hold now seller_id db).1.payouts
          ≡ some (
              settle_sent now t (
                new_payout now amount PayoutStatus.pending none
                  (plan_payout hold now seller_id db))))
unfolding run_payout plan_payout
run_payout-sent transfer item_ids payout_id hold now seller_id amount netted n p account t db keyed
      fresh h has answer =
    let plan = plan_payout hold now seller_id db in
    let made = claim-commit item_ids payout_id hold now seller_id amount netted n p db h in
    let committed = ap (λ r. r.0) made in
    let db' = (commit item_ids payout_id now plan db).1 in
    let done : (commit item_ids payout_id now plan db).0
        ≡ ok (ClaimOutcome.claimed p amount netted n) =
      ground (arith, made, h) in
    let (same, row, sellers) =
      commit-row item_ids payout_id now amount netted n p plan db fresh done in
    let (outcome, left) =
      send_claimed_payout-outcome transfer now payout_id account
        (new_payout now amount PayoutStatus.pending none plan) db'
        (commit-IsKeyed item_ids payout_id now amount netted n p plan db fresh keyed done) row refl
        (ground (arith, sellers, has)) in
    (
      ground (arith, made, done, same, outcome, answer),
      ground (arith, made, done, same, left, answer),
    )
