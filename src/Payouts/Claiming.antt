-- ===== src/Payouts/Claiming.antt =====
-- The claim of a payout: which lines and debts it takes, and the transaction that takes them.
use kintsugi.Prelude.{
  ℕ, ◌-◌, Bool, true, false, not, ◌&&◌, Option, none, some, [], ◌∷◌, ◌++◌, ltb, leb, ◌==◌,
  if◌then◌else◌, is_none, contains,
}
use kintsugi.Prelude.Table.{Table, find_unique, update_many, create, sum_by, ids}
use kintsugi.Prelude.Action.{Action, ok, err, unique_violation}
use kintsugi.Prelude.Text.{length}
use kintsugi.Schema.{Db, OrderItem, Payout, PayoutItem, PayoutDebt, PayoutStatus}
use kintsugi.Payouts.{line_total, payable_items, gates_of, open_debts, is_spoken_for}

-- The debts that what remains can absorb, oldest first, up to the first that it cannot.
pub record Netting : Type 0 where
  pub remaining : ℕ
  pub settling : Table PayoutDebt

unfoldable pub net_debts : ℕ → Table PayoutDebt → Netting
net_debts remaining [] = record { remaining = remaining; settling = [] }
net_debts remaining ((id, d) ∷ debts) =
    let rest = net_debts (remaining - d.amount_cents) debts in
    if ltb remaining d.amount_cents
    then record { remaining = remaining; settling = [] }
    else record { remaining = rest.remaining; settling = (id, d) ∷ rest.settling }

pub data Refusal : Type 0 where
  nothing_payable not_verified not_ready no_account raced : Refusal

pub data ClaimOutcome : Type 0 where
  claimed : (payout_id amount_cents netted_cents items : ℕ) → ClaimOutcome
  refused : Refusal → ClaimOutcome

-- What a run has read before it writes.
pub record Plan : Type 0 where
  pub seller_id : ℕ
  pub items : Table OrderItem
  pub netting : Netting

abbrev pub gross_cents : Table OrderItem → ℕ
gross_cents = sum_by (λ _ i. line_total i)

abbrev pub netted_cents : Plan → ℕ
netted_cents plan = gross_cents plan.items - plan.netting.remaining

abbrev pub payout_line : ℕ → ℕ → OrderItem → PayoutItem
payout_line payout_id id i = record {
  payout_id = payout_id;
  order_item_id = id;
  amount_cents = line_total i;
  reversed_at = none;
  provider_reversal_id = none;
}

-- `item_ids` gives the key of the payout item that each line gets.
unfoldable pub payout_lines : (ℕ → ℕ) → ℕ → Table OrderItem → Table PayoutItem
payout_lines item_ids payout_id [] = []
payout_lines item_ids payout_id ((id, i) ∷ items) =
    (item_ids id, payout_line payout_id id i) ∷ payout_lines item_ids payout_id items

-- The unique index on `payout_items.orderItemId`.
unfoldable pub is_taken : Db → Table OrderItem → Bool
unfolding is_spoken_for
is_taken db [] = false
is_taken db ((id, i) ∷ items) = if is_spoken_for db id then true else is_taken db items

abbrev pub new_payout : ℕ → ℕ → PayoutStatus → Option ℕ → Plan → Payout
new_payout now amount status completed_at plan = record {
  seller_id = plan.seller_id;
  amount_cents = amount;
  netted_cents = netted_cents plan;
  status = status;
  provider_transfer_id = none;
  failure_reason = none;
  completed_at = completed_at;
}

abbrev pub settle_debts : ℕ → (ℕ → PayoutDebt → Bool) → Db → Db
settle_debts now p db = record db {
  payout_debts = update_many p (λ d. record d { settled_at = some now }) db.payout_debts;
}

abbrev pub insert_payout : (ℕ → ℕ) → ℕ → Payout → Table OrderItem → Db → Db
insert_payout item_ids payout_id payout items db = record db {
  payouts = create payout_id payout db.payouts;
  payout_items = db.payout_items ++ payout_lines item_ids payout_id items;
}

-- Everything owed goes to debt: a payout of nothing, already PAID. A collision with a concurrent
-- run is not caught here.
unfoldable pub commit_netted : (ℕ → ℕ) → ℕ → ℕ → Plan → Action Db ClaimOutcome
unfolding is_taken
commit_netted item_ids payout_id now plan db =
    if is_taken db plan.items then (err unique_violation 500, db) else (
      ok (ClaimOutcome.refused nothing_payable),
      settle_debts now (λ id _. contains id (ids plan.netting.settling))
          (insert_payout item_ids payout_id (new_payout now 0 PayoutStatus.paid (some now) plan)
            plan.items db),
    )

unfoldable pub commit_pending : (ℕ → ℕ) → ℕ → ℕ → Plan → Action Db ClaimOutcome
unfolding is_taken
commit_pending item_ids payout_id now plan db =
    if is_taken db plan.items then (ok (ClaimOutcome.refused raced), db) else (
      ok (
          ClaimOutcome.claimed payout_id plan.netting.remaining (netted_cents plan)
            (length plan.items)),
      settle_debts now (λ id d. contains id (ids plan.netting.settling) && is_none d.settled_at)
          (insert_payout item_ids payout_id
            (new_payout now plan.netting.remaining PayoutStatus.pending none plan) plan.items db),
    )

unfoldable pub commit : (ℕ → ℕ) → ℕ → ℕ → Plan → Action Db ClaimOutcome
unfolding commit_netted commit_pending
commit item_ids payout_id now plan =
    if leb plan.netting.remaining 0
    then commit_netted item_ids payout_id now plan
    else commit_pending item_ids payout_id now plan

unfoldable pub plan_payout : ℕ → ℕ → ℕ → Db → Plan
unfolding payable_items net_debts
plan_payout hold now seller_id db =
    let items = payable_items hold now seller_id db in
    record {
      seller_id = seller_id;
      items = items;
      netting = net_debts (gross_cents items) (open_debts seller_id db);
    }

abbrev pub gate : Bool → Refusal → Option Refusal → Option Refusal
gate closed r rest = if closed then some r else rest

-- Ordered most-actionable-first.
unfoldable pub refusal : ℕ → Plan → Db → Option Refusal
refusal seller_id plan db =
    let g = gates_of (find_unique seller_id db.sellers) in
    gate (is_none g.connect_account_id) no_account (
      gate (not g.payouts_enabled) not_verified
        (gate (not g.payouts_ready) not_ready (gate (length plan.items == 0) nothing_payable none)))

unfoldable pub claim_payout : (ℕ → ℕ) → ℕ → ℕ → ℕ → ℕ → Action Db ClaimOutcome
claim_payout item_ids payout_id hold now seller_id db =
    let plan = plan_payout hold now seller_id db in
    elim (refusal seller_id plan db) [
      | some r ↦ (ok (ClaimOutcome.refused r), db)
      | none ↦ commit item_ids payout_id now plan db
    ]
