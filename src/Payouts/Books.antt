-- ===== src/Payouts/Books.antt =====
-- The books of a payout (backend/src/lib/payouts.ts, claimPayout): its lines, its amount and the
-- debts it nets, and what a second run does.
use kintsugi.Prelude.{
  ℕ, ◌+◌, ◌-◌, ◌<◌, ◌≡◌, refl, inl, inr, true, false, none, ◌||◌, some, [], ◌∷◌, ◌++◌, arith, leb,
  ◌==◌, if◌then◌else◌, is_some, Option-cases,
}
use kintsugi.Prelude.Table.{Table, find_unique, find_first, sum_by, update_many, ids, IsKeyed}
use kintsugi.Prelude.Table.Lookup.{find_unique-create_new}
use kintsugi.Prelude.Table.Sums.{sum_by-append}
use kintsugi.Prelude.Action.{ok, err, unique_violation}
use kintsugi.Schema.{Db, OrderItem, Payout, PayoutItem, PayoutStatus}
use kintsugi.Payouts.{is_spoken_for, payable_items, open_debts}
use kintsugi.Payouts.Claiming.{
  Plan, payout_lines, is_taken, commit, commit_netted, commit_pending, plan_payout, claim_payout,
  refusal, claimed, refused, raced, gross_cents,
}
use kintsugi.Payouts.Netting.{net_debts_lem, net_debts-owed, owed_cents, is_settled_by, settle_debt}

abbrev pub of_payout : ℕ → ℕ → PayoutItem → ℕ
of_payout payout_id _ p = if p.payout_id == payout_id then p.amount_cents else 0

lines_cents :
    (item_ids : ℕ → ℕ) (payout_id : ℕ) (items : Table OrderItem)
    → sum_by (of_payout payout_id) (payout_lines item_ids payout_id items) ≡ gross_cents items
unfolding sum_by payout_lines
lines_cents item_ids payout_id [] = refl
lines_cents item_ids payout_id ((id, i) ∷ items) =
    ground (arith, lines_cents item_ids payout_id items)

-- The row of a payout that is claimed and not sent yet.
abbrev pub claimed_row : ℕ → ℕ → ℕ → Payout
claimed_row seller_id amount netted = record {
  seller_id = seller_id;
  amount_cents = amount;
  netted_cents = netted;
  status = PayoutStatus.pending;
  provider_transfer_id = none;
  failure_reason = none;
  completed_at = none;
}

commit-books :
    (item_ids : ℕ → ℕ) (payout_id now amount netted n p : ℕ) (plan : Plan) (db : Db)
    → (commit item_ids payout_id now plan db).0 ≡ ok (claimed p amount netted n)
    → find_unique payout_id db.payouts ≡ none
    → (sum_by (of_payout payout_id) (commit item_ids payout_id now plan db).1.payout_items
        ≡ sum_by (of_payout payout_id) db.payout_items + gross_cents plan.items)
      × (amount ≡ plan.netting.remaining)
      × (netted ≡ gross_cents plan.items - amount)
      × (0 < amount)
      × (find_unique payout_id (commit item_ids payout_id now plan db).1.payouts
          ≡ some (claimed_row plan.seller_id amount netted))
      × ((commit item_ids payout_id now plan db).1.payout_debts
          ≡ update_many
              (is_settled_by (ids plan.netting.settling))
              (settle_debt now)
              db.payout_debts)
unfolding commit commit_netted commit_pending
commit-books item_ids payout_id now amount netted n p plan db h free =
    let lines = lines_cents item_ids payout_id plan.items in
    let total =
      sum_by-append (of_payout payout_id) db.payout_items
        (payout_lines item_ids payout_id plan.items) in
    let row = claimed_row plan.seller_id amount netted in
    (
      ground (arith, h, lines, total),
      ground (arith, h),
      ground (arith, h),
      ground (arith, h),
      ground (arith, h, find_unique-create_new payout_id row db.payouts free),
      ground (arith, h),
    )

is_taken-shared :
    (id : ℕ) (i : OrderItem) (items : Table OrderItem) (db : Db)
    → find_unique id items ≡ some i
    → is_spoken_for db id ≡ true
    → is_taken db items ≡ true
unfolding find_unique is_taken
is_taken-shared id i [] db h taken = absurd (ground (arith, h))
is_taken-shared id i ((k, x) ∷ items) db h taken =
    ground (arith, h, taken, is_taken-shared id i items db)

-- A payout that is claimed is on the books as the run answers it: its row is PENDING with the amount
-- and what was netted, its lines come to the two together, what the seller owes goes down by what
-- was netted, and something is left to transfer. The key of the payout is fresh, and debts have
-- distinct keys.
pub claim_payout-books :
    (item_ids : ℕ → ℕ) (payout_id hold now seller_id amount netted n p : ℕ) (db : Db)
    → (claim_payout item_ids payout_id hold now seller_id db).0 ≡ ok (claimed p amount netted n)
    → sum_by (of_payout payout_id) db.payout_items ≡ 0
    → find_unique payout_id db.payouts ≡ none
    → IsKeyed db.payout_debts
    → (sum_by
          (of_payout payout_id)
          (claim_payout item_ids payout_id hold now seller_id db).1.payout_items
        ≡ amount + netted)
      × (find_unique payout_id (claim_payout item_ids payout_id hold now seller_id db).1.payouts
          ≡ some (claimed_row seller_id amount netted))
      × (owed_cents seller_id (claim_payout item_ids payout_id hold now seller_id db).1.payout_debts
            + netted
          ≡ owed_cents seller_id db.payout_debts)
      × (0 < amount)
unfolding claim_payout plan_payout
claim_payout-books item_ids payout_id hold now seller_id amount netted n p db h fresh free keyed =
    let items = payable_items hold now seller_id db in
    let (total, more) = net_debts_lem (gross_cents items) (open_debts seller_id db) in
    elim (Option-cases (refusal seller_id (plan_payout hold now seller_id db) db)) [
      | inl open_ ↦
          let (lines, left, net, some_left, row, debts) =
            commit-books item_ids payout_id now amount netted n p
              (plan_payout hold now seller_id db) db (ground (arith, open_, h)) free in
          let owed = net_debts-owed seller_id now (gross_cents items) db.payout_debts keyed in
          (
            ground (arith, open_, lines, left, net, fresh, total),
            ground (arith, open_, row),
            ground (arith, open_, debts, owed, left, net, total),
            some_left,
          )
      | inr (r, e) ↦ absurd (ground (arith, e, h))
    ]

-- A line that a payout takes is spoken for.
spoken-append :
    (id : ℕ) (t u : Table PayoutItem)
    → is_some (find_first (λ _ p. p.order_item_id == id) (t ++ u))
      ≡ is_some (find_first (λ _ p. p.order_item_id == id) t)
        || is_some (find_first (λ _ p. p.order_item_id == id) u)
unfolding find_first
spoken-append id [] u = ground arith
spoken-append id ((j, p) ∷ t) u = ground (arith, spoken-append id t u)

spoken-lines :
    (id : ℕ) (item_ids : ℕ → ℕ) (payout_id : ℕ) (items : Table OrderItem)
    → is_some (find_first (λ _ p. p.order_item_id == id) (payout_lines item_ids payout_id items))
      ≡ is_some (find_unique id items)
unfolding find_first payout_lines find_unique
spoken-lines id item_ids payout_id [] = refl
spoken-lines id item_ids payout_id ((j, i) ∷ items) =
    ground (arith, spoken-lines id item_ids payout_id items)

commit-spoken :
    (item_ids : ℕ → ℕ) (payout_id now id : ℕ) (plan : Plan) (i : OrderItem) (db : Db)
    → is_taken db plan.items ≡ false
    → find_unique id plan.items ≡ some i
    → is_spoken_for (commit item_ids payout_id now plan db).1 id ≡ true
unfolding commit commit_netted commit_pending is_spoken_for
commit-spoken item_ids payout_id now id plan i db free has = ground (
  arith,
  free,
  has,
  spoken-append id db.payout_items (payout_lines item_ids payout_id plan.items),
  spoken-lines id item_ids payout_id plan.items,
)

taken-commit :
    (item_ids : ℕ → ℕ) (payout_id now : ℕ) (plan : Plan) (db : Db)
    → is_taken db plan.items ≡ true
    → commit item_ids payout_id now plan db ≡ (
      (if leb plan.netting.remaining 0 then err unique_violation 500 else ok (refused raced)),
      db,
    )
unfolding commit commit_netted commit_pending
taken-commit item_ids payout_id now plan db taken = ground (arith, taken)

-- Two runs that have read a line in common cannot both pay it: once one of them has committed
-- without a collision, the commit of the other writes nothing. It is answered as a lost race, or,
-- where the debts take all of it, the violation of the unique index is thrown.
pub commit_raced :
    (item_ids other_ids : ℕ → ℕ) (payout_id other_id now later id : ℕ) (mine theirs : Plan)
    (i j : OrderItem) (db : Db)
    → is_taken db mine.items ≡ false
    → find_unique id mine.items ≡ some i
    → find_unique id theirs.items ≡ some j
    → commit other_ids other_id later theirs (commit item_ids payout_id now mine db).1 ≡ (
      (if leb theirs.netting.remaining 0 then err unique_violation 500 else ok (refused raced)),
      (commit item_ids payout_id now mine db).1,
    )
commit_raced item_ids other_ids payout_id other_id now later id mine theirs i j db free mine_has
      theirs_has =
    let db' = (commit item_ids payout_id now mine db).1 in
    taken-commit other_ids other_id later theirs db' (
      is_taken-shared id j theirs.items db' theirs_has
        (commit-spoken item_ids payout_id now id mine i db free mine_has))
