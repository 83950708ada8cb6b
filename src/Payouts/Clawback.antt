-- ===== src/Payouts/Clawback.antt =====
-- A refund after the payout: what is clawed back and what is owed (backend/src/lib/payouts.ts,
-- reverseForRefund).
use kintsugi.Prelude.{
  ℕ, ◌+◌, ◌-◌, ◌<◌, ◌≤◌, ◌≡◌, refl, inl, inr, true, false, Option, some, [], ◌∷◌, arith, ◌==◌,
  is_none, min, Option-cases, Bool-cases,
}
use kintsugi.Prelude.Table.Lookup.{count-by_key, find_unique-find_first}
use kintsugi.Payouts.{is_paid_out}
use kintsugi.Prelude.Table.{IsKeyed, Table, find_unique, find_first, update, update_many}
use kintsugi.Prelude.Table.Sums.{sum_by-create}
use kintsugi.Schema.{Db, Payout, PayoutItem}
use kintsugi.Payouts.Reversal.{
  Reverse, ReversalAnswer, reverse_for_refund, reverse_line, claw_back, nothing, is_unreversed,
  claim_line, reversed_part, mark_reversal, owe, new_debt,
}
use kintsugi.Payouts.Netting.{debt_cents, owed_by, owed_cents}

mark_reversal-debts :
    (id : ℕ) (answer : ReversalAnswer) (db : Db)
    → (mark_reversal id answer db).payout_debts ≡ db.payout_debts
mark_reversal-debts id (ReversalAnswer.reversed r n) db = refl
mark_reversal-debts id ReversalAnswer.refused db = refl

owe-debts :
    (debt_id seller_id order_item_id shortfall : ℕ) (db : Db)
    → debt_cents (owe debt_id seller_id order_item_id shortfall db).payout_debts
      ≡ debt_cents db.payout_debts + shortfall
owe-debts debt_id seller_id order_item_id shortfall db = ground (
  arith,
  sum_by-create (λ _ d. d.amount_cents) debt_id (new_debt seller_id order_item_id shortfall)
      db.payout_debts,
)

owe-owed :
    (debt_id seller_id order_item_id shortfall : ℕ) (db : Db)
    → owed_cents seller_id (owe debt_id seller_id order_item_id shortfall db).payout_debts
      ≡ owed_cents seller_id db.payout_debts + shortfall
owe-owed debt_id seller_id order_item_id shortfall db = ground (
  arith,
  sum_by-create (owed_by seller_id) debt_id (new_debt seller_id order_item_id shortfall)
      db.payout_debts,
)

claw_back-debts :
    (reverse : Reverse) (debt_id id order_item_id target : ℕ) (payout : Payout) (db : Db)
    → debt_cents (claw_back reverse debt_id id payout order_item_id target db).1.payout_debts
      ≡ debt_cents db.payout_debts
        + (claw_back reverse debt_id id payout order_item_id target db).0.debt_cents
unfolding claw_back
claw_back-debts reverse debt_id id order_item_id target payout db =
    elim (Option-cases payout.provider_transfer_id) [
      | inl none_ ↦ ground (arith, none_)
      | inr (t, e) ↦
          let answer = reverse t target in
          let owed =
            owe-debts debt_id payout.seller_id order_item_id (target - reversed_part answer)
              (mark_reversal id answer db) in
          ground (arith, e, owed, mark_reversal-debts id answer db)
    ]

claw_back-total :
    (reverse : Reverse) (debt_id id order_item_id target : ℕ) (payout : Payout) (t : ℕ) (db : Db)
    → payout.provider_transfer_id ≡ some t
    → reversed_part (reverse t target) ≤ target
    → (reversed_part (reverse t target)
          + owed_cents payout.seller_id
              (claw_back reverse debt_id id payout order_item_id target db).1.payout_debts
        ≡ owed_cents payout.seller_id db.payout_debts + target)
      × ((claw_back reverse debt_id id payout order_item_id target db).0.reversed_cents
          ≡ reversed_part (reverse t target))
      × ((claw_back reverse debt_id id payout order_item_id target db).0.reversed_cents
            + (claw_back reverse debt_id id payout order_item_id target db).0.debt_cents
          ≡ target)
unfolding claw_back
claw_back-total reverse debt_id id order_item_id target payout t db e bound =
    let answer = reverse t target in
    let owed =
      owe-owed debt_id payout.seller_id order_item_id (target - reversed_part answer)
        (mark_reversal id answer db) in
    (
      ground (arith, e, bound, owed, mark_reversal-debts id answer db),
      ground (arith, e),
      ground (arith, e, bound),
    )

-- The debts of the sellers grow by what the call reports as debt, on every branch.
pub reverse_for_refund-debts :
    (reverse : Reverse) (debt_id now order_item_id refunded : ℕ) (db : Db)
    → debt_cents (reverse_for_refund reverse debt_id now order_item_id refunded db).1.payout_debts
      ≡ debt_cents db.payout_debts
        + (reverse_for_refund reverse debt_id now order_item_id refunded db).0.debt_cents
unfolding reverse_for_refund reverse_line
reverse_for_refund-debts reverse debt_id now order_item_id refunded db =
    elim (Option-cases (find_first (λ _ p. p.order_item_id == order_item_id) db.payout_items)) [
      | inl gone ↦ ground (arith, gone)
      | inr ((id, line), e) ↦ elim (Option-cases (find_unique line.payout_id db.payouts)) [
        | inl gone ↦ ground (arith, e, gone)
        | inr (payout, e') ↦
            let owed =
              claw_back-debts reverse debt_id id line.order_item_id (min line.amount_cents refunded)
                payout (claim_line now id db) in
            ground (arith, e, e', owed)
      ]
    ]

module _ (order_item_id : ℕ) where
  abbrev first_line : Table PayoutItem → Option (ℕ × PayoutItem)
  first_line = find_first (λ _ p. p.order_item_id == order_item_id)

  -- The line's payout item is claimed for a reversal.
  abbrev IsReversed : Table PayoutItem → Type 0
  IsReversed t =
      (id : ℕ) × (l : PayoutItem) × (first_line t ≡ some (id, l)) × (is_none l.reversed_at ≡ false)

  claimed_line :
      (now id : ℕ) (l : PayoutItem) (t : Table PayoutItem)
      → first_line t ≡ some (id, l)
      → is_none l.reversed_at ≡ true
      → first_line (update_many (is_unreversed id) (λ p. record p { reversed_at = some now }) t)
        ≡ some (id, record l { reversed_at = some now })
  unfolding find_first update_many
  claimed_line now id l [] h open_ = absurd (ground (arith, h))
  claimed_line now id l ((j, x) ∷ t) h open_ = ground (arith, h, open_, claimed_line now id l t)

  marked_line :
      (id reversal_id : ℕ) (t : Table PayoutItem)
      → IsReversed t
      → IsReversed (update id (λ p. record p { provider_reversal_id = some reversal_id }) t)
  unfolding find_first update
  marked_line id r [] (k, l, h, done) = absurd (ground (arith, h))
  marked_line id r ((j, x) ∷ t) (k, l, h, done) =
      elim (Bool-cases (x.order_item_id == order_item_id)) [
        | inl here ↦ elim (Bool-cases (j == id)) [
          | inl same ↦ (
            j,
            record x { provider_reversal_id = some r },
            ground (arith, h, here, same),
            ground (arith, h, here, done),
          )
          | inr other ↦ (j, x, ground (arith, h, here, other), ground (arith, h, here, done))
        ]
        | inr there ↦ elim (Bool-cases (j == id)) [
          | inl same ↦ (k, l, ground (arith, h, there, same), done)
          | inr other ↦
              let (k', l', h', done') = marked_line id r t (k, l, ground (arith, h, there), done) in
              (k', l', ground (arith, h', there, other), done')
        ]
      ]

  owe-items :
      (debt_id seller_id oid shortfall : ℕ) (db : Db)
      → (owe debt_id seller_id oid shortfall db).payout_items ≡ db.payout_items
  owe-items debt_id seller_id oid shortfall db = ground arith

  mark_reversal-IsReversed :
      (id : ℕ) (answer : ReversalAnswer) (db : Db)
      → IsReversed db.payout_items
      → IsReversed (mark_reversal id answer db).payout_items
  mark_reversal-IsReversed id (ReversalAnswer.reversed r n) db h =
      marked_line id r db.payout_items h
  mark_reversal-IsReversed id ReversalAnswer.refused db h = h

  claw_back-IsReversed :
      (reverse : Reverse) (debt_id id oid target : ℕ) (payout : Payout) (db : Db)
      → IsReversed db.payout_items
      → IsReversed (claw_back reverse debt_id id payout oid target db).1.payout_items
  unfolding claw_back
  claw_back-IsReversed reverse debt_id id oid target payout db h =
      elim (Option-cases payout.provider_transfer_id) [
        | inl none_ ↦ let (k, l, at, done) = h in (k, l, ground (arith, none_, at), done)
        | inr (t, e) ↦
            let answer = reverse t target in
            let (k, l, at, done) = mark_reversal-IsReversed id answer db h in
            let frame =
              owe-items debt_id payout.seller_id oid (target - reversed_part answer)
                (mark_reversal id answer db) in
            (k, l, ground (arith, e, at, frame), done)
      ]

  reversed-nothing :
      (reverse : Reverse) (debt_id now refunded : ℕ) (db : Db)
      → IsReversed db.payout_items
      → reverse_for_refund reverse debt_id now order_item_id refunded db ≡ (nothing, db)
  unfolding reverse_for_refund reverse_line
  reversed-nothing reverse debt_id now refunded db (k, l, at, done) =
      elim (Option-cases (find_unique l.payout_id db.payouts)) [
        | inl gone ↦ ground (arith, at, gone)
        | inr (payout, e) ↦ ground (arith, at, e, done)
      ]

  first_reversal :
      (reverse : Reverse) (debt_id now refunded : ℕ) (db : Db)
      → (reverse_for_refund reverse debt_id now order_item_id refunded db).0.nothing_to_reverse
        ≡ false
      → IsReversed (reverse_for_refund reverse debt_id now order_item_id refunded db).1.payout_items
  unfolding reverse_for_refund reverse_line
  first_reversal reverse debt_id now refunded db h =
      elim (Option-cases (first_line db.payout_items)) [
        | inl gone ↦ absurd (ground (arith, gone, h))
        | inr ((id, line), at) ↦ elim (Option-cases (find_unique line.payout_id db.payouts)) [
          | inl gone ↦ absurd (ground (arith, at, gone, h))
          | inr (payout, e) ↦ elim (Bool-cases (is_none line.reversed_at)) [
            | inr done ↦ absurd (ground (arith, at, e, done, h))
            | inl fresh ↦
                let claimed = claimed_line now id line db.payout_items at fresh in
                let (k, l, at', done) =
                  claw_back-IsReversed reverse debt_id id line.order_item_id
                    (min line.amount_cents refunded) payout (claim_line now id db)
                    (id, record line { reversed_at = some now }, claimed, refl) in
                (k, l, ground (arith, at, e, fresh, h, at'), done)
          ]
        ]
      ]

  -- A refund claws a line back once: after a call that found something to reverse, every later call
  -- for the same order line reports nothing to reverse and writes nothing, whatever its amount.
  pub reverse_for_refund_twice :
      (reverse other : Reverse) (debt_id other_id now later refunded more : ℕ) (db : Db)
      → (reverse_for_refund reverse debt_id now order_item_id refunded db).0.nothing_to_reverse
        ≡ false
      → reverse_for_refund other other_id later order_item_id more
          (reverse_for_refund reverse debt_id now order_item_id refunded db).1
        ≡ (nothing, (reverse_for_refund reverse debt_id now order_item_id refunded db).1)
  reverse_for_refund_twice reverse other debt_id other_id now later refunded more db h =
      reversed-nothing other other_id later more
        (reverse_for_refund reverse debt_id now order_item_id refunded db).1
        (first_reversal reverse debt_id now refunded db h)

  -- A line of a PAID payout with a transfer, which was not reversed before, is refunded by more than
  -- nothing, and payout lines have distinct keys: what the provider reverses of the transfer, asked
  -- for the refund or for the line where that is less, and the debt that the call adds to the open
  -- debts of the seller of the payout come to that amount, provided that the provider never reverses
  -- more than it was asked for. The call reports these two amounts.
  pub reverse_for_refund-total :
      (reverse : Reverse) (debt_id now refunded id t : ℕ) (line : PayoutItem) (payout : Payout)
      (db : Db)
      → ((transfer cents : ℕ) → reversed_part (reverse transfer cents) ≤ cents)
      → IsKeyed db.payout_items
      → first_line db.payout_items ≡ some (id, line)
      → is_none line.reversed_at ≡ true
      → find_unique line.payout_id db.payouts ≡ some payout
      → is_paid_out payout.status ≡ true
      → payout.provider_transfer_id ≡ some t
      → 0 < min line.amount_cents refunded
      → (reversed_part (reverse t (min line.amount_cents refunded))
            + owed_cents payout.seller_id
                (reverse_for_refund reverse debt_id now order_item_id refunded db).1.payout_debts
          ≡ owed_cents payout.seller_id db.payout_debts + min line.amount_cents refunded)
        × ((reverse_for_refund reverse debt_id now order_item_id refunded db).0.reversed_cents
            ≡ reversed_part (reverse t (min line.amount_cents refunded)))
        × ((reverse_for_refund reverse debt_id now order_item_id refunded db).0.reversed_cents
              + (reverse_for_refund reverse debt_id now order_item_id refunded db).0.debt_cents
            ≡ min line.amount_cents refunded)
  unfolding reverse_for_refund reverse_line
  reverse_for_refund-total reverse debt_id now refunded id t line payout db bound keyed at fresh e
        paid sent some_cents =
      let target = min line.amount_cents refunded in
      let one =
        count-by_key id (λ p. is_none p.reversed_at) db.payout_items line keyed
          (find_unique-find_first (λ _ p. p.order_item_id == order_item_id) id line db.payout_items
            keyed at) in
      let (owed, told, total) =
        claw_back-total reverse debt_id id line.order_item_id target payout t (claim_line now id db)
          sent (bound t target) in
      (
        ground (arith, at, fresh, e, paid, some_cents, one, owed),
        ground (arith, at, fresh, e, paid, some_cents, one, told),
        ground (arith, at, fresh, e, paid, some_cents, one, total),
      )
