-- ===== src/Refunds/Outcome.antt =====
-- What the provider decides later about a refund that was left PENDING (backend/src/lib/refunds.ts,
-- settleRefundFromProvider).
use kintsugi.Prelude.{
  ℕ, ◌≡◌, refl, inl, inr, Bool, false, some, [], ◌∷◌, arith, is_key, Option-cases, Bool-cases,
}
use kintsugi.Prelude.Table.{Table, find_first, IsKeyed, update}
use kintsugi.Prelude.Table.Lookup.{find_first-key}
use kintsugi.Prelude.Text.{Text}
use kintsugi.Schema.{Db, Refund, RefundStatus}
use kintsugi.Orders.{update_order}
use kintsugi.Payouts.Reversal.{Reverse}
use kintsugi.Refunds.{
  RefundOutcome, settle_refund_from_provider, apply_outcome, settle_in_full, fail_row,
  is_refund_pending, update_refund, applied, already_settled,
}
use kintsugi.Refunds.Frame.{claw_back_line-frame}

abbrev succeed_row : ℕ → Refund → Refund
succeed_row now r = record r { status = RefundStatus.succeeded; completed_at = some now }

-- A write to the row that a search finds, which leaves what the search looks at.
find_first-update :
    (p : ℕ → Refund → Bool) (id : ℕ) (f : Refund → Refund) (t : Table Refund) (r : Refund)
    → IsKeyed t
    → ((j : ℕ) (x : Refund) → p j (f x) ≡ p j x)
    → find_first p t ≡ some (id, r)
    → find_first p (update id f t) ≡ some (id, f r)
unfolding find_first update
find_first-update p id f [] r keyed same h = absurd (ground (arith, h))
find_first-update p id f ((j, x) ∷ t) r keyed same h = elim (Bool-cases (p j x)) [
  | inl here ↦ ground (arith, h, here, same j x)
  | inr there ↦
      let other = find_first-key p j id r t keyed.0 (ground (arith, h, there)) in
      ground (arith, h, there, other, find_first-update p id f t r keyed.1 same)
]

-- The row that an applied decision leaves under the provider's reference.
applied-row :
    (reverse : Reverse) (debt_id now id provider_refund_id i : ℕ) (status : RefundStatus)
    (r : Refund) (outcome : RefundOutcome) (db : Db)
    → IsKeyed db.refunds
    → find_first (λ _ x. is_key x.provider_refund_id provider_refund_id) db.refunds ≡ some (id, r)
    → (apply_outcome reverse debt_id now id r outcome db).0 ≡ applied status i
    → (x : Refund) × (find_first
          (λ _ y. is_key y.provider_refund_id provider_refund_id)
          (apply_outcome reverse debt_id now id r outcome db).1.refunds
        ≡ some (id, x))
      × (is_refund_pending x.status ≡ false)
unfolding apply_outcome
applied-row reverse debt_id now id ref i status r RefundOutcome.pending db keyed e h =
    absurd (ground (arith, h))
applied-row reverse debt_id now id ref i status r RefundOutcome.succeeded db keyed e h =
    let db' =
      update_order r.order_id (settle_in_full now) (update_refund id (succeed_row now) db) in
    let frame = claw_back_line-frame reverse debt_id now r.order_item_id r.amount_cents db' in
    (
      succeed_row now r,
      ground (
        arith,
        frame.1,
        find_first-update (λ _ x. is_key x.provider_refund_id ref) id (succeed_row now) db.refunds r
            keyed (λ j x. refl) e,
      ),
      refl,
    )
applied-row reverse debt_id now id ref i status r (RefundOutcome.failed why) db keyed e h = (
  fail_row now why r,
  find_first-update (λ _ x. is_key x.provider_refund_id ref) id (fail_row now why) db.refunds r
      keyed (λ j x. refl) e,
  refl,
)

-- A decision is applied once: the provider may deliver it again, or another one for the same
-- refund, and every later delivery reports that the refund is settled and writes nothing. Refunds
-- have distinct keys.
pub settle_refund_from_provider_twice :
    (reverse other : Reverse) (debt_id other_id now later provider_refund_id i : ℕ)
    (status : RefundStatus) (outcome again : RefundOutcome) (db : Db)
    → IsKeyed db.refunds
    → (settle_refund_from_provider reverse debt_id now provider_refund_id outcome db).0
      ≡ applied status i
    → settle_refund_from_provider other other_id later provider_refund_id again
        (settle_refund_from_provider reverse debt_id now provider_refund_id outcome db).1
      ≡ (
        already_settled,
        (settle_refund_from_provider reverse debt_id now provider_refund_id outcome db).1,
      )
unfolding settle_refund_from_provider
settle_refund_from_provider_twice reverse other debt_id other_id now later ref i status outcome
      again db keyed h =
    elim (Option-cases (find_first (λ _ r. is_key r.provider_refund_id ref) db.refunds)) [
      | inl gone ↦ absurd (ground (arith, gone, h))
      | inr ((id, r), e) ↦ elim (Bool-cases (is_refund_pending r.status)) [
        | inl open_ ↦
            let (x, row, closed) =
              applied-row reverse debt_id now id ref i status r outcome db keyed e
                (ground (arith, e, open_, h)) in
            ground (arith, e, open_, row, closed)
        | inr closed ↦ absurd (ground (arith, e, closed, h))
      ]
    ]
