-- ===== src/Refunds/Headroom.antt =====
-- Refunds of one order that race for its headroom (backend/src/lib/refunds.ts, claimRefundHeadroom).
use kintsugi.Prelude.{
  ℕ, ◌+◌, ◌≤◌, ◌≡◌, ◌∙◌, inl, inr, ◌&&◌, some, List, [], ◌∷◌, arith, leb, if◌then◌else◌, Bool-cases,
}
use kintsugi.Prelude.Table.{find_unique, IsKeyed}
use kintsugi.Prelude.Table.Lookup.{count-by_key, find_unique-update_many, update_many-IsKeyed}
use kintsugi.Schema.{Db, Order}
use kintsugi.Orders.{is_paid}
use kintsugi.Refunds.{claim_refund_headroom, has_headroom, spend}

-- The row after a claim, and whether it won.
abbrev claimed_order : ℕ → ℕ → Order → Order
claimed_order now amount o =
    if is_paid o.status && leb (o.refunded_cents + amount) o.subtotal_cents
    then spend now amount o
    else o

claimed :
    (now order_id amount : ℕ) (o : Order) (db : Db)
    → IsKeyed db.orders
    → find_unique order_id db.orders ≡ some o
    → (find_unique order_id (claim_refund_headroom now order_id amount db).1.orders
        ≡ some (claimed_order now amount o))
      × ((claim_refund_headroom now order_id amount db).0
          ≡ (is_paid o.status && leb (o.refunded_cents + amount) o.subtotal_cents))
      × IsKeyed (claim_refund_headroom now order_id amount db).1.orders
unfolding claim_refund_headroom
claimed now order_id amount o db keyed e = (
  ground (
    arith,
    find_unique-update_many order_id (has_headroom order_id amount) (spend now amount) db.orders o
        e,
  ),
  ground (
    arith,
    count-by_key order_id
        (λ x. is_paid x.status && leb (x.refunded_cents + amount) x.subtotal_cents) db.orders o
        keyed e,
  ),
  update_many-IsKeyed (has_headroom order_id amount) (spend now amount) db.orders keyed,
)

-- Claims on one order, each with its time and its amount, one after another as the row lock
-- serialises them; the sum of the amounts of those that won.
unfoldable pub grants : ℕ → List (ℕ × ℕ) → Db → ℕ
grants order_id [] db = 0
grants order_id ((now, amount) ∷ claims) db =
    let (won, db') = claim_refund_headroom now order_id amount db in
    (if won then amount else 0) + grants order_id claims db'

-- However many refunds race for one order, and whatever their amounts, those that win the claim come
-- to no more than what the order took less what it had refunded before. The order exists, has not
-- refunded more than it took, and orders have distinct keys.
pub grants-le-subtotal :
    (order_id : ℕ) (claims : List (ℕ × ℕ)) (o : Order) (db : Db)
    → IsKeyed db.orders
    → find_unique order_id db.orders ≡ some o
    → o.refunded_cents ≤ o.subtotal_cents
    → o.refunded_cents + grants order_id claims db ≤ o.subtotal_cents
unfolding grants
grants-le-subtotal order_id [] o db keyed e bound = omega (arith, bound)
grants-le-subtotal order_id ((now, amount) ∷ claims) o db keyed e bound =
    let db' = (claim_refund_headroom now order_id amount db).1 in
    let (row, won, keyed') = claimed now order_id amount o db keyed e in
    elim (Bool-cases (is_paid o.status && leb (o.refunded_cents + amount) o.subtotal_cents)) [
      | inl room ↦
          let rest =
            grants-le-subtotal order_id claims (spend now amount o) db' keyed'
              (row ∙ ground (arith, room)) (ground (arith, room)) in
          ground (arith, won, room, rest)
      | inr full ↦
          let rest =
            grants-le-subtotal order_id claims o db' keyed' (row ∙ ground (arith, full)) bound in
          ground (arith, won, full, rest)
    ]
