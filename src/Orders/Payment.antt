-- ===== src/Orders/Payment.antt =====
-- Who may charge for an order, and what a settled order still does.
use kintsugi.Prelude.{
  ℕ, ◌+◌, ◌≤◌, ◌≡◌, refl, ◌∙◌, inl, inr, false, ◌&&◌, Option, none, some, List, [], ◌∷◌, arith,
  ◌==◌, if◌then◌else◌, Bool-cases,
}
use kintsugi.Prelude.Table.{Table, find_unique, count, IsKeyed}
use kintsugi.Prelude.Table.Lookup.{find_unique-update_many, update_many-IsKeyed}
use kintsugi.Schema.{Db, Order, OrderStatus}
use kintsugi.Orders.{claim_order_for_payment, is_claimable, set_status, is_pending}

abbrev matches : ℕ → Option Order → ℕ
matches user_id none = 0
matches user_id (some o) = if o.buyer_id == user_id && is_pending o.status then 1 else 0

count-is_claimable :
    (user_id order_id : ℕ) (t : Table Order)
    → IsKeyed t
    → count (is_claimable user_id order_id) t ≡ matches user_id (find_unique order_id t)
unfolding count find_unique
count-is_claimable user_id order_id [] keyed = refl
count-is_claimable user_id order_id ((j, o) ∷ t) keyed =
    ground (arith, keyed.0, count-is_claimable user_id order_id t keyed.1)

-- The claim of an order that exists wins exactly where the order waits for payment by this buyer.
-- Orders have distinct keys.
pub claim_order_for_payment-won :
    (now user_id order_id : ℕ) (o : Order) (db : Db)
    → IsKeyed db.orders
    → find_unique order_id db.orders ≡ some o
    → (claim_order_for_payment now user_id order_id db).0
      ≡ (o.buyer_id == user_id && is_pending o.status)
unfolding claim_order_for_payment
claim_order_for_payment-won now user_id order_id o db keyed e =
    ground (arith, e, count-is_claimable user_id order_id db.orders keyed)

pub claimed_row :
    (now user_id order_id : ℕ) (o : Order) (db : Db)
    → find_unique order_id db.orders ≡ some o
    → find_unique order_id (claim_order_for_payment now user_id order_id db).1.orders
      ≡ some (
          if o.buyer_id == user_id && is_pending o.status
          then set_status now OrderStatus.processing o
          else o)
unfolding claim_order_for_payment
claimed_row now user_id order_id o db e = ground (
  arith,
  find_unique-update_many order_id (is_claimable user_id order_id)
      (set_status now OrderStatus.processing) db.orders o e,
)

pub claim-IsKeyed :
    (now user_id order_id : ℕ) (db : Db)
    → IsKeyed db.orders
    → IsKeyed (claim_order_for_payment now user_id order_id db).1.orders
unfolding claim_order_for_payment
claim-IsKeyed now user_id order_id db keyed =
    update_many-IsKeyed (is_claimable user_id order_id) (set_status now OrderStatus.processing)
      db.orders keyed

-- Requests for the payment of one order, each with its time and its user, one after another as the
-- row lock serialises them; the number that won.
pub race : ℕ → List (ℕ × ℕ) → Db → ℕ × Db
race order_id [] db = (0, db)
race order_id ((now, user_id) ∷ claims) db =
    let (won, db') = claim_order_for_payment now user_id order_id db in
    let (n, db'') = race order_id claims db' in ((if won then 1 else 0) + n, db'')

-- Once an order does not wait for payment, no claim wins.
race-closed :
    (order_id : ℕ) (claims : List (ℕ × ℕ)) (o : Order) (db : Db)
    → IsKeyed db.orders
    → find_unique order_id db.orders ≡ some o
    → is_pending o.status ≡ false
    → (race order_id claims db).0 ≡ 0
unfolding race
race-closed order_id [] o db keyed e closed = refl
race-closed order_id ((now, user_id) ∷ claims) o db keyed e closed = ground (
  arith,
  claim_order_for_payment-won now user_id order_id o db keyed e,
  race-closed order_id claims o (claim_order_for_payment now user_id order_id db).1
      (claim-IsKeyed now user_id order_id db keyed),
  claimed_row now user_id order_id o db e,
)

-- However many requests race for the payment of one order, which exists, at most one of them wins
-- the claim and may talk to the provider. Orders have distinct keys.
pub race-le-one :
    (order_id : ℕ) (claims : List (ℕ × ℕ)) (o : Order) (db : Db)
    → IsKeyed db.orders
    → find_unique order_id db.orders ≡ some o
    → (race order_id claims db).0 ≤ 1
unfolding race
race-le-one order_id [] o db keyed e = omega arith
race-le-one order_id ((now, user_id) ∷ claims) o db keyed e =
    elim (Bool-cases (o.buyer_id == user_id && is_pending o.status)) [
      | inl win ↦
          let o' : Order = set_status now OrderStatus.processing o in
          let rest =
            race-closed order_id claims o' (claim_order_for_payment now user_id order_id db).1
              (claim-IsKeyed now user_id order_id db keyed)
              (claimed_row now user_id order_id o db e ∙ ground (arith, win)) refl in
          ground (arith, rest)
      | inr lose ↦
          let rest =
            race-le-one order_id claims o (claim_order_for_payment now user_id order_id db).1
              (claim-IsKeyed now user_id order_id db keyed)
              (claimed_row now user_id order_id o db e ∙ ground (arith, lose)) in
          ground (arith, rest, lose, claim_order_for_payment-won now user_id order_id o db keyed e)
    ]
