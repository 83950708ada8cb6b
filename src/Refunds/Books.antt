-- ===== src/Refunds/Books.antt =====
-- The books of the refunds of an order (backend/src/lib/refunds.ts): what the order says was
-- refunded against the refund rows.
use kintsugi.Prelude.{
  ℕ, ◌+◌, ◌≡◌, inl, inr, Bool, true, false, ◌&&◌, Option, none, some, arith, leb, ◌==◌,
  if◌then◌else◌, Option-cases, Bool-cases,
}
use kintsugi.Prelude.Table.{Table, find_unique, sum_by, IsKeyed, update, update_many, create, count}
use kintsugi.Prelude.Table.Lookup.{
  find_unique-update_many, find_unique-update-none, find_unique-update_many-none, count-by_key,
  find_unique-update,
}
use kintsugi.Prelude.Table.Sums.{sum_by-update, sum_by-create}
use kintsugi.Schema.{Db, Order, OrderStatus, Refund}
use kintsugi.Orders.{is_paid}
use kintsugi.Prelude.Text.{Text}
use kintsugi.Payouts.{is_active}
use kintsugi.Refunds.{
  has_headroom, spend, give_back, fail_row, refund_in_full, unwind, settle_in_full,
}

-- What the refunds of an order that are PENDING or SUCCEEDED come to.
abbrev pub weight : ℕ → ℕ → Refund → ℕ
weight order_id _ r = if r.order_id == order_id && is_active r.status then r.amount_cents else 0

unfoldable pub booked : ℕ → Table Refund → ℕ
booked order_id refunds = sum_by (weight order_id) refunds

abbrev pub is_in_full : Order → Bool
is_in_full o = elim o.status [
  | OrderStatus.refunded ↦ leb o.subtotal_cents o.refunded_cents
  | _ ↦ true
]

abbrev pub is_in_books : Option Order → ℕ → Bool
is_in_books none n = true
is_in_books (some o) n =
    o.refunded_cents == n && (leb o.refunded_cents o.subtotal_cents && is_in_full o)

-- The order has refunded what its refund rows come to, not more than it took, and all of it where
-- it is REFUNDED.
abbrev pub IsBalanced : ℕ → Db → Type 0
IsBalanced order_id db =
    is_in_books (find_unique order_id db.orders) (booked order_id db.refunds) ≡ true

booked-create :
    (k id : ℕ) (r : Refund) (t : Table Refund)
    → booked k (create id r t) ≡ booked k t + weight k id r
unfolding booked
booked-create k id r t = sum_by-create (weight k) id r t

booked-update :
    (k id : ℕ) (f : Refund → Refund) (t : Table Refund) (r : Refund)
    → find_unique id t ≡ some r
    → booked k (update id f t) + weight k id r ≡ booked k t + weight k id (f r)
unfolding booked
booked-update k id f t r e = sum_by-update (weight k) id f t r e

spend-books :
    (now amount n : ℕ) (o : Order)
    → is_in_books (some o) n ≡ true
    → (is_paid o.status && leb (o.refunded_cents + amount) o.subtotal_cents) ≡ true
    → is_in_books (some (spend now amount o)) (n + amount) ≡ true
spend-books now amount n o h room = elim o.status [
  | OrderStatus.pending_payment ↦ ground (arith, room)
  | OrderStatus.processing ↦ ground (arith, room)
  | OrderStatus.paid ↦ ground (arith, h, room)
  | OrderStatus.failed ↦ ground (arith, room)
  | OrderStatus.cancelled ↦ ground (arith, room)
  | OrderStatus.refunded ↦ ground (arith, room)
]

pub give_back-books :
    (now later amount n m : ℕ) (o : Order)
    → is_in_books (some o) n ≡ true
    → m + amount ≡ n
    → is_in_books (some (unwind later (give_back now amount o))) m ≡ true
give_back-books now later amount n m o h total = elim o.status [
  | OrderStatus.pending_payment ↦ ground (arith, h, total)
  | OrderStatus.processing ↦ ground (arith, h, total)
  | OrderStatus.paid ↦ ground (arith, h, total)
  | OrderStatus.failed ↦ ground (arith, h, total)
  | OrderStatus.cancelled ↦ ground (arith, h, total)
  | OrderStatus.refunded ↦ ground (arith, h, total)
]

pub full-books :
    (now n : ℕ) (o : Order)
    → is_in_books (some o) n ≡ true
    → is_in_books (some (refund_in_full now o)) n ≡ true
full-books now n o h = elim o.status [
  | OrderStatus.pending_payment ↦ ground (arith, h)
  | OrderStatus.processing ↦ ground (arith, h)
  | OrderStatus.paid ↦ ground (arith, h)
  | OrderStatus.failed ↦ ground (arith, h)
  | OrderStatus.cancelled ↦ ground (arith, h)
  | OrderStatus.refunded ↦ ground (arith, h)
]

pub settle_in_full-books :
    (now n : ℕ) (o : Order)
    → is_in_books (some o) n ≡ true
    → is_in_books (some (settle_in_full now o)) n ≡ true
settle_in_full-books now n o h = elim o.status [
  | OrderStatus.pending_payment ↦ ground (arith, h)
  | OrderStatus.processing ↦ ground (arith, h)
  | OrderStatus.paid ↦ ground (arith, h)
  | OrderStatus.failed ↦ ground (arith, h)
  | OrderStatus.cancelled ↦ ground (arith, h)
  | OrderStatus.refunded ↦ ground (arith, h)
]

-- A claim that matched, and its row.
pub claimed-books :
    (now amount k id order_id : ℕ) (r : Refund) (orders : Table Order) (refunds : Table Refund)
    → IsKeyed orders
    → count (has_headroom order_id amount) orders ≡ 1
    → r.order_id ≡ order_id
    → r.amount_cents ≡ amount
    → is_active r.status ≡ true
    → is_in_books (find_unique k orders) (booked k refunds) ≡ true
    → is_in_books
        (find_unique k (update_many (has_headroom order_id amount) (spend now amount) orders))
        (booked k (create id r refunds))
      ≡ true
claimed-books now amount k id order_id r orders refunds keyed one of_order of_amount active h =
    elim (Option-cases (find_unique k orders)) [
      | inl gone ↦ ground (
        arith,
        gone,
        find_unique-update_many-none k (has_headroom order_id amount) (spend now amount) orders
            gone,
      )
      | inr (o, e) ↦
          let row =
            find_unique-update_many k (has_headroom order_id amount) (spend now amount) orders o
              e in
          let total = booked-create k id r refunds in
          elim (Bool-cases (k == order_id)) [
            | inl here ↦
                let found : find_unique order_id orders ≡ some o = ground (arith, here, e) in
                let won =
                  count-by_key order_id
                    (λ x. is_paid x.status && leb (x.refunded_cents + amount) x.subtotal_cents)
                    orders o keyed found in
                ground (
                  arith,
                  here,
                  row,
                  total,
                  of_order,
                  of_amount,
                  active,
                  spend-books now amount (booked k refunds) o (ground (arith, h, e))
                      (ground (arith, won, one)),
                )
            | inr there ↦ ground (arith, there, row, total, of_order, h, e)
          ]
    ]

-- A claim that matched no row.
pub unclaimed-books :
    (now amount k order_id n : ℕ) (orders : Table Order)
    → IsKeyed orders
    → (count (has_headroom order_id amount) orders == 1) ≡ false
    → is_in_books (find_unique k orders) n ≡ true
    → is_in_books
        (find_unique k (update_many (has_headroom order_id amount) (spend now amount) orders))
        n
      ≡ true
unclaimed-books now amount k order_id n orders keyed lost h =
    elim (Option-cases (find_unique k orders)) [
      | inl gone ↦ ground (
        arith,
        gone,
        find_unique-update_many-none k (has_headroom order_id amount) (spend now amount) orders
            gone,
      )
      | inr (o, e) ↦
          let row =
            find_unique-update_many k (has_headroom order_id amount) (spend now amount) orders o
              e in
          elim (Bool-cases (k == order_id)) [
            | inl here ↦
                let found : find_unique order_id orders ≡ some o = ground (arith, here, e) in
                let none_won =
                  count-by_key order_id
                    (λ x. is_paid x.status && leb (x.refunded_cents + amount) x.subtotal_cents)
                    orders o keyed found in
                ground (arith, here, row, h, e, none_won, lost)
            | inr there ↦ ground (arith, there, row, h, e)
          ]
    ]

-- A write to one order, where the refunds of that order alone have changed.
pub moved-books :
    (k order_id n m : ℕ) (f : Order → Order) (orders : Table Order)
    → is_in_books (find_unique k orders) n ≡ true
    → ((o : Order)
        → find_unique order_id orders ≡ some o
        → is_in_books (some o) n ≡ true
        → (k == order_id) ≡ true
        → is_in_books (some (f o)) m ≡ true)
    → ((k == order_id) ≡ false → m ≡ n)
    → is_in_books (find_unique k (update order_id f orders)) m ≡ true
moved-books k order_id n m f orders h moves rest = elim (Option-cases (find_unique k orders)) [
  | inl gone ↦ ground (arith, find_unique-update-none k order_id f orders gone)
  | inr (o, e) ↦
      let row = find_unique-update k order_id f orders o e in
      elim (Bool-cases (k == order_id)) [
        | inl here ↦
            let moved = moves o (ground (arith, here, e)) (ground (arith, h, e)) here in
            ground (arith, here, row, moved)
        | inr there ↦ ground (arith, there, row, h, e, rest there)
      ]
]

-- A write to a refund that leaves its order, its amount and whether it counts.
pub relabel-booked :
    (k id : ℕ) (f : Refund → Refund) (t : Table Refund) (r : Refund)
    → find_unique id t ≡ some r
    → weight k id (f r) ≡ weight k id r
    → booked k (update id f t) ≡ booked k t
relabel-booked k id f t r e same = omega (arith, booked-update k id f t r e, same)

-- A refund that counted, and fails.
pub fail-booked :
    (k id now : ℕ) (why : Text) (t : Table Refund) (r : Refund)
    → find_unique id t ≡ some r
    → is_active r.status ≡ true
    → booked k (update id (fail_row now why) t) + (if k == r.order_id then r.amount_cents else 0)
      ≡ booked k t
fail-booked k id now why t r e active =
    ground (arith, booked-update k id (fail_row now why) t r e, active)
