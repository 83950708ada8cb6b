-- ===== src/Sales/Summary.antt =====
-- The counts and totals that a seller sees (backend/src/lib/sales.ts, `salesSummary`).
use kintsugi.Prelude.{
  ℕ, ◌+◌, ◌*◌, ◌≡◌, refl, Bool, true, false, not, ◌&&◌, none, some, List, [], ◌∷◌, ◌==◌,
  if◌then◌else◌, is_key, contains, arith, Bool-cases, inl, inr,
}
use kintsugi.Prelude.Table.{Table, find_unique, find_first, find_many, count, sum_by, ids}
use kintsugi.Prelude.Text.{length}
use kintsugi.Schema.{Db, OrderItem, FulfilmentStatus, Refund}
use kintsugi.Payouts.{is_active}
use kintsugi.Sales.{is_settled_row}

-- The lines of refunds that did not fail.
unfoldable pub refund_lines : Table Refund → List ℕ
refund_lines [] = []
refund_lines ((id, r) ∷ t) =
    let rest = refund_lines t in
    if is_active r.status then elim r.order_item_id [ none ↦ rest | some i ↦ i ∷ rest ] else rest

abbrev pub is_sellers : ℕ → ℕ → OrderItem → Bool
is_sellers seller_id _ i = is_key i.seller_id seller_id

abbrev pub has_line_of : ℕ → ℕ → Table OrderItem → Bool
has_line_of seller_id order_id items =
    elim (find_first (λ id i. i.order_id == order_id && is_sellers seller_id id i) items) [
      | none ↦ false
      | some row ↦ true
    ]

-- Refunds of an order in which the seller has a line; then the seller's lines among those refunded.
unfoldable pub refunded_lines : ℕ → Db → List ℕ
unfolding refund_lines
refunded_lines seller_id db =
    let rows = find_many (λ _ r. has_line_of seller_id r.order_id db.order_items) db.refunds in
    ids (
      find_many (λ id i. contains id (refund_lines rows) && is_sellers seller_id id i)
        db.order_items)

abbrev pub is_unfulfilled : FulfilmentStatus → Bool
is_unfulfilled FulfilmentStatus.unfulfilled = true
is_unfulfilled _ = false

abbrev pub is_shipped : FulfilmentStatus → Bool
is_shipped FulfilmentStatus.shipped = true
is_shipped _ = false

abbrev pub is_arrived : FulfilmentStatus → Bool
is_arrived FulfilmentStatus.delivered = true
is_arrived _ = false

abbrev pub is_dropped : FulfilmentStatus → Bool
is_dropped FulfilmentStatus.unfulfillable = true
is_dropped _ = false

unfoldable pub sold_lines : ℕ → Db → Table OrderItem
sold_lines seller_id db =
    find_many
      (λ id i. is_sellers seller_id id i && is_settled_row (find_unique i.order_id db.orders))
      db.order_items

abbrev pub worth : ℕ → OrderItem → ℕ
worth _ i = i.unit_price_cents * i.quantity

pub record SalesSummary : Type 0 where
  pub to_send : ℕ
  pub shipped : ℕ
  pub delivered : ℕ
  pub refunded : ℕ
  pub sold_count : ℕ
  pub gross_cents : ℕ

unfoldable pub sales_summary : ℕ → Db → SalesSummary
unfolding refunded_lines sold_lines
sales_summary seller_id db =
    let lines = sold_lines seller_id db in
    let refunded_ids = refunded_lines seller_id db in
    let kept = find_many (λ id i. not (contains id refunded_ids)) lines in
    record {
      to_send = count (λ id i. is_unfulfilled i.fulfilment) lines;
      shipped = count (λ id i. is_shipped i.fulfilment) lines;
      delivered = count (λ id i. is_arrived i.fulfilment) lines;
      refunded = length refunded_ids;
      sold_count = length kept;
      gross_cents = sum_by worth kept;
    }

split-sum :
    (p : ℕ → Bool) (t : Table OrderItem)
    → sum_by worth (find_many (λ id i. not (p id)) t) + sum_by worth (find_many (λ id i. p id) t)
      ≡ sum_by worth t
unfolding sum_by find_many
split-sum p [] = refl
split-sum p ((j, i) ∷ t) = elim (Bool-cases (p j)) [
  | inl here ↦ ground (arith, here, split-sum p t)
  | inr there ↦ ground (arith, there, split-sum p t)
]

split-count :
    (p : ℕ → Bool) (t : Table OrderItem)
    → length (find_many (λ id i. not (p id)) t) + count (λ id i. p id) t ≡ length t
unfolding count find_many
split-count p [] = refl
split-count p ((j, i) ∷ t) = elim (Bool-cases (p j)) [
  | inl here ↦ ground (arith, here, split-count p t)
  | inr there ↦ ground (arith, there, split-count p t)
]

stage_weight : FulfilmentStatus → ℕ
stage_weight s =
    (if is_unfulfilled s then 1 else 0)
    + (if is_shipped s then 1 else 0)
    + (if is_arrived s then 1 else 0)
    + (if is_dropped s then 1 else 0)

one-stage : (s : FulfilmentStatus) → stage_weight s ≡ 1
unfolding stage_weight
one-stage FulfilmentStatus.unfulfilled = refl
one-stage FulfilmentStatus.shipped = refl
one-stage FulfilmentStatus.delivered = refl
one-stage FulfilmentStatus.unfulfillable = refl

stages-total :
    (t : Table OrderItem)
    → count (λ id i. is_unfulfilled i.fulfilment) t
        + count (λ id i. is_shipped i.fulfilment) t
        + count (λ id i. is_arrived i.fulfilment) t
        + count (λ id i. is_dropped i.fulfilment) t
      ≡ length t
unfolding count stage_weight
stages-total [] = refl
stages-total ((j, i) ∷ t) = ground (arith, one-stage i.fulfilment, stages-total t)

-- The summary adds up: the gross and what was refunded of the seller's sales are all that the sales
-- came to, and the lines to send, under way, delivered and given up are the lines that count as sold
-- and the refunded ones among them.
pub sales_summary-total :
    (seller_id : ℕ) (db : Db)
    → ((sales_summary seller_id db).gross_cents
          + sum_by worth (
              find_many
                (λ id i. contains id (refunded_lines seller_id db))
                (sold_lines seller_id db))
        ≡ sum_by worth (sold_lines seller_id db))
      × ((sales_summary seller_id db).to_send
            + (sales_summary seller_id db).shipped
            + (sales_summary seller_id db).delivered
            + count (λ id i. is_dropped i.fulfilment) (sold_lines seller_id db)
          ≡ (sales_summary seller_id db).sold_count
            + count (λ id i. contains id (refunded_lines seller_id db)) (sold_lines seller_id db))
unfolding sales_summary
sales_summary-total seller_id db =
    let lines = sold_lines seller_id db in
    let p = λ (id : ℕ). contains id (refunded_lines seller_id db) in
    (split-sum p lines, ground (arith, split-count p lines, stages-total lines))
