-- ===== src/Sales/Parcel/Stages.antt =====
-- What the requests of sellers and buyers do to the lines of an order (backend/src/lib/sales.ts,
-- markShipped, markDelivered and markUnfulfillable).
use kintsugi.Prelude.{
  ℕ, ◌≡◌, refl, ap, inl, inr, Bool, true, false, ◌&&◌, ◌||◌, is_key, if◌then◌else◌, Option, none,
  some, ◌==◌, arith, Bool-cases, Option-cases,
}
use kintsugi.Prelude.Table.{find_unique, IsKeyed}
use kintsugi.Prelude.Table.Lookup.{
  find_unique-update, find_unique-update-none, find_first-by_key, find_first-none, find_first-named,
}
use kintsugi.Prelude.Text.{Text, trim, length}
use kintsugi.Schema.{Db, OrderItem, FulfilmentStatus, RefundTrigger}
use kintsugi.Refunds.{World, refund_unfulfillable_line, line_refund}
use kintsugi.Refunds.Frame.{issue_refund-untouched}
use kintsugi.Sales.{
  is_settled_row, is_bought_by, find_sale, find_purchase, mark_shipped, mark_delivered,
  mark_unfulfillable, ship_line, deliver_line, give_up_line, update_line, ship, track, deliver,
  give_up, is_delivered, is_unfulfillable,
}
use kintsugi.Sales.Parcel.{
  parcel, line, Request, sends, confirms, cannot_send, serve, named_line, may_ask, goes, expected,
}

-- What a write to one line leaves of each.
line-update_line :
    (k id : ℕ) (f : OrderItem → OrderItem) (x : OrderItem) (db : Db)
    → find_unique k db.order_items ≡ some x
    → line k (update_line id f db) ≡ some (parcel (if k == id then f x else x))
unfolding line
line-update_line k id f x db e = ground (arith, find_unique-update k id f db.order_items x e)

-- A case for each stage.
module _ {ℓ} (P : Type ℓ) where
  by_stage :
      (stage : FulfilmentStatus)
      → (stage ≡ FulfilmentStatus.unfulfilled → P)
      → (stage ≡ FulfilmentStatus.shipped → P)
      → (stage ≡ FulfilmentStatus.delivered → P)
      → (stage ≡ FulfilmentStatus.unfulfillable → P)
      → P
  by_stage FulfilmentStatus.unfulfilled a b c d = a refl
  by_stage FulfilmentStatus.shipped a b c d = b refl
  by_stage FulfilmentStatus.delivered a b c d = c refl
  by_stage FulfilmentStatus.unfulfillable a b c d = d refl

refund-untouched :
    (w : World) (id : ℕ) (reason : Text) (db : Db)
    → (refund_unfulfillable_line w id reason db).1.order_items ≡ db.order_items
unfolding refund_unfulfillable_line
refund-untouched w id reason db = elim (Option-cases (find_unique id db.order_items)) [
  | inl gone ↦ ground (arith, gone)
  | inr (i, e) ↦ ground (
    arith,
    e,
    ap (λ u. u.1)
        (issue_refund-untouched w (line_refund id i reason RefundTrigger.seller_unfulfillable none)
          db),
  )
]

give_up_line-line :
    (w : World) (k : ℕ) (reason : Text) (id : ℕ) (db : Db)
    → line k (give_up_line w reason id db).1 ≡ line k (update_line id (give_up reason) db)
unfolding line give_up_line
give_up_line-line w k reason id db =
    ground (arith, refund-untouched w id reason (update_line id (give_up reason) db))

-- A request writes only to the line that it names.
module _ (w : World) (k : ℕ) (x : OrderItem) (db : Db)
    (at : find_unique k db.order_items ≡ some x) where
  ship_line-line :
      (carrier tracking_number : Option Text) (seller_id id : ℕ) (i : OrderItem)
      → find_unique id db.order_items ≡ some i
      → line k (ship_line w.now carrier tracking_number (id, i) db).1
        ≡ some (
            if k == id
            then goes w.now (sends seller_id id carrier tracking_number) (parcel x)
            else parcel x)
  unfolding ship_line line
  ship_line-line carrier tracking_number seller_id id i e =
      let sent = line-update_line k id (ship w.now carrier tracking_number) x db at in
      let tracked = line-update_line k id (track carrier tracking_number) x db at in
      elim (Bool-cases (k == id)) [
        | inl here ↦
            let same : i ≡ x = ground (arith, here, e, at) in
            by_stage _ i.fulfilment (λ s. ground (arith, same, s, sent, here))
              (λ s. ground (arith, same, s, tracked, here)) (λ s. ground (arith, same, s, at, here))
              (λ s. ground (arith, same, s, at, here))
        | inr there ↦
            by_stage _ i.fulfilment (λ s. ground (arith, s, sent, there))
              (λ s. ground (arith, s, tracked, there)) (λ s. ground (arith, s, at, there))
              (λ s. ground (arith, s, at, there))
      ]

  deliver_line-line :
      (buyer_id id : ℕ) (i : OrderItem)
      → find_unique id db.order_items ≡ some i
      → line k (deliver_line w.now (id, i) db).1
        ≡ some (if k == id then goes w.now (confirms buyer_id id) (parcel x) else parcel x)
  unfolding deliver_line line
  deliver_line-line buyer_id id i e =
      let arrived = line-update_line k id (deliver w.now) x db at in
      elim (Bool-cases (k == id)) [
        | inl here ↦
            let same : i ≡ x = ground (arith, here, e, at) in
            by_stage _ i.fulfilment (λ s. ground (arith, same, s, at, here))
              (λ s. ground (arith, same, s, arrived, here)) (λ s. ground (arith, same, s, at, here))
              (λ s. ground (arith, same, s, at, here))
        | inr there ↦
            by_stage _ i.fulfilment (λ s. ground (arith, s, at, there))
              (λ s. ground (arith, s, arrived, there)) (λ s. ground (arith, s, at, there))
              (λ s. ground (arith, s, at, there))
      ]

  give_up-line :
      (seller_id id : ℕ) (reason : Text) (i : OrderItem)
      → find_unique id db.order_items ≡ some i
      → is_delivered i.fulfilment ≡ false
      → is_unfulfillable i.fulfilment ≡ false
      → (length (trim reason) == 0) ≡ false
      → line k (give_up_line w (trim reason) id db).1
        ≡ some
            (if k == id then goes w.now (cannot_send seller_id id reason) (parcel x) else parcel x)
  unfolding line
  give_up-line seller_id id reason i e away open_ some_text =
      let kept = give_up_line-line w k (trim reason) id db in
      let dropped = line-update_line k id (give_up (trim reason)) x db at in
      elim (Bool-cases (k == id)) [
        | inl here ↦
            let same : i ≡ x = ground (arith, here, e, at) in
            by_stage _ i.fulfilment (λ s. ground (arith, same, s, kept, dropped, here, some_text))
              (λ s. ground (arith, same, s, kept, dropped, here, some_text))
              (λ s. absurd (ground (arith, s, away))) (λ s. absurd (ground (arith, s, open_)))
        | inr there ↦ ground (arith, kept, dropped, there)
      ]

  -- A line that is closed, or a reason that is blank.
  keeps :
      (seller_id id : ℕ) (reason : Text) (i : OrderItem)
      → find_unique id db.order_items ≡ some i
      → (is_delivered i.fulfilment || is_unfulfillable i.fulfilment || length (trim reason) == 0)
        ≡ true
      → (k == id) ≡ true
      → goes w.now (cannot_send seller_id id reason) (parcel x) ≡ parcel x
  keeps seller_id id reason i e closed here =
      let same : i ≡ x = ground (arith, here, e, at) in
      by_stage _ i.fulfilment (λ s. ground (arith, same, s, closed))
        (λ s. ground (arith, same, s, closed)) (λ s. ground (arith, same, s, closed))
        (λ s. ground (arith, same, s, closed))

  serve-there :
      (request : Request)
      → IsKeyed db.order_items
      → line k (serve w request db)
        ≡ some (
            if k == named_line request && may_ask request db x
            then goes w.now request (parcel x)
            else parcel x)
  unfolding serve mark_shipped mark_delivered mark_unfulfillable find_sale find_purchase line
  serve-there (sends seller_id id carrier tracking_number) keyed =
      let q : OrderItem → Bool =
        λ i. is_key i.seller_id seller_id && is_settled_row (find_unique i.order_id db.orders) in
      elim (Option-cases (find_sale seller_id id db)) [
        | inl gone ↦ ground (arith, gone, at, find_first-none id q db.order_items x gone)
        | inr ((j, i), e) ↦
            let named : j ≡ id = find_first-named id q db.order_items j i e in
            let (row, asked) = find_first-by_key id q db.order_items j i keyed e in
            ground (
              arith,
              e,
              named,
              row,
              asked,
              at,
              ship_line-line carrier tracking_number seller_id id i row,
            )
      ]
  serve-there (confirms buyer_id id) keyed =
      let q : OrderItem → Bool = λ i. is_bought_by buyer_id (find_unique i.order_id db.orders) in
      elim (Option-cases (find_purchase buyer_id id db)) [
        | inl gone ↦ ground (arith, gone, at, find_first-none id q db.order_items x gone)
        | inr ((j, i), e) ↦
            let named : j ≡ id = find_first-named id q db.order_items j i e in
            let (row, asked) = find_first-by_key id q db.order_items j i keyed e in
            ground (arith, e, named, row, asked, at, deliver_line-line buyer_id id i row)
      ]
  serve-there (cannot_send seller_id id reason) keyed =
      let q : OrderItem → Bool =
        λ i. is_key i.seller_id seller_id && is_settled_row (find_unique i.order_id db.orders) in
      elim (Option-cases (find_sale seller_id id db)) [
        | inl gone ↦ ground (arith, gone, at, find_first-none id q db.order_items x gone)
        | inr ((j, i), e) ↦
            let named : j ≡ id = find_first-named id q db.order_items j i e in
            let (row, asked) = find_first-by_key id q db.order_items j i keyed e in
            elim (Bool-cases (
              is_delivered i.fulfilment
              || is_unfulfillable i.fulfilment
              || length (trim reason) == 0)) [
                | inl closed ↦ ground (
                  arith,
                  e,
                  named,
                  row,
                  asked,
                  at,
                  closed,
                  keeps seller_id id reason i row closed,
                )
                | inr open_ ↦ ground (
                  arith,
                  e,
                  named,
                  row,
                  asked,
                  at,
                  open_,
                  give_up-line seller_id id reason i row (ground (arith, open_))
                      (ground (arith, open_)) (ground (arith, open_)),
                )
              ]
      ]

serve-absent :
    (w : World) (k : ℕ) (request : Request) (db : Db)
    → find_unique k db.order_items ≡ none
    → line k (serve w request db) ≡ none
unfolding serve mark_shipped mark_delivered mark_unfulfillable line ship_line deliver_line
serve-absent w k (sends seller_id id carrier tracking_number) db absent =
    elim (Option-cases (find_sale seller_id id db)) [
      | inl gone ↦ ground (arith, gone, absent)
      | inr ((j, i), e) ↦
          let sent =
            find_unique-update-none k j (ship w.now carrier tracking_number) db.order_items
              absent in
          let tracked =
            find_unique-update-none k j (track carrier tracking_number) db.order_items absent in
          by_stage _ i.fulfilment (λ s. ground (arith, e, s, sent))
            (λ s. ground (arith, e, s, tracked)) (λ s. ground (arith, e, s, absent))
            (λ s. ground (arith, e, s, absent))
    ]
serve-absent w k (confirms buyer_id id) db absent =
    elim (Option-cases (find_purchase buyer_id id db)) [
      | inl gone ↦ ground (arith, gone, absent)
      | inr ((j, i), e) ↦
          let arrived = find_unique-update-none k j (deliver w.now) db.order_items absent in
          by_stage _ i.fulfilment (λ s. ground (arith, e, s, absent))
            (λ s. ground (arith, e, s, arrived)) (λ s. ground (arith, e, s, absent))
            (λ s. ground (arith, e, s, absent))
    ]
serve-absent w k (cannot_send seller_id id reason) db absent =
    elim (Option-cases (find_sale seller_id id db)) [
      | inl gone ↦ ground (arith, gone, absent)
      | inr ((j, i), e) ↦ ground (
        arith,
        e,
        absent,
        give_up_line-line w k (trim reason) j db,
        find_unique-update-none k j (give_up (trim reason)) db.order_items absent,
      )
    ]

-- What every request of a seller or a buyer does to every line: where the request names the line
-- and comes from one who may ask, a line is shipped if it waits for that, arrives at the time of the
-- call if it was shipped, and is given up, for a reason that is not blank, if it waits or was
-- shipped; in every other case the line keeps its stage and its time of delivery. Lines have
-- distinct keys.
pub serve-line :
    (w : World) (k : ℕ) (request : Request) (db : Db)
    → IsKeyed db.order_items
    → line k (serve w request db) ≡ expected w.now request k db
unfolding expected
serve-line w k request db keyed = elim (Option-cases (find_unique k db.order_items)) [
  | inl absent ↦ ground (arith, absent, serve-absent w k request db absent)
  | inr (x, at) ↦ ground (arith, at, serve-there w k x db at request keyed)
]
