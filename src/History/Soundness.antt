-- ===== src/History/Soundness.antt =====
-- Distinct keys of reservations, and the presence of a listing, under each transaction.
use kintsugi.Prelude.{
  ℕ, ◌+◌, ◌-◌, ◌≡◌, refl, ◌∙◌, inl, inr, ◌&&◌, Option, none, some, [], ◌∷◌, arith, ◌==◌,
  Option-cases,
}
use kintsugi.Prelude.Table.{Table, find_unique, find_first, find_many, update_many, IsKeyed, in_ids}
use kintsugi.Prelude.Table.Lookup.{
  update-IsKeyed, update_many-IsKeyed, create-IsKeyed, find_unique-update_many-none, is_some-update,
}
use kintsugi.Prelude.Action.{Run-cases}
use kintsugi.Prelude.Text.{Text}
use kintsugi.Schema.{
  Db, ListingStatus, Reservation, ReservationStatus, OrderItem, OrderStatus, is_held,
}
use kintsugi.Reservations.{
  lock_listing, reserve_listing, release_reservation, release_hold, expired_holds, expire, new_hold,
  expire_holds, create_hold, total_quantity, set_listing, set_reservation, restored_status,
  is_live_hold_of,
}
use kintsugi.Orders.{
  create_order_from_holds, collect_lines, empty_basket, convert, chosen_address,
  attach_payment_intent, mark_order_paid, release_order, sell_line, sell_lines, return_line,
  return_lines, lines_of,
}
use kintsugi.Orders.Conservation.{
  IsListed, return_line-IsListed, sell_lines-frame, return_lines-frame, in_orders-update_order,
  in_orders-absent,
}
use kintsugi.Orders.Checkout.{IsFreshOrder, collected}
use kintsugi.Stock.{stock, in_orders}

pub record IsSound (listing_id : ℕ) (db : Db) : Type 0 where
  pub keyed : IsKeyed db.reservations
  pub listed : IsListed listing_id db

set_listing-IsListed :
    (k listing_id quantity : ℕ) (status : ListingStatus) (db : Db)
    → IsListed k db
    → IsListed k (set_listing listing_id quantity status db)
set_listing-IsListed k listing_id quantity status db h =
    is_some-update k listing_id (λ x. record x { quantity = quantity; status = status }) db.listings
    ∙ h

ended :
    (k listing_id quantity id now : ℕ) (to : ListingStatus) (status : ReservationStatus) (db : Db)
    → IsSound k db
    → IsSound k (set_listing listing_id quantity to (set_reservation id status now db))
ended k listing_id quantity id now to status db h = record {
  keyed =
      update-IsKeyed id (λ x. record x { status = status; released_at = some now }) db.reservations
        h.keyed;
  listed = set_listing-IsListed k listing_id quantity to db h.listed;
}

started :
    (k new_id now user_id listing_id quantity rest : ℕ) (to : ListingStatus) (db : Db)
    → find_unique new_id db.reservations ≡ none
    → IsSound k db
    → IsSound k (
        create_hold new_id
          (new_hold now user_id listing_id quantity)
          (set_listing listing_id rest to (expire_holds now (expired_holds listing_id now db) db)))
started k new_id now user_id listing_id quantity rest to db fresh h =
    let due = in_ids (expired_holds listing_id now db) in
    let t = update_many due (expire now) db.reservations in
    record {
      keyed =
          create-IsKeyed new_id (new_hold now user_id listing_id quantity) t
            (find_unique-update_many-none new_id due (expire now) db.reservations fresh)
            (update_many-IsKeyed due (expire now) db.reservations h.keyed);
      listed = set_listing-IsListed k listing_id rest to db h.listed;
    }

pub reserve_listing-IsSound :
    (k new_id now user_id listing_id quantity : ℕ) (db : Db)
    → find_unique new_id db.reservations ≡ none
    → IsSound k db
    → IsSound k (reserve_listing new_id now user_id listing_id quantity db).1
unfolding reserve_listing
reserve_listing-IsSound k new_id now user_id listing_id quantity db fresh h =
    elim (Option-cases (find_unique listing_id db.listings)) [
      | inl gone ↦ ground (arith, gone, h)
      | inr (l, e) ↦
          let rest = l.quantity + total_quantity (expired_holds listing_id now db) - quantity in
          ground (
            arith,
            e,
            h,
            started k new_id now user_id listing_id quantity rest ListingStatus.active db fresh h,
            started k new_id now user_id listing_id quantity rest ListingStatus.reserved db fresh h,
          )
    ]

pub release_reservation-IsSound :
    (k now user_id id : ℕ) (db : Db)
    → IsSound k db
    → IsSound k (release_reservation now user_id id db).1
unfolding release_reservation
release_reservation-IsSound k now user_id id db h =
    elim (Option-cases (find_first (λ i r. i == id && r.user_id == user_id) db.reservations)) [
      | inl missing ↦ ground (arith, missing, h)
      | inr ((j, r), e) ↦ elim (Option-cases (find_unique r.listing_id db.listings)) [
        | inl gone ↦ ground (arith, e, gone, h)
        | inr (l, le) ↦ ground (
          arith,
          e,
          le,
          h,
          ended k r.listing_id (l.quantity + r.quantity) id now (restored_status l.status)
              ReservationStatus.released db h,
        )
      ]
    ]

pub release_hold-IsSound :
    (k now id : ℕ) (hold : Reservation) (db : Db)
    → IsSound k db
    → IsSound k (release_hold now (id, hold) db).1
unfolding release_hold
release_hold-IsSound k now id hold db h =
    elim (Option-cases (find_first (λ i r. i == id && is_held r.status) db.reservations)) [
      | inl missing ↦ ground (arith, missing, h)
      | inr ((j, r), e) ↦ elim (Option-cases (find_unique hold.listing_id db.listings)) [
        | inl gone ↦ ground (arith, e, gone, h)
        | inr (l, le) ↦ ground (
          arith,
          e,
          le,
          h,
          ended k hold.listing_id (l.quantity + r.quantity) id now (restored_status l.status)
              ReservationStatus.expired db h,
        )
      ]
    ]

pub create_order_from_holds-IsSound :
    (k order_id : ℕ) (item_ids : ℕ → ℕ) (reference : Text) (now user_id : ℕ) (address_id : Option ℕ)
    (db : Db)
    → IsFreshOrder order_id db
    → IsSound k db
    → IsSound k (create_order_from_holds order_id item_ids reference now user_id address_id db).1
unfolding create_order_from_holds
create_order_from_holds-IsSound k order_id item_ids reference now user_id address_id db fresh h =
    elim (Option-cases (chosen_address user_id address_id db)) [
      | inl missing ↦ ground (arith, missing, h)
      | inr (to, ea) ↦
          let holds = find_many (is_live_hold_of user_id now) db.reservations in
          elim (Run-cases (collect_lines order_id item_ids now holds empty_basket db)) [
            | inr (c, n, db', e) ↦ ground (arith, ea, e, h)
            | inl (basket, db', e) ↦ ground (
              arith,
              ea,
              e,
              h,
              (collected k order_id now user_id item_ids reference to basket holds db db' fresh
                  e).same,
              update_many-IsKeyed (in_ids holds) (convert now) db.reservations h.keyed,
            )
          ]
    ]

sell_line-IsListed : (k : ℕ) (l : Option ℕ) (db : Db) → IsListed k db → IsListed k (sell_line l db)
unfolding lock_listing
sell_line-IsListed k none db h = h
sell_line-IsListed k (some i) db h = elim (Option-cases (find_unique i db.listings)) [
  | inl gone ↦ ground (arith, gone, h)
  | inr (l, e) ↦ ground (arith, e, h, set_listing-IsListed k i l.quantity ListingStatus.sold db h)
]

sell_lines-IsListed :
    (k : ℕ) (items : Table OrderItem) (db : Db) → IsListed k db → IsListed k (sell_lines items db)
unfolding sell_lines
sell_lines-IsListed k [] db h = h
sell_lines-IsListed k ((i, item) ∷ items) db h =
    sell_lines-IsListed k items (sell_line item.listing_id db)
      (sell_line-IsListed k item.listing_id db h)

return_lines-IsListed :
    (k : ℕ) (items : Table OrderItem) (db : Db) → IsListed k db → IsListed k (return_lines items db)
unfolding return_lines
return_lines-IsListed k [] db h = h
return_lines-IsListed k ((i, item) ∷ items) db h =
    return_lines-IsListed k items (return_line item.listing_id item.quantity db)
      (return_line-IsListed k item.listing_id item.quantity db h)

sold-IsSound :
    (k : ℕ) (items : Table OrderItem) (db : Db) → IsSound k db → IsSound k (sell_lines items db)
sold-IsSound k items db h = record {
  keyed = rw (sell_lines-frame items db) h.keyed;
  listed = sell_lines-IsListed k items db h.listed;
}

returned-IsSound :
    (k : ℕ) (items : Table OrderItem) (db : Db) → IsSound k db → IsSound k (return_lines items db)
returned-IsSound k items db h = record {
  keyed = rw (return_lines-frame items db) h.keyed;
  listed = return_lines-IsListed k items db h.listed;
}

pub mark_order_paid-IsSound :
    (k now order_id : ℕ) (db : Db) → IsSound k db → IsSound k (mark_order_paid now order_id db).1
unfolding mark_order_paid
mark_order_paid-IsSound k now order_id db h = elim (Option-cases (find_unique order_id db.orders)) [
  | inl gone ↦ ground (arith, gone, h)
  | inr (o, e) ↦ ground (arith, e, h, sold-IsSound k (lines_of order_id db) db h)
]

pub release_order-IsSound :
    (k now order_id : ℕ) (status : OrderStatus) (reason : Option Text) (db : Db)
    → IsSound k db
    → IsSound k (release_order now order_id status reason db).1
unfolding release_order
release_order-IsSound k now order_id status reason db h =
    elim (Option-cases (find_unique order_id db.orders)) [
      | inl gone ↦ ground (arith, gone, h)
      | inr (o, e) ↦ ground (arith, e, h, returned-IsSound k (lines_of order_id db) db h)
    ]

in_orders-attached :
    (k now order_id : ℕ) (provider : Text) (intent_id : ℕ) (db : Db)
    → in_orders k (attach_payment_intent now order_id provider intent_id db) ≡ in_orders k db
unfolding attach_payment_intent
in_orders-attached k now order_id provider intent_id db =
    elim (Option-cases (find_unique order_id db.orders)) [
      | inl gone ↦ in_orders-absent k order_id _ db gone
      | inr (o, e) ↦
          in_orders-update_order k order_id
            (λ x. record x {
              payment_provider = some provider;
              payment_intent_id = some intent_id;
              updated_at = now;
            })
            o db e refl
    ]

pub attach_payment_intent-stock :
    (k now order_id : ℕ) (provider : Text) (intent_id : ℕ) (db : Db)
    → stock k (attach_payment_intent now order_id provider intent_id db) ≡ stock k db
unfolding attach_payment_intent
attach_payment_intent-stock k now order_id provider intent_id db =
    omega (arith, in_orders-attached k now order_id provider intent_id db)
