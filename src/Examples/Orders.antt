-- ===== src/Examples/Orders.antt =====
-- The theorems on orders at the example's shop.
use kintsugi.Prelude.{ℕ, ◌+◌, ◌≡◌, ◌≢◌, ◌⊎◌, refl, true, false, none, some, [], ◌∷◌, arith}
use kintsugi.Prelude.Table.{find_unique, find_first, find_many, count, sum_by}
use kintsugi.Prelude.Text.{text}
use kintsugi.Prelude.Action.{ok, err, not_payable}
use kintsugi.Schema.{Db, Order, OrderStatus, ListingStatus}
use kintsugi.Reservations.{ReservationResult, reserve_listing, release_reservation, read_hold}
use kintsugi.Orders.{
  mark_order_paid, release_order, release_after, settle_paid, create_order_from_holds,
  default_address, preferred, lines_of, collect_lines,
}
use kintsugi.Orders.Checkout.{IsPlaced, create_order_from_holds-IsPlaced}
use kintsugi.Orders.Settlement.{mark_order_paid-branches, released_while_processing}
use kintsugi.Orders.Races.{release_after_twice}
use kintsugi.Stock.{on_shelf}
use kintsugi.Orders.Stranded.{stranded_stock}
use kintsugi.Examples.Shop.{shop, open_order, vase, vase_line, vase_hold}

create_order_from_holds-IsPlaced_example :
    IsPlaced 52 20 (create_order_from_holds 52 (λ i. i) (text "KIN-C") 2 20 none shop).1
unfolding find_unique count create_order_from_holds default_address preferred find_many
    collect_lines find_first
create_order_from_holds-IsPlaced_example =
    create_order_from_holds-IsPlaced 52 (λ i. i) (text "KIN-C") 2 20 none shop
      (create_order_from_holds 52 (λ i. i) (text "KIN-C") 2 20 none shop).1 (refl, refl) refl

mark_order_paid-branches_example :
    ((OrderStatus.pending_payment ≡ OrderStatus.paid)
      × (mark_order_paid 4 50 shop ≡ (ok false, shop)))
    ⊎ (((true ≡ true)
          × ((mark_order_paid 4 50 shop).0 ≡ ok true)
          × (find_unique 50 (mark_order_paid 4 50 shop).1.orders ≡ some (settle_paid 4 open_order))
          × (find_unique 2 (mark_order_paid 4 50 shop).1.listings
              ≡ some (record vase { status = ListingStatus.sold })))
        ⊎ ((true ≡ false) × (mark_order_paid 4 50 shop ≡ (err not_payable 409, shop))))
unfolding find_unique lines_of find_many
mark_order_paid-branches_example = mark_order_paid-branches 4 50 2 open_order shop refl

abbrev claimed_order : Order
claimed_order = record open_order { status = OrderStatus.processing }

abbrev claimed_shop : Db
claimed_shop = record shop { orders = (50, claimed_order) ∷ [] }

cancelled-paid : OrderStatus.cancelled ≢ OrderStatus.paid
cancelled-paid h = ground (arith, h)

released_while_processing_example :
    mark_order_paid 5 50 (release_order 4 50 OrderStatus.cancelled none claimed_shop).1
    ≡ (err not_payable 409, (release_order 4 50 OrderStatus.cancelled none claimed_shop).1)
unfolding find_unique
released_while_processing_example =
    released_while_processing 4 5 50 OrderStatus.cancelled none claimed_order claimed_shop refl refl
      refl cancelled-paid

stranded_stock_example :
    let db' = (release_reservation 9 21 41 (mark_order_paid 4 50 shop).1).1 in
    (find_unique 2 db'.listings ≡ some (record vase { quantity = 2; status = ListingStatus.sold }))
    × ((new_id time user_id quantity : ℕ) (res : ReservationResult)
        → (reserve_listing new_id time user_id 2 quantity db').0 ≢ ok res)
unfolding find_unique lines_of find_many read_hold find_first
stranded_stock_example =
    stranded_stock 4 9 50 41 60 open_order vase_line vase_hold vase shop refl refl refl refl refl
      refl refl

-- Two cancellations of an order of one vase.
release_after_twice_example :
    on_shelf 2
      (release_after 5 50 OrderStatus.cancelled none
        (some open_order)
        (release_order 4 50 OrderStatus.cancelled none shop).1).1
    ≡ 0 + 1 + 1
unfolding find_unique lines_of find_many sum_by
release_after_twice_example =
    release_after_twice 4 5 50 2 OrderStatus.cancelled OrderStatus.cancelled none none open_order
      shop refl refl refl
