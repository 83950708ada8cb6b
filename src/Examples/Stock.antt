-- ===== src/Examples/Stock.antt =====
-- The theorems on stock at the example's shop.
use kintsugi.Prelude.{◌+◌, ◌≡◌, refl, false, none, some, arith}
use kintsugi.Prelude.Table.{
  IsKeyed, find_unique, find_first, find_many, count, sum_by, update_many, update, ids, create,
}
use kintsugi.Prelude.Text.{text}
use kintsugi.Schema.{ReservationStatus}
use kintsugi.Stock.{stock}
use kintsugi.Reservations.{
  reserve_listing, release_expired_holds, release_holds, release_hold, is_due, read_hold,
  return_hold,
}
use kintsugi.Reservations.Sweep.{links, release_expired_holds-clear}
use kintsugi.Reservations.Races.{return_hold_twice}
use kintsugi.Reservations.Single.{HasSingleHolds, reserve_listing-HasSingleHolds}
use kintsugi.Orders.{claim_order_for_payment, mark_order_paid, create_order_from_holds}
use kintsugi.History.{Reach, Reach-stock, here, next, reserves, checks_out, claims, pays}
use kintsugi.History.Soundness.{IsSound}
use kintsugi.Examples.Shop.{shop, cup, cup_hold}

shop-IsKeyed : IsKeyed shop.reservations
unfolding find_unique
shop-IsKeyed = (refl, (refl, tt))

shop-IsSound : IsSound 1 shop
unfolding find_unique
shop-IsSound = record { keyed = shop-IsKeyed; listed = refl }

-- A hold of two cups by user 22, the order of user 20, its claim and its payment.
history :
    Reach shop
      (mark_order_paid 4 52
        (claim_order_for_payment 3 20 52
          (create_order_from_holds 52
            (λ i. i)
            (text "KIN-C")
            2
            20
            none
            (reserve_listing 42 1 22 1 2 shop).1).1).1).1
unfolding find_unique count reserve_listing find_many sum_by update_many ids create find_first
    update
history =
    next
      (next
        (next (next here (reserves 42 1 22 1 2 shop refl))
          (checks_out 52 (λ i. i) (text "KIN-C") 2 20 none _ (refl, refl)))
        (claims 3 20 52 _))
      (pays 4 52 _)

Reach-stock_example :
    stock 1
      (mark_order_paid 4 52
        (claim_order_for_payment 3 20 52
          (create_order_from_holds 52
            (λ i. i)
            (text "KIN-C")
            2
            20
            none
            (reserve_listing 42 1 22 1 2 shop).1).1).1).1
    ≡ stock 1 shop
Reach-stock_example = Reach-stock 1 shop-IsSound history

return_hold_twice_example :
    stock 1 (return_hold 11 40 cup_hold (return_hold 10 40 cup_hold shop).1).1 ≡ stock 1 shop + 1
unfolding find_unique read_hold find_first
return_hold_twice_example = return_hold_twice 10 11 20 40 cup_hold cup shop shop-IsKeyed refl refl

release_expired_holds-clear_example :
    is_due 200 40 (record cup_hold { status = ReservationStatus.expired; released_at = some 200 })
    ≡ false
unfolding find_unique release_expired_holds find_many links find_first update release_holds
    release_hold
release_expired_holds-clear_example =
    release_expired_holds-clear 200 shop 40
      (record cup_hold { status = ReservationStatus.expired; released_at = some 200 }) shop-IsKeyed
      refl refl

shop-HasSingleHolds : HasSingleHolds shop
unfolding count
shop-HasSingleHolds user_id listing_id = ground arith

reserve_listing-HasSingleHolds_example : HasSingleHolds (reserve_listing 42 1 22 1 2 shop).1
reserve_listing-HasSingleHolds_example =
    reserve_listing-HasSingleHolds 42 1 22 1 2 shop shop-HasSingleHolds
