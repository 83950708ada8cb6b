-- ===== src/Orders/Stranded.antt =====
-- A sale while another buyer holds the last pieces: the listing is closed, and stays closed when
-- that hold comes back.
use kintsugi.Prelude.{ℕ, ◌+◌, ◌≡◌, refl, ◌≢◌, true, some, [], ◌∷◌, arith}
use kintsugi.Prelude.Table.{find_unique, update}
use kintsugi.Prelude.Table.Lookup.{find_unique-update_self}
use kintsugi.Prelude.Action.{ok}
use kintsugi.Schema.{Db, Listing, ListingStatus, Reservation, Order, OrderItem, is_stock_committed}
use kintsugi.Reservations.{
  ReservationResult, reserve_listing, release_reservation, read_hold, set_listing,
}
use kintsugi.Orders.{mark_order_paid, lines_of, update_order, settle_paid}

-- A SOLD listing takes no hold, whatever its quantity says.
pub reserve_listing-sold :
    (new_id now user_id listing_id quantity : ℕ) (l : Listing) (res : ReservationResult) (db : Db)
    → find_unique listing_id db.listings ≡ some l
    → l.status ≡ ListingStatus.sold
    → (reserve_listing new_id now user_id listing_id quantity db).0 ≢ ok res
unfolding reserve_listing
reserve_listing-sold new_id now user_id listing_id quantity l res db e s h = ground (arith, e, s, h)

module _ (now later order_id hold_id i : ℕ) (o : Order) (item : OrderItem) (r : Reservation)
    (l : Listing) (db : Db) (order_found : find_unique order_id db.orders ≡ some o)
    (committed : is_stock_committed o.status ≡ true)
    (one_line : lines_of order_id db ≡ (i, item) ∷ [])
    (same_listing : item.listing_id ≡ some r.listing_id)
    (listed : find_unique r.listing_id db.listings ≡ some l) (none_left : l.quantity ≡ 0)
    (hold_read : read_hold r.user_id hold_id db ≡ (ok r, db)) where
  after_sale :
      (mark_order_paid now order_id db).1
      ≡ update_order order_id
          (settle_paid now)
          (set_listing r.listing_id l.quantity ListingStatus.sold db)
  unfolding mark_order_paid
  after_sale = ground (arith, order_found, committed, one_line, same_listing, listed, none_left)

  stranded_row :
      find_unique r.listing_id
        (release_reservation later r.user_id hold_id (mark_order_paid now order_id db).1).1.listings
      ≡ some (record l { quantity = r.quantity; status = ListingStatus.sold })
  unfolding release_reservation
  stranded_row =
      let l' : Listing = record l { quantity = l.quantity; status = ListingStatus.sold } in
      let sell = λ (x : Listing). record x { quantity = l.quantity; status = ListingStatus.sold } in
      let back = λ (x : Listing). record x {
        quantity = l.quantity + r.quantity;
        status = ListingStatus.sold;
      } in
      let sold = find_unique-update_self r.listing_id sell db.listings l listed in
      rw after_sale (
        ground (
          arith,
          hold_read,
          none_left,
          sold,
          find_unique-update_self r.listing_id back (update r.listing_id sell db.listings) l' sold,
        ))

  -- An order with one line, of a listing with nothing left on the shelf, is paid while another buyer
  -- holds more of the listing: once that hold is let go, the listing has the pieces of the hold on
  -- its shelf and is SOLD, and no request for a hold of it succeeds.
  pub stranded_stock :
      let db' =
        (release_reservation later r.user_id hold_id (mark_order_paid now order_id db).1).1 in
      (find_unique r.listing_id db'.listings
        ≡ some (record l { quantity = r.quantity; status = ListingStatus.sold }))
      × ((new_id time user_id quantity : ℕ) (res : ReservationResult)
          → (reserve_listing new_id time user_id r.listing_id quantity db').0 ≢ ok res)
  stranded_stock = (
    stranded_row,
    λ new_id time user_id quantity res.
        reserve_listing-sold new_id time user_id r.listing_id quantity
          (record l { quantity = r.quantity; status = ListingStatus.sold }) res
          (release_reservation later r.user_id hold_id (mark_order_paid now order_id db).1).1
          stranded_row refl,
  )
