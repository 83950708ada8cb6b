-- ===== src/Reservations/Conservation.antt =====
-- Holds move stock between the shelf and the holds, and make or lose none.
use kintsugi.Prelude.{
  ℕ, ◌+◌, ◌-◌, ◌≤◌, ◌≡◌, refl, inl, inr, true, false, ◌&&◌, some, [], ◌∷◌, arith, ◌==◌,
  if◌then◌else◌, Option-cases,
}
use kintsugi.Prelude.Table.{Table, find_unique, find_first, find_many, sum_by, IsKeyed}
use kintsugi.Prelude.Table.Lookup.{
  find_unique-update_self, find_unique-update_ne, find_first-by_key, update_many-in_ids,
}
use kintsugi.Prelude.Table.Sums.{sum_by-update, sum_by-update_many, sum_by-create}
use kintsugi.Schema.{Db, Listing, ListingStatus, Reservation, ReservationStatus, is_held}
use kintsugi.Reservations.{
  reserve_listing, release_reservation, release_hold, set_listing, set_reservation, is_expired_hold,
  expire, expired_holds, expire_holds, total_quantity, create_hold, new_hold, restored_status,
}
use kintsugi.Stock.{stock, on_shelf, on_hold, held_weight}

-- What a listing that is held under `listing_id` weighs in another listing's holds.
expired_weight :
    (listing_id other now : ℕ) (t : Table Reservation)
    → sum_by (held_weight other) (find_many (is_expired_hold listing_id now) t) ≡ (
        if listing_id == other
        then sum_by (λ _ r. r.quantity) (find_many (is_expired_hold listing_id now) t)
        else 0)
unfolding sum_by find_many
expired_weight listing_id other now [] = ground arith
expired_weight listing_id other now ((j, r) ∷ t) =
    ground (arith, expired_weight listing_id other now t)

-- Reclaiming takes from the holds of the listing exactly what it reports.
pub on_hold-expire_holds :
    (listing_id other now : ℕ) (db : Db)
    → IsKeyed db.reservations
    → on_hold other (expire_holds now (expired_holds listing_id now db) db)
        + (if listing_id == other then total_quantity (expired_holds listing_id now db) else 0)
      ≡ on_hold other db
on_hold-expire_holds listing_id other now db keyed = ground (
  arith,
  update_many-in_ids (is_expired_hold listing_id now) (expire now) db.reservations keyed,
  expired_weight listing_id other now db.reservations,
  sum_by-update_many (held_weight other) (is_expired_hold listing_id now) (expire now)
      db.reservations (λ j v. ground arith),
)

pub on_shelf-set_listing :
    (listing_id other quantity : ℕ) (status : ListingStatus) (l : Listing) (db : Db)
    → find_unique listing_id db.listings ≡ some l
    → on_shelf other (set_listing listing_id quantity status db)
      ≡ (if listing_id == other then quantity else on_shelf other db)
on_shelf-set_listing listing_id other quantity status l db e = ground (
  arith,
  find_unique-update_self listing_id (λ x. record x { quantity = quantity; status = status })
      db.listings l,
  find_unique-update_ne other listing_id (λ x. record x { quantity = quantity; status = status })
      db.listings,
)

-- A held row that stops being held.
pub on_hold-set_reservation :
    (id other now : ℕ) (status : ReservationStatus) (r : Reservation) (db : Db)
    → is_held status ≡ false
    → is_held r.status ≡ true
    → find_unique id db.reservations ≡ some r
    → on_hold other (set_reservation id status now db)
        + (if r.listing_id == other then r.quantity else 0)
      ≡ on_hold other db
on_hold-set_reservation id other now status r db off held e = ground (
  arith,
  sum_by-update (held_weight other) id (λ x. record x { status = status; released_at = some now })
      db.reservations r e,
)

-- The lock, the read and the two writes of a hold that ends, seen from any listing.
pub hold_ends :
    (id other now : ℕ) (status : ReservationStatus) (to : ListingStatus) (r : Reservation)
    (l : Listing) (db : Db)
    → is_held status ≡ false
    → is_held r.status ≡ true
    → find_unique id db.reservations ≡ some r
    → find_unique r.listing_id db.listings ≡ some l
    → stock other
        (set_listing r.listing_id (l.quantity + r.quantity) to (set_reservation id status now db))
      ≡ stock other db
hold_ends id other now status to r l db off held e le = ground (
  arith,
  on_shelf-set_listing r.listing_id other (l.quantity + r.quantity) to l
      (set_reservation id status now db) le,
  on_hold-set_reservation id other now status r db off held e,
)

-- Letting a hold go makes or loses no piece of any listing, whether it throws or not.
pub release_reservation-stock :
    (now user_id id other : ℕ) (db : Db)
    → IsKeyed db.reservations
    → stock other (release_reservation now user_id id db).1 ≡ stock other db
unfolding release_reservation
release_reservation-stock now user_id id other db keyed =
    elim (Option-cases (find_first (λ i r. i == id && r.user_id == user_id) db.reservations)) [
      | inl missing ↦ ground (arith, missing)
      | inr ((j, r), e) ↦
          let found =
            find_first-by_key id (λ r. r.user_id == user_id) db.reservations j r keyed e in
          elim (Option-cases (find_unique r.listing_id db.listings)) [
            | inl gone ↦ ground (arith, e, gone)
            | inr (l, le) ↦ ground (
              arith,
              e,
              le,
              hold_ends id other now ReservationStatus.released (restored_status l.status) r l db
                  refl,
              found.0,
            )
          ]
    ]

-- One round of the sweep, for a hold whose row still names the same listing.
pub release_hold-stock :
    (now id other : ℕ) (hold : Reservation) (db : Db)
    → IsKeyed db.reservations
    → ((r : Reservation) → find_unique id db.reservations ≡ some r → r.listing_id ≡ hold.listing_id)
    → stock other (release_hold now (id, hold) db).1 ≡ stock other db
unfolding release_hold
release_hold-stock now id other hold db keyed agrees =
    elim (Option-cases (find_first (λ i r. i == id && is_held r.status) db.reservations)) [
      | inl missing ↦ ground (arith, missing)
      | inr ((j, r), e) ↦
          let found = find_first-by_key id (λ r. is_held r.status) db.reservations j r keyed e in
          elim (Option-cases (find_unique hold.listing_id db.listings)) [
            | inl gone ↦ ground (arith, e, gone)
            | inr (l, le) ↦ ground (
              arith,
              e,
              le,
              agrees r found.0,
              hold_ends id other now ReservationStatus.expired (restored_status l.status) r l db
                  refl,
              found.0,
              found.1,
            )
          ]
    ]

-- The two writes of a hold that is placed, after the reclaim.
hold_starts :
    (new_id now user_id listing_id other quantity : ℕ) (to : ListingStatus) (l : Listing) (db : Db)
    → IsKeyed db.reservations
    → find_unique listing_id db.listings ≡ some l
    → let due = expired_holds listing_id now db in
      let available = l.quantity + total_quantity due in
      quantity ≤ available
      → stock other (
          create_hold new_id
            (new_hold now user_id listing_id quantity)
            (set_listing listing_id (available - quantity) to (expire_holds now due db)))
        ≡ stock other db
hold_starts new_id now user_id listing_id other quantity to l db keyed e fits = ground (
  arith,
  on_shelf-set_listing listing_id other
      (l.quantity + total_quantity (expired_holds listing_id now db) - quantity) to l
      (expire_holds now (expired_holds listing_id now db) db) e,
  on_hold-expire_holds listing_id other now db keyed,
  sum_by-create (held_weight other) new_id (new_hold now user_id listing_id quantity)
      (expire_holds now (expired_holds listing_id now db) db).reservations,
)

-- Placing a hold makes or loses no piece of any listing, whether it throws or not.
pub reserve_listing-stock :
    (new_id now user_id listing_id quantity other : ℕ) (db : Db)
    → IsKeyed db.reservations
    → stock other (reserve_listing new_id now user_id listing_id quantity db).1 ≡ stock other db
unfolding reserve_listing
reserve_listing-stock new_id now user_id listing_id quantity other db keyed =
    elim (Option-cases (find_unique listing_id db.listings)) [
      | inl gone ↦ ground (arith, gone)
      | inr (l, e) ↦ ground (
        arith,
        e,
        hold_starts new_id now user_id listing_id other quantity ListingStatus.active l db keyed,
        hold_starts new_id now user_id listing_id other quantity ListingStatus.reserved l db keyed,
      )
    ]
