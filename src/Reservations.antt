-- ===== src/Reservations.antt =====
-- Stock holds (backend/src/lib/reservations.ts). A transaction that holds the row lock of a listing
-- is one step: the lock makes the transactions on one listing serial. Times and the keys that the
-- database mints are arguments.
pub mod Conservation
pub mod Sweep
pub mod Races
pub mod Single
use kintsugi.Prelude.{
  ℕ, ◌+◌, ◌-◌, ◌*◌, Bool, true, false, not, ◌&&◌, Option, none, some, [], ◌∷◌, ltb, leb, ◌==◌,
  if◌then◌else◌, is_some, is_none,
}
use mathlib.Core.Option
use kintsugi.Prelude.Table.{
  Table, find_unique, find_first, find_many, update, update_many, create, sum_by, in_ids,
}
use kintsugi.Prelude.Action.{
  Action, ok, pure, gets, or_throw, throw_if, modify, transaction, ◌>>=◌, ◌>>◌, invalid_quantity,
  not_found, own_listing, already_held, unavailable, insufficient_stock, not_held,
}
use kintsugi.Schema.{
  Db, Listing, ListingStatus, Reservation, ReservationStatus, SellerProfile, is_held,
}

-- Fifteen minutes, in milliseconds.
abbrev pub reservation_ttl_ms : ℕ
reservation_ttl_ms = 15 * 60 * 1000

-- `SELECT … FOR UPDATE`
unfoldable pub lock_listing : ℕ → Db → Option Listing
lock_listing listing_id db = find_unique listing_id db.listings

abbrev pub set_listing : ℕ → ℕ → ListingStatus → Db → Db
set_listing listing_id quantity status db = record db {
  listings = update listing_id (λ l. record l { quantity = quantity; status = status }) db.listings;
}

abbrev pub set_reservation : ℕ → ReservationStatus → ℕ → Db → Db
set_reservation id status now db = record db {
  reservations =
      update id (λ r. record r { status = status; released_at = some now }) db.reservations;
}

-- A held row of a listing whose time is up.
abbrev pub is_expired_hold : ℕ → ℕ → ℕ → Reservation → Bool
is_expired_hold listing_id now id r =
    r.listing_id == listing_id && (is_held r.status && leb r.expires_at now)

abbrev pub expire : ℕ → Reservation → Reservation
expire now r = record r { status = ReservationStatus.expired; released_at = some now }

abbrev pub expired_holds : ℕ → ℕ → Db → Table Reservation
expired_holds listing_id now db = find_many (is_expired_hold listing_id now) db.reservations

abbrev pub expire_holds : ℕ → Table Reservation → Db → Db
expire_holds now due db = record db {
  reservations = update_many (in_ids due) (expire now) db.reservations;
}

abbrev pub total_quantity : Table Reservation → ℕ
total_quantity = sum_by (λ _ r. r.quantity)

-- The early return on no row is the same: no write, and an empty sum.
unfoldable pub reclaim_expired : ℕ → ℕ → Action Db ℕ
reclaim_expired listing_id now db =
    let due = expired_holds listing_id now db in (ok (total_quantity due), expire_holds now due db)

abbrev pub new_hold : ℕ → ℕ → ℕ → ℕ → Reservation
new_hold now user_id listing_id quantity = record {
  listing_id = listing_id;
  user_id = user_id;
  quantity = quantity;
  status = ReservationStatus.held;
  expires_at = now + reservation_ttl_ms;
  released_at = none;
}

abbrev pub create_hold : ℕ → Reservation → Db → Db
create_hold new_id r db = record db { reservations = create new_id r db.reservations }

abbrev pub is_hold_of : ℕ → ℕ → ℕ → Reservation → Bool
is_hold_of user_id listing_id id r =
    r.listing_id == listing_id && (r.user_id == user_id && is_held r.status)

-- `if (!listing || listing.deletedAt !== null)`
abbrev pub present : Option Listing → Option Listing
present none = none
present (some l) = if is_none l.deleted_at then some l else none

abbrev pub is_owner : ℕ → Option SellerProfile → Bool
is_owner user_id none = false
is_owner user_id (some s) = s.user_id == user_id

-- ACTIVE and RESERVED both mean "listed for sale".
abbrev pub is_for_sale : ListingStatus → Bool
is_for_sale ListingStatus.active = true
is_for_sale ListingStatus.reserved = true
is_for_sale _ = false

abbrev pub is_sold : ListingStatus → Bool
is_sold ListingStatus.sold = true
is_sold _ = false

pub record ReservationResult : Type 0 where
  pub id : ℕ
  pub listing_id : ℕ
  pub quantity : ℕ
  pub expires_at : ℕ
  pub remaining_quantity : ℕ

unfoldable pub reserve_listing : ℕ → ℕ → ℕ → ℕ → ℕ → Action Db ReservationResult
unfolding lock_listing reclaim_expired
reserve_listing new_id now user_id listing_id quantity = do
  throw_if (ltb quantity 1) invalid_quantity 400
  transaction (do
    listing ← or_throw (present (← gets (lock_listing listing_id))) not_found 404
    owner ← gets (λ db. find_unique listing.seller_id db.sellers)
    throw_if (is_owner user_id owner) own_listing 400
    reclaimed ← reclaim_expired listing_id now
    let available = listing.quantity + reclaimed
    existing ← gets (λ db. find_first (is_hold_of user_id listing_id) db.reservations)
    throw_if (is_some existing) already_held 409
    throw_if (is_sold listing.status) unavailable 409
    throw_if (not (is_for_sale listing.status)) unavailable 409
    throw_if (ltb available quantity) insufficient_stock 409
    let remaining = available - quantity
    modify (
        set_listing listing_id remaining
          (if remaining == 0 then ListingStatus.reserved else ListingStatus.active))
    modify (create_hold new_id (new_hold now user_id listing_id quantity))
    pure (record {
      id = new_id;
      listing_id = listing_id;
      quantity = quantity;
      expires_at = now + reservation_ttl_ms;
      remaining_quantity = remaining;
    }))

-- What the transaction reads before it takes the lock of the listing.
unfoldable pub read_hold : ℕ → ℕ → Action Db Reservation
read_hold user_id reservation_id = do
  found ←
      gets (λ db. find_first (λ id r. id == reservation_id && r.user_id == user_id) db.reservations)
  reservation ← or_throw (Option.map (λ row. row.1) found) not_found 404
  throw_if (not (is_held reservation.status)) not_held 409
  pure reservation

-- Returning stock makes a listing buyable again, unless it has since sold.
abbrev pub restored_status : ListingStatus → ListingStatus
restored_status ListingStatus.sold = ListingStatus.sold
restored_status _ = ListingStatus.active

-- What it does under the lock, with the row that it read before.
unfoldable pub return_hold : ℕ → ℕ → Reservation → Action Db (Unit {0})
unfolding lock_listing
return_hold now reservation_id reservation = do
  locked ← gets (lock_listing reservation.listing_id)
  listing ← or_throw locked not_found 404
  modify (set_reservation reservation_id ReservationStatus.released now)
  modify (
      set_listing reservation.listing_id (listing.quantity + reservation.quantity)
        (restored_status listing.status))

unfoldable pub release_reservation : ℕ → ℕ → ℕ → Action Db (Unit {0})
unfolding read_hold return_hold
release_reservation now user_id reservation_id =
    transaction (do
      reservation ← read_hold user_id reservation_id
      return_hold now reservation_id reservation)

abbrev pub is_live_hold_of : ℕ → ℕ → ℕ → Reservation → Bool
is_live_hold_of user_id now id r =
    r.user_id == user_id && (is_held r.status && ltb now r.expires_at)

unfoldable pub list_my_reservations : ℕ → ℕ → Db → Table Reservation
list_my_reservations now user_id db = find_many (is_live_hold_of user_id now) db.reservations

abbrev pub is_due : ℕ → ℕ → Reservation → Bool
is_due now id r = is_held r.status && leb r.expires_at now

-- One round of the sweep: a transaction on the listing of one hold that was due when the sweep
-- began. The result is the number of holds that it released.
unfoldable pub release_hold : ℕ → ℕ × Reservation → Db → ℕ × Db
unfolding lock_listing
release_hold now (id, hold) db = elim (lock_listing hold.listing_id db) [
  | none ↦ (0, db)
  | some listing ↦ elim (find_first (λ i r. i == id && is_held r.status) db.reservations) [
    | none ↦ (0, db)
    | some (_, still) ↦ (
      1,
      set_listing hold.listing_id (listing.quantity + still.quantity)
          (restored_status listing.status) (set_reservation id ReservationStatus.expired now db),
    )
  ]
]

unfoldable pub release_holds : ℕ → Table Reservation → ℕ → Db → ℕ × Db
release_holds now [] released db = (released, db)
release_holds now (hold ∷ holds) released db =
    let (n, db') = release_hold now hold db in release_holds now holds (released + n) db'

unfoldable pub release_expired_holds : ℕ → Db → ℕ × Db
release_expired_holds now db = release_holds now (find_many (is_due now) db.reservations) 0 db
