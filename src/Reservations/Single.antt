-- ===== src/Reservations/Single.antt =====
-- A buyer has at most one hold of a listing at a time.
use kintsugi.Prelude.{ℕ, ◌+◌, ◌≤◌, ◌≡◌, refl, Bool, none, [], ◌∷◌, arith, if◌then◌else◌}
use kintsugi.Prelude.Table.{Table, find_first, update_many, create, count, in_ids}
use kintsugi.Schema.{Db, Reservation}
use kintsugi.Reservations.{reserve_listing, is_hold_of, expire, new_hold, expired_holds}

abbrev pub HasSingleHolds : Db → Type 0
HasSingleHolds db =
    (user_id listing_id : ℕ) → count (is_hold_of user_id listing_id) db.reservations ≤ 1

count-expire :
    (user_id listing_id now : ℕ) (p : ℕ → Reservation → Bool) (t : Table Reservation)
    → count (is_hold_of user_id listing_id) (update_many p (expire now) t)
      ≤ count (is_hold_of user_id listing_id) t
unfolding count update_many
count-expire user_id listing_id now p [] = omega arith
count-expire user_id listing_id now p ((j, r) ∷ t) =
    ground (arith, count-expire user_id listing_id now p t)

count-no_hold :
    (user_id listing_id : ℕ) (t : Table Reservation)
    → find_first (is_hold_of user_id listing_id) t ≡ none
    → count (is_hold_of user_id listing_id) t ≡ 0
unfolding count find_first
count-no_hold user_id listing_id [] h = refl
count-no_hold user_id listing_id ((j, r) ∷ t) h = ground (arith, count-no_hold user_id listing_id t)

count-create :
    (p : ℕ → Reservation → Bool) (k : ℕ) (r : Reservation) (t : Table Reservation)
    → count p (create k r t) ≡ count p t + (if p k r then 1 else 0)
unfolding count create
count-create p k r [] = ground arith
count-create p k r ((j, x) ∷ t) = omega (arith, count-create p k r t)

-- A request for a hold keeps it so that no buyer has two live holds of one listing, whether it
-- succeeds or not.
pub reserve_listing-HasSingleHolds :
    (new_id now user_id listing_id quantity : ℕ) (db : Db)
    → HasSingleHolds db
    → HasSingleHolds (reserve_listing new_id now user_id listing_id quantity db).1
unfolding reserve_listing
reserve_listing-HasSingleHolds new_id now user_id listing_id quantity db single u k =
    let due = expired_holds listing_id now db in
    let t = update_many (in_ids due) (expire now) db.reservations in
    ground (
      arith,
      single u k,
      count-expire u k now (in_ids due) db.reservations,
      count-no_hold user_id listing_id t,
      count-create (is_hold_of u k) new_id (new_hold now user_id listing_id quantity) t,
    )
