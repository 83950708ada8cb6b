-- ===== src/Reservations/Races.antt =====
-- Interleavings in which a hold is let go: two releases of one hold, and a release after a sale.
use kintsugi.Prelude.{
  ℕ, ◌+◌, ◌≡◌, refl, ap, ◌∙◌, inl, inr, true, false, ◌&&◌, some, arith, ◌==◌, Option-cases,
}
use kintsugi.Prelude.Table.{find_unique, find_first, IsKeyed}
use kintsugi.Prelude.Table.Lookup.{find_unique-update_self, find_first-by_key}
use kintsugi.Prelude.Table.Sums.{sum_by-update}
use kintsugi.Prelude.Action.{ok}
use kintsugi.Schema.{Db, Listing, Reservation, ReservationStatus, is_held}
use kintsugi.Reservations.{read_hold, return_hold, set_listing, set_reservation, restored_status}
use kintsugi.Reservations.Conservation.{on_shelf-set_listing, hold_ends}
use kintsugi.Stock.{stock, held_weight}

abbrev let_go : ℕ → Reservation → Reservation
let_go now r = record r { status = ReservationStatus.released; released_at = some now }

-- What a successful read says of the row.
read_row :
    (user_id id : ℕ) (r : Reservation) (db : Db)
    → IsKeyed db.reservations
    → read_hold user_id id db ≡ (ok r, db)
    → (find_unique id db.reservations ≡ some r) × (is_held r.status ≡ true)
unfolding read_hold
read_row user_id id r db keyed read =
    elim (Option-cases (find_first (λ i x. i == id && x.user_id == user_id) db.reservations)) [
      | inl missing ↦ absurd (ground (arith, missing, read))
      | inr ((j, x), e) ↦
          let found =
            find_first-by_key id (λ y. y.user_id == user_id) db.reservations j x keyed e in
          ground (arith, e, read, found.0)
    ]

-- The lock and the two writes of a release, on a listing that is there.
returned :
    (now id : ℕ) (r : Reservation) (l : Listing) (db : Db)
    → find_unique r.listing_id db.listings ≡ some l
    → return_hold now id r db ≡ (
      ok tt,
      set_listing r.listing_id
          (l.quantity + r.quantity)
          (restored_status l.status)
          (set_reservation id ReservationStatus.released now db),
    )
unfolding return_hold
returned now id r l db e = ground (arith, e)

-- A release of a row that is no longer held adds the pieces once more.
returned_again :
    (later id : ℕ) (r u : Reservation) (l : Listing) (db : Db)
    → find_unique id db.reservations ≡ some u
    → is_held u.status ≡ false
    → find_unique r.listing_id db.listings ≡ some l
    → stock r.listing_id (return_hold later id r db).1 ≡ stock r.listing_id db + r.quantity
returned_again later id r u l db eu off e = rw (returned later id r l db e) (
    ground (
      arith,
      off,
      e,
      on_shelf-set_listing r.listing_id r.listing_id (l.quantity + r.quantity)
          (restored_status l.status) l (set_reservation id ReservationStatus.released later db) e,
      sum_by-update (held_weight r.listing_id) id (let_go later) db.reservations u eu,
    ))

-- Two releases of one hold that both read it before either takes the lock of the listing: each puts
-- the pieces back, so the listing ends with more stock than there is, by the pieces of the hold.
-- Reservations have distinct keys, and the listing exists.
pub return_hold_twice :
    (now later user_id id : ℕ) (r : Reservation) (l : Listing) (db : Db)
    → IsKeyed db.reservations
    → read_hold user_id id db ≡ (ok r, db)
    → find_unique r.listing_id db.listings ≡ some l
    → stock r.listing_id (return_hold later id r (return_hold now id r db).1).1
      ≡ stock r.listing_id db + r.quantity
return_hold_twice now later user_id id r l db keyed read e =
    let (found, held) = read_row user_id id r db keyed read in
    let l' : Listing = record l {
      quantity = l.quantity + r.quantity;
      status = restored_status l.status;
    } in
    rw (returned now id r l db e) (
      returned_again later id r (let_go now r) l'
        (set_listing r.listing_id (l.quantity + r.quantity) (restored_status l.status)
          (set_reservation id ReservationStatus.released now db))
        (find_unique-update_self id (let_go now) db.reservations r found) refl
        (find_unique-update_self r.listing_id
          (λ x. record x { quantity = l.quantity + r.quantity; status = restored_status l.status })
          db.listings l e)
      ∙ ap (λ (n : ℕ). n + r.quantity)
          (hold_ends id r.listing_id now ReservationStatus.released (restored_status l.status) r l
            db refl held found e))
