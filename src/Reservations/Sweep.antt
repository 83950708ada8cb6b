-- ===== src/Reservations/Sweep.antt =====
-- The sweep of expired holds: what it conserves, and that it leaves no hold past its time.
use kintsugi.Prelude.{
  ℕ, ◌+◌, ◌≡◌, refl, ◌∙◌, inl, inr, Bool, true, false, ◌&&◌, some, [], ◌∷◌, arith, ◌==◌,
  Option-cases, Bool-cases, ◌⊎◌, is_some, contains, ==_refl,
}
use kintsugi.Prelude.Table.{Table, find_unique, find_first, find_many, ids, update, IsKeyed}
use kintsugi.Prelude.Table.Lookup.{
  find_first-by_key, find_first-none, is_some-update, find_unique-update_inv, update-IsKeyed,
  contains-ids,
}
use kintsugi.Schema.{Db, Listing, Reservation, ReservationStatus, is_held}
use kintsugi.Reservations.{
  release_hold, release_holds, release_expired_holds, is_due, set_reservation, set_listing,
  restored_status,
}
use kintsugi.Reservations.Conservation.{release_hold-stock}
use kintsugi.Stock.{stock}

-- The rows of a query name the listing that the table has for their key.
abbrev pub Agrees : Table Reservation → Table Reservation → Type 0
Agrees t [] = Unit
Agrees t ((j, r) ∷ rows) =
    ((v : Reservation) → find_unique j t ≡ some v → v.listing_id ≡ r.listing_id) × Agrees t rows

Agrees-cons :
    (i : ℕ) (x : Reservation) (t rows : Table Reservation)
    → contains i (ids rows) ≡ false
    → Agrees t rows
    → Agrees ((i, x) ∷ t) rows
unfolding ids find_unique
Agrees-cons i x t [] absent h = tt
Agrees-cons i x t ((j, r) ∷ rows) absent h =
    (λ v e. ground (arith, h.0 v), Agrees-cons i x t rows (ground arith) h.1)

Agrees-find_many :
    (p : ℕ → Reservation → Bool) (t : Table Reservation) → IsKeyed t → Agrees t (find_many p t)
unfolding find_many find_unique
Agrees-find_many p [] h = tt
Agrees-find_many p ((j, r) ∷ t) h = elim (Bool-cases (p j r)) [
  | inl hit ↦ rw hit (
    (λ v e. ground (arith, ==_refl j)),
    Agrees-cons j r t (find_many p t) (contains-ids j p t h.0) (Agrees-find_many p t h.1),
  )
  | inr miss ↦
      rw miss
        (Agrees-cons j r t (find_many p t) (contains-ids j p t h.0) (Agrees-find_many p t h.1))
]

abbrev released_row : ℕ → Reservation → Reservation
released_row now x = record x { status = ReservationStatus.expired; released_at = some now }

Agrees-update :
    (id now : ℕ) (rows t : Table Reservation)
    → Agrees t rows
    → Agrees (update id (released_row now) t) rows
Agrees-update id now [] t h = tt
Agrees-update id now ((j, r) ∷ rows) t h = (
  λ v e.
      let (u, eu, ev) = find_unique-update_inv j id (released_row now) t v e in
      ground (arith, h.0 u eu, ev),
  Agrees-update id now rows t h.1,
)

-- A round finds the row no longer held (or its listing gone), or ends the hold.
release_hold-cases :
    (now id : ℕ) (hold : Reservation) (db : Db)
    → IsKeyed db.reservations
    → ((release_hold now (id, hold) db ≡ (0, db))
        × ((r : Reservation)
            → find_unique id db.reservations ≡ some r
            → is_some (find_unique hold.listing_id db.listings) ≡ true
            → is_held r.status ≡ false))
      ⊎ ((r : Reservation) × (l : Listing) × (find_unique id db.reservations ≡ some r)
          × (is_held r.status ≡ true)
          × (release_hold now (id, hold) db ≡ (
            1,
            set_listing hold.listing_id
                (l.quantity + r.quantity)
                (restored_status l.status)
                (set_reservation id ReservationStatus.expired now db),
          )))
unfolding release_hold
release_hold-cases now id hold db keyed =
    elim (Option-cases (find_first (λ i r. i == id && is_held r.status) db.reservations)) [
      | inl missing ↦ inl (
        ground (arith, missing),
        λ r e _. find_first-none id (λ x. is_held x.status) db.reservations r missing e,
      )
      | inr ((j, r), e) ↦
          let found = find_first-by_key id (λ x. is_held x.status) db.reservations j r keyed e in
          elim (Option-cases (find_unique hold.listing_id db.listings)) [
            | inl gone ↦ inl (ground (arith, e, gone), λ r' _ some_listing. ground (arith, gone))
            | inr (l, le) ↦ inr (r, l, found.0, found.1, ground (arith, e, le))
          ]
    ]

-- What the sweep needs of the holds that it has still to look at.
record IsPending (now : ℕ) (holds : Table Reservation) (db : Db) : Type 0 where
  keyed : IsKeyed db.reservations
  agrees : Agrees db.reservations holds
  linked :
      (j : ℕ) (v : Reservation)
      → find_unique j db.reservations ≡ some v
      → is_some (find_unique v.listing_id db.listings) ≡ true
  covered :
      (j : ℕ) (v : Reservation)
      → find_unique j db.reservations ≡ some v
      → is_due now j v ≡ true
      → contains j (ids holds) ≡ true

-- The rest of the holds after one round.
IsPending-next :
    (now id : ℕ) (hold : Reservation) (holds : Table Reservation) (db : Db)
    → IsPending now ((id, hold) ∷ holds) db
    → IsPending now holds (release_hold now (id, hold) db).1
unfolding ids
IsPending-next now id hold holds db h = elim (release_hold-cases now id hold db h.keyed) [
  | inl (same, idle) ↦ rw same (record {
    keyed = h.keyed;
    agrees = h.agrees.1;
    linked = h.linked;
    covered =
        λ j v e due. ground (arith, h.covered j v e due, h.linked j v e, h.agrees.0 v, idle v, e);
  })
  | inr (r, l, found, held, next) ↦ rw next (record {
    keyed = update-IsKeyed id (released_row now) db.reservations h.keyed;
    agrees = Agrees-update id now holds db.reservations h.agrees.1;
    linked = λ j v e.
        let (u, eu, ev) = find_unique-update_inv j id (released_row now) db.reservations v e in
        ground (
          arith,
          h.linked j u eu,
          ev,
          is_some-update v.listing_id hold.listing_id
              (λ x. record x {
                quantity = l.quantity + r.quantity;
                status = restored_status l.status;
              })
              db.listings,
        );
    covered = λ j v e due.
        let (u, eu, ev) = find_unique-update_inv j id (released_row now) db.reservations v e in
        ground (arith, h.covered j u eu, ev, due);
  })
]

release_holds-IsPending :
    (now released : ℕ) (holds : Table Reservation) (db : Db)
    → IsPending now holds db
    → (j : ℕ) (v : Reservation)
    → find_unique j (release_holds now holds released db).1.reservations ≡ some v
    → is_due now j v ≡ false
unfolding release_holds ids
release_holds-IsPending now released [] db h j v e = ground (arith, h.covered j v e)
release_holds-IsPending now released ((id, hold) ∷ holds) db h j v e =
    let (n, db') = release_hold now (id, hold) db in
    release_holds-IsPending now (released + n) holds db' (IsPending-next now id hold holds db h) j v
      e

release_holds-stock :
    (now released other : ℕ) (holds : Table Reservation) (db : Db)
    → IsPending now holds db
    → stock other (release_holds now holds released db).1 ≡ stock other db
unfolding release_holds
release_holds-stock now released other [] db h = refl
release_holds-stock now released other ((id, hold) ∷ holds) db h =
    let (n, db') = release_hold now (id, hold) db in
    release_holds-stock now (released + n) other holds db' (IsPending-next now id hold holds db h)
    ∙ release_hold-stock now id other hold db h.keyed h.agrees.0

-- Every row names a listing that is there: the foreign key of the table.
abbrev pub IsLinked : Db → Type 0
IsLinked db =
    (j : ℕ) (v : Reservation)
    → find_unique j db.reservations ≡ some v
    → is_some (find_unique v.listing_id db.listings) ≡ true

contains-find_many :
    (p : ℕ → Reservation → Bool) (t : Table Reservation) (j : ℕ) (v : Reservation)
    → find_unique j t ≡ some v
    → p j v ≡ true
    → contains j (ids (find_many p t)) ≡ true
unfolding find_many find_unique ids
contains-find_many p [] j v e h = cc
contains-find_many p ((i, x) ∷ t) j v e h = ground (arith, contains-find_many p t j v, ==_refl j, h)

IsPending-start :
    (now : ℕ) (db : Db)
    → IsKeyed db.reservations
    → IsLinked db
    → IsPending now (find_many (is_due now) db.reservations) db
IsPending-start now db keyed linked = record {
  keyed = keyed;
  agrees = Agrees-find_many (is_due now) db.reservations keyed;
  linked = linked;
  covered = contains-find_many (is_due now) db.reservations;
}

-- The listing of every reservation exists.
unfoldable pub links : Table Listing → Table Reservation → Bool
links listings [] = true
links listings ((j, v) ∷ t) = is_some (find_unique v.listing_id listings) && links listings t

links-found :
    (listings : Table Listing) (t : Table Reservation) (j : ℕ) (v : Reservation)
    → links listings t ≡ true
    → find_unique j t ≡ some v
    → is_some (find_unique v.listing_id listings) ≡ true
unfolding links find_unique
links-found listings [] j v h e = absurd (ground (arith, e))
links-found listings ((i, x) ∷ t) j v h e = ground (arith, h, e, links-found listings t j v)

links-IsLinked : (db : Db) → links db.listings db.reservations ≡ true → IsLinked db
links-IsLinked db h j v e = links-found db.listings db.reservations j v h e

-- After the sweep no hold is held past its time, whatever the table held before. Reservations have
-- distinct keys, and their listings exist.
pub release_expired_holds-clear :
    (now : ℕ) (db : Db) (j : ℕ) (v : Reservation)
    → IsKeyed db.reservations
    → links db.listings db.reservations ≡ true
    → find_unique j (release_expired_holds now db).1.reservations ≡ some v
    → is_due now j v ≡ false
unfolding release_expired_holds
release_expired_holds-clear now db j v keyed linked =
    release_holds-IsPending now 0 (find_many (is_due now) db.reservations) db
      (IsPending-start now db keyed (links-IsLinked db linked)) j v

-- The sweep makes or loses no piece of any listing: what is on the shelf, on hold and in orders adds
-- up to the same number. Reservations have distinct keys, and their listings exist.
pub release_expired_holds-stock :
    (now other : ℕ) (db : Db)
    → IsKeyed db.reservations
    → links db.listings db.reservations ≡ true
    → stock other (release_expired_holds now db).1 ≡ stock other db
unfolding release_expired_holds
release_expired_holds-stock now other db keyed linked =
    release_holds-stock now 0 other (find_many (is_due now) db.reservations) db
      (IsPending-start now db keyed (links-IsLinked db linked))
