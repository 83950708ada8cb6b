-- ===== src/History.antt =====
-- The stock of a listing over any history of calls on holds and orders that run one after another:
-- each step is one call of backend/src/lib/reservations.ts or backend/src/lib/orders.ts from its
-- first read to its last write, and the two sweeps are sequences of such steps. Calls that overlap
-- are not steps of a history: three of them read a status before they take a lock, and
-- Reservations/Races and Orders/Races have the overlap of two releases.
pub mod Soundness
use kintsugi.Prelude.{ℕ, ◌≡◌, refl, ◌∙◌, false, Option, none, some}
use kintsugi.Prelude.Table.{find_unique}
use kintsugi.Prelude.Text.{Text}
use kintsugi.Schema.{Db, Reservation, OrderStatus}
use kintsugi.Reservations.{reserve_listing, release_reservation, release_hold}
use kintsugi.Reservations.Conservation.{
  reserve_listing-stock, release_reservation-stock, release_hold-stock,
}
use kintsugi.Orders.{
  create_order_from_holds, attach_payment_intent, claim_order_for_payment, unclaim_order,
  mark_order_paid, release_order,
}
use kintsugi.Orders.Checkout.{IsFreshOrder, create_order_from_holds-stock}
use kintsugi.Orders.Conservation.{
  mark_order_paid-stock, release_order-stock, claim_order_for_payment-stock, unclaim_order-stock,
}
use kintsugi.Stock.{stock, keeps_stock}
use Soundness.{
  IsSound, reserve_listing-IsSound, release_reservation-IsSound, release_hold-IsSound,
  create_order_from_holds-IsSound, mark_order_paid-IsSound, release_order-IsSound,
  attach_payment_intent-stock,
}

pub data Step : Db → Db → Type 0 where
  reserves :
      (new_id now user_id listing_id quantity : ℕ) (db : Db)
      → find_unique new_id db.reservations ≡ none
      → Step db (reserve_listing new_id now user_id listing_id quantity db).1
  releases : (now user_id id : ℕ) (db : Db) → Step db (release_reservation now user_id id db).1
  sweeps :
      (now id : ℕ) (hold : Reservation) (db : Db)
      → ((r : Reservation)
          → find_unique id db.reservations ≡ some r
          → r.listing_id ≡ hold.listing_id)
      → Step db (release_hold now (id, hold) db).1
  checks_out :
      (order_id : ℕ) (item_ids : ℕ → ℕ) (reference : Text) (now user_id : ℕ) (address_id : Option ℕ)
      (db : Db)
      → IsFreshOrder order_id db
      → Step db (create_order_from_holds order_id item_ids reference now user_id address_id db).1
  attaches :
      (now order_id : ℕ) (provider : Text) (intent_id : ℕ) (db : Db)
      → Step db (attach_payment_intent now order_id provider intent_id db)
  claims :
      (now user_id order_id : ℕ) (db : Db)
      → Step db (claim_order_for_payment now user_id order_id db).1
  unclaims : (now order_id : ℕ) (db : Db) → Step db (unclaim_order now order_id db)
  pays : (now order_id : ℕ) (db : Db) → Step db (mark_order_paid now order_id db).1
  closes :
      (now order_id : ℕ) (status : OrderStatus) (reason : Option Text) (db : Db)
      → keeps_stock status ≡ false
      → Step db (release_order now order_id status reason db).1

pub data Reach (db : Db) : Db → Type 0 where
  here : Reach db db
  next : {t u : Db} → Reach db t → Step t u → Reach db u

Step-IsSound : (listing_id : ℕ) {t u : Db} → Step t u → IsSound listing_id t → IsSound listing_id u
Step-IsSound k (reserves i now u l q db fresh) h = reserve_listing-IsSound k i now u l q db fresh h
Step-IsSound k (releases now u i db) h = release_reservation-IsSound k now u i db h
Step-IsSound k (sweeps now i hold db agrees) h = release_hold-IsSound k now i hold db h
Step-IsSound k (checks_out i items ref now u a db fresh) h =
    create_order_from_holds-IsSound k i items ref now u a db fresh h
Step-IsSound k (attaches now o p i db) h =
    unfold attach_payment_intent in record { keyed = h.keyed; listed = h.listed }
Step-IsSound k (claims now u o db) h =
    unfold claim_order_for_payment in record { keyed = h.keyed; listed = h.listed }
Step-IsSound k (unclaims now o db) h =
    unfold unclaim_order in record { keyed = h.keyed; listed = h.listed }
Step-IsSound k (pays now o db) h = mark_order_paid-IsSound k now o db h
Step-IsSound k (closes now o s r db off) h = release_order-IsSound k now o s r db h

Step-stock :
    (listing_id : ℕ) {t u : Db}
    → Step t u
    → IsSound listing_id t
    → stock listing_id u ≡ stock listing_id t
Step-stock k (reserves i now u l q db fresh) h = reserve_listing-stock i now u l q k db h.keyed
Step-stock k (releases now u i db) h = release_reservation-stock now u i k db h.keyed
Step-stock k (sweeps now i hold db agrees) h = release_hold-stock now i k hold db h.keyed agrees
Step-stock k (checks_out i items ref now u a db fresh) h =
    create_order_from_holds-stock k i items ref now u a db h.keyed fresh
Step-stock k (attaches now o p i db) h = attach_payment_intent-stock k now o p i db
Step-stock k (claims now u o db) h = claim_order_for_payment-stock now u o k db
Step-stock k (unclaims now o db) h = unclaim_order-stock now o k db
Step-stock k (pays now o db) h = mark_order_paid-stock now o k db
Step-stock k (closes now o s r db off) h = release_order-stock now o k s r db h.listed off

Reach-IsSound :
    (listing_id : ℕ) {s t : Db} → IsSound listing_id s → Reach s t → IsSound listing_id t
Reach-IsSound k h here = h
Reach-IsSound k h (next r st) = Step-IsSound k st (Reach-IsSound k h r)

-- Over any history of reservations, releases, sweeps, checkouts, claims, payments and releases of
-- orders that run one after another, in any order, each from its first read to its last write, the
-- pieces of a listing on the shelf, on hold and in orders add up to what they were. Calls that
-- overlap are not covered. At the start reservations have distinct keys, and the listing is there.
pub Reach-stock :
    (listing_id : ℕ) {s t : Db}
    → IsSound listing_id s
    → Reach s t
    → stock listing_id t ≡ stock listing_id s
Reach-stock k h here = refl
Reach-stock k h (next r st) = Step-stock k st (Reach-IsSound k h r) ∙ Reach-stock k h r
