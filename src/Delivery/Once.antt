-- ===== src/Delivery/Once.antt =====
-- The ledger of deliveries lets one delivery of a notice through (backend/src/lib/deliveryLedger.ts,
-- claimDelivery and deliver).
use kintsugi.Prelude.{
  ℕ, ◌+◌, ◌≤◌, ◌≡◌, refl, ◌∙◌, Bool, true, false, none, some, List, [], ◌∷◌, ◌==◌, if◌then◌else◌,
  arith, is_some, ◌&&◌, ◌||◌, not, inl, inr, Bool-cases,
}
use kintsugi.Prelude.Table.{Table, find_first, update, update_many, create, count}
use kintsugi.Delivery.{
  Mail, Event, Delivery, Status, is_of, Claim, claimed, claim, claim_by, deliver, send_claimed,
  settle, settle_row, is_reclaimable, reclaim_row, reclaim_failed, SendAnswer, accepted,
  nothing_to_deliver_to, permanent, transient, defer_until, new_delivery,
}
use kintsugi.Delivery.Policy.{Channel, should_send, Decision, send, skip, channel_code}

found-update :
    {V : Type 0} (p : ℕ → V → Bool) (id : ℕ) (f : V → V) (t : Table V)
    → ((j : ℕ) (x : V) → p j (f x) ≡ p j x)
    → is_some (find_first p (update id f t)) ≡ is_some (find_first p t)
unfolding find_first update
found-update p id f [] same = refl
found-update p id f ((j, x) ∷ t) same = ground (arith, same j x, found-update p id f t same)

found-create :
    {V : Type 0} (p : ℕ → V → Bool) (id : ℕ) (u : V) (t : Table V)
    → p id u ≡ true
    → is_some (find_first p (create id u t)) ≡ true
unfolding find_first create
found-create p id u [] h = ground (arith, h)
found-create p id u ((j, x) ∷ t) h = ground (arith, found-create p id u t h)

-- The ledger has a row for the event on the channel.
abbrev is_recorded : ℕ → Channel → Mail → Bool
is_recorded event_id c db = is_some (find_first (is_of event_id c) db.deliveries)

settle-is_of :
    (now event_id : ℕ) (c : Channel) (answer : SendAnswer) (j : ℕ) (d : Delivery)
    → is_of event_id c j (settle_row now answer d) ≡ is_of event_id c j d
settle-is_of now event_id c (accepted m) j d = refl
settle-is_of now event_id c nothing_to_deliver_to j d = refl
settle-is_of now event_id c permanent j d = refl
settle-is_of now event_id c transient j d = refl
settle-is_of now event_id c (defer_until t) j d = refl

settle-is_recorded :
    (now event_id id : ℕ) (c : Channel) (answer : SendAnswer) (db : Mail)
    → is_recorded event_id c (settle now id answer db) ≡ is_recorded event_id c db
settle-is_recorded now event_id id c answer db =
    found-update (is_of event_id c) id (settle_row now answer) db.deliveries
      (settle-is_of now event_id c answer)

abbrev is_claimed : Claim → Bool
is_claimed (claimed id) = true
is_claimed _ = false

same_channel : (c : Channel) → (channel_code c == channel_code c) ≡ true
same_channel c = ground arith

found-update_many :
    {V : Type 0} (p q : ℕ → V → Bool) (f : V → V) (t : Table V)
    → ((j : ℕ) (x : V) → p j (f x) ≡ p j x)
    → is_some (find_first p (update_many q f t)) ≡ is_some (find_first p t)
unfolding find_first update_many
found-update_many p q f [] same = refl
found-update_many p q f ((j, x) ∷ t) same = ground (arith, same j x, found-update_many p q f t same)

count-update_zero :
    {V : Type 0} (p : ℕ → V → Bool) (id : ℕ) (f : V → V) (t : Table V)
    → ((j : ℕ) (x : V) → p j x ≡ false → p j (f x) ≡ false)
    → count p t ≡ 0
    → count p (update id f t) ≡ 0
unfolding count update
count-update_zero p id f [] stays none_ = refl
count-update_zero p id f ((j, x) ∷ t) stays none_ = elim (Bool-cases (p j x)) [
  | inl here ↦ absurd (ground (arith, here, none_))
  | inr away ↦ ground (
    arith,
    away,
    none_,
    stays j x away,
    count-update_zero p id f t stays (ground (arith, away, none_)),
  )
]

count-create :
    {V : Type 0} (p : ℕ → V → Bool) (id : ℕ) (u : V) (t : Table V)
    → p id u ≡ false
    → count p (create id u t) ≡ count p t
unfolding count create
count-create p id u [] h = ground (arith, h)
count-create p id u ((j, x) ∷ t) h = ground (arith, count-create p id u t h)

none_reclaimable :
    (event_id : ℕ) (c : Channel) (t : Table Delivery)
    → is_some (find_first (is_of event_id c) t) ≡ false
    → count (is_reclaimable event_id c) t ≡ 0
unfolding find_first count
none_reclaimable event_id c [] h = refl
none_reclaimable event_id c ((j, d) ∷ t) h = elim (Bool-cases (is_of event_id c j d)) [
  | inl here ↦ absurd (ground (arith, here, h))
  | inr away ↦ ground (arith, away, none_reclaimable event_id c t (ground (arith, away, h)))
]

all_reclaimed :
    (event_id : ℕ) (c : Channel) (t : Table Delivery)
    → count (is_reclaimable event_id c) (update_many (is_reclaimable event_id c) reclaim_row t) ≡ 0
unfolding count update_many
all_reclaimed event_id c [] = refl
all_reclaimed event_id c ((j, d) ∷ t) = ground (arith, all_reclaimed event_id c t)

-- How many rows of the event on the channel are open to the ladder.
abbrev failures : ℕ → Channel → Mail → ℕ
failures event_id c db = count (is_reclaimable event_id c) db.deliveries

-- After a claim, won or lost, the row is there.
claim_by-is_recorded :
    (d : Decision) (new_id now : ℕ) (event : Event) (c : Channel) (reclaim : Bool) (db : Mail)
    → is_recorded event.event_id c (claim_by d new_id now event c reclaim db).1 ≡ true
unfolding claim_by reclaim_failed
claim_by-is_recorded (skip why) new_id now event c reclaim db = ground (
  arith,
  found-create (is_of event.event_id c) new_id
      (new_delivery now event c Status.suppressed 0 (some now)) db.deliveries
      (ground (arith, same_channel c)),
)
claim_by-is_recorded send new_id now event c reclaim db = ground (
  arith,
  found-update_many (is_of event.event_id c) (is_reclaimable event.event_id c) reclaim_row
      db.deliveries (λ j x. refl),
  found-create (is_of event.event_id c) new_id (new_delivery now event c Status.pending 1 none)
      db.deliveries (ground (arith, same_channel c)),
)

-- A claim that is won leaves no failed attempt that another could take over.
claim_by-failures :
    (d : Decision) (new_id now : ℕ) (event : Event) (c : Channel) (reclaim : Bool) (db : Mail)
    → is_claimed (claim_by d new_id now event c reclaim db).0 ≡ true
    → failures event.event_id c (claim_by d new_id now event c reclaim db).1 ≡ 0
unfolding claim_by reclaim_failed
claim_by-failures (skip why) new_id now event c reclaim db won = absurd (ground (arith, won))
claim_by-failures send new_id now event c reclaim db won =
    elim (Bool-cases (is_recorded event.event_id c db)) [
      | inl there ↦ ground (arith, there, won, all_reclaimed event.event_id c db.deliveries)
      | inr away ↦ ground (
        arith,
        away,
        none_reclaimable event.event_id c db.deliveries away,
        count-create (is_reclaimable event.event_id c) new_id
            (new_delivery now event c Status.pending 1 none) db.deliveries (ground arith),
      )
    ]

-- Where the row is there and no attempt failed, no claim is won, and that stays so.
claim_by-lost :
    (d : Decision) (new_id now : ℕ) (event : Event) (c : Channel) (reclaim : Bool) (db : Mail)
    → is_recorded event.event_id c db ≡ true
    → failures event.event_id c db ≡ 0
    → (is_claimed (claim_by d new_id now event c reclaim db).0 ≡ false)
      × (failures event.event_id c (claim_by d new_id now event c reclaim db).1 ≡ 0)
unfolding claim_by reclaim_failed
claim_by-lost (skip why) new_id now event c reclaim db h none_ =
    (ground (arith, h), ground (arith, h, none_))
claim_by-lost send new_id now event c reclaim db h none_ = (
  ground (arith, h, none_),
  ground (arith, h, none_, all_reclaimed event.event_id c db.deliveries),
)

-- What counts as a delivery of the notice: the channel was asked, and did not fail.
abbrev pub is_failure : SendAnswer → Bool
is_failure permanent = true
is_failure transient = true
is_failure _ = false

settle_row-stays :
    (now event_id : ℕ) (c : Channel) (answer : SendAnswer) (j : ℕ) (d : Delivery)
    → is_failure answer ≡ false
    → is_reclaimable event_id c j d ≡ false
    → is_reclaimable event_id c j (settle_row now answer d) ≡ false
settle_row-stays now event_id c (accepted m) j d ok_ h = ground arith
settle_row-stays now event_id c nothing_to_deliver_to j d ok_ h = ground arith
settle_row-stays now event_id c permanent j d ok_ h = absurd (ground (arith, ok_))
settle_row-stays now event_id c transient j d ok_ h = absurd (ground (arith, ok_))
settle_row-stays now event_id c (defer_until t) j d ok_ h = ground arith

send_claimed-is_recorded :
    (now event_id : ℕ) (c : Channel) (answer : SendAnswer) (r : Claim) (db : Mail)
    → is_recorded event_id c (send_claimed now answer (r, db)).1 ≡ is_recorded event_id c db
send_claimed-is_recorded now event_id c answer (claimed id) db =
    settle-is_recorded now event_id id c answer db
send_claimed-is_recorded now event_id c answer Claim.duplicate db = refl
send_claimed-is_recorded now event_id c answer Claim.suppressed db = refl
send_claimed-is_recorded now event_id c answer Claim.error db = refl

-- An answer that is no failure opens no attempt to the ladder, and nothing is written where no claim
-- was won.
send_claimed-failures :
    (now event_id : ℕ) (c : Channel) (answer : SendAnswer) (r : Claim) (db : Mail)
    → (is_claimed r && is_failure answer) ≡ false
    → failures event_id c db ≡ 0
    → failures event_id c (send_claimed now answer (r, db)).1 ≡ 0
send_claimed-failures now event_id c answer (claimed id) db ok_ none_ =
    count-update_zero (is_reclaimable event_id c) id (settle_row now answer) db.deliveries
      (λ j x. settle_row-stays now event_id c answer j x (ground (arith, ok_))) none_
send_claimed-failures now event_id c answer Claim.duplicate db ok_ none_ = none_
send_claimed-failures now event_id c answer Claim.suppressed db ok_ none_ = none_
send_claimed-failures now event_id c answer Claim.error db ok_ none_ = none_

-- One event handed to one channel any number of times, by the main topic or by the ladder, which may
-- take over an attempt that failed: each time with the key of its row, its time, the channel's answer
-- and whether it comes from the ladder. How often the channel was asked and did not fail.
unfoldable pub deliveries : Event → Channel → List (ℕ × ℕ × SendAnswer × Bool) → Mail → ℕ
deliveries event c [] db = 0
deliveries event c ((new_id, now, answer, reclaim) ∷ handled) db =
    (if is_claimed (claim new_id now event c reclaim db).0 && not (is_failure answer) then 1 else 0)
    + deliveries event c handled (deliver new_id now event c answer reclaim db).1

-- How often the channel was asked after an attempt that did not fail; `delivered` says whether there
-- was one already.
unfoldable pub asked_again : Event → Channel → Bool → List (ℕ × ℕ × SendAnswer × Bool) → Mail → ℕ
asked_again event c delivered [] db = 0
asked_again event c delivered ((new_id, now, answer, reclaim) ∷ handled) db =
    let won = is_claimed (claim new_id now event c reclaim db).0 in
    (if won && delivered then 1 else 0)
    + asked_again event c (delivered || (won && not (is_failure answer))) handled
        (deliver new_id now event c answer reclaim db).1

deliver-is_recorded :
    (new_id now : ℕ) (event : Event) (c : Channel) (answer : SendAnswer) (reclaim : Bool)
    (db : Mail)
    → is_recorded event.event_id c (deliver new_id now event c answer reclaim db).1 ≡ true
unfolding deliver claim
deliver-is_recorded new_id now event c answer reclaim db =
    let d = should_send event.user_id event.type c db.preferences in
    let r = claim_by d new_id now event c reclaim db in
    send_claimed-is_recorded now event.event_id c answer r.0 r.1
    ∙ claim_by-is_recorded d new_id now event c reclaim db

deliveries-none :
    (event : Event) (c : Channel) (handled : List (ℕ × ℕ × SendAnswer × Bool)) (db : Mail)
    → is_recorded event.event_id c db ≡ true
    → failures event.event_id c db ≡ 0
    → deliveries event c handled db ≡ 0
unfolding deliveries claim deliver
deliveries-none event c [] db h none_ = refl
deliveries-none event c ((new_id, now, answer, reclaim) ∷ handled) db h none_ =
    let d = should_send event.user_id event.type c db.preferences in
    let r = claim_by d new_id now event c reclaim db in
    let (lost, kept) = claim_by-lost d new_id now event c reclaim db h none_ in
    let rest =
      deliveries-none event c handled (deliver new_id now event c answer reclaim db).1
        (deliver-is_recorded new_id now event c answer reclaim db)
        (send_claimed-failures now event.event_id c answer r.0 r.1 (ground (arith, lost)) kept) in
    ground (arith, lost, rest)

asked_again-none :
    (event : Event) (c : Channel) (handled : List (ℕ × ℕ × SendAnswer × Bool)) (db : Mail)
    → is_recorded event.event_id c db ≡ true
    → failures event.event_id c db ≡ 0
    → asked_again event c true handled db ≡ 0
unfolding asked_again claim deliver
asked_again-none event c [] db h none_ = refl
asked_again-none event c ((new_id, now, answer, reclaim) ∷ handled) db h none_ =
    let d = should_send event.user_id event.type c db.preferences in
    let r = claim_by d new_id now event c reclaim db in
    let (lost, kept) = claim_by-lost d new_id now event c reclaim db h none_ in
    let rest =
      asked_again-none event c handled (deliver new_id now event c answer reclaim db).1
        (deliver-is_recorded new_id now event c answer reclaim db)
        (send_claimed-failures now event.event_id c answer r.0 r.1 (ground (arith, lost)) kept) in
    ground (arith, lost, rest)

-- A notice is delivered once: however often an event is handed to a channel, by the main topic or by
-- the ladder of retries, and from any state of the ledger, at most one of the attempts at which the
-- channel is asked to send is answered without a failure, and after that one the channel is not
-- asked again, whatever it would answer.
pub deliveries-le-one :
    (event : Event) (c : Channel) (handled : List (ℕ × ℕ × SendAnswer × Bool)) (db : Mail)
    → (deliveries event c handled db ≤ 1) × (asked_again event c false handled db ≡ 0)
unfolding deliveries asked_again claim deliver
deliveries-le-one event c [] db = (omega arith, refl)
deliveries-le-one event c ((new_id, now, answer, reclaim) ∷ handled) db =
    let d = should_send event.user_id event.type c db.preferences in
    let r = claim_by d new_id now event c reclaim db in
    let after = (deliver new_id now event c answer reclaim db).1 in
    elim (Bool-cases (is_claimed r.0 && not (is_failure answer))) [
      | inl won ↦
          let open_ =
            send_claimed-failures now event.event_id c answer r.0 r.1 (ground (arith, won))
              (claim_by-failures d new_id now event c reclaim db (ground (arith, won))) in
          let there = deliver-is_recorded new_id now event c answer reclaim db in
          (
            ground (arith, deliveries-none event c handled after there open_),
            ground (arith, won, asked_again-none event c handled after there open_),
          )
      | inr lost ↦
          let (once, never) = deliveries-le-one event c handled after in
          (ground (arith, lost, once), ground (arith, lost, never))
    ]
