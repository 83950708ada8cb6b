-- ===== src/Delivery/Deferred/Resent.antt =====
-- A parked text is sent once, and what is not parked is left alone
-- (backend/src/lib/deferredDeliveries.ts and backend/src/lib/deliveryLedger.ts).
use kintsugi.Prelude.{
  ℕ, ◌+◌, ◌≤◌, ◌≡◌, refl, inl, inr, Bool, true, false, ◌&&◌, some, List, [], ◌∷◌, ◌==◌,
  if◌then◌else◌, arith, Bool-cases,
}
use kintsugi.Prelude.Table.{find_unique, update_many, count, IsKeyed}
use kintsugi.Prelude.Table.Lookup.{
  count-by_key, find_unique-update, find_unique-update_many, update-IsKeyed, update_many-IsKeyed,
}
use kintsugi.Delivery.{
  Mail, Delivery, SendAnswer, accepted, nothing_to_deliver_to, permanent, transient, defer_until,
  is_deferred, is_due, is_parked, retake, settle_row, redeliver_deferred,
}

abbrev pub is_final : SendAnswer → Bool
is_final (defer_until t) = false
is_final _ = true

-- Redeliveries of one row, each with its time and the answer; how many of them asked the service and
-- were not put off again.
unfoldable pub resends : ℕ → List (ℕ × SendAnswer) → Mail → ℕ
unfolding redeliver_deferred
resends id [] db = 0
resends id ((now, answer) ∷ rest) db =
    (if count (is_parked now id) db.deliveries == 1 && is_final answer then 1 else 0)
    + resends id rest (redeliver_deferred now id answer db).1

redeliver-row :
    (now id : ℕ) (answer : SendAnswer) (d : Delivery) (db : Mail)
    → IsKeyed db.deliveries
    → find_unique id db.deliveries ≡ some d
    → find_unique id (redeliver_deferred now id answer db).1.deliveries
      ≡ some (
          if is_deferred d.status && is_due now d.not_before
          then settle_row now answer (retake d)
          else d)
unfolding redeliver_deferred
redeliver-row now id answer d db keyed e =
    let one =
      count-by_key id (λ x. is_deferred x.status && is_due now x.not_before) db.deliveries d keyed
        e in
    let moved = find_unique-update_many id (is_parked now id) retake db.deliveries d e in
    let t = update_many (is_parked now id) retake db.deliveries in
    elim (Bool-cases (is_deferred d.status && is_due now d.not_before)) [
      | inl due ↦
          let here : find_unique id t ≡ some (retake d) = ground (arith, moved, due) in
          ground (
            arith,
            one,
            due,
            here,
            find_unique-update id id (settle_row now answer) t (retake d) here,
          )
      | inr not_due ↦ ground (arith, one, not_due, moved)
    ]

redeliver-IsKeyed :
    (now id : ℕ) (answer : SendAnswer) (db : Mail)
    → IsKeyed db.deliveries
    → IsKeyed (redeliver_deferred now id answer db).1.deliveries
unfolding redeliver_deferred
redeliver-IsKeyed now id answer db keyed =
    let t = update_many (is_parked now id) retake db.deliveries in
    let kept = update_many-IsKeyed (is_parked now id) retake db.deliveries keyed in
    ground (arith, kept, update-IsKeyed id (settle_row now answer) t kept)

final-status :
    (now : ℕ) (answer : SendAnswer) (d : Delivery)
    → is_final answer ≡ true
    → is_deferred (settle_row now answer d).status ≡ false
final-status now (accepted m) d h = refl
final-status now nothing_to_deliver_to d h = refl
final-status now permanent d h = refl
final-status now transient d h = refl
final-status now (defer_until t) d h = absurd (ground (arith, h))

-- A row that is not parked is asked for no more.
unparked-resends :
    (id : ℕ) (handled : List (ℕ × SendAnswer)) (d : Delivery) (db : Mail)
    → IsKeyed db.deliveries
    → find_unique id db.deliveries ≡ some d
    → is_deferred d.status ≡ false
    → resends id handled db ≡ 0
unfolding resends
unparked-resends id [] d db keyed e free = refl
unparked-resends id ((now, answer) ∷ rest) d db keyed e free =
    let one =
      count-by_key id (λ x. is_deferred x.status && is_due now x.not_before) db.deliveries d keyed
        e in
    let row = redeliver-row now id answer d db keyed e in
    ground (
      arith,
      free,
      one,
      unparked-resends id rest d (redeliver_deferred now id answer db).1
          (redeliver-IsKeyed now id answer db keyed) (ground (arith, row, free)) free,
    )

-- A parked delivery is sent once: of any number of redeliveries, by any number of sweepers and at any
-- times, at most one asks the text service and is not put off to a later hour. It is so whatever the
-- answer is, so a text that then fails for a reason that may pass is not tried again. Deliveries
-- have distinct keys.
pub resends-le-one :
    (id : ℕ) (handled : List (ℕ × SendAnswer)) (d : Delivery) (db : Mail)
    → IsKeyed db.deliveries
    → find_unique id db.deliveries ≡ some d
    → resends id handled db ≤ 1
unfolding resends
resends-le-one id [] d db keyed e = omega arith
resends-le-one id ((now, answer) ∷ rest) d db keyed e =
    let db' = (redeliver_deferred now id answer db).1 in
    let keyed' = redeliver-IsKeyed now id answer db keyed in
    let one =
      count-by_key id (λ x. is_deferred x.status && is_due now x.not_before) db.deliveries d keyed
        e in
    let row = redeliver-row now id answer d db keyed e in
    elim (Bool-cases (is_deferred d.status && is_due now d.not_before)) [
      | inr not_due ↦
          ground (
            arith,
            one,
            not_due,
            resends-le-one id rest d db' keyed' (ground (arith, row, not_due)),
          )
      | inl due ↦
          let next : find_unique id db'.deliveries ≡ some (settle_row now answer (retake d)) =
            ground (arith, row, due) in
          elim (Bool-cases (is_final answer)) [
            | inl final ↦ ground (
              arith,
              one,
              due,
              final,
              unparked-resends id rest (settle_row now answer (retake d)) db' keyed' next
                  (final-status now answer (retake d) final),
            )
            | inr put_off ↦ ground (
              arith,
              one,
              due,
              put_off,
              resends-le-one id rest (settle_row now answer (retake d)) db' keyed' next,
            )
          ]
    ]
