-- ===== src/Delivery/Deferred/Kept.antt =====
-- A sweep leaves alone what is not due (backend/src/lib/deferredDeliveries.ts).
use kintsugi.Prelude.{
  ℕ, suc, zero, ◌+◌, ◌≡◌, refl, ◌∙◌, inl, inr, Bool, true, false, some, [], ◌∷◌, ltb, ◌==◌,
  contains, arith, Bool-cases, Option-cases,
}
use kintsugi.Prelude.Table.{Table, find_unique, find_many, update_many, ids, IsKeyed}
use kintsugi.Prelude.Table.Lookup.{find_unique-update_ne, contains-ids}
use kintsugi.Delivery.{
  Mail, Delivery, SendAnswer, is_parked, retake, settle, settle_row, redeliver_deferred,
}
use kintsugi.Delivery.Deferred.{
  is_owed, insert_by_time, sort_by_time, drop_delivery, sweep_rows, sweep_deferred_once, is_sms,
  is_sent, add_outcome, add_expired, SweepResult,
}
use kintsugi.Outbox.{take}

insert-contains :
    (k : ℕ) (row : ℕ × Delivery) (t : Table Delivery)
    → (row.0 == k) ≡ false
    → contains k (ids t) ≡ false
    → contains k (ids (insert_by_time row t)) ≡ false
unfolding insert_by_time ids
insert-contains k (j, d) [] other h = ground (arith, other)
insert-contains k (j, d) ((i, x) ∷ t) other h =
    ground (arith, other, h, insert-contains k (j, d) t other (ground (arith, h)))

sort-contains :
    (k : ℕ) (t : Table Delivery)
    → contains k (ids t) ≡ false
    → contains k (ids (sort_by_time t)) ≡ false
unfolding sort_by_time ids
sort-contains k [] h = refl
sort-contains k ((j, d) ∷ t) h =
    insert-contains k (j, d) (sort_by_time t) (ground (arith, h))
      (sort-contains k t (ground (arith, h)))

take-contains :
    (k n : ℕ) (t : Table Delivery)
    → contains k (ids t) ≡ false
    → contains k (ids (take n t)) ≡ false
unfolding ids
take-contains k zero t h = refl
take-contains k (suc n) [] h = refl
take-contains k (suc n) ((j, d) ∷ t) h = ground (arith, h, take-contains k n t)

unselected :
    (k now : ℕ) (d : Delivery) (t : Table Delivery)
    → IsKeyed t
    → find_unique k t ≡ some d
    → is_owed now k d ≡ false
    → contains k (ids (find_many (is_owed now) t)) ≡ false
unfolding find_unique find_many ids
unselected k now d [] keyed e free = refl
unselected k now d ((j, x) ∷ t) keyed e free = elim (Bool-cases (j == k)) [
  | inl here ↦
      let key : j ≡ k = ground (arith, here) in
      let row : x ≡ d = ground (arith, here, e) in
      ground
        (arith, here, key, row, free, contains-ids k (is_owed now) t (ground (arith, key, keyed.0)))
  | inr there ↦
      ground (arith, there, e, unselected k now d t keyed.1 (ground (arith, there, e)) free)
]

retake-keeps :
    (k id now : ℕ) (t : Table Delivery)
    → (id == k) ≡ false
    → find_unique k (update_many (is_parked now id) retake t) ≡ find_unique k t
unfolding find_unique update_many
retake-keeps k id now [] other = refl
retake-keeps k id now ((j, x) ∷ t) other = ground (arith, other, retake-keeps k id now t other)

settle-keeps :
    (k id now : ℕ) (answer : SendAnswer) (db : Mail)
    → (id == k) ≡ false
    → find_unique k (settle now id answer db).deliveries ≡ find_unique k db.deliveries
settle-keeps k id now answer db other =
    find_unique-update_ne k id (settle_row now answer) db.deliveries (ground (arith, other))

redeliver-keeps :
    (k id now : ℕ) (answer : SendAnswer) (db : Mail)
    → (id == k) ≡ false
    → find_unique k (redeliver_deferred now id answer db).1.deliveries ≡ find_unique k db.deliveries
unfolding redeliver_deferred
redeliver-keeps k id now answer db other =
    let t = update_many (is_parked now id) retake db.deliveries in
    ground (
      arith,
      retake-keeps k id now db.deliveries other,
      settle-keeps k id now answer (record db { deliveries = t }) other,
    )

expired-db : (r : SweepResult × Mail) → (add_expired r).1 ≡ r.1
expired-db (r, db) = refl

outcome-db : (b : Bool) (r : SweepResult × Mail) → (add_outcome b r).1 ≡ r.1
outcome-db true (r, db) = refl
outcome-db false (r, db) = refl

module _ (max_age now : ℕ) (notifications : Table ℕ) (answers : ℕ → SendAnswer) where
  rows-keep :
      (k : ℕ) (rows : Table Delivery) (db : Mail)
      → contains k (ids rows) ≡ false
      → find_unique k (sweep_rows max_age now notifications answers rows db).1.deliveries
        ≡ find_unique k db.deliveries
  unfolding sweep_rows ids
  rows-keep k [] db h = refl
  rows-keep k ((id, d) ∷ rows) db h =
      let other : (id == k) ≡ false = ground (arith, h) in
      let later : contains k (ids rows) ≡ false = ground (arith, h) in
      let dropped = drop_delivery now id db in
      let sent = redeliver_deferred now id (answers id) db in
      let sweep = sweep_rows max_age now notifications answers rows in
      let after_drop =
        rows-keep k rows dropped later
        ∙ settle-keeps k id now SendAnswer.nothing_to_deliver_to db other in
      let after_send =
        rows-keep k rows sent.1 later ∙ redeliver-keeps k id now (answers id) db other in
      elim (Bool-cases (ltb (d.created_at + max_age) now)) [
        | inl old ↦ ground (arith, old, after_drop, expired-db (sweep dropped))
        | inr fresh ↦ elim (Bool-cases (is_sms d.channel)) [
          | inr other_channel ↦
              ground (
                arith,
                fresh,
                other_channel,
                rows-keep k rows db later,
                outcome-db false (sweep db),
              )
          | inl sms ↦ elim (Option-cases (find_unique d.notification_id notifications)) [
            | inl gone ↦ ground (arith, fresh, sms, gone, after_drop, expired-db (sweep dropped))
            | inr (user_id, e) ↦
                ground
                  (arith, fresh, sms, e, after_send, outcome-db (is_sent sent.0) (sweep sent.1))
          ]
        ]
      ]

  -- A sweep writes no delivery but those that are deferred and due: one that was sent, suppressed or
  -- given up, one that a worker is sending, and one whose time has not come stay as they are.
  -- Deliveries have distinct keys.
  pub sweep_deferred_once-keeps :
      (k : ℕ) (d : Delivery) (db : Mail)
      → IsKeyed db.deliveries
      → find_unique k db.deliveries ≡ some d
      → is_owed now k d ≡ false
      → find_unique k (sweep_deferred_once max_age now notifications answers db).1.deliveries
        ≡ some d
  unfolding sweep_deferred_once
  sweep_deferred_once-keeps k d db keyed e free =
      rows-keep k (take 100 (sort_by_time (find_many (is_owed now) db.deliveries))) db (
        take-contains k 100 (sort_by_time (find_many (is_owed now) db.deliveries)) (
          sort-contains k (find_many (is_owed now) db.deliveries)
            (unselected k now d db.deliveries keyed e free)))
      ∙ e
