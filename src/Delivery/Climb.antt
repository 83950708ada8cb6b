-- ===== src/Delivery/Climb.antt =====
-- A message climbs the ladder to its end (backend/src/worker.ts and backend/src/lib/retry.ts).
use kintsugi.Prelude.{
  ℕ, zero, suc, ◌+◌, ◌<◌, ◌≡◌, ◌≢◌, refl, ◌⊎◌, inl, inr, true, false, Option, none, some, ltb,
  arith, Bool-cases,
}
use kintsugi.Delivery.{Event, Mail, Outcome, SendAnswer, deliver}
use kintsugi.Delivery.Ladder.{
  Message, Consumer, Disposition, committed, republished, unfinished, each_message, handle, route,
  climb, retry_destination, is_retry_topic, delay_for, is_dlq, republish, is_foreign,
}

-- A message that is read as soon as it may be is committed or put one rung further.
abbrev IsMoved : Consumer → Message → Disposition × Mail → Type 0
IsMoved consumer m r =
    ((d : Mail) × (r ≡ (committed, d)))
    ⊎ ((event : Event) × (d : Mail) × (r ≡ (
      republished (
          republish (m.timestamp + delay_for m.topic) consumer.group event
            (retry_destination m.attempt)),
      d,
    )))

route-IsMoved :
    (consumer : Consumer) (m : Message) (event : Event) (o : Outcome) (db : Mail)
    → IsMoved consumer m (route consumer (m.timestamp + delay_for m.topic) m event (o, db))
route-IsMoved consumer m event Outcome.retry db = inr (event, db, refl)
route-IsMoved consumer m event Outcome.sent db = inl (db, refl)
route-IsMoved consumer m event Outcome.duplicate db = inl (db, refl)
route-IsMoved consumer m event Outcome.suppressed db = inl (db, refl)
route-IsMoved consumer m event Outcome.failed db = inl (db, refl)
route-IsMoved consumer m event Outcome.deferred db = inl (db, refl)

handle-IsMoved :
    (consumer : Consumer) (new_id : ℕ) (answer : SendAnswer) (m : Message) (e : Option Event)
    (db : Mail)
    → IsMoved consumer m (handle consumer new_id (m.timestamp + delay_for m.topic) answer m e db)
unfolding handle
handle-IsMoved consumer new_id answer m none db = inl (db, refl)
handle-IsMoved consumer new_id answer m (some event) db =
    let (o, d) =
      deliver new_id (m.timestamp + delay_for m.topic) event consumer.channel answer
        (is_retry_topic m.topic) db in
    route-IsMoved consumer m event o d

each_message-IsMoved :
    (consumer : Consumer) (new_id : ℕ) (answer : SendAnswer) (m : Message) (db : Mail)
    → IsMoved consumer m
        (each_message consumer new_id (m.timestamp + delay_for m.topic) answer m db)
unfolding each_message
each_message-IsMoved consumer new_id answer m db =
    elim (Bool-cases (is_foreign consumer.group m.group)) [
      | inl foreign ↦ inl (db, ground (arith, foreign))
      | inr own ↦
          let ready : ltb (m.timestamp + delay_for m.topic) (m.timestamp + delay_for m.topic)
              ≡ false =
            ground arith in
          elim (handle-IsMoved consumer new_id answer m m.event db) [
            | inl (d, e) ↦ inl (d, ground (arith, own, ready, e))
            | inr (event, d, e) ↦ inr (event, d, ground (arith, own, ready, e))
          ]
    ]

-- The rung after the last one is the dead-letter topic.
retry_destination-dlq :
    (attempt : ℕ)
    → (is_dlq (retry_destination attempt).topic ≡ true)
      ⊎ ((is_dlq (retry_destination attempt).topic ≡ false)
          × ((retry_destination attempt).attempt ≡ attempt + 1)
          × (attempt < 3))
unfolding retry_destination
retry_destination-dlq zero = inr (refl, refl, omega arith)
retry_destination-dlq (suc zero) = inr (refl, refl, omega arith)
retry_destination-dlq (suc (suc zero)) = inr (refl, refl, omega arith)
retry_destination-dlq (suc (suc (suc n))) = inl refl

-- Every message comes to an end, whatever the channel answers at each attempt and whatever the
-- ledger holds: when each copy of it is read as soon as its delay has passed, it is settled or in the
-- dead-letter topic within as many rounds as it has rungs left, and one more. Four rounds are enough
-- for a new message.
pub climb-ends :
    (rounds : ℕ) (consumer : Consumer) (new_id : ℕ) (answers : ℕ → SendAnswer) (m : Message)
    (db : Mail)
    → 0 < rounds
    → 3 < m.attempt + rounds
    → (climb rounds consumer new_id answers m db).0 ≢ unfinished
unfolding climb
climb-ends zero consumer new_id answers m db some_left enough h = absurd (omega (arith, some_left))
climb-ends (suc rounds) consumer new_id answers m db some_left enough h =
    elim (each_message-IsMoved consumer new_id (answers m.attempt) m db) [
      | inl (d, e) ↦ ground (arith, e, h)
      | inr (event, d, e) ↦ elim (retry_destination-dlq m.attempt) [
        | inl last ↦ ground (arith, e, last, h)
        | inr (more, next, low) ↦
            let m' =
              republish (m.timestamp + delay_for m.topic) consumer.group event
                (retry_destination m.attempt) in
            climb-ends rounds consumer new_id answers m' d (omega (arith, enough, low))
              (ground (arith, next, enough)) (ground (arith, e, more, h))
      ]
    ]
