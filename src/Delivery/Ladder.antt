-- ===== src/Delivery/Ladder.antt =====
-- The retry ladder (backend/src/lib/retry.ts, with the topics of backend/src/lib/kafka.ts) and the
-- worker that reads it (backend/src/worker.ts). Kafka and the encoding of messages are left out: a
-- message carries its headers as values, and an event that cannot be decoded is none.
use kintsugi.Prelude.{
  ℕ, zero, suc, ◌+◌, Bool, true, false, not, ◌&&◌, Option, none, some, List, [], ◌∷◌, ltb, ◌==◌,
  if◌then◌else◌,
}
use kintsugi.Delivery.{Event, Mail, Outcome, SendAnswer, deliver}
use kintsugi.Delivery.Policy.{Channel}

pub data Topic : Type 0 where
  main retry_5s retry_1m retry_15m dlq : Topic

pub record Rung : Type 0 where
  pub topic : Topic
  pub delay_ms : ℕ

abbrev pub retry_ladder : List Rung
retry_ladder =
    record { topic = retry_5s; delay_ms = 5000 }
    ∷ record { topic = retry_1m; delay_ms = 60000 }
    ∷ record { topic = retry_15m; delay_ms = 900000 }
    ∷ []

abbrev pub topic_code : Topic → ℕ
topic_code main = 0
topic_code retry_5s = 1
topic_code retry_1m = 2
topic_code retry_15m = 3
topic_code dlq = 4

abbrev pub find_rung : List Rung → Topic → Option Rung
find_rung [] topic = none
find_rung (rung ∷ rungs) topic =
    if topic_code rung.topic == topic_code topic then some rung else find_rung rungs topic

abbrev pub has_rung : Option Rung → Bool
has_rung none = false
has_rung (some rung) = true

unfoldable pub is_retry_topic : Topic → Bool
is_retry_topic topic = has_rung (find_rung retry_ladder topic)

abbrev pub rung_delay : Option Rung → ℕ
rung_delay none = 0
rung_delay (some rung) = rung.delay_ms

unfoldable pub delay_for : Topic → ℕ
delay_for topic = rung_delay (find_rung retry_ladder topic)

abbrev pub get_elem? : List Rung → ℕ → Option Rung
get_elem? [] i = none
get_elem? (rung ∷ rungs) zero = some rung
get_elem? (rung ∷ rungs) (suc i) = get_elem? rungs i

pub record Destination : Type 0 where
  pub topic : Topic
  pub delay_ms : ℕ
  pub attempt : ℕ

abbrev pub next_rung : ℕ → Option Rung → Destination
next_rung attempt none = record { topic = dlq; delay_ms = 0; attempt = attempt }
next_rung attempt (some rung) = record {
  topic = rung.topic;
  delay_ms = rung.delay_ms;
  attempt = attempt + 1;
}

unfoldable pub retry_destination : ℕ → Destination
retry_destination attempt = next_rung attempt (get_elem? retry_ladder attempt)

-- `attempt` is what `attemptOf` reads in the headers: 0 where they say nothing.
pub record Message : Type 0 where
  pub topic : Topic
  pub timestamp : ℕ
  pub group : Option ℕ
  pub attempt : ℕ
  pub event : Option Event

pub record Consumer : Type 0 where
  pub group : ℕ
  pub channel : Channel

-- A message for another group, which this one leaves.
abbrev pub is_foreign : ℕ → Option ℕ → Bool
is_foreign group none = false
is_foreign group (some g) = not (g == group)

abbrev pub republish : ℕ → ℕ → Event → Destination → Message
republish now group event d = record {
  topic = d.topic;
  timestamp = now;
  group = some group;
  attempt = d.attempt;
  event = some event;
}

pub data Disposition : Type 0 where
  committed : Disposition
  waiting : ℕ → Disposition
  republished : Message → Disposition

abbrev pub route : Consumer → ℕ → Message → Event → Outcome × Mail → Disposition × Mail
route consumer now m event (Outcome.retry, db) =
    (republished (republish now consumer.group event (retry_destination m.attempt)), db)
route consumer now m event (_, db) = (committed, db)

unfoldable pub handle :
    Consumer → ℕ → ℕ → SendAnswer → Message → Option Event → Mail → Disposition × Mail
handle consumer new_id now answer m none db = (committed, db)
handle consumer new_id now answer m (some event) db =
    route consumer now m event
      (deliver new_id now event consumer.channel answer (is_retry_topic m.topic) db)

unfoldable pub each_message : Consumer → ℕ → ℕ → SendAnswer → Message → Mail → Disposition × Mail
unfolding handle
each_message consumer new_id now answer m db =
    if is_foreign consumer.group m.group
    then (committed, db)
    else (if is_retry_topic m.topic && ltb now (m.timestamp + delay_for m.topic)
        then (waiting (m.timestamp + delay_for m.topic), db)
        else handle consumer new_id now answer m m.event db)

-- What becomes of a message, when each of its copies is read as soon as it may be.
pub data Fate : Type 0 where
  settled unfinished : Fate
  dead : Message → Fate

abbrev pub is_dlq : Topic → Bool
is_dlq dlq = true
is_dlq _ = false

unfoldable pub climb : ℕ → Consumer → ℕ → (ℕ → SendAnswer) → Message → Mail → Fate × Mail
climb zero consumer new_id answers m db = (unfinished, db)
climb (suc rounds) consumer new_id answers m db =
    let now = m.timestamp + delay_for m.topic in
    let (disposition, db') = each_message consumer new_id now (answers m.attempt) m db in
    elim disposition [
      | committed ↦ (settled, db')
      | waiting t ↦ (unfinished, db')
      | republished m' ↦ elim (is_dlq m'.topic) [
        | true ↦ (dead m', db')
        | false ↦ climb rounds consumer new_id answers m' db'
      ]
    ]
