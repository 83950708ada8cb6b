-- ===== src/Delivery.antt =====
-- The delivery ledger (backend/src/lib/deliveryLedger.ts): what was sent, on which channel, and what
-- came back. What a channel does when it sends is an argument; the texts of reasons and of errors
-- are left out.
pub mod Policy
pub mod Once
pub mod Ladder
pub mod Climb
pub mod Deferred
use kintsugi.Prelude.{
  ℕ, ◌+◌, Bool, true, false, not, ◌&&◌, Option, none, some, leb, ◌==◌, if◌then◌else◌, is_some,
}
use kintsugi.Prelude.Table.{Table, find_first, update, update_many, create, count}
use kintsugi.Delivery.Policy.{
  Channel, NoticeType, Preference, channel_code, should_send, Decision, Reason, send, skip,
}

pub data Status : Type 0 where
  pending sent failed suppressed deferred : Status

pub record Delivery : Type 0 where
  pub event_id : ℕ
  pub channel : Channel
  pub user_id : ℕ
  pub notification_id : ℕ
  pub status : Status
  pub attempts : ℕ
  pub provider_message_id : Option ℕ
  pub not_before : Option ℕ
  pub completed_at : Option ℕ
  pub created_at : ℕ

pub record Mail : Type 0 where
  pub preferences : Table Preference
  pub deliveries : Table Delivery

pub record Event : Type 0 where
  pub event_id : ℕ
  pub type : NoticeType
  pub user_id : ℕ
  pub notification_id : ℕ

-- The unique index on event and channel.
abbrev pub is_of : ℕ → Channel → ℕ → Delivery → Bool
is_of event_id c _ d = d.event_id == event_id && channel_code d.channel == channel_code c

abbrev pub is_failed : Status → Bool
is_failed failed = true
is_failed _ = false

abbrev pub is_deferred : Status → Bool
is_deferred deferred = true
is_deferred _ = false

pub data Claim : Type 0 where
  claimed : ℕ → Claim
  duplicate suppressed error : Claim

abbrev pub new_delivery : ℕ → Event → Channel → Status → ℕ → Option ℕ → Delivery
new_delivery now event c status attempts completed_at = record {
  event_id = event.event_id;
  channel = c;
  user_id = event.user_id;
  notification_id = event.notification_id;
  status = status;
  attempts = attempts;
  provider_message_id = none;
  not_before = none;
  completed_at = completed_at;
  created_at = now;
}

abbrev pub insert_delivery : ℕ → Delivery → Mail → Mail
insert_delivery id d db = record db { deliveries = create id d db.deliveries }

abbrev pub is_reclaimable : ℕ → Channel → ℕ → Delivery → Bool
is_reclaimable event_id c id d = is_of event_id c id d && is_failed d.status

abbrev pub reclaim_row : Delivery → Delivery
reclaim_row d = record d { status = pending; attempts = d.attempts + 1; completed_at = none }

abbrev pub found_claim : Option (ℕ × Delivery) → Claim
found_claim none = error
found_claim (some (id, d)) = claimed id

-- One conditional UPDATE takes over an attempt that failed.
unfoldable pub reclaim_failed : Event → Channel → Mail → Claim × Mail
reclaim_failed event c db =
    let taken = count (is_reclaimable event.event_id c) db.deliveries in
    let rows = update_many (is_reclaimable event.event_id c) reclaim_row db.deliveries in
    (
      (if taken == 1 then found_claim (find_first (is_of event.event_id c) rows) else duplicate),
      record db { deliveries = rows },
    )

-- The insertion is the claim.
unfoldable pub claim_by : Decision → ℕ → ℕ → Event → Channel → Bool → Mail → Claim × Mail
unfolding reclaim_failed
claim_by (skip why) new_id now event c reclaim db =
    if is_some (find_first (is_of event.event_id c) db.deliveries)
    then (Claim.suppressed, db)
    else (
      Claim.suppressed,
      insert_delivery new_id (new_delivery now event c Status.suppressed 0 (some now)) db,
    )
claim_by send new_id now event c reclaim db =
    if is_some (find_first (is_of event.event_id c) db.deliveries)
    then (if reclaim then reclaim_failed event c db else (duplicate, db))
    else (claimed new_id, insert_delivery new_id (new_delivery now event c pending 1 none) db)

unfoldable pub claim : ℕ → ℕ → Event → Channel → Bool → Mail → Claim × Mail
unfolding claim_by
claim new_id now event c reclaim db =
    claim_by (should_send event.user_id event.type c db.preferences) new_id now event c reclaim db

-- What a channel's `send` answers, or throws.
pub data SendAnswer : Type 0 where
  accepted : Option ℕ → SendAnswer
  nothing_to_deliver_to permanent transient : SendAnswer
  defer_until : ℕ → SendAnswer

abbrev pub settle_row : ℕ → SendAnswer → Delivery → Delivery
settle_row now (accepted message_id) d = record d {
  status = sent;
  provider_message_id = message_id;
  not_before = none;
  completed_at = some now;
}
settle_row now nothing_to_deliver_to d = record d {
  status = Status.suppressed;
  not_before = none;
  completed_at = some now;
}
settle_row now (defer_until t) d = record d {
  status = deferred;
  not_before = some t;
  completed_at = none;
}
settle_row now permanent d = record d {
  status = failed;
  not_before = none;
  completed_at = some now;
}
settle_row now transient d = record d {
  status = failed;
  not_before = none;
  completed_at = some now;
}

pub data Outcome : Type 0 where
  sent duplicate suppressed failed retry deferred : Outcome

abbrev pub outcome_of : SendAnswer → Outcome
outcome_of (accepted message_id) = Outcome.sent
outcome_of nothing_to_deliver_to = Outcome.suppressed
outcome_of (defer_until t) = Outcome.deferred
outcome_of permanent = Outcome.failed
outcome_of transient = Outcome.retry

abbrev pub settle : ℕ → ℕ → SendAnswer → Mail → Mail
settle now id answer db = record db { deliveries = update id (settle_row now answer) db.deliveries }

-- The send is made where the claim is won, and its answer is written on the claimed row.
abbrev pub send_claimed : ℕ → SendAnswer → Claim × Mail → Outcome × Mail
send_claimed now answer (claimed id, db) = (outcome_of answer, settle now id answer db)
send_claimed now answer (Claim.suppressed, db) = (Outcome.suppressed, db)
send_claimed now answer (Claim.duplicate, db) = (Outcome.duplicate, db)
send_claimed now answer (error, db) = (Outcome.duplicate, db)

unfoldable pub deliver : ℕ → ℕ → Event → Channel → SendAnswer → Bool → Mail → Outcome × Mail
unfolding claim
deliver new_id now event c answer reclaim db =
    send_claimed now answer (claim new_id now event c reclaim db)

abbrev pub is_due : ℕ → Option ℕ → Bool
is_due now none = false
is_due now (some t) = leb t now

abbrev pub is_parked : ℕ → ℕ → ℕ → Delivery → Bool
is_parked now id k d = k == id && (is_deferred d.status && is_due now d.not_before)

abbrev pub retake : Delivery → Delivery
retake d = record d { status = pending; attempts = d.attempts + 1 }

-- The conditional UPDATE is the claim of a parked delivery.
unfoldable pub redeliver_deferred : ℕ → ℕ → SendAnswer → Mail → Outcome × Mail
redeliver_deferred now id answer db =
    let taken = record db { deliveries = update_many (is_parked now id) retake db.deliveries } in
    if count (is_parked now id) db.deliveries == 1
    then (outcome_of answer, settle now id answer taken)
    else (Outcome.duplicate, taken)
