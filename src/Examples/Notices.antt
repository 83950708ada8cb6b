-- ===== src/Examples/Notices.antt =====
-- The theorems on notices at small queues and ledgers.
use kintsugi.Prelude.{
  ℕ, Bool, List, ◌/◌, ◌%◌, ◌+◌, ◌*◌, ◌≤◌, ◌≡◌, ◌≢◌, refl, true, false, none, some, [], ◌∷◌, arith,
}
use kintsugi.Prelude.Table.{find_many, find_unique}
use kintsugi.Prelude.Text.{text, trim, trim_start, is_space}
use kintsugi.Phone.{
  Parsed, to_e164, check_empty, check_plus, check_digits, check_length, clean, all_digits,
}
use kintsugi.Phone.Canonical.{to_e164_twice}
use kintsugi.Quiet.{
  configured, parse_window, parse_hh_mm, read_clock, split, minutes_now, quiet_hours_now,
}
use kintsugi.Quiet.Window.{quiet_hours_now-opens}
use kintsugi.Delivery.{Event, Mail, Delivery, Status, SendAnswer}
use kintsugi.Delivery.Policy.{Channel, NoticeType}
use kintsugi.Delivery.Once.{deliveries, asked_again, deliveries-le-one}
use kintsugi.Delivery.Ladder.{Message, Consumer, Topic, Fate, climb}
use kintsugi.Delivery.Climb.{climb-ends}
use kintsugi.Delivery.Deferred.{sweep_deferred_once}
use kintsugi.Delivery.Deferred.Resent.{resends, resends-le-one}
use kintsugi.Delivery.Deferred.Kept.{sweep_deferred_once-keeps}
use kintsugi.Outbox.{Outbox, accepted, drain, new_row, to_events}
use kintsugi.Outbox.Pending.{pending_rows}
use kintsugi.Outbox.Queue.{Operation, run, view, run-Step, Step}
use kintsugi.Outbox.Drain.{drain-empties}

to_e164_twice_example : to_e164 (text "+442079460958") ≡ Parsed.valid (text "+442079460958")
unfolding to_e164 check_empty check_plus check_digits check_length clean all_digits trim trim_start
    is_space
to_e164_twice_example = to_e164_twice (text " 0044 (20) 7946-0958") (text "+442079460958") refl

-- A clock that shows 23:00 at the start, in the default window, 22:00 to 08:00.
abbrev wall_clock : ℕ → ℕ
wall_clock at = (1380 + at / 60000) % 1440

wall_clock-steady :
    (k : ℕ)
    → 0 + k * 60000 ≤ 32400000
    → minutes_now (λ z at. none) wall_clock none (0 + k * 60000)
      ≡ (minutes_now (λ z at. none) wall_clock none 0 + k) % 1440
unfolding minutes_now
wall_clock-steady k h = ground arith

quiet_hours_now-opens_example :
    ((quiet_hours_now none none (λ z at. none) wall_clock 32400000).in_window ≡ false)
    × ((quiet_hours_now none none (λ z at. none) wall_clock (0 + 3 * 60000)).in_window ≡ true)
unfolding quiet_hours_now configured parse_window parse_hh_mm read_clock split minutes_now trim
    trim_start is_space
quiet_hours_now-opens_example =
    quiet_hours_now-opens none none (λ z at. none) wall_clock 0 1320 480 32400000 3 refl
      (omega arith) refl wall_clock-steady (omega arith)

abbrev refund_event : Event
refund_event = record {
  event_id = 900;
  type = NoticeType.refund_issued;
  user_id = 20;
  notification_id = 901;
}

abbrev sale_event : Event
sale_event = record refund_event { event_id = 902; type = NoticeType.sale_made }

abbrev mail : Mail
mail = record { preferences = []; deliveries = [] }

-- The main topic's attempt fails, the ladder's is accepted, and the message comes once more.
abbrev handed_over : List (ℕ × ℕ × SendAnswer × Bool)
handed_over =
    (1, 10, SendAnswer.transient, false)
    ∷ (2, 20, SendAnswer.accepted none, true)
    ∷ (3, 30, SendAnswer.accepted none, true)
    ∷ []

deliveries-le-one_example :
    (deliveries refund_event Channel.email handed_over mail ≤ 1)
    × (asked_again refund_event Channel.email false handed_over mail ≡ 0)
deliveries-le-one_example = deliveries-le-one refund_event Channel.email handed_over mail

abbrev mailer : Consumer
mailer = record { group = 1; channel = Channel.email }

abbrev first_try : Message
first_try = record {
  topic = Topic.main;
  timestamp = 100;
  group = none;
  attempt = 0;
  event = some refund_event;
}

climb-ends_example :
    (climb 4 mailer 1 (λ n. SendAnswer.transient) first_try mail).0 ≢ Fate.unfinished
climb-ends_example =
    climb-ends 4 mailer 1 (λ n. SendAnswer.transient) first_try mail (omega arith) (omega arith)

abbrev box : Outbox
box = record { rows = (1, new_row 10 refund_event) ∷ (2, new_row 11 sale_event) ∷ []; log = [] }

run-Step_example :
    Step
      (Operation.relays 1 20 accepted)
      (view box)
      (view (run (Operation.relays 1 20 accepted) box))
unfolding find_unique
run-Step_example = run-Step (Operation.relays 1 20 accepted) box (refl, (refl, tt))

drain-empties_example :
    ((drain 1 20 (λ n. accepted) 3 box).0 ≡ some 2)
    × (view (drain 1 20 (λ n. accepted) 3 box).1
        ≡ record { pending = []; handed = refund_event ∷ sale_event ∷ [] })
unfolding find_unique view pending_rows to_events find_many
drain-empties_example = drain-empties 1 20 3 box (refl, (refl, tt)) (omega arith) (omega arith)

abbrev parked : Delivery
parked = record {
  event_id = 900;
  channel = Channel.sms;
  user_id = 20;
  notification_id = 901;
  status = Status.deferred;
  attempts = 1;
  provider_message_id = none;
  not_before = some 100;
  completed_at = none;
  created_at = 50;
}

abbrev delivered : Delivery
delivered = record parked { event_id = 902; status = Status.sent; not_before = none }

abbrev ledger : Mail
ledger = record { preferences = []; deliveries = (80, parked) ∷ (81, delivered) ∷ [] }

resends-le-one_example :
    resends 80 ((100, SendAnswer.transient) ∷ (101, SendAnswer.accepted none) ∷ []) ledger ≤ 1
unfolding find_unique
resends-le-one_example =
    resends-le-one 80 ((100, SendAnswer.transient) ∷ (101, SendAnswer.accepted none) ∷ []) parked
      ledger (refl, (refl, tt)) refl

sweep_deferred_once-keeps_example :
    find_unique 81
      (sweep_deferred_once 1000 200
        ((901, 20) ∷ [])
        (λ id. SendAnswer.accepted none)
        ledger).1.deliveries
    ≡ some delivered
unfolding find_unique
sweep_deferred_once-keeps_example =
    sweep_deferred_once-keeps 1000 200 ((901, 20) ∷ []) (λ id. SendAnswer.accepted none) 81
      delivered ledger (refl, (refl, tt)) refl refl
