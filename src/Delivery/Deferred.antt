-- ===== src/Delivery/Deferred.antt =====
-- Texts that wait for the end of quiet hours (backend/src/lib/deferredDeliveries.ts). The answers of
-- the text service, one for each delivery, and the notifications with their users are arguments.
pub mod Resent
pub mod Kept
use kintsugi.Prelude.{
  ℕ, ◌+◌, Bool, true, false, ◌&&◌, Option, none, some, List, [], ◌∷◌, ltb, leb, ◌==◌, if◌then◌else◌,
}
use kintsugi.Prelude.Table.{Table, find_unique, find_many}
use kintsugi.Delivery.{
  Mail, Delivery, SendAnswer, nothing_to_deliver_to, Outcome, is_deferred, is_due, settle,
  redeliver_deferred,
}
use kintsugi.Delivery.Policy.{Channel}
use kintsugi.Outbox.{take}

abbrev pub is_owed : ℕ → ℕ → Delivery → Bool
is_owed now _ d = is_deferred d.status && is_due now d.not_before

abbrev pub comes_first : Option ℕ → Option ℕ → Bool
comes_first (some s) (some t) = leb s t
comes_first _ _ = false

-- `orderBy: { notBefore: "asc" }`
unfoldable pub insert_by_time : ℕ × Delivery → Table Delivery → Table Delivery
insert_by_time row [] = row ∷ []
insert_by_time row (first ∷ rows) =
    let rest = insert_by_time row rows in
    if comes_first row.1.not_before first.1.not_before then row ∷ first ∷ rows else first ∷ rest

unfoldable pub sort_by_time : Table Delivery → Table Delivery
unfolding insert_by_time
sort_by_time [] = []
sort_by_time (row ∷ rows) = insert_by_time row (sort_by_time rows)

pub record SweepResult : Type 0 where
  pub sent : ℕ
  pub expired : ℕ
  pub skipped : ℕ

abbrev pub is_sms : Channel → Bool
is_sms Channel.sms = true
is_sms _ = false

abbrev pub is_sent : Outcome → Bool
is_sent Outcome.sent = true
is_sent _ = false

abbrev pub add_expired : SweepResult × Mail → SweepResult × Mail
add_expired (r, db) = (record r { expired = r.expired + 1 }, db)

abbrev pub add_outcome : Bool → SweepResult × Mail → SweepResult × Mail
add_outcome true (r, db) = (record r { sent = r.sent + 1 }, db)
add_outcome false (r, db) = (record r { skipped = r.skipped + 1 }, db)

abbrev pub drop_delivery : ℕ → ℕ → Mail → Mail
drop_delivery now id db = settle now id nothing_to_deliver_to db

module _ (max_age now : ℕ) (notifications : Table ℕ) (answers : ℕ → SendAnswer) where
  -- The rows of a pass, in turn.
  unfoldable pub sweep_rows : Table Delivery → Mail → SweepResult × Mail
  unfolding redeliver_deferred
  sweep_rows [] db = (record { sent = 0; expired = 0; skipped = 0 }, db)
  sweep_rows ((id, d) ∷ rows) db =
      if ltb (d.created_at + max_age) now
      then add_expired (sweep_rows rows (drop_delivery now id db))
      else (if is_sms d.channel
          then elim (find_unique d.notification_id notifications) [
            | none ↦ add_expired (sweep_rows rows (drop_delivery now id db))
            | some user_id ↦
                add_outcome (is_sent (redeliver_deferred now id (answers id) db).0)
                  (sweep_rows rows (redeliver_deferred now id (answers id) db).1)
          ]
          else add_outcome false (sweep_rows rows db))

  unfoldable pub sweep_deferred_once : Mail → SweepResult × Mail
  unfolding sweep_rows sort_by_time
  sweep_deferred_once db =
      sweep_rows (take 100 (sort_by_time (find_many (is_owed now) db.deliveries))) db
