-- ===== src/Payouts/Sending.antt =====
-- Sending a claimed payout, and the job that finishes what was claimed and never sent.
use kintsugi.Prelude.{
  ℕ, ◌+◌, Bool, true, false, ◌&&◌, Option, none, some, [], ◌∷◌, ◌==◌, if◌then◌else◌, zero, suc,
}
use kintsugi.Prelude.Table.{Table, find_unique, find_many, update_many, count}
use kintsugi.Prelude.Text.{Text, length}
use kintsugi.Schema.{Db, SellerProfile, Payout, PayoutStatus}

-- What `transfer` answers for an account, an amount and the payout's key, or throws.
pub data TransferAnswer : Type 0 where
  sent : ℕ → TransferAnswer
  permanent transient : Text → TransferAnswer

abbrev pub Transfer : Type 0
Transfer = ℕ → ℕ → ℕ → TransferAnswer

pub data SendOutcome : Type 0 where
  sent : (payout_id amount_cents transfer_id : ℕ) (settled : Bool) → SendOutcome
  no_such_payout already_settled no_account refused retry_later : SendOutcome

abbrev pub is_pending : PayoutStatus → Bool
is_pending PayoutStatus.pending = true
is_pending _ = false

abbrev pub account_of : Option SellerProfile → Option ℕ
account_of none = none
account_of (some s) = s.connect_account_id

abbrev pub is_unsent : ℕ → ℕ → Payout → Bool
is_unsent payout_id id p = id == payout_id && is_pending p.status

abbrev pub write_unsent : ℕ → (Payout → Payout) → Db → Db
write_unsent payout_id f db = record db { payouts = update_many (is_unsent payout_id) f db.payouts }

abbrev pub settle_sent : ℕ → ℕ → Payout → Payout
settle_sent now transfer_id p = record p {
  status = PayoutStatus.paid;
  provider_transfer_id = some transfer_id;
  completed_at = some now;
}

abbrev pub settle_refused : ℕ → Text → Payout → Payout
settle_refused now message p = record p {
  status = PayoutStatus.failed;
  failure_reason = some message;
  completed_at = some now;
}

-- What is written after the transfer, on the rows as they are then.
unfoldable pub record_transfer : ℕ → ℕ → Payout → TransferAnswer → Db → SendOutcome × Db
record_transfer now payout_id payout (TransferAnswer.sent transfer_id) db = (
  SendOutcome.sent payout_id payout.amount_cents transfer_id
      (count (is_unsent payout_id) db.payouts == 1),
  write_unsent payout_id (settle_sent now transfer_id) db,
)
record_transfer now payout_id payout (permanent message) db =
    (refused, write_unsent payout_id (settle_refused now message) db)
record_transfer now payout_id payout (transient message) db =
    (retry_later, write_unsent payout_id (λ p. record p { failure_reason = some message }) db)

unfoldable pub send_claimed_payout : Transfer → ℕ → ℕ → Db → SendOutcome × Db
unfolding record_transfer
send_claimed_payout transfer now payout_id db = elim (find_unique payout_id db.payouts) [
  | none ↦ (no_such_payout, db)
  | some payout ↦
      if is_pending payout.status
      then elim (account_of (find_unique payout.seller_id db.sellers)) [
        | none ↦ (no_account, db)
        | some account ↦
            record_transfer now payout_id payout (transfer account payout.amount_cents payout_id) db
      ]
      else (already_settled, db)
]

pub record Tally : Type 0 where
  pub sent_ : ℕ
  pub failed : ℕ
  pub raced : ℕ

abbrev pub tally : SendOutcome → Tally → Tally
tally (SendOutcome.sent _ _ _ true) t = record t { sent_ = t.sent_ + 1 }
tally (SendOutcome.sent _ _ _ false) t = record t { raced = t.raced + 1 }
tally already_settled t = record t { raced = t.raced + 1 }
tally no_such_payout t = record t { raced = t.raced + 1 }
tally no_account t = record t { failed = t.failed + 1 }
tally refused t = record t { failed = t.failed + 1 }
tally retry_later t = record t { failed = t.failed + 1 }

unfoldable pub send_each : Transfer → ℕ → Table Payout → Tally → Db → Tally × Db
send_each transfer now [] t db = (t, db)
send_each transfer now ((id, p) ∷ pending) t db =
    let (outcome, db') = send_claimed_payout transfer now id db in
    send_each transfer now pending (tally outcome t) db'

abbrev pub take : ℕ → Table Payout → Table Payout
take zero t = []
take (suc n) [] = []
take (suc n) (row ∷ t) = row ∷ take n t

unfoldable pub send_pending_payouts : Transfer → ℕ → ℕ → Db → Tally × ℕ × Db
send_pending_payouts transfer now limit db =
    let pending = take limit (find_many (λ _ p. is_pending p.status) db.payouts) in
    let (t, db') =
      send_each transfer now pending (record { sent_ = 0; failed = 0; raced = 0 }) db in
    (t, length pending, db')
