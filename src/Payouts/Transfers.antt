-- ===== src/Payouts/Transfers.antt =====
-- A claimed payout is transferred once, and a clawed-back line once (backend/src/lib/payouts.ts,
-- sendClaimedPayout and reverseForRefund).
use kintsugi.Prelude.{ℕ, ◌≡◌, refl, ◌∙◌, ap, ◌≢◌, true, false, some, arith}
use kintsugi.Prelude.Table.{find_unique, IsKeyed}
use kintsugi.Prelude.Table.Lookup.{count-by_key, find_unique-update_many}
use kintsugi.Schema.{Db, Payout}
use kintsugi.Payouts.Sending.{
  Transfer, TransferAnswer, SendOutcome, send_claimed_payout, record_transfer, is_pending,
  account_of, already_settled, is_unsent, settle_sent, settle_refused, retry_later, permanent,
  transient,
}
use kintsugi.Prelude.Text.{Text}

-- What one answer of the provider leaves behind.
abbrev pub after_transfer : ℕ → TransferAnswer → Payout → Payout
after_transfer now (TransferAnswer.sent transfer_id) = settle_sent now transfer_id
after_transfer now (permanent message) = settle_refused now message
after_transfer now (transient message) = λ p. record p { failure_reason = some message }

sent_row :
    (now payout_id : ℕ) (p : Payout) (answer : TransferAnswer) (db : Db)
    → find_unique payout_id db.payouts ≡ some p
    → is_pending p.status ≡ true
    → find_unique payout_id (record_transfer now payout_id p answer db).1.payouts
      ≡ some (after_transfer now answer p)
unfolding record_transfer
sent_row now payout_id p (TransferAnswer.sent n) db e on = ground (
  arith,
  on,
  find_unique-update_many payout_id (is_unsent payout_id) (settle_sent now n) db.payouts p e,
)
sent_row now payout_id p (permanent m) db e on = ground (
  arith,
  on,
  find_unique-update_many payout_id (is_unsent payout_id) (settle_refused now m) db.payouts p e,
)
sent_row now payout_id p (transient m) db e on = ground (
  arith,
  on,
  find_unique-update_many payout_id (is_unsent payout_id)
      (λ q. record q { failure_reason = some m }) db.payouts p e,
)

abbrev pub reported : ℕ → Payout → TransferAnswer → SendOutcome
reported payout_id p (TransferAnswer.sent n) = SendOutcome.sent payout_id p.amount_cents n true
reported payout_id p (permanent why) = SendOutcome.refused
reported payout_id p (transient why) = retry_later

reported-record :
    (now payout_id : ℕ) (p : Payout) (answer : TransferAnswer) (db : Db)
    → IsKeyed db.payouts
    → find_unique payout_id db.payouts ≡ some p
    → is_pending p.status ≡ true
    → (record_transfer now payout_id p answer db).0 ≡ reported payout_id p answer
unfolding record_transfer
reported-record now payout_id p (TransferAnswer.sent n) db keyed e on =
    ground (arith, on, count-by_key payout_id (λ x. is_pending x.status) db.payouts p keyed e)
reported-record now payout_id p (permanent why) db keyed e on = refl
reported-record now payout_id p (transient why) db keyed e on = refl

send-reads :
    (transfer : Transfer) (now payout_id account : ℕ) (p : Payout) (db : Db)
    → find_unique payout_id db.payouts ≡ some p
    → is_pending p.status ≡ true
    → account_of (find_unique p.seller_id db.sellers) ≡ some account
    → send_claimed_payout transfer now payout_id db
      ≡ record_transfer now payout_id p (transfer account p.amount_cents payout_id) db
unfolding send_claimed_payout
send-reads transfer now payout_id account p db e on acc = ground (arith, e, on, acc)

send-settled :
    (transfer : Transfer) (now payout_id : ℕ) (p : Payout) (db : Db)
    → find_unique payout_id db.payouts ≡ some p
    → is_pending p.status ≡ false
    → send_claimed_payout transfer now payout_id db ≡ (already_settled, db)
unfolding send_claimed_payout
send-settled transfer now payout_id p db e off = ground (arith, e, off)

-- An attempt at a PENDING payout, with an account to send to: the outcome that is reported and the
-- row that is left are those of the provider's answer, and only a transient failure leaves the
-- payout PENDING.
pub send_claimed_payout-outcome :
    (transfer : Transfer) (now payout_id account : ℕ) (p : Payout) (db : Db)
    → IsKeyed db.payouts
    → find_unique payout_id db.payouts ≡ some p
    → is_pending p.status ≡ true
    → account_of (find_unique p.seller_id db.sellers) ≡ some account
    → ((send_claimed_payout transfer now payout_id db).0
        ≡ reported payout_id p (transfer account p.amount_cents payout_id))
      × (find_unique payout_id (send_claimed_payout transfer now payout_id db).1.payouts
          ≡ some (after_transfer now (transfer account p.amount_cents payout_id) p))
send_claimed_payout-outcome transfer now payout_id account p db keyed e on acc =
    let answer = transfer account p.amount_cents payout_id in
    let reads = send-reads transfer now payout_id account p db e on acc in
    (
      ap (λ r. r.0) reads ∙ reported-record now payout_id p answer db keyed e on,
      ap (λ r. find_unique payout_id r.1.payouts) reads ∙ sent_row now payout_id p answer db e on,
    )

settles :
    (now : ℕ) (p : Payout) (answer : TransferAnswer)
    → ((why : Text) → answer ≢ transient why)
    → is_pending (after_transfer now answer p).status ≡ false
settles now p (TransferAnswer.sent n) final = refl
settles now p (permanent why) final = refl
settles now p (transient why) final = absurd (final why refl)

-- A payout is transferred at most once: after an attempt at a PENDING payout, with an account to
-- send to, that the provider answered with a transfer or with a refusal for good, every further
-- attempt reports that it is settled and writes nothing, whatever the provider would answer then.
pub send_claimed_payout_twice :
    (transfer other : Transfer) (now later payout_id account : ℕ) (p : Payout) (db : Db)
    → find_unique payout_id db.payouts ≡ some p
    → is_pending p.status ≡ true
    → account_of (find_unique p.seller_id db.sellers) ≡ some account
    → ((why : Text) → transfer account p.amount_cents payout_id ≢ transient why)
    → send_claimed_payout other later payout_id (send_claimed_payout transfer now payout_id db).1
      ≡ (already_settled, (send_claimed_payout transfer now payout_id db).1)
send_claimed_payout_twice transfer other now later payout_id account p db e on acc final =
    let answer = transfer account p.amount_cents payout_id in
    let reads = send-reads transfer now payout_id account p db e on acc in
    let db' = (send_claimed_payout transfer now payout_id db).1 in
    send-settled other later payout_id (after_transfer now answer p) db'
      (ap (λ r. find_unique payout_id r.1.payouts) reads ∙ sent_row now payout_id p answer db e on)
      (settles now p answer final)
