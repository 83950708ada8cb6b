-- ===== src/Returns/Answers.antt =====
-- The answers to a request for a return (backend/src/lib/returns.ts): which of them can follow
-- another, and what a failed refund leaves.
use kintsugi.Prelude.{
  ℕ, ◌≡◌, refl, ◌⊎◌, inl, inr, Bool, true, false, ◌&&◌, Option, none, some, [], ◌∷◌, arith, ltb,
  ◌==◌, if◌then◌else◌, Option-cases, Bool-cases,
}
use kintsugi.Prelude.Table.{Table, find_unique, update_many, create, count, IsKeyed}
use kintsugi.Prelude.Table.Lookup.{count-by_key}
use kintsugi.Prelude.Text.{Text, trim}
use kintsugi.Schema.{Db, ReturnRequest, ReturnStatus}
use kintsugi.Refunds.{World}
use kintsugi.Returns.{
  transition, withdraw_return, escalate_return, approve_return, approve_claimed, refuse_return,
  is_open, is_refused, answerable, open_return, insert_request, eligibility, opened, is_requested,
  Eligibility, Ineligibility, new_request, approve_row, refuse_row,
}

update_many-absent :
    {V : Type 0} (k : ℕ) (q : V → Bool) (f : V → V) (t : Table V)
    → find_unique k t ≡ none
    → update_many (λ j x. j == k && q x) f t ≡ t
unfolding find_unique update_many
update_many-absent k q f [] h = refl
update_many-absent k q f ((j, x) ∷ t) h = ground (arith, h, update_many-absent k q f t)

-- A write under a condition that the row of the key does not meet.
update_many-refused :
    {V : Type 0} (k : ℕ) (q : V → Bool) (f : V → V) (t : Table V) (v : V)
    → IsKeyed t
    → find_unique k t ≡ some v
    → q v ≡ false
    → update_many (λ j x. j == k && q x) f t ≡ t
unfolding find_unique update_many
update_many-refused k q f [] v keyed h off = refl
update_many-refused k q f ((j, x) ∷ t) v keyed h off = elim (Bool-cases (j == k)) [
  | inl here ↦
      ground (arith, here, h, off, update_many-absent k q f t (ground (arith, here, keyed.0)))
  | inr there ↦
      ground (arith, there, update_many-refused k q f t v keyed.1 (ground (arith, there, h)) off)
]

transition-refused :
    (id : ℕ) (source : ReturnStatus → Bool) (f : ReturnRequest → ReturnRequest) (q : ReturnRequest)
    (db : Db)
    → IsKeyed db.return_requests
    → find_unique id db.return_requests ≡ some q
    → source q.status ≡ false
    → transition id source f db ≡ (false, db)
unfolding transition
transition-refused id source f q db keyed e off =
    let none_won = count-by_key id (λ x. source x.status) db.return_requests q keyed e in
    let same = update_many-refused id (λ x. source x.status) f db.return_requests q keyed e off in
    ground (arith, none_won, off, same)

-- APPROVED, REJECTED and WITHDRAWN.
abbrev pub is_final : ReturnStatus → Bool
is_final ReturnStatus.approved = true
is_final ReturnStatus.rejected = true
is_final ReturnStatus.withdrawn = true
is_final _ = false

final-closed :
    (moderator : Bool) (s : ReturnStatus)
    → is_final s ≡ true
    → (is_open s ≡ false) × (is_refused s ≡ false) × (answerable moderator s ≡ false)
final-closed moderator s h = (ground (arith, h), ground (arith, h), ground (arith, h))

approve-refused :
    (w : World) (id user_id : ℕ) (note : Option Text) (moderator : Bool) (q : ReturnRequest)
    (db : Db)
    → IsKeyed db.return_requests
    → find_unique id db.return_requests ≡ some q
    → answerable moderator q.status ≡ false
    → (approve_return w id user_id note moderator db).1 ≡ db
unfolding approve_return approve_claimed
approve-refused w id user_id note moderator q db keyed e closed =
    elim (Option-cases (find_unique q.order_item_id db.order_items)) [
      | inl gone ↦ ground (arith, e, gone)
      | inr (i, e') ↦ ground (
        arith,
        e,
        e',
        transition-refused id (answerable moderator) (approve_row w.now user_id note) q db keyed e
            closed,
      )
    ]

-- An answered request stays answered: on a request that is APPROVED, REJECTED or WITHDRAWN, no
-- withdrawal, escalation, approval or refusal, by the seller or by a moderator, writes anything,
-- and an approval issues no refund. Requests have distinct keys.
pub answered-kept :
    (w : World) (now user_id id : ℕ) (note : Option Text) (why : Text) (moderator : Bool)
    (q : ReturnRequest) (db : Db)
    → IsKeyed db.return_requests
    → find_unique id db.return_requests ≡ some q
    → is_final q.status ≡ true
    → ((withdraw_return now user_id id db).1 ≡ db)
      × ((escalate_return user_id id db).1 ≡ db)
      × ((approve_return w id user_id note moderator db).1 ≡ db)
      × ((refuse_return now id user_id why moderator db).1 ≡ db)
unfolding withdraw_return escalate_return refuse_return
answered-kept w now user_id id note why moderator q db keyed e final =
    let (open_, refused, closed) = final-closed moderator q.status final in
    (
      ground (
        arith,
        e,
        transition-refused id is_open
            (λ x. record x { status = ReturnStatus.withdrawn; decided_at = some now }) q db keyed e
            open_,
      ),
      ground (
        arith,
        e,
        transition-refused id is_refused (λ x. record x { status = ReturnStatus.escalated }) q db
            keyed e refused,
      ),
      approve-refused w id user_id note moderator q db keyed e closed,
      ground (
        arith,
        e,
        transition-refused id (answerable moderator)
            (refuse_row now user_id (trim why)
              (if moderator then ReturnStatus.rejected else ReturnStatus.refused))
            q db keyed e closed,
      ),
    )

requested-create :
    (item_id id : ℕ) (q : ReturnRequest) (t : Table ReturnRequest)
    → q.order_item_id ≡ item_id
    → ltb 0 (count (λ _ x. x.order_item_id == item_id) (create id q t)) ≡ true
unfolding count create
requested-create item_id id q [] h = ground (arith, h)
requested-create item_id id q ((j, x) ∷ t) h = ground (arith, requested-create item_id id q t h)

Eligibility-cases :
    (e : Eligibility)
    → ((why : Ineligibility) × (d : Option ℕ) × (e ≡ Eligibility.ineligible why d))
      ⊎ ((o : ℕ) × (a : ℕ) × (d : ℕ) × (e ≡ Eligibility.eligible o a d))
Eligibility-cases (Eligibility.ineligible why d) = inl (why, d, refl)
Eligibility-cases (Eligibility.eligible o a d) = inr (o, a, d, refl)

open-requested :
    (id window now buyer_id item_id : ℕ) (reason : Text) (bad : Bool) (db : Db)
    → is_requested db item_id ≡ true
    → (open_return id window now buyer_id item_id reason bad db).1 ≡ db
unfolding open_return insert_request
open-requested id window now buyer_id item_id reason bad db h =
    elim (Eligibility-cases (eligibility window now buyer_id item_id db)) [
      | inl (why, deadline, e) ↦ ground (arith, e)
      | inr (order_id, amount, deadline, e) ↦ ground (arith, e, h)
    ]

opened-requested :
    (id window now buyer_id item_id i deadline : ℕ) (reason : Text) (bad : Bool) (db : Db)
    → (open_return id window now buyer_id item_id reason bad db).0 ≡ opened i deadline
    → is_requested (open_return id window now buyer_id item_id reason bad db).1 item_id ≡ true
unfolding open_return insert_request
opened-requested id window now buyer_id item_id i deadline reason bad db h =
    elim (Eligibility-cases (eligibility window now buyer_id item_id db)) [
      | inl (why, d, e) ↦ absurd (ground (arith, e, h))
      | inr (order_id, amount, d, e) ↦
          let made =
            requested-create item_id id (new_request item_id order_id buyer_id (trim reason) bad)
              db.return_requests refl in
          ground (arith, e, h, made)
    ]

-- A line has one request: after a request for it was opened, no later attempt, by anybody and for
-- whatever reason, opens another or writes anything.
pub open_return_twice :
    (id other window now later buyer_id who item_id i deadline : ℕ) (reason why : Text)
    (bad worse : Bool) (db : Db)
    → (open_return id window now buyer_id item_id reason bad db).0 ≡ opened i deadline
    → (open_return other window later who item_id why worse
        (open_return id window now buyer_id item_id reason bad db).1).1
      ≡ (open_return id window now buyer_id item_id reason bad db).1
open_return_twice id other window now later buyer_id who item_id i deadline reason why bad worse db
      h =
    open-requested other window later who item_id why worse
      (open_return id window now buyer_id item_id reason bad db).1
      (opened-requested id window now buyer_id item_id i deadline reason bad db h)
