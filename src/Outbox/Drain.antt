-- ===== src/Outbox/Drain.antt =====
-- Draining the outbox (backend/src/lib/relay.ts, `drain`).
use kintsugi.Prelude.{
  ℕ, zero, suc, ◌+◌, ◌<◌, ◌≡◌, refl, sym, ◌∙◌, ap, inl, inr, ◌⊎◌, some, List, [], ◌∷◌, ◌++◌, arith,
}
use kintsugi.Prelude.Table.{Table, find_many, ids, IsKeyed}
use kintsugi.Prelude.Table.Lookup.{update_many-IsKeyed}
use kintsugi.Prelude.Text.{length}
use mathlib.Core.List.{append_assoc}
use kintsugi.Outbox.{
  Outbox, OutboxEvent, take, claim, to_events, relay_once, relay_batch, accepted, drain,
  is_unpublished, is_in, mark_published,
}
use kintsugi.Outbox.Pending.{drop, pending_rows, to_events-take}
use kintsugi.Outbox.Queue.{view, view-relay_once}

take-drop : {A : Type 0} (n : ℕ) (t : List A) → take n t ++ drop n t ≡ t
take-drop zero t = refl
take-drop (suc n) [] = refl
take-drop (suc n) (x ∷ t) = ap (λ u. x ∷ u) (take-drop n t)

length-take-drop :
    {A : Type 0} (n : ℕ) (t : List A) → length (take n t) + length (drop n t) ≡ length t
length-take-drop zero t = omega arith
length-take-drop (suc n) [] = omega arith
length-take-drop (suc n) (x ∷ t) = omega (arith, length-take-drop n t)

length-to_events : (t : Table OutboxEvent) → length (to_events t) ≡ length t
unfolding to_events
length-to_events [] = refl
length-to_events ((id, r) ∷ t) = ap (λ n. suc n) (length-to_events t)

batch-published :
    (now : ℕ) (rows : Table OutboxEvent) (db : Outbox)
    → (relay_batch now accepted rows db).0.published ≡ length rows
unfolding relay_batch
batch-published now [] db = refl
batch-published now (row ∷ rows) db = refl

published-lem :
    (batch_size now : ℕ) (db : Outbox)
    → (relay_once batch_size now accepted db).0.published
      ≡ length (take batch_size (view db).pending)
unfolding relay_once claim view pending_rows
published-lem batch_size now db =
    let rows = take batch_size (find_many is_unpublished db.rows) in
    batch-published now rows db
    ∙ sym (length-to_events rows)
    ∙ ap (λ t. length t) (to_events-take batch_size (find_many is_unpublished db.rows))

batch-IsKeyed :
    (now : ℕ) (rows : Table OutboxEvent) (db : Outbox)
    → IsKeyed db.rows
    → IsKeyed (relay_batch now accepted rows db).1.rows
unfolding relay_batch
batch-IsKeyed now [] db keyed = keyed
batch-IsKeyed now (row ∷ rows) db keyed =
    update_many-IsKeyed (is_in (ids (row ∷ rows))) (mark_published now) db.rows keyed

relay_once-IsKeyed :
    (batch_size now : ℕ) (db : Outbox)
    → IsKeyed db.rows
    → IsKeyed (relay_once batch_size now accepted db).1.rows
unfolding relay_once
relay_once-IsKeyed batch_size now db keyed = batch-IsKeyed now (claim batch_size db) db keyed

none_taken : {A : Type 0} (n : ℕ) (t : List A) → 0 < n → length (take n t) ≡ 0 → t ≡ []
none_taken zero t h e = absurd (omega (arith, h))
none_taken (suc n) [] h e = refl
none_taken (suc n) (x ∷ t) h e = absurd (omega (arith, e))

drop-all : {A : Type 0} (n : ℕ) (t : List A) → t ≡ [] → drop n t ≡ []
drop-all zero t e = e
drop-all (suc n) [] e = refl
drop-all (suc n) (x ∷ t) e = absurd (ground (arith, e))

take-all : {A : Type 0} (n : ℕ) (t : List A) → t ≡ [] → take n t ≡ t
take-all zero t e = sym e
take-all (suc n) [] e = refl
take-all (suc n) (x ∷ t) e = absurd (ground (arith, e))

num-cases : (n : ℕ) → (n ≡ 0) ⊎ ((m : ℕ) × (n ≡ suc m))
num-cases zero = inl refl
num-cases (suc m) = inr (m, refl)

drain-last :
    (batch_size now passes : ℕ) (db : Outbox)
    → (relay_once batch_size now accepted db).0.published ≡ 0
    → drain batch_size now (λ _. accepted) (suc passes) db
      ≡ (some 0, (relay_once batch_size now accepted db).1)
unfolding drain
drain-last batch_size now passes db e = ground (arith, e)

drain-next :
    (batch_size now passes n : ℕ) (db : Outbox)
    → (relay_once batch_size now accepted db).0.published ≡ suc n
    → (drain batch_size now (λ _. accepted) (suc passes) db).1
      ≡ (drain batch_size now (λ _. accepted) passes (relay_once batch_size now accepted db).1).1
unfolding drain
drain-next batch_size now passes n db e = ground (arith, e)

drained-count :
    (batch_size now passes n m : ℕ) (db : Outbox)
    → (relay_once batch_size now accepted db).0.published ≡ suc n
    → (drain batch_size now (λ _. accepted) passes (relay_once batch_size now accepted db).1).0
      ≡ some m
    → (drain batch_size now (λ _. accepted) (suc passes) db).0 ≡ some (suc n + m)
unfolding drain
drained-count batch_size now passes n m db e rest = ground (arith, e, rest)

-- Draining with more passes than there are events waiting, the transport taking every batch, hands
-- all of them over once, in order, leaves none waiting, and returns how many they were. A pass
-- takes one row at least, and rows have distinct keys.
pub drain-empties :
    (batch_size now passes : ℕ) (db : Outbox)
    → IsKeyed db.rows
    → 0 < batch_size
    → length (view db).pending < passes
    → ((drain batch_size now (λ _. accepted) passes db).0 ≡ some (length (view db).pending))
      × (view (drain batch_size now (λ _. accepted) passes db).1
          ≡ record { pending = []; handed = (view db).handed ++ (view db).pending })
drain-empties batch_size now zero db keyed sized enough = absurd (omega (arith, enough))
drain-empties batch_size now (suc passes) db keyed sized enough =
    let q = view db in
    let next = (relay_once batch_size now accepted db).1 in
    let moved = view-relay_once batch_size now db keyed in
    let told = published-lem batch_size now db in
    elim (num-cases (length (take batch_size q.pending))) [
      | inl nothing ↦
          let empty = none_taken batch_size q.pending sized nothing in
          let last = drain-last batch_size now passes db (told ∙ nothing) in
          (
            ground (arith, last, empty),
            ground (
              arith,
              last,
              moved,
              empty,
              take-all batch_size q.pending empty,
              drop-all batch_size q.pending empty,
            ),
          )
      | inr (n, some_) ↦
          let ih =
            drain-empties batch_size now passes next (relay_once-IsKeyed batch_size now db keyed)
              sized (ground (arith, moved, length-take-drop batch_size q.pending, some_, enough)) in
          (
            ground (
              arith,
              drained-count batch_size now passes n _ db (told ∙ some_) ih.0,
              moved,
              length-take-drop batch_size q.pending,
              some_,
            ),
            ground (
              arith,
              drain-next batch_size now passes n db (told ∙ some_),
              ih.1,
              moved,
              take-drop batch_size q.pending,
              append_assoc q.handed (take batch_size q.pending) (drop batch_size q.pending),
            ),
          )
    ]
