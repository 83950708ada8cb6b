-- ===== src/Outbox/Pending.antt =====
-- The rows of the outbox that wait (backend/src/lib/relay.ts), after each write to the table.
use kintsugi.Prelude.{
  ℕ, zero, suc, ◌+◌, ◌≡◌, refl, ap, inl, inr, Bool, true, false, not, ◌&&◌, ◌||◌, none, List, [],
  ◌∷◌, ◌++◌, ◌==◌, contains, arith, Bool-cases,
}
use kintsugi.Prelude.Table.{Table, find_unique, find_many, update_many, create, ids, IsKeyed}
use kintsugi.Prelude.Table.Lookup.{contains-ids}
use kintsugi.Delivery.{Event}
use kintsugi.Outbox.{
  OutboxEvent, is_unpublished, take, to_events, is_in, mark_published, new_row, delete_many,
  is_prunable,
}

abbrev pub drop {ℓ} : {A : Type ℓ} → ℕ → List A → List A
drop zero t = t
drop (suc n) [] = []
drop (suc n) (x ∷ t) = drop n t

unfoldable pub pending_rows : Table OutboxEvent → Table OutboxEvent
pending_rows rows = find_many is_unpublished rows

pub to_events-take : (n : ℕ) (t : Table OutboxEvent) → to_events (take n t) ≡ take n (to_events t)
unfolding to_events
to_events-take zero t = refl
to_events-take (suc n) [] = refl
to_events-take (suc n) ((id, r) ∷ t) = ap (λ es. r.event ∷ es) (to_events-take n t)

pub to_events-drop : (n : ℕ) (t : Table OutboxEvent) → to_events (drop n t) ≡ drop n (to_events t)
unfolding to_events
to_events-drop zero t = refl
to_events-drop (suc n) [] = refl
to_events-drop (suc n) ((id, r) ∷ t) = to_events-drop n t

-- A key that no row has does not count among the selected ones.
is_in-cons :
    (j : ℕ) (s : List ℕ) (f : OutboxEvent → OutboxEvent) (t : Table OutboxEvent)
    → find_unique j t ≡ none
    → update_many (is_in (j ∷ s)) f t ≡ update_many (is_in s) f t
unfolding find_unique update_many
is_in-cons j s f [] h = refl
is_in-cons j s f ((k, r) ∷ t) h = elim (Bool-cases (k == j)) [
  | inl here ↦ absurd (ground (arith, h, here))
  | inr there ↦ ground (arith, there, is_in-cons j s f t (ground (arith, h, there)))
]

pub is_in-none :
    (f : OutboxEvent → OutboxEvent) (t : Table OutboxEvent) → update_many (is_in []) f t ≡ t
unfolding update_many
is_in-none f [] = refl
is_in-none f ((k, r) ∷ t) = ground (arith, is_in-none f t)

-- Publishing the oldest rows takes them off the front of the queue.
pub pending_rows-mark :
    (n now : ℕ) (t : Table OutboxEvent)
    → IsKeyed t
    → pending_rows (update_many (is_in (ids (take n (pending_rows t)))) (mark_published now) t)
      ≡ drop n (pending_rows t)
unfolding pending_rows find_many update_many ids
pending_rows-mark zero now [] keyed = refl
pending_rows-mark (suc n) now [] keyed = refl
pending_rows-mark zero now ((j, r) ∷ t) keyed =
    ap (λ u. pending_rows u) (is_in-none (mark_published now) ((j, r) ∷ t))
pending_rows-mark (suc n) now ((j, r) ∷ t) keyed = elim (Bool-cases (is_unpublished j r)) [
  | inl waits ↦
      let same = is_in-cons j (ids (take n (pending_rows t))) (mark_published now) t keyed.0 in
      ground (arith, waits, same, pending_rows-mark n now t keyed.1)
  | inr gone ↦ ground (arith, gone, pending_rows-mark (suc n) now t keyed.1)
]

-- A failure is counted on the rows, and leaves them waiting.
pub pending_rows-fail :
    (s : List ℕ) (t : Table OutboxEvent)
    → to_events
        (pending_rows (update_many (is_in s) (λ r. record r { attempts = r.attempts + 1 }) t))
      ≡ to_events (pending_rows t)
unfolding pending_rows find_many update_many to_events
pending_rows-fail s [] = refl
pending_rows-fail s ((j, r) ∷ t) = ground (arith, pending_rows-fail s t)

pub pending_rows-create :
    (id now : ℕ) (e : Event) (t : Table OutboxEvent)
    → to_events (pending_rows (create id (new_row now e) t)) ≡ to_events (pending_rows t) ++ e ∷ []
unfolding pending_rows find_many create to_events
pending_rows-create id now e [] = refl
pending_rows-create id now e ((j, r) ∷ t) = ground (arith, pending_rows-create id now e t)

-- No row that waits is selected.
unfoldable pub spares : List ℕ → Table OutboxEvent → Bool
spares s [] = true
spares s ((j, r) ∷ t) = (not (is_unpublished j r) || not (contains j s)) && spares s t

spares-cons :
    (j : ℕ) (s : List ℕ) (t : Table OutboxEvent)
    → find_unique j t ≡ none
    → spares (j ∷ s) t ≡ spares s t
unfolding spares find_unique
spares-cons j s [] h = refl
spares-cons j s ((k, r) ∷ t) h = elim (Bool-cases (k == j)) [
  | inl here ↦ absurd (ground (arith, h, here))
  | inr there ↦ ground (arith, there, spares-cons j s t (ground (arith, h, there)))
]

contains-take :
    (j m : ℕ) (t : Table OutboxEvent)
    → contains j (ids t) ≡ false
    → contains j (ids (take m t)) ≡ false
unfolding ids
contains-take j zero t h = refl
contains-take j (suc m) [] h = refl
contains-take j (suc m) ((k, r) ∷ t) h = ground (arith, h, contains-take j m t)

pub prunable-spares :
    (retention now m : ℕ) (t : Table OutboxEvent)
    → IsKeyed t
    → spares (ids (take m (find_many (is_prunable retention now) t))) t ≡ true
unfolding spares find_many ids
prunable-spares retention now m [] keyed = refl
prunable-spares retention now zero ((j, r) ∷ t) keyed =
    ground (arith, prunable-spares retention now zero t keyed.1)
prunable-spares retention now (suc m) ((j, r) ∷ t) keyed =
    let p = is_prunable retention now in
    elim (Bool-cases (p j r)) [
      | inl old ↦ ground (
        arith,
        old,
        spares-cons j (ids (take m (find_many p t))) t keyed.0,
        prunable-spares retention now m t keyed.1,
      )
      | inr young ↦ ground (
        arith,
        young,
        contains-take j (suc m) (find_many p t) (contains-ids j p t keyed.0),
        prunable-spares retention now (suc m) t keyed.1,
      )
    ]

pub pending_rows-delete :
    (s : List ℕ) (t : Table OutboxEvent)
    → spares s t ≡ true
    → pending_rows (delete_many (is_in s) t) ≡ pending_rows t
unfolding spares pending_rows find_many delete_many
pending_rows-delete s [] h = refl
pending_rows-delete s ((j, r) ∷ t) h = ground (arith, h, pending_rows-delete s t)
