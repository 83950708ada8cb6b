-- ===== src/Outbox.antt =====
-- The outbox and its relay (backend/src/lib/outbox.ts, backend/src/lib/relay.ts and
-- backend/src/lib/outboxRetention.ts). What the transport does with a batch is an argument, and what
-- it was handed is kept as a log; the texts of errors are left out.
pub mod Pending
pub mod Queue
pub mod Drain
use kintsugi.Prelude.{
  ℕ, zero, suc, ◌+◌, Bool, true, false, not, ◌&&◌, Option, none, some, List, [], ◌∷◌, ◌++◌, ltb,
  leb, ◌==◌, if◌then◌else◌, is_none, contains,
}
use kintsugi.Prelude.Table.{Table, find_many, update_many, create, ids, count}
use kintsugi.Prelude.Text.{length}
use kintsugi.Delivery.{Event}

pub record OutboxEvent : Type 0 where
  pub event : Event
  pub created_at : ℕ
  pub published_at : Option ℕ
  pub attempts : ℕ

-- The table, and what the transport has been handed.
pub record Outbox : Type 0 where
  pub rows : Table OutboxEvent
  pub log : List Event

abbrev pub new_row : ℕ → Event → OutboxEvent
new_row now event = record { event = event; created_at = now; published_at = none; attempts = 0 }

-- Part of the transaction that writes what the notice is about.
unfoldable pub enqueue : ℕ → ℕ → Event → Outbox → Outbox
enqueue id now event db = record db { rows = create id (new_row now event) db.rows }

unfoldable pub enqueue_many : ℕ → List (ℕ × Event) → Outbox → Outbox
unfolding enqueue
enqueue_many now [] db = db
enqueue_many now ((id, event) ∷ inputs) db = enqueue_many now inputs (enqueue id now event db)

abbrev pub is_unpublished : ℕ → OutboxEvent → Bool
is_unpublished _ r = is_none r.published_at

abbrev pub take {ℓ} : {A : Type ℓ} → ℕ → List A → List A
take zero t = []
take (suc n) [] = []
take (suc n) (row ∷ t) = row ∷ take n t

-- `ORDER BY "createdAt" LIMIT n`; rows that another relay has locked are its own pass.
unfoldable pub claim : ℕ → Outbox → Table OutboxEvent
claim limit db = take limit (find_many is_unpublished db.rows)

unfoldable pub to_events : Table OutboxEvent → List Event
to_events [] = []
to_events ((id, r) ∷ rows) = r.event ∷ to_events rows

-- The transport takes a batch, or throws; or it takes it and the transaction fails afterwards.
pub data Publish : Type 0 where
  accepted refused lost : Publish

pub record RelayPassResult : Type 0 where
  pub published : ℕ
  pub failed : ℕ

abbrev pub is_in : List ℕ → ℕ → OutboxEvent → Bool
is_in claimed_ids id _ = contains id claimed_ids

abbrev pub mark_published : ℕ → OutboxEvent → OutboxEvent
mark_published now r = record r { published_at = some now }

abbrev pub record_failure : List ℕ → Outbox → Outbox
record_failure claimed_ids db = record db {
  rows = update_many (is_in claimed_ids) (λ r. record r { attempts = r.attempts + 1 }) db.rows;
}

abbrev pub hand_over : Table OutboxEvent → Outbox → Outbox
hand_over rows db = record db { log = db.log ++ to_events rows }

unfoldable pub relay_batch : ℕ → Publish → Table OutboxEvent → Outbox → RelayPassResult × Outbox
unfolding to_events
relay_batch now answer [] db = (record { published = 0; failed = 0 }, db)
relay_batch now accepted (row ∷ rows) db = (
  record { published = length (row ∷ rows); failed = 0 },
  record (hand_over (row ∷ rows) db) {
    rows = update_many (is_in (ids (row ∷ rows))) (mark_published now) db.rows;
  },
)
relay_batch now refused (row ∷ rows) db =
    (record { published = 0; failed = length (row ∷ rows) }, record_failure (ids (row ∷ rows)) db)
relay_batch now lost (row ∷ rows) db = (
  record { published = 0; failed = length (row ∷ rows) },
  record_failure (ids (row ∷ rows)) (hand_over (row ∷ rows) db),
)

unfoldable pub relay_once : ℕ → ℕ → Publish → Outbox → RelayPassResult × Outbox
unfolding claim relay_batch
relay_once batch_size now answer db = relay_batch now answer (claim batch_size db) db

-- The source loops until a pass publishes nothing; here for a number of passes, with the transport's
-- answer to each.
unfoldable pub drain : ℕ → ℕ → (ℕ → Publish) → ℕ → Outbox → Option ℕ × Outbox
drain batch_size now answers zero db = (none, db)
drain batch_size now answers (suc passes) db =
    let (r, db') = relay_once batch_size now (answers passes) db in
    elim r.published [
      | zero ↦ (some 0, db')
      | suc n ↦
          let (total, db'') = drain batch_size now answers passes db' in
          (elim total [ none ↦ none | some m ↦ some (suc n + m) ], db'')
    ]

abbrev pub is_prunable : ℕ → ℕ → ℕ → OutboxEvent → Bool
is_prunable retention now _ r = elim r.published_at [
  | none ↦ false
  | some t ↦ ltb (t + retention) now
]

unfoldable pub delete_many : (ℕ → OutboxEvent → Bool) → Table OutboxEvent → Table OutboxEvent
delete_many p [] = []
delete_many p ((id, r) ∷ t) = let rest = delete_many p t in if p id r then rest else (id, r) ∷ rest

-- A thousand rows at most in one statement.
unfoldable pub prune_outbox_once : ℕ → ℕ → Outbox → ℕ × Outbox
unfolding delete_many
prune_outbox_once retention now db =
    let doomed = ids (take 1000 (find_many (is_prunable retention now) db.rows)) in
    (count (is_in doomed) db.rows, record db { rows = delete_many (is_in doomed) db.rows })
