-- ===== src/Outbox/Queue.antt =====
-- The outbox is a queue that loses nothing (backend/src/lib/relay.ts): what is not published yet, in
-- order, and what was handed over.
use kintsugi.Prelude.{ℕ, ◌≡◌, refl, sym, List, [], ◌∷◌, ◌++◌, arith}
use kintsugi.Prelude.Table.{Table, find_many, update_many, ids, IsKeyed}
use mathlib.Core.Path.{subst}
use mathlib.Core.List.{append-nil}
use kintsugi.Delivery.{Event}
use kintsugi.Outbox.{
  Outbox, OutboxEvent, take, claim, to_events, relay_once, relay_batch, Publish, accepted, refused,
  lost, is_in, mark_published, enqueue, prune_outbox_once, is_prunable,
}
use kintsugi.Outbox.Pending.{
  drop, pending_rows, to_events-take, to_events-drop, is_in-none, pending_rows-mark,
  pending_rows-fail, pending_rows-create, prunable-spares, pending_rows-delete,
}

-- The abstract queue.
pub record Queue : Type 0 where
  pub pending : List Event
  pub handed : List Event

-- What is done to the outbox.
pub data Operation : Type 0 where
  enqueues : (id now : ℕ) → Event → Operation
  relays : (batch_size now : ℕ) → Publish → Operation
  prunes : (retention now : ℕ) → Operation

-- What each of them does to the queue. A pass that the transport takes hands over the first events
-- and takes exactly these off; one that is lost after the transport took it hands them over and
-- takes none off.
pub data Step : Operation → Queue → Queue → Type 0 where
  puts :
      (id now : ℕ) (e : Event) (q : Queue)
      → Step (enqueues id now e) q (record q { pending = q.pending ++ e ∷ [] })
  hands :
      (batch_size now : ℕ) (q : Queue)
      → Step (relays batch_size now accepted) q record {
        pending = drop batch_size q.pending;
        handed = q.handed ++ take batch_size q.pending;
      }
  repeats :
      (batch_size now : ℕ) (q : Queue)
      → Step
          (relays batch_size now lost)
          q
          (record q { handed = q.handed ++ take batch_size q.pending })
  fails : (batch_size now : ℕ) (q : Queue) → Step (relays batch_size now refused) q q
  forgets : (retention now : ℕ) (q : Queue) → Step (prunes retention now) q q

unfoldable pub view : Outbox → Queue
unfolding pending_rows to_events
view db = record { pending = to_events (pending_rows db.rows); handed = db.log }

-- What a batch leaves, written alike for an empty one.
batch-accepted :
    (now : ℕ) (rows : Table OutboxEvent) (db : Outbox)
    → view (relay_batch now accepted rows db).1 ≡ record {
      pending =
          to_events (pending_rows (update_many (is_in (ids rows)) (mark_published now) db.rows));
      handed = db.log ++ to_events rows;
    }
unfolding view relay_batch to_events ids
batch-accepted now [] db =
    ground (arith, is_in-none (mark_published now) db.rows, append-nil db.log)
batch-accepted now (row ∷ rows) db = refl

batch-refused :
    (now : ℕ) (rows : Table OutboxEvent) (db : Outbox)
    → view (relay_batch now refused rows db).1 ≡ view db
unfolding view relay_batch
batch-refused now [] db = refl
batch-refused now (row ∷ rows) db = ground (arith, pending_rows-fail (ids (row ∷ rows)) db.rows)

batch-lost :
    (now : ℕ) (rows : Table OutboxEvent) (db : Outbox)
    → view (relay_batch now lost rows db).1
      ≡ record (view db) { handed = (view db).handed ++ to_events rows }
unfolding view relay_batch to_events
batch-lost now [] db = ground (arith, append-nil db.log)
batch-lost now (row ∷ rows) db = ground (arith, pending_rows-fail (ids (row ∷ rows)) db.rows)

pub view-relay_once :
    (batch_size now : ℕ) (db : Outbox)
    → IsKeyed db.rows
    → view (relay_once batch_size now accepted db).1 ≡ record {
      pending = drop batch_size (view db).pending;
      handed = (view db).handed ++ take batch_size (view db).pending;
    }
unfolding view relay_once claim
view-relay_once batch_size now db keyed = ground (
  arith,
  batch-accepted now (take batch_size (pending_rows db.rows)) db,
  pending_rows-mark batch_size now db.rows keyed,
  to_events-take batch_size (pending_rows db.rows),
  to_events-drop batch_size (pending_rows db.rows),
)

view-lost :
    (batch_size now : ℕ) (db : Outbox)
    → view (relay_once batch_size now lost db).1
      ≡ record (view db) { handed = (view db).handed ++ take batch_size (view db).pending }
unfolding view relay_once claim
view-lost batch_size now db = ground (
  arith,
  batch-lost now (take batch_size (pending_rows db.rows)) db,
  to_events-take batch_size (pending_rows db.rows),
)

view-prune :
    (retention now : ℕ) (db : Outbox)
    → IsKeyed db.rows
    → view (prune_outbox_once retention now db).1 ≡ view db
unfolding view prune_outbox_once
view-prune retention now db keyed = ground (
  arith,
  pending_rows-delete (ids (take 1000 (find_many (is_prunable retention now) db.rows))) db.rows
      (prunable-spares retention now 1000 db.rows keyed),
)

view-refused :
    (batch_size now : ℕ) (db : Outbox) → view (relay_once batch_size now refused db).1 ≡ view db
unfolding relay_once
view-refused batch_size now db = batch-refused now (claim batch_size db) db

view-enqueue :
    (id now : ℕ) (e : Event) (db : Outbox)
    → view (enqueue id now e db) ≡ record (view db) { pending = (view db).pending ++ e ∷ [] }
unfolding view enqueue
view-enqueue id now e db = ground (arith, pending_rows-create id now e db.rows)

unfoldable pub run : Operation → Outbox → Outbox
run (enqueues id now e) db = enqueue id now e db
run (relays batch_size now answer) db = (relay_once batch_size now answer db).1
run (prunes retention now) db = (prune_outbox_once retention now db).1

-- The outbox implements the queue, operation by operation: an insertion puts its event, and no
-- other, at the end; a pass that the transport takes hands over the events at the front in their
-- order, and takes these off; a pass whose transaction fails after that hands them over and takes
-- none off; a pass that the transport refuses, and the retention, leave both what waits and what was
-- handed over as they are. Rows have distinct keys.
pub run-Step :
    (op : Operation) (db : Outbox) → IsKeyed db.rows → Step op (view db) (view (run op db))
unfolding run
run-Step (enqueues id now e) db keyed =
    subst (λ q. Step (enqueues id now e) (view db) q) (sym (view-enqueue id now e db))
      (puts id now e (view db))
run-Step (relays batch_size now accepted) db keyed =
    subst (λ q. Step (relays batch_size now accepted) (view db) q)
      (sym (view-relay_once batch_size now db keyed)) (hands batch_size now (view db))
run-Step (relays batch_size now refused) db keyed =
    subst (λ q. Step (relays batch_size now refused) (view db) q)
      (sym (view-refused batch_size now db)) (fails batch_size now (view db))
run-Step (relays batch_size now lost) db keyed =
    subst (λ q. Step (relays batch_size now lost) (view db) q) (sym (view-lost batch_size now db))
      (repeats batch_size now (view db))
run-Step (prunes retention now) db keyed =
    subst (λ q. Step (prunes retention now) (view db) q) (sym (view-prune retention now db keyed))
      (forgets retention now (view db))
