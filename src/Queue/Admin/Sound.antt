-- ===== src/Queue/Admin/Sound.antt =====
-- Declaring, purging and deleting, and the soundness of the store.
use mathlib.Core.List.{append-nil}
use kuttidb.Base.{
  ℕ, ◌≡◌, refl, ◌∙◌, Bool, true, false, not, ◌||◌, ◌==◌, List, [], ◌∷◌, Option, some, none, arith,
  if_cases,
}
use kuttidb.Queue.{Message, Queue, Store, messages, find_queue, write_back, create_queue}
use kuttidb.Queue.Lists.{remove_id, find_id}
use kuttidb.Queue.Messages.{remove_message, remove_all, purge_queue}
use kuttidb.Queue.Counts.{messages-remove_message}
use kuttidb.Queue.Invariant.{Holds}
use kuttidb.Queue.Sound.{
  IsQueueOf, IsSound, find_queue-All, remove_message-IsQueueOf, create_queue-IsQueueOf,
}
use kuttidb.Queue.DeadLetter.{append_log}
use kuttidb.Queue.Publish.{is_name}
use kuttidb.Queue.Publish.Sound.{write_back-IsSound, wait_written-IsSound}
use kuttidb.Queue.Admin.{
  bad_policy, create_declared, declare_new, declare_or_compare, queue_declare_ex, Removed,
  purge_logged, purge_one, report_removed, is_stale, purge_in, queue_purge_checked, is_routed_to,
  tombstone, delete_logged, delete_one, delete_in, queue_delete_if_revision,
}

create_queue-IsSound :
    (s : Store) (name : List ℕ) (durable : Bool) (max_depth : ℕ) (dlq : List ℕ) (max_deliveries : ℕ)
    → IsSound s
    → IsSound (create_queue s name durable max_depth dlq max_deliveries).0
unfolding create_queue
create_queue-IsSound s name durable max_depth dlq max_deliveries h =
    (create_queue-IsQueueOf s name durable max_depth dlq max_deliveries s.next_id, h)

create_declared-IsSound :
    (seq_before : ℕ) (r : Store × Bool) (name : List ℕ) (durable : Bool) (max_depth : ℕ)
    (dlq : List ℕ) (max_deliveries : ℕ)
    → IsSound r.0
    → IsSound (create_declared seq_before r name durable max_depth dlq max_deliveries).0
unfolding create_declared
create_declared-IsSound seq_before (s, false) name durable max_depth dlq max_deliveries h = h
create_declared-IsSound seq_before (s, true) name durable max_depth dlq max_deliveries h =
    wait_written-IsSound seq_before (create_queue s name durable max_depth dlq max_deliveries).0
      (create_queue-IsSound s name durable max_depth dlq max_deliveries h)

declare_or_compare-IsSound :
    (o : Option Queue) (s : Store) (name : List ℕ) (durable : Bool) (max_depth : ℕ) (dlq : List ℕ)
    (max_deliveries : ℕ)
    → IsSound s
    → IsSound (declare_or_compare o s name durable max_depth dlq max_deliveries).0
unfolding declare_or_compare declare_new
declare_or_compare-IsSound (some q) s name durable max_depth dlq max_deliveries h = h
declare_or_compare-IsSound none s name durable max_depth dlq max_deliveries h =
    create_declared-IsSound s.wal.wal_seq _ name durable max_depth dlq max_deliveries h

-- A declaration, whatever it returns, keeps every queue's counters, ids and bound.
pub queue_declare_ex-IsSound :
    (s : Store) (name : List ℕ) (durable : Bool) (max_depth : ℕ) (dlq : List ℕ) (max_deliveries : ℕ)
    → IsSound s
    → IsSound (queue_declare_ex s name durable max_depth dlq max_deliveries).0
unfolding queue_declare_ex
queue_declare_ex-IsSound s name durable max_depth dlq max_deliveries h =
    if_cases (λ (r : Store × Bool). IsSound r.0)
      (not (is_name name) || bad_policy name dlq max_deliveries) _ _ (λ _. h)
      (λ _. declare_or_compare-IsSound _ s name durable max_depth dlq max_deliveries h)

at_head : (m : Message) (ms : List Message) (q : Queue) → messages q ≡ m ∷ ms → Holds q m
unfolding find_id
at_head m ms q e = rw e (ground arith)

behind_head :
    (m : Message) (ms : List Message) (q : Queue)
    → messages q ≡ m ∷ ms
    → remove_id m.id (messages q) ≡ ms
unfolding remove_id
behind_head m ms q e = rw e (ground arith)

-- Removing the head again and again.
remove_all-IsQueueOf :
    {n : ℕ} (ms : List Message) (q : Queue)
    → IsQueueOf n q
    → messages q ≡ ms
    → IsQueueOf n (remove_all ms q) × (messages (remove_all ms q) ≡ [])
unfolding remove_all
remove_all-IsQueueOf [] q h e = (h, e)
remove_all-IsQueueOf (m ∷ ms) q h e =
    remove_all-IsQueueOf ms (remove_message q m) (remove_message-IsQueueOf m h (at_head m ms q e))
      (messages-remove_message q m ∙ behind_head m ms q e)

-- A change of what the invariant does not speak of.
same_list-IsQueueOf :
    {n : ℕ} (q q' : Queue)
    → messages q' ≡ messages q
    → q'.depth ≡ q.depth
    → q'.inflight_count ≡ q.inflight_count
    → q'.ttl_count ≡ q.ttl_count
    → q'.max_depth ≡ q.max_depth
    → IsQueueOf n q
    → IsQueueOf n q'
same_list-IsQueueOf q q' list depth flight ttl bound h = record {
  consistent = record {
    depth = rw (list, depth) h.consistent.depth;
    inflight = rw (list, flight) h.consistent.inflight;
    ttl = rw (list, ttl) h.consistent.ttl;
    distinct = rw list h.consistent.distinct;
    room = rw (depth, bound) h.consistent.room;
  };
  below = rw list h.below;
}

pub purge_queue-IsQueueOf : {n : ℕ} (q : Queue) → IsQueueOf n q → IsQueueOf n (purge_queue q).0
unfolding purge_queue
purge_queue-IsQueueOf q h =
    same_list-IsQueueOf (remove_all (messages q) q) (purge_queue q).0 (append-nil _) refl refl refl
      refl ((remove_all-IsQueueOf (messages q) q h refl).0)

-- A purge leaves no message.
pub purge_queue-messages : {n : ℕ} (q : Queue) → IsQueueOf n q → messages (purge_queue q).0 ≡ []
unfolding purge_queue
purge_queue-messages q h = append-nil _ ∙ (remove_all-IsQueueOf (messages q) q h refl).1

abbrev IsKept : Store × Queue × Removed → Type 0
IsKept r = IsSound r.0 × IsQueueOf r.0.next_id r.1

report_removed-IsSound :
    (seq_before : ℕ) (r : Store × Queue × Removed)
    → IsKept r
    → IsSound (report_removed seq_before r).0
unfolding report_removed
report_removed-IsSound seq_before (s, q, Removed.removed n) (hs, hq) =
    wait_written-IsSound seq_before (write_back s q) (write_back-IsSound s q hs hq)
report_removed-IsSound seq_before (s, q, Removed.error) (hs, hq) = write_back-IsSound s q hs hq
report_removed-IsSound seq_before (s, q, Removed.absent) (hs, hq) = write_back-IsSound s q hs hq
report_removed-IsSound seq_before (s, q, Removed.stale) (hs, hq) = write_back-IsSound s q hs hq
report_removed-IsSound seq_before (s, q, Removed.routes_remain) (hs, hq) =
    write_back-IsSound s q hs hq

purge_logged-IsKept :
    (l : Store × Bool) (q : Queue)
    → IsSound l.0
    → IsQueueOf l.0.next_id q
    → IsKept (purge_logged l q)
unfolding purge_logged
purge_logged-IsKept (s, false) q hs hq = (hs, hq)
purge_logged-IsKept (s, true) q hs hq = (hs, purge_queue-IsQueueOf q hq)

purge_in-IsSound :
    (o : Option Queue) (s : Store) (expected : Option ℕ)
    → IsSound s
    → ((q : Queue) → o ≡ some q → IsQueueOf s.next_id q)
    → IsSound (purge_in o s expected).0
unfolding purge_in purge_one append_log
purge_in-IsSound none s expected hs found = hs
purge_in-IsSound (some q) s expected hs found =
    if_cases (λ (r : Store × Removed). IsSound r.0) (is_stale expected q) _ _ (λ _. hs)
      (λ _. report_removed-IsSound s.wal.wal_seq _ (purge_logged-IsKept _ q hs (found q refl)))

-- A purge, whatever it returns, keeps every queue's counters, ids and bound.
pub queue_purge_checked-IsSound :
    (s : Store) (name : List ℕ) (expected : Option ℕ)
    → IsSound s
    → IsSound (queue_purge_checked s name expected).0
unfolding queue_purge_checked
queue_purge_checked-IsSound s name expected hs =
    if_cases (λ (r : Store × Removed). IsSound r.0) (not (is_name name)) _ _ (λ _. hs)
      (λ _.
        purge_in-IsSound (find_queue name s.queues) s expected hs
          (λ q e. find_queue-All (IsQueueOf s.next_id) name s.queues q hs e))

tombstone-IsQueueOf : {n : ℕ} (q : Queue) → IsQueueOf n q → IsQueueOf n (tombstone q)
unfolding tombstone
tombstone-IsQueueOf q h = same_list-IsQueueOf q (tombstone q) refl refl refl refl refl h

delete_logged-IsKept :
    (l : Store × Bool) (q : Queue)
    → IsSound l.0
    → IsQueueOf l.0.next_id q
    → IsKept (delete_logged l q)
unfolding delete_logged
delete_logged-IsKept (s, false) q hs hq = (hs, hq)
delete_logged-IsKept (s, true) q hs hq =
    (hs, tombstone-IsQueueOf (purge_queue q).0 (purge_queue-IsQueueOf q hq))

delete_in-IsSound :
    (o : Option Queue) (s : Store) (expected : ℕ)
    → IsSound s
    → ((q : Queue) → o ≡ some q → IsQueueOf s.next_id q)
    → IsSound (delete_in o s expected).0
unfolding delete_in delete_one append_log
delete_in-IsSound none s expected hs found = hs
delete_in-IsSound (some q) s expected hs found =
    if_cases (λ (r : Store × Removed). IsSound r.0) (not (q.revision == expected)) _ _ (λ _. hs)
      (λ _.
        if_cases (λ (r : Store × Removed). IsSound r.0) (is_routed_to q.name s.exchanges) _ _
          (λ _. hs)
          (λ _.
            report_removed-IsSound s.wal.wal_seq _ (delete_logged-IsKept _ q hs (found q refl))))

-- A deletion, whatever it returns, keeps every queue's counters, ids and bound.
pub queue_delete_if_revision-IsSound :
    (s : Store) (name : List ℕ) (expected : ℕ)
    → IsSound s
    → IsSound (queue_delete_if_revision s name expected).0
unfolding queue_delete_if_revision
queue_delete_if_revision-IsSound s name expected hs =
    if_cases (λ (r : Store × Removed). IsSound r.0) (not (is_name name)) _ _ (λ _. hs)
      (λ _.
        delete_in-IsSound (find_queue name s.queues) s expected hs
          (λ q e. find_queue-All (IsQueueOf s.next_id) name s.queues q hs e))
