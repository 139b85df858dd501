-- ===== src/Queue/Steps.antt =====
-- src/queue.c: runs of the engine, one call after another from an empty store.
use kuttidb.Base.{ℕ, ◌+◌, ◌<◌, Bool, Option, List, [], u64_mod}
use kuttidb.Wal.{Wal}
use kuttidb.Queue.{Store, Clocks}
use kuttidb.Queue.Sound.{IsSound}
use kuttidb.Queue.Publish.{queue_publish}
use kuttidb.Queue.Publish.Sound.{HasIds, queue_publish-IsSound}
use kuttidb.Queue.Consume.{Request, queue_consume_for_owner}
use kuttidb.Queue.Consume.Sound.{queue_consume_for_owner-IsSound}
use kuttidb.Queue.Settle.{queue_ack_for_owner, queue_nack_for_owner_delay}
use kuttidb.Queue.Settle.Whole.{queue_ack_for_owner-IsSound, queue_nack_for_owner_delay-IsSound}
use kuttidb.Queue.Admin.{queue_declare_ex, queue_purge_checked, queue_delete_if_revision}
use kuttidb.Queue.Admin.Sound.{
  queue_declare_ex-IsSound, queue_purge_checked-IsSound, queue_delete_if_revision-IsSound,
}

-- One call with its arguments: for a message operation also the locks that other threads hold, and
-- the clocks.
pub data Call : Type 0 where
  declare : List ℕ → Bool → ℕ → List ℕ → ℕ → Call
  publish : List (List ℕ) → Clocks → List ℕ → List ℕ → ℕ → Call
  consume : List (List ℕ) → Clocks → Request → List ℕ → Call
  ack : List ℕ → ℕ → ℕ → Call
  nack : List (List ℕ) → Clocks → List ℕ → ℕ → ℕ → Bool → ℕ → Call
  purge : List ℕ → Option ℕ → Call
  delete : List ℕ → ℕ → Call

unfoldable pub perform : Call → Store → Store
perform (Call.declare name durable max_depth dlq max_deliveries) s =
    (queue_declare_ex s name durable max_depth dlq max_deliveries).0
perform (Call.publish held t name payload ttl_ms) s = (queue_publish held t s name payload ttl_ms).0
perform (Call.consume held t r name) s = (queue_consume_for_owner held t r s name).0
perform (Call.ack name tag owner) s = (queue_ack_for_owner s name tag owner).0
perform (Call.nack held t name tag owner requeue delay_ms) s =
    (queue_nack_for_owner_delay held t s name tag owner requeue delay_ms).0
perform (Call.purge name expected) s = (queue_purge_checked s name expected).0
perform (Call.delete name expected) s = (queue_delete_if_revision s name expected).0

-- A store as `queue_store_open_durable` makes it, before anything is replayed.
abbrev pub empty_store : Wal → Store
empty_store w = record {
  queues = [];
  exchanges = [];
  next_id = 1;
  next_delivery_tag = 1;
  next_incarnation = 1;
  next_lock_id = 0;
  redeliveries = 0;
  deadlettered = 0;
  unroutable = 0;
  wal = w;
}

-- There are ids left for any one call.
abbrev pub HasRoom : Store → Type 0
HasRoom s = HasIds s.next_id s.queues × (s.next_id + 1 < u64_mod)

-- The stores that runs lead to.
pub data IsReachable : Store → Type 0 where
  at_start : (w : Wal) → IsReachable (empty_store w)
  after : {s : Store} → IsReachable s → HasRoom s → (c : Call) → IsReachable (perform c s)

perform-IsSound : (c : Call) (s : Store) → IsSound s → HasRoom s → IsSound (perform c s)
unfolding perform
perform-IsSound (Call.declare name durable max_depth dlq max_deliveries) s h room =
    queue_declare_ex-IsSound s name durable max_depth dlq max_deliveries h
perform-IsSound (Call.publish held t name payload ttl_ms) s h room =
    queue_publish-IsSound held t s name payload ttl_ms h room.0
perform-IsSound (Call.consume held t r name) s h room =
    queue_consume_for_owner-IsSound held t r s name h room.0
perform-IsSound (Call.ack name tag owner) s h room = queue_ack_for_owner-IsSound s name tag owner h
perform-IsSound (Call.nack held t name tag owner requeue delay_ms) s h room =
    queue_nack_for_owner_delay-IsSound held t s name tag owner requeue delay_ms h room.1
perform-IsSound (Call.purge name expected) s h room = queue_purge_checked-IsSound s name expected h
perform-IsSound (Call.delete name expected) s h room =
    queue_delete_if_revision-IsSound s name expected h

-- In every store that a run of calls leads to from an empty one, ids left at each call, every queue
-- has as many messages as `depth` says, as many in flight as `inflight_count` says, as many that
-- expire as `ttl_count` says, no id twice, no more messages than a bound that is not 0, and only
-- ids below the next one to be given out.
pub reachable-IsSound : {s : Store} → IsReachable s → IsSound s
reachable-IsSound (IsReachable.at_start w) = tt
reachable-IsSound (IsReachable.after {s} run room c) =
    perform-IsSound c s (reachable-IsSound run) room
