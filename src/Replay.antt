-- ===== src/Replay.antt =====
-- src/queue.c: what `replay_log` does with a record of a queue: `apply_declare`, `apply_ack`,
-- `apply_delivery`, `apply_requeue`, `apply_purge`, `apply_delete` and the publish. A result is the
-- store, with false for the return code -1: the record is then taken for the beginning of a corrupt
-- tail.
pub mod Topology
pub mod Run
pub mod Payloads
pub mod Spec
pub mod Views
pub mod Follows
pub mod Refines
pub mod Whole
pub mod Traces
pub mod Logged
pub mod Reaping
pub mod Messages
pub mod Settled
pub mod Exchanges
pub mod Mirrored
pub mod TopologyRun
pub mod Agrees
pub mod Calls
pub mod Declared
pub mod Recovery
use kuttidb.Base.{
  ℕ, ◌+◌, ◌-◌, Bool, true, false, not, ◌&&◌, ◌||◌, Option, none, some, List, [], ◌∷◌, ◌==◌, leb,
  ltb, bytes_eq, if◌then◌else◌, length, take, drop, add32, add64,
}
use kuttidb.Wal.{Op, LogRecord}
use kuttidb.Wal.Codec.{get_bytes}
use kuttidb.Queue.{
  Message, Queue, Exchange, ExchangeType, Store, messages, find_queue, create_queue, write_back,
  is_empty, queue_name_max,
}
use kuttidb.Queue.Lists.{find_id}
use kuttidb.Queue.Messages.{
  append_message, remove_message, replace_message, make_ready, purge_queue,
}
use kuttidb.Queue.Admin.{same_declaration, tombstone}

-- The policy of a DECLARE record: none, or `[dlq_len:2][dlq_name][max_deliveries:4]`.
unfoldable pub declared_policy : List ℕ → Option (List ℕ × ℕ)
declared_policy ext =
    let dlq_len = get_bytes 2 ext in
    if is_empty ext
    then some ([], 0)
    else if ltb (length ext) 6 || ltb (6 + queue_name_max) (length ext)
    then none
    else if dlq_len == 0 || not (length ext == 6 + dlq_len)
    then none
    else some (take dlq_len (drop 2 ext), get_bytes 4 (drop (2 + dlq_len) ext))

unfoldable pub declare_replayed :
    Option Queue → Store → List ℕ → Bool → ℕ → List ℕ → ℕ → Store × Bool
declare_replayed (some q) s name durable max_depth dlq max_deliveries =
    (s, same_declaration q durable dlq max_deliveries)
declare_replayed none s name durable max_depth dlq max_deliveries =
    if not (is_empty dlq) && bytes_eq dlq name
    then (s, false)
    else ((create_queue s name durable max_depth dlq max_deliveries).0, true)

unfoldable pub apply_policy : Option (List ℕ × ℕ) → Store → List ℕ → Bool → ℕ → Store × Bool
unfolding declare_replayed
apply_policy none s name durable max_depth = (s, false)
apply_policy (some (dlq, max_deliveries)) s name durable max_depth =
    declare_replayed (find_queue name s.queues) s name durable max_depth dlq max_deliveries

unfoldable pub apply_declare : Store → List ℕ → Bool → ℕ → List ℕ → Store × Bool
unfolding apply_policy declared_policy
apply_declare s name durable max_depth ext =
    apply_policy (declared_policy ext) s name durable max_depth

-- A change of the queue that was found; a missing queue is an error.
unfoldable pub on_found : Option Queue → Store → (Queue → Queue) → Store × Bool
on_found none s f = (s, false)
on_found (some q) s f = (write_back s (f q), true)

-- The id of a replayed message is not given out again.
unfoldable pub past_id : Store → ℕ → Store
past_id s id = if leb s.next_id id then record s { next_id = add64 id 1 } else s

-- Only a durable queue takes a replayed message.
unfoldable pub publish_replayed : Option Queue → Store → ℕ → ℕ → List ℕ → Store × Bool
publish_replayed none s id expires_ms payload = (s, false)
publish_replayed (some q) s id expires_ms payload =
    if q.durable then (write_back s (append_message q id expires_ms payload), true) else (s, false)

unfoldable pub apply_publish : Store → List ℕ → ℕ → ℕ → List ℕ → Store × Bool
unfolding publish_replayed past_id
apply_publish s name id expires_ms payload =
    let (s', ok) = publish_replayed (find_queue name s.queues) s id expires_ms payload in
    (past_id s' id, ok)

-- The changes of the message that a record names, where it is still there.
unfoldable pub acked : Option Message → Queue → Queue
acked none q = q
acked (some m) q = remove_message q m

unfoldable pub redelivered : Option Message → Queue → Queue
redelivered none q = q
redelivered (some m) q = replace_message q (record m { deliveries = add32 m.deliveries 1 })

unfoldable pub returned : Option Message → ℕ → Queue → Queue
returned none not_before_ms q = q
returned (some m) not_before_ms q = replace_message q (make_ready m not_before_ms)

unfoldable pub apply_ack : Store → List ℕ → ℕ → Store × Bool
unfolding on_found acked
apply_ack s name id = on_found (find_queue name s.queues) s (λ q. acked (find_id id (messages q)) q)

unfoldable pub apply_delivery : Store → List ℕ → ℕ → Store × Bool
unfolding on_found redelivered
apply_delivery s name id =
    on_found (find_queue name s.queues) s (λ q. redelivered (find_id id (messages q)) q)

unfoldable pub apply_requeue : Store → List ℕ → ℕ → ℕ → Store × Bool
unfolding on_found returned
apply_requeue s name id not_before_ms =
    on_found (find_queue name s.queues) s (λ q. returned (find_id id (messages q)) not_before_ms q)

unfoldable pub apply_purge : Store → List ℕ → Store × Bool
unfolding on_found
apply_purge s name = on_found (find_queue name s.queues) s (λ q. (purge_queue q).0)

unfoldable pub delete_replayed : Option Queue → Store → Store × Bool
delete_replayed none s = (s, true)
delete_replayed (some q) s = (write_back s (tombstone (purge_queue q).0), true)

unfoldable pub apply_delete : Store → List ℕ → Store × Bool
unfolding delete_replayed
apply_delete s name = delete_replayed (find_queue name s.queues) s
