-- ===== src/Queue/Messages.antt =====
-- src/queue.c: `message_create`, `message_link`, `append_message`, `remove_message`,
-- `purge_queue_locked`, and the change of a message that goes back to the ready set.
use kuttidb.Base.{
  ℕ, ◌+◌, ◌-◌, ◌%◌, ◌^◌, List, [], ◌∷◌, ◌++◌, ◌==◌, if◌then◌else◌, length, add64, sub64, u64_max,
}
use kuttidb.Queue.{Message, MessageState, Queue, messages, log_header}
use kuttidb.Queue.Lists.{is_inflight, has_id, remove_id, replace_id, clear_hint}

unfoldable pub message_create : ℕ → ℕ → List ℕ → Message
message_create id expires_ms payload = record {
  id = id;
  delivery_tag = 0;
  owner = 0;
  expires_ms = expires_ms;
  timer = 0;
  deliveries = 0;
  wal_footprint = 0;
  state = MessageState.ready;
  payload = payload;
}

-- The bytes that the message's record takes in the log.
abbrev pub footprint : Queue → Message → ℕ
footprint q m = (log_header + length q.name + length m.payload) % 2 ^ 32

unfoldable pub with_footprint : Queue → Message → Message
with_footprint q m = if q.durable then record m { wal_footprint = footprint q m } else m

-- The new message is the tail. A null hint then points to it: the list behind the hint was empty.
unfoldable pub message_link : Queue → Message → Queue
unfolding with_footprint
message_link q m = record q {
  from_hint = q.from_hint ++ with_footprint q m ∷ [];
  depth = q.depth + 1;
  revision = add64 q.revision 1;
  ttl_count = if m.expires_ms == 0 then q.ttl_count else q.ttl_count + 1;
  live_bytes = if q.durable then add64 q.live_bytes (footprint q m) else q.live_bytes;
}

unfoldable pub append_message : Queue → ℕ → ℕ → List ℕ → Queue
unfolding message_create message_link
append_message q id expires_ms payload = message_link q (message_create id expires_ms payload)

-- Where the removed message is the hint, its successor becomes the hint. `if (x) x--` is `x - 1`.
unfoldable pub remove_message : Queue → Message → Queue
remove_message q m = record q {
  before = remove_id m.id q.before;
  from_hint = if has_id m.id q.before then q.from_hint else remove_id m.id q.from_hint;
  inflight_count = if is_inflight m then q.inflight_count - 1 else q.inflight_count;
  ttl_count = if m.expires_ms == 0 then q.ttl_count else q.ttl_count - 1;
  depth = q.depth - 1;
  live_bytes = if q.durable then sub64 q.live_bytes m.wal_footprint else q.live_bytes;
  revision = add64 q.revision 1;
}

-- Another value for the message that a pointer names.
unfoldable pub replace_message : Queue → Message → Queue
replace_message q m = record q {
  before = replace_id m.id m q.before;
  from_hint = if has_id m.id q.before then q.from_hint else replace_id m.id m q.from_hint;
}

-- while (queue->head) remove_message(queue, queue->head); the list is what the loop meets.
unfoldable pub remove_all : List Message → Queue → Queue
remove_all [] q = q
remove_all (m ∷ ms) q = remove_all ms (remove_message q m)

-- Returns the number of messages that were there.
unfoldable pub purge_queue : Queue → Queue × ℕ
unfolding remove_all
purge_queue q =
    (record (clear_hint (remove_all (messages q) q)) { earliest_visibility = u64_max }, q.depth)

-- Back to the ready set: the state, the lease, the owner and the tag are cleared.
unfoldable pub make_ready : Message → ℕ → Message
make_ready m not_before_ms = record m {
  state = MessageState.ready;
  timer = not_before_ms;
  owner = 0;
  delivery_tag = 0;
}
