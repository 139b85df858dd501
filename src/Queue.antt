-- ===== src/Queue.antt =====
-- src/queue.c: the queue engine's state. `Message`, `Queue`, `Binding`, `Exchange` and
-- `QueueStore`, name lookup and creation. The children hold the operations (`Lists`, `Messages`, `DeadLetter`, `Reap`, `Publish`,
-- `Consume`, `Settle`, `Admin`) and what is proved of them.
--
-- A linked list is a list. The pointer `ready_hint` into it is the place where the list is cut:
-- `before` is what stands in front of the hint, `from_hint` begins with the message that it points
-- to, and an empty `from_hint` is the null pointer. A pointer to a message is the message's id.
-- `malloc` succeeds. Counters of objects in memory (`depth`, `inflight`, `ttl_count`) cannot reach
-- their width, and are not wrapped.
pub mod Lists
pub mod Messages
pub mod Counts
pub mod Places
pub mod Invariant
pub mod Sound
pub mod DeadLetter
pub mod Reap
pub mod Publish
pub mod Consume
pub mod Settle
pub mod Admin
pub mod Lookup
pub mod Presence
pub mod Logging
pub mod Steps
use kuttidb.Base.{
  ℕ, ◌+◌, ◌*◌, ◌^◌, Bool, true, false, not, ◌&&◌, Option, none, some, List, [], ◌∷◌, ◌++◌, ◌==◌,
  bytes_eq, if◌then◌else◌, length, add64, u64_max,
}
use kuttidb.Wal.{Wal}

pub data MessageState : Type 0 where
  ready inflight : MessageState

-- `timer` is the union of `not_before_ms` (ready) and `visibility_deadline_ms` (in flight).
pub record Message : Type 0 where
  pub id : ℕ
  pub delivery_tag : ℕ
  pub owner : ℕ
  pub expires_ms : ℕ
  pub timer : ℕ
  pub deliveries : ℕ
  pub wal_footprint : ℕ
  pub state : MessageState
  pub payload : List ℕ

pub record Queue : Type 0 where
  pub name : List ℕ
  pub lock_id : ℕ
  pub incarnation : ℕ
  pub max_depth : ℕ
  pub depth : ℕ
  pub inflight_count : ℕ
  pub revision : ℕ
  pub durable : Bool
  pub deleted : Bool
  pub dlq_name : List ℕ
  pub max_deliveries : ℕ
  pub live_bytes : ℕ
  pub ttl_count : ℕ
  pub earliest_visibility : ℕ
  pub before : List Message
  pub from_hint : List Message

abbrev pub messages : Queue → List Message
messages q = q.before ++ q.from_hint

pub record Binding : Type 0 where
  pub queue : List ℕ
  pub key : List ℕ

pub data ExchangeType : Type 0 where
  direct fanout topic : ExchangeType

pub record Exchange : Type 0 where
  pub name : List ℕ
  pub kind : ExchangeType
  pub durable : Bool
  pub ae_name : List ℕ
  pub bindings : List Binding
  pub binding_count : ℕ
  pub revision : ℕ
  pub publish_attempt_count : ℕ
  pub unroutable_count : ℕ

pub record Store : Type 0 where
  pub queues : List Queue
  pub exchanges : List Exchange
  pub next_id : ℕ
  pub next_delivery_tag : ℕ
  pub next_incarnation : ℕ
  pub next_lock_id : ℕ
  pub redeliveries : ℕ
  pub deadlettered : ℕ
  pub unroutable : ℕ
  pub wal : Wal

-- What the clocks show during one call: `now_ms()`, `monotonic_ms()` when the queue is reaped, and
-- `monotonic_ms()` when a lease is given.
pub record Clocks : Type 0 where
  pub now : ℕ
  pub mono : ℕ
  pub lease : ℕ

abbrev pub queue_name_max : ℕ
queue_name_max = 255

abbrev pub queue_message_max : ℕ
queue_message_max = 64 * 2 ^ 20

abbrev pub log_header : ℕ
log_header = 28

-- A live queue of this name.
abbrev pub is_named : List ℕ → Queue → Bool
is_named name q = not q.deleted && bytes_eq q.name name

unfoldable pub find_queue : List ℕ → List Queue → Option Queue
find_queue name [] = none
find_queue name (q ∷ qs) = if is_named name q then some q else find_queue name qs

-- Writing through the pointer that `find_queue` returned.
unfoldable pub update_queue : List ℕ → Queue → List Queue → List Queue
update_queue name q' [] = []
update_queue name q' (q ∷ qs) = if is_named name q then q' ∷ qs else q ∷ update_queue name q' qs

abbrev pub write_back : Store → Queue → Store
write_back s q = record s { queues = update_queue q.name q s.queues }

abbrev pub is_empty : List ℕ → Bool
is_empty [] = true
is_empty (_ ∷ _) = false

-- An incarnation is never 0.
abbrev pub next_nonzero : ℕ → ℕ
next_nonzero n = if add64 n 1 == 0 then 1 else add64 n 1

pub new_queue : List ℕ → Bool → ℕ → List ℕ → ℕ → ℕ → ℕ → Queue
new_queue name durable max_depth dlq max_deliveries incarnation lock_id = record {
  name = name;
  incarnation = incarnation;
  lock_id = lock_id;
  max_depth = max_depth;
  depth = 0;
  inflight_count = 0;
  revision = 1;
  durable = durable;
  deleted = false;
  dlq_name = dlq;
  max_deliveries = if is_empty dlq then 0 else max_deliveries;
  live_bytes =
      if durable
      then log_header + length name + 9 + (if is_empty dlq then 0 else 8 + length dlq)
      else 0;
  ttl_count = 0;
  earliest_visibility = u64_max;
  before = [];
  from_hint = [];
}

-- The new queue stands in front, and is returned.
unfoldable pub create_queue : Store → List ℕ → Bool → ℕ → List ℕ → ℕ → Store × Queue
unfolding new_queue
create_queue s name durable max_depth dlq max_deliveries =
    let incarnation = next_nonzero s.next_incarnation in
    let lock_id = add64 s.next_lock_id 1 in
    let q = new_queue name durable max_depth dlq max_deliveries incarnation lock_id in
    (record s { queues = q ∷ s.queues; next_incarnation = incarnation; next_lock_id = lock_id }, q)
