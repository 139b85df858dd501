-- ===== src/Tests/Values.antt =====
-- A durable queue `q` with a ready message, its dead-letter queue, and stores with them.
use kuttidb.Base.{ℕ, true, false, List, [], ◌∷◌}
use kuttidb.Wal.{Wal}
use kuttidb.Queue.{Message, MessageState, Queue, Store, Clocks}
use kuttidb.Queue.Consume.{Request}

abbrev pub wal : Wal
wal = record {
  opened = true;
  failed = false;
  disk = [];
  records = [];
  wal_seq = 0;
  synced_seq = 0;
  fsynced = [];
}

abbrev pub failed_wal : Wal
failed_wal = record wal { failed = true }

-- "q", "d"
abbrev pub q_name : List ℕ
q_name = 113 ∷ []

abbrev pub d_name : List ℕ
d_name = 100 ∷ []

abbrev pub ready_message : Message
ready_message = record {
  id = 1;
  delivery_tag = 0;
  owner = 0;
  expires_ms = 0;
  timer = 0;
  deliveries = 0;
  wal_footprint = 30;
  state = MessageState.ready;
  payload = 7 ∷ [];
}

abbrev pub flying_message : Message
flying_message = record ready_message {
  delivery_tag = 5;
  owner = 9;
  timer = 1000;
  deliveries = 1;
  state = MessageState.inflight;
}

abbrev pub queue_with : List ℕ → List Message → ℕ → Queue
queue_with name ms inflight = record {
  name = name;
  incarnation = 1;
  lock_id = 1;
  max_depth = 0;
  depth = 1;
  inflight_count = inflight;
  revision = 1;
  durable = true;
  deleted = false;
  dlq_name = [];
  max_deliveries = 0;
  live_bytes = 68;
  ttl_count = 0;
  earliest_visibility = 1000;
  before = [];
  from_hint = ms;
}

abbrev pub ready_queue : Queue
ready_queue = queue_with q_name (ready_message ∷ []) 0

abbrev pub flying_queue : Queue
flying_queue = queue_with q_name (flying_message ∷ []) 1

-- With a dead-letter policy.
abbrev pub policy_queue : Queue
policy_queue = record ready_queue { dlq_name = d_name; max_deliveries = 3 }

abbrev pub dead_queue : Queue
dead_queue = record (queue_with d_name [] 0) { depth = 0 }

abbrev pub volatile_dead_queue : Queue
volatile_dead_queue = record dead_queue { durable = false }

abbrev pub store_of : List Queue → Store
store_of queues = record {
  queues = queues;
  exchanges = [];
  next_id = 2;
  next_delivery_tag = 6;
  next_incarnation = 2;
  next_lock_id = 2;
  redeliveries = 0;
  deadlettered = 0;
  unroutable = 0;
  wal = wal;
}

abbrev pub ready_store : Store
ready_store = store_of (ready_queue ∷ [])

abbrev pub flying_store : Store
flying_store = store_of (flying_queue ∷ [])

abbrev pub policy_store : Store
policy_store = store_of (policy_queue ∷ dead_queue ∷ [])

abbrev pub volatile_store : Store
volatile_store = store_of (policy_queue ∷ volatile_dead_queue ∷ [])

abbrev pub failed_store : Store
failed_store = record ready_store { wal = failed_wal }

abbrev pub clocks : Clocks
clocks = record { now = 100; mono = 50; lease = 51 }

abbrev pub request : Request
request = record { visibility_ms = 500; owner = 9 }

-- Its deliveries are used up; another message is behind it.
abbrev pub used_message : Message
used_message = record ready_message { deliveries = 3 }

abbrev pub next_message : Message
next_message = record ready_message { id = 2 }

abbrev pub used_queue : Queue
used_queue = record policy_queue { depth = 2; from_hint = used_message ∷ next_message ∷ [] }

abbrev pub used_store : Store
used_store = store_of (used_queue ∷ dead_queue ∷ [])
