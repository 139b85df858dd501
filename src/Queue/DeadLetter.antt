-- ===== src/Queue/DeadLetter.antt =====
-- src/queue.c: `dead_letter_locked`. `held` lists the names of the queues whose locks are taken, by
-- this call or by another thread: a `trylock` on one of them fails. The name `metadata_lock` among them is the store's own lock.
pub mod Sound
pub mod Exact
pub mod Logged
use kuttidb.Base.{
  ℕ, ◌+◌, Bool, true, false, ◌&&◌, ◌||◌, not, Option, none, some, List, [], ◌∷◌, ◌==◌, leb,
  bytes_eq, if◌then◌else◌, add64,
}
use kuttidb.Wal.{LogRecord, Op, Wal, append_record, sync_log}
use kuttidb.Queue.{Message, Queue, Store, find_queue, create_queue, write_back, is_empty}
use kuttidb.Queue.Messages.{append_message, remove_message}

-- `append_log`: a record of this queue.
unfoldable pub append_log : Store → Op → Queue → ℕ → ℕ → List ℕ → Store × Bool
append_log s op q id aux payload =
    let (w, ok) = append_record s.wal (record {
      op = op;
      durable = q.durable;
      name = q.name;
      id = id;
      aux = aux;
      payload = payload;
    }) in
    (record s { wal = w }, ok)

-- `sync_log` on the store.
unfoldable pub sync_store : Store → Store × Bool
sync_store s = let (w, ok) = sync_log s.wal in (record s { wal = w }, ok)

pub data Routing : Type 0 where
  no_policy kept routed : Routing

unfoldable pub is_held : List ℕ → List (List ℕ) → Bool
is_held name [] = false
is_held name (n ∷ ns) = bytes_eq n name || is_held name ns

-- The store's own lock among the locks that others hold, as a name that no queue has. The sweep, which
-- holds it itself (`metadata_held`), leaves it out.
abbrev pub metadata_lock : List ℕ
metadata_lock = []

-- After the declaration's record: the queue has the source's durability, no bound and no policy.
unfoldable pub create_dlq : Store × Bool → Queue → Store × Option Queue
create_dlq (s, false) q = (s, none)
create_dlq (s, true) q =
    let (s', dlq) = create_queue s q.dlq_name q.durable 0 [] 0 in (s', some dlq)

unfoldable pub declare_dlq : Store → Queue → Store × Option Queue
declare_dlq s q = create_dlq (append_log s Op.log_declare (record q { name = q.dlq_name }) 0 0 []) q

-- The dead-letter queue, declared on demand.
unfoldable pub found_or_declared : Option Queue → Store → Queue → Store × Option Queue
found_or_declared (some dlq) s q = (s, some dlq)
found_or_declared none s q = declare_dlq s q

unfoldable pub resolve_dlq : Store → Queue → Store × Option Queue
resolve_dlq s q = found_or_declared (find_queue q.dlq_name s.queues) s q

-- Both records of a durable copy, and the fsync that covers them.
unfoldable pub log_routing : Store → Queue → Queue → Message → ℕ → ℕ → Store × Bool
log_routing s q dlq m id expires_ms =
    if not dlq.durable
    then (s, true)
    else let (s1, published) = append_log s Op.log_publish dlq id expires_ms m.payload in
      let (s2, acked) = append_log s1 Op.log_ack q m.id 0 [] in
      let (s3, synced) = sync_store s2 in
      if not published then (s1, false) else if not acked then (s2, false) else (s3, synced)

-- Its lock is taken, or it has no room.
unfoldable pub refuses : List (List ℕ) → Queue → Bool
refuses held dlq =
    is_held dlq.name held || (not (dlq.max_depth == 0) && leb dlq.max_depth dlq.depth)

-- What follows once the log has both records, or could not take them: the copy goes to `dlq`, and
-- the message leaves `q`.
unfoldable pub move_message :
    Store × Bool → Queue → Message → ℕ → ℕ → Queue → Store × Queue × Routing
move_message (s, false) q m id expires_ms dlq = (s, q, Routing.kept)
move_message (s, true) q m id expires_ms dlq = (
  record (write_back s (append_message dlq id expires_ms m.payload)) {
    deadlettered = add64 s.deadlettered 1;
  },
  remove_message q m,
  Routing.routed,
)

unfoldable pub route_copy : Store → Queue → Message → ℕ → Queue → Store × Queue × Routing
route_copy s q m expires_ms dlq =
    move_message
      (log_routing (record s { next_id = add64 s.next_id 1 }) q dlq m s.next_id expires_ms) q m
      s.next_id expires_ms dlq

unfoldable pub route_to :
    List (List ℕ) → Store → Queue → Message → Bool → Queue → Store × Queue × Routing
route_to held s q m clear_expiry dlq =
    if refuses held dlq
    then (s, q, Routing.kept)
    else route_copy s q m (if clear_expiry then 0 else m.expires_ms) dlq

-- The steps once the dead-letter queue is resolved, or could not be.
unfoldable pub route_resolved :
    List (List ℕ) → Store × Option Queue → Queue → Message → Bool → Store × Queue × Routing
route_resolved held (s, none) q m clear_expiry = (s, q, Routing.kept)
route_resolved held (s, some dlq) q m clear_expiry = route_to held s q m clear_expiry dlq

unfoldable pub dead_letter :
    List (List ℕ) → Store → Queue → Message → Bool → Store × Queue × Routing
dead_letter held s q m clear_expiry =
    if is_empty q.dlq_name
    then (s, q, Routing.no_policy)
    else if is_held metadata_lock held
    then (s, q, Routing.kept)
    else route_resolved held (resolve_dlq s q) q m clear_expiry
