-- ===== src/Queue/Admin.antt =====
-- src/queue.c: `queue_declare_ex`, `queue_purge_checked` and `queue_delete_if_revision`.
pub mod Sound
pub mod Exact
use kuttidb.Base.{
  ℕ, ◌+◌, ◌/◌, ◌%◌, ◌^◌, Bool, true, false, ◌&&◌, ◌||◌, not, Option, none, some, List, [], ◌∷◌,
  ◌++◌, ◌==◌, bytes_eq, leb, if◌then◌else◌, length, add64,
}
use kuttidb.Wal.{Op, Wal, append_record}
use kuttidb.Queue.{
  Queue, Binding, Exchange, Store, find_queue, create_queue, write_back, is_empty, queue_name_max,
}
use kuttidb.Queue.Messages.{purge_queue}
use kuttidb.Queue.DeadLetter.{append_log}
use kuttidb.Queue.Publish.{is_name, wait_written}

-- `[dlq_len:2][dlq_name][max_deliveries:4]`, little-endian, or nothing.
unfoldable pub declare_payload : List ℕ → ℕ → List ℕ
declare_payload dlq max_deliveries =
    if is_empty dlq
    then []
    else (length dlq % 256) ∷ (length dlq / 256 % 256) ∷ dlq
      ++ (max_deliveries % 256)
        ∷ (max_deliveries / 2 ^ 8 % 256)
        ∷ (max_deliveries / 2 ^ 16 % 256)
        ∷ (max_deliveries / 2 ^ 24 % 256)
        ∷ []

-- The declaration that a queue was created by. The capacity is not compared.
unfoldable pub same_declaration : Queue → Bool → List ℕ → ℕ → Bool
same_declaration q durable dlq max_deliveries =
    (if q.durable then durable else not durable)
    && length q.dlq_name == length dlq
    && (is_empty dlq || (q.max_deliveries == max_deliveries && bytes_eq q.dlq_name dlq))

-- The arguments of a declaration that are refused.
unfoldable pub bad_policy : List ℕ → List ℕ → ℕ → Bool
bad_policy name dlq max_deliveries =
    if is_empty dlq
    then not (max_deliveries == 0)
    else not (leb (length dlq) queue_name_max) || bytes_eq dlq name

-- After the record: the queue is created, and the call waits for what it wrote.
unfoldable pub create_declared : ℕ → Store × Bool → List ℕ → Bool → ℕ → List ℕ → ℕ → Store × Bool
create_declared seq_before (s, false) name durable max_depth dlq max_deliveries = (s, false)
create_declared seq_before (s, true) name durable max_depth dlq max_deliveries =
    wait_written seq_before (create_queue s name durable max_depth dlq max_deliveries).0

-- True for the return code 0.
unfoldable pub declare_new : Store → List ℕ → Bool → ℕ → List ℕ → ℕ → Store × Bool
unfolding create_declared
declare_new s name durable max_depth dlq max_deliveries =
    let (w, ok) = append_record s.wal (record {
      op = Op.log_declare;
      durable = durable;
      name = name;
      id = 0;
      aux = max_depth;
      payload = declare_payload dlq max_deliveries;
    }) in
    create_declared s.wal.wal_seq (record s { wal = w }, ok) name durable max_depth dlq
      max_deliveries

unfoldable pub declare_or_compare :
    Option Queue → Store → List ℕ → Bool → ℕ → List ℕ → ℕ → Store × Bool
declare_or_compare (some q) s name durable max_depth dlq max_deliveries =
    (s, same_declaration q durable dlq max_deliveries)
declare_or_compare none s name durable max_depth dlq max_deliveries =
    declare_new s name durable max_depth dlq max_deliveries

unfoldable pub queue_declare_ex : Store → List ℕ → Bool → ℕ → List ℕ → ℕ → Store × Bool
unfolding declare_or_compare
queue_declare_ex s name durable max_depth dlq max_deliveries =
    if not (is_name name) || bad_policy name dlq max_deliveries
    then (s, false)
    else declare_or_compare (find_queue name s.queues) s name durable max_depth dlq max_deliveries

-- The return codes -1, 0, 1, 2 and 3. `out_removed` is set where the code is 1.
pub data Removed : Type 0 where
  error absent stale routes_remain : Removed
  removed : ℕ → Removed

unfoldable pub purge_logged : Store × Bool → Queue → Store × Queue × Removed
purge_logged (s, false) q = (s, q, Removed.error)
purge_logged (s, true) q = let (q', count) = purge_queue q in (s, q', Removed.removed count)

unfoldable pub purge_one : Store → Queue → Store × Queue × Removed
unfolding purge_logged
purge_one s q = purge_logged (append_log s Op.log_purge q q.depth 0 []) q

-- A removal is reported once it is durable.
unfoldable pub report_removed : ℕ → Store × Queue × Removed → Store × Removed
report_removed seq_before (s, q, Removed.removed n) =
    let (s', ok) = wait_written seq_before (write_back s q) in
    (s', if ok then Removed.removed n else Removed.error)
report_removed seq_before (s, q, other) = (write_back s q, other)

-- Where a purge is conditional, `expected` is the revision that it asks for.
abbrev pub is_stale : Option ℕ → Queue → Bool
is_stale none q = false
is_stale (some revision) q = not (q.revision == revision)

unfoldable pub purge_in : Option Queue → Store → Option ℕ → Store × Removed
unfolding report_removed
purge_in none s expected = (s, Removed.absent)
purge_in (some q) s expected =
    if is_stale expected q then (s, Removed.stale) else report_removed s.wal.wal_seq (purge_one s q)

unfoldable pub queue_purge_checked : Store → List ℕ → Option ℕ → Store × Removed
unfolding purge_in
queue_purge_checked s name expected =
    if not (is_name name)
    then (s, Removed.error)
    else purge_in (find_queue name s.queues) s expected

-- Some binding of some exchange names the queue.
unfoldable pub is_bound : List ℕ → List Binding → Bool
is_bound name [] = false
is_bound name (b ∷ bs) = bytes_eq b.queue name || is_bound name bs

unfoldable pub is_routed_to : List ℕ → List Exchange → Bool
is_routed_to name [] = false
is_routed_to name (e ∷ es) = is_bound name e.bindings || is_routed_to name es

-- The tombstone.
unfoldable pub tombstone : Queue → Queue
tombstone q = record q { live_bytes = 0; deleted = true; revision = add64 q.revision 1 }

unfoldable pub delete_logged : Store × Bool → Queue → Store × Queue × Removed
delete_logged (s, false) q = (s, q, Removed.error)
delete_logged (s, true) q =
    let (q', count) = purge_queue q in (s, tombstone q', Removed.removed count)

unfoldable pub delete_one : Store → Queue → Store × Queue × Removed
unfolding delete_logged
delete_one s q = delete_logged (append_log s Op.log_delete q q.depth 0 []) q

unfoldable pub delete_in : Option Queue → Store → ℕ → Store × Removed
unfolding report_removed
delete_in none s expected = (s, Removed.absent)
delete_in (some q) s expected =
    if not (q.revision == expected)
    then (s, Removed.stale)
    else if is_routed_to q.name s.exchanges
    then (s, Removed.routes_remain)
    else report_removed s.wal.wal_seq (delete_one s q)

unfoldable pub queue_delete_if_revision : Store → List ℕ → ℕ → Store × Removed
unfolding delete_in
queue_delete_if_revision s name expected =
    if not (is_name name)
    then (s, Removed.error)
    else delete_in (find_queue name s.queues) s expected
