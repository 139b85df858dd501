-- ===== src/Queue/Publish.antt =====
-- src/queue.c: `publish_one_locked` and `queue_publish`. The result is the message's id, or nothing
-- where the code returns -1.
pub mod Sound
pub mod Exact
pub mod Durable
use kuttidb.Base.{
  ℕ, Bool, true, false, ◌&&◌, ◌||◌, not, Option, none, some, List, [], ◌∷◌, ◌==◌, leb, ltb,
  if◌then◌else◌, length, add64,
}
use kuttidb.Wal.{Op, Wal, wait_durable}
use kuttidb.Queue.{Queue, Store, Clocks, find_queue, write_back, queue_name_max, queue_message_max}
use kuttidb.Queue.Messages.{append_message}
use kuttidb.Queue.DeadLetter.{append_log}
use kuttidb.Queue.Reap.{reap_queue}

-- A bounded queue that has no room.
unfoldable pub is_full : Queue → Bool
is_full q = not (q.max_depth == 0) && leb q.max_depth q.depth

abbrev pub expiry : Clocks → ℕ → ℕ
expiry t ttl_ms = if ttl_ms == 0 then 0 else add64 t.now ttl_ms

-- After the record: the message is appended, or the call fails.
unfoldable pub append_published : Store × Bool → Queue → ℕ → ℕ → List ℕ → Store × Queue × Option ℕ
append_published (s, false) q id expires_ms payload = (s, q, none)
append_published (s, true) q id expires_ms payload =
    (s, append_message q id expires_ms payload, some id)

-- After the reap.
unfoldable pub accept : Clocks → Store → Queue → List ℕ → ℕ → Store × Queue × Option ℕ
accept t s q payload ttl_ms =
    if is_full q
    then (s, q, none)
    else append_published
        (append_log (record s { next_id = add64 s.next_id 1 }) Op.log_publish q s.next_id
          (expiry t ttl_ms) payload)
        q s.next_id (expiry t ttl_ms) payload

unfoldable pub publish_one :
    List (List ℕ) → Clocks → Store → Queue → List ℕ → ℕ → Store × Queue × Option ℕ
publish_one held t s q payload ttl_ms =
    let (s', q') = reap_queue held t s q in accept t s' q' payload ttl_ms

-- Wait until everything that was written is durable, if this call wrote anything.
unfoldable pub wait_written : ℕ → Store → Store × Bool
wait_written seq_before s =
    let (w, ok) = wait_durable s.wal s.wal.wal_seq in
    if s.wal.wal_seq == seq_before then (s, true) else (record s { wal = w }, ok)

-- A name that the operations accept.
unfoldable pub is_name : List ℕ → Bool
is_name name = ltb 0 (length name) && leb (length name) queue_name_max

unfoldable pub report_published : ℕ → Store × Queue × Option ℕ → Store × Option ℕ
report_published seq_before (s, q, none) = (write_back s q, none)
report_published seq_before (s, q, some id) =
    let (s', ok) = wait_written seq_before (write_back s q) in (s', if ok then some id else none)

unfoldable pub publish_to :
    Option Queue → List (List ℕ) → Clocks → Store → List ℕ → ℕ → Store × Option ℕ
publish_to none held t s payload ttl_ms = (s, none)
publish_to (some q) held t s payload ttl_ms =
    report_published s.wal.wal_seq (publish_one (q.name ∷ held) t s q payload ttl_ms)

unfoldable pub queue_publish :
    List (List ℕ) → Clocks → Store → List ℕ → List ℕ → ℕ → Store × Option ℕ
queue_publish held t s name payload ttl_ms =
    if not (is_name name) || ltb queue_message_max (length payload)
    then (s, none)
    else publish_to (find_queue name s.queues) held t s payload ttl_ms
