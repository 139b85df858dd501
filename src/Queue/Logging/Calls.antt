-- ===== src/Queue/Logging/Calls.antt =====
-- What the whole calls do to the log.
use kuttidb.Base.{
  ℕ, Bool, true, false, not, ◌||◌, ◌==◌, List, [], Option, some, none, if_cases, ltb, length,
}
use kuttidb.Wal.{Op}
use kuttidb.Wal.Durability.{Extends, Extends-refl, Extends-trans, append_record-Extends}
use kuttidb.Queue.{Queue, Store, write_back, queue_message_max, create_queue}
use kuttidb.Queue.Publish.{is_name, queue_publish}
use kuttidb.Queue.Consume.{queue_consume_for_owner}
use kuttidb.Queue.Settle.{Settled, queue_ack_for_owner, queue_nack_for_owner_delay}
use kuttidb.Queue.Admin.{
  bad_policy, create_declared, declare_new, declare_or_compare, queue_declare_ex, Removed,
  purge_logged, purge_one, report_removed, is_stale, purge_in, queue_purge_checked, is_routed_to,
  delete_logged, delete_one, delete_in, queue_delete_if_revision,
}
use kuttidb.Queue.Steps.{Call, perform}
use kuttidb.Queue.Logging.{Logs, append_log-Logs, wait_written-Logs}
use kuttidb.Queue.Logging.Messages.{publish_to-Logs, consume_from-Logs}
use kuttidb.Queue.Logging.Settle.{ack_in-Logs, nack_in-Logs}

report_removed-Logs :
    (seq_before : ℕ) (r : Store × Queue × Removed) → Logs r.0 (report_removed seq_before r).0
unfolding report_removed
report_removed-Logs seq_before (s, q, Removed.removed n) =
    wait_written-Logs seq_before (write_back s q)
report_removed-Logs seq_before (s, q, Removed.error) = Extends-refl s.wal
report_removed-Logs seq_before (s, q, Removed.absent) = Extends-refl s.wal
report_removed-Logs seq_before (s, q, Removed.stale) = Extends-refl s.wal
report_removed-Logs seq_before (s, q, Removed.routes_remain) = Extends-refl s.wal

purge_logged-Logs : (l : Store × Bool) (q : Queue) → Logs l.0 (purge_logged l q).0
unfolding purge_logged
purge_logged-Logs (s, false) q = Extends-refl s.wal
purge_logged-Logs (s, true) q = Extends-refl s.wal

delete_logged-Logs : (l : Store × Bool) (q : Queue) → Logs l.0 (delete_logged l q).0
unfolding delete_logged
delete_logged-Logs (s, false) q = Extends-refl s.wal
delete_logged-Logs (s, true) q = Extends-refl s.wal

abbrev LogsRemoved : Store → Store × Removed → Type 0
LogsRemoved s r = Logs s r.0

purge_in-Logs :
    (o : Option Queue) (s : Store) (expected : Option ℕ) → Logs s (purge_in o s expected).0
unfolding purge_in purge_one
purge_in-Logs none s expected = Extends-refl s.wal
purge_in-Logs (some q) s expected =
    if_cases (LogsRemoved s) (is_stale expected q) _ _ (λ _. Extends-refl s.wal)
      (λ _.
        Extends-trans
          (Extends-trans (append_log-Logs s Op.log_purge q q.depth 0 []) (purge_logged-Logs _ q))
          (report_removed-Logs s.wal.wal_seq _))

delete_in-Logs : (o : Option Queue) (s : Store) (expected : ℕ) → Logs s (delete_in o s expected).0
unfolding delete_in delete_one
delete_in-Logs none s expected = Extends-refl s.wal
delete_in-Logs (some q) s expected =
    if_cases (LogsRemoved s) (not (q.revision == expected)) _ _ (λ _. Extends-refl s.wal)
      (λ _.
        if_cases (LogsRemoved s) (is_routed_to q.name s.exchanges) _ _ (λ _. Extends-refl s.wal)
          (λ _.
            Extends-trans
              (Extends-trans (append_log-Logs s Op.log_delete q q.depth 0 [])
                (delete_logged-Logs _ q))
              (report_removed-Logs s.wal.wal_seq _)))

create_declared-Logs :
    (seq_before : ℕ) (r : Store × Bool) (name : List ℕ) (durable : Bool) (max_depth : ℕ)
    (dlq : List ℕ) (max_deliveries : ℕ)
    → Logs r.0 (create_declared seq_before r name durable max_depth dlq max_deliveries).0
unfolding create_declared create_queue
create_declared-Logs seq_before (s, false) name durable max_depth dlq max_deliveries =
    Extends-refl s.wal
create_declared-Logs seq_before (s, true) name durable max_depth dlq max_deliveries =
    wait_written-Logs seq_before (create_queue s name durable max_depth dlq max_deliveries).0

declare_or_compare-Logs :
    (o : Option Queue) (s : Store) (name : List ℕ) (durable : Bool) (max_depth : ℕ) (dlq : List ℕ)
    (max_deliveries : ℕ)
    → Logs s (declare_or_compare o s name durable max_depth dlq max_deliveries).0
unfolding declare_or_compare declare_new
declare_or_compare-Logs (some q) s name durable max_depth dlq max_deliveries = Extends-refl s.wal
declare_or_compare-Logs none s name durable max_depth dlq max_deliveries =
    Extends-trans (append_record-Extends s.wal _)
      (create_declared-Logs s.wal.wal_seq _ name durable max_depth dlq max_deliveries)

-- Whatever a call is and whatever the disk answers, the log after it begins with the log before it,
-- a failed log stays failed, and `wal_seq` still counts the records if it did.
pub perform-Logs : (c : Call) (s : Store) → Extends s.wal (perform c s).wal
unfolding perform queue_declare_ex queue_publish queue_consume_for_owner queue_ack_for_owner
    queue_nack_for_owner_delay queue_purge_checked queue_delete_if_revision
perform-Logs (Call.declare name durable max_depth dlq max_deliveries) s =
    if_cases (λ (r : Store × Bool). Logs s r.0)
      (not (is_name name) || bad_policy name dlq max_deliveries) _ _ (λ _. Extends-refl s.wal)
      (λ _. declare_or_compare-Logs _ s name durable max_depth dlq max_deliveries)
perform-Logs (Call.publish held t name payload ttl_ms) s =
    if_cases (λ (r : Store × Option ℕ). Logs s r.0)
      (not (is_name name) || ltb queue_message_max (length payload)) _ _ (λ _. Extends-refl s.wal)
      (λ _. publish_to-Logs _ held t s payload ttl_ms)
perform-Logs (Call.consume held t r name) s = consume_from-Logs _ held t r s
perform-Logs (Call.ack name tag owner) s =
    if_cases (λ (r : Store × Settled). Logs s r.0) (tag == 0) _ _ (λ _. Extends-refl s.wal)
      (λ _. ack_in-Logs _ s tag owner)
perform-Logs (Call.nack held t name tag owner requeue delay_ms) s =
    if_cases (λ (r : Store × Settled). Logs s r.0) (tag == 0) _ _ (λ _. Extends-refl s.wal)
      (λ _. nack_in-Logs _ held t s tag owner requeue delay_ms)
perform-Logs (Call.purge name expected) s =
    if_cases (LogsRemoved s) (not (is_name name)) _ _ (λ _. Extends-refl s.wal)
      (λ _. purge_in-Logs _ s expected)
perform-Logs (Call.delete name expected) s =
    if_cases (LogsRemoved s) (not (is_name name)) _ _ (λ _. Extends-refl s.wal)
      (λ _. delete_in-Logs _ s expected)
