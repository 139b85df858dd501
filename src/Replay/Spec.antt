-- ===== src/Replay/Spec.antt =====
-- What the log of the queues means: a list of durable queues, and what a record changes in it.
use kuttidb.Base.{
  ℕ, Bool, true, false, not, ◌&&◌, ◌||◌, Option, none, some, List, [], ◌∷◌, ◌++◌, ◌==◌, map,
  bytes_eq, if◌then◌else◌, length, add32,
}
use kuttidb.Wal.{Op, LogRecord}
use kuttidb.Queue.{Message, Queue, messages, is_empty}
use kuttidb.Replay.{declared_policy}

-- What a restart keeps of a message: not its lease, its owner, its tag or its retry time.
pub record KeptMessage : Type 0 where
  pub id : ℕ
  pub expires_ms : ℕ
  pub deliveries : ℕ
  pub payload : List ℕ

pub record KeptQueue : Type 0 where
  pub name : List ℕ
  pub max_depth : ℕ
  pub dlq_name : List ℕ
  pub max_deliveries : ℕ
  pub held : List KeptMessage

abbrev pub kept_message : Message → KeptMessage
kept_message m = record {
  id = m.id;
  expires_ms = m.expires_ms;
  deliveries = m.deliveries;
  payload = m.payload;
}

abbrev pub kept_messages : List Message → List KeptMessage
kept_messages = map kept_message

abbrev pub kept_queue : Queue → KeptQueue
kept_queue q = record {
  name = q.name;
  max_depth = q.max_depth;
  dlq_name = q.dlq_name;
  max_deliveries = q.max_deliveries;
  held = kept_messages (messages q);
}

-- The live durable queues, in the order of the store.
unfoldable pub kept_queues : List Queue → List KeptQueue
kept_queues [] = []
kept_queues (q ∷ qs) =
    if q.durable && not q.deleted then kept_queue q ∷ kept_queues qs else kept_queues qs

unfoldable pub without : ℕ → List KeptMessage → List KeptMessage
without id [] = []
without id (m ∷ ms) = if m.id == id then ms else m ∷ without id ms

unfoldable pub delivered_again : ℕ → List KeptMessage → List KeptMessage
delivered_again id [] = []
delivered_again id (m ∷ ms) =
    if m.id == id
    then (record m { deliveries = add32 m.deliveries 1 }) ∷ ms
    else m ∷ delivered_again id ms

-- A record of a message, in its queue.
unfoldable pub held_after : Op → LogRecord → List KeptMessage → List KeptMessage
held_after Op.log_publish r ms =
    ms ++ (record { id = r.id; expires_ms = r.aux; deliveries = 0; payload = r.payload }) ∷ []
held_after Op.log_ack r ms = without r.id ms
held_after Op.log_deliver r ms = delivered_again r.id ms
held_after Op.log_purge r ms = []
held_after _ r ms = ms

abbrev pub queue_after : Op → LogRecord → KeptQueue → KeptQueue
queue_after op r k = record k { held = held_after op r k.held }

unfoldable pub find_kept : List ℕ → List KeptQueue → Option KeptQueue
find_kept name [] = none
find_kept name (k ∷ ks) = if bytes_eq k.name name then some k else find_kept name ks

unfoldable pub update_kept : List ℕ → KeptQueue → List KeptQueue → List KeptQueue
update_kept name k' [] = []
update_kept name k' (k ∷ ks) = if bytes_eq k.name name then k' ∷ ks else k ∷ update_kept name k' ks

unfoldable pub drop_kept : List ℕ → List KeptQueue → List KeptQueue
drop_kept name [] = []
drop_kept name (k ∷ ks) = if bytes_eq k.name name then ks else k ∷ drop_kept name ks

-- Only a queue that is there can change.
unfoldable pub change_kept :
    Option KeptQueue → Op → LogRecord → List KeptQueue → Option (List KeptQueue)
change_kept none op r ks = none
change_kept (some k) op r ks = some (update_kept r.name (queue_after op r k) ks)

abbrev pub same_policy : KeptQueue → List ℕ → ℕ → Bool
same_policy k dlq max_deliveries =
    length k.dlq_name == length dlq
    && (is_empty dlq || (k.max_deliveries == max_deliveries && bytes_eq k.dlq_name dlq))

-- A new queue stands in front. A name that is in use has to be declared as it was.
unfoldable pub declare_kept :
    Option KeptQueue → Option (List ℕ × ℕ) → LogRecord → List KeptQueue → Option (List KeptQueue)
declare_kept k none r ks = none
declare_kept (some k) (some (dlq, max_deliveries)) r ks =
    if same_policy k dlq max_deliveries then some ks else none
declare_kept none (some (dlq, max_deliveries)) r ks =
    if not (is_empty dlq) && bytes_eq dlq r.name
    then none
    else some (
        (record {
          name = r.name;
          max_depth = r.aux;
          dlq_name = dlq;
          max_deliveries = if is_empty dlq then 0 else max_deliveries;
          held = [];
        })
        ∷ ks)

-- The records of exchanges are no part of this.
unfoldable pub kept_op : Op → LogRecord → List KeptQueue → Option (List KeptQueue)
kept_op Op.log_declare r ks = declare_kept (find_kept r.name ks) (declared_policy r.payload) r ks
kept_op Op.log_delete r ks = some (drop_kept r.name ks)
kept_op Op.log_publish r ks = change_kept (find_kept r.name ks) Op.log_publish r ks
kept_op Op.log_ack r ks = change_kept (find_kept r.name ks) Op.log_ack r ks
kept_op Op.log_deliver r ks = change_kept (find_kept r.name ks) Op.log_deliver r ks
kept_op Op.log_requeue r ks = change_kept (find_kept r.name ks) Op.log_requeue r ks
kept_op Op.log_purge r ks = change_kept (find_kept r.name ks) Op.log_purge r ks
kept_op _ r ks = none

abbrev pub is_queue_op : Op → Bool
is_queue_op Op.log_exdeclare = false
is_queue_op Op.log_exbind = false
is_queue_op Op.log_exunbind = false
is_queue_op Op.log_exdelete = false
is_queue_op Op.log_exupdate = false
is_queue_op _ = true

unfoldable pub kept_after : LogRecord → List KeptQueue → Option (List KeptQueue)
unfolding kept_op change_kept declare_kept
kept_after r ks = kept_op r.op r ks

unfoldable pub then_run :
    (List KeptQueue → Option (List KeptQueue)) → Option (List KeptQueue) → Option (List KeptQueue)
then_run f none = none
then_run f (some ks) = f ks

unfoldable pub kept_run : List LogRecord → List KeptQueue → Option (List KeptQueue)
unfolding then_run
kept_run [] ks = some ks
kept_run (r ∷ rs) ks = then_run (kept_run rs) (kept_after r ks)
