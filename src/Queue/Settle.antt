-- ===== src/Queue/Settle.antt =====
-- src/queue.c: `queue_ack_for_owner` and `queue_nack_for_owner_delay`.
pub mod Sound
pub mod Whole
pub mod Ends
pub mod Exact
pub mod Requeue
use kuttidb.Base.{
  ℕ, ◌+◌, ◌-◌, Bool, true, false, ◌&&◌, ◌||◌, not, Option, none, some, List, [], ◌∷◌, ◌==◌,
  if◌then◌else◌, length, add64, add32,
}
use kuttidb.Wal.{Op}
use kuttidb.Queue.{
  Message, Queue, Store, Clocks, find_queue, write_back, is_empty, messages, log_header,
}
use kuttidb.Queue.Lists.{is_inflight, find_tag, hint_at_head}
use kuttidb.Queue.Messages.{remove_message, replace_message, make_ready}
use kuttidb.Queue.DeadLetter.{Routing, append_log, sync_store, dead_letter}

-- The return codes -1, 0 and 1.
pub data Settled : Type 0 where
  error not_active settled : Settled

-- The active delivery with this tag and this owner.
unfoldable pub if_active : Option Message → ℕ → Option Message
if_active none owner = none
if_active (some m) owner = if is_inflight m && m.owner == owner then some m else none

unfoldable pub active_delivery : Queue → ℕ → ℕ → Option Message
unfolding if_active
active_delivery q tag owner = if_active (find_tag tag (messages q)) owner

-- A record of a message, and the fsync that covers it.
unfoldable pub sync_written : Store × Bool → Store × Bool
sync_written (s, false) = (s, false)
sync_written (s, true) = sync_store s

unfoldable pub log_settled : Store → Op → Queue → ℕ → ℕ → Store × Bool
unfolding sync_written
log_settled s op q id aux =
    if q.durable then sync_written (append_log s op q id aux []) else (s, true)

-- The message leaves once the record is durable.
unfoldable pub remove_logged : Store × Bool → Queue → Message → Store × Queue × Settled
remove_logged (s, false) q m = (s, q, Settled.error)
remove_logged (s, true) q m = (s, remove_message q m, Settled.settled)

unfoldable pub settle_removed : Store → Queue → Message → Store × Queue × Settled
unfolding remove_logged
settle_removed s q m = remove_logged (log_settled s Op.log_ack q m.id 0) q m

unfoldable pub ack_delivery : Option Message → Store → Queue → Store × Queue × Settled
ack_delivery none s q = (s, q, Settled.not_active)
ack_delivery (some m) s q = settle_removed s q m

unfoldable pub ack_one : Store → Queue → ℕ → ℕ → Store × Queue × Settled
unfolding ack_delivery
ack_one s q tag owner = ack_delivery (active_delivery q tag owner) s q

-- The message as it goes back to the ready set.
unfoldable pub requeued : Queue → Message → ℕ → Message
requeued q m not_before_ms = record (make_ready m not_before_ms) {
  wal_footprint =
      if q.durable then add32 m.wal_footprint (log_header + length q.name) else m.wal_footprint;
}

-- The hint goes to the head.
unfoldable pub requeue_message : Queue → Message → ℕ → Queue
unfolding requeued
requeue_message q m not_before_ms =
    hint_at_head (record (replace_message q (requeued q m not_before_ms)) {
      inflight_count = q.inflight_count - 1;
      live_bytes =
          if q.durable then add64 q.live_bytes (log_header + length q.name) else q.live_bytes;
    })

abbrev pub retry_time : Clocks → ℕ → ℕ
retry_time t delay_ms = if delay_ms == 0 then 0 else add64 t.now delay_ms

unfoldable pub requeue_logged : Store × Bool → Queue → Message → ℕ → Store × Queue × Settled
requeue_logged (s, false) q m not_before_ms = (s, q, Settled.error)
requeue_logged (s, true) q m not_before_ms = (
  record s { redeliveries = add64 s.redeliveries 1 },
  requeue_message q m not_before_ms,
  Settled.settled,
)

unfoldable pub settle_requeued : Clocks → Store → Queue → Message → ℕ → Store × Queue × Settled
unfolding requeue_logged
settle_requeued t s q m delay_ms =
    requeue_logged (log_settled s Op.log_requeue q m.id (retry_time t delay_ms)) q m
      (retry_time t delay_ms)

-- `dead_letter_locked` returns 1 when it routed the message, -1 when it kept it, and 0 otherwise.
unfoldable pub report_routing : Store × Queue × Routing → Store × Queue × Settled
report_routing (s, q, Routing.no_policy) = (s, q, Settled.not_active)
report_routing (s, q, Routing.kept) = (s, q, Settled.error)
report_routing (s, q, Routing.routed) = (s, q, Settled.settled)

-- A rejected message goes to the dead-letter queue where there is one.
unfoldable pub settle_rejected : List (List ℕ) → Store → Queue → Message → Store × Queue × Settled
unfolding report_routing
settle_rejected held s q m =
    if is_empty q.dlq_name
    then settle_removed s q m
    else report_routing (dead_letter held s q m false)

unfoldable pub nack_delivery :
    Option Message → List (List ℕ) → Clocks → Store → Queue → Bool → ℕ → Store × Queue × Settled
nack_delivery none held t s q requeue delay_ms = (s, q, Settled.not_active)
nack_delivery (some m) held t s q requeue delay_ms =
    if requeue then settle_requeued t s q m delay_ms else settle_rejected held s q m

unfoldable pub nack_one :
    List (List ℕ) → Clocks → Store → Queue → ℕ → ℕ → Bool → ℕ → Store × Queue × Settled
unfolding nack_delivery
nack_one held t s q tag owner requeue delay_ms =
    nack_delivery (active_delivery q tag owner) held t s q requeue delay_ms

unfoldable pub report_settled : Store × Queue × Settled → Store × Settled
report_settled (s, q, r) = (write_back s q, r)

unfoldable pub ack_in : Option Queue → Store → ℕ → ℕ → Store × Settled
unfolding report_settled
ack_in none s tag owner = (s, Settled.error)
ack_in (some q) s tag owner = report_settled (ack_one s q tag owner)

unfoldable pub queue_ack_for_owner : Store → List ℕ → ℕ → ℕ → Store × Settled
unfolding ack_in
queue_ack_for_owner s name tag owner =
    if tag == 0 then (s, Settled.error) else ack_in (find_queue name s.queues) s tag owner

unfoldable pub nack_in :
    Option Queue → List (List ℕ) → Clocks → Store → ℕ → ℕ → Bool → ℕ → Store × Settled
unfolding report_settled
nack_in none held t s tag owner requeue delay_ms = (s, Settled.error)
nack_in (some q) held t s tag owner requeue delay_ms =
    report_settled (nack_one (q.name ∷ held) t s q tag owner requeue delay_ms)

unfoldable pub queue_nack_for_owner_delay :
    List (List ℕ) → Clocks → Store → List ℕ → ℕ → ℕ → Bool → ℕ → Store × Settled
unfolding nack_in
queue_nack_for_owner_delay held t s name tag owner requeue delay_ms =
    if tag == 0
    then (s, Settled.error)
    else nack_in (find_queue name s.queues) held t s tag owner requeue delay_ms
