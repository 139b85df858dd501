-- ===== src/Queue/Logging/Settle.antt =====
-- What ACK and NACK do to the log.
use kuttidb.Base.{ℕ, Bool, true, false, List, [], ◌∷◌, Option, some, none, if_cases}
use kuttidb.Wal.{Op}
use kuttidb.Wal.Durability.{Extends-refl, Extends-trans}
use kuttidb.Queue.{Message, Queue, Store, Clocks, is_empty}
use kuttidb.Queue.DeadLetter.{Routing}
use kuttidb.Queue.Settle.{
  Settled, active_delivery, sync_written, log_settled, remove_logged, settle_removed, ack_delivery,
  ack_one, retry_time, requeue_logged, settle_requeued, report_routing, settle_rejected,
  nack_delivery, nack_one, report_settled, ack_in, nack_in,
}
use kuttidb.Queue.Logging.{Logs, append_log-Logs, sync_store-Logs, dead_letter-Logs}

sync_written-Logs : (r : Store × Bool) → Logs r.0 (sync_written r).0
unfolding sync_written
sync_written-Logs (s, false) = Extends-refl s.wal
sync_written-Logs (s, true) = sync_store-Logs s

log_settled-Logs :
    (s : Store) (op : Op) (q : Queue) (id aux : ℕ) → Logs s (log_settled s op q id aux).0
unfolding log_settled
log_settled-Logs s op q id aux =
    if_cases (λ (r : Store × Bool). Logs s r.0) q.durable _ _
      (λ _. Extends-trans (append_log-Logs s op q id aux []) (sync_written-Logs _))
      (λ _. Extends-refl s.wal)

remove_logged-Logs : (l : Store × Bool) (q : Queue) (m : Message) → Logs l.0 (remove_logged l q m).0
unfolding remove_logged
remove_logged-Logs (s, false) q m = Extends-refl s.wal
remove_logged-Logs (s, true) q m = Extends-refl s.wal

settle_removed-Logs : (s : Store) (q : Queue) (m : Message) → Logs s (settle_removed s q m).0
unfolding settle_removed
settle_removed-Logs s q m =
    Extends-trans (log_settled-Logs s Op.log_ack q m.id 0) (remove_logged-Logs _ q m)

requeue_logged-Logs :
    (l : Store × Bool) (q : Queue) (m : Message) (not_before_ms : ℕ)
    → Logs l.0 (requeue_logged l q m not_before_ms).0
unfolding requeue_logged
requeue_logged-Logs (s, false) q m not_before_ms = Extends-refl s.wal
requeue_logged-Logs (s, true) q m not_before_ms = Extends-refl s.wal

report_routing-Logs : (r : Store × Queue × Routing) → Logs r.0 (report_routing r).0
unfolding report_routing
report_routing-Logs (s, q, Routing.no_policy) = Extends-refl s.wal
report_routing-Logs (s, q, Routing.kept) = Extends-refl s.wal
report_routing-Logs (s, q, Routing.routed) = Extends-refl s.wal

ack_delivery-Logs : (o : Option Message) (s : Store) (q : Queue) → Logs s (ack_delivery o s q).0
unfolding ack_delivery
ack_delivery-Logs none s q = Extends-refl s.wal
ack_delivery-Logs (some m) s q = settle_removed-Logs s q m

nack_delivery-Logs :
    (o : Option Message) (held : List (List ℕ)) (t : Clocks) (s : Store) (q : Queue)
    (requeue : Bool) (delay_ms : ℕ)
    → Logs s (nack_delivery o held t s q requeue delay_ms).0
unfolding nack_delivery settle_requeued settle_rejected
nack_delivery-Logs none held t s q requeue delay_ms = Extends-refl s.wal
nack_delivery-Logs (some m) held t s q requeue delay_ms =
    if_cases (λ (r : Store × Queue × Settled). Logs s r.0) requeue _ _
      (λ _.
        Extends-trans (log_settled-Logs s Op.log_requeue q m.id (retry_time t delay_ms))
          (requeue_logged-Logs _ q m (retry_time t delay_ms)))
      (λ _.
        if_cases (λ (r : Store × Queue × Settled). Logs s r.0) (is_empty q.dlq_name) _ _
          (λ _. settle_removed-Logs s q m)
          (λ _. Extends-trans (dead_letter-Logs held s q m false) (report_routing-Logs _)))

report_settled-Logs : (r : Store × Queue × Settled) → Logs r.0 (report_settled r).0
unfolding report_settled
report_settled-Logs (s, q, r) = Extends-refl s.wal

pub ack_in-Logs : (o : Option Queue) (s : Store) (tag owner : ℕ) → Logs s (ack_in o s tag owner).0
unfolding ack_in ack_one
ack_in-Logs none s tag owner = Extends-refl s.wal
ack_in-Logs (some q) s tag owner =
    Extends-trans (ack_delivery-Logs (active_delivery q tag owner) s q)
      (report_settled-Logs (ack_one s q tag owner))

pub nack_in-Logs :
    (o : Option Queue) (held : List (List ℕ)) (t : Clocks) (s : Store) (tag owner : ℕ)
    (requeue : Bool) (delay_ms : ℕ)
    → Logs s (nack_in o held t s tag owner requeue delay_ms).0
unfolding nack_in nack_one
nack_in-Logs none held t s tag owner requeue delay_ms = Extends-refl s.wal
nack_in-Logs (some q) held t s tag owner requeue delay_ms =
    Extends-trans
      (nack_delivery-Logs (active_delivery q tag owner) (q.name ∷ held) t s q requeue delay_ms)
      (report_settled-Logs (nack_one (q.name ∷ held) t s q tag owner requeue delay_ms))
