-- ===== src/Queue/Logging.antt =====
-- What the operations do to the log.
pub mod Messages
pub mod Settle
pub mod Calls
pub mod Failed
use kuttidb.Base.{
  ℕ, ◌≡◌, refl, Bool, true, false, not, ◌||◌, ◌&&◌, ◌==◌, List, [], ◌∷◌, Option, some, none, arith,
  if_cases, leb, ltb, if◌then◌else◌, add64,
}
use kuttidb.Wal.{Op}
use kuttidb.Wal.Durability.{
  Extends, Extends-refl, Extends-trans, append_record-Extends, sync_log-Extends,
  wait_durable-Extends,
}
use kuttidb.Queue.{
  Message, Queue, Store, Clocks, find_queue, messages, create_queue, is_empty, write_back,
}
use kuttidb.Queue.Lists.{is_inflight}
use kuttidb.Queue.DeadLetter.{
  is_held, metadata_lock, Routing, append_log, sync_store, create_dlq, declare_dlq,
  found_or_declared, resolve_dlq, move_message, refuses, log_routing, route_copy, route_to,
  route_resolved, dead_letter,
}
use kuttidb.Queue.Reap.{
  Walk, is_expired, end_lease, after_routing, expire, reap_message, reap_walk, reap_queue,
}
use kuttidb.Queue.Publish.{wait_written}

-- The log of one store continues the log of another.
abbrev pub Logs : Store → Store → Type 0
Logs s s' = Extends s.wal s'.wal

pub append_log-Logs :
    (s : Store) (op : Op) (q : Queue) (id aux : ℕ) (payload : List ℕ)
    → Logs s (append_log s op q id aux payload).0
unfolding append_log
append_log-Logs s op q id aux payload = append_record-Extends s.wal _

pub sync_store-Logs : (s : Store) → Logs s (sync_store s).0
unfolding sync_store
sync_store-Logs s = sync_log-Extends s.wal

pub wait_written-Logs : (seq_before : ℕ) (s : Store) → Logs s (wait_written seq_before s).0
unfolding wait_written
wait_written-Logs seq_before s =
    if_cases (λ (r : Store × Bool). Logs s r.0) (s.wal.wal_seq == seq_before) _ _
      (λ _. Extends-refl s.wal) (λ _. wait_durable-Extends s.wal s.wal.wal_seq)

create_dlq-Logs : (r : Store × Bool) (q : Queue) → Logs r.0 (create_dlq r q).0
unfolding create_dlq create_queue
create_dlq-Logs (s, false) q = Extends-refl s.wal
create_dlq-Logs (s, true) q = Extends-refl s.wal

found_or_declared-Logs :
    (o : Option Queue) (s : Store) (q : Queue) → Logs s (found_or_declared o s q).0
unfolding found_or_declared declare_dlq
found_or_declared-Logs (some dlq) s q = Extends-refl s.wal
found_or_declared-Logs none s q =
    Extends-trans (append_log-Logs s Op.log_declare (record q { name = q.dlq_name }) 0 0 [])
      (create_dlq-Logs _ q)

log_routing-Logs :
    (s : Store) (q dlq : Queue) (m : Message) (id expires_ms : ℕ)
    → Logs s (log_routing s q dlq m id expires_ms).0
unfolding log_routing
log_routing-Logs s q dlq m id expires_ms =
    let s1 = append_log s Op.log_publish dlq id expires_ms m.payload in
    let s2 = append_log s1.0 Op.log_ack q m.id 0 [] in
    let published = append_log-Logs s Op.log_publish dlq id expires_ms m.payload in
    let acked = Extends-trans published (append_log-Logs s1.0 Op.log_ack q m.id 0 []) in
    if_cases (λ (r : Store × Bool). Logs s r.0) (not dlq.durable) _ _ (λ _. Extends-refl s.wal)
      (λ _.
        if_cases (λ (r : Store × Bool). Logs s r.0) (not s1.1) _ _ (λ _. published)
          (λ _.
            if_cases (λ (r : Store × Bool). Logs s r.0) (not s2.1) _ _ (λ _. acked)
              (λ _. Extends-trans acked (sync_store-Logs s2.0))))

move_message-Logs :
    (r : Store × Bool) (q : Queue) (m : Message) (id expires_ms : ℕ) (dlq : Queue)
    → Logs r.0 (move_message r q m id expires_ms dlq).0
unfolding move_message
move_message-Logs (s, false) q m id expires_ms dlq = Extends-refl s.wal
move_message-Logs (s, true) q m id expires_ms dlq = Extends-refl s.wal

route_resolved-Logs :
    (held : List (List ℕ)) (r : Store × Option Queue) (q : Queue) (m : Message)
    (clear_expiry : Bool)
    → Logs r.0 (route_resolved held r q m clear_expiry).0
unfolding route_resolved route_to route_copy
route_resolved-Logs held (s, none) q m clear_expiry = Extends-refl s.wal
route_resolved-Logs held (s, some dlq) q m clear_expiry =
    if_cases (λ (r : Store × Queue × Routing). Logs s r.0) (refuses held dlq) _ _
      (λ _. Extends-refl s.wal)
      (λ _.
        Extends-trans
          (log_routing-Logs (record s { next_id = add64 s.next_id 1 }) q dlq m s.next_id _)
          (move_message-Logs _ q m s.next_id _ dlq))

pub dead_letter-Logs :
    (held : List (List ℕ)) (s : Store) (q : Queue) (m : Message) (clear_expiry : Bool)
    → Logs s (dead_letter held s q m clear_expiry).0
unfolding dead_letter resolve_dlq
dead_letter-Logs held s q m clear_expiry =
    if_cases (λ (r : Store × Queue × Routing). Logs s r.0) (is_empty q.dlq_name) _ _
      (λ _. Extends-refl s.wal)
      (λ _.
        if_cases (λ (r : Store × Queue × Routing). Logs s r.0) (is_held metadata_lock held) _ _
          (λ _. Extends-refl s.wal)
          (λ _.
            Extends-trans (found_or_declared-Logs (find_queue q.dlq_name s.queues) s q)
              (route_resolved-Logs held _ q m clear_expiry)))

after_routing-Logs :
    (w : Walk) (m : Message) (r : Store × Queue × Routing) → Logs r.0 (after_routing w m r).store
unfolding after_routing
after_routing-Logs w m (s, q, Routing.no_policy) = Extends-refl s.wal
after_routing-Logs w m (s, q, Routing.kept) = Extends-refl s.wal
after_routing-Logs w m (s, q, Routing.routed) = Extends-refl s.wal

reap_message-Logs :
    (held : List (List ℕ)) (t : Clocks) (w : Walk) (m : Message)
    → Logs w.store (reap_message held t w m).store
unfolding reap_message expire end_lease
reap_message-Logs held t w m =
    if_cases (λ (v : Walk). Logs w.store v.store) (is_expired t.now m) _ _
      (λ _. Extends-trans (dead_letter-Logs held w.store w.queue m true) (after_routing-Logs w m _))
      (λ _.
        if_cases (λ (v : Walk). Logs w.store v.store) (is_inflight m) _ _
          (λ _.
            if_cases (λ (v : Walk). Logs w.store v.store) (leb m.timer t.mono) _ _
              (λ _. Extends-refl w.store.wal)
              (λ _.
                if_cases (λ (v : Walk). Logs w.store v.store) (ltb m.timer w.next_deadline) _ _
                  (λ _. Extends-refl w.store.wal) (λ _. Extends-refl w.store.wal)))
          (λ _. Extends-refl w.store.wal))

reap_walk-Logs :
    (held : List (List ℕ)) (t : Clocks) (w : Walk) (ms : List Message)
    → Logs w.store (reap_walk held t w ms).store
unfolding reap_walk
reap_walk-Logs held t w [] = Extends-refl w.store.wal
reap_walk-Logs held t w (m ∷ ms) =
    Extends-trans (reap_message-Logs held t w m)
      (reap_walk-Logs held t (reap_message held t w m) ms)

pub reap_queue-Logs :
    (held : List (List ℕ)) (t : Clocks) (s : Store) (q : Queue) → Logs s (reap_queue held t s q).0
unfolding reap_queue
reap_queue-Logs held t s q =
    if_cases (λ (r : Store × Queue). Logs s r.0)
      (q.ttl_count == 0 && (q.inflight_count == 0 || ltb t.mono q.earliest_visibility)) _ _
      (λ _. Extends-refl s.wal) (λ _. reap_walk-Logs held t _ (messages q))
