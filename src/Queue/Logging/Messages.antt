-- ===== src/Queue/Logging/Messages.antt =====
-- What publishing and consuming do to the log.
use kuttidb.Base.{ℕ, Bool, true, false, not, List, [], ◌∷◌, Option, some, none, if_cases, add64}
use kuttidb.Wal.{Op}
use kuttidb.Wal.Durability.{Extends-refl, Extends-trans, wait_durable-Extends}
use kuttidb.Queue.{Message, Queue, Store, Clocks, write_back}
use kuttidb.Queue.DeadLetter.{Routing, dead_letter}
use kuttidb.Queue.Publish.{
  is_full, expiry, append_published, accept, publish_one, report_published, publish_to,
}
use kuttidb.Queue.Consume.{
  Consumed, Request, hand_over, deliver, is_exhausted, is_due, on_routing, scan, consume_one,
  report_consumed, consume_from,
}
use kuttidb.Queue.Logging.{
  Logs, append_log-Logs, wait_written-Logs, dead_letter-Logs, reap_queue-Logs,
}

append_published-Logs :
    (r : Store × Bool) (q : Queue) (id expires_ms : ℕ) (payload : List ℕ)
    → Logs r.0 (append_published r q id expires_ms payload).0
unfolding append_published
append_published-Logs (s, false) q id expires_ms payload = Extends-refl s.wal
append_published-Logs (s, true) q id expires_ms payload = Extends-refl s.wal

pub accept-Logs :
    (t : Clocks) (s : Store) (q : Queue) (payload : List ℕ) (ttl_ms : ℕ)
    → Logs s (accept t s q payload ttl_ms).0
unfolding accept
accept-Logs t s q payload ttl_ms =
    if_cases (λ (r : Store × Queue × Option ℕ). Logs s r.0) (is_full q) _ _
      (λ _. Extends-refl s.wal)
      (λ _.
        Extends-trans
          (append_log-Logs (record s { next_id = add64 s.next_id 1 }) Op.log_publish q s.next_id
            (expiry t ttl_ms) payload)
          (append_published-Logs _ q s.next_id (expiry t ttl_ms) payload))

report_published-Logs :
    (seq_before : ℕ) (r : Store × Queue × Option ℕ) → Logs r.0 (report_published seq_before r).0
unfolding report_published
report_published-Logs seq_before (s, q, none) = Extends-refl s.wal
report_published-Logs seq_before (s, q, some id) = wait_written-Logs seq_before (write_back s q)

pub publish_to-Logs :
    (o : Option Queue) (held : List (List ℕ)) (t : Clocks) (s : Store) (payload : List ℕ)
    (ttl_ms : ℕ)
    → Logs s (publish_to o held t s payload ttl_ms).0
unfolding publish_to publish_one
publish_to-Logs none held t s payload ttl_ms = Extends-refl s.wal
publish_to-Logs (some q) held t s payload ttl_ms =
    Extends-trans
      (Extends-trans (reap_queue-Logs (q.name ∷ held) t s q) (accept-Logs t _ _ payload ttl_ms))
      (report_published-Logs s.wal.wal_seq _)

hand_over-Logs :
    (t : Clocks) (r : Request) (l : Store × Bool) (q : Queue) (first_delayed : Option ℕ)
    (m : Message)
    → Logs l.0 (hand_over t r l q first_delayed m).0
unfolding hand_over
hand_over-Logs t r (s, false) q first_delayed m = Extends-refl s.wal
hand_over-Logs t r (s, true) q first_delayed m = Extends-refl s.wal

deliver-Logs :
    (t : Clocks) (r : Request) (s : Store) (q : Queue) (first_delayed : Option ℕ) (m : Message)
    → Logs s (deliver t r s q first_delayed m).0
unfolding deliver
deliver-Logs t r s q first_delayed m =
    Extends-trans (append_log-Logs s Op.log_deliver q m.id 0 [])
      (hand_over-Logs t r _ q first_delayed m)

abbrev LogsOf : Store → Store × Queue × Consumed → Type 0
LogsOf s r = Logs s r.0

on_routing-Logs :
    (s : Store) (r : Routing) (next delivery : Store × Queue × Consumed)
    → Logs s next.0
    → Logs s delivery.0
    → Logs s (on_routing r next delivery).0
on_routing-Logs s Routing.no_policy next delivery n d = d
on_routing-Logs s Routing.kept next delivery n d = n
on_routing-Logs s Routing.routed next delivery n d = n

scan-Logs :
    (held : List (List ℕ)) (t : Clocks) (r : Request) (s : Store) (q : Queue)
    (first_delayed : Option ℕ) (ms : List Message)
    → Logs s (scan held t r s q first_delayed ms).0
unfolding scan
scan-Logs held t r s q first_delayed [] = Extends-refl s.wal
scan-Logs held t r s q first_delayed (m ∷ ms) =
    let d = dead_letter held s q m false in
    let routed = dead_letter-Logs held s q m false in
    if_cases (LogsOf s) (not (is_due t.now m)) _ _ (λ _. scan-Logs held t r s q _ ms)
      (λ _.
        if_cases (LogsOf s) (is_exhausted q m) _ _
          (λ _.
            on_routing-Logs s (d.2) _ _
              (Extends-trans routed (scan-Logs held t r d.0 d.1 first_delayed ms))
              (Extends-trans routed (deliver-Logs t r d.0 d.1 first_delayed m)))
          (λ _. deliver-Logs t r s q first_delayed m))

report_consumed-Logs : (r : Store × Queue × Consumed) → Logs r.0 (report_consumed r).0
unfolding report_consumed
report_consumed-Logs (s, q, Consumed.failed) = Extends-refl s.wal
report_consumed-Logs (s, q, Consumed.nothing) = Extends-refl s.wal
report_consumed-Logs (s, q, Consumed.delivered d) =
    if_cases (λ (r : Store × Consumed). Logs s r.0) (not q.durable) _ _ (λ _. Extends-refl s.wal)
      (λ _. wait_durable-Extends s.wal s.wal.wal_seq)

pub consume_from-Logs :
    (o : Option Queue) (held : List (List ℕ)) (t : Clocks) (r : Request) (s : Store)
    → Logs s (consume_from o held t r s).0
unfolding consume_from consume_one
consume_from-Logs none held t r s = Extends-refl s.wal
consume_from-Logs (some q) held t r s =
    Extends-trans
      (Extends-trans (reap_queue-Logs (q.name ∷ held) t s q)
        (scan-Logs (q.name ∷ held) t r _ _ none _))
      (report_consumed-Logs _)
