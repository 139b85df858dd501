-- ===== src/Queue/Logging/Failed.antt =====
-- The engine on a log that has failed.
use kuttidb.Base.{
  ℕ, ◌<◌, ◌≡◌, ◌≢◌, ◌⊎◌, inl, inr, refl, ap, ◌∙◌, Bool, true, false, not, ◌||◌, ◌==◌, List, [], ◌∷◌,
  Option, some, none, arith, if_cases, ltb, length, add64,
}
use kuttidb.Wal.{
  Op, LogRecord, Wal, answer, answers, append_record, append_synced, sync_log, wait_durable,
}
use kuttidb.Wal.Durability.{append_record_failed}
use kuttidb.Queue.{Message, Queue, Store, Clocks, find_queue, queue_message_max}
use kuttidb.Queue.DeadLetter.{append_log, dead_letter}
use kuttidb.Queue.Reap.{reap_queue}
use kuttidb.Queue.Presence.Reaped.{reap_queue-HasKept, dead_letter-IsSameQueue}
use kuttidb.Queue.Publish.{
  is_full, expiry, append_published, accept, publish_one, is_name, report_published, publish_to,
  queue_publish,
}
use kuttidb.Queue.Consume.{
  Delivery, Request, Consumed, hand_over, deliver, is_exhausted, is_due, is_delayed, note_delayed,
  scan, consume_one, consume_from, queue_consume_for_owner,
}
use kuttidb.Queue.Consume.Handoff.{on_routing-either, report_consumed-delivered}
use kuttidb.Queue.Settle.{
  Settled, log_settled, sync_written, remove_logged, settle_removed, ack_delivery, ack_one,
  active_delivery, report_settled, ack_in, queue_ack_for_owner,
}
use kuttidb.Queue.Steps.{Call, perform}
use kuttidb.Queue.Logging.{dead_letter-Logs, reap_queue-Logs}
use kuttidb.Queue.Logging.Calls.{perform-Logs}

-- No call clears a failure of the log.
pub perform_failed : (c : Call) (s : Store) → s.wal.failed ≡ true → (perform c s).wal.failed ≡ true
perform_failed c s failed = (perform-Logs c s).failed failed

append_log_failed :
    (s : Store) (op : Op) (q : Queue) (id aux : ℕ) (payload : List ℕ)
    → q.durable ≡ true
    → s.wal.failed ≡ true
    → (append_log s op q id aux payload).1 ≡ false
unfolding append_log
append_log_failed s op q id aux payload durable failed = append_record_failed s.wal _ durable failed

append_published_failed :
    (r : Store × Bool) (q : Queue) (id expires_ms : ℕ) (payload : List ℕ)
    → r.1 ≡ false
    → (append_published r q id expires_ms payload).2 ≡ none
unfolding append_published
append_published_failed (s, false) q id expires_ms payload h = refl
append_published_failed (s, true) q id expires_ms payload h = absurd (cc h)

accept_failed :
    (t : Clocks) (s : Store) (q : Queue) (payload : List ℕ) (ttl_ms : ℕ)
    → q.durable ≡ true
    → s.wal.failed ≡ true
    → (accept t s q payload ttl_ms).2 ≡ none
unfolding accept
accept_failed t s q payload ttl_ms durable failed =
    if_cases (λ (r : Store × Queue × Option ℕ). r.2 ≡ none) (is_full q) _ _ (λ _. refl)
      (λ _. append_published_failed _ q s.next_id (expiry t ttl_ms) payload (
        append_log_failed (record s { next_id = add64 s.next_id 1 }) Op.log_publish q s.next_id
          (expiry t ttl_ms) payload durable failed))

report_published_failed :
    (seq_before : ℕ) (r : Store × Queue × Option ℕ)
    → r.2 ≡ none
    → (report_published seq_before r).1 ≡ none
unfolding report_published
report_published_failed seq_before (s, q, none) h = refl
report_published_failed seq_before (s, q, some id) h = absurd (cc h)

publish_to_failed :
    (o : Option Queue) (held : List (List ℕ)) (t : Clocks) (s : Store) (q : Queue)
    (payload : List ℕ) (ttl_ms : ℕ)
    → o ≡ some q
    → q.durable ≡ true
    → s.wal.failed ≡ true
    → (publish_to o held t s payload ttl_ms).1 ≡ none
unfolding publish_to publish_one
publish_to_failed none held t s q payload ttl_ms e durable failed = absurd (cc e)
publish_to_failed (some p) held t s q payload ttl_ms e durable failed =
    let same : p.durable ≡ true = ground (arith, e, durable) in
    let kept = reap_queue-HasKept p.name (p.name ∷ held) t s p in
    report_published_failed s.wal.wal_seq _ (
      accept_failed t (reap_queue (p.name ∷ held) t s p).0 (reap_queue (p.name ∷ held) t s p).1
        payload ttl_ms (kept.same.durable ∙ same)
        ((reap_queue-Logs (p.name ∷ held) t s p).failed failed))

abbrev Refuses : Delivery → Store × Queue × Consumed → Type 0
Refuses d out = out.2 ≢ Consumed.delivered d

hand_over_failed :
    (t : Clocks) (r : Request) (d : Delivery) (l : Store × Bool) (q : Queue) (o : Option ℕ)
    (m : Message)
    → l.1 ≡ false
    → Refuses d (hand_over t r l q o m)
unfolding hand_over
hand_over_failed t r d (s, false) q o m h = λ e. absurd (cc e)
hand_over_failed t r d (s, true) q o m h = absurd (cc h)

deliver_failed :
    (t : Clocks) (r : Request) (d : Delivery) (s : Store) (q : Queue) (o : Option ℕ) (m : Message)
    → q.durable ≡ true
    → s.wal.failed ≡ true
    → Refuses d (deliver t r s q o m)
unfolding deliver
deliver_failed t r d s q o m durable failed =
    hand_over_failed t r d _ q o m (append_log_failed s Op.log_deliver q m.id 0 [] durable failed)

scan_failed :
    (held : List (List ℕ)) (t : Clocks) (r : Request) (d : Delivery) (s : Store) (q : Queue)
    (o : Option ℕ) (ms : List Message)
    → q.durable ≡ true
    → s.wal.failed ≡ true
    → Refuses d (scan held t r s q o ms)
unfolding scan
scan_failed held t r d s q o [] durable failed = λ e. absurd (cc e)
scan_failed held t r d s q o (m ∷ ms) durable failed =
    let out = dead_letter held s q m false in
    let still : out.0.wal.failed ≡ true = (dead_letter-Logs held s q m false).failed failed in
    let same : out.1.durable ≡ true =
      (dead_letter-IsSameQueue held s q m false).durable ∙ durable in
    if_cases (Refuses d) (not (is_due t.now m)) _ _
      (λ _. scan_failed held t r d s q (note_delayed o (is_delayed t.now m) m.id) ms durable failed)
      (λ _.
        if_cases (Refuses d) (is_exhausted q m) _ _
          (λ _.
            on_routing-either (Refuses d) out.2 _ _
              (scan_failed held t r d out.0 out.1 o ms same still)
              (λ _. deliver_failed t r d out.0 out.1 o m same still))
          (λ _. deliver_failed t r d s q o m durable failed))

consume_from_failed :
    (o : Option Queue) (held : List (List ℕ)) (t : Clocks) (r : Request) (d : Delivery) (s : Store)
    (q : Queue)
    → o ≡ some q
    → q.durable ≡ true
    → s.wal.failed ≡ true
    → (consume_from o held t r s).1 ≢ Consumed.delivered d
unfolding consume_from consume_one
consume_from_failed none held t r d s q e durable failed h = absurd (cc e)
consume_from_failed (some p) held t r d s q e durable failed h =
    let same : p.durable ≡ true = ground (arith, e, durable) in
    let reaped = reap_queue (p.name ∷ held) t s p in
    let kept = reap_queue-HasKept p.name (p.name ∷ held) t s p in
    scan_failed (p.name ∷ held) t r d reaped.0 reaped.1 none reaped.1.from_hint
      (kept.same.durable ∙ same) ((reap_queue-Logs (p.name ∷ held) t s p).failed failed)
      ((report_consumed-delivered _ d h).0)

log_settled_failed :
    (s : Store) (op : Op) (q : Queue) (id aux : ℕ)
    → q.durable ≡ true
    → s.wal.failed ≡ true
    → (log_settled s op q id aux).1 ≡ false
unfolding log_settled sync_written append_log append_record
log_settled_failed s op q id aux durable failed = ground arith

remove_logged_failed :
    (l : Store × Bool) (q : Queue) (m : Message)
    → l.1 ≡ false
    → (remove_logged l q m).2 ≢ Settled.settled
unfolding remove_logged
remove_logged_failed (s, false) q m h e = cc
remove_logged_failed (s, true) q m h e = absurd (cc h)

ack_delivery_failed :
    (o : Option Message) (s : Store) (q : Queue)
    → q.durable ≡ true
    → s.wal.failed ≡ true
    → (ack_delivery o s q).2 ≢ Settled.settled
unfolding ack_delivery settle_removed
ack_delivery_failed none s q durable failed = λ e. absurd (cc e)
ack_delivery_failed (some m) s q durable failed =
    remove_logged_failed (log_settled s Op.log_ack q m.id 0) q m
      (log_settled_failed s Op.log_ack q m.id 0 durable failed)

ack_in_failed :
    (o : Option Queue) (s : Store) (q : Queue) (tag owner : ℕ)
    → o ≡ some q
    → q.durable ≡ true
    → s.wal.failed ≡ true
    → (ack_in o s tag owner).1 ≢ Settled.settled
unfolding ack_in ack_one report_settled
ack_in_failed none s q tag owner e durable failed = λ _. absurd (cc e)
ack_in_failed (some p) s q tag owner e durable failed =
    ack_delivery_failed (active_delivery p tag owner) s p (ground (arith, e, durable)) failed

failed-refuses :
    (held : List (List ℕ)) (t : Clocks) (r : Request) (d : Delivery) (s : Store)
    (name payload : List ℕ) (ttl_ms tag owner : ℕ) (q : Queue)
    → find_queue name s.queues ≡ some q
    → q.durable ≡ true
    → s.wal.failed ≡ true
    → ((queue_publish held t s name payload ttl_ms).1 ≡ none)
      × ((queue_consume_for_owner held t r s name).1 ≢ Consumed.delivered d)
      × ((queue_ack_for_owner s name tag owner).1 ≢ Settled.settled)
unfolding queue_publish queue_consume_for_owner queue_ack_for_owner
failed-refuses held t r d s name payload ttl_ms tag owner q e durable failed = (
  if_cases (λ (x : Store × Option ℕ). x.1 ≡ none)
      (not (is_name name) || ltb queue_message_max (length payload)) _ _ (λ _. refl)
      (λ _.
        publish_to_failed (find_queue name s.queues) held t s q payload ttl_ms e durable failed),
  consume_from_failed (find_queue name s.queues) held t r d s q e durable failed,
  if_cases (λ (x : Store × Settled). x.1 ≢ Settled.settled) (tag == 0) _ _ (λ _ h. absurd (cc h))
      (λ _. ack_in_failed (find_queue name s.queues) s q tag owner e durable failed),
)

-- The log after a call whose write or fsync the disk has just refused.
pub data IsBroken (w : Wal) : Type 0 where
  write_refused :
      (v : Wal) (r : LogRecord)
      → r.durable ≡ true
      → v.opened ≡ true
      → answer v.disk ≡ false
      → w ≡ (append_record v r).0
      → IsBroken w
  synced_write_refused :
      (v : Wal) (r : LogRecord)
      → r.durable ≡ true
      → v.opened ≡ true
      → (answer v.disk ≡ false) ⊎ (answer (answers v.disk) ≡ false)
      → w ≡ (append_synced v r).0
      → IsBroken w
  sync_refused :
      (v : Wal)
      → v.opened ≡ true
      → v.synced_seq < v.wal_seq
      → answer v.disk ≡ false
      → w ≡ (sync_log v).0
      → IsBroken w
  wait_refused :
      (v : Wal) (target : ℕ)
      → v.synced_seq < target
      → answer v.disk ≡ false
      → w ≡ (wait_durable v target).0
      → IsBroken w

append_record-breaks :
    (v : Wal) (r : LogRecord)
    → r.durable ≡ true
    → v.opened ≡ true
    → answer v.disk ≡ false
    → (append_record v r).0.failed ≡ true
unfolding append_record
append_record-breaks v r durable opened refused = ground arith

append_synced-breaks :
    (v : Wal) (r : LogRecord)
    → r.durable ≡ true
    → v.opened ≡ true
    → (answer v.disk ≡ false) ⊎ (answer (answers v.disk) ≡ false)
    → (append_synced v r).0.failed ≡ true
unfolding append_synced
append_synced-breaks v r durable opened (inl refused) = ground arith
append_synced-breaks v r durable opened (inr refused) = ground arith

sync_log-breaks :
    (v : Wal)
    → v.opened ≡ true
    → v.synced_seq < v.wal_seq
    → answer v.disk ≡ false
    → (sync_log v).0.failed ≡ true
unfolding sync_log
sync_log-breaks v opened behind refused = ground arith

wait_durable-breaks :
    (v : Wal) (target : ℕ)
    → v.synced_seq < target
    → answer v.disk ≡ false
    → (wait_durable v target).0.failed ≡ true
unfolding wait_durable
wait_durable-breaks v target behind refused = ground arith

IsBroken-failed : (w : Wal) → IsBroken w → w.failed ≡ true
IsBroken-failed w (IsBroken.write_refused v r durable opened refused e) =
    ap (λ x. x.failed) e ∙ append_record-breaks v r durable opened refused
IsBroken-failed w (IsBroken.synced_write_refused v r durable opened refused e) =
    ap (λ x. x.failed) e ∙ append_synced-breaks v r durable opened refused
IsBroken-failed w (IsBroken.sync_refused v opened behind refused e) =
    ap (λ x. x.failed) e ∙ sync_log-breaks v opened behind refused
IsBroken-failed w (IsBroken.wait_refused v target behind refused e) =
    ap (λ x. x.failed) e ∙ wait_durable-breaks v target behind refused

abbrev pub perform_all : List Call → Store → Store
perform_all [] s = s
perform_all (c ∷ calls) s = perform_all calls (perform c s)

perform_all_failed :
    (calls : List Call) (s : Store) → s.wal.failed ≡ true → (perform_all calls s).wal.failed ≡ true
perform_all_failed [] s h = h
perform_all_failed (c ∷ calls) s h = perform_all_failed calls (perform c s) (perform_failed c s h)

-- After a write or an fsync that the disk refused, whatever calls came in between and whatever the
-- disk answered to them, no durable work is taken: on a durable queue a publish returns no id, a
-- consume delivers nothing, and an ACK does not report success.
pub failed_log-refuses :
    (broken : Store) (calls : List Call) (held : List (List ℕ)) (t : Clocks) (r : Request)
    (d : Delivery) (name payload : List ℕ) (ttl_ms tag owner : ℕ) (q : Queue)
    → IsBroken broken.wal
    → find_queue name (perform_all calls broken).queues ≡ some q
    → q.durable ≡ true
    → ((queue_publish held t (perform_all calls broken) name payload ttl_ms).1 ≡ none)
      × ((queue_consume_for_owner held t r (perform_all calls broken) name).1
          ≢ Consumed.delivered d)
      × ((queue_ack_for_owner (perform_all calls broken) name tag owner).1 ≢ Settled.settled)
failed_log-refuses broken calls held t r d name payload ttl_ms tag owner q break e durable =
    failed-refuses held t r d (perform_all calls broken) name payload ttl_ms tag owner q e durable
      (perform_all_failed calls broken (IsBroken-failed broken.wal break))
