-- ===== src/Replay/Messages.antt =====
-- The publish and the delivery, and the records that they write, for a queue without a
-- dead-letter queue whose messages do not expire.
use mathlib.Core.Path.{subst}
use kuttidb.Base.{
  ℕ, ◌≡◌, refl, sym, ap, ◌∙◌, Bool, true, false, not, Option, List, [], ◌∷◌, All-append, arith,
  if_cases, add64,
}
use kuttidb.Wal.{Op}
use kuttidb.Queue.{Message, Queue, Store, Clocks, messages, is_empty}
use kuttidb.Queue.Lists.{replace_id}
use kuttidb.Queue.Messages.{message_create, with_footprint, append_message}
use kuttidb.Queue.Counts.{messages-message_link}
use kuttidb.Queue.Invariant.{Holds}
use kuttidb.Queue.Reap.Sound.{AllHeld}
use kuttidb.Queue.Publish.{is_full, append_published, accept}
use kuttidb.Queue.Consume.{
  Request, Consumed, fresh_tag, lease_message, mark_inflight, hand_over, deliver, is_exhausted,
  is_due, is_delayed, note_delayed, scan,
}
use kuttidb.Queue.Consume.Exact.{mark_inflight-IsSameQueue, mark_inflight-messages}
use kuttidb.Replay.Spec.{kept_messages, held_after}
use kuttidb.Replay.Views.{kept_messages-replace_count}
use kuttidb.Replay.Follows.{append_message-Follows}
use kuttidb.Replay.Traces.{AreLasting, TracesTo, Traces-refl}
use kuttidb.Replay.Reaping.{replace_id-All, find_id-All}
use kuttidb.Replay.Logged.{Logged, record_of, append_log-Logged}

module _ (t : Clocks) where
  append_published-Traces :
      (s : Store) (l : Store × Bool) (q : Queue) (id : ℕ) (payload : List ℕ)
      → AreLasting (messages q)
      → Logged Op.log_publish (record_of Op.log_publish q id 0 payload) s q l
      → TracesTo s q (append_published l q id 0 payload).0 (append_published l q id 0 payload).1
  unfolding append_published
  append_published-Traces s (s', false) q id payload lasting h = h.refused refl
  append_published-Traces s (s', true) q id payload lasting h =
      h.done (append_message q id 0 payload)
        (append_message-Follows (record_of Op.log_publish q id 0 payload) q)
        (unfold append_message in
          subst AreLasting (sym (messages-message_link q (message_create id 0 payload))) (
            All-append (λ (m : Message). m.expires_ms ≡ 0) (messages q) _ lasting
              (unfold with_footprint message_create in (ground arith, tt))))
        refl

  -- A publish without a time to live.
  pub accept-Traces :
      (s : Store) (q : Queue) (payload : List ℕ)
      → AreLasting (messages q)
      → TracesTo s q (accept t s q payload 0).0 (accept t s q payload 0).1
  unfolding accept
  accept-Traces s q payload lasting =
      if_cases (λ (r : Store × Queue × Option ℕ). TracesTo s q r.0 r.1) (is_full q) _ _
        (λ _. Traces-refl s.queues s.wal q lasting)
        (λ _.
          append_published-Traces (record s { next_id = add64 s.next_id 1 }) _ q s.next_id payload
            lasting
            (append_log-Logged Op.log_publish (record s { next_id = add64 s.next_id 1 }) q s.next_id
              0 payload refl lasting))

module _ (t : Clocks) (req : Request) where
  hand_over-Traces :
      (s : Store) (l : Store × Bool) (q : Queue) (o : Option ℕ) (m : Message)
      → Holds q m
      → AreLasting (messages q)
      → Logged Op.log_deliver (record_of Op.log_deliver q m.id 0 []) s q l
      → TracesTo s q (hand_over t req l q o m).0 (hand_over t req l q o m).1
  unfolding hand_over
  hand_over-Traces s (s', false) q o m h lasting k = k.refused refl
  hand_over-Traces s (s', true) q o m h lasting k =
      let m' = lease_message t req q m (fresh_tag s'.next_delivery_tag) in
      let list : messages (mark_inflight q o m') ≡ replace_id m.id m' (messages q) =
        unfold lease_message in mark_inflight-messages q o m' in
      let plain = find_id-All (λ (n : Message). n.expires_ms ≡ 0) m.id (messages q) m lasting h in
      let d =
        k.done (mark_inflight q o m')
          (record {
            same = mark_inflight-IsSameQueue q o m';
            held =
                unfold held_after in
                ap kept_messages list
                ∙ kept_messages-replace_count m.id m m' (messages q) h
                    (unfold lease_message in refl);
          })
          (subst AreLasting (sym list) (
            replace_id-All (λ (n : Message). n.expires_ms ≡ 0) m.id m' (messages q) lasting
              (unfold lease_message in plain)))
          refl in
      d

  deliver-Traces :
      (s : Store) (q : Queue) (o : Option ℕ) (m : Message)
      → Holds q m
      → AreLasting (messages q)
      → TracesTo s q (deliver t req s q o m).0 (deliver t req s q o m).1
  unfolding deliver
  deliver-Traces s q o m h lasting =
      hand_over-Traces s _ q o m h lasting
        (append_log-Logged Op.log_deliver s q m.id 0 [] refl lasting)

  pub scan-Traces :
      (held : List (List ℕ)) (s : Store) (q : Queue) (o : Option ℕ) (ms : List Message)
      → AllHeld q ms
      → AreLasting (messages q)
      → q.dlq_name ≡ []
      → TracesTo s q (scan held t req s q o ms).0 (scan held t req s q o ms).1
  unfolding scan
  scan-Traces held s q o [] h lasting bare = Traces-refl s.queues s.wal q lasting
  scan-Traces held s q o (m ∷ ms) h lasting bare =
      if_cases (λ (r : Store × Queue × Consumed). TracesTo s q r.0 r.1) (not (is_due t.now m)) _ _
        (λ _. scan-Traces held s q (note_delayed o (is_delayed t.now m) m.id) ms h.1 lasting bare)
        (λ _.
          if_cases (λ (r : Store × Queue × Consumed). TracesTo s q r.0 r.1) (is_exhausted q m) _ _
            (λ e. absurd (unfold is_exhausted in ground (arith, e, ap is_empty bare)))
            (λ _. deliver-Traces s q o m h.0 lasting))
