-- ===== src/Replay/Settled.antt =====
-- ACK, NACK and purge, and the records that they write, for a queue without a dead-letter queue whose
-- messages do not expire.
use mathlib.Core.Path.{subst}
use kuttidb.Base.{
  ℕ, ◌≡◌, refl, sym, ap, ◌∙◌, Bool, true, false, Option, none, some, List, [], arith, if_cases,
}
use kuttidb.Wal.{Op}
use kuttidb.Queue.{Message, Queue, Store, Clocks, messages, is_empty}
use kuttidb.Queue.Messages.{remove_message, replace_message, make_ready, purge_queue}
use kuttidb.Queue.Counts.{messages-remove_message, messages-replace_message}
use kuttidb.Queue.Invariant.{Holds}
use kuttidb.Queue.Sound.{IsQueueOf}
use kuttidb.Queue.DeadLetter.{append_log}
use kuttidb.Queue.Settle.{
  Settled, active_delivery, log_settled, remove_logged, settle_removed, ack_delivery, ack_one,
  requeued, requeue_message, retry_time, requeue_logged, settle_requeued, settle_rejected,
  nack_delivery, nack_one,
}
use kuttidb.Queue.Settle.Sound.{active_delivery-Holds}
use kuttidb.Queue.Admin.{purge_logged, purge_one}
use kuttidb.Replay.{acked}
use kuttidb.Replay.Spec.{kept_messages, held_after}
use kuttidb.Replay.Views.{kept_messages-replace_same, messages-purge_queue}
use kuttidb.Replay.Follows.{Follows, acked-Follows, purge_queue-Follows}
use kuttidb.Replay.Traces.{AreLasting, TracesTo, Traces-refl}
use kuttidb.Replay.Logged.{Logged, record_of, append_log-Logged, log_settled-Logged}
use kuttidb.Replay.Reaping.{replace_id-All, remove_id-All, find_id-All}

module _ (s : Store) (q : Queue) (lasting : AreLasting (messages q)) where
  remove_logged-Traces :
      (l : Store × Bool) (m : Message)
      → Holds q m
      → Logged Op.log_ack (record_of Op.log_ack q m.id 0 []) s q l
      → TracesTo s q (remove_logged l q m).0 (remove_logged l q m).1
  unfolding remove_logged
  remove_logged-Traces (s', false) m h k = k.refused refl
  remove_logged-Traces (s', true) m h k =
      k.done (remove_message q m)
        (unfold acked in acked-Follows (record_of Op.log_ack q m.id 0 []) q (some m) (sym h))
        (subst AreLasting (sym (messages-remove_message q m))
          (remove_id-All (λ (n : Message). n.expires_ms ≡ 0) m.id (messages q) lasting))
        refl

  settle_removed-Traces :
      (m : Message) → Holds q m → TracesTo s q (settle_removed s q m).0 (settle_removed s q m).1
  unfolding settle_removed
  settle_removed-Traces m h =
      remove_logged-Traces (log_settled s Op.log_ack q m.id 0) m h
        (log_settled-Logged Op.log_ack s q m.id 0 refl lasting)

  requeue_message-Follows :
      (m : Message) (not_before_ms : ℕ)
      → Holds q m
      → Follows Op.log_requeue
          (record_of Op.log_requeue q m.id not_before_ms [])
          q
          (requeue_message q m not_before_ms)
  unfolding requeue_message requeued make_ready replace_message held_after
  requeue_message-Follows m not_before_ms h = record {
    same = record {
      name = refl;
      deleted = refl;
      durable = refl;
      dlq_name = refl;
      max_deliveries = refl;
      max_depth = refl;
    };
    held =
        ap kept_messages (messages-replace_message q (requeued q m not_before_ms))
        ∙ kept_messages-replace_same m.id m (requeued q m not_before_ms) (messages q) h refl;
  }

  requeue_logged-Traces :
      (l : Store × Bool) (m : Message) (not_before_ms : ℕ)
      → Holds q m
      → Logged Op.log_requeue (record_of Op.log_requeue q m.id not_before_ms []) s q l
      → TracesTo s q (requeue_logged l q m not_before_ms).0 (requeue_logged l q m not_before_ms).1
  unfolding requeue_logged
  requeue_logged-Traces (s', false) m not_before_ms h k = k.refused refl
  requeue_logged-Traces (s', true) m not_before_ms h k =
      let plain = find_id-All (λ (n : Message). n.expires_ms ≡ 0) m.id (messages q) m lasting h in
      let t =
        k.done (requeue_message q m not_before_ms) (requeue_message-Follows m not_before_ms h)
          (unfold requeue_message requeued make_ready replace_message in
            subst AreLasting (sym (messages-replace_message q (requeued q m not_before_ms))) (
              replace_id-All (λ (n : Message). n.expires_ms ≡ 0) m.id (requeued q m not_before_ms)
                (messages q) lasting plain))
          refl in
      t

  settle_requeued-Traces :
      (t : Clocks) (m : Message) (delay_ms : ℕ)
      → Holds q m
      → TracesTo s q (settle_requeued t s q m delay_ms).0 (settle_requeued t s q m delay_ms).1
  unfolding settle_requeued
  settle_requeued-Traces t m delay_ms h =
      requeue_logged-Traces (log_settled s Op.log_requeue q m.id (retry_time t delay_ms)) m
        (retry_time t delay_ms) h
        (log_settled-Logged Op.log_requeue s q m.id (retry_time t delay_ms) refl lasting)

  ack_delivery-Traces :
      (o : Option Message)
      → ((m : Message) → o ≡ some m → Holds q m)
      → TracesTo s q (ack_delivery o s q).0 (ack_delivery o s q).1
  unfolding ack_delivery
  ack_delivery-Traces none h = Traces-refl s.queues s.wal q lasting
  ack_delivery-Traces (some m) h = settle_removed-Traces m (h m refl)

  nack_delivery-Traces :
      (o : Option Message) (held : List (List ℕ)) (t : Clocks) (requeue : Bool) (delay_ms : ℕ)
      → ((m : Message) → o ≡ some m → Holds q m)
      → q.dlq_name ≡ []
      → TracesTo s q
          (nack_delivery o held t s q requeue delay_ms).0
          (nack_delivery o held t s q requeue delay_ms).1
  unfolding nack_delivery settle_rejected
  nack_delivery-Traces none held t requeue delay_ms h bare = Traces-refl s.queues s.wal q lasting
  nack_delivery-Traces (some m) held t true delay_ms h bare =
      settle_requeued-Traces t m delay_ms (h m refl)
  nack_delivery-Traces (some m) held t false delay_ms h bare =
      if_cases (λ (r : Store × Queue × Settled). TracesTo s q r.0 r.1) (is_empty q.dlq_name) _ _
        (λ _. settle_removed-Traces m (h m refl))
        (λ e. absurd (ground (arith, e, ap is_empty bare)))

  pub ack_one-Traces :
      {n : ℕ} (tag owner : ℕ)
      → IsQueueOf n q
      → TracesTo s q (ack_one s q tag owner).0 (ack_one s q tag owner).1
  unfolding ack_one
  ack_one-Traces tag owner hq =
      ack_delivery-Traces (active_delivery q tag owner)
        (λ m e. (active_delivery-Holds q tag owner m hq e).0)

  pub nack_one-Traces :
      {n : ℕ} (held : List (List ℕ)) (t : Clocks) (tag owner : ℕ) (requeue : Bool) (delay_ms : ℕ)
      → IsQueueOf n q
      → q.dlq_name ≡ []
      → TracesTo s q
          (nack_one held t s q tag owner requeue delay_ms).0
          (nack_one held t s q tag owner requeue delay_ms).1
  unfolding nack_one
  nack_one-Traces held t tag owner requeue delay_ms hq bare =
      nack_delivery-Traces (active_delivery q tag owner) held t requeue delay_ms
        (λ m e. (active_delivery-Holds q tag owner m hq e).0) bare

  purge_logged-Traces :
      (l : Store × Bool) (depth : ℕ)
      → Logged Op.log_purge (record_of Op.log_purge q depth 0 []) s q l
      → TracesTo s q (purge_logged l q).0 (purge_logged l q).1
  unfolding purge_logged
  purge_logged-Traces (s', false) depth k = k.refused refl
  purge_logged-Traces (s', true) depth k =
      k.done (purge_queue q).0 (purge_queue-Follows (record_of Op.log_purge q depth 0 []) q)
        (subst AreLasting (sym (messages-purge_queue q)) tt) refl

  pub purge_one-Traces : TracesTo s q (purge_one s q).0 (purge_one s q).1
  unfolding purge_one
  purge_one-Traces =
      purge_logged-Traces (append_log s Op.log_purge q q.depth 0 []) q.depth
        (append_log-Logged Op.log_purge s q q.depth 0 [] refl lasting)
