-- ===== src/Replay/Whole.antt =====
-- The replay of a whole log, against its meaning.
use kuttidb.Base.{
  ℕ, ◌≡◌, refl, ap, ◌∙◌, Bool, true, false, not, ◌&&◌, Option, none, some, List, [], ◌∷◌, All,
  bytes_eq, if_cases, leb,
}
use kuttidb.Wal.{Op, LogRecord}
use kuttidb.Queue.{Queue, Store, messages, find_queue, write_back, is_empty, create_queue}
use kuttidb.Queue.Lists.{find_id}
use kuttidb.Queue.Messages.{purge_queue}
use kuttidb.Queue.Sound.{find_queue-All, update_queue-All}
use kuttidb.Queue.Admin.{tombstone}
use kuttidb.Replay.{
  declared_policy, declare_replayed, apply_policy, apply_declare, on_found, past_id,
  publish_replayed, apply_publish, acked, redelivered, returned, apply_ack, apply_delivery,
  apply_requeue, apply_purge, delete_replayed, apply_delete,
}
use kuttidb.Replay.Run.{apply_op, apply_record, go_on, replay}
use kuttidb.Replay.Spec.{KeptQueue, kept_queues, is_queue_op, kept_after, then_run, kept_run}
use kuttidb.Replay.Follows.{
  Follows, append_message-Follows, acked-Follows, redelivered-Follows, returned-Follows,
  purge_queue-Follows, purge_queue-IsSameQueue,
}
use kuttidb.Replay.Refines.{AreDurable, kept_result, apply_op-kept}

abbrev IsDurableQueue : Queue → Type 0
IsDurableQueue q = q.durable ≡ true

module _ (r : LogRecord) (s : Store) (durable : AreDurable s.queues) where
  found_durable : (name : List ℕ) (q : Queue) → find_queue name s.queues ≡ some q → q.durable ≡ true
  found_durable name q e = find_queue-All IsDurableQueue name s.queues q durable e

  write_back-AreDurable : (q : Queue) → q.durable ≡ true → AreDurable (write_back s q).queues
  write_back-AreDurable q d = update_queue-All IsDurableQueue q.name q s.queues durable d

  on_found-AreDurable :
      (op : Op) (f : Queue → Queue) (o : Option Queue)
      → ((q : Queue) → Follows op r q (f q))
      → find_queue r.name s.queues ≡ o
      → AreDurable (on_found o s f).0.queues
  unfolding on_found
  on_found-AreDurable op f none h e = durable
  on_found-AreDurable op f (some q) h e =
      write_back-AreDurable (f q) ((h q).same.durable ∙ found_durable r.name q e)

  publish_replayed-AreDurable :
      (o : Option Queue)
      → find_queue r.name s.queues ≡ o
      → AreDurable (publish_replayed o s r.id r.aux r.payload).0.queues
  unfolding publish_replayed
  publish_replayed-AreDurable none e = durable
  publish_replayed-AreDurable (some q) e =
      if_cases (λ (t : Store × Bool). AreDurable t.0.queues) q.durable _ _
        (λ d. write_back-AreDurable _ ((append_message-Follows r q).same.durable ∙ d))
        (λ _. durable)

  past_id-AreDurable : (t : Store) → AreDurable t.queues → AreDurable (past_id t r.id).queues
  unfolding past_id
  past_id-AreDurable t h =
      if_cases (λ (u : Store). AreDurable u.queues) (leb t.next_id r.id) _ _ (λ _. h) (λ _. h)

  delete_replayed-AreDurable :
      (o : Option Queue)
      → find_queue r.name s.queues ≡ o
      → AreDurable (delete_replayed o s).0.queues
  unfolding delete_replayed
  delete_replayed-AreDurable none e = durable
  delete_replayed-AreDurable (some q) e =
      write_back-AreDurable _
        (unfold tombstone in (purge_queue-IsSameQueue q).durable ∙ found_durable r.name q e)

  apply_policy-AreDurable :
      (o : Option Queue) (p : Option (List ℕ × ℕ))
      → r.durable ≡ true
      → find_queue r.name s.queues ≡ o
      → AreDurable (apply_policy p s r.name r.durable r.aux).0.queues
  unfolding apply_policy declare_replayed create_queue
  apply_policy-AreDurable o none d e = durable
  apply_policy-AreDurable none (some (dlq, max_deliveries)) d e = rw e (
      if_cases (λ (t : Store × Bool). AreDurable t.0.queues)
        (not (is_empty dlq) && bytes_eq dlq r.name) _ _ (λ _. durable) (λ _. (d, durable)))
  apply_policy-AreDurable (some q) (some (dlq, max_deliveries)) d e = rw e durable

  apply_op-AreDurable :
      (op : Op) → is_queue_op op ≡ true → r.durable ≡ true → AreDurable (apply_op op r s).0.queues
  unfolding apply_op apply_declare apply_ack apply_delivery apply_requeue apply_purge apply_delete
  apply_op-AreDurable Op.log_declare h d =
      apply_policy-AreDurable (find_queue r.name s.queues) (declared_policy r.payload) d refl
  apply_op-AreDurable Op.log_publish h d =
      unfold apply_publish in
      past_id-AreDurable (publish_replayed (find_queue r.name s.queues) s r.id r.aux r.payload).0
        (publish_replayed-AreDurable (find_queue r.name s.queues) refl)
  apply_op-AreDurable Op.log_ack h d =
      on_found-AreDurable Op.log_ack (λ q. acked (find_id r.id (messages q)) q)
        (find_queue r.name s.queues) (λ q. acked-Follows r q (find_id r.id (messages q)) refl) refl
  apply_op-AreDurable Op.log_deliver h d =
      on_found-AreDurable Op.log_deliver (λ q. redelivered (find_id r.id (messages q)) q)
        (find_queue r.name s.queues) (λ q. redelivered-Follows r q (find_id r.id (messages q)) refl)
        refl
  apply_op-AreDurable Op.log_requeue h d =
      on_found-AreDurable Op.log_requeue (λ q. returned (find_id r.id (messages q)) r.aux q)
        (find_queue r.name s.queues) (λ q. returned-Follows r q (find_id r.id (messages q)) refl)
        refl
  apply_op-AreDurable Op.log_purge h d =
      on_found-AreDurable Op.log_purge (λ q. (purge_queue q).0) (find_queue r.name s.queues)
        (purge_queue-Follows r) refl
  apply_op-AreDurable Op.log_delete h d =
      delete_replayed-AreDurable (find_queue r.name s.queues) refl
  apply_op-AreDurable Op.log_exdeclare h d = cc
  apply_op-AreDurable Op.log_exbind h d = cc
  apply_op-AreDurable Op.log_exunbind h d = cc
  apply_op-AreDurable Op.log_exdelete h d = cc
  apply_op-AreDurable Op.log_exupdate h d = cc

-- A record of a durable queue.
abbrev pub IsQueueRecord : LogRecord → Type 0
IsQueueRecord r = (is_queue_op r.op ≡ true) × (r.durable ≡ true)

go_on-kept :
    (t : Store × Bool) (rest : Store → Store × Bool) (f : List KeptQueue → Option (List KeptQueue))
    → (t.1 ≡ true → kept_result (rest t.0) ≡ f (kept_queues t.0.queues))
    → kept_result (go_on rest t) ≡ then_run f (kept_result t)
unfolding go_on then_run
go_on-kept (s, false) rest f h = refl
go_on-kept (s, true) rest f h = h refl

-- Replay over durable queues does what the records of queues mean: it takes all of them exactly when
-- each of them applies, in turn, to the durable queues as the ones before left them, and then what
-- its queues keep is what the records make of what the queues kept at the start.
pub replay-kept_run :
    (rs : List LogRecord) (s : Store)
    → All IsQueueRecord rs
    → AreDurable s.queues
    → kept_result (replay rs s) ≡ kept_run rs (kept_queues s.queues)
unfolding replay kept_run
replay-kept_run [] s h d = refl
replay-kept_run (r ∷ rs) s h d =
    go_on-kept (apply_record r s) (replay rs) (kept_run rs) (λ _.
      replay-kept_run rs (apply_record r s).0 h.1
        (unfold apply_record in apply_op-AreDurable r s d r.op h.0.0 h.0.1))
    ∙ ap (then_run (kept_run rs))
        (unfold apply_record kept_after in apply_op-kept r s d r.op h.0.0 h.0.1)
