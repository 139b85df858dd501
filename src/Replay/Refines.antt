-- ===== src/Replay/Refines.antt =====
-- Replay of the records of queues, against the meaning of the log.
use kuttidb.Base.{
  ℕ, ◌≡◌, refl, sym, ap, ◌∙◌, Bool, true, false, Option, none, some, List, All, arith,
  if◌then◌else◌,
}
use kuttidb.Wal.{Op, LogRecord}
use kuttidb.Queue.{Queue, Store, messages, find_queue, update_queue, write_back, create_queue}
use kuttidb.Queue.Lists.{find_id}
use kuttidb.Queue.Messages.{append_message, purge_queue}
use kuttidb.Queue.Lookup.{find_queue-is_named, is_named-split}
use kuttidb.Queue.Sound.{find_queue-All}
use kuttidb.Queue.Admin.{same_declaration, tombstone}
use kuttidb.Replay.{
  declared_policy, declare_replayed, apply_policy, apply_declare, on_found, past_id,
  publish_replayed, apply_publish, acked, redelivered, returned, apply_ack, apply_delivery,
  apply_requeue, apply_purge, delete_replayed, apply_delete,
}
use kuttidb.Replay.Run.{apply_op}
use kuttidb.Replay.Spec.{
  KeptQueue, kept_queue, kept_queues, queue_after, find_kept, update_kept, drop_kept, change_kept,
  declare_kept, kept_op, is_queue_op,
}
use kuttidb.Replay.Views.{
  find_kept-found, update_kept-found, find_kept-absent, drop_kept-found, drop_kept-absent,
}
use kuttidb.Replay.Follows.{
  Follows, kept_queue-Follows, append_message-Follows, acked-Follows, redelivered-Follows,
  returned-Follows, purge_queue-Follows, purge_queue-IsSameQueue,
}

abbrev pub AreDurable : List Queue → Type 0
AreDurable = All (λ (q : Queue). q.durable ≡ true)

-- What a replay has built, or nothing where the record is not taken.
abbrev pub kept_result : Store × Bool → Option (List KeptQueue)
kept_result (s, ok) = if ok then some (kept_queues s.queues) else none

pub kept_queues-write_back :
    {op : Op} {r : LogRecord} {q q' : Queue} (s : Store)
    → find_queue r.name s.queues ≡ some q
    → q.durable ≡ true
    → Follows op r q q'
    → kept_queues (write_back s q').queues
      ≡ update_kept r.name (queue_after op r (kept_queue q)) (kept_queues s.queues)
kept_queues-write_back {op} {r} {q} {q'} s e durable f =
    let named = is_named-split r.name q (find_queue-is_named r.name s.queues q e) in
    let name : q'.name ≡ r.name = f.same.name ∙ named.1 in
    ap (λ n. kept_queues (update_queue n q' s.queues)) name
    ∙ update_kept-found r.name s.queues q q' e durable (f.same.durable ∙ durable)
        (f.same.deleted ∙ named.0)
    ∙ ap (λ k. update_kept r.name k (kept_queues s.queues)) (kept_queue-Follows f)

abbrev change_of : Op → LogRecord → Store → Option (List KeptQueue)
change_of op r s = change_kept (find_kept r.name (kept_queues s.queues)) op r (kept_queues s.queues)

declare_kept-none :
    (k : Option KeptQueue) (r : LogRecord) (ks : List KeptQueue) → declare_kept k none r ks ≡ none
unfolding declare_kept
declare_kept-none none r ks = refl
declare_kept-none (some k) r ks = refl

module _ (r : LogRecord) (s : Store) (durable : AreDurable s.queues) where
  change_of-absent : (op : Op) → find_queue r.name s.queues ≡ none → change_of op r s ≡ none
  unfolding change_kept
  change_of-absent op e = rw (find_kept-absent r.name s.queues e) refl

  change_of-found :
      (op : Op) (q q' : Queue)
      → find_queue r.name s.queues ≡ some q
      → Follows op r q q'
      → change_of op r s ≡ some (kept_queues (write_back s q').queues)
  unfolding change_kept
  change_of-found op q q' e f =
      let d = find_queue-All (λ (q : Queue). q.durable ≡ true) r.name s.queues q durable e in
      rw (find_kept-found r.name s.queues q e d) (ap some (sym (kept_queues-write_back s e d f)))

  on_found-kept :
      (op : Op) (f : Queue → Queue) (o : Option Queue)
      → ((q : Queue) → Follows op r q (f q))
      → find_queue r.name s.queues ≡ o
      → kept_result (on_found o s f) ≡ change_of op r s
  unfolding on_found
  on_found-kept op f none h e = sym (change_of-absent op e)
  on_found-kept op f (some q) h e = sym (change_of-found op q (f q) e (h q))

  publish_replayed-kept :
      (o : Option Queue)
      → find_queue r.name s.queues ≡ o
      → kept_result (publish_replayed o s r.id r.aux r.payload) ≡ change_of Op.log_publish r s
  unfolding publish_replayed
  publish_replayed-kept none e = sym (change_of-absent Op.log_publish e)
  publish_replayed-kept (some q) e =
      ap
        (λ b.
          kept_result (
            if b then (write_back s (append_message q r.id r.aux r.payload), true) else (s, false)))
        (find_queue-All (λ (q : Queue). q.durable ≡ true) r.name s.queues q durable e)
      ∙ sym (change_of-found Op.log_publish q _ e (append_message-Follows r q))

  past_id-kept : (t : Store × Bool) → kept_result (past_id t.0 r.id, t.1) ≡ kept_result t
  unfolding past_id
  past_id-kept t = ground arith

  delete_replayed-kept :
      (o : Option Queue)
      → find_queue r.name s.queues ≡ o
      → kept_result (delete_replayed o s) ≡ some (drop_kept r.name (kept_queues s.queues))
  unfolding delete_replayed
  delete_replayed-kept none e = ap some (sym (drop_kept-absent r.name s.queues e))
  delete_replayed-kept (some q) e =
      let named = is_named-split r.name q (find_queue-is_named r.name s.queues q e) in
      let name : (tombstone (purge_queue q).0).name ≡ r.name =
        unfold tombstone in (purge_queue-IsSameQueue q).name ∙ named.1 in
      ap some (
        ap (λ n. kept_queues (update_queue n (tombstone (purge_queue q).0) s.queues)) name
        ∙ drop_kept-found r.name s.queues q (tombstone (purge_queue q).0) e
            (find_queue-All (λ (q : Queue). q.durable ≡ true) r.name s.queues q durable e)
            (unfold tombstone in refl))

  declare_replayed-kept :
      (o : Option Queue) (p : Option (List ℕ × ℕ))
      → r.durable ≡ true
      → find_queue r.name s.queues ≡ o
      → kept_result (apply_policy p s r.name r.durable r.aux)
        ≡ declare_kept (find_kept r.name (kept_queues s.queues)) p r (kept_queues s.queues)
  unfolding apply_policy declare_kept declare_replayed
  declare_replayed-kept o none d e =
      sym (declare_kept-none (find_kept r.name (kept_queues s.queues)) r (kept_queues s.queues))
  declare_replayed-kept none (some (dlq, max_deliveries)) d e =
      rw (e, find_kept-absent r.name s.queues e)
        (unfold create_queue kept_queues in ground (arith, d))
  declare_replayed-kept (some q) (some (dlq, max_deliveries)) d e =
      let dq = find_queue-All (λ (q : Queue). q.durable ≡ true) r.name s.queues q durable e in
      rw (e, find_kept-found r.name s.queues q e dq) (unfold same_declaration in ground arith)

  pub apply_op-kept :
      (op : Op)
      → is_queue_op op ≡ true
      → r.durable ≡ true
      → kept_result (apply_op op r s) ≡ kept_op op r (kept_queues s.queues)
  unfolding apply_op kept_op apply_declare apply_ack apply_delivery apply_requeue apply_purge
      apply_delete
  apply_op-kept Op.log_declare h d =
      declare_replayed-kept (find_queue r.name s.queues) (declared_policy r.payload) d refl
  apply_op-kept Op.log_publish h d =
      unfold apply_publish in
      past_id-kept (publish_replayed (find_queue r.name s.queues) s r.id r.aux r.payload)
      ∙ publish_replayed-kept (find_queue r.name s.queues) refl
  apply_op-kept Op.log_ack h d =
      on_found-kept Op.log_ack (λ q. acked (find_id r.id (messages q)) q)
        (find_queue r.name s.queues) (λ q. acked-Follows r q (find_id r.id (messages q)) refl) refl
  apply_op-kept Op.log_deliver h d =
      on_found-kept Op.log_deliver (λ q. redelivered (find_id r.id (messages q)) q)
        (find_queue r.name s.queues) (λ q. redelivered-Follows r q (find_id r.id (messages q)) refl)
        refl
  apply_op-kept Op.log_requeue h d =
      on_found-kept Op.log_requeue (λ q. returned (find_id r.id (messages q)) r.aux q)
        (find_queue r.name s.queues) (λ q. returned-Follows r q (find_id r.id (messages q)) refl)
        refl
  apply_op-kept Op.log_purge h d =
      on_found-kept Op.log_purge (λ q. (purge_queue q).0) (find_queue r.name s.queues)
        (purge_queue-Follows r) refl
  apply_op-kept Op.log_delete h d = delete_replayed-kept (find_queue r.name s.queues) refl
  apply_op-kept Op.log_exdeclare h d = cc
  apply_op-kept Op.log_exbind h d = cc
  apply_op-kept Op.log_exunbind h d = cc
  apply_op-kept Op.log_exdelete h d = cc
  apply_op-kept Op.log_exupdate h d = cc
