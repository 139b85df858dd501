-- ===== src/Replay/Follows.antt =====
-- One queue, changed as a record says.
use kuttidb.Base.{ℕ, ◌≡◌, refl, sym, ap, ◌∙◌, Option, none, some, List, [], ◌∷◌, arith, add32}
use kuttidb.Wal.{Op, LogRecord}
use kuttidb.Queue.{Message, Queue, messages}
use kuttidb.Queue.Lists.{find_id, replace_id}
use kuttidb.Queue.Messages.{
  append_message, message_link, message_create, with_footprint, remove_message, replace_message,
  make_ready, purge_queue, remove_all,
}
use kuttidb.Queue.Counts.{messages-remove_message, messages-replace_message, messages-message_link}
use kuttidb.Queue.Presence.Reaped.{IsSameQueue, IsSameQueue-refl, remove_message-IsSameQueue}
use kuttidb.Replay.{acked, redelivered, returned}
use kuttidb.Replay.Spec.{
  kept_messages, kept_queue, without, delivered_again, held_after, queue_after,
}
use kuttidb.Replay.Views.{
  kept_messages-remove_id, kept_messages-replace_same, kept_messages-replace_count,
  kept_messages-append, messages-purge_queue,
}

-- A queue changed as the record says.
pub record Follows (op : Op) (r : LogRecord) (q q' : Queue) : Type 0 where
  pub same : IsSameQueue q q'
  pub held : kept_messages (messages q') ≡ held_after op r (kept_messages (messages q))

pub kept_queue-Follows :
    {op : Op} {r : LogRecord} {q q' : Queue}
    → Follows op r q q'
    → kept_queue q' ≡ queue_after op r (kept_queue q)
kept_queue-Follows f =
    rw (f.same.name, f.same.max_depth, f.same.dlq_name, f.same.max_deliveries, f.held) refl

remove_all-IsSameQueue : (ms : List Message) (q : Queue) → IsSameQueue q (remove_all ms q)
unfolding remove_all remove_message
remove_all-IsSameQueue [] q = IsSameQueue-refl q
remove_all-IsSameQueue (m ∷ ms) q =
    let rest = remove_all-IsSameQueue ms (remove_message q m) in
    record {
      name = rest.name;
      deleted = rest.deleted;
      durable = rest.durable;
      dlq_name = rest.dlq_name;
      max_deliveries = rest.max_deliveries;
      max_depth = rest.max_depth;
    }

pub purge_queue-IsSameQueue : (q : Queue) → IsSameQueue q (purge_queue q).0
unfolding purge_queue
purge_queue-IsSameQueue q =
    let all = remove_all-IsSameQueue (messages q) q in
    record {
      name = all.name;
      deleted = all.deleted;
      durable = all.durable;
      dlq_name = all.dlq_name;
      max_deliveries = all.max_deliveries;
      max_depth = all.max_depth;
    }

pub message_link-IsSameQueue : (q : Queue) (m : Message) → IsSameQueue q (message_link q m)
unfolding message_link
message_link-IsSameQueue q m = record {
  name = refl;
  deleted = refl;
  durable = refl;
  dlq_name = refl;
  max_deliveries = refl;
  max_depth = refl;
}

pub replace_message-IsSameQueue : (q : Queue) (m : Message) → IsSameQueue q (replace_message q m)
unfolding replace_message
replace_message-IsSameQueue q m = record {
  name = refl;
  deleted = refl;
  durable = refl;
  dlq_name = refl;
  max_deliveries = refl;
  max_depth = refl;
}

find_id-id : (id : ℕ) (m : Message) (ms : List Message) → find_id id ms ≡ some m → m.id ≡ id
unfolding find_id
find_id-id id m [] e = cc
find_id-id id m (x ∷ ms) e = ground (arith, find_id-id id m ms)

without_absent :
    (id : ℕ) (ms : List Message)
    → find_id id ms ≡ none
    → kept_messages ms ≡ without id (kept_messages ms)
unfolding find_id without
without_absent id [] e = refl
without_absent id (x ∷ ms) e = ground (arith, without_absent id ms)

delivered_again_absent :
    (id : ℕ) (ms : List Message)
    → find_id id ms ≡ none
    → kept_messages ms ≡ delivered_again id (kept_messages ms)
unfolding find_id delivered_again
delivered_again_absent id [] e = refl
delivered_again_absent id (x ∷ ms) e = ground (arith, delivered_again_absent id ms)

pub append_message-Follows :
    (r : LogRecord) (q : Queue) → Follows Op.log_publish r q (append_message q r.id r.aux r.payload)
unfolding append_message held_after
append_message-Follows r q = record {
  same = message_link-IsSameQueue q (message_create r.id r.aux r.payload);
  held =
      ap kept_messages (messages-message_link q (message_create r.id r.aux r.payload))
      ∙ kept_messages-append (messages q) _
      ∙ (unfold with_footprint message_create in ground arith);
}

pub acked-Follows :
    (r : LogRecord) (q : Queue) (o : Option Message)
    → o ≡ find_id r.id (messages q)
    → Follows Op.log_ack r q (acked o q)
unfolding acked held_after
acked-Follows r q none e = record {
  same = IsSameQueue-refl q;
  held = without_absent r.id (messages q) (sym e);
}
acked-Follows r q (some m) e = record {
  same = remove_message-IsSameQueue q m;
  held =
      ap kept_messages (messages-remove_message q m)
      ∙ kept_messages-remove_id m.id (messages q)
      ∙ ap (λ i. without i (kept_messages (messages q))) (find_id-id r.id m (messages q) (sym e));
}

pub redelivered-Follows :
    (r : LogRecord) (q : Queue) (o : Option Message)
    → o ≡ find_id r.id (messages q)
    → Follows Op.log_deliver r q (redelivered o q)
unfolding redelivered held_after
redelivered-Follows r q none e = record {
  same = IsSameQueue-refl q;
  held = delivered_again_absent r.id (messages q) (sym e);
}
redelivered-Follows r q (some m) e =
    let m' = record m { deliveries = add32 m.deliveries 1 } in
    let id = find_id-id r.id m (messages q) (sym e) in
    record {
      same = replace_message-IsSameQueue q m';
      held =
          ap kept_messages (messages-replace_message q m')
          ∙ ap (λ i. kept_messages (replace_id i m' (messages q))) id
          ∙ kept_messages-replace_count r.id m m' (messages q) (sym e) refl;
    }

pub returned-Follows :
    (r : LogRecord) (q : Queue) (o : Option Message)
    → o ≡ find_id r.id (messages q)
    → Follows Op.log_requeue r q (returned o r.aux q)
unfolding returned held_after
returned-Follows r q none e = record { same = IsSameQueue-refl q; held = refl }
returned-Follows r q (some m) e =
    let m' = make_ready m r.aux in
    let id : m'.id ≡ r.id = unfold make_ready in find_id-id r.id m (messages q) (sym e) in
    record {
      same = replace_message-IsSameQueue q m';
      held =
          ap kept_messages (messages-replace_message q m')
          ∙ ap (λ i. kept_messages (replace_id i m' (messages q))) id
          ∙ kept_messages-replace_same r.id m m' (messages q) (sym e) (unfold make_ready in refl);
    }

pub purge_queue-Follows : (r : LogRecord) (q : Queue) → Follows Op.log_purge r q (purge_queue q).0
unfolding held_after
purge_queue-Follows r q = record {
  same = purge_queue-IsSameQueue q;
  held = ap kept_messages (messages-purge_queue q);
}
