-- ===== src/Queue/Settle/Sound.antt =====
-- The steps of ACK and NACK, and the soundness of the store.
use mathlib.Core.Path.{subst}
use kuttidb.Base.{
  ℕ, ◌+◌, ◌<◌, ◌≡◌, refl, Bool, true, false, ◌==◌, List, [], ◌∷◌, Option, some, arith, if_cases,
  All, u64_mod, inl, inr, Bool-cases,
}
use kuttidb.Wal.{Op}
use kuttidb.Queue.{Message, Queue, Store, Clocks, messages, is_empty}
use kuttidb.Queue.Lists.{is_inflight, find_tag}
use kuttidb.Queue.Messages.{make_ready, replace_message}
use kuttidb.Queue.Counts.{messages-replace_message}
use kuttidb.Queue.Invariant.{Holds}
use kuttidb.Queue.Sound.{
  IsQueueOf, IsSound, remove_message-IsQueueOf, replace-IsQueueOf, inflight_count-Holds,
}
use kuttidb.Queue.DeadLetter.{Routing, append_log, sync_store, dead_letter}
use kuttidb.Queue.DeadLetter.Sound.{dead_letter-Keeps}
use kuttidb.Queue.Reap.Whole.{KeepsUpTo, AllHeld-messages}
use kuttidb.Queue.Settle.{
  Settled, if_active, active_delivery, log_settled, remove_logged, settle_removed, requeued,
  requeue_message, retry_time, requeue_logged, settle_requeued, report_routing, settle_rejected,
}

find_tag-All {κ} :
    (P : Message → Type κ) (tag : ℕ) (ms : List Message) (m : Message)
    → All P ms
    → find_tag tag ms ≡ some m
    → P m
unfolding find_tag
find_tag-All P tag [] m h e = cc
find_tag-All P tag (x ∷ ms) m h e = elim (Bool-cases (x.delivery_tag == tag)) [
  | inl here ↦ let same : x ≡ m = ground (arith, here) in subst P same h.0
  | inr there ↦ find_tag-All P tag ms m h.1 (ground (arith, there))
]

if_active-some :
    (o : Option Message) (owner : ℕ) (m : Message)
    → if_active o owner ≡ some m
    → (o ≡ some m) × (is_inflight m ≡ true) × (m.owner ≡ owner)
unfolding if_active
if_active-some o owner m h = ground arith

-- An active delivery is a message of the queue, in flight, with that tag and owner.
pub active_delivery-Holds :
    {n : ℕ} (q : Queue) (tag owner : ℕ) (m : Message)
    → IsQueueOf n q
    → active_delivery q tag owner ≡ some m
    → Holds q m × (is_inflight m ≡ true)
unfolding active_delivery
active_delivery-Holds q tag owner m h e =
    let found = if_active-some (find_tag tag (messages q)) owner m e in
    (find_tag-All (Holds q) tag (messages q) m (AllHeld-messages q h.consistent) (found.0), found.1)

abbrev pub KeepsFor : Store → Store × Queue × Settled → Type 0
KeepsFor s r = KeepsUpTo 1 s r.0 r.1

log_settled-SameQueues :
    (s : Store) (op : Op) (q : Queue) (id aux : ℕ)
    → ((log_settled s op q id aux).0.queues ≡ s.queues)
      × ((log_settled s op q id aux).0.next_id ≡ s.next_id)
unfolding log_settled append_log sync_store
log_settled-SameQueues s op q id aux = ground arith

module _ (s : Store) (q : Queue) (m : Message) (hs : IsSound s) (hq : IsQueueOf s.next_id q)
    (held_m : Holds q m) where
  unchanged :
      (s' : Store) (q' : Queue) (r : Settled)
      → s'.queues ≡ s.queues
      → s'.next_id ≡ s.next_id
      → IsQueueOf s.next_id q'
      → KeepsFor s (s', q', r)
  unchanged s' q' r queues ids h = record {
    sound = rw (queues, ids) hs;
    queue = rw ids h;
    grows = omega (arith, ids);
    few = omega (arith, ids);
  }

  remove_logged-Keeps :
      (l : Store × Bool)
      → l.0.queues ≡ s.queues
      → l.0.next_id ≡ s.next_id
      → KeepsFor s (remove_logged l q m)
  unfolding remove_logged
  remove_logged-Keeps (s', false) queues ids = unchanged s' q Settled.error queues ids hq
  remove_logged-Keeps (s', true) queues ids =
      unchanged s' _ Settled.settled queues ids (remove_message-IsQueueOf m hq held_m)

  pub settle_removed-Keeps : KeepsFor s (settle_removed s q m)
  unfolding settle_removed
  settle_removed-Keeps =
      let logged = log_settled-SameQueues s Op.log_ack q m.id 0 in
      remove_logged-Keeps (log_settled s Op.log_ack q m.id 0) (logged.0) (logged.1)

  requeue_message-IsQueueOf :
      (not_before_ms : ℕ)
      → is_inflight m ≡ true
      → IsQueueOf s.next_id (requeue_message q m not_before_ms)
  unfolding requeue_message requeued make_ready replace_message
  requeue_message-IsQueueOf not_before_ms flying =
      replace-IsQueueOf _ m (requeued q m not_before_ms) hq held_m refl refl
        (messages-replace_message q (requeued q m not_before_ms)) refl refl refl
        (ground (arith, inflight_count-Holds m hq held_m))

  requeue_logged-Keeps :
      (l : Store × Bool) (not_before_ms : ℕ)
      → is_inflight m ≡ true
      → l.0.queues ≡ s.queues
      → l.0.next_id ≡ s.next_id
      → KeepsFor s (requeue_logged l q m not_before_ms)
  unfolding requeue_logged
  requeue_logged-Keeps (s', false) not_before_ms flying queues ids =
      unchanged s' q Settled.error queues ids hq
  requeue_logged-Keeps (s', true) not_before_ms flying queues ids =
      unchanged (record s' { redeliveries = _ }) _ Settled.settled queues ids
        (requeue_message-IsQueueOf not_before_ms flying)

  pub settle_requeued-Keeps :
      (t : Clocks) (delay_ms : ℕ)
      → is_inflight m ≡ true
      → KeepsFor s (settle_requeued t s q m delay_ms)
  unfolding settle_requeued
  settle_requeued-Keeps t delay_ms flying =
      let logged = log_settled-SameQueues s Op.log_requeue q m.id (retry_time t delay_ms) in
      requeue_logged-Keeps _ (retry_time t delay_ms) flying (logged.0) (logged.1)

  report_routing-Keeps :
      (out : Store × Queue × Routing) → KeepsUpTo 1 s out.0 out.1 → KeepsFor s (report_routing out)
  unfolding report_routing
  report_routing-Keeps (s', q', Routing.no_policy) k = k
  report_routing-Keeps (s', q', Routing.kept) k = k
  report_routing-Keeps (s', q', Routing.routed) k = k

  pub settle_rejected-Keeps :
      (held : List (List ℕ)) → s.next_id + 1 < u64_mod → KeepsFor s (settle_rejected held s q m)
  unfolding settle_rejected
  settle_rejected-Keeps held few =
      if_cases (KeepsFor s) (is_empty q.dlq_name) _ _ (λ _. settle_removed-Keeps)
        (λ _.
          let k = dead_letter-Keeps held s q m false hs hq held_m few in
          report_routing-Keeps (dead_letter held s q m false)
            (record { sound = k.sound; queue = k.queue; grows = k.grows; few = k.few }))
