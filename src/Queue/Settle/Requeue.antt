-- ===== src/Queue/Settle/Requeue.antt =====
-- The two ends of a NACK that asks for a requeue.
use mathlib.Core.Path.{subst}
use kuttidb.Base.{
  ℕ, ◌+◌, ◌%◌, ◌≡◌, refl, sym, ap, ◌∙◌, Bool, true, false, ◌==◌, List, ◌∷◌, Option, some, none,
  arith, if_cases, inl, inr, ◌⊎◌, if◌then◌else◌, u64_mod,
}
use kuttidb.Wal.{Op}
use kuttidb.Wal.Durability.{HasNumbers}
use kuttidb.Queue.{Message, MessageState, Queue, Store, Clocks, messages, find_queue}
use kuttidb.Queue.Lists.{replace_id}
use kuttidb.Queue.Messages.{replace_message, make_ready}
use kuttidb.Queue.Counts.{messages-replace_message}
use kuttidb.Queue.Places.{IsChanged, replace_id-IsChanged}
use kuttidb.Queue.Invariant.{Holds}
use kuttidb.Queue.Sound.{IsQueueOf, IsSound, find_queue-All}
use kuttidb.Queue.Settle.{
  Settled, active_delivery, log_settled, requeued, requeue_message, requeue_logged, settle_requeued,
  nack_delivery, nack_one, report_settled, nack_in, queue_nack_for_owner_delay,
}
use kuttidb.Queue.Settle.Sound.{active_delivery-Holds}
use kuttidb.Queue.Settle.Ends.{
  IsLogged, IsUntouched, IsActive, IsSettled, IsRefusal, Ends, active_delivery-IsActive,
  active_delivery-none, log_settled-queues, log_settled-fails, log_settled-IsLogged,
  reported-IsUntouched, reported-IsSettled, unreached-IsUntouched, no_log-IsRefusal,
  error-ne-settled, not_active-ne-settled,
}

-- When the message is due again: at once, or when `delay_ms` has passed.
abbrev pub due_again : Clocks → ℕ → ℕ
due_again t delay_ms = if delay_ms == 0 then 0 else (t.now + delay_ms) % u64_mod

-- The message as it waits again: ready, due then, without an owner or a tag, else the same.
pub record IsRetry (due : ℕ) (m m' : Message) : Type 0 where
  pub state_is : m'.state ≡ MessageState.ready
  pub timer_is : m'.timer ≡ due
  pub owner_is : m'.owner ≡ 0
  pub tag_is : m'.delivery_tag ≡ 0
  pub same_id : m'.id ≡ m.id
  pub same_payload : m'.payload ≡ m.payload
  pub same_expiry : m'.expires_ms ≡ m.expires_ms
  pub same_deliveries : m'.deliveries ≡ m.deliveries

-- The message stands in its place, ready again.
abbrev pub IsRetried : ℕ → Message → List Message → List Message → Type 0
IsRetried due m ms ms' = (m' : Message) × IsRetry due m m' × IsChanged m m' ms ms'

requeued-IsRetry : (q : Queue) (m : Message) (due : ℕ) → IsRetry due m (requeued q m due)
unfolding requeued make_ready
requeued-IsRetry q m due = record {
  state_is = refl;
  timer_is = refl;
  owner_is = refl;
  tag_is = refl;
  same_id = refl;
  same_payload = refl;
  same_expiry = refl;
  same_deliveries = refl;
}

requeue_message-kept :
    (q : Queue) (m : Message) (due : ℕ)
    → ((requeue_message q m due).name ≡ q.name) × ((requeue_message q m due).deleted ≡ q.deleted)
unfolding requeue_message replace_message
requeue_message-kept q m due = (refl, refl)

requeue_message-IsRetried :
    (q : Queue) (m : Message) (due : ℕ)
    → Holds q m
    → IsRetried due m (messages q) (messages (requeue_message q m due))
unfolding requeue_message
requeue_message-IsRetried q m due held =
    let m' = requeued q m due in
    let retry = requeued-IsRetry q m due in
    (
      m',
      retry,
      subst (IsChanged m m' (messages q))
          (sym (ap (λ i. replace_id i m' (messages q)) retry.same_id)
            ∙ sym (messages-replace_message q m'))
          (replace_id-IsChanged m.id m m' (messages q) held),
    )

module _ (t : Clocks) (s : Store) (name : List ℕ) (tag owner delay_ms : ℕ) where
  abbrev due : ℕ
  due = due_again t delay_ms

  abbrev EndsHere : Store × Settled → Type 0
  EndsHere = Ends Op.log_requeue due (IsRetried due) s name tag owner

  requeued-Ends :
      (q : Queue) (l : Store × Bool) (m : Message)
      → find_queue name s.queues ≡ some q
      → IsActive q tag owner m
      → Holds q m
      → l.0.queues ≡ s.queues
      → (q.durable ≡ true → l.1 ≡ true → IsLogged Op.log_requeue s q m.id due l.0)
      → (l.1 ≡ false → (s.wal.opened ≡ false) ⊎ (l.0.wal.failed ≡ true))
      → EndsHere (report_settled (requeue_logged l q m due))
  unfolding requeue_logged
  requeued-Ends q (s', false) m e active held queues logged fails = inl (
      reported-IsUntouched s s' name tag owner q Settled.error e queues error-ne-settled
        (no_log-IsRefusal s s' name tag owner (fails refl)))
  requeued-Ends q (s', true) m e active held queues logged fails = inr (
      reported-IsSettled Op.log_requeue due (IsRetried due) s _ name tag owner q
        (requeue_message q m due) m e active queues (requeue_message-kept q m due)
        (requeue_message-IsRetried q m due held) (λ durable. logged durable refl))

  nack_delivery-Ends :
      (held : List (List ℕ)) (q : Queue) (o : Option Message)
      → find_queue name s.queues ≡ some q
      → IsQueueOf s.next_id q
      → HasNumbers s.wal
      → active_delivery q tag owner ≡ o
      → EndsHere (report_settled (nack_delivery o held t s q true delay_ms))
  unfolding nack_delivery settle_requeued
  nack_delivery-Ends held q none e hq numbers found = inl (
      reported-IsUntouched s s name tag owner q Settled.not_active e refl not_active-ne-settled
        (λ _ _. IsRefusal.no_delivery q e (active_delivery-none q tag owner found)))
  nack_delivery-Ends held q (some m) e hq numbers found =
      requeued-Ends q (log_settled s Op.log_requeue q m.id due) m e
        (active_delivery-IsActive q tag owner m found)
        (active_delivery-Holds q tag owner m hq found).0
        (log_settled-queues s Op.log_requeue q m.id due)
        (log_settled-IsLogged Op.log_requeue s q m.id due numbers)
        (log_settled-fails Op.log_requeue s q m.id due)

  nack_in-Ends :
      (held : List (List ℕ)) (o : Option Queue)
      → IsSound s
      → HasNumbers s.wal
      → find_queue name s.queues ≡ o
      → EndsHere (nack_in o held t s tag owner true delay_ms)
  unfolding nack_in nack_one
  nack_in-Ends held none sound numbers e =
      inl (unreached-IsUntouched s name tag owner (IsRefusal.no_queue e))
  nack_in-Ends held (some q) sound numbers e =
      nack_delivery-Ends (q.name ∷ held) q (active_delivery q tag owner) e
        (find_queue-All (IsQueueOf s.next_id) name s.queues q sound e) numbers refl

  -- A NACK that asks for a requeue, in a sound store with room for one more record number, has one of
  -- two ends. Either it does not report success and leaves every queue as it was: then there is no
  -- tag, no queue of this name, no delivery in flight for this owner under the tag, or the log is
  -- closed or has failed. Or it reports success: then the first message of the queue under this tag
  -- was in flight for this owner and stands in its place as ready, due at once or when the delay has
  -- passed, without owner and tag and else the same; the queue's other messages and every other
  -- queue are as they were, and where the queue is durable, the record with that time is the only new
  -- one in the log, and a successful fsync has covered the log up to it.
  pub queue_nack_for_owner_delay-Ends :
      (held : List (List ℕ))
      → IsSound s
      → HasNumbers s.wal
      → IsUntouched name tag owner s
          (queue_nack_for_owner_delay held t s name tag owner true delay_ms)
        ⊎ IsSettled Op.log_requeue
            (due_again t delay_ms)
            (IsRetried (due_again t delay_ms))
            s
            name
            tag
            owner
            (queue_nack_for_owner_delay held t s name tag owner true delay_ms)
  unfolding queue_nack_for_owner_delay
  queue_nack_for_owner_delay-Ends held sound numbers =
      if_cases EndsHere (tag == 0) _ _
        (λ zero_tag.
          inl
            (unreached-IsUntouched s name tag owner (IsRefusal.no_tag (ground (arith, zero_tag)))))
        (λ _. nack_in-Ends held (find_queue name s.queues) sound numbers refl)
