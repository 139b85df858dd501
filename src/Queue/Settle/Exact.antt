-- ===== src/Queue/Settle/Exact.antt =====
-- The two ends of an ACK.
use mathlib.Core.Path.{subst}
use kuttidb.Base.{
  ℕ, ◌≡◌, ◌⊎◌, refl, sym, Bool, true, false, ◌==◌, List, Option, some, none, arith, if_cases, inl,
  inr,
}
use kuttidb.Wal.{Op}
use kuttidb.Wal.Durability.{HasNumbers}
use kuttidb.Queue.{Message, Queue, Store, messages, find_queue}
use kuttidb.Queue.Messages.{remove_message}
use kuttidb.Queue.Counts.{messages-remove_message}
use kuttidb.Queue.Places.{IsTaken, remove_id-IsTaken}
use kuttidb.Queue.Invariant.{Holds}
use kuttidb.Queue.Sound.{IsQueueOf, IsSound, find_queue-All}
use kuttidb.Queue.Settle.{
  Settled, active_delivery, log_settled, remove_logged, settle_removed, ack_delivery, ack_one,
  report_settled, ack_in, queue_ack_for_owner,
}
use kuttidb.Queue.Settle.Sound.{active_delivery-Holds}
use kuttidb.Queue.Settle.Ends.{
  IsLogged, IsUntouched, IsActive, IsSettled, IsRefusal, Ends, active_delivery-IsActive,
  active_delivery-none, log_settled-queues, log_settled-fails, log_settled-IsLogged,
  reported-IsUntouched, reported-IsSettled, unreached-IsUntouched, no_log-IsRefusal,
  error-ne-settled, not_active-ne-settled,
}

module _ (s : Store) (name : List ℕ) (tag owner : ℕ) (q : Queue)
    (e : find_queue name s.queues ≡ some q) (hq : IsQueueOf s.next_id q) where
  removed-Ends :
      (l : Store × Bool) (m : Message)
      → IsActive q tag owner m
      → Holds q m
      → l.0.queues ≡ s.queues
      → (q.durable ≡ true → l.1 ≡ true → IsLogged Op.log_ack s q m.id 0 l.0)
      → (l.1 ≡ false → (s.wal.opened ≡ false) ⊎ (l.0.wal.failed ≡ true))
      → Ends Op.log_ack 0 IsTaken s name tag owner (report_settled (remove_logged l q m))
  unfolding remove_logged remove_message
  removed-Ends (s', false) m active held queues logged fails = inl (
      reported-IsUntouched s s' name tag owner q Settled.error e queues error-ne-settled
        (no_log-IsRefusal s s' name tag owner (fails refl)))
  removed-Ends (s', true) m active held queues logged fails = inr (
      reported-IsSettled Op.log_ack 0 IsTaken s s' name tag owner q (remove_message q m) m e active
        queues (refl, refl)
        (subst (IsTaken m (messages q)) (sym (messages-remove_message q m))
          (remove_id-IsTaken m.id m (messages q) held))
        (λ durable. logged durable refl))

  ack_delivery-Ends :
      (o : Option Message)
      → active_delivery q tag owner ≡ o
      → HasNumbers s.wal
      → Ends Op.log_ack 0 IsTaken s name tag owner (report_settled (ack_delivery o s q))
  unfolding ack_delivery settle_removed
  ack_delivery-Ends none found numbers = inl (
      reported-IsUntouched s s name tag owner q Settled.not_active e refl not_active-ne-settled
        (λ _ _. IsRefusal.no_delivery q e (active_delivery-none q tag owner found)))
  ack_delivery-Ends (some m) found numbers =
      removed-Ends (log_settled s Op.log_ack q m.id 0) m
        (active_delivery-IsActive q tag owner m found)
        (active_delivery-Holds q tag owner m hq found).0 (log_settled-queues s Op.log_ack q m.id 0)
        (log_settled-IsLogged Op.log_ack s q m.id 0 numbers)
        (log_settled-fails Op.log_ack s q m.id 0)

ack_in-Ends :
    (s : Store) (name : List ℕ) (tag owner : ℕ) (o : Option Queue)
    → IsSound s
    → HasNumbers s.wal
    → find_queue name s.queues ≡ o
    → Ends Op.log_ack 0 IsTaken s name tag owner (ack_in o s tag owner)
unfolding ack_in ack_one
ack_in-Ends s name tag owner none sound numbers e =
    inl (unreached-IsUntouched s name tag owner (IsRefusal.no_queue e))
ack_in-Ends s name tag owner (some q) sound numbers e =
    ack_delivery-Ends s name tag owner q e
      (find_queue-All (IsQueueOf s.next_id) name s.queues q sound e) (active_delivery q tag owner)
      refl numbers

-- An ACK in a sound store, with room for one more record number, has one of two ends. Either it does
-- not report success and leaves every queue as it was: then there is no tag, no queue of this name,
-- no delivery in flight for this owner under the tag, or the log is closed or has failed. Or it
-- reports success: then the first message of the queue under this tag was in flight for this owner,
-- the queue has the same messages in the same order without this one, every other queue is as it
-- was, and where the queue is durable, the record of the ACK is the only new one in the log, and a
-- successful fsync has covered the log up to it.
pub queue_ack_for_owner-Ends :
    (s : Store) (name : List ℕ) (tag owner : ℕ)
    → IsSound s
    → HasNumbers s.wal
    → IsUntouched name tag owner s (queue_ack_for_owner s name tag owner)
      ⊎ IsSettled Op.log_ack 0 IsTaken s name tag owner (queue_ack_for_owner s name tag owner)
unfolding queue_ack_for_owner
queue_ack_for_owner-Ends s name tag owner sound numbers =
    if_cases (Ends Op.log_ack 0 IsTaken s name tag owner) (tag == 0) _ _
      (λ zero_tag.
        inl (unreached-IsUntouched s name tag owner (IsRefusal.no_tag (ground (arith, zero_tag)))))
      (λ _. ack_in-Ends s name tag owner (find_queue name s.queues) sound numbers refl)
