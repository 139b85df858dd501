-- ===== src/Queue/Settle/Whole.antt =====
-- ACK and NACK by name, and the soundness of the store.
use kuttidb.Base.{
  ℕ, ◌+◌, ◌<◌, ◌≡◌, refl, Bool, true, ◌==◌, List, ◌∷◌, Option, some, none, arith, if_cases, u64_mod,
}
use kuttidb.Queue.{Message, Queue, Store, Clocks, find_queue}
use kuttidb.Queue.Lists.{is_inflight}
use kuttidb.Queue.Invariant.{Holds}
use kuttidb.Queue.Sound.{IsQueueOf, IsSound, find_queue-All}
use kuttidb.Queue.Publish.Sound.{write_back-IsSound}
use kuttidb.Queue.Settle.{
  Settled, active_delivery, ack_delivery, ack_one, nack_delivery, nack_one, report_settled, ack_in,
  queue_ack_for_owner, nack_in, queue_nack_for_owner_delay,
}
use kuttidb.Queue.Settle.Sound.{
  KeepsFor, active_delivery-Holds, settle_removed-Keeps, settle_requeued-Keeps,
  settle_rejected-Keeps,
}

nothing_done :
    (s : Store) (q : Queue)
    → IsSound s
    → IsQueueOf s.next_id q
    → KeepsFor s (s, q, Settled.not_active)
nothing_done s q hs hq = record { sound = hs; queue = hq; grows = omega arith; few = omega arith }

ack_delivery-Keeps :
    (o : Option Message) (s : Store) (q : Queue)
    → IsSound s
    → IsQueueOf s.next_id q
    → ((m : Message) → o ≡ some m → Holds q m × (is_inflight m ≡ true))
    → KeepsFor s (ack_delivery o s q)
unfolding ack_delivery
ack_delivery-Keeps none s q hs hq found = nothing_done s q hs hq
ack_delivery-Keeps (some m) s q hs hq found = settle_removed-Keeps s q m hs hq ((found m refl).0)

nack_delivery-Keeps :
    (o : Option Message) (held : List (List ℕ)) (t : Clocks) (s : Store) (q : Queue)
    (requeue : Bool) (delay_ms : ℕ)
    → IsSound s
    → IsQueueOf s.next_id q
    → s.next_id + 1 < u64_mod
    → ((m : Message) → o ≡ some m → Holds q m × (is_inflight m ≡ true))
    → KeepsFor s (nack_delivery o held t s q requeue delay_ms)
unfolding nack_delivery
nack_delivery-Keeps none held t s q requeue delay_ms hs hq few found = nothing_done s q hs hq
nack_delivery-Keeps (some m) held t s q requeue delay_ms hs hq few found =
    let active = found m refl in
    if_cases (KeepsFor s) requeue _ _
      (λ _. settle_requeued-Keeps s q m hs hq (active.0) t delay_ms (active.1))
      (λ _. settle_rejected-Keeps s q m hs hq (active.0) held few)

report_settled-IsSound :
    (r : Store × Queue × Settled)
    → IsSound r.0
    → IsQueueOf r.0.next_id r.1
    → IsSound (report_settled r).0
unfolding report_settled
report_settled-IsSound (s, q, r) hs hq = write_back-IsSound s q hs hq

ack_in-IsSound :
    (o : Option Queue) (s : Store) (tag owner : ℕ)
    → IsSound s
    → ((q : Queue) → o ≡ some q → IsQueueOf s.next_id q)
    → IsSound (ack_in o s tag owner).0
unfolding ack_in ack_one
ack_in-IsSound none s tag owner hs found = hs
ack_in-IsSound (some q) s tag owner hs found =
    let hq = found q refl in
    let k =
      ack_delivery-Keeps (active_delivery q tag owner) s q hs hq
        (λ m e. active_delivery-Holds q tag owner m hq e) in
    report_settled-IsSound (ack_one s q tag owner) k.sound k.queue

-- An ACK, whatever it returns, keeps every queue's counters, ids and bound.
pub queue_ack_for_owner-IsSound :
    (s : Store) (name : List ℕ) (tag owner : ℕ)
    → IsSound s
    → IsSound (queue_ack_for_owner s name tag owner).0
unfolding queue_ack_for_owner
queue_ack_for_owner-IsSound s name tag owner hs =
    if_cases (λ (r : Store × Settled). IsSound r.0) (tag == 0) _ _ (λ _. hs)
      (λ _.
        ack_in-IsSound (find_queue name s.queues) s tag owner hs
          (λ q e. find_queue-All (IsQueueOf s.next_id) name s.queues q hs e))

nack_in-IsSound :
    (o : Option Queue) (held : List (List ℕ)) (t : Clocks) (s : Store) (tag owner : ℕ)
    (requeue : Bool) (delay_ms : ℕ)
    → IsSound s
    → s.next_id + 1 < u64_mod
    → ((q : Queue) → o ≡ some q → IsQueueOf s.next_id q)
    → IsSound (nack_in o held t s tag owner requeue delay_ms).0
unfolding nack_in nack_one
nack_in-IsSound none held t s tag owner requeue delay_ms hs few found = hs
nack_in-IsSound (some q) held t s tag owner requeue delay_ms hs few found =
    let hq = found q refl in
    let k =
      nack_delivery-Keeps (active_delivery q tag owner) (q.name ∷ held) t s q requeue delay_ms hs hq
        few (λ m e. active_delivery-Holds q tag owner m hq e) in
    report_settled-IsSound (nack_one (q.name ∷ held) t s q tag owner requeue delay_ms) k.sound
      k.queue

-- A NACK, whatever it returns, keeps every queue's counters, ids and bound, as long as the ids do
-- not run out.
pub queue_nack_for_owner_delay-IsSound :
    (held : List (List ℕ)) (t : Clocks) (s : Store) (name : List ℕ) (tag owner : ℕ) (requeue : Bool)
    (delay_ms : ℕ)
    → IsSound s
    → s.next_id + 1 < u64_mod
    → IsSound (queue_nack_for_owner_delay held t s name tag owner requeue delay_ms).0
unfolding queue_nack_for_owner_delay
queue_nack_for_owner_delay-IsSound held t s name tag owner requeue delay_ms hs few =
    if_cases (λ (r : Store × Settled). IsSound r.0) (tag == 0) _ _ (λ _. hs)
      (λ _.
        nack_in-IsSound (find_queue name s.queues) held t s tag owner requeue delay_ms hs few
          (λ q e. find_queue-All (IsQueueOf s.next_id) name s.queues q hs e))
