-- ===== src/Queue/Sound.antt =====
-- What holds of a store between two calls: every queue is consistent, and every message's id is
-- below the next one that will be given out.
use mathlib.Core.Path.{subst}
use kuttidb.Base.{
  total, ℕ, suc, ◌+◌, ◌≤◌, ◌<◌, ◌≡◌, ◌⊎◌, refl, Bool, List, [], ◌∷◌, ◌++◌, some, arith, All,
  Bool-cases, inl, inr,
}
use kuttidb.Queue.{
  Message, Queue, Store, messages, find_queue, update_queue, is_named, new_queue, create_queue,
}
use kuttidb.Queue.Messages.{append_message, message_create, remove_message, with_footprint}
use kuttidb.Queue.Lists.{remove_id, replace_id, find_id}
use kuttidb.Queue.Counts.{messages-message_link, messages-remove_message, total-remove_id}
use kuttidb.Queue.Invariant.{
  Avoids, Holds, IsConsistent, inflight_weight, replace-IsConsistent, message_link-IsConsistent,
  remove_message-IsConsistent,
}

abbrev pub AreBelow : ℕ → List Message → Type 0
AreBelow n = All (λ (m : Message). m.id < n)

pub record IsQueueOf (n : ℕ) (q : Queue) : Type 0 where
  pub consistent : IsConsistent q
  pub below : AreBelow n (messages q)

abbrev pub IsSound : Store → Type 0
IsSound s = All (IsQueueOf s.next_id) s.queues

AreBelow-mono : {n k : ℕ} (ms : List Message) → n ≤ k → AreBelow n ms → AreBelow k ms
AreBelow-mono [] le h = tt
AreBelow-mono (m ∷ ms) le h = (omega arith, AreBelow-mono ms le h.1)

AreBelow-Avoids : (n : ℕ) (ms : List Message) → AreBelow n ms → Avoids n ms
AreBelow-Avoids n [] h = tt
AreBelow-Avoids n (m ∷ ms) h = (omega arith, AreBelow-Avoids n ms h.1)

AreBelow-append_one :
    (n : ℕ) (ms : List Message) (m : Message) → AreBelow n ms → m.id < n → AreBelow n (ms ++ m ∷ [])
AreBelow-append_one n [] m h lt = (lt, tt)
AreBelow-append_one n (x ∷ ms) m h lt = (h.0, AreBelow-append_one n ms m h.1 lt)

AreBelow-remove_id : (n i : ℕ) (ms : List Message) → AreBelow n ms → AreBelow n (remove_id i ms)
unfolding remove_id
AreBelow-remove_id n i [] h = tt
AreBelow-remove_id n i (m ∷ ms) h = ground (arith, AreBelow-remove_id n i ms)

pub IsQueueOf-mono : {n k : ℕ} {q : Queue} → n ≤ k → IsQueueOf n q → IsQueueOf k q
IsQueueOf-mono {q} le h = record {
  consistent = h.consistent;
  below = AreBelow-mono (messages q) le h.below;
}

pub queues-IsQueueOf_mono :
    {n k : ℕ} (qs : List Queue) → n ≤ k → All (IsQueueOf n) qs → All (IsQueueOf k) qs
queues-IsQueueOf_mono [] le h = tt
queues-IsQueueOf_mono (q ∷ qs) le h = (IsQueueOf-mono le h.0, queues-IsQueueOf_mono qs le h.1)

-- The rest of the store does not matter.
pub same_queues-IsSound :
    (s s' : Store) → s'.queues ≡ s.queues → s'.next_id ≡ s.next_id → IsSound s → IsSound s'
same_queues-IsSound s s' queues ids h = rw (queues, ids) h

pub find_queue-All {κ} :
    (P : Queue → Type κ) (name : List ℕ) (qs : List Queue) (q : Queue)
    → All P qs
    → find_queue name qs ≡ some q
    → P q
unfolding find_queue
find_queue-All P name [] q h e = cc
find_queue-All P name (x ∷ qs) q h e = elim (Bool-cases (is_named name x)) [
  | inl here ↦ let same : x ≡ q = ground (arith, here) in subst P same h.0
  | inr there ↦ find_queue-All P name qs q h.1 (ground (arith, there))
]

pub update_queue-All {κ} :
    (P : Queue → Type κ) (name : List ℕ) (q' : Queue) (qs : List Queue)
    → All P qs
    → P q'
    → All P (update_queue name q' qs)
unfolding update_queue
update_queue-All P name q' [] h p = tt
update_queue-All P name q' (x ∷ qs) h p = elim (Bool-cases (is_named name x)) [
  | inl here ↦ rw here (p, h.1)
  | inr there ↦ rw there (h.0, update_queue-All P name q' qs h.1 p)
]

pub append_message-IsQueueOf :
    {n : ℕ} {q : Queue} (expires_ms : ℕ) (payload : List ℕ)
    → IsQueueOf n q
    → (q.max_depth ≡ 0) ⊎ (q.depth < q.max_depth)
    → IsQueueOf (suc n) (append_message q n expires_ms payload)
unfolding append_message message_create with_footprint
append_message-IsQueueOf {n} {q} expires_ms payload h free =
    let m = message_create n expires_ms payload in
    record {
      consistent =
          message_link-IsConsistent m h.consistent (AreBelow-Avoids n (messages q) h.below) refl
            free;
      below = rw messages-message_link (
          AreBelow-append_one (suc n) (messages q) (with_footprint q m)
            (AreBelow-mono (messages q) (omega arith) h.below) (ground arith));
    }

pub remove_message-IsQueueOf :
    {n : ℕ} {q : Queue} (m : Message) → IsQueueOf n q → Holds q m → IsQueueOf n (remove_message q m)
remove_message-IsQueueOf {n} {q} m h held = record {
  consistent = remove_message-IsConsistent m h.consistent held;
  below = rw messages-remove_message (AreBelow-remove_id n m.id (messages q) h.below);
}

pub create_queue-IsQueueOf :
    (s : Store) (name : List ℕ) (durable : Bool) (max_depth : ℕ) (dlq : List ℕ)
    (max_deliveries n : ℕ)
    → IsQueueOf n (create_queue s name durable max_depth dlq max_deliveries).1
unfolding create_queue total new_queue
create_queue-IsQueueOf s name durable max_depth dlq max_deliveries n = record {
  consistent = record {
    depth = refl;
    inflight = refl;
    ttl = refl;
    distinct = tt;
    room = inr (omega arith);
  };
  below = tt;
}

AreBelow-replace_id :
    (n i : ℕ) (m' : Message) (ms : List Message)
    → m'.id < n
    → AreBelow n ms
    → AreBelow n (replace_id i m' ms)
unfolding replace_id
AreBelow-replace_id n i m' [] lt h = tt
AreBelow-replace_id n i m' (m ∷ ms) lt h = ground (arith, AreBelow-replace_id n i m' ms)

AreBelow-find_id :
    (n i : ℕ) (m : Message) (ms : List Message) → AreBelow n ms → find_id i ms ≡ some m → m.id < n
unfolding find_id
AreBelow-find_id n i m [] h e = cc
AreBelow-find_id n i m (x ∷ ms) h e = ground (arith, AreBelow-find_id n i m ms)

-- A held message that changes in place.
pub replace-IsQueueOf :
    {n : ℕ} {q : Queue} (q' : Queue) (m m' : Message)
    → IsQueueOf n q
    → Holds q m
    → m'.id ≡ m.id
    → m'.expires_ms ≡ m.expires_ms
    → messages q' ≡ replace_id m.id m' (messages q)
    → q'.depth ≡ q.depth
    → q'.ttl_count ≡ q.ttl_count
    → q'.max_depth ≡ q.max_depth
    → q'.inflight_count + inflight_weight m ≡ q.inflight_count + inflight_weight m'
    → IsQueueOf n q'
replace-IsQueueOf {n} {q} q' m m' h held id expiry list depth count bound flight = record {
  consistent =
      replace-IsConsistent q' m m' h.consistent held id expiry list depth count bound flight;
  below = rw list (
      AreBelow-replace_id n m.id m' (messages q)
        (rw id (AreBelow-find_id n m.id m (messages q) h.below held)) h.below);
}

-- The counter of deliveries counts a held message that is in flight.
pub inflight_count-Holds :
    {n : ℕ} {q : Queue} (m : Message)
    → IsQueueOf n q
    → Holds q m
    → inflight_weight m ≤ q.inflight_count
inflight_count-Holds {n} {q} m h held =
    omega (arith, total-remove_id inflight_weight m.id m (messages q) held, h.consistent.inflight)
