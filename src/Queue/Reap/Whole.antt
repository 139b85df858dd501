-- ===== src/Queue/Reap/Whole.antt =====
-- `reap_queue` as a whole: the walk over every message of the queue.
use kuttidb.Base.{
  ℕ, ◌+◌, ◌≤◌, ◌<◌, ◌≡◌, ◌≢◌, ◌∙◌, inl, inr, sym, ◌&&◌, ◌||◌, ◌==◌, List, [], ◌∷◌, some, arith,
  if_cases, All, length, ltb, u64_mod, u64_max,
}
use kuttidb.Queue.{Message, Queue, Store, Clocks, messages}
use kuttidb.Queue.Lists.{find_id}
use kuttidb.Queue.Invariant.{Holds, AreDistinct, Avoids, IsConsistent}
use kuttidb.Queue.Sound.{IsQueueOf, IsSound}
use kuttidb.Queue.Counts.{find_id-messages-remove_message}
use kuttidb.Queue.DeadLetter.{Routing}
use kuttidb.Queue.DeadLetter.Sound.{Outcome}
use kuttidb.Queue.Reap.{Walk, reap_walk, reap_queue}
use kuttidb.Queue.Reap.Sound.{AllHeld, WalkKeeps, reap_walk-Keeps}

find_id-later :
    (x : Message) (xs ms : List Message)
    → Avoids x.id ms
    → All (λ (m : Message). find_id m.id xs ≡ some m) ms
    → All (λ (m : Message). find_id m.id (x ∷ xs) ≡ some m) ms
unfolding find_id
find_id-later x xs [] a h = tt
find_id-later x xs (m ∷ ms) a h = (ground (arith, a.0, h.0), find_id-later x xs ms a.1 h.1)

-- A queue holds each of its messages.
find_id-distinct :
    (xs : List Message) → AreDistinct xs → All (λ (m : Message). find_id m.id xs ≡ some m) xs
find_id-distinct [] h = tt
find_id-distinct (x ∷ xs) h =
    (unfold find_id in ground arith, find_id-later x xs xs h.0 (find_id-distinct xs h.1))

pub AllHeld-messages : (q : Queue) → IsConsistent q → AllHeld q (messages q)
AllHeld-messages q c = find_id-distinct (messages q) c.distinct

-- A change of a store and of the queue in hand that gives out `k` ids at most.
pub record KeepsUpTo (k : ℕ) (s s' : Store) (q' : Queue) : Type 0 where
  pub sound : IsSound s'
  pub queue : IsQueueOf s'.next_id q'
  pub grows : s.next_id ≤ s'.next_id
  pub few : s'.next_id ≤ s.next_id + k

-- After a routing of `m` the queue still holds its other messages.
Outcome-Holds :
    (q : Queue) (m n : Message) (out : Store × Queue × Routing)
    → Outcome q m out
    → m.id ≢ n.id
    → Holds q n
    → Holds out.1 n
Outcome-Holds q m n out (inl o) ne h = rw (o.1) h
Outcome-Holds q m n out (inr (inl o)) ne h = rw (o.1) h
Outcome-Holds q m n out (inr (inr o)) ne h =
    rw (o.1) (find_id-messages-remove_message q m n.id ne ∙ h)

pub Outcome-AllHeld :
    (q : Queue) (m : Message) (ms : List Message) (out : Store × Queue × Routing)
    → Outcome q m out
    → Avoids m.id ms
    → AllHeld q ms
    → AllHeld out.1 ms
Outcome-AllHeld q m [] out o a h = tt
Outcome-AllHeld q m (n ∷ ms) out o a h =
    (Outcome-Holds q m n out o (λ e. a.0 (sym e)) h.0, Outcome-AllHeld q m ms out o a.1 h.1)

pub with_earliest-IsQueueOf :
    {n : ℕ} {q : Queue} (d : ℕ) → IsQueueOf n q → IsQueueOf n (record q { earliest_visibility = d })
with_earliest-IsQueueOf d h = record {
  consistent = record {
    depth = h.consistent.depth;
    inflight = h.consistent.inflight;
    ttl = h.consistent.ttl;
    distinct = h.consistent.distinct;
    room = h.consistent.room;
  };
  below = h.below;
}

module _ (held : List (List ℕ)) (t : Clocks) (s : Store) (q : Queue) (hs : IsSound s)
    (hq : IsQueueOf s.next_id q) (few : s.next_id + length (messages q) < u64_mod) where
  start : Walk
  start = record { store = s; queue = q; next_deadline = u64_max }

  whole_walk : WalkKeeps start (reap_walk held t start (messages q)) (length (messages q))
  unfolding start
  whole_walk =
      reap_walk-Keeps held t start (messages q) hs hq (AllHeld-messages q hq.consistent)
        hq.consistent.distinct few

  pub reap_queue-Keeps :
      KeepsUpTo (length (messages q)) s (reap_queue held t s q).0 (reap_queue held t s q).1
  unfolding reap_queue start
  reap_queue-Keeps =
      let walk = whole_walk in
      if_cases (λ (r : Store × Queue). KeepsUpTo (length (messages q)) s r.0 r.1)
        (q.ttl_count == 0 && (q.inflight_count == 0 || ltb t.mono q.earliest_visibility)) _ _
        (λ _. record { sound = hs; queue = hq; grows = omega arith; few = omega arith })
        (λ _. record {
          sound = walk.sound;
          queue = with_earliest-IsQueueOf _ walk.queue;
          grows = walk.grows;
          few = walk.few;
        })

  pub reap_queue-shrinks : length (messages (reap_queue held t s q).1) ≤ length (messages q)
  unfolding reap_queue start
  reap_queue-shrinks =
      let walk = whole_walk in
      if_cases (λ (r : Store × Queue). length (messages r.1) ≤ length (messages q))
        (q.ttl_count == 0 && (q.inflight_count == 0 || ltb t.mono q.earliest_visibility)) _ _
        (λ _. omega arith) (λ _. walk.shrinks)
