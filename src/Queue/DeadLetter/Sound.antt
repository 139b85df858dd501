-- ===== src/Queue/DeadLetter/Sound.antt =====
-- `dead_letter`, and the soundness of the store and of the queue.
use mathlib.Core.Path.{subst}
use mathlib.Core.Option.{some-injective}
use kuttidb.Base.{
  ℕ, suc, ◌+◌, ◌≤◌, ◌<◌, ◌≡◌, ◌⊎◌, refl, Bool, true, false, List, [], Option, some, none, arith,
  if◌then◌else◌, if_cases, All, u64_mod, add64, inl, inr,
}
use kuttidb.Queue.{Message, Queue, Store, find_queue, create_queue, is_empty}
use kuttidb.Queue.Messages.{remove_message}
use kuttidb.Queue.Invariant.{Holds}
use kuttidb.Queue.Sound.{
  IsQueueOf, IsSound, same_queues-IsSound, IsQueueOf-mono, queues-IsQueueOf_mono, find_queue-All,
  update_queue-All, append_message-IsQueueOf, remove_message-IsQueueOf, create_queue-IsQueueOf,
}
use kuttidb.Queue.DeadLetter.{
  is_held, metadata_lock, Routing, append_log, sync_store, create_dlq, declare_dlq,
  found_or_declared, resolve_dlq, move_message, refuses, log_routing, route_copy, route_to,
  route_resolved, dead_letter,
}

-- A change of a store and of the queue in hand that keeps both sound and gives out one id at most.
pub record Keeps (s : Store) (s' : Store) (q' : Queue) : Type 0 where
  pub sound : IsSound s'
  pub queue : IsQueueOf s'.next_id q'
  pub grows : s.next_id ≤ s'.next_id
  pub few : s'.next_id ≤ s.next_id + 1

-- Only the log changes.
log_routing-queues :
    (s : Store) (q dlq : Queue) (m : Message) (id expires_ms : ℕ)
    → ((log_routing s q dlq m id expires_ms).0.queues ≡ s.queues)
      × ((log_routing s q dlq m id expires_ms).0.next_id ≡ s.next_id)
unfolding log_routing append_log sync_store
log_routing-queues s q dlq m id expires_ms = ground arith

record IsResolved (s : Store) (r : Store × Option Queue) : Type 0 where
  sound : IsSound r.0
  same_id : r.0.next_id ≡ s.next_id
  found : (dlq : Queue) → r.1 ≡ some dlq → IsQueueOf s.next_id dlq

create_dlq-IsResolved :
    (s : Store) (r : Store × Bool) (q : Queue)
    → IsSound s
    → r.0.queues ≡ s.queues
    → r.0.next_id ≡ s.next_id
    → IsResolved s (create_dlq r q)
unfolding create_dlq create_queue
create_dlq-IsResolved s (s', false) q h queues ids = record {
  sound = rw (queues, ids) h;
  same_id = ids;
  found = λ d same. absurd (cc same);
}
create_dlq-IsResolved s (s', true) q h queues ids =
    let new = create_queue-IsQueueOf s' q.dlq_name q.durable 0 [] 0 s.next_id in
    record {
      sound = (rw ids new, same_queues-IsSound s s' queues ids h);
      same_id = ids;
      found = λ d same. subst (IsQueueOf s.next_id) (some-injective _ _ same) new;
    }

found_or_declared-IsResolved :
    (o : Option Queue) (s : Store) (q : Queue)
    → IsSound s
    → ((dlq : Queue) → o ≡ some dlq → IsQueueOf s.next_id dlq)
    → IsResolved s (found_or_declared o s q)
unfolding found_or_declared declare_dlq append_log
found_or_declared-IsResolved (some dlq) s q h found = record {
  sound = h;
  same_id = refl;
  found = found;
}
found_or_declared-IsResolved none s q h found = create_dlq-IsResolved s _ q h refl refl

resolve_dlq-IsResolved : (s : Store) (q : Queue) → IsSound s → IsResolved s (resolve_dlq s q)
unfolding resolve_dlq
resolve_dlq-IsResolved s q h =
    found_or_declared-IsResolved (find_queue q.dlq_name s.queues) s q h
      (λ d e. find_queue-All (IsQueueOf s.next_id) q.dlq_name s.queues d h e)

abbrev KeepsOf : Store → Store × Queue × Routing → Type 0
KeepsOf s r = Keeps s r.0 r.1

move_message-Keeps :
    (s : Store) (r : Store × Bool) (q : Queue) (m : Message) (expires_ms : ℕ) (dlq : Queue)
    → IsSound s
    → IsQueueOf s.next_id q
    → IsQueueOf s.next_id dlq
    → (dlq.max_depth ≡ 0) ⊎ (dlq.depth < dlq.max_depth)
    → Holds q m
    → r.0.queues ≡ s.queues
    → r.0.next_id ≡ suc s.next_id
    → KeepsOf s (move_message r q m s.next_id expires_ms dlq)
unfolding move_message
move_message-Keeps s (s', false) q m expires_ms dlq hs hq hd free h queues ids = record {
  sound = rw (queues, ids) (queues-IsQueueOf_mono s.queues (omega arith) hs);
  queue = rw ids (IsQueueOf-mono (omega arith) hq);
  grows = omega (arith, ids);
  few = omega (arith, ids);
}
move_message-Keeps s (s', true) q m expires_ms dlq hs hq hd free h queues ids =
    let later : All (IsQueueOf (suc s.next_id)) s.queues =
      queues-IsQueueOf_mono s.queues (omega arith) hs in
    record {
      sound =
          rw (queues, ids)
            (update_queue-All (IsQueueOf (suc s.next_id)) _ _ s.queues later
              (append_message-IsQueueOf expires_ms m.payload hd free));
      queue = rw ids (IsQueueOf-mono (omega arith) (remove_message-IsQueueOf m hq h));
      grows = omega (arith, ids);
      few = omega (arith, ids);
    }

pub Keeps-refl : (s : Store) (q : Queue) → IsSound s → IsQueueOf s.next_id q → Keeps s s q
Keeps-refl s q hs hq = record { sound = hs; queue = hq; grows = omega arith; few = omega arith }

route_copy-Keeps :
    (s : Store) (q : Queue) (m : Message) (expires_ms : ℕ) (dlq : Queue)
    → IsSound s
    → IsQueueOf s.next_id q
    → IsQueueOf s.next_id dlq
    → (dlq.max_depth ≡ 0) ⊎ (dlq.depth < dlq.max_depth)
    → Holds q m
    → s.next_id + 1 < u64_mod
    → KeepsOf s (route_copy s q m expires_ms dlq)
unfolding route_copy
route_copy-Keeps s q m expires_ms dlq hs hq hd free h few =
    let logged =
      log_routing-queues (record s { next_id = add64 s.next_id 1 }) q dlq m s.next_id expires_ms in
    move_message-Keeps s _ q m expires_ms dlq hs hq hd free h logged.0 (omega (arith, logged.1))

refuses-false :
    (held : List (List ℕ)) (dlq : Queue)
    → refuses held dlq ≡ false
    → (dlq.max_depth ≡ 0) ⊎ (dlq.depth < dlq.max_depth)
unfolding refuses
refuses-false held dlq h = ground arith

route_to-Keeps :
    (held : List (List ℕ)) (s : Store) (q : Queue) (m : Message) (clear_expiry : Bool) (dlq : Queue)
    → IsSound s
    → IsQueueOf s.next_id q
    → IsQueueOf s.next_id dlq
    → Holds q m
    → s.next_id + 1 < u64_mod
    → KeepsOf s (route_to held s q m clear_expiry dlq)
unfolding route_to
route_to-Keeps held s q m clear_expiry dlq hs hq hd h few =
    if_cases (KeepsOf s) (refuses held dlq) (s, q, Routing.kept)
      (route_copy s q m (if clear_expiry then 0 else m.expires_ms) dlq) (λ _. Keeps-refl s q hs hq)
      (λ open'. route_copy-Keeps s q m _ dlq hs hq hd (refuses-false held dlq open') h few)

route_resolved-Keeps :
    (held : List (List ℕ)) (s : Store) (r : Store × Option Queue) (q : Queue) (m : Message)
    (clear_expiry : Bool)
    → IsResolved s r
    → IsQueueOf s.next_id q
    → Holds q m
    → s.next_id + 1 < u64_mod
    → KeepsOf s (route_resolved held r q m clear_expiry)
unfolding route_resolved
route_resolved-Keeps held s (s', none) q m clear_expiry r hq h few = record {
  sound = r.sound;
  queue = rw r.same_id hq;
  grows = omega (arith, r.same_id);
  few = omega (arith, r.same_id);
}
route_resolved-Keeps held s (s', some dlq) q m clear_expiry r hq h few =
    let keeps =
      route_to-Keeps held s' q m clear_expiry dlq r.sound (rw r.same_id hq)
        (rw r.same_id (r.found dlq refl)) h (omega (arith, r.same_id)) in
    record {
      sound = keeps.sound;
      queue = keeps.queue;
      grows = omega (arith, r.same_id, keeps.grows);
      few = omega (arith, r.same_id, keeps.few);
    }

pub dead_letter-Keeps :
    (held : List (List ℕ)) (s : Store) (q : Queue) (m : Message) (clear_expiry : Bool)
    → IsSound s
    → IsQueueOf s.next_id q
    → Holds q m
    → s.next_id + 1 < u64_mod
    → Keeps s (dead_letter held s q m clear_expiry).0 (dead_letter held s q m clear_expiry).1
unfolding dead_letter
dead_letter-Keeps held s q m clear_expiry hs hq h few =
    if_cases (KeepsOf s) (is_empty q.dlq_name) _ _ (λ _. Keeps-refl s q hs hq)
      (λ _.
        if_cases (KeepsOf s) (is_held metadata_lock held) (s, q, Routing.kept)
          (route_resolved held (resolve_dlq s q) q m clear_expiry) (λ _. Keeps-refl s q hs hq)
          (λ _.
            route_resolved-Keeps held s (resolve_dlq s q) q m clear_expiry
              (resolve_dlq-IsResolved s q hs) hq h few))

-- What happens to the source queue.
abbrev pub Outcome : Queue → Message → Store × Queue × Routing → Type 0
Outcome q m out =
    ((out.2 ≡ Routing.no_policy) × (out.1 ≡ q))
    ⊎ ((out.2 ≡ Routing.kept) × (out.1 ≡ q))
    ⊎ ((out.2 ≡ Routing.routed) × (out.1 ≡ remove_message q m))

move_message-Outcome :
    (r : Store × Bool) (q : Queue) (m : Message) (id expires_ms : ℕ) (dlq : Queue)
    → Outcome q m (move_message r q m id expires_ms dlq)
unfolding move_message
move_message-Outcome (s', false) q m id expires_ms dlq = inr (inl (refl, refl))
move_message-Outcome (s', true) q m id expires_ms dlq = inr (inr (refl, refl))

route_resolved-Outcome :
    (held : List (List ℕ)) (r : Store × Option Queue) (q : Queue) (m : Message)
    (clear_expiry : Bool)
    → Outcome q m (route_resolved held r q m clear_expiry)
unfolding route_resolved route_to route_copy
route_resolved-Outcome held (s', none) q m clear_expiry = inr (inl (refl, refl))
route_resolved-Outcome held (s', some dlq) q m clear_expiry =
    if_cases (Outcome q m) (refuses held dlq) _ _ (λ _. inr (inl (refl, refl)))
      (λ _. move_message-Outcome _ q m s'.next_id _ dlq)

pub dead_letter-Outcome :
    (held : List (List ℕ)) (s : Store) (q : Queue) (m : Message) (clear_expiry : Bool)
    → Outcome q m (dead_letter held s q m clear_expiry)
unfolding dead_letter
dead_letter-Outcome held s q m clear_expiry =
    if_cases (Outcome q m) (is_empty q.dlq_name) _ _ (λ _. inl (refl, refl))
      (λ _.
        if_cases (Outcome q m) (is_held metadata_lock held) _ _ (λ _. inr (inl (refl, refl)))
          (λ _. route_resolved-Outcome held (resolve_dlq s q) q m clear_expiry))
