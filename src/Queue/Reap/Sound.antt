-- ===== src/Queue/Reap/Sound.antt =====
-- `reap_queue`, and the soundness of the store and of the queue.
use kuttidb.Base.{
  ℕ, ◌+◌, ◌≤◌, ◌<◌, ◌≡◌, ◌≢◌, refl, ◌∙◌, sym, true, List, [], ◌∷◌, arith, if_cases, All, length,
  u64_mod, inl, inr, leb, ltb,
}
use kuttidb.Queue.{Message, Queue, Store, Clocks, messages}
use kuttidb.Queue.Lists.{is_inflight}
use kuttidb.Queue.Messages.{remove_message, replace_message, make_ready}
use kuttidb.Queue.Counts.{
  messages-remove_message, messages-replace_message, length-remove_id, length-replace_id,
  find_id-messages-remove_message, find_id-messages-replace_message,
}
use kuttidb.Queue.Invariant.{Holds, AreDistinct, Avoids}
use kuttidb.Queue.Sound.{
  IsQueueOf, IsSound, remove_message-IsQueueOf, replace-IsQueueOf, inflight_count-Holds,
}
use kuttidb.Queue.DeadLetter.{Routing, dead_letter}
use kuttidb.Queue.DeadLetter.Sound.{
  Keeps, Keeps-refl, Outcome, dead_letter-Keeps, dead_letter-Outcome,
}
use kuttidb.Queue.Reap.{
  Walk, is_expired, ready_again, end_lease, after_routing, expire, reap_message, reap_walk,
}

-- One step on `m`: sound, and the other messages stay.
record Steps (w : Walk) (m : Message) (w' : Walk) : Type 0 where
  keeps : Keeps w.store w'.store w'.queue
  others : (n : Message) → m.id ≢ n.id → Holds w.queue n → Holds w'.queue n
  shrinks : length (messages w'.queue) ≤ length (messages w.queue)

module _ (w : Walk) (m : Message) (hs : IsSound w.store) (hq : IsQueueOf w.store.next_id w.queue)
    (held : Holds w.queue m) where
  Steps-refl : (w' : Walk) → w'.store ≡ w.store → w'.queue ≡ w.queue → Steps w m w'
  Steps-refl w' es eq = record {
    keeps = rw (es, eq) (Keeps-refl w.store w.queue hs hq);
    others = λ n ne h. rw eq h;
    shrinks = rw eq (omega arith);
  }

  ready_again-IsQueueOf : is_inflight m ≡ true → IsQueueOf w.store.next_id (ready_again w.queue m)
  unfolding ready_again make_ready replace_message
  ready_again-IsQueueOf flying =
      replace-IsQueueOf _ m (make_ready m 0) hq held refl refl
        (messages-replace_message w.queue (make_ready m 0)) refl refl refl
        (ground (arith, inflight_count-Holds m hq held))

  end_lease-Steps : is_inflight m ≡ true → Steps w m (end_lease w m)
  unfolding end_lease ready_again make_ready
  end_lease-Steps flying = record {
    keeps = record {
      sound = hs;
      queue = ready_again-IsQueueOf flying;
      grows = omega arith;
      few = omega arith;
    };
    others = λ n ne h. find_id-messages-replace_message w.queue (make_ready m 0) n.id ne ∙ h;
    shrinks =
        rw (messages-replace_message w.queue (make_ready m 0))
          (omega (arith, length-replace_id m.id m (make_ready m 0) (messages w.queue) held));
  }

  remove_message-others :
      (n : Message) → m.id ≢ n.id → Holds w.queue n → Holds (remove_message w.queue m) n
  remove_message-others n ne h = find_id-messages-remove_message w.queue m n.id ne ∙ h

  remove_message-shrinks : length (messages (remove_message w.queue m)) ≤ length (messages w.queue)
  remove_message-shrinks =
      rw messages-remove_message (omega (arith, length-remove_id m.id m (messages w.queue) held))

  after_routing-Steps :
      (r : Store × Queue × Routing)
      → Keeps w.store r.0 r.1
      → Outcome w.queue m r
      → Steps w m (after_routing w m r)
  unfolding after_routing
  after_routing-Steps (s, q, Routing.no_policy) k (inl (a, e)) = record {
    keeps = record {
      sound = k.sound;
      queue = remove_message-IsQueueOf m k.queue (rw e held);
      grows = k.grows;
      few = k.few;
    };
    others = rw e remove_message-others;
    shrinks = rw e remove_message-shrinks;
  }
  after_routing-Steps (s, q, Routing.no_policy) k (inr (inl (a, e))) = absurd (ground (arith, a))
  after_routing-Steps (s, q, Routing.no_policy) k (inr (inr (a, e))) = absurd (ground (arith, a))
  after_routing-Steps (s, q, Routing.kept) k (inl (a, e)) = absurd (ground (arith, a))
  after_routing-Steps (s, q, Routing.kept) k (inr (inl (a, e))) = record {
    keeps = k;
    others = λ n ne h. rw e h;
    shrinks = rw e (omega arith);
  }
  after_routing-Steps (s, q, Routing.kept) k (inr (inr (a, e))) = absurd (ground (arith, a))
  after_routing-Steps (s, q, Routing.routed) k (inl (a, e)) = absurd (ground (arith, a))
  after_routing-Steps (s, q, Routing.routed) k (inr (inl (a, e))) = absurd (ground (arith, a))
  after_routing-Steps (s, q, Routing.routed) k (inr (inr (a, e))) = record {
    keeps = k;
    others = rw e remove_message-others;
    shrinks = rw e remove_message-shrinks;
  }

  reap_message-Steps :
      (names : List (List ℕ)) (t : Clocks)
      → w.store.next_id + 1 < u64_mod
      → Steps w m (reap_message names t w m)
  unfolding reap_message expire
  reap_message-Steps names t few =
      if_cases (Steps w m) (is_expired t.now m) _ _
        (λ _.
          after_routing-Steps (dead_letter names w.store w.queue m true)
            (dead_letter-Keeps names w.store w.queue m true hs hq held few)
            (dead_letter-Outcome names w.store w.queue m true))
        (λ _.
          if_cases (Steps w m) (is_inflight m) _ _
            (λ flying.
              if_cases (Steps w m) (leb m.timer t.mono) _ _ (λ _. end_lease-Steps flying)
                (λ _.
                  if_cases (Steps w m) (ltb m.timer w.next_deadline) _ _
                    (λ _. Steps-refl _ refl refl) (λ _. Steps-refl w refl refl)))
            (λ _. Steps-refl w refl refl))

-- The walk over messages that the queue holds, no id twice.
abbrev pub AllHeld : Queue → List Message → Type 0
AllHeld q = All (Holds q)

AllHeld-step :
    (w w' : Walk) (m : Message) (ms : List Message)
    → Steps w m w'
    → Avoids m.id ms
    → AllHeld w.queue ms
    → AllHeld w'.queue ms
AllHeld-step w w' m [] st a h = tt
AllHeld-step w w' m (n ∷ ms) st a h =
    (st.others n (λ e. a.0 (sym e)) h.0, AllHeld-step w w' m ms st a.1 h.1)

pub record WalkKeeps (w w' : Walk) (rounds : ℕ) : Type 0 where
  pub sound : IsSound w'.store
  pub queue : IsQueueOf w'.store.next_id w'.queue
  pub grows : w.store.next_id ≤ w'.store.next_id
  pub few : w'.store.next_id ≤ w.store.next_id + rounds
  pub shrinks : length (messages w'.queue) ≤ length (messages w.queue)

pub reap_walk-Keeps :
    (names : List (List ℕ)) (t : Clocks) (w : Walk) (ms : List Message)
    → IsSound w.store
    → IsQueueOf w.store.next_id w.queue
    → AllHeld w.queue ms
    → AreDistinct ms
    → w.store.next_id + length ms < u64_mod
    → WalkKeeps w (reap_walk names t w ms) (length ms)
unfolding reap_walk
reap_walk-Keeps names t w [] hs hq held distinct few = record {
  sound = hs;
  queue = hq;
  grows = omega arith;
  few = omega arith;
  shrinks = omega arith;
}
reap_walk-Keeps names t w (m ∷ ms) hs hq held distinct few =
    let w' = reap_message names t w m in
    let st = reap_message-Steps w m hs hq held.0 names t (omega arith) in
    let k = st.keeps in
    let rest =
      reap_walk-Keeps names t w' ms k.sound k.queue (AllHeld-step w w' m ms st distinct.0 held.1)
        distinct.1 (omega (arith, k.few)) in
    record {
      sound = rest.sound;
      queue = rest.queue;
      grows = omega (arith, rest.grows, k.grows);
      few = omega (arith, rest.few, k.few);
      shrinks = omega (arith, rest.shrinks, st.shrinks);
    }
