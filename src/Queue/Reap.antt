-- ===== src/Queue/Reap.antt =====
-- src/queue.c: `reap_queue_locked`.
pub mod Sound
pub mod Whole
use kuttidb.Base.{
  ℕ, ◌-◌, Bool, true, false, ◌&&◌, ◌||◌, not, List, [], ◌∷◌, ◌==◌, leb, ltb, if◌then◌else◌, add64,
  u64_max,
}
use kuttidb.Queue.{Message, Queue, Store, Clocks, messages}
use kuttidb.Queue.Lists.{is_inflight, hint_at_head}
use kuttidb.Queue.Messages.{remove_message, replace_message, make_ready}
use kuttidb.Queue.DeadLetter.{Routing, dead_letter}

-- The variables of the walk.
pub record Walk : Type 0 where
  pub store : Store
  pub queue : Queue
  pub next_deadline : ℕ

unfoldable pub is_expired : ℕ → Message → Bool
is_expired now m = not (m.expires_ms == 0) && leb m.expires_ms now

-- A lease has ended: the message is ready again, and the hint goes to the head.
unfoldable pub ready_again : Queue → Message → Queue
ready_again q m =
    hint_at_head
      (record (replace_message q (make_ready m 0)) { inflight_count = q.inflight_count - 1 })

unfoldable pub end_lease : Walk → Message → Walk
end_lease w m =
    let s = w.store in
    record w {
      queue = ready_again w.queue m;
      store = record s { redeliveries = add64 s.redeliveries 1 };
    }

-- An expired message: routed, removed, or kept for a later pass.
unfoldable pub after_routing : Walk → Message → Store × Queue × Routing → Walk
after_routing w m (s, q, Routing.no_policy) = record w { store = s; queue = remove_message q m }
after_routing w m (s, q, Routing.kept) = record w { store = s; queue = q }
after_routing w m (s, q, Routing.routed) = record w { store = s; queue = q }

unfoldable pub expire : List (List ℕ) → Walk → Message → Walk
expire held w m = after_routing w m (dead_letter held w.store w.queue m true)

unfoldable pub reap_message : List (List ℕ) → Clocks → Walk → Message → Walk
reap_message held t w m =
    if is_expired t.now m
    then expire held w m
    else if is_inflight m
    then (if leb m.timer t.mono
        then end_lease w m
        else if ltb m.timer w.next_deadline
        then record w { next_deadline = m.timer }
        else w)
    else w

-- A step changes no message but its own, so the walk meets the messages as they were.
unfoldable pub reap_walk : List (List ℕ) → Clocks → Walk → List Message → Walk
reap_walk held t w [] = w
reap_walk held t w (m ∷ ms) = reap_walk held t (reap_message held t w m) ms

unfoldable pub reap_queue : List (List ℕ) → Clocks → Store → Queue → Store × Queue
unfolding reap_walk
reap_queue held t s q =
    let w =
      reap_walk held t (record { store = s; queue = q; next_deadline = u64_max }) (messages q) in
    if q.ttl_count == 0 && (q.inflight_count == 0 || ltb t.mono q.earliest_visibility)
    then (s, q)
    else (w.store, record w.queue { earliest_visibility = w.next_deadline })
