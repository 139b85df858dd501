-- ===== src/Queue/Presence.antt =====
-- Whether a live queue stands under a name, after a routing to a dead-letter queue.
pub mod Reaped
use mathlib.Core.Path.{subst}
use kuttidb.Base.{
  ℕ, ◌≡◌, refl, sym, ap, ◌∙◌, Bool, true, false, ◌&&◌, ◌||◌, ◌==◌, List, [], ◌∷◌, Option, some,
  none, arith, bytes_eq, bytes_eq→≡, if◌then◌else◌, if_cases, Bool-cases, inl, inr, leb, ltb, add64,
  u64_max,
}
use kuttidb.Queue.{
  Message, Queue, Store, Clocks, messages, is_named, is_empty, find_queue, update_queue,
  create_queue, new_queue,
}
use kuttidb.Queue.Lists.{is_inflight}
use kuttidb.Queue.Messages.{append_message, message_link, remove_message, replace_message}
use kuttidb.Queue.Lookup.{
  is_named-split, is_named-make, find_queue-is_named, find_queue-update_queue,
  find_queue-update_queue_ne,
}
use kuttidb.Queue.DeadLetter.{
  is_held, metadata_lock, Routing, append_log, sync_store, create_dlq, declare_dlq,
  found_or_declared, resolve_dlq, move_message, refuses, log_routing, route_copy, route_to,
  route_resolved, dead_letter,
}
use kuttidb.Queue.DeadLetter.Sound.{dead_letter-Outcome}
use kuttidb.Queue.Reap.{
  Walk, is_expired, ready_again, end_lease, after_routing, expire, reap_message, reap_walk,
  reap_queue,
}

-- A live queue stands under the name.
abbrev pub IsPresent : List ℕ → Store → Type 0
IsPresent name s = (q : Queue) × (find_queue name s.queues ≡ some q)

same_queues-IsPresent :
    (name : List ℕ) (s s' : Store) → s'.queues ≡ s.queues → IsPresent name s → IsPresent name s'
same_queues-IsPresent name s s' same (q, e) = (q, ap (λ qs. find_queue name qs) same ∙ e)

-- Writing back a live queue removes no queue.
pub update_queue-IsPresent :
    (name n : List ℕ) (q' : Queue) (qs : List Queue)
    → is_named n q' ≡ true
    → (q : Queue) × (find_queue name qs ≡ some q)
    → (q : Queue) × (find_queue name (update_queue n q' qs) ≡ some q)
update_queue-IsPresent name n q' qs h (q, e) = elim (Bool-cases (bytes_eq n name)) [
  | inl same ↦
      let named : n ≡ name = bytes_eq→≡ n name same in
      (
        q',
        ap (λ k. find_queue name (update_queue k q' qs)) named
            ∙ find_queue-update_queue name q q' qs e (ap (λ k. is_named k q') (sym named) ∙ h),
      )
  | inr other ↦ (q, find_queue-update_queue_ne name n q' qs other h ∙ e)
]

create_dlq-IsPresent :
    (name : List ℕ) (r : Store × Bool) (q : Queue)
    → IsPresent name r.0
    → IsPresent name (create_dlq r q).0
unfolding create_dlq create_queue find_queue
create_dlq-IsPresent name (s, false) q h = h
create_dlq-IsPresent name (s, true) q (p, e) = elim (Bool-cases (bytes_eq q.dlq_name name)) [
  | inl same ↦ ((create_queue s q.dlq_name q.durable 0 [] 0).1, rw same refl)
  | inr other ↦ (p, rw other e)
]

-- A resolved dead-letter queue is live.
abbrev IsLiveDlq : Option Queue → Type 0
IsLiveDlq o = (dlq : Queue) → o ≡ some dlq → dlq.deleted ≡ false

create_dlq-IsLiveDlq : (r : Store × Bool) (q : Queue) → IsLiveDlq (create_dlq r q).1
unfolding create_dlq create_queue new_queue
create_dlq-IsLiveDlq (s, false) q dlq e = cc
create_dlq-IsLiveDlq (s, true) q dlq e = cc

found_or_declared-IsPresent :
    (name : List ℕ) (o : Option Queue) (s : Store) (q : Queue)
    → IsPresent name s
    → IsPresent name (found_or_declared o s q).0
unfolding found_or_declared declare_dlq append_log
found_or_declared-IsPresent name (some dlq) s q h = h
found_or_declared-IsPresent name none s q h = create_dlq-IsPresent name _ q h

found_or_declared-IsLiveDlq :
    (o : Option Queue) (s : Store) (q : Queue) → IsLiveDlq o → IsLiveDlq (found_or_declared o s q).1
unfolding found_or_declared declare_dlq
found_or_declared-IsLiveDlq (some dlq) s q h = h
found_or_declared-IsLiveDlq none s q h = create_dlq-IsLiveDlq _ q

log_routing-queues :
    (s : Store) (q dlq : Queue) (m : Message) (id expires_ms : ℕ)
    → (log_routing s q dlq m id expires_ms).0.queues ≡ s.queues
unfolding log_routing append_log sync_store
log_routing-queues s q dlq m id expires_ms = ground arith

move_message-IsPresent :
    (name : List ℕ) (r : Store × Bool) (q : Queue) (m : Message) (id expires_ms : ℕ) (dlq : Queue)
    → dlq.deleted ≡ false
    → IsPresent name r.0
    → IsPresent name (move_message r q m id expires_ms dlq).0
unfolding move_message append_message message_link
move_message-IsPresent name (s, false) q m id expires_ms dlq live h = h
move_message-IsPresent name (s, true) q m id expires_ms dlq live h =
    update_queue-IsPresent name dlq.name (append_message dlq id expires_ms m.payload) s.queues
      (is_named-make dlq.name (append_message dlq id expires_ms m.payload) live refl) h

route_resolved-IsPresent :
    (name : List ℕ) (held : List (List ℕ)) (r : Store × Option Queue) (q : Queue) (m : Message)
    (clear_expiry : Bool)
    → IsLiveDlq r.1
    → IsPresent name r.0
    → IsPresent name (route_resolved held r q m clear_expiry).0
unfolding route_resolved route_to route_copy
route_resolved-IsPresent name held (s, none) q m clear_expiry live h = h
route_resolved-IsPresent name held (s, some dlq) q m clear_expiry live h =
    if_cases (λ (r : Store × Queue × Routing). IsPresent name r.0) (refuses held dlq) _ _ (λ _. h)
      (λ _.
        let expires_ms = if clear_expiry then 0 else m.expires_ms in
        let s1 = record s { next_id = add64 s.next_id 1 } in
        move_message-IsPresent name (log_routing s1 q dlq m s.next_id expires_ms) q m s.next_id
          expires_ms dlq (live dlq refl)
          (same_queues-IsPresent name s (log_routing s1 q dlq m s.next_id expires_ms).0
            (log_routing-queues s1 q dlq m s.next_id expires_ms) h))

found-IsLiveDlq : (name : List ℕ) (qs : List Queue) → IsLiveDlq (find_queue name qs)
found-IsLiveDlq name qs dlq e = (is_named-split name dlq (find_queue-is_named name qs dlq e)).0

pub dead_letter-IsPresent :
    (name : List ℕ) (held : List (List ℕ)) (s : Store) (q : Queue) (m : Message)
    (clear_expiry : Bool)
    → IsPresent name s
    → IsPresent name (dead_letter held s q m clear_expiry).0
unfolding dead_letter resolve_dlq
dead_letter-IsPresent name held s q m clear_expiry h =
    if_cases (λ (r : Store × Queue × Routing). IsPresent name r.0) (is_empty q.dlq_name) _ _
      (λ _. h)
      (λ _.
        if_cases (λ (r : Store × Queue × Routing). IsPresent name r.0) (is_held metadata_lock held)
          _ _ (λ _. h)
          (λ _.
            route_resolved-IsPresent name held _ q m clear_expiry
              (found_or_declared-IsLiveDlq _ s q (found-IsLiveDlq q.dlq_name s.queues))
              (found_or_declared-IsPresent name _ s q h)))
