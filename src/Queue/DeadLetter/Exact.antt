-- ===== src/Queue/DeadLetter/Exact.antt =====
-- What a routing moves: the copy in the dead-letter queue, and the message that leaves its queue.
use mathlib.Core.Path.{subst}
use kuttidb.Base.{
  ℕ, ◌≡◌, ◌⊎◌, refl, sym, ap, ◌∙◌, Bool, true, false, List, [], Option, some, none, arith, if_cases,
  if◌then◌else◌, add64, bytes_eq_refl, inl, inr,
}
use kuttidb.Queue.{
  Message, Queue, Store, messages, is_empty, find_queue, update_queue, create_queue, new_queue,
}
use kuttidb.Queue.Messages.{append_message, message_link}
use kuttidb.Queue.Counts.{messages-remove_message}
use kuttidb.Queue.Invariant.{Holds}
use kuttidb.Queue.Places.{IsTaken, IsAppended, remove_id-IsTaken, append_message-IsAppended}
use kuttidb.Queue.Lookup.{
  is_named-split, is_named-make, find_queue-is_named, find_queue-update_queue,
}
use kuttidb.Queue.DeadLetter.{
  is_held, metadata_lock, Routing, append_log, sync_store, create_dlq, declare_dlq,
  found_or_declared, resolve_dlq, move_message, refuses, log_routing, route_copy, route_to,
  route_resolved, dead_letter,
}

-- The dead-letter queue is there, or it is not and a new one is empty.
abbrev pub IsOrigin : Store → Queue → Queue → Type 0
IsOrigin s q dlq =
    (find_queue q.dlq_name s.queues ≡ some dlq)
    ⊎ ((find_queue q.dlq_name s.queues ≡ none) × (messages dlq ≡ []))

-- The copy of `m` has the next id, the payload and, unless it is cleared, the expiry; it stands at
-- the end of the dead-letter queue, which was there or is new and empty, and `m` has left `q`, whose
-- other messages are in their order.
pub record IsRouted (s : Store) (q : Queue) (m : Message) (clear_expiry : Bool)
    (out : Store × Queue × Routing) : Type 0 where
  pub dlq : Queue
  pub origin : IsOrigin s q dlq
  pub after : Queue
  pub found_after : find_queue q.dlq_name out.0.queues ≡ some after
  pub copied :
      IsAppended s.next_id
        (if clear_expiry then 0 else m.expires_ms)
        m.payload
        (messages dlq)
        (messages after)
  pub removed : IsTaken m (messages q) (messages out.1)

-- A dead-letter queue that was found or declared.
record IsResolvedTo (s : Store) (q : Queue) (r : Store × Option Queue) (dlq : Queue) : Type 0 where
  origin : IsOrigin s q dlq
  present : find_queue q.dlq_name r.0.queues ≡ some dlq
  same_id : r.0.next_id ≡ s.next_id

create_dlq-IsResolvedTo :
    (s : Store) (r : Store × Bool) (q dlq : Queue)
    → r.0.next_id ≡ s.next_id
    → find_queue q.dlq_name s.queues ≡ none
    → (create_dlq r q).1 ≡ some dlq
    → IsResolvedTo s q (create_dlq r q) dlq
unfolding create_dlq create_queue find_queue new_queue
create_dlq-IsResolvedTo s (s', false) q dlq ids none_there h = absurd (cc h)
create_dlq-IsResolvedTo s (s', true) q dlq ids none_there h =
    let new = (create_queue s' q.dlq_name q.durable 0 [] 0).1 in
    let same : new ≡ dlq = ground (arith, h) in
    record {
      origin = inr (none_there, ap (λ x. messages x) (sym same));
      present = rw (bytes_eq_refl q.dlq_name) (ap (λ x. some x) same);
      same_id = ids;
    }

found_or_declared-IsResolvedTo :
    (o : Option Queue) (s : Store) (q dlq : Queue)
    → find_queue q.dlq_name s.queues ≡ o
    → (found_or_declared o s q).1 ≡ some dlq
    → IsResolvedTo s q (found_or_declared o s q) dlq
unfolding found_or_declared declare_dlq append_log
found_or_declared-IsResolvedTo (some d) s q dlq e h = record {
  origin = inl (e ∙ h);
  present = e ∙ h;
  same_id = refl;
}
found_or_declared-IsResolvedTo none s q dlq e h = create_dlq-IsResolvedTo s _ q dlq refl e h

log_routing-queues :
    (s : Store) (q dlq : Queue) (m : Message) (id expires_ms : ℕ)
    → (log_routing s q dlq m id expires_ms).0.queues ≡ s.queues
unfolding log_routing append_log sync_store
log_routing-queues s q dlq m id expires_ms = ground arith

append_message-name :
    (q : Queue) (id expires_ms : ℕ) (payload : List ℕ)
    → ((append_message q id expires_ms payload).name ≡ q.name)
      × ((append_message q id expires_ms payload).deleted ≡ q.deleted)
unfolding append_message message_link
append_message-name q id expires_ms payload = (refl, refl)

module _ (s : Store) (q : Queue) (m : Message) (clear_expiry : Bool) (holds : Holds q m) where
  abbrev expiry : ℕ
  expiry = if clear_expiry then 0 else m.expires_ms

  move_message-IsRouted :
      (r : Store × Bool) (s' : Store) (dlq : Queue)
      → IsResolvedTo s q (s', some dlq) dlq
      → r.0.queues ≡ s'.queues
      → (move_message r q m s'.next_id expiry dlq).2 ≡ Routing.routed
      → IsRouted s q m clear_expiry (move_message r q m s'.next_id expiry dlq)
  unfolding move_message
  move_message-IsRouted (s1, false) s' dlq res queues h = absurd (cc h)
  move_message-IsRouted (s1, true) s' dlq res queues h =
      let live =
        is_named-split q.dlq_name dlq (find_queue-is_named q.dlq_name s'.queues dlq res.present) in
      let new = append_message dlq s'.next_id expiry m.payload in
      let named = append_message-name dlq s'.next_id expiry m.payload in
      record {
        dlq = dlq;
        origin = res.origin;
        after = append_message dlq s.next_id expiry m.payload;
        copied = append_message-IsAppended dlq s.next_id expiry m.payload;
        found_after =
            ap (λ n. find_queue q.dlq_name (update_queue n new s1.queues)) (named.0 ∙ live.1)
            ∙ find_queue-update_queue q.dlq_name dlq new s1.queues
                (ap (λ qs. find_queue q.dlq_name qs) queues ∙ res.present)
                (is_named-make q.dlq_name new (named.1 ∙ live.0) (named.0 ∙ live.1))
            ∙ ap (λ i. some (append_message dlq i expiry m.payload)) res.same_id;
        removed =
            subst (IsTaken m (messages q)) (sym (messages-remove_message q m))
              (remove_id-IsTaken m.id m (messages q) holds);
      }

  abbrev RoutedWell : Store × Queue × Routing → Type 0
  RoutedWell out = out.2 ≡ Routing.routed → IsRouted s q m clear_expiry out

  route_resolved-IsRouted :
      (held : List (List ℕ)) (r : Store × Option Queue)
      → ((dlq : Queue) → r.1 ≡ some dlq → IsResolvedTo s q r dlq)
      → RoutedWell (route_resolved held r q m clear_expiry)
  unfolding route_resolved route_to route_copy
  route_resolved-IsRouted held (s', none) resolved = λ h. absurd (cc h)
  route_resolved-IsRouted held (s', some dlq) resolved =
      if_cases RoutedWell (refuses held dlq) _ _ (λ _ h. absurd (cc h))
        (λ _. move_message-IsRouted _ s' dlq (resolved dlq refl) (
          log_routing-queues (record s' { next_id = add64 s'.next_id 1 }) q dlq m s'.next_id
            expiry))

  -- A message of its queue that is dead-lettered is not lost: the dead-letter queue has the messages
  -- that it had, in their order, and at the end one more, with the same payload and the next free id,
  -- ready and never delivered; and the message's own queue has the same messages in the same order
  -- without it. The dead-letter queue is the one that was there, or where there was none, a new one
  -- that was empty.
  pub dead_letter-IsRouted :
      (held : List (List ℕ))
      → (dead_letter held s q m clear_expiry).2 ≡ Routing.routed
      → IsRouted s q m clear_expiry (dead_letter held s q m clear_expiry)
  unfolding dead_letter resolve_dlq
  dead_letter-IsRouted held =
      if_cases RoutedWell (is_empty q.dlq_name) _ _ (λ _ h. absurd (cc h))
        (λ _.
          if_cases RoutedWell (is_held metadata_lock held) _ _ (λ _ h. absurd (cc h))
            (λ _. route_resolved-IsRouted held _ (λ dlq.
              found_or_declared-IsResolvedTo (find_queue q.dlq_name s.queues) s q dlq refl)))
