-- ===== src/Queue/Presence/Reaped.antt =====
-- What a reap and a routing leave as it was: the queue under a name, and the queue in hand.
use mathlib.Core.Path.{subst}
use kuttidb.Base.{
  ℕ, ◌≡◌, refl, sym, ◌∙◌, Bool, true, ◌&&◌, ◌||◌, ◌==◌, List, [], ◌∷◌, if_cases, inl, inr, leb, ltb,
  u64_max,
}
use kuttidb.Queue.{Message, Queue, Store, Clocks, messages}
use kuttidb.Queue.Lists.{is_inflight}
use kuttidb.Queue.Messages.{remove_message, replace_message}
use kuttidb.Queue.DeadLetter.{Routing, dead_letter}
use kuttidb.Queue.DeadLetter.Sound.{dead_letter-Outcome}
use kuttidb.Queue.Reap.{
  Walk, is_expired, ready_again, end_lease, after_routing, expire, reap_message, reap_walk,
  reap_queue,
}
use kuttidb.Queue.Presence.{IsPresent, dead_letter-IsPresent}

-- What neither a reap nor a routing changes of the queue in hand.
pub record IsSameQueue (q q' : Queue) : Type 0 where
  pub name : q'.name ≡ q.name
  pub deleted : q'.deleted ≡ q.deleted
  pub durable : q'.durable ≡ q.durable
  pub dlq_name : q'.dlq_name ≡ q.dlq_name
  pub max_deliveries : q'.max_deliveries ≡ q.max_deliveries
  pub max_depth : q'.max_depth ≡ q.max_depth

pub IsSameQueue-refl : (q : Queue) → IsSameQueue q q
IsSameQueue-refl q = record {
  name = refl;
  deleted = refl;
  durable = refl;
  dlq_name = refl;
  max_deliveries = refl;
  max_depth = refl;
}

pub IsSameQueue-trans : {p q r : Queue} → IsSameQueue p q → IsSameQueue q r → IsSameQueue p r
IsSameQueue-trans h k = record {
  name = k.name ∙ h.name;
  deleted = k.deleted ∙ h.deleted;
  durable = k.durable ∙ h.durable;
  dlq_name = k.dlq_name ∙ h.dlq_name;
  max_deliveries = k.max_deliveries ∙ h.max_deliveries;
  max_depth = k.max_depth ∙ h.max_depth;
}

pub remove_message-IsSameQueue : (q : Queue) (m : Message) → IsSameQueue q (remove_message q m)
unfolding remove_message
remove_message-IsSameQueue q m = record {
  name = refl;
  deleted = refl;
  durable = refl;
  dlq_name = refl;
  max_deliveries = refl;
  max_depth = refl;
}

pub dead_letter-IsSameQueue :
    (held : List (List ℕ)) (s : Store) (q : Queue) (m : Message) (clear_expiry : Bool)
    → IsSameQueue q (dead_letter held s q m clear_expiry).1
dead_letter-IsSameQueue held s q m clear_expiry =
    elim (dead_letter-Outcome held s q m clear_expiry) [
      | inl none_set ↦ subst (IsSameQueue q) (sym (none_set.1)) (IsSameQueue-refl q)
      | inr (inl kept) ↦ subst (IsSameQueue q) (sym (kept.1)) (IsSameQueue-refl q)
      | inr (inr routed) ↦ subst (IsSameQueue q) (sym (routed.1)) (remove_message-IsSameQueue q m)
    ]

-- A name that stands for a live queue, and the queue in hand.
pub record HasKept (name : List ℕ) (s : Store) (q : Queue) (s' : Store) (q' : Queue) : Type 0 where
  pub present : IsPresent name s → IsPresent name s'
  pub same : IsSameQueue q q'

abbrev Walked : List ℕ → Walk → Walk → Type 0
Walked name w v = HasKept name w.store w.queue v.store v.queue

HasKept-refl : (name : List ℕ) (w : Walk) → Walked name w w
HasKept-refl name w = record { present = λ h. h; same = IsSameQueue-refl w.queue }

after_routing-Walked :
    (name : List ℕ) (w : Walk) (m : Message) (r : Store × Queue × Routing)
    → HasKept name w.store w.queue r.0 r.1
    → Walked name w (after_routing w m r)
unfolding after_routing
after_routing-Walked name w m (s, q, Routing.no_policy) k = record {
  present = k.present;
  same = IsSameQueue-trans k.same (remove_message-IsSameQueue q m);
}
after_routing-Walked name w m (s, q, Routing.kept) k = record { present = k.present; same = k.same }
after_routing-Walked name w m (s, q, Routing.routed) k = record {
  present = k.present;
  same = k.same;
}

end_lease-Walked : (name : List ℕ) (w : Walk) (m : Message) → Walked name w (end_lease w m)
unfolding end_lease ready_again replace_message
end_lease-Walked name w m = record {
  present = λ h. h;
  same = record {
    name = refl;
    deleted = refl;
    durable = refl;
    dlq_name = refl;
    max_deliveries = refl;
    max_depth = refl;
  };
}

reap_message-Walked :
    (name : List ℕ) (held : List (List ℕ)) (t : Clocks) (w : Walk) (m : Message)
    → Walked name w (reap_message held t w m)
unfolding reap_message expire
reap_message-Walked name held t w m =
    if_cases (Walked name w) (is_expired t.now m) _ _
      (λ _. after_routing-Walked name w m (dead_letter held w.store w.queue m true) (record {
        present = dead_letter-IsPresent name held w.store w.queue m true;
        same = dead_letter-IsSameQueue held w.store w.queue m true;
      }))
      (λ _.
        if_cases (Walked name w) (is_inflight m) _ _
          (λ _.
            if_cases (Walked name w) (leb m.timer t.mono) _ _ (λ _. end_lease-Walked name w m)
              (λ _.
                if_cases (Walked name w) (ltb m.timer w.next_deadline) _ _
                  (λ _. record { present = λ h. h; same = IsSameQueue-refl w.queue })
                  (λ _. HasKept-refl name w)))
          (λ _. HasKept-refl name w))

reap_walk-Walked :
    (name : List ℕ) (held : List (List ℕ)) (t : Clocks) (w : Walk) (ms : List Message)
    → Walked name w (reap_walk held t w ms)
unfolding reap_walk
reap_walk-Walked name held t w [] = HasKept-refl name w
reap_walk-Walked name held t w (m ∷ ms) =
    let step = reap_message-Walked name held t w m in
    let later = reap_walk-Walked name held t (reap_message held t w m) ms in
    record {
      present = λ h. later.present (step.present h);
      same = IsSameQueue-trans step.same later.same;
    }

pub reap_queue-HasKept :
    (name : List ℕ) (held : List (List ℕ)) (t : Clocks) (s : Store) (q : Queue)
    → HasKept name s q (reap_queue held t s q).0 (reap_queue held t s q).1
unfolding reap_queue
reap_queue-HasKept name held t s q =
    if_cases (λ (r : Store × Queue). HasKept name s q r.0 r.1)
      (q.ttl_count == 0 && (q.inflight_count == 0 || ltb t.mono q.earliest_visibility)) _ _
      (λ _. record { present = λ h. h; same = IsSameQueue-refl q })
      (λ _.
        let walk =
          reap_walk-Walked name held t (record { store = s; queue = q; next_deadline = u64_max })
            (messages q) in
        record {
          present = walk.present;
          same = record {
            name = walk.same.name;
            deleted = walk.same.deleted;
            durable = walk.same.durable;
            dlq_name = walk.same.dlq_name;
            max_deliveries = walk.same.max_deliveries;
            max_depth = walk.same.max_depth;
          };
        })
