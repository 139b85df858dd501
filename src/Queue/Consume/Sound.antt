-- ===== src/Queue/Consume/Sound.antt =====
-- `queue_consume_for_owner`, and the soundness of the store.
use kuttidb.Base.{
  ℕ, suc, ◌+◌, ◌*◌, ◌++◌, length-append, ◌≤◌, ◌<◌, ◌≡◌, refl, ◌∙◌, ap, Bool, true, false, not, List,
  [], ◌∷◌, Option, some, none, arith, if_cases, All, length, u64_mod, inl, inr,
}
use kuttidb.Queue.{Message, Queue, Store, Clocks, messages, find_queue}
use kuttidb.Queue.Lists.{is_inflight, replace_id}
use kuttidb.Queue.Messages.{replace_message}
use kuttidb.Queue.Counts.{messages-replace_message, messages-hint_at, messages-hint_after}
use kuttidb.Queue.Invariant.{Holds, AreDistinct}
use kuttidb.Queue.Sound.{IsQueueOf, IsSound, find_queue-All, replace-IsQueueOf}
use kuttidb.Queue.DeadLetter.{Routing, append_log, dead_letter}
use kuttidb.Queue.DeadLetter.Sound.{Outcome, dead_letter-Keeps, dead_letter-Outcome}
use kuttidb.Queue.Reap.{reap_queue}
use kuttidb.Queue.Reap.Sound.{AllHeld}
use kuttidb.Queue.Reap.Whole.{
  KeepsUpTo, reap_queue-Keeps, reap_queue-shrinks, AllHeld-messages, Outcome-AllHeld,
}
use kuttidb.Queue.Publish.Sound.{write_back-IsSound, HasIds}
use kuttidb.Queue.Consume.{
  Request, Consumed, lease_message, set_hint, mark_inflight, hand_over, deliver, is_exhausted,
  is_due, is_delayed, note_delayed, on_routing, scan, consume_one, report_consumed, consume_from,
  queue_consume_for_owner,
}

pub messages-set_hint :
    (o : Option ℕ) (id : ℕ) (q : Queue) → messages (set_hint o id q) ≡ messages q
unfolding set_hint
messages-set_hint none id q = messages-hint_after id q
messages-set_hint (some delayed) id q = messages-hint_at delayed q

mark_inflight-IsQueueOf :
    {n : ℕ} {q : Queue} (o : Option ℕ) (m m' : Message)
    → IsQueueOf n q
    → Holds q m
    → is_inflight m ≡ false
    → is_inflight m' ≡ true
    → m'.id ≡ m.id
    → m'.expires_ms ≡ m.expires_ms
    → IsQueueOf n (mark_inflight q o m')
unfolding mark_inflight replace_message
mark_inflight-IsQueueOf {n} {q} o m m' h held rest flies id expiry =
    replace-IsQueueOf _ m m' h held id expiry
      (messages-set_hint o m'.id _
        ∙ (messages-replace_message q m' ∙ ap (λ i. replace_id i m' (messages q)) id))
      (ground arith) (ground arith) (ground arith) (ground arith)

-- `k` ids at most are given out.
abbrev KeepsFor : ℕ → Store → Store × Queue × Consumed → Type 0
KeepsFor k s r = KeepsUpTo k s r.0 r.1

hand_over-Keeps :
    (t : Clocks) (r : Request) (s : Store) (l : Store × Bool) (q : Queue) (o : Option ℕ)
    (m : Message)
    → IsSound s
    → IsQueueOf s.next_id q
    → Holds q m
    → is_inflight m ≡ false
    → l.0.queues ≡ s.queues
    → l.0.next_id ≡ s.next_id
    → KeepsFor 0 s (hand_over t r l q o m)
unfolding hand_over lease_message
hand_over-Keeps t r s (s', false) q o m hs hq held rest queues ids = record {
  sound = rw (queues, ids) hs;
  queue = rw ids hq;
  grows = omega (arith, ids);
  few = omega (arith, ids);
}
hand_over-Keeps t r s (s', true) q o m hs hq held rest queues ids = record {
  sound = rw (queues, ids) hs;
  queue = rw ids (mark_inflight-IsQueueOf o m _ hq held rest refl refl refl);
  grows = omega (arith, ids);
  few = omega (arith, ids);
}

is_due-ready : (now : ℕ) (m : Message) → is_due now m ≡ true → is_inflight m ≡ false
unfolding is_due
is_due-ready now m h = ground arith

deliver-Keeps :
    (t : Clocks) (r : Request) (s : Store) (q : Queue) (o : Option ℕ) (m : Message)
    → IsSound s
    → IsQueueOf s.next_id q
    → Holds q m
    → is_inflight m ≡ false
    → KeepsFor 0 s (deliver t r s q o m)
unfolding deliver append_log
deliver-Keeps t r s q o m hs hq held rest = hand_over-Keeps t r s _ q o m hs hq held rest refl refl

KeepsFor-weaken :
    (s : Store) (r : Store × Queue × Consumed) (j k : ℕ) → j ≤ k → KeepsFor j s r → KeepsFor k s r
KeepsFor-weaken s r j k le h = record {
  sound = h.sound;
  queue = h.queue;
  grows = h.grows;
  few = omega (arith, h.few);
}

-- The rest of a scan, from a state that one more id led to.
KeepsFor-after :
    (k : ℕ) (s s' : Store) (r : Store × Queue × Consumed)
    → s.next_id ≤ s'.next_id
    → s'.next_id ≤ s.next_id + 1
    → KeepsFor k s' r
    → KeepsFor (suc k) s r
KeepsFor-after k s s' r grows few h = record {
  sound = h.sound;
  queue = h.queue;
  grows = omega (arith, h.grows);
  few = omega (arith, h.few);
}

on_routing-Keeps :
    (k : ℕ) (s : Store) (q : Queue) (m : Message) (out : Store × Queue × Routing)
    (x y : Store × Queue × Consumed)
    → Outcome q m out
    → KeepsFor k s x
    → (out.1 ≡ q → KeepsFor k s y)
    → KeepsFor k s (on_routing out.2 x y)
on_routing-Keeps k s q m (t, p, Routing.kept) x y o hx hy = hx
on_routing-Keeps k s q m (t, p, Routing.routed) x y o hx hy = hx
on_routing-Keeps k s q m (t, p, Routing.no_policy) x y (inl o) hx hy = hy (o.1)
on_routing-Keeps k s q m (t, p, Routing.no_policy) x y (inr (inl o)) hx hy =
    absurd (ground (arith, o.0))
on_routing-Keeps k s q m (t, p, Routing.no_policy) x y (inr (inr o)) hx hy =
    absurd (ground (arith, o.0))

scan-Keeps :
    (held : List (List ℕ)) (t : Clocks) (r : Request) (s : Store) (q : Queue) (o : Option ℕ)
    (ms : List Message)
    → IsSound s
    → IsQueueOf s.next_id q
    → AllHeld q ms
    → AreDistinct ms
    → s.next_id + length ms < u64_mod
    → KeepsFor (length ms) s (scan held t r s q o ms)
unfolding scan
scan-Keeps held t r s q o [] hs hq all distinct few = record {
  sound = hs;
  queue = hq;
  grows = omega arith;
  few = omega arith;
}
scan-Keeps held t r s q o (m ∷ ms) hs hq all distinct few =
    let k = dead_letter-Keeps held s q m false hs hq all.0 (omega arith) in
    let out = dead_letter-Outcome held s q m false in
    let s' = (dead_letter held s q m false).0 in
    let q' = (dead_letter held s q m false).1 in
    let later : KeepsFor (length ms) s' (scan held t r s' q' o ms) =
      scan-Keeps held t r s' q' o ms k.sound k.queue
        (Outcome-AllHeld q m ms (dead_letter held s q m false) out distinct.0 all.1) distinct.1
        (omega (arith, k.few)) in
    let later_o = note_delayed o (is_delayed t.now m) m.id in
    if_cases (KeepsFor (suc (length ms)) s) (not (is_due t.now m)) _ _
      (λ _.
        KeepsFor-weaken s (scan held t r s q later_o ms) (length ms) (suc (length ms)) (omega arith)
          (scan-Keeps held t r s q later_o ms hs hq all.1 distinct.1 (omega arith)))
      (λ due.
        let rest : is_inflight m ≡ false = is_due-ready t.now m (ground (arith, due)) in
        if_cases (KeepsFor (suc (length ms)) s) (is_exhausted q m) _ _
          (λ _.
            on_routing-Keeps (suc (length ms)) s q m (dead_letter held s q m false)
              (scan held t r s' q' o ms) (deliver t r s' q' o m) out
              (KeepsFor-after (length ms) s s' (scan held t r s' q' o ms) k.grows k.few later)
              (λ same. KeepsFor-weaken s (deliver t r s' q' o m) 1 (suc (length ms)) (omega arith) (
                KeepsFor-after 0 s s' (deliver t r s' q' o m) k.grows k.few
                  (deliver-Keeps t r s' q' o m k.sound k.queue (rw same all.0) rest))))
          (λ _.
            KeepsFor-weaken s (deliver t r s q o m) 0 (suc (length ms)) (omega arith)
              (deliver-Keeps t r s q o m hs hq all.0 rest)))

pub All-append_right {ℓ κ} :
    {A : Type ℓ} (P : A → Type κ) (xs ys : List A) → All P (xs ++ ys) → All P ys
All-append_right P [] ys h = h
All-append_right P (x ∷ xs) ys h = All-append_right P xs ys h.1

pub AreDistinct-append_right : (xs ys : List Message) → AreDistinct (xs ++ ys) → AreDistinct ys
AreDistinct-append_right [] ys h = h
AreDistinct-append_right (x ∷ xs) ys h = AreDistinct-append_right xs ys h.1

consume_one-Keeps :
    (held : List (List ℕ)) (t : Clocks) (r : Request) (s : Store) (q : Queue)
    → IsSound s
    → IsQueueOf s.next_id q
    → s.next_id + 2 * length (messages q) + 1 < u64_mod
    → KeepsFor (2 * length (messages q)) s (consume_one held t r s q)
unfolding consume_one
consume_one-Keeps held t r s q hs hq few =
    let k = reap_queue-Keeps held t s q hs hq (omega arith) in
    let fewer = reap_queue-shrinks held t s q hs hq (omega arith) in
    let s' = (reap_queue held t s q).0 in
    let q' = (reap_queue held t s q).1 in
    let tail = length-append q'.before q'.from_hint in
    let c : KeepsFor (length q'.from_hint) s' (scan held t r s' q' none q'.from_hint) =
      scan-Keeps held t r s' q' none q'.from_hint k.sound k.queue
        (All-append_right (Holds q') q'.before q'.from_hint
          (AllHeld-messages q' k.queue.consistent))
        (AreDistinct-append_right q'.before q'.from_hint k.queue.consistent.distinct)
        (omega (arith, k.few, fewer, tail)) in
    record {
      sound = c.sound;
      queue = c.queue;
      grows = omega (arith, c.grows, k.grows);
      few = omega (arith, c.few, k.few, fewer, tail);
    }

report_consumed-IsSound :
    (r : Store × Queue × Consumed)
    → IsSound r.0
    → IsQueueOf r.0.next_id r.1
    → IsSound (report_consumed r).0
unfolding report_consumed
report_consumed-IsSound (s, q, Consumed.failed) hs hq = write_back-IsSound s q hs hq
report_consumed-IsSound (s, q, Consumed.nothing) hs hq = write_back-IsSound s q hs hq
report_consumed-IsSound (s, q, Consumed.delivered d) hs hq =
    if_cases (λ (r : Store × Consumed). IsSound r.0) (not q.durable) _ _
      (λ _. write_back-IsSound s q hs hq) (λ _. write_back-IsSound s q hs hq)

consume_from-IsSound :
    (o : Option Queue) (held : List (List ℕ)) (t : Clocks) (r : Request) (s : Store)
    → IsSound s
    → ((q : Queue)
        → o ≡ some q
        → IsQueueOf s.next_id q × (s.next_id + 2 * length (messages q) + 1 < u64_mod))
    → IsSound (consume_from o held t r s).0
unfolding consume_from
consume_from-IsSound none held t r s hs found = hs
consume_from-IsSound (some q) held t r s hs found =
    let k = consume_one-Keeps (q.name ∷ held) t r s q hs (found q refl).0 (found q refl).1 in
    report_consumed-IsSound (consume_one (q.name ∷ held) t r s q) k.sound k.queue

-- A consume, whatever it returns, keeps every queue's counters, ids and bound, as long as the ids
-- do not run out.
pub queue_consume_for_owner-IsSound :
    (held : List (List ℕ)) (t : Clocks) (r : Request) (s : Store) (name : List ℕ)
    → IsSound s
    → HasIds s.next_id s.queues
    → IsSound (queue_consume_for_owner held t r s name).0
unfolding queue_consume_for_owner
queue_consume_for_owner-IsSound held t r s name hs few =
    consume_from-IsSound (find_queue name s.queues) held t r s hs (λ q e. (
      find_queue-All (IsQueueOf s.next_id) name s.queues q hs e,
      find_queue-All (λ (p : Queue). s.next_id + 2 * length (messages p) + 1 < u64_mod) name
          s.queues q few e,
    ))
