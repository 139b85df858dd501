-- ===== src/Queue/Consume/Handoff.antt =====
-- The whole call of a consume that delivers.
use kuttidb.Base.{ℕ, ◌≡◌, refl, List, ◌∷◌, some, arith}
use kuttidb.Queue.{Message, Queue, Store, Clocks, find_queue, update_queue}
use kuttidb.Queue.Presence.Reaped.{HasKept}
use kuttidb.Queue.DeadLetter.{Routing}
use kuttidb.Queue.Reap.{reap_queue}
use kuttidb.Queue.Consume.{Delivery, Request, Consumed, on_routing, report_consumed}
use kuttidb.Queue.Consume.Exact.{IsPicked, IsLeased}

-- A delivery leaves the queue of the name in place, and the queue in hand what it was.
abbrev ScanOf : List ℕ → Store → Queue → Store × Queue × Consumed → Type 0
ScanOf name s q out = HasKept name s q out.0 out.1

pub on_routing-either {κ} :
    (P : Store × Queue × Consumed → Type κ) (r : Routing) (x y : Store × Queue × Consumed)
    → P x
    → (r ≡ Routing.no_policy → P y)
    → P (on_routing r x y)
on_routing-either P Routing.kept x y hx hy = hx
on_routing-either P Routing.routed x y hx hy = hx
on_routing-either P Routing.no_policy x y hx hy = hy refl

-- The message that was picked from a list, and its lease in the queue.
abbrev pub IsTakenFrom : Clocks → Request → ℕ → List Message → Delivery → Queue → Type 0
IsTakenFrom t r limit ms d q = (m : Message) × IsPicked t.now limit m ms × IsLeased t r m q d

abbrev Delivers : Clocks → Request → ℕ → Delivery → List Message → Store × Queue × Consumed → Type 0
Delivers t r limit d ms out = out.2 ≡ Consumed.delivered d → IsTakenFrom t r limit ms d out.1

pub report_consumed-delivered :
    (r : Store × Queue × Consumed) (d : Delivery)
    → (report_consumed r).1 ≡ Consumed.delivered d
    → (r.2 ≡ Consumed.delivered d)
      × ((report_consumed r).0.queues ≡ update_queue r.1.name r.1 r.0.queues)
unfolding report_consumed
report_consumed-delivered (s, q, Consumed.failed) d h = absurd (cc h)
report_consumed-delivered (s, q, Consumed.nothing) d h = absurd (cc h)
report_consumed-delivered (s, q, Consumed.delivered x) d h = (ground (arith, h), ground arith)

-- The message is the first one to deliver of those that the reap leaves, from the hint on, in the
-- queue of the name, and that queue holds it, leased, after the call.
pub record IsHandedOver (held : List (List ℕ)) (t : Clocks) (r : Request) (s : Store)
    (name : List ℕ) (d : Delivery) (out : Store) : Type 0 where
  pub queue : Queue
  pub found : find_queue name s.queues ≡ some queue
  pub after : Queue
  pub found_after : find_queue name out.queues ≡ some after
  pub taken :
      IsTakenFrom t r queue.max_deliveries
        (reap_queue (queue.name ∷ held) t s queue).1.from_hint
        d
        after
