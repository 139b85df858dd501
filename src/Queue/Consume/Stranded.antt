-- ===== src/Queue/Consume/Stranded.antt =====
-- An exhausted message that could not be dead-lettered, and the hint.
use kuttidb.Base.{ℕ, ◌≡◌, ◌≢◌, ap, ◌∙◌, Bool, true, false, List, [], ◌∷◌, ◌++◌, some, none, arith}
use kuttidb.Wal.{Op}
use kuttidb.Queue.{Message, Queue, Store, Clocks, messages}
use kuttidb.Queue.Lists.{find_id, replace_id, in_front_of, starting_at, inflight_run}
use kuttidb.Queue.Messages.{replace_message}
use kuttidb.Queue.Counts.{messages-replace_message}
use kuttidb.Queue.DeadLetter.{Routing, append_log, dead_letter}
use kuttidb.Queue.Consume.{
  Request, fresh_tag, lease_message, set_hint, mark_inflight, hand_over, deliver, is_exhausted,
  is_due, scan,
}

-- A message in front of the one whose hint is passed stands in front of the hint.
in_front-first :
    (m n' : Message) (xs ys : List Message)
    → m.id ≢ n'.id
    → find_id m.id (in_front_of n'.id (replace_id n'.id n' (m ∷ xs)) ++ ys) ≡ some m
unfolding find_id in_front_of replace_id
in_front-first m n' xs ys ne = ground (arith, ne)

mark_inflight-before :
    (q : Queue) (m n' : Message) (xs : List Message)
    → messages q ≡ m ∷ xs
    → m.id ≢ n'.id
    → find_id m.id (mark_inflight q none n').before ≡ some m
unfolding mark_inflight set_hint replace_message
mark_inflight-before q m n' xs list ne =
    let now = messages-replace_message q n' ∙ ap (λ ms. replace_id n'.id n' ms) list in
    ap (λ ms. find_id m.id (in_front_of n'.id ms ++ inflight_run (starting_at n'.id ms))) now
    ∙ in_front-first m n' xs (inflight_run (starting_at n'.id (replace_id n'.id n' (m ∷ xs)))) ne

hand_over-before :
    (t : Clocks) (r : Request) (l : Store × Bool) (q : Queue) (m n : Message) (xs : List Message)
    → l.1 ≡ true
    → messages q ≡ m ∷ xs
    → m.id ≢ n.id
    → find_id m.id (hand_over t r l q none n).1.before ≡ some m
unfolding hand_over lease_message
hand_over-before t r (s, false) q m n xs ok list ne = absurd (cc ok)
hand_over-before t r (s, true) q m n xs ok list ne =
    mark_inflight-before q m (lease_message t r q n (fresh_tag s.next_delivery_tag)) xs list ne

-- The first message of a queue is ready and due, its deliveries are used up and its routing is
-- refused; the next one is due and may be delivered, and its record can be written. After the scan
-- the first one, as it was, stands in front of the hint.
pub scan-stranded :
    (held : List (List ℕ)) (t : Clocks) (r : Request) (s : Store) (q : Queue) (m n : Message)
    (ms xs : List Message)
    → messages q ≡ m ∷ xs
    → m.id ≢ n.id
    → is_due t.now m ≡ true
    → is_exhausted q m ≡ true
    → dead_letter held s q m false ≡ (s, q, Routing.kept)
    → is_due t.now n ≡ true
    → is_exhausted q n ≡ false
    → (append_log s Op.log_deliver q n.id 0 []).1 ≡ true
    → find_id m.id (scan held t r s q none (m ∷ n ∷ ms)).1.before ≡ some m
unfolding scan deliver
scan-stranded held t r s q m n ms xs list ne due used refused next free ok =
    rw (due, used, refused, next, free) (hand_over-before t r _ q m n xs ok list ne)
