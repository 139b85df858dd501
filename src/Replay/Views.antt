-- ===== src/Replay/Views.antt =====
-- What the store's queues keep, as the store changes.
use mathlib.Core.List.{map-append, append-nil}
use kuttidb.Base.{ℕ, ◌≡◌, refl, ap, ◌∙◌, true, false, none, some, List, [], ◌∷◌, ◌++◌, arith, add32}
use kuttidb.Queue.{Message, Queue, messages, find_queue, update_queue}
use kuttidb.Queue.Lists.{remove_id, replace_id, find_id}
use kuttidb.Queue.Messages.{remove_message, remove_all, purge_queue}
use kuttidb.Queue.Counts.{messages-remove_message}
use kuttidb.Replay.Spec.{
  kept_message, kept_messages, kept_queue, kept_queues, without, delivered_again, find_kept,
  update_kept, drop_kept,
}

pub kept_messages-remove_id :
    (id : ℕ) (ms : List Message) → kept_messages (remove_id id ms) ≡ without id (kept_messages ms)
unfolding remove_id without
kept_messages-remove_id id [] = refl
kept_messages-remove_id id (m ∷ ms) = ground (arith, kept_messages-remove_id id ms)

pub kept_messages-replace_same :
    (id : ℕ) (m m' : Message) (ms : List Message)
    → find_id id ms ≡ some m
    → kept_message m' ≡ kept_message m
    → kept_messages (replace_id id m' ms) ≡ kept_messages ms
unfolding replace_id find_id
kept_messages-replace_same id m m' [] h e = cc
kept_messages-replace_same id m m' (x ∷ ms) h e =
    ground (arith, kept_messages-replace_same id m m' ms)

pub kept_messages-replace_count :
    (id : ℕ) (m m' : Message) (ms : List Message)
    → find_id id ms ≡ some m
    → kept_message m' ≡ record (kept_message m) { deliveries = add32 m.deliveries 1 }
    → kept_messages (replace_id id m' ms) ≡ delivered_again id (kept_messages ms)
unfolding replace_id find_id delivered_again
kept_messages-replace_count id m m' [] h e = cc
kept_messages-replace_count id m m' (x ∷ ms) h e =
    ground (arith, kept_messages-replace_count id m m' ms)

-- Looking up among the durable queues.
pub find_kept-found :
    (name : List ℕ) (qs : List Queue) (q : Queue)
    → find_queue name qs ≡ some q
    → q.durable ≡ true
    → find_kept name (kept_queues qs) ≡ some (kept_queue q)
unfolding find_queue find_kept kept_queues
find_kept-found name [] q e d = cc
find_kept-found name (x ∷ qs) q e d = ground (arith, find_kept-found name qs q)

pub update_kept-found :
    (name : List ℕ) (qs : List Queue) (q q' : Queue)
    → find_queue name qs ≡ some q
    → q.durable ≡ true
    → q'.durable ≡ true
    → q'.deleted ≡ false
    → kept_queues (update_queue name q' qs) ≡ update_kept name (kept_queue q') (kept_queues qs)
unfolding find_queue update_queue update_kept kept_queues
update_kept-found name [] q q' e d d' l' = cc
update_kept-found name (x ∷ qs) q q' e d d' l' = ground (arith, update_kept-found name qs q q')

pub find_kept-absent :
    (name : List ℕ) (qs : List Queue)
    → find_queue name qs ≡ none
    → find_kept name (kept_queues qs) ≡ none
unfolding find_queue find_kept kept_queues
find_kept-absent name [] e = refl
find_kept-absent name (x ∷ qs) e = ground (arith, find_kept-absent name qs)

pub drop_kept-found :
    (name : List ℕ) (qs : List Queue) (q q' : Queue)
    → find_queue name qs ≡ some q
    → q.durable ≡ true
    → q'.deleted ≡ true
    → kept_queues (update_queue name q' qs) ≡ drop_kept name (kept_queues qs)
unfolding find_queue update_queue drop_kept kept_queues
drop_kept-found name [] q q' e d l = cc
drop_kept-found name (x ∷ qs) q q' e d l = ground (arith, drop_kept-found name qs q q')

pub drop_kept-absent :
    (name : List ℕ) (qs : List Queue)
    → find_queue name qs ≡ none
    → drop_kept name (kept_queues qs) ≡ kept_queues qs
unfolding find_queue drop_kept kept_queues
drop_kept-absent name [] e = refl
drop_kept-absent name (x ∷ qs) e = ground (arith, drop_kept-absent name qs)

-- A queue that is not durable is not kept, whatever happens to it.
pub kept_queues-volatile :
    (name : List ℕ) (qs : List Queue) (q q' : Queue)
    → find_queue name qs ≡ some q
    → q.durable ≡ false
    → q'.durable ≡ false
    → kept_queues (update_queue name q' qs) ≡ kept_queues qs
unfolding find_queue update_queue kept_queues
kept_queues-volatile name [] q q' e d d' = cc
kept_queues-volatile name (x ∷ qs) q q' e d d' = ground (arith, kept_queues-volatile name qs q q')

pub kept_messages-append :
    (xs ys : List Message) → kept_messages (xs ++ ys) ≡ kept_messages xs ++ kept_messages ys
kept_messages-append xs ys = map-append kept_message xs ys

pub messages-remove_all :
    (ms : List Message) (q : Queue) → messages q ≡ ms → messages (remove_all ms q) ≡ []
unfolding remove_all
messages-remove_all [] q e = e
messages-remove_all (m ∷ ms) q e =
    messages-remove_all ms (remove_message q m)
      (messages-remove_message q m ∙ ap (remove_id m.id) e ∙ (unfold remove_id in ground arith))

pub messages-purge_queue : (q : Queue) → messages (purge_queue q).0 ≡ []
unfolding purge_queue
messages-purge_queue q = append-nil _ ∙ messages-remove_all (messages q) q refl
