-- ===== src/Queue/Settle/Ends.antt =====
-- The two ends of an ACK and of a NACK that asks for a requeue, and what they share.
use mathlib.Core.Path.{subst}
use kuttidb.Base.{
  ℕ, ◌≡◌, ◌≢◌, ◌⊎◌, refl, sym, ap, ◌∙◌, Bool, true, false, List, [], ◌∷◌, ◌++◌, Option, some, none,
  arith, if_cases, Bool-cases, inl, inr, bytes_eq,
}
use kuttidb.Wal.{Op, Wal, append_record, sync_log}
use kuttidb.Wal.Durability.{IsDurable, HasNumbers}
use kuttidb.Queue.{Message, MessageState, Queue, Store, messages, find_queue, update_queue}
use kuttidb.Queue.Lists.{find_tag}
use kuttidb.Queue.Places.{IsFirst, find_tag-IsFirst, IsFirst-find_tag}
use kuttidb.Queue.Lookup.{
  update_queue_found, find_queue-is_named, is_named-split, is_named-make, find_queue-update_queue,
  find_queue-update_queue_ne,
}
use kuttidb.Queue.DeadLetter.{append_log, sync_store}
use kuttidb.Queue.Settle.{
  Settled, if_active, active_delivery, sync_written, log_settled, report_settled,
}

-- The record of a settled message is the last one, and on disk.
abbrev pub IsLogged : Op → Store → Queue → ℕ → ℕ → Store → Type 0
IsLogged op s q id aux s' =
    (s'.wal.records
      ≡ s.wal.records
        ++ (record { op = op; durable = true; name = q.name; id = id; aux = aux; payload = [] })
          ∷ [])
    × IsDurable s'.wal

-- The first message under the tag is in flight, and held by the owner.
pub record IsActive (q : Queue) (tag owner : ℕ) (m : Message) : Type 0 where
  pub first : IsFirst tag m (messages q)
  pub flying : m.state ≡ MessageState.inflight
  pub held_by : m.owner ≡ owner

-- Why a call does not settle: there is no tag, no queue, no such delivery, or the log has failed.
pub data IsRefusal (name : List ℕ) (tag owner : ℕ) (s s' : Store) : Type 0 where
  no_tag : tag ≡ 0 → IsRefusal name tag owner s s'
  no_queue : find_queue name s.queues ≡ none → IsRefusal name tag owner s s'
  no_delivery :
      (q : Queue)
      → find_queue name s.queues ≡ some q
      → ((m : Message)
          → IsFirst tag m (messages q)
          → m.state ≡ MessageState.inflight
          → m.owner ≢ owner)
      → IsRefusal name tag owner s s'
  no_log : (s.wal.opened ≡ false) ⊎ (s'.wal.failed ≡ true) → IsRefusal name tag owner s s'

-- A call that did not settle a delivery had a reason, and left the queues as they were.
pub record IsUntouched (name : List ℕ) (tag owner : ℕ) (s : Store) (out : Store × Settled)
    : Type 0 where
  pub kept : out.0.queues ≡ s.queues
  pub reported : out.1 ≢ Settled.settled
  pub reason : IsRefusal name tag owner s out.0

-- A call that settled its delivery: the messages of the queue changed as `R` says, no other queue
-- did, and where the queue is durable, the record is on disk.
pub record IsSettled (op : Op) (aux : ℕ) (R : Message → List Message → List Message → Type 0)
    (s : Store) (name : List ℕ) (tag owner : ℕ) (out : Store × Settled) : Type 0 where
  pub queue : Queue
  pub message : Message
  pub found : find_queue name s.queues ≡ some queue
  pub active : IsActive queue tag owner message
  pub after : Queue
  pub found_after : find_queue name out.0.queues ≡ some after
  pub effect : R message (messages queue) (messages after)
  pub others :
      (n : List ℕ) → bytes_eq name n ≡ false → find_queue n out.0.queues ≡ find_queue n s.queues
  pub logged : (queue.durable ≡ false) ⊎ IsLogged op s queue message.id aux out.0
  pub reported : out.1 ≡ Settled.settled

if_active-some :
    (o : Option Message) (owner : ℕ) (m : Message)
    → if_active o owner ≡ some m
    → (o ≡ some m) × (m.state ≡ MessageState.inflight) × (m.owner ≡ owner)
unfolding if_active
if_active-some o owner m h = ground arith

if_active-none :
    (o : Option Message) (owner : ℕ) (m : Message)
    → if_active o owner ≡ none
    → o ≡ some m
    → m.state ≡ MessageState.inflight
    → m.owner ≢ owner
unfolding if_active
if_active-none o owner m h e flying same = ground (arith, h, e, flying, same)

pub active_delivery-IsActive :
    (q : Queue) (tag owner : ℕ) (m : Message)
    → active_delivery q tag owner ≡ some m
    → IsActive q tag owner m
unfolding active_delivery
active_delivery-IsActive q tag owner m h =
    let found = if_active-some (find_tag tag (messages q)) owner m h in
    record {
      first = find_tag-IsFirst tag m (messages q) found.0;
      flying = found.1;
      held_by = found.2;
    }

pub active_delivery-none :
    (q : Queue) (tag owner : ℕ)
    → active_delivery q tag owner ≡ none
    → (m : Message) → IsFirst tag m (messages q)
    → m.state ≡ MessageState.inflight
    → m.owner ≢ owner
unfolding active_delivery
active_delivery-none q tag owner h m first =
    if_active-none (find_tag tag (messages q)) owner m h (IsFirst-find_tag tag m (messages q) first)

pub log_settled-queues :
    (s : Store) (op : Op) (q : Queue) (id aux : ℕ) → (log_settled s op q id aux).0.queues ≡ s.queues
unfolding log_settled append_log sync_store sync_written
log_settled-queues s op q id aux = ground arith

-- The record has its own number, so the sync that follows is a real one.
sync_written-IsLogged :
    (op : Op) (s : Store) (q : Queue) (id aux : ℕ)
    → HasNumbers s.wal
    → q.durable ≡ true
    → (sync_written (append_log s op q id aux [])).1 ≡ true
    → IsLogged op s q id aux (sync_written (append_log s op q id aux [])).0
unfolding sync_written append_log sync_store append_record sync_log
sync_written-IsLogged op s q id aux numbers durable ok =
    ground (arith, numbers.0, numbers.1, durable, ok)

sync_written-fails :
    (op : Op) (s : Store) (q : Queue) (id aux : ℕ)
    → q.durable ≡ true
    → s.wal.opened ≡ true
    → (sync_written (append_log s op q id aux [])).1 ≡ false
    → (sync_written (append_log s op q id aux [])).0.wal.failed ≡ true
unfolding sync_written append_log sync_store append_record sync_log
sync_written-fails op s q id aux durable opened ok = ground arith

-- A record that is not on disk has a reason.
pub log_settled-fails :
    (op : Op) (s : Store) (q : Queue) (id aux : ℕ)
    → (log_settled s op q id aux).1 ≡ false
    → (s.wal.opened ≡ false) ⊎ ((log_settled s op q id aux).0.wal.failed ≡ true)
unfolding log_settled
log_settled-fails op s q id aux =
    if_cases (λ (r : Store × Bool). r.1 ≡ false → (s.wal.opened ≡ false) ⊎ (r.0.wal.failed ≡ true))
      q.durable _ _
      (λ durable no. elim (Bool-cases s.wal.opened) [
        | inl opened ↦ inr (sync_written-fails op s q id aux durable opened no)
        | inr closed ↦ inl closed
      ])
      (λ _ no. absurd (cc no))

log_settled_durable :
    (op : Op) (s : Store) (q : Queue) (id aux : ℕ)
    → q.durable ≡ true
    → sync_written (append_log s op q id aux []) ≡ log_settled s op q id aux
unfolding log_settled
log_settled_durable op s q id aux durable = ground arith

pub log_settled-IsLogged :
    (op : Op) (s : Store) (q : Queue) (id aux : ℕ)
    → HasNumbers s.wal
    → q.durable ≡ true
    → (log_settled s op q id aux).1 ≡ true
    → IsLogged op s q id aux (log_settled s op q id aux).0
log_settled-IsLogged op s q id aux numbers durable =
    subst (λ (r : Store × Bool). r.1 ≡ true → IsLogged op s q id aux r.0)
      (log_settled_durable op s q id aux durable)
      (sync_written-IsLogged op s q id aux numbers durable)

-- The two ends of a call.
abbrev pub Ends :
    Op
    → ℕ
    → (Message → List Message → List Message → Type 0)
    → Store
    → List ℕ
    → ℕ
    → ℕ
    → Store × Settled
    → Type 0
Ends op aux R s name tag owner out =
    IsUntouched name tag owner s out ⊎ IsSettled op aux R s name tag owner out

pub own_name :
    (name : List ℕ) (s : Store) (q : Queue) → find_queue name s.queues ≡ some q → q.name ≡ name
own_name name s q e = (is_named-split name q (find_queue-is_named name s.queues q e)).1

-- A result without a change, written back.
pub reported-IsUntouched :
    (s s' : Store) (name : List ℕ) (tag owner : ℕ) (q : Queue) (r : Settled)
    → find_queue name s.queues ≡ some q
    → s'.queues ≡ s.queues
    → r ≢ Settled.settled
    → ((s'' : Store) → s''.wal ≡ s'.wal → IsRefusal name tag owner s s'')
    → IsUntouched name tag owner s (report_settled (s', q, r))
unfolding report_settled
reported-IsUntouched s s' name tag owner q r e queues ne reason = record {
  kept =
      ap (λ qs. update_queue q.name q qs) queues
      ∙ ap (λ n. update_queue n q s.queues) (own_name name s q e)
      ∙ update_queue_found name q s.queues e;
  reported = ne;
  reason = reason _ refl;
}

pub when_durable : {P : Type 0} (q : Queue) → (q.durable ≡ true → P) → (q.durable ≡ false) ⊎ P
when_durable q h = elim (Bool-cases q.durable) [
  | inl durable ↦ inr (h durable)
  | inr volatile ↦ inl volatile
]

pub error-ne-settled : Settled.error ≢ Settled.settled
error-ne-settled h = cc

pub not_active-ne-settled : Settled.not_active ≢ Settled.settled
not_active-ne-settled h = cc

-- A delivery that was settled, with the queue written back.
pub reported-IsSettled :
    (op : Op) (aux : ℕ) (R : Message → List Message → List Message → Type 0) (s s' : Store)
    (name : List ℕ) (tag owner : ℕ) (q q' : Queue) (m : Message)
    → find_queue name s.queues ≡ some q
    → IsActive q tag owner m
    → s'.queues ≡ s.queues
    → (q'.name ≡ q.name) × (q'.deleted ≡ q.deleted)
    → R m (messages q) (messages q')
    → (q.durable ≡ true → IsLogged op s q m.id aux s')
    → IsSettled op aux R s name tag owner (report_settled (s', q', Settled.settled))
unfolding report_settled
reported-IsSettled op aux R s s' name tag owner q q' m e active queues same effect logged =
    let live = is_named-split name q (find_queue-is_named name s.queues q e) in
    let called = same.0 ∙ live.1 in
    let named = is_named-make name q' (same.1 ∙ live.0) called in
    record {
      queue = q;
      message = m;
      found = e;
      active = active;
      after = q';
      found_after =
          ap (λ n. find_queue name (update_queue n q' s'.queues)) called
          ∙ ap (λ qs. find_queue name (update_queue name q' qs)) queues
          ∙ find_queue-update_queue name q q' s.queues e named;
      effect = effect;
      others = λ n ne.
          ap (λ k. find_queue n (update_queue k q' s'.queues)) called
          ∙ ap (λ qs. find_queue n (update_queue name q' qs)) queues
          ∙ find_queue-update_queue_ne n name q' s.queues ne named;
      logged = when_durable q logged;
      reported = refl;
    }

pub no_log-IsRefusal :
    (s s' : Store) (name : List ℕ) (tag owner : ℕ)
    → (s.wal.opened ≡ false) ⊎ (s'.wal.failed ≡ true)
    → (s'' : Store) → s''.wal ≡ s'.wal
    → IsRefusal name tag owner s s''
no_log-IsRefusal s s' name tag owner h s'' same =
    IsRefusal.no_log (subst (λ (w : Wal). (s.wal.opened ≡ false) ⊎ (w.failed ≡ true)) (sym same) h)

-- A call that never reaches a queue.
pub unreached-IsUntouched :
    (s : Store) (name : List ℕ) (tag owner : ℕ)
    → IsRefusal name tag owner s s
    → IsUntouched name tag owner s (s, Settled.error)
unreached-IsUntouched s name tag owner reason = record {
  kept = refl;
  reported = error-ne-settled;
  reason = reason;
}
