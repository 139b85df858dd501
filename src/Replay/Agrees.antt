-- ===== src/Replay/Agrees.antt =====
-- The log and the memory agree: what the records mean is what the queues keep.
use mathlib.Core.List.{append-nil}
use mathlib.Core.Path.{subst}
use kuttidb.Base.{
  ℕ, ◌≡◌, refl, sym, ap, ◌∙◌, true, false, Option, none, some, List, [], ◌∷◌, ◌++◌, All, All-append,
  arith, bytes_eq, bytes_eq_refl, Bool-cases, inl, inr,
}
use kuttidb.Wal.{Op, LogRecord, Wal}
use kuttidb.Queue.{Queue, Store, find_queue, update_queue, write_back}
use kuttidb.Queue.Lookup.{find_queue-is_named, is_named-split}
use kuttidb.Queue.Presence.Reaped.{IsSameQueue}
use kuttidb.Replay.Spec.{
  KeptQueue, kept_queue, kept_queues, queue_after, find_kept, update_kept, change_kept, kept_op,
  is_queue_op, kept_after, then_run, kept_run,
}
use kuttidb.Replay.Views.{find_kept-found, update_kept-found, kept_queues-volatile}
use kuttidb.Replay.Whole.{IsQueueRecord}
use kuttidb.Replay.Traces.{held_run, is_message_op, IsOf, Trace, Traces, failed_before}

find_kept-update_kept :
    (name : List ℕ) (k k' : KeptQueue) (ks : List KeptQueue)
    → find_kept name ks ≡ some k
    → bytes_eq k'.name name ≡ true
    → find_kept name (update_kept name k' ks) ≡ some k'
unfolding find_kept update_kept
find_kept-update_kept name k k' [] e h = cc
find_kept-update_kept name k k' (x ∷ ks) e h = ground (arith, find_kept-update_kept name k k' ks)

update_kept_twice :
    (name : List ℕ) (k' k'' : KeptQueue) (ks : List KeptQueue)
    → bytes_eq k'.name name ≡ true
    → update_kept name k'' (update_kept name k' ks) ≡ update_kept name k'' ks
unfolding update_kept
update_kept_twice name k' k'' [] h = refl
update_kept_twice name k' k'' (x ∷ ks) h = ground (arith, update_kept_twice name k' k'' ks)

update_kept_found :
    (name : List ℕ) (k : KeptQueue) (ks : List KeptQueue)
    → find_kept name ks ≡ some k
    → update_kept name k ks ≡ ks
unfolding find_kept update_kept
update_kept_found name k [] e = refl
update_kept_found name k (x ∷ ks) e = ground (arith, update_kept_found name k ks)

then_run_assoc :
    (f g h : List KeptQueue → Option (List KeptQueue)) (o : Option (List KeptQueue))
    → ((ks : List KeptQueue) → f ks ≡ then_run g (h ks))
    → then_run f o ≡ then_run g (then_run h o)
unfolding then_run
then_run_assoc f g h none e = refl
then_run_assoc f g h (some ks) e = e ks

pub kept_run-append :
    (rs more : List LogRecord) (ks : List KeptQueue)
    → kept_run (rs ++ more) ks ≡ then_run (kept_run more) (kept_run rs ks)
unfolding kept_run
kept_run-append [] more ks = unfold then_run in refl
kept_run-append (r ∷ rs) more ks =
    then_run_assoc (kept_run (rs ++ more)) (kept_run more) (kept_run rs) (kept_after r ks)
      (λ ls. kept_run-append rs more ls)

kept_op-change :
    (op : Op) (r : LogRecord) (ks : List KeptQueue)
    → is_message_op op ≡ true
    → kept_op op r ks ≡ change_kept (find_kept r.name ks) op r ks
unfolding kept_op
kept_op-change Op.log_publish r ks h = refl
kept_op-change Op.log_ack r ks h = refl
kept_op-change Op.log_deliver r ks h = refl
kept_op-change Op.log_requeue r ks h = refl
kept_op-change Op.log_purge r ks h = refl
kept_op-change Op.log_declare r ks h = cc
kept_op-change Op.log_delete r ks h = cc
kept_op-change Op.log_exdeclare r ks h = cc
kept_op-change Op.log_exbind r ks h = cc
kept_op-change Op.log_exunbind r ks h = cc
kept_op-change Op.log_exdelete r ks h = cc
kept_op-change Op.log_exupdate r ks h = cc

message_op-queue_op : (op : Op) → is_message_op op ≡ true → is_queue_op op ≡ true
message_op-queue_op Op.log_publish h = refl
message_op-queue_op Op.log_ack h = refl
message_op-queue_op Op.log_deliver h = refl
message_op-queue_op Op.log_requeue h = refl
message_op-queue_op Op.log_purge h = refl
message_op-queue_op Op.log_declare h = cc
message_op-queue_op Op.log_delete h = cc
message_op-queue_op Op.log_exdeclare h = cc
message_op-queue_op Op.log_exbind h = cc
message_op-queue_op Op.log_exunbind h = cc
message_op-queue_op Op.log_exdelete h = cc
message_op-queue_op Op.log_exupdate h = cc

IsOf-IsQueueRecord :
    (name : List ℕ) (rs : List LogRecord) → All (IsOf name) rs → All IsQueueRecord rs
IsOf-IsQueueRecord name [] h = tt
IsOf-IsQueueRecord name (r ∷ rs) h =
    ((message_op-queue_op r.op h.0.message_op, h.0.durable), IsOf-IsQueueRecord name rs h.1)

abbrev held_as : KeptQueue → List LogRecord → KeptQueue
held_as k rs = record k { held = held_run rs k.held }

kept_run-own :
    (rs : List LogRecord) (name : List ℕ) (k : KeptQueue) (ks : List KeptQueue)
    → All (IsOf name) rs
    → find_kept name ks ≡ some k
    → k.name ≡ name
    → kept_run rs ks ≡ some (update_kept name (held_as k rs) ks)
unfolding kept_run held_run
kept_run-own [] name k ks h e same = ap some (sym (update_kept_found name k ks e))
kept_run-own (r ∷ rs) name k ks h e same =
    let k' = queue_after r.op r k in
    let named : bytes_eq k'.name name ≡ true = rw same (bytes_eq_refl name) in
    let step : kept_after r ks ≡ some (update_kept name k' ks) =
      unfold kept_after change_kept in
      kept_op-change r.op r ks h.0.message_op
      ∙ ap (λ n. change_kept (find_kept n ks) r.op r ks) h.0.named
      ∙ ap (λ o. change_kept o r.op r ks) e
      ∙ ap (λ n. some (update_kept n k' ks)) h.0.named in
    ap (then_run (kept_run rs)) step
    ∙ (unfold then_run in
        kept_run-own rs name k' (update_kept name k' ks) h.1
          (find_kept-update_kept name k k' ks e named) same)
    ∙ ap some (update_kept_twice name k' (held_as k' rs) ks named)

-- A log that has not failed has only records of durable queues, and they mean what is in memory.
abbrev pub AgreesWith : Wal → List Queue → Type 0
AgreesWith w qs =
    w.failed ≡ false → All IsQueueRecord w.records × (kept_run w.records [] ≡ some (kept_queues qs))

abbrev pub Agrees : Store → Type 0
Agrees s = AgreesWith s.wal s.queues

module _ (name : List ℕ) (qs : List Queue) (q q' : Queue)
    (found : find_queue name qs ≡ some q) where
  durable-Agrees :
      (w w' : Wal)
      → q.durable ≡ true
      → q'.durable ≡ true
      → q'.deleted ≡ false
      → (t : Trace w q w' q') → kept_queue q' ≡ held_as (kept_queue q) t.more
      → q.name ≡ name
      → All IsQueueRecord w.records × (kept_run w.records [] ≡ some (kept_queues qs))
      → All IsQueueRecord w'.records
        × (kept_run w'.records [] ≡ some (kept_queues (update_queue name q' qs)))
  unfolding then_run
  durable-Agrees w w' d d' live t kept same a = (
    rw t.records
        (All-append IsQueueRecord w.records t.more a.0 (IsOf-IsQueueRecord q.name t.more t.own)),
    ap (λ rs. kept_run rs []) t.records
        ∙ kept_run-append w.records t.more []
        ∙ ap (then_run (kept_run t.more)) a.1
        ∙ kept_run-own t.more name (kept_queue q) (kept_queues qs)
            (subst (λ n. All (IsOf n) t.more) same t.own) (find_kept-found name qs q found d) same
        ∙ ap (λ k. some (update_kept name k (kept_queues qs))) (sym kept)
        ∙ ap some (sym (update_kept-found name qs q q' found d d' live)),
  )

  volatile-Agrees :
      (w w' : Wal)
      → q.durable ≡ false
      → q'.durable ≡ false
      → Trace w q w' q'
      → All IsQueueRecord w.records × (kept_run w.records [] ≡ some (kept_queues qs))
      → All IsQueueRecord w'.records
        × (kept_run w'.records [] ≡ some (kept_queues (update_queue name q' qs)))
  volatile-Agrees w w' d d' t a =
      let records : w'.records ≡ w.records =
        t.records ∙ ap (λ rs. w.records ++ rs) (t.quiet d) ∙ append-nil w.records in
      (
        rw records (a.0),
        ap (λ rs. kept_run rs []) records
            ∙ a.1
            ∙ ap some (sym (kept_queues-volatile name qs q q' found d d')),
      )

  if_durable :
      (w w' : Wal)
      → IsSameQueue q q'
      → q.deleted ≡ false
      → q.name ≡ name
      → Trace w q w' q'
      → All IsQueueRecord w.records × (kept_run w.records [] ≡ some (kept_queues qs))
      → All IsQueueRecord w'.records
        × (kept_run w'.records [] ≡ some (kept_queues (update_queue name q' qs)))
  if_durable w w' same live named t a = elim (Bool-cases q.durable) [
    | inl d ↦
        durable-Agrees w w' d (same.durable ∙ d) (same.deleted ∙ live) t
          (rw (same.name, same.max_depth, same.dlq_name, same.max_deliveries, t.held d) refl) named
          a
    | inr d ↦ volatile-Agrees w w' d (same.durable ∙ d) t a
  ]

-- One queue changes, and the log has the records of it.
pub Traces-Agrees :
    (name : List ℕ) (q q' : Queue) (s s' : Store)
    → find_queue name s.queues ≡ some q
    → Traces s.queues s.wal q s'.queues s'.wal q'
    → Agrees s
    → Agrees (write_back s' q')
Traces-Agrees name q q' s s' found tr a h =
    let named = is_named-split name q (find_queue-is_named name s.queues q found) in
    let t = tr.trace h in
    let old = a (failed_before s.wal s'.wal tr.failed h) in
    let goal : All IsQueueRecord s'.wal.records
        × (kept_run s'.wal.records [] ≡ some (kept_queues (update_queue name q' s.queues))) =
      if_durable name s.queues q q' found s.wal s'.wal tr.same named.0 named.1 t old in
    (
      goal.0,
      goal.1
          ∙ ap (λ qs. some (kept_queues (update_queue name q' qs))) (sym tr.queues)
          ∙ ap (λ n. some (kept_queues (update_queue n q' s'.queues)))
              (sym (tr.same.name ∙ named.1)),
    )
