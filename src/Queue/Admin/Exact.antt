-- ===== src/Queue/Admin/Exact.antt =====
-- What a declaration that succeeds and a purge that removes leave behind.
use kuttidb.Base.{
  ℕ, ◌≡◌, refl, ap, ◌∙◌, Bool, true, false, not, ◌||◌, List, [], ◌∷◌, Option, some, none, arith,
  if_cases, if◌then◌else◌, length, bytes_eq_refl, bytes_eq→≡, ◌⊎◌, inl, inr,
}
use kuttidb.Queue.{
  Message, Queue, Store, messages, find_queue, update_queue, create_queue, new_queue, write_back,
  is_empty,
}
use kuttidb.Queue.Messages.{remove_message, remove_all, purge_queue}
use kuttidb.Queue.Lookup.{
  is_named-split, is_named-make, find_queue-is_named, find_queue-update_queue,
}
use kuttidb.Queue.Sound.{IsQueueOf, IsSound, find_queue-All}
use kuttidb.Queue.DeadLetter.{append_log}
use kuttidb.Queue.Publish.{is_name, wait_written}
use kuttidb.Queue.Admin.Sound.{purge_queue-messages}
use kuttidb.Queue.Admin.{
  same_declaration, bad_policy, create_declared, declare_new, declare_or_compare, queue_declare_ex,
  Removed, purge_logged, purge_one, report_removed, is_stale, purge_in, queue_purge_checked,
}

-- The name stands for a live queue with these properties.
pub record IsDeclared (name : List ℕ) (durable : Bool) (dlq : List ℕ) (max_deliveries : ℕ)
    (s : Store) : Type 0 where
  pub queue : Queue
  pub found : find_queue name s.queues ≡ some queue
  pub durable_is : queue.durable ≡ durable
  pub dlq_is : queue.dlq_name ≡ dlq
  pub limit_is : (dlq ≡ []) ⊎ (queue.max_deliveries ≡ max_deliveries)

same_length_nil : (xs : List ℕ) → length xs ≡ 0 → xs ≡ []
same_length_nil [] h = refl
same_length_nil (x ∷ xs) h = absurd (omega (arith, h))

same_declaration-dlq :
    (q : Queue) (durable : Bool) (dlq : List ℕ) (max_deliveries : ℕ)
    → same_declaration q durable dlq max_deliveries ≡ true
    → (q.dlq_name ≡ dlq) × ((dlq ≡ []) ⊎ (q.max_deliveries ≡ max_deliveries))
unfolding same_declaration
same_declaration-dlq q durable [] max_deliveries h =
    (same_length_nil q.dlq_name (ground (arith, h)), inl refl)
same_declaration-dlq q durable (x ∷ dlq) max_deliveries h =
    (bytes_eq→≡ q.dlq_name (x ∷ dlq) (ground (arith, h)), inr (ground (arith, h)))

same_declaration-IsDeclared :
    (q : Queue) (name : List ℕ) (durable : Bool) (dlq : List ℕ) (max_deliveries : ℕ) (s : Store)
    → find_queue name s.queues ≡ some q
    → same_declaration q durable dlq max_deliveries ≡ true
    → IsDeclared name durable dlq max_deliveries s
unfolding same_declaration
same_declaration-IsDeclared q name durable dlq max_deliveries s e h =
    let policy = same_declaration-dlq q durable dlq max_deliveries h in
    record {
      queue = q;
      found = e;
      durable_is = ground (arith, h);
      dlq_is = policy.0;
      limit_is = policy.1;
    }

wait_written-queues : (seq_before : ℕ) (s : Store) → (wait_written seq_before s).0.queues ≡ s.queues
unfolding wait_written
wait_written-queues seq_before s = ground arith

create_queue-found :
    (s : Store) (name : List ℕ) (durable : Bool) (max_depth : ℕ) (dlq : List ℕ) (max_deliveries : ℕ)
    → find_queue name (create_queue s name durable max_depth dlq max_deliveries).0.queues
      ≡ some (create_queue s name durable max_depth dlq max_deliveries).1
unfolding create_queue find_queue new_queue
create_queue-found s name durable max_depth dlq max_deliveries = rw (bytes_eq_refl name) refl

new_limit : (dlq : List ℕ) (limit : ℕ) → (dlq ≡ []) ⊎ ((if is_empty dlq then 0 else limit) ≡ limit)
new_limit [] limit = inl refl
new_limit (x ∷ dlq) limit = inr refl

create_queue-IsDeclared :
    (s s' : Store) (name : List ℕ) (durable : Bool) (max_depth : ℕ) (dlq : List ℕ)
    (max_deliveries : ℕ)
    → s'.queues ≡ (create_queue s name durable max_depth dlq max_deliveries).0.queues
    → IsDeclared name durable dlq max_deliveries s'
unfolding create_queue new_queue
create_queue-IsDeclared s s' name durable max_depth dlq max_deliveries queues = record {
  queue = (create_queue s name durable max_depth dlq max_deliveries).1;
  found =
      ap (λ qs. find_queue name qs) queues
      ∙ create_queue-found s name durable max_depth dlq max_deliveries;
  durable_is = refl;
  dlq_is = refl;
  limit_is = new_limit dlq max_deliveries;
}

create_declared-IsDeclared :
    (seq_before : ℕ) (r : Store × Bool) (name : List ℕ) (durable : Bool) (max_depth : ℕ)
    (dlq : List ℕ) (max_deliveries : ℕ)
    → (create_declared seq_before r name durable max_depth dlq max_deliveries).1 ≡ true
    → IsDeclared name durable dlq max_deliveries
        (create_declared seq_before r name durable max_depth dlq max_deliveries).0
unfolding create_declared
create_declared-IsDeclared seq_before (s, false) name durable max_depth dlq max_deliveries h =
    absurd (cc h)
create_declared-IsDeclared seq_before (s, true) name durable max_depth dlq max_deliveries h =
    let made = create_queue s name durable max_depth dlq max_deliveries in
    create_queue-IsDeclared s _ name durable max_depth dlq max_deliveries
      (wait_written-queues seq_before made.0)

declare_or_compare-IsDeclared :
    (o : Option Queue) (s : Store) (name : List ℕ) (durable : Bool) (max_depth : ℕ) (dlq : List ℕ)
    (max_deliveries : ℕ)
    → find_queue name s.queues ≡ o
    → (declare_or_compare o s name durable max_depth dlq max_deliveries).1 ≡ true
    → IsDeclared name durable dlq max_deliveries
        (declare_or_compare o s name durable max_depth dlq max_deliveries).0
unfolding declare_or_compare declare_new
declare_or_compare-IsDeclared (some q) s name durable max_depth dlq max_deliveries e h =
    same_declaration-IsDeclared q name durable dlq max_deliveries s e h
declare_or_compare-IsDeclared none s name durable max_depth dlq max_deliveries e h =
    create_declared-IsDeclared s.wal.wal_seq _ name durable max_depth dlq max_deliveries h

-- A declaration that reports success leaves a live queue under the name that has the durability, the
-- dead-letter queue and, where there is one, the limit on deliveries that were asked for, whether it
-- was there or is new.
pub queue_declare_ex-IsDeclared :
    (s : Store) (name : List ℕ) (durable : Bool) (max_depth : ℕ) (dlq : List ℕ) (max_deliveries : ℕ)
    → (queue_declare_ex s name durable max_depth dlq max_deliveries).1 ≡ true
    → IsDeclared name durable dlq max_deliveries
        (queue_declare_ex s name durable max_depth dlq max_deliveries).0
unfolding queue_declare_ex
queue_declare_ex-IsDeclared s name durable max_depth dlq max_deliveries =
    if_cases (λ (r : Store × Bool). r.1 ≡ true → IsDeclared name durable dlq max_deliveries r.0)
      (not (is_name name) || bad_policy name dlq max_deliveries) _ _ (λ _ h. absurd (cc h))
      (λ _.
        declare_or_compare-IsDeclared (find_queue name s.queues) s name durable max_depth dlq
          max_deliveries refl)

-- The queue of the name had `n` messages, and has none now.
pub record IsPurged (s : Store) (name : List ℕ) (n : ℕ) (out : Store) : Type 0 where
  pub before : Queue
  pub after : Queue
  pub found : find_queue name s.queues ≡ some before
  pub count : n ≡ length (messages before)
  pub left : find_queue name out.queues ≡ some after
  pub empty : messages after ≡ []

remove_all-name :
    (ms : List Message) (q : Queue)
    → ((remove_all ms q).name ≡ q.name) × ((remove_all ms q).deleted ≡ q.deleted)
unfolding remove_all remove_message
remove_all-name [] q = (refl, refl)
remove_all-name (m ∷ ms) q = remove_all-name ms (remove_message q m)

purge_queue-name :
    (q : Queue) → ((purge_queue q).0.name ≡ q.name) × ((purge_queue q).0.deleted ≡ q.deleted)
unfolding purge_queue
purge_queue-name q = remove_all-name (messages q) q

purge_queue-count : (q : Queue) → (purge_queue q).1 ≡ q.depth
unfolding purge_queue
purge_queue-count q = refl

report_removed-IsPurged :
    (s : Store) (name : List ℕ) (q : Queue) (n : ℕ) (l : Store × Bool)
    → IsSound s
    → find_queue name s.queues ≡ some q
    → l.0.queues ≡ s.queues
    → (report_removed s.wal.wal_seq (purge_logged l q)).1 ≡ Removed.removed n
    → IsPurged s name n (report_removed s.wal.wal_seq (purge_logged l q)).0
unfolding report_removed purge_logged
report_removed-IsPurged s name q n (s', false) hs e queues h = absurd (cc h)
report_removed-IsPurged s name q n (s', true) hs e queues h =
    let after = (purge_queue q).0 in
    let sound = find_queue-All (IsQueueOf s.next_id) name s.queues q hs e in
    let live = is_named-split name q (find_queue-is_named name s.queues q e) in
    let named = purge_queue-name q in
    let counted : n ≡ (purge_queue q).1 = ground (arith, h) in
    record {
      before = q;
      after = after;
      found = e;
      count = counted ∙ purge_queue-count q ∙ sound.consistent.depth;
      left =
          ap (λ qs. find_queue name qs)
            (wait_written-queues s.wal.wal_seq (write_back s' after)
              ∙ ap (λ k. update_queue k after s'.queues) (named.0 ∙ live.1)
              ∙ ap (λ qs. update_queue name after qs) queues)
          ∙ find_queue-update_queue name q after s.queues e
              (is_named-make name after (named.1 ∙ live.0) (named.0 ∙ live.1));
      empty = purge_queue-messages q sound;
    }

purge_in-IsPurged :
    (o : Option Queue) (s : Store) (name : List ℕ) (expected : Option ℕ) (n : ℕ)
    → IsSound s
    → find_queue name s.queues ≡ o
    → (purge_in o s expected).1 ≡ Removed.removed n
    → IsPurged s name n (purge_in o s expected).0
unfolding purge_in purge_one append_log
purge_in-IsPurged none s name expected n hs e = λ h. absurd (cc h)
purge_in-IsPurged (some q) s name expected n hs e =
    if_cases (λ (r : Store × Removed). r.1 ≡ Removed.removed n → IsPurged s name n r.0)
      (is_stale expected q) _ _ (λ _ h. absurd (cc h))
      (λ _. report_removed-IsPurged s name q n _ hs e refl)

-- A purge that reports how many messages it removed reports all that the named queue had, and leaves
-- that queue in the store without any. The store is sound.
pub queue_purge_checked-IsPurged :
    (s : Store) (name : List ℕ) (expected : Option ℕ) (n : ℕ)
    → IsSound s
    → (queue_purge_checked s name expected).1 ≡ Removed.removed n
    → IsPurged s name n (queue_purge_checked s name expected).0
unfolding queue_purge_checked
queue_purge_checked-IsPurged s name expected n hs =
    if_cases (λ (r : Store × Removed). r.1 ≡ Removed.removed n → IsPurged s name n r.0)
      (not (is_name name)) _ _ (λ _ h. absurd (cc h))
      (λ _. purge_in-IsPurged (find_queue name s.queues) s name expected n hs refl)
