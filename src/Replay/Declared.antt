-- ===== src/Replay/Declared.antt =====
-- Declaring and deleting a queue: the log and the memory still agree.
use mathlib.Core.Path.{subst}
use kuttidb.Base.{
  ℕ, ◌≡◌, refl, sym, ap, ◌∙◌, Bool, true, false, not, ◌==◌, Option, none, some, List, [], ◌∷◌, All,
  All-append, if_cases, Bool-cases, inl, inr,
}
use kuttidb.Wal.{Op, LogRecord, Wal, append_record}
use kuttidb.Wal.Durability.{append_record-Extends}
use kuttidb.Queue.{Queue, Store, find_queue, update_queue, write_back, create_queue}
use kuttidb.Queue.Messages.{purge_queue}
use kuttidb.Queue.Lookup.{find_queue-is_named, is_named-split, update_queue_found}
use kuttidb.Queue.Sound.{find_queue-All, update_queue-All}
use kuttidb.Queue.DeadLetter.{append_log}
use kuttidb.Queue.Admin.{
  declare_payload, create_declared, declare_new, declare_or_compare, Removed, is_routed_to,
  tombstone, delete_logged, delete_one, delete_in,
}
use kuttidb.Replay.{declared_policy}
use kuttidb.Replay.Spec.{
  kept_queues, drop_kept, declare_kept, kept_op, kept_after, then_run, kept_run,
}
use kuttidb.Replay.Views.{
  find_kept-absent, drop_kept-found, kept_queues-volatile, messages-purge_queue,
}
use kuttidb.Replay.Follows.{purge_queue-IsSameQueue}
use kuttidb.Replay.Whole.{IsQueueRecord}
use kuttidb.Replay.Traces.{AreLasting, failed_before}
use kuttidb.Replay.Logged.{append_record-quiet, append_record-wrote, append_record-refused}
use kuttidb.Replay.Agrees.{Agrees, AgreesWith, kept_run-append}
use kuttidb.Replay.Calls.{IsPlain, IsGood, wait_written-IsGood, report_removed-IsGood}

-- A record that the log took, and the queues that it leads to.
wrote-Agrees :
    (w : Wal) (r : LogRecord) (qs qs' : List Queue)
    → (append_record w r).1 ≡ true
    → IsQueueRecord r
    → kept_after r (kept_queues qs) ≡ some (kept_queues qs')
    → AgreesWith w qs
    → AgreesWith (append_record w r).0 qs'
unfolding kept_run then_run
wrote-Agrees w r qs qs' ok q e a h =
    let old = a (failed_before w (append_record w r).0 (append_record-Extends w r).failed h) in
    let records = append_record-wrote w r q.1 ok in
    (
      rw records (All-append IsQueueRecord w.records (r ∷ []) (old.0) (q, tt)),
      ap (λ rs. kept_run rs []) records
          ∙ kept_run-append w.records (r ∷ []) []
          ∙ ap (then_run (kept_run (r ∷ []))) (old.1)
          ∙ ap (then_run (kept_run [])) e,
    )

-- A record of a queue that is not durable is not written.
volatile-Agrees :
    (w : Wal) (r : LogRecord) (qs qs' : List Queue)
    → r.durable ≡ false
    → kept_queues qs' ≡ kept_queues qs
    → AgreesWith w qs
    → AgreesWith (append_record w r).0 qs'
volatile-Agrees w r qs qs' d e a =
    subst (λ v. AgreesWith v qs') (sym (append_record-quiet w r d))
      (λ h. ((a h).0, (a h).1 ∙ ap some (sym e)))

refused-Agrees :
    (w : Wal) (r : LogRecord) (qs : List Queue)
    → (append_record w r).1 ≡ false
    → AgreesWith w qs
    → AgreesWith (append_record w r).0 qs
refused-Agrees w r qs bad a h =
    let old = a (failed_before w (append_record w r).0 (append_record-Extends w r).failed h) in
    rw (append_record-refused w r bad) (old.0, old.1)

module _ (s : Store) (name : List ℕ) (g : IsGood s) where
  create_declared-IsGood :
      (seq_before : ℕ) (l : Store × Bool) (durable : Bool) (max_depth : ℕ)
      → All IsPlain l.0.queues
      → (l.1 ≡ true → Agrees (create_queue l.0 name durable max_depth [] 0).0)
      → (l.1 ≡ false → Agrees l.0)
      → IsGood (create_declared seq_before l name durable max_depth [] 0).0
  unfolding create_declared
  create_declared-IsGood seq_before (s', false) durable max_depth plain done refused =
      (refused refl, plain)
  create_declared-IsGood seq_before (s', true) durable max_depth plain done refused =
      wait_written-IsGood seq_before (create_queue s' name durable max_depth [] 0).0
        (done refl, unfold create_queue in ((refl, tt), plain))

  abbrev declaration : Bool → ℕ → LogRecord
  declaration durable max_depth = record {
    op = Op.log_declare;
    durable = durable;
    name = name;
    id = 0;
    aux = max_depth;
    payload = declare_payload [] 0;
  }

  created-Agrees :
      (durable : Bool) (max_depth : ℕ)
      → find_queue name s.queues ≡ none
      → (append_record s.wal (declaration durable max_depth)).1 ≡ true
      → AgreesWith
          (append_record s.wal (declaration durable max_depth)).0
          (create_queue s name durable max_depth [] 0).0.queues
  unfolding create_queue kept_after kept_op declared_policy declare_payload
  created-Agrees true max_depth e ok =
      wrote-Agrees s.wal (declaration true max_depth) s.queues _ ok (refl, refl)
        (unfold kept_queues declare_kept in rw (find_kept-absent name s.queues e) refl) g.0
  created-Agrees false max_depth e ok =
      volatile-Agrees s.wal (declaration false max_depth) s.queues _ refl
        (unfold kept_queues in refl) g.0

  pub declare_or_compare-IsGood :
      (o : Option Queue) (durable : Bool) (max_depth : ℕ)
      → find_queue name s.queues ≡ o
      → IsGood (declare_or_compare o s name durable max_depth [] 0).0
  unfolding declare_or_compare declare_new
  declare_or_compare-IsGood (some q) durable max_depth e = g
  declare_or_compare-IsGood none durable max_depth e =
      let r = declaration durable max_depth in
      create_declared-IsGood s.wal.wal_seq _ durable max_depth (g.1)
        (λ ok. unfold create_queue in created-Agrees durable max_depth e ok)
        (λ bad. refused-Agrees s.wal r s.queues bad (g.0))

module _ (s : Store) (name : List ℕ) (q : Queue) (found : find_queue name s.queues ≡ some q)
    (g : IsGood s) where
  abbrev deletion : LogRecord
  deletion = record {
    op = Op.log_delete;
    durable = q.durable;
    name = q.name;
    id = q.depth;
    aux = 0;
    payload = [];
  }

  named_q : (q.deleted ≡ false) × (q.name ≡ name)
  named_q = is_named-split name q (find_queue-is_named name s.queues q found)

  abbrev gone : Queue
  gone = tombstone (purge_queue q).0

  gone-fields : (gone.name ≡ q.name) × (gone.durable ≡ q.durable) × (gone.dlq_name ≡ q.dlq_name)
  unfolding tombstone
  gone-fields = let same = purge_queue-IsSameQueue q in (same.name, same.durable, same.dlq_name)

  deleted-Agrees :
      (append_record s.wal deletion).1 ≡ true
      → AgreesWith (append_record s.wal deletion).0 (update_queue gone.name gone s.queues)
  deleted-Agrees ok =
      let name' : gone.name ≡ name = gone-fields.0 ∙ named_q.1 in
      subst (λ n. AgreesWith (append_record s.wal deletion).0 (update_queue n gone s.queues))
        (sym name')
        (elim (Bool-cases q.durable) [
          | inl d ↦
              wrote-Agrees s.wal deletion s.queues _ ok (refl, d)
                (unfold kept_after kept_op in
                  ap (λ n. some (drop_kept n (kept_queues s.queues))) named_q.1
                  ∙ ap some (
                      sym
                        (drop_kept-found name s.queues q gone found d (unfold tombstone in refl))))
                (g.0)
          | inr d ↦
              volatile-Agrees s.wal deletion s.queues _ d
                (kept_queues-volatile name s.queues q gone found d (gone-fields.1 ∙ d)) (g.0)
        ])

  delete_logged-IsGood :
      (l : Store × Bool)
      → l.0.queues ≡ s.queues
      → (l.1 ≡ true → AgreesWith l.0.wal (update_queue gone.name gone s.queues))
      → (l.1 ≡ false → AgreesWith l.0.wal s.queues)
      → IsGood (write_back (delete_logged l q).0 (delete_logged l q).1)
  unfolding delete_logged
  delete_logged-IsGood (s', false) queues done refused =
      let back : update_queue q.name q s'.queues ≡ s.queues =
        ap (λ qs. update_queue q.name q qs) queues
        ∙ ap (λ n. update_queue n q s.queues) named_q.1
        ∙ update_queue_found name q s.queues found in
      (subst (AgreesWith s'.wal) (sym back) (refused refl), subst (All IsPlain) (sym back) (g.1))
  delete_logged-IsGood (s', true) queues done refused = (
    subst (λ qs. AgreesWith s'.wal (update_queue gone.name gone qs)) (sym queues) (done refl),
    update_queue-All IsPlain gone.name gone s'.queues (subst (All IsPlain) (sym queues) g.1) (
      gone-fields.2 ∙ (find_queue-All IsPlain name s.queues q g.1 found).0,
      unfold tombstone in subst AreLasting (sym (messages-purge_queue q)) tt,
    ),
  )

  delete_one-IsGood : IsGood (write_back (delete_one s q).0 (delete_one s q).1)
  unfolding delete_one append_log
  delete_one-IsGood =
      delete_logged-IsGood
        (record s { wal = (append_record s.wal deletion).0 }, (append_record s.wal deletion).1) refl
        deleted-Agrees (λ bad. refused-Agrees s.wal deletion s.queues bad (g.0))

pub delete_in-IsGood :
    (s : Store) (name : List ℕ) (o : Option Queue) (expected : ℕ)
    → IsGood s
    → find_queue name s.queues ≡ o
    → IsGood (delete_in o s expected).0
unfolding delete_in
delete_in-IsGood s name none expected g e = g
delete_in-IsGood s name (some q) expected g e =
    if_cases (λ (r : Store × Removed). IsGood r.0) (not (q.revision == expected)) _ _ (λ _. g)
      (λ _.
        if_cases (λ (r : Store × Removed). IsGood r.0) (is_routed_to q.name s.exchanges) _ _
          (λ _. g)
          (λ _.
            report_removed-IsGood s.wal.wal_seq (delete_one s q) (delete_one-IsGood s name q e g)))
