-- ===== src/Replay/Calls.antt =====
-- The calls, for a store whose queues have no dead-letter queue and no message that expires: the log
-- and the memory still agree after them.
use mathlib.Core.Path.{subst}
use kuttidb.Base.{
  ℕ, ◌≡◌, refl, sym, ◌∙◌, Bool, true, not, ◌==◌, Option, none, some, List, [], ◌∷◌, All, arith,
  if_cases, length, ◌+◌, ◌*◌, ◌<◌, u64_mod,
}
use kuttidb.Wal.{Wal, wait_durable}
use kuttidb.Queue.{Queue, Store, Clocks, messages, find_queue, write_back}
use kuttidb.Queue.Sound.{IsQueueOf, IsSound, find_queue-All, update_queue-All}
use kuttidb.Queue.Reap.{reap_queue}
use kuttidb.Queue.Reap.Whole.{reap_queue-Keeps, AllHeld-messages}
use kuttidb.Queue.Publish.{accept, publish_one, wait_written, report_published, publish_to}
use kuttidb.Queue.Consume.{Request, Consumed, scan, consume_one, report_consumed, consume_from}
use kuttidb.Queue.Consume.Sound.{All-append_right}
use kuttidb.Queue.Invariant.{Holds}
use kuttidb.Queue.Settle.{Settled, ack_one, report_settled, ack_in, nack_one, nack_in}
use kuttidb.Queue.Admin.{Removed, purge_one, report_removed, is_stale, purge_in}
use kuttidb.Replay.Traces.{AreLasting, TracesTo, Traces-trans, failed_before}
use kuttidb.Replay.Reaping.{reap_queue-Traces}
use kuttidb.Replay.Messages.{accept-Traces, scan-Traces}
use kuttidb.Replay.Settled.{ack_one-Traces, nack_one-Traces, purge_one-Traces}
use kuttidb.Replay.Agrees.{Agrees, Traces-Agrees}

abbrev pub IsPlain : Queue → Type 0
IsPlain q = (q.dlq_name ≡ []) × AreLasting (messages q)

abbrev pub IsGood : Store → Type 0
IsGood s = Agrees s × All IsPlain s.queues

pub Traces-IsGood :
    (name : List ℕ) (q q' : Queue) (s s' : Store)
    → find_queue name s.queues ≡ some q
    → IsGood s
    → TracesTo s q s' q'
    → IsGood (write_back s' q')
Traces-IsGood name q q' s s' found g tr = (
  Traces-Agrees name q q' s s' found tr g.0,
  update_queue-All IsPlain q'.name q' s'.queues (subst (All IsPlain) (sym tr.queues) g.1)
      (tr.same.dlq_name ∙ (find_queue-All IsPlain name s.queues q g.1 found).0, tr.lasting),
)

-- A change of the log that adds no record.
pub wal-IsGood :
    (s : Store) (w : Wal)
    → w.records ≡ s.wal.records
    → (s.wal.failed ≡ true → w.failed ≡ true)
    → IsGood s
    → IsGood (record s { wal = w })
wal-IsGood s w records mono g = (λ h. rw records (g.0 (failed_before s.wal w mono h)), g.1)

wait_durable-unlogged :
    (w : Wal) (target : ℕ)
    → ((wait_durable w target).0.records ≡ w.records)
      × (w.failed ≡ true → (wait_durable w target).0.failed ≡ true)
unfolding wait_durable
wait_durable-unlogged w target = (ground arith, ground arith)

pub wait_written-IsGood :
    (seq_before : ℕ) (s : Store) → IsGood s → IsGood (wait_written seq_before s).0
unfolding wait_written
wait_written-IsGood seq_before s g =
    let u = wait_durable-unlogged s.wal s.wal.wal_seq in
    if_cases (λ (r : Store × Bool). IsGood r.0) (s.wal.wal_seq == seq_before) _ _ (λ _. g)
      (λ _. wal-IsGood s (wait_durable s.wal s.wal.wal_seq).0 (u.0) (u.1) g)

report_published-IsGood :
    (seq_before : ℕ) (r : Store × Queue × Option ℕ)
    → IsGood (write_back r.0 r.1)
    → IsGood (report_published seq_before r).0
unfolding report_published
report_published-IsGood seq_before (s, q, none) g = g
report_published-IsGood seq_before (s, q, some id) g =
    wait_written-IsGood seq_before (write_back s q) g

report_consumed-IsGood :
    (r : Store × Queue × Consumed) → IsGood (write_back r.0 r.1) → IsGood (report_consumed r).0
unfolding report_consumed
report_consumed-IsGood (s, q, Consumed.failed) g = g
report_consumed-IsGood (s, q, Consumed.nothing) g = g
report_consumed-IsGood (s, q, Consumed.delivered d) g =
    let u = wait_durable-unlogged s.wal s.wal.wal_seq in
    if_cases (λ (r : Store × Consumed). IsGood r.0) (not q.durable) _ _ (λ _. g)
      (λ _. wal-IsGood (write_back s q) (wait_durable s.wal s.wal.wal_seq).0 (u.0) (u.1) g)

pub report_removed-IsGood :
    (seq_before : ℕ) (r : Store × Queue × Removed)
    → IsGood (write_back r.0 r.1)
    → IsGood (report_removed seq_before r).0
unfolding report_removed
report_removed-IsGood seq_before (s, q, Removed.removed n) g =
    wait_written-IsGood seq_before (write_back s q) g
report_removed-IsGood seq_before (s, q, Removed.error) g = g
report_removed-IsGood seq_before (s, q, Removed.absent) g = g
report_removed-IsGood seq_before (s, q, Removed.stale) g = g
report_removed-IsGood seq_before (s, q, Removed.routes_remain) g = g

-- Ids are left for what a call may do to this queue.
abbrev pub HasIdsFor : Store → Queue → Type 0
HasIdsFor s q = s.next_id + 2 * length (messages q) + 1 < u64_mod

module _ (s : Store) (name : List ℕ) (hs : IsSound s) (g : IsGood s) where
  sound_at : (q : Queue) → find_queue name s.queues ≡ some q → IsQueueOf s.next_id q
  sound_at q e = find_queue-All (IsQueueOf s.next_id) name s.queues q hs e

  IsPlain-at : (q : Queue) → find_queue name s.queues ≡ some q → IsPlain q
  IsPlain-at q e = find_queue-All IsPlain name s.queues q g.1 e

  pub publish_to-IsGood :
      (o : Option Queue) (held : List (List ℕ)) (t : Clocks) (payload : List ℕ)
      → find_queue name s.queues ≡ o
      → IsGood (publish_to o held t s payload 0).0
  unfolding publish_to publish_one
  publish_to-IsGood none held t payload e = g
  publish_to-IsGood (some q) held t payload e =
      let reap = reap_queue-Traces (q.name ∷ held) t s q (sound_at q e) (IsPlain-at q e).1 in
      let s' = (reap_queue (q.name ∷ held) t s q).0 in
      let q' = (reap_queue (q.name ∷ held) t s q).1 in
      let out = accept t s' q' payload 0 in
      report_published-IsGood s.wal.wal_seq out (
        Traces-IsGood name q out.1 s out.0 e g
          (Traces-trans reap (accept-Traces t s' q' payload reap.lasting)))

  pub consume_from-IsGood :
      (o : Option Queue) (held : List (List ℕ)) (t : Clocks) (r : Request)
      → ((q : Queue) → o ≡ some q → HasIdsFor s q)
      → find_queue name s.queues ≡ o
      → IsGood (consume_from o held t r s).0
  unfolding consume_from consume_one
  consume_from-IsGood none held t r few e = g
  consume_from-IsGood (some q) held t r few e =
      let names = q.name ∷ held in
      let reap = reap_queue-Traces names t s q (sound_at q e) (IsPlain-at q e).1 in
      let k = reap_queue-Keeps names t s q hs (sound_at q e) (omega (arith, few q refl)) in
      let s' = (reap_queue names t s q).0 in
      let q' = (reap_queue names t s q).1 in
      let out = scan names t r s' q' none q'.from_hint in
      report_consumed-IsGood out (
        Traces-IsGood name q out.1 s out.0 e g (
          Traces-trans reap (
            scan-Traces t r names s' q' none q'.from_hint
              (All-append_right (Holds q') q'.before q'.from_hint
                (AllHeld-messages q' k.queue.consistent))
              reap.lasting (reap.same.dlq_name ∙ (IsPlain-at q e).0))))

  report_settled-IsGood :
      (r : Store × Queue × Settled) → IsGood (write_back r.0 r.1) → IsGood (report_settled r).0
  unfolding report_settled
  report_settled-IsGood r h = h

  pub ack_in-IsGood :
      (o : Option Queue) (tag owner : ℕ)
      → find_queue name s.queues ≡ o
      → IsGood (ack_in o s tag owner).0
  unfolding ack_in
  ack_in-IsGood none tag owner e = g
  ack_in-IsGood (some q) tag owner e =
      let out = ack_one s q tag owner in
      report_settled-IsGood out (
        Traces-IsGood name q out.1 s out.0 e g
          (ack_one-Traces s q (IsPlain-at q e).1 tag owner (sound_at q e)))

  pub nack_in-IsGood :
      (o : Option Queue) (held : List (List ℕ)) (t : Clocks) (tag owner : ℕ) (requeue : Bool)
      (delay_ms : ℕ)
      → find_queue name s.queues ≡ o
      → IsGood (nack_in o held t s tag owner requeue delay_ms).0
  unfolding nack_in
  nack_in-IsGood none held t tag owner requeue delay_ms e = g
  nack_in-IsGood (some q) held t tag owner requeue delay_ms e =
      let out = nack_one (q.name ∷ held) t s q tag owner requeue delay_ms in
      report_settled-IsGood out (
        Traces-IsGood name q out.1 s out.0 e g (
          nack_one-Traces s q (IsPlain-at q e).1 (q.name ∷ held) t tag owner requeue delay_ms
            (sound_at q e) (IsPlain-at q e).0))

  pub purge_in-IsGood :
      (o : Option Queue) (expected : Option ℕ)
      → find_queue name s.queues ≡ o
      → IsGood (purge_in o s expected).0
  unfolding purge_in
  purge_in-IsGood none expected e = g
  purge_in-IsGood (some q) expected e =
      if_cases (λ (r : Store × Removed). IsGood r.0) (is_stale expected q) _ _ (λ _. g)
        (λ _. report_removed-IsGood s.wal.wal_seq (purge_one s q) (
          Traces-IsGood name q (purge_one s q).1 s (purge_one s q).0 e g
            (purge_one-Traces s q (IsPlain-at q e).1)))
