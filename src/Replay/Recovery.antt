-- ===== src/Replay/Recovery.antt =====
-- Runs, and what a restart makes of their log.
use kuttidb.Base.{
  ℕ, ◌≡◌, refl, ◌∙◌, Bool, true, false, not, ◌||◌, Option, some, List, [], arith, if_cases, ltb,
  length, ◌==◌,
}
use kuttidb.Wal.{Wal}
use kuttidb.Queue.{Store, find_queue, queue_message_max}
use kuttidb.Queue.Sound.{find_queue-All, IsSound}
use kuttidb.Queue.Publish.{is_name, queue_publish}
use kuttidb.Queue.Consume.{queue_consume_for_owner}
use kuttidb.Queue.Settle.{Settled, queue_ack_for_owner, queue_nack_for_owner_delay}
use kuttidb.Queue.Admin.{
  Removed, bad_policy, queue_declare_ex, queue_purge_checked, queue_delete_if_revision,
}
use kuttidb.Queue.Steps.{Call, perform, empty_store, HasRoom, IsReachable, reachable-IsSound}
use kuttidb.Replay.Run.{replay}
use kuttidb.Replay.Spec.{KeptQueue, kept_queues, kept_run}
use kuttidb.Replay.Refines.{kept_result}
use kuttidb.Replay.Whole.{replay-kept_run}
use kuttidb.Replay.Calls.{
  IsGood, HasIdsFor, publish_to-IsGood, consume_from-IsGood, ack_in-IsGood, nack_in-IsGood,
  purge_in-IsGood,
}
use kuttidb.Replay.Declared.{declare_or_compare-IsGood, delete_in-IsGood}

-- A declaration without a dead-letter policy, a publish without a time to live, or another call.
abbrev pub IsPlainCall : Call → Type 0
IsPlainCall (Call.declare name durable max_depth dlq max_deliveries) = dlq ≡ []
IsPlainCall (Call.publish held t name payload ttl_ms) = ttl_ms ≡ 0
IsPlainCall (Call.consume held t r name) = Unit
IsPlainCall (Call.ack name tag owner) = Unit
IsPlainCall (Call.nack held t name tag owner requeue delay_ms) = Unit
IsPlainCall (Call.purge name expected) = Unit
IsPlainCall (Call.delete name expected) = Unit

-- The stores that runs of such calls lead to from an empty store with an empty log.
pub data IsPlainRun : Store → Type 0 where
  at_start : (w : Wal) → w.records ≡ [] → IsPlainRun (empty_store w)
  after :
      {s : Store} → IsPlainRun s → HasRoom s → (c : Call) → IsPlainCall c → IsPlainRun (perform c s)

IsPlainRun-IsReachable : {s : Store} → IsPlainRun s → IsReachable s
IsPlainRun-IsReachable (IsPlainRun.at_start w e) = IsReachable.at_start w
IsPlainRun-IsReachable (IsPlainRun.after run room c plain) =
    IsReachable.after (IsPlainRun-IsReachable run) room c

module _ (s : Store) (hs : IsSound s) (g : IsGood s) (room : HasRoom s) where
  declare-IsGood :
      (name : List ℕ) (durable : Bool) (max_depth max_deliveries : ℕ)
      → IsGood (queue_declare_ex s name durable max_depth [] max_deliveries).0
  unfolding queue_declare_ex bad_policy
  declare-IsGood name durable max_depth max_deliveries =
      if_cases (λ (r : Store × Bool). IsGood r.0) (not (is_name name) || not (max_deliveries == 0))
        _ _ (λ _. g)
        (λ ok.
          let none_given : max_deliveries ≡ 0 = ground (arith, ok) in
          rw none_given
            (declare_or_compare-IsGood s name g (find_queue name s.queues) durable max_depth refl))

  perform-IsGood : (c : Call) → IsPlainCall c → IsGood (perform c s)
  unfolding perform queue_publish queue_consume_for_owner queue_ack_for_owner
      queue_nack_for_owner_delay queue_purge_checked queue_delete_if_revision
  perform-IsGood (Call.declare name durable max_depth dlq max_deliveries) plain =
      rw plain (declare-IsGood name durable max_depth max_deliveries)
  perform-IsGood (Call.publish held t name payload ttl_ms) plain = rw plain (
      if_cases (λ (r : Store × Option ℕ). IsGood r.0)
        (not (is_name name) || ltb queue_message_max (length payload)) _ _ (λ _. g)
        (λ _. publish_to-IsGood s name hs g (find_queue name s.queues) held t payload refl))
  perform-IsGood (Call.consume held t r name) plain =
      consume_from-IsGood s name hs g (find_queue name s.queues) held t r
        (λ q e. find_queue-All (HasIdsFor s) name s.queues q room.0 e) refl
  perform-IsGood (Call.ack name tag owner) plain =
      if_cases (λ (r : Store × Settled). IsGood r.0) (tag == 0) _ _ (λ _. g)
        (λ _. ack_in-IsGood s name hs g (find_queue name s.queues) tag owner refl)
  perform-IsGood (Call.nack held t name tag owner requeue delay_ms) plain =
      if_cases (λ (r : Store × Settled). IsGood r.0) (tag == 0) _ _ (λ _. g)
        (λ _.
          nack_in-IsGood s name hs g (find_queue name s.queues) held t tag owner requeue delay_ms
            refl)
  perform-IsGood (Call.purge name expected) plain =
      if_cases (λ (r : Store × Removed). IsGood r.0) (not (is_name name)) _ _ (λ _. g)
        (λ _. purge_in-IsGood s name hs g (find_queue name s.queues) expected refl)
  perform-IsGood (Call.delete name expected) plain =
      if_cases (λ (r : Store × Removed). IsGood r.0) (not (is_name name)) _ _ (λ _. g)
        (λ _. delete_in-IsGood s name (find_queue name s.queues) expected g refl)

plain_run-IsGood : {s : Store} → IsPlainRun s → IsGood s
unfolding kept_run kept_queues
plain_run-IsGood (IsPlainRun.at_start w e) = (λ h. rw e (tt, refl), tt)
plain_run-IsGood (IsPlainRun.after {s} run room c plain) =
    perform-IsGood s (reachable-IsSound (IsPlainRun-IsReachable run)) (plain_run-IsGood run) room c
      plain

kept_result-some :
    (t : Store × Bool) (ks : List KeptQueue)
    → kept_result t ≡ some ks
    → (t.1 ≡ true) × (kept_queues t.0.queues ≡ ks)
kept_result-some (s, true) ks e = (refl, cc e)
kept_result-some (s, false) ks e = cc e

-- A run from an empty log, whose queues have no dead-letter policy and whose messages have no time to
-- live, ids left at each call, and whatever the disk answered: if the log has not failed, then a
-- replay of its records into an empty store takes all of them, and ends with the durable queues of
-- the run in their order, each with the same bound, the same messages in the same order, and for each
-- message the same id, payload and count of deliveries.
pub replay-recovers :
    {s : Store} (w : Wal)
    → IsPlainRun s
    → s.wal.failed ≡ false
    → ((replay s.wal.records (empty_store w)).1 ≡ true)
      × (kept_queues (replay s.wal.records (empty_store w)).0.queues ≡ kept_queues s.queues)
replay-recovers {s} w run sound =
    let a = (plain_run-IsGood run).0 sound in
    kept_result-some (replay s.wal.records (empty_store w)) (kept_queues s.queues)
      (replay-kept_run s.wal.records (empty_store w) a.0 tt ∙ (unfold kept_queues in a.1))
