-- ===== src/Tests/Examples.antt =====
-- The theorems at concrete values.
use kuttidb.Base.{
  total, ◌≡◌, ◌≢◌, ◌⊎◌, ◌↔◌, ◌≤◌, refl, true, false, [], ◌∷◌, some, none, arith, length, bytes_eq,
  inl,
}
use kuttidb.Topic.{topic_matches, topic_words_max}
use kuttidb.Topic.Spec.{words, Matches}
use kuttidb.Topic.Matching.{topic_matches-Matches}
use kuttidb.Wal.{Op}
use kuttidb.Queue.{find_queue}
use kuttidb.Queue.Sound.{IsQueueOf, IsSound}
use kuttidb.Queue.DeadLetter.{dead_letter}
use kuttidb.Queue.DeadLetter.Exact.{IsRouted, dead_letter-IsRouted}
use kuttidb.Queue.DeadLetter.Logged.{HasBoth, dead_letter_unlogged, dead_letter-HasBoth}
use kuttidb.Queue.Publish.{expiry, queue_publish}
use kuttidb.Queue.Publish.Exact.{IsPublished, queue_publish-IsPublished}
use kuttidb.Queue.Publish.Durable.{IsWritten, publish_record, queue_publish-IsWritten}
use kuttidb.Queue.Consume.{Consumed, queue_consume_for_owner}
use kuttidb.Queue.Settle.{Settled, queue_ack_for_owner, queue_nack_for_owner_delay}
use kuttidb.Queue.Lists.{find_id}
use kuttidb.Queue.Invariant.{Holds}
use kuttidb.Queue.Places.{IsTaken}
use kuttidb.Queue.Settle.Ends.{IsUntouched, IsSettled}
use kuttidb.Queue.Settle.Exact.{queue_ack_for_owner-Ends}
use kuttidb.Queue.Settle.Requeue.{due_again, IsRetried, queue_nack_for_owner_delay-Ends}
use kuttidb.Queue.Admin.{queue_declare_ex, queue_purge_checked}
use kuttidb.Queue.Admin.Exact.{
  IsDeclared, IsPurged, queue_declare_ex-IsDeclared, queue_purge_checked-IsPurged,
}
use kuttidb.Wal.{append_record}
use kuttidb.Queue.Steps.{Call, perform, empty_store, IsReachable, reachable-IsSound}
use kuttidb.Queue.Logging.Failed.{IsBroken, perform_failed, failed_log-refuses}
use kuttidb.Queue.Lists.{find_id}
use kuttidb.Queue.Consume.{scan}
use kuttidb.Queue.Consume.Stranded.{scan-stranded}
use kuttidb.Tests.Runs.{refused_run, deliver_log_run, used_due, next_due, used_up, next_free}
use kuttidb.Tests.Values.{
  used_message, next_message, used_queue, used_store, wal, q_name, d_name, ready_message,
  ready_queue, policy_queue, dead_queue, volatile_dead_queue, ready_store, flying_store,
  flying_queue, policy_store, volatile_store, failed_store, failed_wal, clocks, request,
}
use kuttidb.Tests.Runs.{
  delivery, publish_run, publish_length, declare_run, purge_run, dead_letter_run,
}

ready_queue_sound : IsQueueOf 2 ready_queue
unfolding total
ready_queue_sound = record {
  consistent = record {
    depth = refl;
    inflight = refl;
    ttl = refl;
    distinct = (tt, tt);
    room = inl refl;
  };
  below = (omega arith, tt);
}

-- "a.*" and "a.b"
topic_example : (topic_matches (97 ∷ 46 ∷ 42 ∷ []) (97 ∷ 46 ∷ 98 ∷ []) ≡ true) ↔ (
    (length (words (97 ∷ 46 ∷ 42 ∷ [])) ≤ topic_words_max)
    × Matches (words (97 ∷ 46 ∷ 42 ∷ [])) (words (97 ∷ 46 ∷ 98 ∷ [])))
topic_example = topic_matches-Matches (97 ∷ 46 ∷ 42 ∷ []) (97 ∷ 46 ∷ 98 ∷ [])

abbrev declares : Call
declares = Call.declare q_name true 0 [] 0

reachable_example : IsSound (perform declares (empty_store wal))
reachable_example =
    reachable-IsSound {s = perform declares (empty_store wal)}
      (IsReachable.after (IsReachable.at_start wal) (tt, omega arith) declares)

flying_queue_sound : IsQueueOf 2 flying_queue
unfolding total
flying_queue_sound = record {
  consistent = record {
    depth = refl;
    inflight = refl;
    ttl = refl;
    distinct = (tt, tt);
    room = inl refl;
  };
  below = (omega arith, tt);
}

ack_example :
    IsUntouched q_name 5 9 flying_store (queue_ack_for_owner flying_store q_name 5 9)
    ⊎ IsSettled Op.log_ack 0 IsTaken flying_store q_name 5 9
        (queue_ack_for_owner flying_store q_name 5 9)
ack_example =
    queue_ack_for_owner-Ends flying_store q_name 5 9 (flying_queue_sound, tt)
      (omega arith, omega arith)

nack_example :
    IsUntouched q_name 5 9 flying_store
      (queue_nack_for_owner_delay [] clocks flying_store q_name 5 9 true 20)
    ⊎ IsSettled Op.log_requeue
        (due_again clocks 20)
        (IsRetried (due_again clocks 20))
        flying_store
        q_name
        5
        9
        (queue_nack_for_owner_delay [] clocks flying_store q_name 5 9 true 20)
nack_example =
    queue_nack_for_owner_delay-Ends clocks flying_store q_name 5 9 20 [] (flying_queue_sound, tt)
      (omega arith, omega arith)

publish_example :
    IsPublished [] clocks ready_store q_name
      (8 ∷ [])
      0
      2
      (queue_publish [] clocks ready_store q_name (8 ∷ []) 0).0
publish_example = queue_publish-IsPublished [] clocks ready_store q_name (8 ∷ []) 0 2 publish_run

ready_found : find_queue q_name ready_store.queues ≡ some ready_queue
unfolding find_queue bytes_eq
ready_found = refl

synced_example :
    IsWritten
      (publish_record ready_queue 2 (expiry clocks 0) (8 ∷ []))
      (queue_publish [] clocks ready_store q_name (8 ∷ []) 0).0
synced_example =
    queue_publish-IsWritten [] clocks ready_store q_name (8 ∷ []) 0 2 ready_queue ready_found refl
      refl (omega arith) publish_length publish_run

ready_held : Holds policy_queue ready_message
unfolding find_id
ready_held = refl

routed_example :
    IsRouted policy_store policy_queue ready_message false
      (dead_letter (q_name ∷ []) policy_store policy_queue ready_message false)
routed_example =
    dead_letter-IsRouted policy_store policy_queue ready_message false ready_held (q_name ∷ [])
      dead_letter_run

dead_found : find_queue d_name policy_store.queues ≡ some dead_queue
unfolding find_queue bytes_eq
dead_found = refl

volatile_found : find_queue d_name volatile_store.queues ≡ some volatile_dead_queue
unfolding find_queue bytes_eq
volatile_found = refl

both_example :
    HasBoth
      (q_name ∷ [])
      policy_store
      policy_queue
      dead_queue
      ready_message
      false
      refl
      dead_found
      (dead_letter (q_name ∷ []) policy_store policy_queue ready_message false).0.wal
both_example =
    dead_letter-HasBoth (q_name ∷ []) policy_store policy_queue dead_queue ready_message false refl
      dead_found (omega arith, omega arith) refl refl dead_letter_run

unlogged_example :
    (dead_letter (q_name ∷ []) volatile_store policy_queue ready_message false).0.wal ≡ wal
unlogged_example =
    dead_letter_unlogged (q_name ∷ []) volatile_store policy_queue volatile_dead_queue ready_message
      false refl volatile_found refl

declare_example : IsDeclared d_name true [] 0 (queue_declare_ex ready_store d_name true 0 [] 0).0
declare_example = queue_declare_ex-IsDeclared ready_store d_name true 0 [] 0 declare_run

purge_example : IsPurged ready_store q_name 1 (queue_purge_checked ready_store q_name none).0
purge_example =
    queue_purge_checked-IsPurged ready_store q_name none 1 (ready_queue_sound, tt) purge_run

failed_example : (perform declares failed_store).wal.failed ≡ true
failed_example = perform_failed declares failed_store refl

refused_write : IsBroken failed_wal
unfolding append_record
refused_write =
    IsBroken.write_refused (record wal { disk = false ∷ [] }) (publish_record ready_queue 2 0 [])
      refl refl refl refl

refused_example :
    ((queue_publish [] clocks failed_store q_name (8 ∷ []) 0).1 ≡ none)
    × ((queue_consume_for_owner [] clocks request failed_store q_name).1
        ≢ Consumed.delivered delivery)
    × ((queue_ack_for_owner failed_store q_name 5 9).1 ≢ Settled.settled)
refused_example =
    failed_log-refuses failed_store [] [] clocks request delivery q_name (8 ∷ []) 0 5 9 ready_queue
      refused_write ready_found refl

stranded_example :
    find_id 1
      (scan
        (q_name ∷ d_name ∷ [])
        clocks
        request
        used_store
        used_queue
        none
        (used_message ∷ next_message ∷ [])).1.before
    ≡ some used_message
stranded_example =
    scan-stranded (q_name ∷ d_name ∷ []) clocks request used_store used_queue used_message
      next_message [] (next_message ∷ []) refl (λ e. absurd (cc e)) used_due used_up refused_run
      next_due next_free deliver_log_run
