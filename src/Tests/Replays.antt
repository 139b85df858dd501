-- ===== src/Tests/Replays.antt =====
-- Replay at concrete values.
use kuttidb.Base.{ℕ, ◌≡◌, refl, true, false, List, [], ◌∷◌, arith}
use kuttidb.Wal.{Op, LogRecord}
use kuttidb.Queue.{Store, ExchangeType, find_queue}
use kuttidb.Queue.Publish.{
  queue_publish, publish_to, publish_one, report_published, wait_written, accept, append_published,
  is_full, is_name,
}
use kuttidb.Queue.Admin.{
  queue_declare_ex, declare_or_compare, declare_new, create_declared, bad_policy, declare_payload,
}
use kuttidb.Queue.DeadLetter.{append_log}
use kuttidb.Queue.Messages.{append_message}
use kuttidb.Queue.Reap.{reap_queue}
use kuttidb.Queue.Steps.{Call, perform, empty_store, HasRoom}
use kuttidb.Queue.{create_queue}
use kuttidb.Wal.{append_record, append_synced, wait_durable}
use kuttidb.Base.{bytes_eq}
use kuttidb.Exchange.{
  find_exchange, exchange_payload_valid, has_binding, add_binding, update_exchange, binding_payload,
}
use kuttidb.Exchange.Admin.{
  exchange_declare, declare_exchange, create_logged, create_exchange, log_exchange,
  exdeclare_payload, exchange_bind, bind_at, bind_logged, bind_added,
}
use kuttidb.Exchange.Admin.Steps.{ExchangeCall, perform_exchange}
use kuttidb.Replay.Run.{replay}
use kuttidb.Replay.Spec.{kept_queues, kept_run}
use kuttidb.Replay.Refines.{kept_result}
use kuttidb.Replay.Whole.{replay-kept_run}
use kuttidb.Replay.Recovery.{IsPlainRun, replay-recovers}
use kuttidb.Replay.TopologyRun.{IsTopologyRun, replay-rebuilds}
use kuttidb.Tests.Values.{wal, q_name, clocks, ready_store}

abbrev record_named : Op → ℕ → List ℕ → LogRecord
record_named op id payload = record {
  op = op;
  durable = true;
  name = q_name;
  id = id;
  aux = 0;
  payload = payload;
}

-- Two messages are published, the first one is delivered, and the second one is acknowledged.
abbrev history : List LogRecord
history =
    record_named Op.log_declare 0 []
    ∷ record_named Op.log_publish 1 (7 ∷ [])
    ∷ record_named Op.log_publish 2 (8 ∷ [])
    ∷ record_named Op.log_deliver 1 []
    ∷ record_named Op.log_ack 2 []
    ∷ []

kept_example : kept_result (replay history (empty_store wal)) ≡ kept_run history (kept_queues [])
kept_example =
    replay-kept_run history (empty_store wal)
      ((refl, refl), ((refl, refl), ((refl, refl), ((refl, refl), ((refl, refl), tt))))) tt

abbrev declares : Call
declares = Call.declare q_name true 0 [] 0

abbrev publishes : Call
publishes = Call.publish [] clocks q_name (7 ∷ []) 0

abbrev declared : Store
declared = perform declares (empty_store wal)

declared_room : HasRoom declared
unfolding perform queue_declare_ex declare_or_compare declare_new create_declared create_queue
    wait_written wait_durable append_record find_queue bad_policy is_name declare_payload bytes_eq
declared_room = omega arith

abbrev published : Store
published = perform publishes declared

published_run : IsPlainRun published
published_run =
    IsPlainRun.after
      (IsPlainRun.after (IsPlainRun.at_start wal refl) (tt, omega arith) declares refl)
      declared_room publishes refl

published_sound : published.wal.failed ≡ false
unfolding perform queue_declare_ex declare_or_compare declare_new create_declared create_queue
    wait_written wait_durable append_record find_queue bad_policy is_name declare_payload bytes_eq
    queue_publish publish_to publish_one report_published accept append_published append_message
    is_full append_log reap_queue
published_sound = refl

-- Both records are in the log.
published_log :
    published.wal.records
    ≡ record_named Op.log_declare 0 [] ∷ record_named Op.log_publish 1 (7 ∷ []) ∷ []
unfolding perform queue_declare_ex declare_or_compare declare_new create_declared create_queue
    wait_written wait_durable append_record find_queue bad_policy is_name declare_payload bytes_eq
    queue_publish publish_to publish_one report_published accept append_published append_message
    is_full append_log reap_queue
published_log = refl

recovered_example :
    ((replay published.wal.records (empty_store wal)).1 ≡ true)
    × (kept_queues (replay published.wal.records (empty_store wal)).0.queues
        ≡ kept_queues published.queues)
recovered_example = replay-recovers {s = published} wal published_run published_sound

-- "x", and a binding of it.
abbrev exchange_declares : ExchangeCall
exchange_declares = ExchangeCall.declare (120 ∷ []) true ExchangeType.direct []

abbrev binds : ExchangeCall
binds = ExchangeCall.bind (120 ∷ []) q_name (107 ∷ [])

abbrev bare : Store
bare = record ready_store { exchanges = []; wal = wal }

abbrev with_exchange : Store
with_exchange = perform_exchange exchange_declares bare

bound_run : IsTopologyRun (perform_exchange binds with_exchange)
unfolding perform_exchange exchange_declare declare_exchange create_logged create_exchange
    log_exchange exdeclare_payload append_synced find_exchange exchange_payload_valid
bound_run =
    IsTopologyRun.after
      (IsTopologyRun.after (IsTopologyRun.at_start bare refl refl) tt exchange_declares refl)
      ((refl, omega arith), tt) binds tt

bound_sound : (perform_exchange binds with_exchange).wal.failed ≡ false
unfolding perform_exchange exchange_declare declare_exchange create_logged create_exchange
    log_exchange exdeclare_payload append_synced find_exchange exchange_payload_valid exchange_bind
    bind_at bind_logged bind_added add_binding has_binding find_queue is_name bytes_eq
    update_exchange binding_payload
bound_sound = refl

rebuilt_example :
    ((replay (perform_exchange binds with_exchange).wal.records bare).1 ≡ true)
    × ((replay (perform_exchange binds with_exchange).wal.records bare).0.exchanges
        ≡ (perform_exchange binds with_exchange).exchanges)
rebuilt_example =
    replay-rebuilds {s = perform_exchange binds with_exchange} bare bound_run bound_sound refl
