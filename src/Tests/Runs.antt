-- ===== src/Tests/Runs.antt =====
-- Runs.
use kuttidb.Base.{
  ◌≡◌, refl, true, false, [], ◌∷◌, some, none, bytes_eq, length, u64_mod, arith, ◌<◌,
}
use kuttidb.Wal.{append_record, sync_log, wait_durable}
use kuttidb.Queue.{find_queue, create_queue}
use kuttidb.Queue.Messages.{
  append_message, remove_message, replace_message, remove_all, purge_queue,
}
use kuttidb.Queue.DeadLetter.{
  Routing, append_log, sync_store, is_held, found_or_declared, resolve_dlq, log_routing, refuses,
  move_message, route_copy, route_to, route_resolved, dead_letter,
}
use kuttidb.Queue.Reap.{reap_queue}
use kuttidb.Queue.Publish.{
  is_full, append_published, accept, publish_one, wait_written, is_name, report_published,
  publish_to, queue_publish,
}
use kuttidb.Queue.Consume.{
  Delivery, Consumed, lease_message, set_hint, mark_inflight, hand_over, deliver, is_exhausted,
  is_due, scan, consume_one, report_consumed, consume_from, queue_consume_for_owner,
}
use kuttidb.Queue.Admin.{
  declare_payload, bad_policy, create_declared, declare_new, declare_or_compare, queue_declare_ex,
  Removed, purge_logged, purge_one, report_removed, purge_in, queue_purge_checked,
}
use kuttidb.Wal.{Op}
use kuttidb.Tests.Values.{
  used_message, next_message, used_queue, used_store, q_name, d_name, ready_message, policy_queue,
  ready_store, policy_store, clocks, request,
}

pub publish_run : (queue_publish [] clocks ready_store q_name (8 ∷ []) 0).1 ≡ some 2
unfolding queue_publish publish_to publish_one report_published wait_written wait_durable accept
    append_published append_message is_full is_name append_log append_record find_queue reap_queue
    bytes_eq
publish_run = refl

abbrev pub delivery : Delivery
delivery = record {
  id = 1;
  delivery_tag = 6;
  owner = 9;
  payload = 7 ∷ [];
  delivery_count = 1;
  redelivered = false;
  visibility_deadline_ms = 551;
}

pub consume_run :
    (queue_consume_for_owner [] clocks request ready_store q_name).1 ≡ Consumed.delivered delivery
unfolding queue_consume_for_owner consume_from consume_one scan report_consumed deliver hand_over
    lease_message mark_inflight set_hint wait_durable append_log append_record find_queue reap_queue
    is_due is_exhausted dead_letter replace_message bytes_eq
consume_run = refl

pub declare_run : (queue_declare_ex ready_store d_name true 0 [] 0).1 ≡ true
unfolding queue_declare_ex declare_or_compare declare_new create_declared create_queue wait_written
    wait_durable append_record find_queue bad_policy is_name declare_payload bytes_eq
declare_run = refl

pub purge_run : (queue_purge_checked ready_store q_name none).1 ≡ Removed.removed 1
unfolding queue_purge_checked purge_in purge_one purge_logged purge_queue remove_all remove_message
    report_removed wait_written wait_durable append_log append_record find_queue is_name bytes_eq
purge_run = refl

pub dead_letter_run :
    (dead_letter (q_name ∷ []) policy_store policy_queue ready_message false).2 ≡ Routing.routed
unfolding dead_letter route_resolved resolve_dlq found_or_declared route_to route_copy move_message
    log_routing refuses is_held append_log append_record sync_store sync_log find_queue bytes_eq
dead_letter_run = refl

pub publish_length :
    length (queue_publish [] clocks ready_store q_name (8 ∷ []) 0).0.wal.records < u64_mod
unfolding queue_publish publish_to publish_one report_published wait_written wait_durable accept
    append_published append_message is_full is_name append_log append_record find_queue reap_queue
    bytes_eq
publish_length = omega arith

pub refused_run :
    dead_letter (q_name ∷ d_name ∷ []) used_store used_queue used_message false
    ≡ (used_store, used_queue, Routing.kept)
unfolding dead_letter route_resolved resolve_dlq found_or_declared route_to refuses is_held
    find_queue bytes_eq
refused_run = refl

pub deliver_log_run : (append_log used_store Op.log_deliver used_queue 2 0 []).1 ≡ true
unfolding append_log append_record
deliver_log_run = refl

pub used_due : is_due 100 used_message ≡ true
unfolding is_due
used_due = refl

pub next_due : is_due 100 next_message ≡ true
unfolding is_due
next_due = refl

pub used_up : is_exhausted used_queue used_message ≡ true
unfolding is_exhausted
used_up = refl

pub next_free : is_exhausted used_queue next_message ≡ false
unfolding is_exhausted
next_free = refl
