-- ===== src/Queue/DeadLetter/Logged.antt =====
-- Which records a routing writes.
use mathlib.Core.Path.{subst}
use mathlib.Core.List.{append_assoc}
use kuttidb.Base.{
  ℕ, ◌≡◌, refl, sym, ◌∙◌, Bool, true, false, List, [], ◌∷◌, ◌++◌, some, arith, if_cases,
  if◌then◌else◌, add64,
}
use kuttidb.Wal.{Op, LogRecord, Wal, append_record, sync_log}
use kuttidb.Wal.Durability.{IsDurable, HasNumbers}
use kuttidb.Queue.{Message, Queue, Store, find_queue, is_empty}
use kuttidb.Queue.DeadLetter.{
  is_held, metadata_lock, Routing, append_log, sync_store, found_or_declared, resolve_dlq,
  move_message, refuses, log_routing, route_copy, route_to, route_resolved, dead_letter,
}

module _ (held : List (List ℕ)) (s : Store) (q dlq : Queue) (m : Message) (clear_expiry : Bool)
    (policy : is_empty q.dlq_name ≡ false) (found : find_queue q.dlq_name s.queues ≡ some dlq) where
  abbrev expiry : ℕ
  expiry = if clear_expiry then 0 else m.expires_ms

  -- With the dead-letter queue at hand.
  resolved_there : dead_letter held s q m clear_expiry ≡ (
      if is_held metadata_lock held
      then (s, q, Routing.kept)
      else route_to held s q m clear_expiry dlq)
  unfolding dead_letter resolve_dlq found_or_declared route_resolved
  resolved_there = rw (policy, found) refl

  move_message-wal :
      (r : Store × Bool) (id expires_ms : ℕ)
      → (move_message r q m id expires_ms dlq).0.wal ≡ r.0.wal
  unfolding move_message
  move_message-wal (s', false) id expires_ms = refl
  move_message-wal (s', true) id expires_ms = refl

  move_message_routed :
      (r : Store × Bool) (id expires_ms : ℕ)
      → (move_message r q m id expires_ms dlq).2 ≡ Routing.routed
      → r.1 ≡ true
  unfolding move_message
  move_message_routed (s', false) id expires_ms h = absurd (cc h)
  move_message_routed (s', true) id expires_ms h = refl

  log_routing_unlogged :
      (s' : Store) (id expires_ms : ℕ)
      → dlq.durable ≡ false
      → (log_routing s' q dlq m id expires_ms).0.wal ≡ s'.wal
  unfolding log_routing
  log_routing_unlogged s' id expires_ms volatile = rw volatile refl

  -- A routing to a dead-letter queue that is there and is not durable writes no record, whether the
  -- message is moved or not and whether or not its own queue is durable.
  pub dead_letter_unlogged :
      dlq.durable ≡ false → (dead_letter held s q m clear_expiry).0.wal ≡ s.wal
  unfolding route_to route_copy
  dead_letter_unlogged volatile = rw resolved_there (
      if_cases (λ (r : Store × Queue × Routing). r.0.wal ≡ s.wal) (is_held metadata_lock held) _ _
        (λ _. refl)
        (λ _.
          if_cases (λ (r : Store × Queue × Routing). r.0.wal ≡ s.wal) (refuses held dlq) _ _
            (λ _. refl)
            (λ _.
              move_message-wal _ s.next_id expiry
              ∙ log_routing_unlogged (record s { next_id = add64 s.next_id 1 }) s.next_id expiry
                  volatile)))

  abbrev pub copy_record : LogRecord
  copy_record = record {
    op = Op.log_publish;
    durable = true;
    name = dlq.name;
    id = s.next_id;
    aux = expiry;
    payload = m.payload;
  }

  abbrev pub ack_record : LogRecord
  ack_record = record {
    op = Op.log_ack;
    durable = true;
    name = q.name;
    id = m.id;
    aux = 0;
    payload = [];
  }

  -- Both records are the new ones of the log, and on disk.
  abbrev pub HasBoth : Wal → Type 0
  HasBoth w = (w.records ≡ s.wal.records ++ copy_record ∷ ack_record ∷ []) × IsDurable w

  log_routing-HasBoth :
      HasNumbers s.wal
      → dlq.durable ≡ true
      → q.durable ≡ true
      → (log_routing (record s { next_id = add64 s.next_id 1 }) q dlq m s.next_id expiry).1 ≡ true
      → HasBoth
          (log_routing (record s { next_id = add64 s.next_id 1 }) q dlq m s.next_id expiry).0.wal
  unfolding log_routing append_log sync_store append_record sync_log
  log_routing-HasBoth numbers durable source ok =
      ground (
        arith,
        numbers.0,
        numbers.1,
        append_assoc s.wal.records (copy_record ∷ []) (ack_record ∷ []),
      )

  -- Where both queues are durable and the log has room for two more record numbers, a routing to a
  -- dead-letter queue that is there, and that reports the message as routed, has added to the log the
  -- record of the copy and then the record that acknowledges the message, and no other, and a
  -- successful fsync has covered both.
  pub dead_letter-HasBoth :
      HasNumbers s.wal
      → dlq.durable ≡ true
      → q.durable ≡ true
      → (dead_letter held s q m clear_expiry).2 ≡ Routing.routed
      → HasBoth (dead_letter held s q m clear_expiry).0.wal
  unfolding route_to route_copy
  dead_letter-HasBoth numbers durable source = rw resolved_there (
      if_cases (λ (r : Store × Queue × Routing). r.2 ≡ Routing.routed → HasBoth r.0.wal)
        (is_held metadata_lock held) _ _ (λ _ h. absurd (cc h))
        (λ _.
          if_cases (λ (r : Store × Queue × Routing). r.2 ≡ Routing.routed → HasBoth r.0.wal)
            (refuses held dlq) _ _ (λ _ h. absurd (cc h))
            (λ _ h.
              let l =
                log_routing (record s { next_id = add64 s.next_id 1 }) q dlq m s.next_id expiry in
              subst HasBoth (sym (move_message-wal l s.next_id expiry)) (
                log_routing-HasBoth numbers durable source
                  (move_message_routed l s.next_id expiry h)))))
