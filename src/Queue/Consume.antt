-- ===== src/Queue/Consume.antt =====
-- src/queue.c: `queue_consume_for_owner`, one delivery from a queue.
pub mod Sound
pub mod Exact
pub mod Handoff
pub mod Stranded
use kuttidb.Base.{
  ℕ, ◌+◌, ◌%◌, ◌^◌, Bool, true, false, ◌&&◌, ◌||◌, not, Option, none, some, List, [], ◌∷◌, ◌==◌,
  leb, ltb, if◌then◌else◌, length, add64, add32,
}
use kuttidb.Wal.{Op, Wal, wait_durable}
use kuttidb.Queue.{
  Message, MessageState, Queue, Store, Clocks, find_queue, write_back, is_empty, log_header,
}
use kuttidb.Queue.Lists.{is_ready, hint_at, hint_after}
use kuttidb.Queue.Messages.{replace_message}
use kuttidb.Queue.DeadLetter.{Routing, append_log, dead_letter}
use kuttidb.Queue.Reap.{reap_queue}

-- `QueueMessage`.
pub record Delivery : Type 0 where
  pub id : ℕ
  pub delivery_tag : ℕ
  pub owner : ℕ
  pub payload : List ℕ
  pub delivery_count : ℕ
  pub redelivered : Bool
  pub visibility_deadline_ms : ℕ

-- The return codes -1, 0 and 1.
pub data Consumed : Type 0 where
  failed nothing : Consumed
  delivered : Delivery → Consumed

-- What the caller asks for.
pub record Request : Type 0 where
  pub visibility_ms : ℕ
  pub owner : ℕ

-- A tag is never 0.
abbrev pub fresh_tag : ℕ → ℕ
fresh_tag next = if next == 0 then add64 next 1 else next

-- The message as it is in flight.
unfoldable pub lease_message : Clocks → Request → Queue → Message → ℕ → Message
lease_message t r q m tag = record m {
  state = MessageState.inflight;
  timer = add64 t.lease (if r.visibility_ms == 0 then 30000 else r.visibility_ms);
  deliveries = add32 m.deliveries 1;
  owner = r.owner;
  delivery_tag = tag;
  wal_footprint =
      if q.durable then add32 m.wal_footprint (log_header + length q.name) else m.wal_footprint;
}

-- Where the hint goes: to the first delayed message that the scan met, or past the delivered one.
unfoldable pub set_hint : Option ℕ → ℕ → Queue → Queue
set_hint none id q = hint_after id q
set_hint (some delayed) id q = hint_at delayed q

-- The queue once a message is in flight as `m'`.
unfoldable pub mark_inflight : Queue → Option ℕ → Message → Queue
unfolding set_hint
mark_inflight q first_delayed m' = set_hint first_delayed m'.id (record (replace_message q m') {
  revision = add64 q.revision 1;
  earliest_visibility =
      if ltb m'.timer q.earliest_visibility then m'.timer else q.earliest_visibility;
  inflight_count = q.inflight_count + 1;
  live_bytes = if q.durable then add64 q.live_bytes (log_header + length q.name) else q.live_bytes;
})

abbrev pub to_delivery : Message → Delivery
to_delivery m = record {
  id = m.id;
  delivery_tag = m.delivery_tag;
  owner = m.owner;
  payload = m.payload;
  delivery_count = m.deliveries;
  redelivered = ltb 1 m.deliveries;
  visibility_deadline_ms = m.timer;
}

-- After the record: the message is handed over under a fresh tag, or the call fails.
unfoldable pub hand_over :
    Clocks → Request → Store × Bool → Queue → Option ℕ → Message → Store × Queue × Consumed
hand_over t r (s, false) q first_delayed m = (s, q, Consumed.failed)
hand_over t r (s, true) q first_delayed m =
    let tag = fresh_tag s.next_delivery_tag in
    let m' = lease_message t r q m tag in
    (
      record s { next_delivery_tag = add64 tag 1 },
      mark_inflight q first_delayed m',
      Consumed.delivered (to_delivery m'),
    )

unfoldable pub deliver :
    Clocks → Request → Store → Queue → Option ℕ → Message → Store × Queue × Consumed
deliver t r s q first_delayed m =
    hand_over t r (append_log s Op.log_deliver q m.id 0 []) q first_delayed m

-- The limit on deliveries is used up, and there is a dead-letter queue for the message.
unfoldable pub is_exhausted : Queue → Message → Bool
is_exhausted q m =
    not (q.max_deliveries == 0) && not (is_empty q.dlq_name) && leb q.max_deliveries m.deliveries

unfoldable pub is_due : ℕ → Message → Bool
is_due now m = is_ready m && leb m.timer now

unfoldable pub is_delayed : ℕ → Message → Bool
is_delayed now m = is_ready m && ltb now m.timer

-- `if (delayed && !first_delayed) first_delayed = message`.
unfoldable pub note_delayed : Option ℕ → Bool → ℕ → Option ℕ
note_delayed (some id) b id' = some id
note_delayed none b id' = if b then some id' else none

-- What the routing of an exhausted message leads to.
abbrev pub on_routing {ℓ} : {A : Type ℓ} → Routing → A → A → A
on_routing Routing.kept next delivery = next
on_routing Routing.routed next delivery = next
on_routing Routing.no_policy next delivery = delivery

-- The scan from the hint on. Only the message at hand changes, so it meets the messages as they
-- were.
unfoldable pub scan :
    List (List ℕ)
    → Clocks
    → Request
    → Store
    → Queue
    → Option ℕ
    → List Message
    → Store × Queue × Consumed
scan held t r s q first_delayed [] = (s, q, Consumed.nothing)
scan held t r s q first_delayed (m ∷ ms) =
    let (s', q', routing) = dead_letter held s q m false in
    let pass = scan held t r s q (note_delayed first_delayed (is_delayed t.now m) m.id) ms in
    let after_routing = scan held t r s' q' first_delayed ms in
    if not (is_due t.now m)
    then pass
    else if is_exhausted q m
    then on_routing routing after_routing (deliver t r s' q' first_delayed m)
    else deliver t r s q first_delayed m

unfoldable pub consume_one :
    List (List ℕ) → Clocks → Request → Store → Queue → Store × Queue × Consumed
consume_one held t r s q =
    let (s', q') = reap_queue held t s q in scan held t r s' q' none q'.from_hint

-- The handoff waits until its record is durable.
unfoldable pub report_consumed : Store × Queue × Consumed → Store × Consumed
report_consumed (s, q, Consumed.failed) = (write_back s q, Consumed.failed)
report_consumed (s, q, Consumed.nothing) = (write_back s q, Consumed.nothing)
report_consumed (s, q, Consumed.delivered d) =
    let (w, ok) = wait_durable s.wal s.wal.wal_seq in
    let s' = write_back s q in
    if not q.durable
    then (s', Consumed.delivered d)
    else (record s' { wal = w }, if ok then Consumed.delivered d else Consumed.failed)

unfoldable pub consume_from :
    Option Queue → List (List ℕ) → Clocks → Request → Store → Store × Consumed
consume_from none held t r s = (s, Consumed.failed)
consume_from (some q) held t r s = report_consumed (consume_one (q.name ∷ held) t r s q)

unfoldable pub queue_consume_for_owner :
    List (List ℕ) → Clocks → Request → Store → List ℕ → Store × Consumed
queue_consume_for_owner held t r s name = consume_from (find_queue name s.queues) held t r s
