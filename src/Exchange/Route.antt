-- ===== src/Exchange/Route.antt =====
-- src/queue.c: `exchange_resolve_locked` and `exchange_publish`. A target is the name of a live
-- queue; two targets are the same queue where their names are the same.
pub mod Targets
pub mod Resolved
use kuttidb.Base.{
  ℕ, ◌+◌, ◌*◌, ◌^◌, Bool, true, false, not, ◌&&◌, ◌||◌, Option, none, some, List, [], ◌∷◌, ◌++◌,
  ◌==◌, leb, bytes_eq, if◌then◌else◌, length, ltb, add64,
}
use kuttidb.Wal.{Op}
use kuttidb.Topic.{topic_matches}
use kuttidb.Queue.{
  Queue, Binding, Exchange, ExchangeType, Store, Clocks, find_queue, write_back, is_empty,
  queue_message_max,
}
use kuttidb.Queue.Messages.{append_message}
use kuttidb.Queue.DeadLetter.{append_log, is_held}
use kuttidb.Queue.Reap.{reap_queue}
use kuttidb.Queue.Publish.{is_full, expiry, wait_written}
use kuttidb.Exchange.{
  exchange_name_max, routing_key_max, exchange_bindings_max, find_exchange, update_exchange,
}

-- The binding lets a message with this key through.
abbrev pub binding_matches : ExchangeType → List ℕ → Binding → Bool
binding_matches ExchangeType.direct key b = bytes_eq b.key key
binding_matches ExchangeType.fanout key b = true
binding_matches ExchangeType.topic key b = topic_matches b.key key

abbrev pub is_live : Option Queue → Bool
is_live none = false
is_live (some _) = true

-- One more target, unless it is there or the array is full.
abbrev pub add_target : List (List ℕ) → List ℕ → List (List ℕ)
add_target targets name =
    if not (is_held name targets) && ltb (length targets) exchange_bindings_max
    then targets ++ name ∷ []
    else targets

-- The walk over the bindings.
unfoldable pub collect :
    List Queue → ExchangeType → List ℕ → List Binding → List (List ℕ) → List (List ℕ)
collect queues kind key [] targets = targets
collect queues kind key (b ∷ bs) targets =
    if binding_matches kind key b && is_live (find_queue b.queue queues)
    then collect queues kind key bs (add_target targets b.queue)
    else collect queues kind key bs targets

-- The targets through one exchange.
abbrev pub targets_of : Store → Exchange → List ℕ → List (List ℕ)
targets_of s e key = collect s.queues e.kind key e.bindings []

-- Without a target, the alternate exchange is tried once.
unfoldable pub through_alternate : Option Exchange → Store → List ℕ → List (List ℕ)
through_alternate none s key = []
through_alternate (some alternate) s key = targets_of s alternate key

abbrev pub or_alternate : List (List ℕ) → Store → Exchange → List ℕ → List (List ℕ)
or_alternate (t ∷ ts) s e key = t ∷ ts
or_alternate [] s e key =
    if is_empty e.ae_name then [] else through_alternate (find_exchange e.ae_name s.exchanges) s key

unfoldable pub resolve_exchange : Option Exchange → Store → List ℕ → Option (List (List ℕ))
resolve_exchange none s key = none
resolve_exchange (some e) s key = some (or_alternate (targets_of s e key) s e key)

-- The default exchange has the empty name; nothing for an exchange that is not there.
unfoldable pub exchange_resolve : Store → List ℕ → List ℕ → Option (List (List ℕ))
exchange_resolve s name key =
    if is_empty name
    then (if not (is_empty key) && is_live (find_queue key s.queues)
        then some (key ∷ [])
        else some [])
    else resolve_exchange (find_exchange name s.exchanges) s key

-- The counters of the exchange that was addressed.
abbrev pub count_attempt : Exchange → Bool → Exchange
count_attempt e unroutable = record e {
  publish_attempt_count = add64 e.publish_attempt_count 1;
  unroutable_count = if unroutable then add64 e.unroutable_count 1 else e.unroutable_count;
}

unfoldable pub counted : Option Exchange → Store → Bool → Store
counted none s unroutable = s
counted (some e) s unroutable = record s {
  exchanges = update_exchange e.name (count_attempt e unroutable) s.exchanges;
}

-- The targets in the order that their locks are taken: an insertion sort on `lock_id`.
abbrev pub lock_id_of : List Queue → List ℕ → ℕ
lock_id_of queues name = elim (find_queue name queues) [ none ↦ 0 | some q ↦ q.lock_id ]

unfoldable pub insert_target : List Queue → List ℕ → List (List ℕ) → List (List ℕ)
insert_target queues name [] = name ∷ []
insert_target queues name (t ∷ ts) =
    if ltb (lock_id_of queues name) (lock_id_of queues t)
    then name ∷ t ∷ ts
    else t ∷ insert_target queues name ts

unfoldable pub sort_targets : List Queue → List (List ℕ) → List (List ℕ) → List (List ℕ)
sort_targets queues sorted [] = sorted
sort_targets queues sorted (t ∷ ts) = sort_targets queues (insert_target queues t sorted) ts

-- Reap one target; false where it is full.
unfoldable pub check_target : Option Queue → List (List ℕ) → Clocks → Store → Store × Bool
check_target none held t s = (s, false)
check_target (some q) held t s =
    let (s', q') = reap_queue held t s q in (write_back s' q', not (is_full q'))

-- Every target is checked before anything is written.
unfoldable pub check_targets : List (List ℕ) → Clocks → Store × Bool → List (List ℕ) → Store × Bool
check_targets held t (s, false) names = (s, false)
check_targets held t (s, true) [] = (s, true)
check_targets held t (s, true) (n ∷ ns) =
    check_targets held t (check_target (find_queue n s.queues) held t s) ns

unfoldable pub deliver_logged : Store × Bool → Queue → ℕ → ℕ → List ℕ → Store × Bool
deliver_logged (s, false) q id expires_ms payload = (s, false)
deliver_logged (s, true) q id expires_ms payload =
    (write_back s (append_message q id expires_ms payload), true)

unfoldable pub deliver_target : Option Queue → Store → ℕ → List ℕ → Store × Bool
deliver_target none s expires_ms payload = (s, false)
deliver_target (some q) s expires_ms payload =
    deliver_logged
      (append_log (record s { next_id = add64 s.next_id 1 }) Op.log_publish q s.next_id expires_ms
        payload)
      q s.next_id expires_ms payload

unfoldable pub deliver_targets : Store × Bool → ℕ → List ℕ → List (List ℕ) → Store × Bool
deliver_targets (s, false) expires_ms payload names = (s, false)
deliver_targets (s, true) expires_ms payload [] = (s, true)
deliver_targets (s, true) expires_ms payload (n ∷ ns) =
    deliver_targets (deliver_target (find_queue n s.queues) s expires_ms payload) expires_ms payload
      ns

-- What the caller learns: an error, or the number of targets.
unfoldable pub report_routed : ℕ → Store × Bool → ℕ → Store × Option ℕ
report_routed seq_before (s, false) count = (s, none)
report_routed seq_before (s, true) count =
    let (s', ok) = wait_written seq_before s in (s', if ok then some count else none)

unfoldable pub deliver_checked :
    Clocks → Store × Bool → List ℕ → ℕ → List (List ℕ) → Store × Option ℕ
deliver_checked t (s, false) payload ttl_ms names = (s, none)
deliver_checked t (s, true) payload ttl_ms names =
    report_routed s.wal.wal_seq (deliver_targets (s, true) (expiry t ttl_ms) payload names)
      (length names)

unfoldable pub publish_resolved :
    Clocks → Store → Option (List (List ℕ)) → Option Exchange → List ℕ → ℕ → Store × Option ℕ
publish_resolved t s none source payload ttl_ms = (s, none)
publish_resolved t s (some []) source payload ttl_ms =
    let s' = counted source s true in (record s' { unroutable = add64 s'.unroutable 1 }, some 0)
publish_resolved t s (some (n ∷ ns)) source payload ttl_ms =
    let names = sort_targets s.queues [] (n ∷ ns) in
    deliver_checked t (check_targets names t (counted source s false, true) names) payload ttl_ms
      names

unfoldable pub exchange_publish : Clocks → Store → List ℕ → List ℕ → List ℕ → ℕ → Store × Option ℕ
exchange_publish t s name key payload ttl_ms =
    if ltb exchange_name_max (length name)
      || (ltb routing_key_max (length key) || ltb queue_message_max (length payload))
    then (s, none)
    else publish_resolved t s (exchange_resolve s name key)
        (if is_empty name then none else find_exchange name s.exchanges) payload ttl_ms
