-- ===== src/Replay/Topology.antt =====
-- src/queue.c: what `replay_log` does with a record of an exchange: `apply_exdeclare`,
-- `apply_exbind`, `apply_exdelete` and `apply_exupdate`.
use kuttidb.Base.{
  ℕ, ◌+◌, ◌-◌, Bool, true, false, not, ◌&&◌, ◌||◌, Option, none, some, List, ◌==◌, leb, ltb,
  bytes_eq, if◌then◌else◌, length, take, drop, add64,
}
use kuttidb.Wal.Codec.{get_bytes}
use kuttidb.Queue.{Exchange, ExchangeType, Store, queue_name_max}
use kuttidb.Exchange.{
  exchange_name_max, routing_key_max, find_exchange, has_binding, remove_binding, add_binding,
}
use kuttidb.Exchange.Admin.{same_exchange, create_exchange, put_exchange, remove_exchange}

-- A type above EXCHANGE_TOPIC is refused.
abbrev pub type_of_byte : ℕ → Option ExchangeType
type_of_byte b =
    if b == 0
    then some ExchangeType.direct
    else if b == 1
    then some ExchangeType.fanout
    else if b == 2
    then some ExchangeType.topic
    else none

-- `[type:1]` or `[type:1][ae_len:2][ae]`
unfoldable pub declared_alternate : List ℕ → Option (List ℕ)
declared_alternate payload =
    let plen = length payload in
    let ae_len = if leb 3 plen then get_bytes 2 (drop 1 payload) else 0 in
    if (plen == 1 && ae_len == 0) || (leb 3 plen && plen == 3 + ae_len)
    then some (take ae_len (drop 3 payload))
    else none

-- A declaration keeps the revision that its record has, where it has one.
unfoldable pub revised : Store → List ℕ → ℕ → Option Exchange → Store
revised s name revision none = s
revised s name revision (some e) =
    if revision == 0 then s else put_exchange s (record e { revision = revision })

unfoldable pub exdeclare_replayed :
    Option Exchange → Store → List ℕ → Bool → ℕ → ExchangeType → List ℕ → Store × Bool
unfolding revised
exdeclare_replayed (some e) s name durable revision kind ae = (s, same_exchange e durable kind ae)
exdeclare_replayed none s name durable revision kind ae =
    let s' = create_exchange s name durable kind ae in
    (revised s' name revision (find_exchange name s'.exchanges), true)

unfoldable pub exdeclare_parsed :
    Option ExchangeType → Option (List ℕ) → Store → List ℕ → Bool → ℕ → Store × Bool
exdeclare_parsed none ae s name durable revision = (s, false)
exdeclare_parsed (some kind) none s name durable revision = (s, false)
exdeclare_parsed (some kind) (some ae) s name durable revision =
    exdeclare_replayed (find_exchange name s.exchanges) s name durable revision kind ae

unfoldable pub apply_exdeclare : Store → List ℕ → Bool → ℕ → List ℕ → Store × Bool
unfolding exdeclare_parsed exdeclare_replayed declared_alternate
apply_exdeclare s name durable revision payload =
    if ltb (length payload) 1 || ltb (3 + exchange_name_max) (length payload)
    then (s, false)
    else exdeclare_parsed (type_of_byte (get_bytes 1 payload)) (declared_alternate payload) s name
        durable revision

-- `[queue_len:2][queue][key_len:2][key]`
unfoldable pub bound_pair : List ℕ → Option (List ℕ × List ℕ)
bound_pair payload =
    let plen = length payload in
    let queue_len = get_bytes 2 payload in
    let key_len = get_bytes 2 (drop (2 + queue_len) payload) in
    if ltb plen 4 || ltb (4 + queue_name_max + routing_key_max) plen
    then none
    else if queue_len == 0 || ltb queue_name_max queue_len
    then none
    else if ltb plen (2 + queue_len + 2)
    then none
    else if ltb routing_key_max key_len || not (plen == 2 + queue_len + 2 + key_len)
    then none
    else some (take queue_len (drop 2 payload), take key_len (drop (2 + queue_len + 2) payload))

abbrev pub revision_after : ℕ → Exchange → ℕ
revision_after revision e = if revision == 0 then add64 e.revision 1 else revision

unfoldable pub unbind_replayed : Store → Exchange → ℕ → List ℕ → List ℕ → Store × Bool
unbind_replayed s e revision queue key =
    if has_binding queue key e.bindings
    then (
      put_exchange s (record e {
        bindings = remove_binding queue key e.bindings;
        binding_count = e.binding_count - 1;
        revision = revision_after revision e;
      }),
      true,
    )
    else (s, true)

unfoldable pub bind_added_replayed : Store → Exchange × Bool → ℕ → Store × Bool
bind_added_replayed s (e, false) revision = (s, false)
bind_added_replayed s (e, true) revision =
    (put_exchange s (record e { revision = revision_after revision e }), true)

unfoldable pub bind_replayed : Store → Exchange → ℕ → List ℕ → List ℕ → Store × Bool
unfolding bind_added_replayed
bind_replayed s e revision queue key =
    if has_binding queue key e.bindings
    then (s, true)
    else bind_added_replayed s (add_binding e queue key) revision

unfoldable pub exbind_at :
    Option (List ℕ × List ℕ) → Option Exchange → Store → ℕ → Bool → Store × Bool
exbind_at none o s revision remove = (s, false)
exbind_at (some pair) none s revision remove = (s, false)
exbind_at (some (queue, key)) (some e) s revision remove =
    if remove then unbind_replayed s e revision queue key else bind_replayed s e revision queue key

unfoldable pub apply_exbind : Store → List ℕ → ℕ → List ℕ → Bool → Store × Bool
unfolding exbind_at bound_pair unbind_replayed bind_replayed
apply_exbind s name revision payload remove =
    exbind_at (bound_pair payload) (find_exchange name s.exchanges) s revision remove

unfoldable pub apply_exdelete : Store → List ℕ → Store × Bool
apply_exdelete s name = (record s { exchanges = remove_exchange name s.exchanges }, true)

-- `[alternate_len:2][alternate]`
unfoldable pub updated_alternate : List ℕ → Option (List ℕ)
updated_alternate payload =
    let plen = length payload in
    let alternate_len = get_bytes 2 payload in
    if ltb plen 2 || ltb (2 + exchange_name_max) plen
    then none
    else if alternate_len == 0
        || (not (plen == 2 + alternate_len) || ltb exchange_name_max alternate_len)
    then none
    else some (take alternate_len (drop 2 payload))

unfoldable pub exupdate_at : Option (List ℕ) → Option Exchange → Store → List ℕ → ℕ → Store × Bool
exupdate_at none o s name revision = (s, false)
exupdate_at (some ae) none s name revision = (s, false)
exupdate_at (some ae) (some e) s name revision =
    if bytes_eq ae name
    then (s, false)
    else (put_exchange s (record e { ae_name = ae; revision = revision_after revision e }), true)

unfoldable pub apply_exupdate : Store → List ℕ → ℕ → List ℕ → Store × Bool
unfolding exupdate_at updated_alternate
apply_exupdate s name revision payload =
    exupdate_at (updated_alternate payload) (find_exchange name s.exchanges) s name revision
