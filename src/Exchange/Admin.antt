-- ===== src/Exchange/Admin.antt =====
-- src/queue.c: `exchange_declare`, `exchange_bind`, `exchange_unbind_checked`,
-- `exchange_delete_if_revision` and `exchange_set_alternate_if_revision`.
pub mod Counts
pub mod Steps
pub mod Full
use kuttidb.Base.{
  ℕ, ◌+◌, ◌-◌, ◌/◌, ◌%◌, Bool, true, false, not, ◌&&◌, ◌||◌, Option, none, some, List, [], ◌∷◌,
  ◌++◌, ◌==◌, leb, bytes_eq, if◌then◌else◌, length, ltb, add64,
}
use kuttidb.Wal.{Op, Wal, LogRecord, append_synced}
use kuttidb.Topic.{topic_word_count, topic_words_max}
use kuttidb.Queue.{Queue, Exchange, ExchangeType, Store, find_queue, is_empty, queue_name_max}
use kuttidb.Queue.Publish.{is_name}
use kuttidb.Exchange.{
  exchange_name_max, exchange_bindings_max, same_type, type_byte, find_exchange, update_exchange,
  has_binding, remove_binding, add_binding, exchange_payload_valid, binding_payload,
}

-- A record of an exchange, with its fsync.
unfoldable pub log_exchange : Store → Op → Bool → List ℕ → ℕ → List ℕ → Store × Bool
log_exchange s op durable name aux payload =
    let (w, ok) =
      append_synced s.wal (record {
        op = op;
        durable = durable;
        name = name;
        id = 0;
        aux = aux;
        payload = payload;
      }) in
    (record s { wal = w }, ok)

-- `[type:1]` or `[type:1][ae_len:2][ae]`
unfoldable pub exdeclare_payload : ExchangeType → List ℕ → List ℕ
exdeclare_payload kind ae =
    if is_empty ae
    then type_byte kind ∷ []
    else type_byte kind ∷ (length ae % 256) ∷ (length ae / 256 % 256) ∷ ae

unfoldable pub same_exchange : Exchange → Bool → ExchangeType → List ℕ → Bool
same_exchange e durable kind ae =
    (if e.durable then durable else not durable) && same_type e.kind kind && bytes_eq e.ae_name ae

unfoldable pub create_exchange : Store → List ℕ → Bool → ExchangeType → List ℕ → Store
create_exchange s name durable kind ae = record s {
  exchanges =
      (record {
        name = name;
        kind = kind;
        durable = durable;
        ae_name = ae;
        bindings = [];
        binding_count = 0;
        revision = 1;
        publish_attempt_count = 0;
        unroutable_count = 0;
      })
      ∷ s.exchanges;
}

unfoldable pub create_logged : Store × Bool → List ℕ → Bool → ExchangeType → List ℕ → Store × Bool
create_logged (s, false) name durable kind ae = (s, false)
create_logged (s, true) name durable kind ae = (create_exchange s name durable kind ae, true)

unfoldable pub declare_exchange :
    Option Exchange → Store → List ℕ → Bool → ExchangeType → List ℕ → Store × Bool
declare_exchange (some e) s name durable kind ae = (s, same_exchange e durable kind ae)
declare_exchange none s name durable kind ae =
    create_logged (log_exchange s Op.log_exdeclare durable name 1 (exdeclare_payload kind ae)) name
      durable kind ae

unfoldable pub exchange_declare : Store → List ℕ → Bool → ExchangeType → List ℕ → Store × Bool
exchange_declare s name durable kind ae =
    if not (exchange_payload_valid name [])
      || (not (is_empty ae) && (ltb exchange_name_max (length ae) || bytes_eq ae name))
    then (s, false)
    else declare_exchange (find_exchange name s.exchanges) s name durable kind ae

abbrev pub put_exchange : Store → Exchange → Store
put_exchange s e = record s { exchanges = update_exchange e.name e s.exchanges }

-- The new revision only counts where the binding was added.
unfoldable pub bind_added : Store → Exchange × Bool → ℕ → Store × Bool
bind_added s (e, false) revision = (s, false)
bind_added s (e, true) revision = (put_exchange s (record e { revision = revision }), true)

unfoldable pub bind_logged : Store × Bool → Exchange → List ℕ → List ℕ → Store × Bool
bind_logged (s, false) e queue key = (s, false)
bind_logged (s, true) e queue key = bind_added s (add_binding e queue key) (add64 e.revision 1)

-- A pattern that the matcher has no room for.
abbrev pub is_too_long : Exchange → List ℕ → Bool
is_too_long e key =
    same_type e.kind ExchangeType.topic && ltb topic_words_max (topic_word_count key)

unfoldable pub bind_at : Option Exchange → Option Queue → Store → List ℕ → List ℕ → Store × Bool
bind_at none target s queue key = (s, false)
bind_at (some e) none s queue key = (s, false)
bind_at (some e) (some target) s queue key =
    if has_binding queue key e.bindings
    then (s, true)
    else if is_too_long e key
    then (s, false)
    else bind_logged
        (log_exchange s Op.log_exbind e.durable e.name (add64 e.revision 1)
          (binding_payload queue key))
        e queue key

-- True for 0.
unfoldable pub exchange_bind : Store → List ℕ → List ℕ → List ℕ → Store × Bool
exchange_bind s name queue key =
    if not (exchange_payload_valid name key) || not (is_name queue)
    then (s, false)
    else bind_at (find_exchange name s.exchanges) (find_queue queue s.queues) s queue key

-- The return codes -1, 0, 1, 2, 3 and 4.
pub data Changed : Type 0 where
  error absent done stale bindings_remain alternate_remains : Changed

unfoldable pub unbind_logged : Store × Bool → Exchange → List ℕ → List ℕ → Store × Changed
unbind_logged (s, false) e queue key = (s, Changed.error)
unbind_logged (s, true) e queue key = (
  put_exchange s (record e {
    bindings = remove_binding queue key e.bindings;
    binding_count = e.binding_count - 1;
    revision = add64 e.revision 1;
  }),
  Changed.done,
)

abbrev pub differs : Option ℕ → ℕ → Bool
differs none revision = false
differs (some expected) revision = not (revision == expected)

unfoldable pub unbind_at : Option Exchange → Store → List ℕ → List ℕ → Option ℕ → Store × Changed
unbind_at none s queue key expected = (s, Changed.absent)
unbind_at (some e) s queue key expected =
    if differs expected e.revision
    then (s, Changed.stale)
    else if not (has_binding queue key e.bindings)
    then (s, Changed.absent)
    else unbind_logged
        (log_exchange s Op.log_exunbind e.durable e.name (add64 e.revision 1)
          (binding_payload queue key))
        e queue key

unfoldable pub exchange_unbind_checked :
    Store → List ℕ → List ℕ → List ℕ → Option ℕ → Store × Changed
exchange_unbind_checked s name queue key expected =
    if not (exchange_payload_valid name key) || not (is_name queue)
    then (s, Changed.error)
    else unbind_at (find_exchange name s.exchanges) s queue key expected

-- Another exchange falls back to this one.
unfoldable pub is_alternate : List ℕ → List Exchange → Bool
is_alternate name [] = false
is_alternate name (e ∷ es) =
    (not (bytes_eq e.name name) && bytes_eq e.ae_name name) || is_alternate name es

unfoldable pub remove_exchange : List ℕ → List Exchange → List Exchange
remove_exchange name [] = []
remove_exchange name (e ∷ es) = if bytes_eq e.name name then es else e ∷ remove_exchange name es

unfoldable pub delete_exchange_logged : Store × Bool → List ℕ → Store × Changed
delete_exchange_logged (s, false) name = (s, Changed.error)
delete_exchange_logged (s, true) name =
    (record s { exchanges = remove_exchange name s.exchanges }, Changed.done)

unfoldable pub delete_at : Option Exchange → Store → ℕ → Store × Changed
delete_at none s expected = (s, Changed.absent)
delete_at (some e) s expected =
    if not (e.revision == expected)
    then (s, Changed.stale)
    else if not (e.binding_count == 0)
    then (s, Changed.bindings_remain)
    else if is_alternate e.name s.exchanges
    then (s, Changed.alternate_remains)
    else delete_exchange_logged (log_exchange s Op.log_exdelete e.durable e.name 0 []) e.name

unfoldable pub exchange_delete_if_revision : Store → List ℕ → ℕ → Store × Changed
exchange_delete_if_revision s name expected =
    if not (exchange_payload_valid name [])
    then (s, Changed.error)
    else delete_at (find_exchange name s.exchanges) s expected

unfoldable pub alternate_logged : Store × Bool → Exchange → List ℕ → Store × Changed
alternate_logged (s, false) e alternate = (s, Changed.error)
alternate_logged (s, true) e alternate =
    (put_exchange s (record e { ae_name = alternate; revision = add64 e.revision 1 }), Changed.done)

unfoldable pub alternate_at : Option Exchange → Store → List ℕ → ℕ → Store × Changed
alternate_at none s alternate expected = (s, Changed.absent)
alternate_at (some e) s alternate expected =
    if not (e.revision == expected)
    then (s, Changed.stale)
    else if bytes_eq e.ae_name alternate
    then (s, Changed.done)
    else alternate_logged
        (log_exchange s Op.log_exupdate e.durable e.name (add64 e.revision 1)
          ((length alternate % 256) ∷ (length alternate / 256 % 256) ∷ alternate))
        e alternate

unfoldable pub exchange_set_alternate_if_revision : Store → List ℕ → List ℕ → ℕ → Store × Changed
exchange_set_alternate_if_revision s name alternate expected =
    if not (exchange_payload_valid name [])
      || (is_empty alternate
          || (ltb exchange_name_max (length alternate) || bytes_eq alternate name))
    then (s, Changed.error)
    else alternate_at (find_exchange name s.exchanges) s alternate expected
