-- ===== src/Exchange.antt =====
-- src/queue.c: the exchanges. Lookup of an exchange and of a binding, and a new binding.
pub mod Admin
pub mod Route
use kuttidb.Base.{
  ℕ, ◌+◌, ◌-◌, ◌/◌, ◌%◌, Bool, true, false, not, ◌&&◌, ◌||◌, Option, none, some, List, [], ◌∷◌,
  ◌++◌, ◌==◌, leb, bytes_eq, if◌then◌else◌, length, ltb,
}
use kuttidb.Queue.{Binding, Exchange, ExchangeType, Store}

abbrev pub exchange_name_max : ℕ
exchange_name_max = 255

abbrev pub routing_key_max : ℕ
routing_key_max = 255

abbrev pub exchange_bindings_max : ℕ
exchange_bindings_max = 1024

abbrev pub same_type : ExchangeType → ExchangeType → Bool
same_type ExchangeType.direct ExchangeType.direct = true
same_type ExchangeType.fanout ExchangeType.fanout = true
same_type ExchangeType.topic ExchangeType.topic = true
same_type a b = false

abbrev pub type_byte : ExchangeType → ℕ
type_byte ExchangeType.direct = 0
type_byte ExchangeType.fanout = 1
type_byte ExchangeType.topic = 2

unfoldable pub find_exchange : List ℕ → List Exchange → Option Exchange
find_exchange name [] = none
find_exchange name (e ∷ es) = if bytes_eq e.name name then some e else find_exchange name es

-- Writing through the pointer that `find_exchange` returned.
unfoldable pub update_exchange : List ℕ → Exchange → List Exchange → List Exchange
update_exchange name e' [] = []
update_exchange name e' (e ∷ es) =
    if bytes_eq e.name name then e' ∷ es else e ∷ update_exchange name e' es

abbrev pub is_binding : List ℕ → List ℕ → Binding → Bool
is_binding queue key b = bytes_eq b.queue queue && bytes_eq b.key key

unfoldable pub has_binding : List ℕ → List ℕ → List Binding → Bool
has_binding queue key [] = false
has_binding queue key (b ∷ bs) = is_binding queue key b || has_binding queue key bs

-- Unlinking the binding that was found.
unfoldable pub remove_binding : List ℕ → List ℕ → List Binding → List Binding
remove_binding queue key [] = []
remove_binding queue key (b ∷ bs) =
    if is_binding queue key b then bs else b ∷ remove_binding queue key bs

-- The new binding stands in front; false for -1.
unfoldable pub add_binding : Exchange → List ℕ → List ℕ → Exchange × Bool
add_binding e queue key = if leb exchange_bindings_max e.binding_count then (e, false) else (
  record e {
    bindings = (record { queue = queue; key = key }) ∷ e.bindings;
    binding_count = e.binding_count + 1;
  },
  true,
)

unfoldable pub exchange_payload_valid : List ℕ → List ℕ → Bool
exchange_payload_valid name key =
    ltb 0 (length name) && leb (length name) exchange_name_max && leb (length key) routing_key_max

-- `[queue_len:2][queue][key_len:2][key]`
unfoldable pub binding_payload : List ℕ → List ℕ → List ℕ
binding_payload queue key =
    (length queue % 256) ∷ (length queue / 256 % 256) ∷ queue
    ++ (length key % 256) ∷ (length key / 256 % 256) ∷ key
