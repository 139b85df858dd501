-- ===== src/Tests/Exchanges.antt =====
-- The theorems on exchanges at concrete values.
use kuttidb.Base.{ℕ, zero, suc, ◌≡◌, refl, true, false, List, [], ◌∷◌, some, arith, bytes_eq}
use kuttidb.Wal.Durability.{IsDurable}
use kuttidb.Queue.{Binding, Exchange, ExchangeType, Store, find_queue}
use kuttidb.Queue.DeadLetter.{is_held}
use kuttidb.Queue.Publish.{is_name}
use kuttidb.Exchange.{find_exchange, has_binding, exchange_payload_valid}
use kuttidb.Exchange.Admin.{exchange_bind}
use kuttidb.Exchange.Admin.Counts.{AreTidy}
use kuttidb.Exchange.Admin.Steps.{ExchangeCall, perform_exchange, perform_exchange-AreTidy}
use kuttidb.Exchange.Admin.Full.{bind_record, exchange_bind_full}
use kuttidb.Exchange.Route.{targets_of, collect, resolve_exchange, exchange_resolve}
use kuttidb.Exchange.Route.Resolved.{IsRoute, exchange_resolve-IsRoute}
use kuttidb.Exchange.Route.Targets.{routes_to, targets_of-routes_to}
use kuttidb.Tests.Values.{q_name, d_name, ready_queue, ready_store}

-- The key "k"
abbrev key : List ℕ
key = 107 ∷ []

abbrev binding : Binding
binding = record { queue = q_name; key = key }

-- "e"
abbrev exchange : Exchange
exchange = record {
  name = 101 ∷ [];
  kind = ExchangeType.direct;
  durable = true;
  ae_name = [];
  bindings = binding ∷ (record { queue = d_name; key = key }) ∷ binding ∷ [];
  binding_count = 3;
  revision = 4;
  publish_attempt_count = 0;
  unroutable_count = 0;
}

unfoldable many : ℕ → List Binding
many zero = []
many (suc n) = binding ∷ many n

abbrev full_exchange : Exchange
full_exchange = record exchange { bindings = many 1024; binding_count = 1024 }

abbrev routed_store : Store
routed_store = record ready_store { exchanges = exchange ∷ [] }

abbrev full_store : Store
full_store = record ready_store { exchanges = full_exchange ∷ [] }

routes_example :
    is_held q_name (targets_of routed_store exchange key)
    ≡ routes_to routed_store.queues ExchangeType.direct key q_name exchange.bindings
routes_example = targets_of-routes_to routed_store exchange key q_name (omega arith)

abbrev binds : ExchangeCall
binds = ExchangeCall.bind (101 ∷ []) q_name (120 ∷ [])

tidy_example : AreTidy (perform_exchange binds routed_store)
tidy_example =
    perform_exchange-AreTidy binds routed_store (record { count = refl; room = omega arith }, tt)

full_valid : exchange_payload_valid (101 ∷ []) (120 ∷ []) ≡ true
unfolding exchange_payload_valid
full_valid = refl

queue_valid : is_name q_name ≡ true
unfolding is_name
queue_valid = refl

full_found : find_exchange (101 ∷ []) full_store.exchanges ≡ some full_exchange
unfolding find_exchange bytes_eq
full_found = refl

full_queue : find_queue q_name full_store.queues ≡ some ready_queue
unfolding find_queue bytes_eq
full_queue = refl

many_without : (n : ℕ) → has_binding q_name (120 ∷ []) (many n) ≡ false
unfolding has_binding bytes_eq many
many_without zero = refl
many_without (suc n) = many_without n

full_example :
    ((exchange_bind full_store (101 ∷ []) q_name (120 ∷ [])).1 ≡ false)
    × ((exchange_bind full_store (101 ∷ []) q_name (120 ∷ [])).0.wal.records
        ≡ bind_record full_exchange q_name (120 ∷ []) ∷ [])
    × IsDurable (exchange_bind full_store (101 ∷ []) q_name (120 ∷ [])).0.wal
full_example =
    exchange_bind_full full_store (101 ∷ []) q_name (120 ∷ []) full_exchange ready_queue
      (ground (arith, full_valid, queue_valid)) full_found full_queue (many_without 1024) refl
      (omega arith) refl refl refl refl

resolved : exchange_resolve routed_store (101 ∷ []) key ≡ some (q_name ∷ [])
unfolding exchange_resolve resolve_exchange collect find_exchange find_queue bytes_eq is_held
resolved = refl

resolve_example : IsRoute routed_store (q_name ∷ [])
resolve_example = exchange_resolve-IsRoute routed_store (101 ∷ []) key (q_name ∷ []) resolved
