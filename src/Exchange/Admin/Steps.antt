-- ===== src/Exchange/Admin/Steps.antt =====
-- src/queue.c: the calls on the topology, one after another.
use kuttidb.Base.{ℕ, Bool, not, ◌&&◌, ◌||◌, List, [], Option, if_cases, length, ltb, bytes_eq}
use kuttidb.Queue.{ExchangeType, Store, is_empty}
use kuttidb.Queue.Publish.{is_name}
use kuttidb.Exchange.{exchange_name_max, find_exchange, exchange_payload_valid}
use kuttidb.Exchange.Admin.{
  exchange_declare, exchange_bind, Changed, exchange_unbind_checked, exchange_delete_if_revision,
  exchange_set_alternate_if_revision,
}
use kuttidb.Exchange.Admin.Counts.{
  AreTidy, TidyAfter, find_exchange-All, declare_exchange-AreTidy, bind_at-AreTidy,
  unbind_at-AreTidy, delete_at-AreTidy, alternate_at-AreTidy,
}

-- One call that changes the topology.
pub data ExchangeCall : Type 0 where
  declare : List ℕ → Bool → ExchangeType → List ℕ → ExchangeCall
  bind : List ℕ → List ℕ → List ℕ → ExchangeCall
  unbind : List ℕ → List ℕ → List ℕ → Option ℕ → ExchangeCall
  delete : List ℕ → ℕ → ExchangeCall
  set_alternate : List ℕ → List ℕ → ℕ → ExchangeCall

unfoldable pub perform_exchange : ExchangeCall → Store → Store
perform_exchange (ExchangeCall.declare name durable kind ae) s =
    (exchange_declare s name durable kind ae).0
perform_exchange (ExchangeCall.bind name queue key) s = (exchange_bind s name queue key).0
perform_exchange (ExchangeCall.unbind name queue key expected) s =
    (exchange_unbind_checked s name queue key expected).0
perform_exchange (ExchangeCall.delete name expected) s =
    (exchange_delete_if_revision s name expected).0
perform_exchange (ExchangeCall.set_alternate name alternate expected) s =
    (exchange_set_alternate_if_revision s name alternate expected).0

-- Whatever a call on the topology returns, every exchange's counter says how many bindings it has,
-- and no exchange has more than it may have.
pub perform_exchange-AreTidy :
    (c : ExchangeCall) (s : Store) → AreTidy s → AreTidy (perform_exchange c s)
unfolding perform_exchange exchange_declare exchange_bind exchange_unbind_checked
    exchange_delete_if_revision exchange_set_alternate_if_revision
perform_exchange-AreTidy (ExchangeCall.declare name durable kind ae) s h =
    if_cases (TidyAfter {A = Bool})
      (not (exchange_payload_valid name [])
        || (not (is_empty ae) && (ltb exchange_name_max (length ae) || bytes_eq ae name)))
      _ _ (λ _. h) (λ _. declare_exchange-AreTidy _ s name durable kind ae h)
perform_exchange-AreTidy (ExchangeCall.bind name queue key) s h =
    if_cases (TidyAfter {A = Bool}) (not (exchange_payload_valid name key) || not (is_name queue)) _
      _ (λ _. h)
      (λ _.
        bind_at-AreTidy (find_exchange name s.exchanges) _ s queue key h
          (λ e. find_exchange-All name s.exchanges e h))
perform_exchange-AreTidy (ExchangeCall.unbind name queue key expected) s h =
    if_cases (TidyAfter {A = Changed})
      (not (exchange_payload_valid name key) || not (is_name queue)) _ _ (λ _. h)
      (λ _.
        unbind_at-AreTidy (find_exchange name s.exchanges) s queue key expected h
          (λ e. find_exchange-All name s.exchanges e h))
perform_exchange-AreTidy (ExchangeCall.delete name expected) s h =
    if_cases (TidyAfter {A = Changed}) (not (exchange_payload_valid name [])) _ _ (λ _. h)
      (λ _. delete_at-AreTidy _ s expected h)
perform_exchange-AreTidy (ExchangeCall.set_alternate name alternate expected) s h =
    if_cases (TidyAfter {A = Changed})
      (not (exchange_payload_valid name [])
        || (is_empty alternate
            || (ltb exchange_name_max (length alternate) || bytes_eq alternate name)))
      _ _ (λ _. h)
      (λ _.
        alternate_at-AreTidy (find_exchange name s.exchanges) s alternate expected h
          (λ e. find_exchange-All name s.exchanges e h))
