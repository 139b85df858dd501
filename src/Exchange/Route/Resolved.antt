-- ===== src/Exchange/Route/Resolved.antt =====
-- What a route resolution returns, on each of its branches.
use mathlib.Core.Path.{subst}
use kuttidb.Base.{
  ℕ, ◌≡◌, refl, true, not, ◌&&◌, List, [], ◌∷◌, ◌++◌, Option, some, none, arith, if_cases, All, ltb,
  length,
}
use kuttidb.Queue.{Queue, Binding, Exchange, ExchangeType, Store, find_queue, is_empty}
use kuttidb.Queue.DeadLetter.{is_held}
use kuttidb.Exchange.{exchange_bindings_max, find_exchange}
use kuttidb.Exchange.Route.{
  binding_matches, is_live, add_target, collect, targets_of, through_alternate, or_alternate,
  resolve_exchange, exchange_resolve,
}
use kuttidb.Exchange.Route.Targets.{IsOnce, targets_of-IsOnce}

-- Each of the names stands for a live queue.
abbrev pub AreLive : List Queue → List (List ℕ) → Type 0
AreLive queues = All (λ (n : List ℕ). is_live (find_queue n queues) ≡ true)

AreLive-append_one :
    (queues : List Queue) (n : List ℕ) (ts : List (List ℕ))
    → AreLive queues ts
    → is_live (find_queue n queues) ≡ true
    → AreLive queues (ts ++ n ∷ [])
AreLive-append_one queues n [] h live = (live, tt)
AreLive-append_one queues n (t ∷ ts) h live = (h.0, AreLive-append_one queues n ts h.1 live)

collect-AreLive :
    (queues : List Queue) (kind : ExchangeType) (key : List ℕ) (bs : List Binding)
    (ts : List (List ℕ))
    → AreLive queues ts
    → AreLive queues (collect queues kind key bs ts)
unfolding collect
collect-AreLive queues kind key [] ts h = h
collect-AreLive queues kind key (b ∷ bs) ts h =
    if_cases (AreLive queues) (binding_matches kind key b && is_live (find_queue b.queue queues)) _
      _
      (λ through. collect-AreLive queues kind key bs (add_target ts b.queue) (
        if_cases (AreLive queues)
          (not (is_held b.queue ts) && ltb (length ts) exchange_bindings_max) _ _
          (λ _. AreLive-append_one queues b.queue ts h (ground (arith, through))) (λ _. h)))
      (λ _. collect-AreLive queues kind key bs ts h)

-- Live queues, each once.
pub record IsRoute (s : Store) (ts : List (List ℕ)) : Type 0 where
  pub live : AreLive s.queues ts
  pub once : IsOnce ts

nowhere-IsRoute : (s : Store) → IsRoute s []
nowhere-IsRoute s = record { live = tt; once = tt }

targets_of-IsRoute : (s : Store) (e : Exchange) (key : List ℕ) → IsRoute s (targets_of s e key)
targets_of-IsRoute s e key = record {
  live = collect-AreLive s.queues e.kind key e.bindings [] tt;
  once = targets_of-IsOnce s e key;
}

through_alternate-IsRoute :
    (o : Option Exchange) (s : Store) (key : List ℕ) → IsRoute s (through_alternate o s key)
unfolding through_alternate
through_alternate-IsRoute none s key = nowhere-IsRoute s
through_alternate-IsRoute (some e) s key = targets_of-IsRoute s e key

or_alternate-IsRoute :
    (ts : List (List ℕ)) (s : Store) (e : Exchange) (key : List ℕ)
    → IsRoute s ts
    → IsRoute s (or_alternate ts s e key)
or_alternate-IsRoute (t ∷ ts) s e key h = h
or_alternate-IsRoute [] s e key h =
    if_cases (IsRoute s) (is_empty e.ae_name) _ _ (λ _. h)
      (λ _. through_alternate-IsRoute (find_exchange e.ae_name s.exchanges) s key)

abbrev Resolves : Store → List (List ℕ) → Option (List (List ℕ)) → Type 0
Resolves s ts o = o ≡ some ts → IsRoute s ts

some-Resolves : (s : Store) (ts us : List (List ℕ)) → IsRoute s us → Resolves s ts (some us)
some-Resolves s ts us h e = let same : us ≡ ts = ground (arith, e) in subst (IsRoute s) same h

resolve_exchange-Resolves :
    (o : Option Exchange) (s : Store) (key : List ℕ) (ts : List (List ℕ))
    → Resolves s ts (resolve_exchange o s key)
unfolding resolve_exchange
resolve_exchange-Resolves none s key ts = λ e. absurd (cc e)
resolve_exchange-Resolves (some e) s key ts =
    some-Resolves s ts _
      (or_alternate-IsRoute (targets_of s e key) s e key (targets_of-IsRoute s e key))

-- A route resolution that does not fail, through the default exchange, the named exchange or its
-- alternate, returns names of live queues only, and none twice.
pub exchange_resolve-IsRoute :
    (s : Store) (name key : List ℕ) (ts : List (List ℕ))
    → exchange_resolve s name key ≡ some ts
    → IsRoute s ts
unfolding exchange_resolve is_held
exchange_resolve-IsRoute s name key ts =
    if_cases (Resolves s ts) (is_empty name) _ _
      (λ _.
        if_cases (Resolves s ts) (not (is_empty key) && is_live (find_queue key s.queues)) _ _
          (λ there.
            some-Resolves s ts (key ∷ [])
              (record { live = (ground (arith, there), tt); once = (refl, tt) }))
          (λ _. some-Resolves s ts [] (nowhere-IsRoute s)))
      (λ _. resolve_exchange-Resolves (find_exchange name s.exchanges) s key ts)
