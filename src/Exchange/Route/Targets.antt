-- ===== src/Exchange/Route/Targets.antt =====
-- Which queues an exchange routes to.
use kuttidb.Base.{
  ℕ, ◌+◌, ◌≤◌, ◌<◌, ◌≡◌, refl, sym, ap, ◌∙◌, Bool, true, false, not, ◌&&◌, ◌||◌, List, [], ◌∷◌,
  ◌++◌, arith, length, length-append, ltb, bytes_eq, bytes_eq→≡, if_cases, Bool-cases, inl, inr,
}
use kuttidb.Queue.{Queue, Binding, ExchangeType, Exchange, Store, find_queue}
use kuttidb.Queue.DeadLetter.{is_held}
use kuttidb.Exchange.{exchange_bindings_max}
use kuttidb.Exchange.Route.{binding_matches, is_live, add_target, collect, targets_of}

-- Some binding leads a message with this key to the queue of this name, which is live.
unfoldable pub routes_to : List Queue → ExchangeType → List ℕ → List ℕ → List Binding → Bool
routes_to queues kind key name [] = false
routes_to queues kind key name (b ∷ bs) =
    ((binding_matches kind key b && is_live (find_queue b.queue queues)) && bytes_eq b.queue name)
    || routes_to queues kind key name bs

or_assoc : (a b c : Bool) → ((a || b) || c) ≡ (a || (b || c))
or_assoc a b c = ground arith

bytes_eq-sym : (a b : List ℕ) → bytes_eq a b ≡ bytes_eq b a
unfolding bytes_eq
bytes_eq-sym [] [] = refl
bytes_eq-sym [] (y ∷ b) = refl
bytes_eq-sym (x ∷ a) [] = refl
bytes_eq-sym (x ∷ a) (y ∷ b) = ground (arith, bytes_eq-sym a b)

is_held-append_one :
    (name n : List ℕ) (ts : List (List ℕ))
    → is_held name (ts ++ n ∷ []) ≡ (is_held name ts || bytes_eq n name)
unfolding is_held
is_held-append_one name n [] = ground arith
is_held-append_one name n (t ∷ ts) = ground (arith, is_held-append_one name n ts)

-- A name that is equal to one that is held.
is_held-same :
    (name n : List ℕ) (ts : List (List ℕ))
    → bytes_eq n name ≡ true
    → is_held n ts ≡ true
    → is_held name ts ≡ true
is_held-same name n ts same h = ap (λ k. is_held k ts) (sym (bytes_eq→≡ n name same)) ∙ h

add_target-is_held :
    (name n : List ℕ) (ts : List (List ℕ))
    → length ts < exchange_bindings_max
    → is_held name (add_target ts n) ≡ (is_held name ts || bytes_eq n name)
add_target-is_held name n ts room = elim (Bool-cases (is_held n ts)) [
  | inl seen ↦ rw seen (elim (Bool-cases (bytes_eq n name)) [
    | inl same ↦ rw (same, is_held-same name n ts same seen) refl
    | inr other ↦ ground (arith, other)
  ])
  | inr new ↦
      let free : ltb (length ts) exchange_bindings_max ≡ true = ground (arith, room) in
      rw (new, free) (is_held-append_one name n ts)
]

add_target-length : (n : List ℕ) (ts : List (List ℕ)) → length (add_target ts n) ≤ length ts + 1
add_target-length n ts = ground (arith, length-append ts (n ∷ []))

collect-is_held :
    (queues : List Queue) (kind : ExchangeType) (key name : List ℕ) (bs : List Binding)
    (ts : List (List ℕ))
    → length ts + length bs ≤ exchange_bindings_max
    → is_held name (collect queues kind key bs ts)
      ≡ (is_held name ts || routes_to queues kind key name bs)
unfolding collect routes_to
collect-is_held queues kind key name [] ts room = ground arith
collect-is_held queues kind key name (b ∷ bs) ts room =
    elim (Bool-cases (binding_matches kind key b && is_live (find_queue b.queue queues))) [
      | inl through ↦ rw through (
          collect-is_held queues kind key name bs (add_target ts b.queue)
            (omega (arith, add_target-length b.queue ts))
          ∙ ap (λ x. x || routes_to queues kind key name bs)
              (add_target-is_held name b.queue ts (omega arith))
          ∙ or_assoc (is_held name ts) (bytes_eq b.queue name) (routes_to queues kind key name bs))
      | inr stopped ↦ rw stopped (collect-is_held queues kind key name bs ts (omega arith))
    ]

-- The queues that an exchange routes a message to are just the live ones that a binding with a
-- matching key names, as long as the exchange has no more bindings than it may have.
pub targets_of-routes_to :
    (s : Store) (e : Exchange) (key name : List ℕ)
    → length e.bindings ≤ exchange_bindings_max
    → is_held name (targets_of s e key) ≡ routes_to s.queues e.kind key name e.bindings
unfolding is_held
targets_of-routes_to s e key name room =
    collect-is_held s.queues e.kind key name e.bindings [] (omega (arith, room))

-- No name occurs twice.
abbrev pub IsOnce : List (List ℕ) → Type 0
IsOnce [] = Unit
IsOnce (t ∷ ts) = (is_held t ts ≡ false) × IsOnce ts

IsOnce-append_one :
    (n : List ℕ) (ts : List (List ℕ)) → IsOnce ts → is_held n ts ≡ false → IsOnce (ts ++ n ∷ [])
unfolding is_held
IsOnce-append_one n [] h new = (refl, tt)
IsOnce-append_one n (t ∷ ts) h new = (
  is_held-append_one t n ts ∙ ground (arith, h.0, new, bytes_eq-sym n t),
  IsOnce-append_one n ts h.1 (ground (arith, new)),
)

add_target-IsOnce : (n : List ℕ) (ts : List (List ℕ)) → IsOnce ts → IsOnce (add_target ts n)
add_target-IsOnce n ts h =
    if_cases IsOnce (not (is_held n ts) && ltb (length ts) exchange_bindings_max) _ _
      (λ new. IsOnce-append_one n ts h (ground (arith, new))) (λ _. h)

collect-IsOnce :
    (queues : List Queue) (kind : ExchangeType) (key : List ℕ) (bs : List Binding)
    (ts : List (List ℕ))
    → IsOnce ts
    → IsOnce (collect queues kind key bs ts)
unfolding collect
collect-IsOnce queues kind key [] ts h = h
collect-IsOnce queues kind key (b ∷ bs) ts h =
    if_cases IsOnce (binding_matches kind key b && is_live (find_queue b.queue queues)) _ _
      (λ _.
        collect-IsOnce queues kind key bs (add_target ts b.queue) (add_target-IsOnce b.queue ts h))
      (λ _. collect-IsOnce queues kind key bs ts h)

-- A message reaches a queue once, however many bindings lead there.
pub targets_of-IsOnce : (s : Store) (e : Exchange) (key : List ℕ) → IsOnce (targets_of s e key)
targets_of-IsOnce s e key = collect-IsOnce s.queues e.kind key e.bindings [] tt
