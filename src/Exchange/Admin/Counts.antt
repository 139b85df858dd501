-- ===== src/Exchange/Admin/Counts.antt =====
-- The counter of an exchange's bindings, through each step of a call on the topology.
use mathlib.Core.Path.{subst}
use kuttidb.Base.{
  ℕ, ◌+◌, ◌≤◌, ◌≡◌, refl, Bool, true, false, not, ◌==◌, List, [], ◌∷◌, Option, some, none, arith,
  if_cases, length, leb, bytes_eq, All, Bool-cases, inl, inr,
}
use kuttidb.Wal.{Op}
use kuttidb.Queue.{Queue, Binding, Exchange, ExchangeType, Store}
use kuttidb.Exchange.{
  exchange_bindings_max, find_exchange, update_exchange, has_binding, remove_binding, add_binding,
}
use kuttidb.Exchange.Admin.{
  log_exchange, create_exchange, create_logged, declare_exchange, put_exchange, bind_added,
  bind_logged, is_too_long, bind_at, Changed, unbind_logged, differs, unbind_at, is_alternate,
  remove_exchange, delete_exchange_logged, delete_at, alternate_logged, alternate_at,
}

pub record IsTidy (e : Exchange) : Type 0 where
  pub count : e.binding_count ≡ length e.bindings
  pub room : e.binding_count ≤ exchange_bindings_max

abbrev pub AreTidy : Store → Type 0
AreTidy s = All IsTidy s.exchanges

pub find_exchange-All :
    (name : List ℕ) (es : List Exchange) (e : Exchange)
    → All IsTidy es
    → find_exchange name es ≡ some e
    → IsTidy e
unfolding find_exchange
find_exchange-All name [] e h f = absurd (cc f)
find_exchange-All name (x ∷ es) e h f = elim (Bool-cases (bytes_eq x.name name)) [
  | inl here ↦ let same : x ≡ e = ground (arith, here) in subst IsTidy same h.0
  | inr there ↦ find_exchange-All name es e h.1 (ground (arith, there))
]

update_exchange-All :
    (name : List ℕ) (e' : Exchange) (es : List Exchange)
    → All IsTidy es
    → IsTidy e'
    → All IsTidy (update_exchange name e' es)
unfolding update_exchange
update_exchange-All name e' [] h p = tt
update_exchange-All name e' (x ∷ es) h p = elim (Bool-cases (bytes_eq x.name name)) [
  | inl here ↦ rw here (p, h.1)
  | inr there ↦ rw there (h.0, update_exchange-All name e' es h.1 p)
]

remove_exchange-All :
    (name : List ℕ) (es : List Exchange) → All IsTidy es → All IsTidy (remove_exchange name es)
unfolding remove_exchange
remove_exchange-All name [] h = tt
remove_exchange-All name (x ∷ es) h =
    if_cases (All IsTidy) (bytes_eq x.name name) _ _ (λ _. h.1)
      (λ _. (h.0, remove_exchange-All name es h.1))

length-remove_binding :
    (queue key : List ℕ) (bs : List Binding)
    → has_binding queue key bs ≡ true
    → length (remove_binding queue key bs) + 1 ≡ length bs
unfolding has_binding remove_binding
length-remove_binding queue key [] h = absurd (cc h)
length-remove_binding queue key (b ∷ bs) h = ground (arith, length-remove_binding queue key bs)

log_exchange-exchanges :
    (s : Store) (op : Op) (durable : Bool) (name : List ℕ) (aux : ℕ) (payload : List ℕ)
    → (log_exchange s op durable name aux payload).0.exchanges ≡ s.exchanges
unfolding log_exchange
log_exchange-exchanges s op durable name aux payload = refl

abbrev pub TidyAfter {ℓ} : {A : Type ℓ} → Store × A → Type 0
TidyAfter out = AreTidy out.0

create_logged-AreTidy :
    (r : Store × Bool) (name : List ℕ) (durable : Bool) (kind : ExchangeType) (ae : List ℕ)
    → AreTidy r.0
    → AreTidy (create_logged r name durable kind ae).0
unfolding create_logged create_exchange
create_logged-AreTidy (s, false) name durable kind ae h = h
create_logged-AreTidy (s, true) name durable kind ae h =
    (record { count = refl; room = omega arith }, h)

pub declare_exchange-AreTidy :
    (o : Option Exchange) (s : Store) (name : List ℕ) (durable : Bool) (kind : ExchangeType)
    (ae : List ℕ)
    → AreTidy s
    → AreTidy (declare_exchange o s name durable kind ae).0
unfolding declare_exchange log_exchange
declare_exchange-AreTidy (some e) s name durable kind ae h = h
declare_exchange-AreTidy none s name durable kind ae h =
    create_logged-AreTidy _ name durable kind ae h

put_exchange-AreTidy :
    (s : Store) (e : Exchange) → AreTidy s → IsTidy e → AreTidy (put_exchange s e)
put_exchange-AreTidy s e h p = update_exchange-All e.name e s.exchanges h p

add_binding-IsTidy :
    (e : Exchange) (queue key : List ℕ) → IsTidy e → IsTidy (add_binding e queue key).0
unfolding add_binding
add_binding-IsTidy e queue key h =
    if_cases (λ (r : Exchange × Bool). IsTidy r.0) (leb exchange_bindings_max e.binding_count) _ _
      (λ _. h) (λ free. record { count = omega (arith, h.count); room = ground (arith, free) })

bind_added-AreTidy :
    (s : Store) (r : Exchange × Bool) (revision : ℕ)
    → AreTidy s
    → IsTidy r.0
    → AreTidy (bind_added s r revision).0
unfolding bind_added
bind_added-AreTidy s (e, false) revision h p = h
bind_added-AreTidy s (e, true) revision h p =
    put_exchange-AreTidy s (record e { revision = revision }) h
      (record { count = p.count; room = p.room })

bind_logged-AreTidy :
    (r : Store × Bool) (e : Exchange) (queue key : List ℕ)
    → AreTidy r.0
    → IsTidy e
    → AreTidy (bind_logged r e queue key).0
unfolding bind_logged
bind_logged-AreTidy (s, false) e queue key h p = h
bind_logged-AreTidy (s, true) e queue key h p =
    bind_added-AreTidy s (add_binding e queue key) _ h (add_binding-IsTidy e queue key p)

pub bind_at-AreTidy :
    (o : Option Exchange) (target : Option Queue) (s : Store) (queue key : List ℕ)
    → AreTidy s
    → ((e : Exchange) → o ≡ some e → IsTidy e)
    → AreTidy (bind_at o target s queue key).0
unfolding bind_at log_exchange
bind_at-AreTidy none target s queue key h found = h
bind_at-AreTidy (some e) none s queue key h found = h
bind_at-AreTidy (some e) (some target) s queue key h found =
    if_cases (TidyAfter {A = Bool}) (has_binding queue key e.bindings) _ _ (λ _. h)
      (λ _.
        if_cases (TidyAfter {A = Bool}) (is_too_long e key) _ _ (λ _. h)
          (λ _. bind_logged-AreTidy _ e queue key h (found e refl)))

unbind_logged-AreTidy :
    (r : Store × Bool) (e : Exchange) (queue key : List ℕ)
    → AreTidy r.0
    → IsTidy e
    → has_binding queue key e.bindings ≡ true
    → AreTidy (unbind_logged r e queue key).0
unfolding unbind_logged
unbind_logged-AreTidy (s, false) e queue key h p bound = h
unbind_logged-AreTidy (s, true) e queue key h p bound = put_exchange-AreTidy s _ h (record {
  count = omega (arith, p.count, length-remove_binding queue key e.bindings bound);
  room = omega (arith, p.room);
})

pub unbind_at-AreTidy :
    (o : Option Exchange) (s : Store) (queue key : List ℕ) (expected : Option ℕ)
    → AreTidy s
    → ((e : Exchange) → o ≡ some e → IsTidy e)
    → AreTidy (unbind_at o s queue key expected).0
unfolding unbind_at log_exchange
unbind_at-AreTidy none s queue key expected h found = h
unbind_at-AreTidy (some e) s queue key expected h found =
    if_cases (TidyAfter {A = Changed}) (differs expected e.revision) _ _ (λ _. h)
      (λ _.
        if_cases (TidyAfter {A = Changed}) (not (has_binding queue key e.bindings)) _ _ (λ _. h)
          (λ bound. unbind_logged-AreTidy _ e queue key h (found e refl) (ground (arith, bound))))

delete_exchange_logged-AreTidy :
    (r : Store × Bool) (name : List ℕ) → AreTidy r.0 → AreTidy (delete_exchange_logged r name).0
unfolding delete_exchange_logged
delete_exchange_logged-AreTidy (s, false) name h = h
delete_exchange_logged-AreTidy (s, true) name h = remove_exchange-All name s.exchanges h

pub delete_at-AreTidy :
    (o : Option Exchange) (s : Store) (expected : ℕ)
    → AreTidy s
    → AreTidy (delete_at o s expected).0
unfolding delete_at log_exchange
delete_at-AreTidy none s expected h = h
delete_at-AreTidy (some e) s expected h =
    if_cases (TidyAfter {A = Changed}) (not (e.revision == expected)) _ _ (λ _. h)
      (λ _.
        if_cases (TidyAfter {A = Changed}) (not (e.binding_count == 0)) _ _ (λ _. h)
          (λ _.
            if_cases (TidyAfter {A = Changed}) (is_alternate e.name s.exchanges) _ _ (λ _. h)
              (λ _. delete_exchange_logged-AreTidy _ e.name h)))

alternate_logged-AreTidy :
    (r : Store × Bool) (e : Exchange) (alternate : List ℕ)
    → AreTidy r.0
    → IsTidy e
    → AreTidy (alternate_logged r e alternate).0
unfolding alternate_logged
alternate_logged-AreTidy (s, false) e alternate h p = h
alternate_logged-AreTidy (s, true) e alternate h p =
    put_exchange-AreTidy s _ h (record { count = p.count; room = p.room })

pub alternate_at-AreTidy :
    (o : Option Exchange) (s : Store) (alternate : List ℕ) (expected : ℕ)
    → AreTidy s
    → ((e : Exchange) → o ≡ some e → IsTidy e)
    → AreTidy (alternate_at o s alternate expected).0
unfolding alternate_at log_exchange
alternate_at-AreTidy none s alternate expected h found = h
alternate_at-AreTidy (some e) s alternate expected h found =
    if_cases (TidyAfter {A = Changed}) (not (e.revision == expected)) _ _ (λ _. h)
      (λ _.
        if_cases (TidyAfter {A = Changed}) (bytes_eq e.ae_name alternate) _ _ (λ _. h)
          (λ _. alternate_logged-AreTidy _ e alternate h (found e refl)))
