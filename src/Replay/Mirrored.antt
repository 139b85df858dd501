-- ===== src/Replay/Mirrored.antt =====
-- The calls on the topology, and the records that they write.
use kuttidb.Base.{
  ℕ, ◌/◌, ◌%◌, ◌<◌, ◌≤◌, ◌≡◌, refl, ap, ◌∙◌, Bool, true, false, not, ◌==◌, Option, none, some, List,
  [], ◌∷◌, All, arith, if_cases, length, add64, bytes_eq,
}
use kuttidb.Wal.{Op}
use kuttidb.Queue.{Queue, Exchange, ExchangeType, Store}
use kuttidb.Exchange.{find_exchange, has_binding, add_binding, binding_payload}
use kuttidb.Exchange.Admin.{
  exdeclare_payload, create_exchange, create_logged, declare_exchange, bind_added, bind_logged,
  is_too_long, bind_at, Changed, unbind_logged, differs, unbind_at, is_alternate,
  delete_exchange_logged, delete_at, alternate_logged, alternate_at,
}
use kuttidb.Replay.Exchanges.{
  exchange_record, Answered, log_exchange-Answered, Mirrors, Mirrors-refl, find_exchange-named,
  find_exchange-All, bind-Leads, unbind-Leads, alternate-Leads, delete-Leads, declare-Leads,
  after_log,
}

bind_logged-wal :
    (s : Store) (e : Exchange) (queue key : List ℕ)
    → (bind_logged (s, true) e queue key).0.wal ≡ s.wal
unfolding bind_logged bind_added add_binding
bind_logged-wal s e queue key = ground arith

-- Every exchange is durable and has room for one more binding.
abbrev pub AreOpen : List Exchange → Type 0
AreOpen = All (λ (e : Exchange). (e.durable ≡ true) × (e.binding_count < 1024))

module _ (s : Store) (e : Exchange) (found : find_exchange e.name s.exchanges ≡ some e)
    (ready : (e.durable ≡ true) × (e.binding_count < 1024)) where
  module _ (queue key : List ℕ) (named : 0 < length queue) (short : length queue ≤ 255)
      (key_short : length key ≤ 255) where
    bind_logged-Mirrors :
        (l : Store × Bool)
        → has_binding queue key e.bindings ≡ false
        → Answered s
            (exchange_record Op.log_exbind e.name (add64 e.revision 1) (binding_payload queue key))
            l
        → Mirrors s (bind_logged l e queue key).0
    bind_logged-Mirrors (s', false) fresh a =
        after_log s (s', false) (bind_logged (s', false) e queue key).0 a
          (λ _. unfold bind_logged in refl) (λ h. absurd (cc h))
    bind_logged-Mirrors (s', true) fresh a =
        after_log s (s', true) (bind_logged (s', true) e queue key).0 a (λ h. absurd (cc h))
          (λ _. (
            bind_logged-wal s' e queue key,
            bind-Leads s e found queue key named short key_short fresh ready.1 s' a.exchanges,
          ))

    unbind_logged-Mirrors :
        (l : Store × Bool)
        → has_binding queue key e.bindings ≡ true
        → Answered s
            (exchange_record Op.log_exunbind e.name
              (add64 e.revision 1)
              (binding_payload queue key))
            l
        → Mirrors s (unbind_logged l e queue key).0
    unbind_logged-Mirrors (s', false) bound a =
        after_log s (s', false) (unbind_logged (s', false) e queue key).0 a
          (λ _. unfold unbind_logged in refl) (λ h. absurd (cc h))
    unbind_logged-Mirrors (s', true) bound a =
        after_log s (s', true) (unbind_logged (s', true) e queue key).0 a (λ h. absurd (cc h))
          (λ _. (
            unfold unbind_logged in refl,
            unbind-Leads s e found queue key named short key_short bound s' a.exchanges,
          ))

  alternate_logged-Mirrors :
      (l : Store × Bool) (alternate : List ℕ)
      → 0 < length alternate
      → length alternate ≤ 255
      → bytes_eq alternate e.name ≡ false
      → Answered s
          (exchange_record Op.log_exupdate e.name
            (add64 e.revision 1)
            ((length alternate % 256) ∷ (length alternate / 256 % 256) ∷ alternate))
          l
      → Mirrors s (alternate_logged l e alternate).0
  alternate_logged-Mirrors (s', false) alternate named short other a =
      after_log s (s', false) (alternate_logged (s', false) e alternate).0 a
        (λ _. unfold alternate_logged in refl) (λ h. absurd (cc h))
  alternate_logged-Mirrors (s', true) alternate named short other a =
      after_log s (s', true) (alternate_logged (s', true) e alternate).0 a (λ h. absurd (cc h))
        (λ _. (
          unfold alternate_logged in refl,
          alternate-Leads s e found alternate named short other s' a.exchanges,
        ))

  delete_exchange_logged-Mirrors :
      (l : Store × Bool)
      → Answered s (exchange_record Op.log_exdelete e.name 0 []) l
      → Mirrors s (delete_exchange_logged l e.name).0
  delete_exchange_logged-Mirrors (s', false) a =
      after_log s (s', false) (delete_exchange_logged (s', false) e.name).0 a
        (λ _. unfold delete_exchange_logged in refl) (λ h. absurd (cc h))
  delete_exchange_logged-Mirrors (s', true) a =
      after_log s (s', true) (delete_exchange_logged (s', true) e.name).0 a (λ h. absurd (cc h))
        (λ _. (unfold delete_exchange_logged in refl, delete-Leads s e found s' a.exchanges))

module _ (s : Store) (name : List ℕ) (ready : AreOpen s.exchanges) where
  abbrev OpenAt : Exchange → Type 0
  OpenAt e =
      (find_exchange e.name s.exchanges ≡ some e) × (e.durable ≡ true) × (e.binding_count < 1024)

  found_open : (e : Exchange) → find_exchange name s.exchanges ≡ some e → OpenAt e
  found_open e h =
      let r =
        find_exchange-All (λ (x : Exchange). (x.durable ≡ true) × (x.binding_count < 1024)) name
          s.exchanges e ready h in
      (
        ap (λ n. find_exchange n s.exchanges) (find_exchange-named name s.exchanges e h) ∙ h,
        r.0,
        r.1,
      )

  pub bind_at-Mirrors :
      (o : Option Exchange) (p : Option Queue) (queue key : List ℕ)
      → 0 < length queue
      → length queue ≤ 255
      → length key ≤ 255
      → find_exchange name s.exchanges ≡ o
      → Mirrors s (bind_at o p s queue key).0
  unfolding bind_at
  bind_at-Mirrors none p queue key named short key_short h = Mirrors-refl s
  bind_at-Mirrors (some e) none queue key named short key_short h = Mirrors-refl s
  bind_at-Mirrors (some e) (some target) queue key named short key_short h =
      let f = found_open e h in
      if_cases (λ (r : Store × Bool). Mirrors s r.0) (has_binding queue key e.bindings) _ _
        (λ _. Mirrors-refl s)
        (λ fresh.
          if_cases (λ (r : Store × Bool). Mirrors s r.0) (is_too_long e key) _ _
            (λ _. Mirrors-refl s)
            (λ _.
              bind_logged-Mirrors s e f.0 (f.1, f.2) queue key named short key_short _ fresh
                (log_exchange-Answered s Op.log_exbind e.durable e.name _ _ f.1)))

  pub unbind_at-Mirrors :
      (o : Option Exchange) (queue key : List ℕ) (expected : Option ℕ)
      → 0 < length queue
      → length queue ≤ 255
      → length key ≤ 255
      → find_exchange name s.exchanges ≡ o
      → Mirrors s (unbind_at o s queue key expected).0
  unfolding unbind_at
  unbind_at-Mirrors none queue key expected named short key_short h = Mirrors-refl s
  unbind_at-Mirrors (some e) queue key expected named short key_short h =
      let f = found_open e h in
      if_cases (λ (r : Store × Changed). Mirrors s r.0) (differs expected e.revision) _ _
        (λ _. Mirrors-refl s)
        (λ _.
          if_cases (λ (r : Store × Changed). Mirrors s r.0) (not (has_binding queue key e.bindings))
            _ _ (λ _. Mirrors-refl s)
            (λ bound.
              unbind_logged-Mirrors s e f.0 (f.1, f.2) queue key named short key_short _
                (ground (arith, bound))
                (log_exchange-Answered s Op.log_exunbind e.durable e.name _ _ f.1)))

  pub delete_at-Mirrors :
      (o : Option Exchange) (expected : ℕ)
      → find_exchange name s.exchanges ≡ o
      → Mirrors s (delete_at o s expected).0
  unfolding delete_at
  delete_at-Mirrors none expected h = Mirrors-refl s
  delete_at-Mirrors (some e) expected h =
      let f = found_open e h in
      if_cases (λ (r : Store × Changed). Mirrors s r.0) (not (e.revision == expected)) _ _
        (λ _. Mirrors-refl s)
        (λ _.
          if_cases (λ (r : Store × Changed). Mirrors s r.0) (not (e.binding_count == 0)) _ _
            (λ _. Mirrors-refl s)
            (λ _.
              if_cases (λ (r : Store × Changed). Mirrors s r.0) (is_alternate e.name s.exchanges) _
                _ (λ _. Mirrors-refl s)
                (λ _.
                  delete_exchange_logged-Mirrors s e f.0 (f.1, f.2) _
                    (log_exchange-Answered s Op.log_exdelete e.durable e.name 0 [] f.1))))

  pub alternate_at-Mirrors :
      (o : Option Exchange) (alternate : List ℕ) (expected : ℕ)
      → 0 < length alternate
      → length alternate ≤ 255
      → bytes_eq alternate name ≡ false
      → find_exchange name s.exchanges ≡ o
      → Mirrors s (alternate_at o s alternate expected).0
  unfolding alternate_at
  alternate_at-Mirrors none alternate expected named short other h = Mirrors-refl s
  alternate_at-Mirrors (some e) alternate expected named short other h =
      let f = found_open e h in
      if_cases (λ (r : Store × Changed). Mirrors s r.0) (not (e.revision == expected)) _ _
        (λ _. Mirrors-refl s)
        (λ _.
          if_cases (λ (r : Store × Changed). Mirrors s r.0) (bytes_eq e.ae_name alternate) _ _
            (λ _. Mirrors-refl s)
            (λ _.
              alternate_logged-Mirrors s e f.0 (f.1, f.2) _ alternate named short
                (ap (bytes_eq alternate) (find_exchange-named name s.exchanges e h) ∙ other)
                (log_exchange-Answered s Op.log_exupdate e.durable e.name _ _ f.1)))

  create_logged-Mirrors :
      (l : Store × Bool) (kind : ExchangeType) (ae : List ℕ)
      → find_exchange name s.exchanges ≡ none
      → length ae ≤ 255
      → Answered s (exchange_record Op.log_exdeclare name 1 (exdeclare_payload kind ae)) l
      → Mirrors s (create_logged l name true kind ae).0
  create_logged-Mirrors (s', false) kind ae h short a =
      after_log s (s', false) (create_logged (s', false) name true kind ae).0 a
        (λ _. unfold create_logged in refl) (λ x. absurd (cc x))
  create_logged-Mirrors (s', true) kind ae h short a =
      after_log s (s', true) (create_logged (s', true) name true kind ae).0 a (λ x. absurd (cc x))
        (λ _. (
          unfold create_logged create_exchange in refl,
          declare-Leads s name kind ae h short s' a.exchanges,
        ))

  pub declare_exchange-Mirrors :
      (o : Option Exchange) (kind : ExchangeType) (ae : List ℕ)
      → length ae ≤ 255
      → find_exchange name s.exchanges ≡ o
      → Mirrors s (declare_exchange o s name true kind ae).0
  unfolding declare_exchange
  declare_exchange-Mirrors (some e) kind ae short h = Mirrors-refl s
  declare_exchange-Mirrors none kind ae short h =
      create_logged-Mirrors _ kind ae h short
        (log_exchange-Answered s Op.log_exdeclare true name 1 (exdeclare_payload kind ae) refl)
