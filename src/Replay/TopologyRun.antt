-- ===== src/Replay/TopologyRun.antt =====
-- Runs of calls on the topology, and what a restart makes of their log.
use mathlib.Core.Path.{subst, fun_ext}
use kuttidb.Base.{
  ℕ, ◌<◌, ◌≤◌, ◌≡◌, refl, sym, ap, ◌∙◌, inl, inr, Bool, true, false, not, ◌&&◌, ◌||◌, List, [], ◌∷◌,
  ◌++◌, arith, if_cases, ltb, length, bytes_eq, Bool-cases,
}
use kuttidb.Wal.{LogRecord}
use kuttidb.Queue.{Exchange, Store, find_queue, is_empty}
use kuttidb.Queue.Publish.{is_name}
use kuttidb.Exchange.{exchange_name_max, find_exchange, exchange_payload_valid}
use kuttidb.Exchange.Admin.{
  exchange_declare, exchange_bind, Changed, exchange_unbind_checked, exchange_delete_if_revision,
  exchange_set_alternate_if_revision,
}
use kuttidb.Exchange.Admin.Steps.{ExchangeCall, perform_exchange}
use kuttidb.Replay.Run.{apply_record, go_on, replay}
use kuttidb.Replay.Exchanges.{Leads, Mirrors, Mirrors-refl}
use kuttidb.Replay.Mirrored.{
  AreOpen, bind_at-Mirrors, unbind_at-Mirrors, delete_at-Mirrors, alternate_at-Mirrors,
  declare_exchange-Mirrors,
}

-- Only durable exchanges are declared.
abbrev pub IsDurableCall : ExchangeCall → Type 0
IsDurableCall (ExchangeCall.declare name durable kind ae) = durable ≡ true
IsDurableCall (ExchangeCall.bind name queue key) = Unit
IsDurableCall (ExchangeCall.unbind name queue key expected) = Unit
IsDurableCall (ExchangeCall.delete name expected) = Unit
IsDurableCall (ExchangeCall.set_alternate name alternate expected) = Unit

is_name-short : (name : List ℕ) → is_name name ≡ true → (0 < length name) × (length name ≤ 255)
unfolding is_name
is_name-short name h = ground arith

key-short : (name key : List ℕ) → exchange_payload_valid name key ≡ true → length key ≤ 255
unfolding exchange_payload_valid
key-short name key h = ground arith

ae-short :
    (ae : List ℕ) (b c : Bool)
    → (b || (not (is_empty ae) && (ltb exchange_name_max (length ae) || c))) ≡ false
    → length ae ≤ 255
ae-short [] b c h = omega arith
ae-short (x ∷ ae) b c h = ground arith

alternate-short :
    (ae : List ℕ) (b c : Bool)
    → (b || (is_empty ae || (ltb exchange_name_max (length ae) || c))) ≡ false
    → (0 < length ae) × (length ae ≤ 255) × (c ≡ false)
alternate-short [] b c h = absurd (ground (arith, h))
alternate-short (x ∷ ae) b c h = ground arith

perform_exchange-Mirrors :
    (c : ExchangeCall) (s : Store)
    → AreOpen s.exchanges
    → IsDurableCall c
    → Mirrors s (perform_exchange c s)
unfolding perform_exchange exchange_declare exchange_bind exchange_unbind_checked
    exchange_delete_if_revision exchange_set_alternate_if_revision
perform_exchange-Mirrors (ExchangeCall.declare name durable kind ae) s ready d = rw d (
    if_cases (λ (r : Store × Bool). Mirrors s r.0)
      (not (exchange_payload_valid name [])
        || (not (is_empty ae) && (ltb exchange_name_max (length ae) || bytes_eq ae name)))
      _ _ (λ _. Mirrors-refl s)
      (λ ok.
        declare_exchange-Mirrors s name ready (find_exchange name s.exchanges) kind ae
          (ae-short ae _ _ ok) refl))
perform_exchange-Mirrors (ExchangeCall.bind name queue key) s ready d =
    if_cases (λ (r : Store × Bool). Mirrors s r.0)
      (not (exchange_payload_valid name key) || not (is_name queue)) _ _ (λ _. Mirrors-refl s)
      (λ ok.
        let short = is_name-short queue (ground (arith, ok)) in
        bind_at-Mirrors s name ready (find_exchange name s.exchanges) (find_queue queue s.queues)
          queue key short.0 short.1 (key-short name key (ground (arith, ok))) refl)
perform_exchange-Mirrors (ExchangeCall.unbind name queue key expected) s ready d =
    if_cases (λ (r : Store × Changed). Mirrors s r.0)
      (not (exchange_payload_valid name key) || not (is_name queue)) _ _ (λ _. Mirrors-refl s)
      (λ ok.
        let short = is_name-short queue (ground (arith, ok)) in
        unbind_at-Mirrors s name ready (find_exchange name s.exchanges) queue key expected short.0
          short.1 (key-short name key (ground (arith, ok))) refl)
perform_exchange-Mirrors (ExchangeCall.delete name expected) s ready d =
    if_cases (λ (r : Store × Changed). Mirrors s r.0) (not (exchange_payload_valid name [])) _ _
      (λ _. Mirrors-refl s)
      (λ _. delete_at-Mirrors s name ready (find_exchange name s.exchanges) expected refl)
perform_exchange-Mirrors (ExchangeCall.set_alternate name alternate expected) s ready d =
    if_cases (λ (r : Store × Changed). Mirrors s r.0)
      (not (exchange_payload_valid name [])
        || (is_empty alternate
            || (ltb exchange_name_max (length alternate) || bytes_eq alternate name)))
      _ _ (λ _. Mirrors-refl s)
      (λ ok.
        let short = alternate-short alternate _ _ ok in
        alternate_at-Mirrors s name ready (find_exchange name s.exchanges) alternate expected
          short.0 short.1 short.2 refl)

-- The stores that runs lead to from one without exchanges and with an empty log, all exchanges
-- durable and with room for a binding before each call.
pub data IsTopologyRun : Store → Type 0 where
  at_start : (s : Store) → s.exchanges ≡ [] → s.wal.records ≡ [] → IsTopologyRun s
  after :
      {s : Store}
      → IsTopologyRun s
      → AreOpen s.exchanges
      → (c : ExchangeCall) → IsDurableCall c
      → IsTopologyRun (perform_exchange c s)

go_on_assoc :
    (f g : Store → Store × Bool) (t : Store × Bool)
    → go_on (λ u. go_on g (f u)) t ≡ go_on g (go_on f t)
unfolding go_on
go_on_assoc f g (s, false) = refl
go_on_assoc f g (s, true) = refl

go_on_end : (t : Store × Bool) → go_on (λ s. (s, true)) t ≡ t
unfolding go_on
go_on_end (s, true) = refl
go_on_end (s, false) = refl

go_on_ok {ℓ} :
    (f : Store → Store × Bool) (t : Store × Bool)
    → t.1 ≡ true
    → (P : Store × Bool → Type ℓ) → P (f t.0)
    → P (go_on f t)
unfolding go_on
go_on_ok f (s, true) e P p = p
go_on_ok f (s, false) e P p = absurd (cc e)

replay-append :
    (rs : List LogRecord) (r : LogRecord) (t : Store)
    → replay (rs ++ r ∷ []) t ≡ go_on (apply_record r) (replay rs t)
unfolding replay
replay-append [] r t = go_on_end (apply_record r t) ∙ (unfold go_on in refl)
replay-append (x ∷ rs) r t =
    ap (λ f. go_on f (apply_record x t)) (fun_ext (replay-append rs r))
    ∙ go_on_assoc (replay rs) (apply_record r) (apply_record x t)

-- What replay makes of the exchanges.
abbrev Rebuilds : List LogRecord → List Exchange → Type 0
Rebuilds rs es =
    (t : Store) → t.exchanges ≡ [] → ((replay rs t).1 ≡ true) × ((replay rs t).0.exchanges ≡ es)

Rebuilds-next :
    (rs : List LogRecord) (r : LogRecord) (es es' : List Exchange)
    → Rebuilds rs es
    → Leads r es es'
    → Rebuilds (rs ++ r ∷ []) es'
Rebuilds-next rs r es es' h leads t bare =
    let old = h t bare in
    subst (λ (u : Store × Bool). (u.1 ≡ true) × (u.0.exchanges ≡ es')) (sym (replay-append rs r t))
      (go_on_ok (apply_record r) (replay rs t) old.0
        (λ (u : Store × Bool). (u.1 ≡ true) × (u.0.exchanges ≡ es')) (leads (replay rs t).0 old.1))

Rebuilds-Mirrors :
    (s s' : Store)
    → Mirrors s s'
    → (s.wal.failed ≡ false → Rebuilds s.wal.records s.exchanges)
    → s'.wal.failed ≡ false
    → Rebuilds s'.wal.records s'.exchanges
Rebuilds-Mirrors s s' m h live =
    let before : s.wal.failed ≡ false = elim (Bool-cases s.wal.failed) [
      | inl e ↦ absurd (ground (arith, m.0 e, live))
      | inr e ↦ e
    ] in
    elim (m.1 live) [
      | inl (records, exchanges) ↦ rw (records, exchanges) (h before)
      | inr (r, records, leads) ↦
          rw records (Rebuilds-next s.wal.records r s.exchanges s'.exchanges (h before) leads)
    ]

topology_run-Rebuilds :
    {s : Store} → IsTopologyRun s → s.wal.failed ≡ false → Rebuilds s.wal.records s.exchanges
unfolding replay
topology_run-Rebuilds (IsTopologyRun.at_start s bare empty) live =
    rw (bare, empty) (λ t e. (refl, e))
topology_run-Rebuilds (IsTopologyRun.after {s} run ready c d) live =
    Rebuilds-Mirrors s (perform_exchange c s) (perform_exchange-Mirrors c s ready d)
      (topology_run-Rebuilds run) live

-- A run of calls on the topology, from a store without exchanges and with an empty log, in which every
-- exchange is durable and has fewer than 1024 bindings before each call, whatever the disk answered:
-- if the log has not failed, then a replay of its records into any store without exchanges takes all
-- of them, and ends with the exchanges of the run, as they are, in their order.
pub replay-rebuilds :
    {s : Store} (t : Store)
    → IsTopologyRun s
    → s.wal.failed ≡ false
    → t.exchanges ≡ []
    → ((replay s.wal.records t).1 ≡ true) × ((replay s.wal.records t).0.exchanges ≡ s.exchanges)
replay-rebuilds t run live bare = topology_run-Rebuilds run live t bare
