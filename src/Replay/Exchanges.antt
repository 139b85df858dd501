-- ===== src/Replay/Exchanges.antt =====
-- Calls on the topology, and what a restart makes of their records.
use mathlib.Core.Path.{subst}
use kuttidb.Base.{
  ℕ, ◌+◌, ◌/◌, ◌%◌, ◌<◌, ◌≤◌, ◌≡◌, refl, sym, ap, ◌∙◌, ◌⊎◌, inl, inr, Bool, true, false, ◌==◌, none,
  some, List, [], ◌∷◌, ◌++◌, All, arith, if◌then◌else◌, leb, ltb, length, add64, bytes_eq,
  bytes_eq→≡, bytes_eq_refl, Bool-cases,
}
use kuttidb.Wal.{Op, LogRecord, Wal, append_synced}
use kuttidb.Queue.{Exchange, ExchangeType, Store}
use kuttidb.Exchange.{
  exchange_name_max, exchange_bindings_max, find_exchange, update_exchange, has_binding,
  add_binding, binding_payload,
}
use kuttidb.Exchange.Admin.{
  log_exchange, exdeclare_payload, create_exchange, create_logged, bind_added, bind_logged,
  unbind_logged, delete_exchange_logged, alternate_logged,
}
use kuttidb.Replay.Topology.{
  revised, exdeclare_replayed, exdeclare_parsed, apply_exdeclare, unbind_replayed,
  bind_added_replayed, bind_replayed, exbind_at, apply_exbind, apply_exdelete, exupdate_at,
  apply_exupdate,
}
use kuttidb.Replay.Run.{apply_op, apply_record}
use kuttidb.Replay.Payloads.{
  bound_pair-binding_payload, updated_alternate-read, declared_alternate-exdeclare_payload,
  type_of_byte-type_byte, exdeclare_payload-type, exdeclare_payload-length,
}

-- The record of a durable exchange.
abbrev pub exchange_record : Op → List ℕ → ℕ → List ℕ → LogRecord
exchange_record op name aux payload = record {
  op = op;
  durable = true;
  name = name;
  id = 0;
  aux = aux;
  payload = payload;
}

-- What the log answered to a record, and what it then holds.
pub record Answered (s : Store) (r : LogRecord) (l : Store × Bool) : Type 0 where
  pub exchanges : l.0.exchanges ≡ s.exchanges
  pub failed : s.wal.failed ≡ true → l.0.wal.failed ≡ true
  pub wrote : l.1 ≡ true → l.0.wal.records ≡ s.wal.records ++ r ∷ []
  pub refused : l.1 ≡ false → l.0.wal.failed ≡ false → l.0.wal.records ≡ s.wal.records

append_synced-wrote :
    (w : Wal) (r : LogRecord)
    → r.durable ≡ true
    → (append_synced w r).1 ≡ true
    → (append_synced w r).0.records ≡ w.records ++ r ∷ []
unfolding append_synced
append_synced-wrote w r d ok = ground arith

append_synced-failed :
    (w : Wal) (r : LogRecord) → w.failed ≡ true → (append_synced w r).0.failed ≡ true
unfolding append_synced
append_synced-failed w r f = ground arith

append_synced-refused :
    (w : Wal) (r : LogRecord)
    → (append_synced w r).1 ≡ false
    → (append_synced w r).0.failed ≡ false
    → (append_synced w r).0.records ≡ w.records
unfolding append_synced
append_synced-refused w r bad live = ground arith

pub log_exchange-Answered :
    (s : Store) (op : Op) (durable : Bool) (name : List ℕ) (aux : ℕ) (payload : List ℕ)
    → durable ≡ true
    → Answered s (exchange_record op name aux payload) (log_exchange s op durable name aux payload)
unfolding log_exchange
log_exchange-Answered s op false name aux payload d = cc
log_exchange-Answered s op true name aux payload d =
    let r = exchange_record op name aux payload in
    record {
      exchanges = refl;
      failed = append_synced-failed s.wal r;
      wrote = append_synced-wrote s.wal r refl;
      refused = append_synced-refused s.wal r;
    }

-- A record, replayed on the exchanges of one store, gives those of another.
abbrev pub Leads : LogRecord → List Exchange → List Exchange → Type 0
Leads r es es' =
    (t : Store)
    → t.exchanges ≡ es
    → ((apply_record r t).1 ≡ true) × ((apply_record r t).0.exchanges ≡ es')

-- A change of the exchanges that the log follows: nothing happens, or one record is written and
-- leads there.
abbrev pub Mirrors : Store → Store → Type 0
Mirrors s s' =
    (s.wal.failed ≡ true → s'.wal.failed ≡ true)
    × (s'.wal.failed ≡ false
        → ((s'.wal.records ≡ s.wal.records) × (s'.exchanges ≡ s.exchanges))
          ⊎ ((r : LogRecord) × (s'.wal.records ≡ s.wal.records ++ r ∷ [])
              × Leads r s.exchanges s'.exchanges))

pub Mirrors-refl : (s : Store) → Mirrors s s
Mirrors-refl s = (λ h. h, λ h. inl (refl, refl))

pub find_exchange-named :
    (name : List ℕ) (es : List Exchange) (e : Exchange)
    → find_exchange name es ≡ some e
    → e.name ≡ name
unfolding find_exchange
find_exchange-named name [] e h = cc
find_exchange-named name (x ∷ es) e h =
    ground (arith, find_exchange-named name es e, bytes_eq→≡ x.name name)

pub find_exchange-All {κ} :
    (P : Exchange → Type κ) (name : List ℕ) (es : List Exchange) (e : Exchange)
    → All P es
    → find_exchange name es ≡ some e
    → P e
unfolding find_exchange
find_exchange-All P name [] e h f = cc
find_exchange-All P name (x ∷ es) e h f = elim (Bool-cases (bytes_eq x.name name)) [
  | inl here ↦ let same : x ≡ e = ground (arith, here) in subst P same h.0
  | inr there ↦ find_exchange-All P name es e h.1 (ground (arith, there))
]

-- A record of a change has the revision that the change leads to.
kept_revision : (v : ℕ) → (if add64 v 1 == 0 then add64 v 1 else add64 v 1) ≡ add64 v 1
kept_revision v = ground arith

-- The replay of each record.
module _ (s : Store) (e : Exchange) (found : find_exchange e.name s.exchanges ≡ some e) where
  pub bind-Leads :
      (queue key : List ℕ)
      → 0 < length queue
      → length queue ≤ 255
      → length key ≤ 255
      → has_binding queue key e.bindings ≡ false
      → e.binding_count < 1024
      → (l : Store) → l.exchanges ≡ s.exchanges
      → Leads
          (exchange_record Op.log_exbind e.name (add64 e.revision 1) (binding_payload queue key))
          s.exchanges
          (bind_logged (l, true) e queue key).0.exchanges
  unfolding apply_record apply_op apply_exbind exbind_at bind_replayed bind_logged bind_added
      bind_added_replayed add_binding
  bind-Leads queue key named short key_short fresh room l old t same =
      let room' : leb exchange_bindings_max e.binding_count ≡ false = ground (arith, room) in
      rw
        (
          same,
          old,
          found,
          bound_pair-binding_payload queue key named short key_short,
          fresh,
          room',
          kept_revision e.revision,
        )
        (refl, refl)

  pub unbind-Leads :
      (queue key : List ℕ)
      → 0 < length queue
      → length queue ≤ 255
      → length key ≤ 255
      → has_binding queue key e.bindings ≡ true
      → (l : Store) → l.exchanges ≡ s.exchanges
      → Leads
          (exchange_record Op.log_exunbind e.name (add64 e.revision 1) (binding_payload queue key))
          s.exchanges
          (unbind_logged (l, true) e queue key).0.exchanges
  unfolding apply_record apply_op apply_exbind exbind_at unbind_replayed unbind_logged
  unbind-Leads queue key named short key_short bound l old t same =
      rw
        (
          same,
          old,
          found,
          bound_pair-binding_payload queue key named short key_short,
          bound,
          kept_revision e.revision,
        )
        (refl, refl)

  pub alternate-Leads :
      (alternate : List ℕ)
      → 0 < length alternate
      → length alternate ≤ 255
      → bytes_eq alternate e.name ≡ false
      → (l : Store) → l.exchanges ≡ s.exchanges
      → Leads
          (exchange_record Op.log_exupdate e.name
            (add64 e.revision 1)
            ((length alternate % 256) ∷ (length alternate / 256 % 256) ∷ alternate))
          s.exchanges
          (alternate_logged (l, true) e alternate).0.exchanges
  unfolding apply_record apply_op apply_exupdate exupdate_at alternate_logged
  alternate-Leads alternate named short other l old t same =
      rw
        (
          same,
          old,
          found,
          updated_alternate-read alternate named short,
          other,
          kept_revision e.revision,
        )
        (refl, refl)

  pub delete-Leads :
      (l : Store)
      → l.exchanges ≡ s.exchanges
      → Leads
          (exchange_record Op.log_exdelete e.name 0 [])
          s.exchanges
          (delete_exchange_logged (l, true) e.name).0.exchanges
  unfolding apply_record apply_op apply_exdelete delete_exchange_logged
  delete-Leads l old t same = rw (same, old) (refl, refl)

pub declare-Leads :
    (s : Store) (name : List ℕ) (kind : ExchangeType) (ae : List ℕ)
    → find_exchange name s.exchanges ≡ none
    → length ae ≤ 255
    → (l : Store) → l.exchanges ≡ s.exchanges
    → Leads
        (exchange_record Op.log_exdeclare name 1 (exdeclare_payload kind ae))
        s.exchanges
        (create_logged (l, true) name true kind ae).0.exchanges
unfolding apply_record apply_op apply_exdeclare exdeclare_parsed exdeclare_replayed revised
    create_logged create_exchange find_exchange update_exchange
declare-Leads s name kind ae absent short l old t same =
    let size = exdeclare_payload-length kind ae short in
    let low : ltb (length (exdeclare_payload kind ae)) 1 ≡ false = ground (arith, size.0) in
    let high : ltb (3 + exchange_name_max) (length (exdeclare_payload kind ae)) ≡ false =
      ground (arith, size.1) in
    rw
      (
        same,
        old,
        low,
        high,
        exdeclare_payload-type kind ae,
        type_of_byte-type_byte kind,
        declared_alternate-exdeclare_payload kind ae short,
        absent,
        bytes_eq_refl name,
      )
      (refl, rw (bytes_eq_refl name) refl)

-- What a logged change comes to.
pub after_log :
    {r : LogRecord} (s : Store) (l : Store × Bool) (out : Store)
    → Answered s r l
    → (l.1 ≡ false → out ≡ l.0)
    → (l.1 ≡ true → (out.wal ≡ l.0.wal) × Leads r s.exchanges out.exchanges)
    → Mirrors s out
after_log {r} s l out a failed done = elim (Bool-cases l.1) [
  | inl ok ↦ (
    λ f. ap (λ (w : Wal). w.failed) (done ok).0 ∙ a.failed f,
    λ live. inr (r, ap (λ (w : Wal). w.records) (done ok).0 ∙ a.wrote ok, (done ok).1),
  )
  | inr bad ↦
      let same : out ≡ l.0 = failed bad in
      (
        λ f. ap (λ (t : Store). t.wal.failed) same ∙ a.failed f,
        λ live. inl (
          ap (λ (t : Store). t.wal.records) same
              ∙ a.refused bad (sym (ap (λ (t : Store). t.wal.failed) same) ∙ live),
          ap (λ (t : Store). t.exchanges) same ∙ a.exchanges,
        ),
      )
]
