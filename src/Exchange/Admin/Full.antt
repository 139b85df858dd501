-- ===== src/Exchange/Admin/Full.antt =====
-- What a bind does to an exchange that has all the bindings that it may have.
use mathlib.Core.Path.{subst}
use kuttidb.Base.{
  ℕ, ◌≤◌, ◌≡◌, refl, sym, ap, ◌∙◌, Bool, true, false, not, ◌&&◌, ◌||◌, List, [], ◌∷◌, ◌++◌, some,
  arith, leb, add64,
}
use kuttidb.Wal.{Op, LogRecord, append_synced}
use kuttidb.Wal.Durability.{IsDurable}
use kuttidb.Queue.{Queue, Exchange, Store, find_queue}
use kuttidb.Queue.Publish.{is_name}
use kuttidb.Exchange.{
  exchange_bindings_max, find_exchange, has_binding, add_binding, exchange_payload_valid,
  binding_payload,
}
use kuttidb.Exchange.Admin.{
  log_exchange, bind_added, bind_logged, is_too_long, bind_at, exchange_bind,
}

abbrev pub bind_record : Exchange → List ℕ → List ℕ → LogRecord
bind_record e queue key = record {
  op = Op.log_exbind;
  durable = true;
  name = e.name;
  id = 0;
  aux = add64 e.revision 1;
  payload = binding_payload queue key;
}

log_exchange-written :
    (s : Store) (op : Op) (name : List ℕ) (aux : ℕ) (payload : List ℕ)
    → s.wal.opened ≡ true
    → s.wal.failed ≡ false
    → s.wal.disk ≡ []
    → ((log_exchange s op true name aux payload).0.wal.records
        ≡ s.wal.records
          ++ (record { op = op; durable = true; name = name; id = 0; aux = aux; payload = payload })
            ∷ [])
      × IsDurable (log_exchange s op true name aux payload).0.wal
unfolding log_exchange append_synced
log_exchange-written s op name aux payload opened failed disk =
    rw (opened, failed, disk) (refl, refl)

bind_logged_full :
    (r : Store × Bool) (e : Exchange) (queue key : List ℕ)
    → exchange_bindings_max ≤ e.binding_count
    → (bind_logged r e queue key).0 ≡ r.0
unfolding bind_logged bind_added add_binding
bind_logged_full (s, false) e queue key full = refl
bind_logged_full (s, true) e queue key full =
    let no_room : leb exchange_bindings_max e.binding_count ≡ true = ground (arith, full) in
    rw no_room refl

bind_logged_fails :
    (r : Store × Bool) (e : Exchange) (queue key : List ℕ)
    → exchange_bindings_max ≤ e.binding_count
    → (bind_logged r e queue key).1 ≡ false
unfolding bind_logged bind_added add_binding
bind_logged_fails (s, false) e queue key full = refl
bind_logged_fails (s, true) e queue key full =
    let no_room : leb exchange_bindings_max e.binding_count ≡ true = ground (arith, full) in
    rw no_room refl

-- On a durable exchange that has no room for another binding, a bind of a live queue that the other
-- tests let through fails, and yet leaves the record of the binding as the only new one in the log, and
-- a successful fsync has covered it. The log is open and every write and fsync succeeds.
pub exchange_bind_full :
    (s : Store) (name queue key : List ℕ) (e : Exchange) (q : Queue)
    → (exchange_payload_valid name key && is_name queue) ≡ true
    → find_exchange name s.exchanges ≡ some e
    → find_queue queue s.queues ≡ some q
    → has_binding queue key e.bindings ≡ false
    → is_too_long e key ≡ false
    → exchange_bindings_max ≤ e.binding_count
    → e.durable ≡ true
    → s.wal.opened ≡ true
    → s.wal.failed ≡ false
    → s.wal.disk ≡ []
    → ((exchange_bind s name queue key).1 ≡ false)
      × ((exchange_bind s name queue key).0.wal.records
          ≡ s.wal.records ++ bind_record e queue key ∷ [])
      × IsDurable (exchange_bind s name queue key).0.wal
unfolding exchange_bind bind_at
exchange_bind_full s name queue key e q valid found live new short full durable opened failed disk =
    let ok : (not (exchange_payload_valid name key) || not (is_name queue)) ≡ false =
      ground (arith, valid) in
    let written =
      log_exchange-written s Op.log_exbind e.name (add64 e.revision 1) (binding_payload queue key)
        opened failed disk in
    simp (ok, found, live, new, short, durable)
      (
        bind_logged_fails _ e queue key full,
        ap (λ (x : Store). x.wal.records) (bind_logged_full _ e queue key full) ∙ written.0,
        subst (λ (x : Store). IsDurable x.wal) (sym (bind_logged_full _ e queue key full))
            written.1,
      )
