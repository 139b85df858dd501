-- ===== src/Replay/Logged.antt =====
-- The records of a queue's messages, as the calls write them before they change the queue.
use mathlib.Core.List.{append-nil}
use kuttidb.Base.{
  ℕ, ◌≡◌, refl, sym, ap, ◌∙◌, Bool, true, false, List, [], ◌∷◌, ◌++◌, arith, if_cases, Bool-cases,
  inl, inr,
}
use kuttidb.Wal.{Op, LogRecord, Wal, append_record, sync_log}
use kuttidb.Wal.Durability.{append_record-Extends}
use kuttidb.Queue.{Queue, Store, messages}
use kuttidb.Queue.Presence.Reaped.{IsSameQueue-refl}
use kuttidb.Queue.DeadLetter.{append_log, sync_store}
use kuttidb.Queue.Settle.{log_settled, sync_written}
use kuttidb.Replay.Follows.{Follows}
use kuttidb.Replay.Traces.{
  held_run, is_message_op, AreLasting, Trace, TracesTo, Traces-trans, unlogged,
}

-- The record that `append_log` writes.
abbrev pub record_of : Op → Queue → ℕ → ℕ → List ℕ → LogRecord
record_of op q id aux payload = record {
  op = op;
  durable = q.durable;
  name = q.name;
  id = id;
  aux = aux;
  payload = payload;
}

pub append_record-quiet : (w : Wal) (r : LogRecord) → r.durable ≡ false → (append_record w r).0 ≡ w
unfolding append_record
append_record-quiet w r d = rw d refl

pub append_record-wrote :
    (w : Wal) (r : LogRecord)
    → r.durable ≡ true
    → (append_record w r).1 ≡ true
    → (append_record w r).0.records ≡ w.records ++ r ∷ []
unfolding append_record
append_record-wrote w r d ok = ground arith

pub append_record-refused :
    (w : Wal) (r : LogRecord)
    → (append_record w r).1 ≡ false
    → (append_record w r).0.records ≡ w.records
unfolding append_record
append_record-refused w r ok = ground arith

-- What a step that logs first comes to, whichever way the log answers.
pub record Logged (op : Op) (r : LogRecord) (s : Store) (q : Queue) (l : Store × Bool)
    : Type 0 where
  pub done :
      (q' : Queue) → Follows op r q q' → AreLasting (messages q') → l.1 ≡ true → TracesTo s q l.0 q'
  pub refused : l.1 ≡ false → TracesTo s q l.0 q

wrote-Trace :
    {op : Op} {q q' : Queue} (w : Wal) (id aux : ℕ) (payload : List ℕ)
    → is_message_op op ≡ true
    → (append_record w (record_of op q id aux payload)).1 ≡ true
    → Follows op (record_of op q id aux payload) q q'
    → Trace w q (append_record w (record_of op q id aux payload)).0 q'
unfolding held_run
wrote-Trace {op} {q} {q'} w id aux payload message ok f =
    let r = record_of op q id aux payload in
    elim (Bool-cases q.durable) [
      | inl d ↦ record {
        more = r ∷ [];
        records = append_record-wrote w r d ok;
        quiet = λ e. absurd (ground (arith, d, e));
        own = (record { named = refl; message_op = message; durable = d }, tt);
        held = λ e. f.held;
      }
      | inr d ↦ record {
        more = [];
        records =
            ap (λ (v : Wal). v.records) (append_record-quiet w r d) ∙ sym (append-nil w.records);
        quiet = λ e. refl;
        own = tt;
        held = λ e. absurd (ground (arith, d, e));
      }
    ]

pub append_log-Logged :
    (op : Op) (s : Store) (q : Queue) (id aux : ℕ) (payload : List ℕ)
    → is_message_op op ≡ true
    → AreLasting (messages q)
    → Logged op (record_of op q id aux payload) s q (append_log s op q id aux payload)
unfolding append_log
append_log-Logged op s q id aux payload message lasting =
    let r = record_of op q id aux payload in
    let mono = (append_record-Extends s.wal r).failed in
    record {
      done = λ q' f l ok. record {
        queues = refl;
        same = f.same;
        lasting = l;
        failed = mono;
        trace = λ h. wrote-Trace s.wal id aux payload message ok f;
      };
      refused = λ bad.
          unlogged s.wal (append_record s.wal r).0 mono (append_record-refused s.wal r bad)
            (IsSameQueue-refl q) lasting (λ d. refl);
    }

sync_log-unlogged :
    (w : Wal)
    → ((sync_log w).0.records ≡ w.records) × (w.failed ≡ true → (sync_log w).0.failed ≡ true)
unfolding sync_log
sync_log-unlogged w = (ground arith, ground arith)

-- An fsync that fails after the record marks the log as failed, if it is open.
sync_log_open : (w : Wal) → w.opened ≡ true → (sync_log w).1 ≡ false → (sync_log w).0.failed ≡ true
unfolding sync_log
sync_log_open w o bad = ground arith

append_record_open :
    (w : Wal) (r : LogRecord)
    → r.durable ≡ true
    → (append_record w r).1 ≡ true
    → (append_record w r).0.opened ≡ true
unfolding append_record
append_record_open w r d ok = ground arith

-- The same with the fsync that ACK and NACK wait for.
sync_written-Logged :
    (op : Op) (r : LogRecord) (s : Store) (q : Queue) (l : Store × Bool)
    → AreLasting (messages q)
    → (l.1 ≡ true → l.0.wal.opened ≡ true)
    → Logged op r s q l
    → (s.wal.failed ≡ true → l.0.wal.failed ≡ true)
    → l.0.queues ≡ s.queues
    → Logged op r s q (sync_written l)
unfolding sync_written sync_store
sync_written-Logged op r s q (s', false) lasting opened h mono queues = record {
  done = λ q' f l ok. absurd (cc ok);
  refused = h.refused;
}
sync_written-Logged op r s q (s', true) lasting opened h mono queues =
    let synced = sync_log-unlogged s'.wal in
    record {
      done = λ q' f l ok. Traces-trans (h.done q' f l refl) (
          unlogged s'.wal (sync_log s'.wal).0 (synced.1) (synced.0) (IsSameQueue-refl q') l
            (λ d. refl));
      refused = λ bad. record {
        queues = queues;
        same = IsSameQueue-refl q;
        lasting = lasting;
        failed = λ e. synced.1 (mono e);
        trace = λ e. absurd (ground (arith, e, sync_log_open s'.wal (opened refl) bad));
      };
    }

pub log_settled-Logged :
    (op : Op) (s : Store) (q : Queue) (id aux : ℕ)
    → is_message_op op ≡ true
    → AreLasting (messages q)
    → Logged op (record_of op q id aux []) s q (log_settled s op q id aux)
unfolding log_settled
log_settled-Logged op s q id aux message lasting =
    let r = record_of op q id aux [] in
    if_cases (Logged op r s q) q.durable _ _
      (λ d.
        sync_written-Logged op r s q (append_log s op q id aux []) lasting
          (unfold append_log in append_record_open s.wal r d)
          (append_log-Logged op s q id aux [] message lasting)
          (unfold append_log in (append_record-Extends s.wal r).failed) (unfold append_log in refl))
      (λ d. record {
        done = λ q' f l ok.
            unlogged s.wal s.wal (λ e. e) refl f.same l (λ e. absurd (ground (arith, d, e)));
        refused = λ bad. absurd (cc bad);
      })
