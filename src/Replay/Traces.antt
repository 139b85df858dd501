-- ===== src/Replay/Traces.antt =====
-- A change of one queue in memory, and the records that it writes.
use mathlib.Core.List.{append_assoc, append-nil}
use kuttidb.Base.{
  ℕ, ◌≡◌, refl, sym, ap, ◌∙◌, Bool, true, false, List, [], ◌∷◌, ◌++◌, All, All-append, arith,
  Bool-cases, inl, inr,
}
use kuttidb.Wal.{Op, LogRecord, Wal}
use kuttidb.Queue.{Message, Queue, Store, messages}
use kuttidb.Queue.Presence.Reaped.{IsSameQueue, IsSameQueue-refl, IsSameQueue-trans}
use kuttidb.Replay.Spec.{KeptMessage, kept_messages, held_after}

unfoldable pub held_run : List LogRecord → List KeptMessage → List KeptMessage
held_run [] ms = ms
held_run (r ∷ rs) ms = held_run rs (held_after r.op r ms)

pub held_run-append :
    (rs more : List LogRecord) (ms : List KeptMessage)
    → held_run (rs ++ more) ms ≡ held_run more (held_run rs ms)
unfolding held_run
held_run-append [] more ms = refl
held_run-append (r ∷ rs) more ms = held_run-append rs more (held_after r.op r ms)

-- The operations on the messages of one queue.
abbrev pub is_message_op : Op → Bool
is_message_op Op.log_publish = true
is_message_op Op.log_ack = true
is_message_op Op.log_deliver = true
is_message_op Op.log_requeue = true
is_message_op Op.log_purge = true
is_message_op _ = false

pub record IsOf (name : List ℕ) (r : LogRecord) : Type 0 where
  pub named : r.name ≡ name
  pub message_op : is_message_op r.op ≡ true
  pub durable : r.durable ≡ true

-- No message expires.
abbrev pub AreLasting : List Message → Type 0
AreLasting = All (λ (m : Message). m.expires_ms ≡ 0)

-- The records of a change, where the log has not failed.
pub record Trace (w : Wal) (q : Queue) (w' : Wal) (q' : Queue) : Type 0 where
  pub more : List LogRecord
  pub records : w'.records ≡ w.records ++ more
  pub quiet : q.durable ≡ false → more ≡ []
  pub own : All (IsOf q.name) more
  pub held :
      q.durable ≡ true → kept_messages (messages q') ≡ held_run more (kept_messages (messages q))

pub record Traces (qs : List Queue) (w : Wal) (q : Queue) (qs' : List Queue) (w' : Wal) (q' : Queue)
    : Type 0 where
  pub queues : qs' ≡ qs
  pub same : IsSameQueue q q'
  pub lasting : AreLasting (messages q')
  pub failed : w.failed ≡ true → w'.failed ≡ true
  pub trace : w'.failed ≡ false → Trace w q w' q'

abbrev pub TracesTo : Store → Queue → Store → Queue → Type 0
TracesTo s q s' q' = Traces s.queues s.wal q s'.queues s'.wal q'

Trace-trans :
    {u v w : Wal} {p q r : Queue} → IsSameQueue p q → Trace u p v q → Trace v q w r → Trace u p w r
Trace-trans {u} {v} {w} {p} {q} {r} same t f = record {
  more = t.more ++ f.more;
  records = f.records ∙ ap (λ rs. rs ++ f.more) t.records ∙ append_assoc u.records t.more f.more;
  quiet = λ d. rw (t.quiet d) (f.quiet (same.durable ∙ d));
  own = All-append (IsOf p.name) t.more f.more t.own (rw⁻¹ same.name f.own);
  held = λ d.
      f.held (same.durable ∙ d)
      ∙ ap (held_run f.more) (t.held d)
      ∙ sym (held_run-append t.more f.more (kept_messages (messages p)));
}

pub failed_before :
    (w w' : Wal) → (w.failed ≡ true → w'.failed ≡ true) → w'.failed ≡ false → w.failed ≡ false
failed_before w w' mono h = elim (Bool-cases w.failed) [
  | inl e ↦ absurd (ground (arith, mono e, h))
  | inr e ↦ e
]

pub Traces-trans :
    {qs qs' qs'' : List Queue} {u v w : Wal} {p q r : Queue}
    → Traces qs u p qs' v q
    → Traces qs' v q qs'' w r
    → Traces qs u p qs'' w r
Traces-trans {u = u} {v} {w} t f = record {
  queues = f.queues ∙ t.queues;
  same = IsSameQueue-trans t.same f.same;
  lasting = f.lasting;
  failed = λ h. f.failed (t.failed h);
  trace = λ h. Trace-trans t.same (t.trace (failed_before v w f.failed h)) (f.trace h);
}

-- A change that writes no record: the messages are kept as they were.
pub unlogged :
    {qs : List Queue} {q q' : Queue} (w w' : Wal)
    → (w.failed ≡ true → w'.failed ≡ true)
    → w'.records ≡ w.records
    → IsSameQueue q q'
    → AreLasting (messages q')
    → (q.durable ≡ true → kept_messages (messages q') ≡ kept_messages (messages q))
    → Traces qs w q qs w' q'
unfolding held_run
unlogged w w' mono records same lasting held = record {
  queues = refl;
  same = same;
  lasting = lasting;
  failed = mono;
  trace = λ h. record {
    more = [];
    records = records ∙ sym (append-nil w.records);
    quiet = λ d. refl;
    own = tt;
    held = held;
  };
}

pub Traces-refl :
    (qs : List Queue) (w : Wal) (q : Queue) → AreLasting (messages q) → Traces qs w q qs w q
Traces-refl qs w q l = unlogged w w (λ h. h) refl (IsSameQueue-refl q) l (λ d. refl)
