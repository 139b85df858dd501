-- ===== src/Queue/Publish/Durable.antt =====
-- The log after a publish to a durable queue that returns an id.
use mathlib.Core.Path.{subst}
use kuttidb.Base.{
  ℕ, ◌+◌, ◌<◌, ◌≡◌, ◌≢◌, refl, ap, ◌∙◌, true, not, ◌||◌, List, [], ◌∷◌, ◌++◌, Option, some, none,
  arith, if_cases, length, length-append, ltb, u64_mod,
}
use kuttidb.Wal.{Op, LogRecord, Wal, append_record, wait_durable}
use kuttidb.Wal.Durability.{Extends-trans, IsPrefix, IsCounted, IsBehind, IsDurable}
use kuttidb.Queue.{Queue, Store, Clocks, find_queue, write_back, queue_message_max}
use kuttidb.Queue.DeadLetter.{append_log}
use kuttidb.Queue.Reap.{reap_queue}
use kuttidb.Queue.Presence.Reaped.{reap_queue-HasKept}
use kuttidb.Queue.Logging.{reap_queue-Logs}
use kuttidb.Queue.Logging.Messages.{accept-Logs}
use kuttidb.Queue.Publish.{
  expiry, append_published, accept, publish_one, wait_written, is_name, report_published,
  publish_to, queue_publish,
}
use kuttidb.Queue.Publish.Exact.{report_published-stored}

abbrev pub publish_record : Queue → ℕ → ℕ → List ℕ → LogRecord
publish_record q id expires_ms payload = record {
  op = Op.log_publish;
  durable = true;
  name = q.name;
  id = id;
  aux = expires_ms;
  payload = payload;
}

-- The last record of the log is this one.
abbrev pub EndsIn : LogRecord → Wal → Type 0
EndsIn r w = (earlier : List LogRecord) × (w.records ≡ earlier ++ r ∷ [])

-- What an accepted message added to the log.
accept-written :
    (t : Clocks) (s : Store) (q : Queue) (payload : List ℕ) (ttl_ms id : ℕ)
    → q.durable ≡ true
    → (accept t s q payload ttl_ms).2 ≡ some id
    → (accept t s q payload ttl_ms).0.wal.records
      ≡ s.wal.records ++ publish_record q id (expiry t ttl_ms) payload ∷ []
unfolding accept append_published append_log append_record
accept-written t s q payload ttl_ms id durable h = ground arith

-- An accepted message has a record that no fsync has covered yet.
accept-ahead :
    (t : Clocks) (s : Store) (q : Queue) (payload : List ℕ) (ttl_ms id : ℕ)
    → q.durable ≡ true
    → s.wal.wal_seq + 1 < u64_mod
    → IsBehind s.wal
    → (accept t s q payload ttl_ms).2 ≡ some id
    → (accept t s q payload ttl_ms).0.wal.synced_seq < (accept t s q payload ttl_ms).0.wal.wal_seq
unfolding accept append_published append_log append_record
accept-ahead t s q payload ttl_ms id durable fits behind h = ground arith

wait_written-IsDurable :
    (seq_before : ℕ) (s : Store)
    → s.wal.wal_seq ≢ seq_before
    → s.wal.synced_seq < s.wal.wal_seq
    → (wait_written seq_before s).1 ≡ true
    → IsDurable (wait_written seq_before s).0.wal
unfolding wait_written wait_durable
wait_written-IsDurable seq_before s ne ahead ok = ground arith

wait_written-records :
    (seq_before : ℕ) (s : Store) → (wait_written seq_before s).0.wal.records ≡ s.wal.records
unfolding wait_written wait_durable
wait_written-records seq_before s = ground arith

report_published-IsDurable :
    (seq_before : ℕ) (r : Store × Queue × Option ℕ) (id : ℕ)
    → r.0.wal.wal_seq ≢ seq_before
    → r.0.wal.synced_seq < r.0.wal.wal_seq
    → (report_published seq_before r).1 ≡ some id
    → IsDurable (report_published seq_before r).0.wal
unfolding report_published
report_published-IsDurable seq_before (s, q, none) id ne ahead h = absurd (cc h)
report_published-IsDurable seq_before (s, q, some i) id ne ahead h =
    wait_written-IsDurable seq_before (write_back s q) ne ahead (ground arith)

report_published-records :
    (seq_before : ℕ) (r : Store × Queue × Option ℕ)
    → (report_published seq_before r).0.wal.records ≡ r.0.wal.records
unfolding report_published
report_published-records seq_before (s, q, none) = refl
report_published-records seq_before (s, q, some id) =
    wait_written-records seq_before (write_back s q)

-- A log that has grown has another sequence number, as long as its length fits the counter.
grown-seq :
    (w v : Wal) (rs : List LogRecord) (r : LogRecord)
    → IsCounted w
    → IsCounted v
    → IsPrefix w.records rs
    → v.records ≡ rs ++ r ∷ []
    → length v.records < u64_mod
    → v.wal_seq ≢ w.wal_seq
grown-seq w v rs r cw cv (more, longer) ends bound same = omega (
  arith,
  cw,
  cv,
  same,
  bound,
  ap (λ xs. length xs) ends,
  ap (λ xs. length xs) longer,
  length-append rs (r ∷ []),
  length-append w.records more,
)

-- What a publish to a queue leaves of the log.
pub record IsWritten (r : LogRecord) (out : Store) : Type 0 where
  pub last : EndsIn r out.wal
  pub durable : IsDurable out.wal

publish_to-IsWritten :
    (o : Option Queue) (held : List (List ℕ)) (t : Clocks) (s : Store) (q : Queue)
    (payload : List ℕ) (ttl_ms id : ℕ)
    → o ≡ some q
    → q.durable ≡ true
    → IsCounted s.wal
    → IsBehind s.wal
    → length (publish_to o held t s payload ttl_ms).0.wal.records < u64_mod
    → (publish_to o held t s payload ttl_ms).1 ≡ some id
    → IsWritten
        (publish_record q id (expiry t ttl_ms) payload)
        (publish_to o held t s payload ttl_ms).0
unfolding publish_to publish_one
publish_to-IsWritten none held t s q payload ttl_ms id e durable counted behind bound h =
    absurd (cc e)
publish_to-IsWritten (some p) held t s q payload ttl_ms id e durable counted behind bound h =
    let reaped = reap_queue (p.name ∷ held) t s p in
    let kept = reap_queue-HasKept p.name (p.name ∷ held) t s p in
    let out = accept t reaped.0 reaped.1 payload ttl_ms in
    let reaped_log = reap_queue-Logs (p.name ∷ held) t s p in
    let logs = Extends-trans reaped_log (accept-Logs t reaped.0 reaped.1 payload ttl_ms) in
    let reported = report_published-stored s.wal.wal_seq out id h in
    let same : p ≡ q = ground (arith, e) in
    let is_durable : reaped.1.durable ≡ true =
      kept.same.durable ∙ ap (λ x. x.durable) same ∙ durable in
    let wrote = accept-written t reaped.0 reaped.1 payload ttl_ms id is_durable (reported.0) in
    let records = report_published-records s.wal.wal_seq out in
    let name : reaped.1.name ≡ q.name = kept.same.name ∙ ap (λ x. x.name) same in
    let small : length out.0.wal.records < u64_mod =
      subst (λ rs. length rs < u64_mod) records bound in
    let shorter : length reaped.0.wal.records + 1 < u64_mod = omega (
      arith,
      small,
      ap (λ rs. length rs) wrote,
      length-append reaped.0.wal.records
          (publish_record reaped.1 id (expiry t ttl_ms) payload ∷ []),
    ) in
    let reaped_counted = reaped_log.counted counted in
    let ahead =
      accept-ahead t reaped.0 reaped.1 payload ttl_ms id is_durable
        (omega (arith, shorter, reaped_counted))
        (reaped_log.behind (omega (arith, shorter)) counted behind) reported.0 in
    let ne =
      grown-seq s.wal out.0.wal reaped.0.wal.records _ counted (logs.counted counted)
        reaped_log.kept wrote small in
    record {
      last = (
        reaped.0.wal.records,
        records
            ∙ wrote
            ∙ ap
                (λ n.
                  reaped.0.wal.records
                  ++ (record (publish_record q id (expiry t ttl_ms) payload) { name = n }) ∷ [])
                name,
      );
      durable = report_published-IsDurable s.wal.wal_seq out id ne ahead h;
    }

-- A publish to a durable queue that returns an id leaves the message's record, with its id, its
-- expiry and its payload, as the last record of the log, and an fsync has covered the whole log.
-- Before, the sequence number counted the records, and the number for those on disk was not ahead of
-- it; after, the log is shorter than 2^64 records.
pub queue_publish-IsWritten :
    (held : List (List ℕ)) (t : Clocks) (s : Store) (name payload : List ℕ) (ttl_ms id : ℕ)
    (q : Queue)
    → find_queue name s.queues ≡ some q
    → q.durable ≡ true
    → IsCounted s.wal
    → IsBehind s.wal
    → length (queue_publish held t s name payload ttl_ms).0.wal.records < u64_mod
    → (queue_publish held t s name payload ttl_ms).1 ≡ some id
    → IsWritten
        (publish_record q id (expiry t ttl_ms) payload)
        (queue_publish held t s name payload ttl_ms).0
unfolding queue_publish
queue_publish-IsWritten held t s name payload ttl_ms id q e durable counted behind =
    if_cases
      (λ (r : Store × Option ℕ).
        length r.0.wal.records < u64_mod
        → r.1 ≡ some id
        → IsWritten (publish_record q id (expiry t ttl_ms) payload) r.0)
      (not (is_name name) || ltb queue_message_max (length payload)) _ _ (λ _ _ h. absurd (cc h))
      (λ _.
        publish_to-IsWritten (find_queue name s.queues) held t s q payload ttl_ms id e durable
          counted behind)
