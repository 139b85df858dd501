-- ===== src/Stream/Steps.antt =====
-- Runs of the operations on one topic: it is declared, and then records are appended, trimmed and
-- retained in any order.
use kuttidb.Base.{
  if◌then◌else◌, Bool, ap, total, ℕ, zero, suc, ◌+◌, ◌<◌, ◌≡◌, refl, Option, none, some, List,
  arith, if_cases, length, All, u64_mod, ◌==◌,
}
use kuttidb.Stream.{
  persist_id, add_group, StreamRecord, StreamPart, StreamTopic, part_at, append_memory, append_at,
  trim_part, topic_live, fresh_topic, fresh_parts, part_live,
}
use kuttidb.Stream.Retention.{enforce}
use kuttidb.Stream.Pass.{enforce_keeps}
use kuttidb.Stream.Counters.{IsPart, IsCounted, trim_part-IsCounted, part_link-IsCounted}

pub enforce-IsCounted :
    {rest : ℕ} (now live : ℕ) (t : StreamTopic)
    → IsCounted rest live t
    → IsCounted rest (enforce now live t).0 (enforce now live t).1
enforce-IsCounted {rest} now live t =
    enforce_keeps (IsCounted rest) (λ l u p b fits c. trim_part-IsCounted c p b fits) now live t

-- What can happen to a topic.
pub data TopicCall : Type 0 where
  append : ℕ → StreamRecord → TopicCall
  trim : ℕ → ℕ → TopicCall
  retain : ℕ → TopicCall
  identify : TopicCall
  group : List ℕ → TopicCall

-- An append that fails changes nothing.
abbrev or_same : Option (ℕ × StreamTopic) → ℕ → StreamTopic → ℕ × StreamTopic
or_same none live t = (live, t)
or_same (some done) live t = done

unfoldable pub call_topic : TopicCall → ℕ → StreamTopic → ℕ × StreamTopic
call_topic (TopicCall.append p r) live t = or_same (append_memory live t p r) live t
call_topic (TopicCall.trim p b) live t = trim_part live t p b
call_topic (TopicCall.retain now) live t = ((enforce now live t).0, (enforce now live t).1)
call_topic TopicCall.identify live t = persist_id live t
call_topic (TopicCall.group name) live t = add_group live t name

-- A boundary is a word, and a partition that takes a record has an offset left.
abbrev pub IsPossible : TopicCall → StreamTopic → Type 0
IsPossible (TopicCall.append p r) t =
    (x : StreamPart) → part_at p t.parts ≡ some x → x.next + 1 < u64_mod
IsPossible (TopicCall.trim p b) t = b < u64_mod
IsPossible (TopicCall.retain now) t = Unit {0}
IsPossible TopicCall.identify t = Unit {0}
IsPossible (TopicCall.group name) t = Unit {0}

pub data IsTopicRun (rest : ℕ) : ℕ → StreamTopic → Type 0 where
  declared :
      (name : List ℕ) (partitions max_bytes max_age_ms : ℕ)
      → IsTopicRun rest
          (rest + (22 + length name))
          (fresh_topic name partitions max_bytes max_age_ms)
  after :
      {live : ℕ} {t : StreamTopic}
      → IsTopicRun rest live t
      → (call : TopicCall) → IsPossible call t
      → IsTopicRun rest (call_topic call live t).0 (call_topic call live t).1

fresh_parts-IsPart :
    (n : ℕ)
    → All IsPart (fresh_parts n)
      × ((name : List ℕ) → total (part_live name) (fresh_parts n) ≡ 0)
      × (total (λ x. x.bytes) (fresh_parts n) ≡ 0)
      × (total (λ x. length x.held) (fresh_parts n) ≡ 0)
unfolding fresh_parts total
fresh_parts-IsPart zero = (tt, λ _. refl, refl, refl)
fresh_parts-IsPart (suc n) =
    let h = fresh_parts-IsPart n in
    (
      ((refl, (omega arith, refl)), h.0),
      λ name. omega (arith, h.1 name),
      omega (arith, h.2),
      omega (arith, h.3),
    )

fresh_topic-IsCounted :
    (rest : ℕ) (name : List ℕ) (partitions max_bytes max_age_ms : ℕ)
    → IsCounted rest (rest + (22 + length name)) (fresh_topic name partitions max_bytes max_age_ms)
unfolding fresh_topic topic_live total
fresh_topic-IsCounted rest name partitions max_bytes max_age_ms =
    let h = fresh_parts-IsPart partitions in
    record {
      counts_live = omega (arith, h.1 name);
      counts_bytes = omega (arith, h.2);
      counts_records = omega (arith, h.3);
      parts_right = h.0;
    }

append_at-IsCounted :
    {rest : ℕ} (live : ℕ) (t : StreamTopic) (p : ℕ) (r : StreamRecord) (o : Option StreamPart)
    → part_at p t.parts ≡ o
    → IsPossible (TopicCall.append p r) t
    → IsCounted rest live t
    → IsCounted rest
        (or_same (append_at o live t p r) live t).0
        (or_same (append_at o live t p r) live t).1
unfolding append_at
append_at-IsCounted live t p r none e room c = c
append_at-IsCounted {rest} live t p r (some x) e room c =
    if_cases
      (λ (o : Option (ℕ × StreamTopic)). IsCounted rest (or_same o live t).0 (or_same o live t).1)
      (r.offset == x.next) _ _
      (λ same. part_link-IsCounted c p x r e (ground (arith, same)) (room x e)) (λ _. c)

persist_id-IsCounted :
    {rest : ℕ} (live : ℕ) (t : StreamTopic)
    → IsCounted rest live t
    → IsCounted rest (persist_id live t).0 (persist_id live t).1
unfolding persist_id topic_live
persist_id-IsCounted {rest} live t c =
    if_cases (λ (r : ℕ × StreamTopic). IsCounted rest r.0 r.1) t.id_persisted _ _ (λ _. c)
      (λ new. record {
        counts_live =
            omega
              (arith, c.counts_live, ap (λ (b : Bool). if b then 18 + length t.name else 0) new);
        counts_bytes = c.counts_bytes;
        counts_records = c.counts_records;
        parts_right = c.parts_right;
      })

add_group-IsCounted :
    {rest : ℕ} (live : ℕ) (t : StreamTopic) (name : List ℕ)
    → IsCounted rest live t
    → IsCounted rest (add_group live t name).0 (add_group live t name).1
unfolding add_group topic_live total
add_group-IsCounted live t name c = record {
  counts_live = omega (arith, c.counts_live);
  counts_bytes = c.counts_bytes;
  counts_records = c.counts_records;
  parts_right = c.parts_right;
}

-- In every state of a topic that declaring it, appends, trims, retention passes, new
-- groups and the record of its identity lead to, while offsets last: the store's estimate of live bytes is what a full count of the topic and the rest
-- gives, the topic's counters of bytes and of records are what its partitions hold, and each
-- partition holds exactly one record at each offset from its base to its next one, in order, and
-- knows their bytes.
pub topic_run-IsCounted :
    {rest live : ℕ} {t : StreamTopic} → IsTopicRun rest live t → IsCounted rest live t
unfolding call_topic append_memory
topic_run-IsCounted {rest} (IsTopicRun.declared name partitions max_bytes max_age_ms) =
    fresh_topic-IsCounted rest name partitions max_bytes max_age_ms
topic_run-IsCounted (IsTopicRun.after {live} {t} run (TopicCall.append p r) room) =
    append_at-IsCounted live t p r (part_at p t.parts) refl room (topic_run-IsCounted run)
topic_run-IsCounted (IsTopicRun.after run (TopicCall.trim p b) fits) =
    trim_part-IsCounted (topic_run-IsCounted run) p b fits
topic_run-IsCounted (IsTopicRun.after {live} {t} run (TopicCall.retain now) _) =
    enforce-IsCounted now live t (topic_run-IsCounted run)
topic_run-IsCounted (IsTopicRun.after {live} {t} run TopicCall.identify _) =
    persist_id-IsCounted live t (topic_run-IsCounted run)
topic_run-IsCounted (IsTopicRun.after {live} {t} run (TopicCall.group name) _) =
    add_group-IsCounted live t name (topic_run-IsCounted run)
