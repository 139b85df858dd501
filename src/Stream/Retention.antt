-- ===== src/Stream/Retention.antt =====
-- src/stream.c: the retention pass `enforce` in memory, as the opening of a store runs it, with the
-- boundaries that a pass with `persist` writes to the log.
use kuttidb.Base.{
  total, ℕ, zero, suc, Bool, not, ◌&&◌, Option, none, some, List, [], ◌∷◌, ◌==◌, leb, ltb, on_some,
  if◌then◌else◌, length, add64, sub64, u64_max,
}
use kuttidb.Stream.{StreamRecord, StreamPart, StreamTopic, part_at, trim_part}

-- The arrays `touched` and `base`: the partitions that were trimmed in the order of their first
-- trim, each with its last boundary. (A boundary of 0 stands for none: it would take a record with
-- the offset 2^64 - 1.)
abbrev pub touch : ℕ → ℕ → List (ℕ × ℕ) → List (ℕ × ℕ)
touch p b [] = (p, b) ∷ []
touch p b (e ∷ es) = if e.0 == p then (p, b) ∷ es else e ∷ touch p b es

abbrev pub head : List StreamRecord → Option StreamRecord
head [] = none
head (r ∷ rs) = some r

abbrev pub head_of : Option StreamPart → Option StreamRecord
head_of none = none
head_of (some x) = head x.held

abbrev pub head_at : ℕ → StreamTopic → Option StreamRecord
head_at p t = head_of (part_at p t.parts)

-- `now - head->at_ms >= max_age_ms`, unsigned.
abbrev pub is_old : ℕ → ℕ → StreamRecord → Bool
is_old now max_age r = leb max_age (sub64 now r.at_ms)

abbrev pub old_head : ℕ → ℕ → Option StreamRecord → Option StreamRecord
old_head now max_age none = none
old_head now max_age (some r) = if is_old now max_age r then some r else none

-- The loop over one partition: the head goes as long as it is old, and `b` is the last boundary.
unfoldable pub age_loop : ℕ → ℕ → ℕ → ℕ → StreamTopic → ℕ → ℕ × StreamTopic × ℕ
age_loop zero now p live t b = (live, t, b)
age_loop (suc fuel) now p live t b =
    on_some (old_head now t.max_age_ms (head_at p t)) (live, t, b)
      (λ r.
        age_loop fuel now p (trim_part live t p (add64 r.offset 1)).0
          (trim_part live t p (add64 r.offset 1)).1 (add64 r.offset 1))

-- How many records a partition holds: the loop takes that many rounds at most.
abbrev pub held_at : ℕ → StreamTopic → ℕ
held_at p t = on_some (part_at p t.parts) 0 (λ x. length x.held)

unfoldable pub age_part : ℕ → ℕ → ℕ → StreamTopic → List (ℕ × ℕ) → ℕ × StreamTopic × List (ℕ × ℕ)
unfolding age_loop
age_part now p live t touched =
    let (live', t', b) = age_loop (held_at p t) now p live t 0 in
    if t.max_age_ms == 0
    then (live, t, touched)
    else (live', t', if b == 0 then touched else touch p b touched)

-- The partitions from `p` on, `n` of them.
unfoldable pub age_pass :
    ℕ → ℕ → ℕ → ℕ → StreamTopic → List (ℕ × ℕ) → ℕ × StreamTopic × List (ℕ × ℕ)
unfolding age_part
age_pass zero now p live t touched = (live, t, touched)
age_pass (suc n) now p live t touched =
    let (live', t', touched') = age_part now p live t touched in
    age_pass n now (suc p) live' t' touched'

-- The partition whose head is the oldest, with that head; the first one of several.
unfoldable pub oldest_head :
    List StreamPart → ℕ → ℕ → Option (ℕ × StreamRecord) → Option (ℕ × StreamRecord)
oldest_head [] p oldest found = found
oldest_head (x ∷ xs) p oldest found =
    on_some (head x.held) (oldest_head xs (suc p) oldest found) (λ r.
      let older = oldest_head xs (suc p) r.at_ms (some (p, r)) in
      let same = oldest_head xs (suc p) oldest found in if ltb r.at_ms oldest then older else same)

abbrev pub is_over : StreamTopic → Bool
is_over t = not (t.max_bytes == 0) && ltb t.max_bytes t.bytes

unfoldable pub victim : StreamTopic → Option (ℕ × StreamRecord)
unfolding oldest_head
victim t = if is_over t then oldest_head t.parts 0 u64_max none else none

-- As long as the topic has too many bytes, the oldest head goes.
unfoldable pub size_loop : ℕ → ℕ → StreamTopic → List (ℕ × ℕ) → ℕ × StreamTopic × List (ℕ × ℕ)
size_loop zero live t touched = (live, t, touched)
size_loop (suc fuel) live t touched =
    on_some (victim t) (live, t, touched)
      (λ v.
        size_loop fuel (trim_part live t v.0 (add64 v.1.offset 1)).0
          (trim_part live t v.0 (add64 v.1.offset 1)).1 (touch v.0 (add64 v.1.offset 1) touched))

abbrev pub held_in : StreamTopic → ℕ
held_in t = total (λ x. length x.held) t.parts

unfoldable pub enforce : ℕ → ℕ → StreamTopic → ℕ × StreamTopic × List (ℕ × ℕ)
unfolding age_pass size_loop
enforce now live t =
    let (live', t', touched) = age_pass (length t.parts) now 0 live t [] in
    size_loop (held_in t') live' t' touched
