-- ===== src/Stream/Ceiling.antt =====
-- The retention pass leaves a topic within its bound.
use mathlib.Core.Path.{subst}
use kuttidb.Base.{
  total, ℕ, suc, ◌+◌, ◌≤◌, ◌<◌, ◌≡◌, ◌≢◌, refl, sym, ap, ◌∙◌, inl, inr, Option, none, some, List,
  [], ◌∷◌, arith, some_cases, if_cases, Option-cases, All, u64_mod, u64_max, ltb,
}
use kuttidb.Stream.{
  StreamRecord, StreamPart, StreamTopic, record_bytes, part_at, trim_part, trim_at,
}
use kuttidb.Stream.Retention.{enforce, oldest_head, victim, is_over, head}
use kuttidb.Stream.Trim.{kept}
use kuttidb.Stream.Counters.{IsPart, IsCounted, All-part_at, All-set_part, trimmed, trim_part-eq}
use kuttidb.Stream.Pass.{enforce_keeps}
use kuttidb.Stream.Steps.{enforce-IsCounted}
use kuttidb.Stream.Heads.{head-eq}
use kuttidb.Stream.Ends.{enforce-ends}

-- The time of a record is below UINT64_MAX, with which the search starts.
abbrev pub IsDated : StreamRecord → Type 0
IsDated r = r.at_ms < u64_max

abbrev pub AreDated : StreamPart → Type 0
AreDated x = All IsDated x.held

IsDated-kept : (b : ℕ) (rs : List StreamRecord) → All IsDated rs → All IsDated (kept b rs)
unfolding kept
IsDated-kept b [] h = tt
IsDated-kept b (r ∷ rs) h =
    if_cases (λ ks. All IsDated ks) (ltb r.offset b) _ _ (λ _. IsDated-kept b rs h.1) (λ _. h)

-- What the pass keeps of a topic, its counters apart.
abbrev Stays : ℕ → ℕ → StreamTopic → Type 0
Stays m live t = All AreDated t.parts × (t.max_bytes ≡ m)

trim_part-Stays :
    (m live : ℕ) (t : StreamTopic) (p b : ℕ)
    → b < u64_mod
    → Stays m live t
    → Stays m (trim_part live t p b).0 (trim_part live t p b).1
unfolding trim_part trim_at
trim_part-Stays m live t p b fits h = elim (Option-cases (part_at p t.parts)) [
  | inl gone ↦ rw gone h
  | inr (x, e) ↦ rw (trim_part-eq live t p b x e) (
    All-set_part AreDated p (trimmed b x) t.parts h.0
        (IsDated-kept b x.held (All-part_at AreDated p t.parts x h.0 e)),
    h.1,
  )
]

-- A search that has found something finds something.
oldest_head-ne-none :
    (xs : List StreamPart) (p oldest : ℕ) (v : ℕ × StreamRecord)
    → oldest_head xs p oldest (some v) ≢ none
unfolding oldest_head
oldest_head-ne-none [] p oldest v e = cc e
oldest_head-ne-none (x ∷ xs) p oldest v e0 =
    let P = λ (o : Option (ℕ × StreamRecord)). o ≢ none in
    some_cases P (head x.held) _ _ (λ _. oldest_head-ne-none xs (suc p) oldest v)
      (λ r _.
        if_cases P (ltb r.at_ms oldest) _ _ (λ _. oldest_head-ne-none xs (suc p) r.at_ms (p, r))
          (λ _. oldest_head-ne-none xs (suc p) oldest v))
      e0

head-none : (rs : List StreamRecord) → head rs ≡ none → rs ≡ []
head-none [] h = refl
head-none (r ∷ rs) h = cc h

nothing_held : (x : StreamPart) → IsPart x → head x.held ≡ none → x.bytes ≡ 0
unfolding total
nothing_held x part h = part.0 ∙ ap (total record_bytes) (head-none x.held h)

some_held :
    (x : StreamPart) (r : StreamRecord) → AreDated x → head x.held ≡ some r → r.at_ms < u64_max
some_held x r dated h =
    let there = head-eq x.held r h in (subst (λ ss. All IsDated ss) there.1 dated).0

-- No head at all to choose: no bytes.
no_head-bytes :
    (xs : List StreamPart) (p : ℕ)
    → All IsPart xs
    → All AreDated xs
    → oldest_head xs p u64_max none ≡ none
    → total (λ x. x.bytes) xs ≡ 0
unfolding oldest_head total
no_head-bytes [] p parts dated e = refl
no_head-bytes (x ∷ xs) p parts dated none_found =
    let P = λ (o : Option (ℕ × StreamRecord)). o ≡ none → x.bytes + total (λ y. y.bytes) xs ≡ 0 in
    some_cases P (head x.held) _ _
      (λ bare e.
        omega (arith, nothing_held x parts.0 bare, no_head-bytes xs (suc p) parts.1 dated.1 e))
      (λ r e0.
        if_cases P (ltb r.at_ms u64_max) _ _
          (λ _ e. absurd (oldest_head-ne-none xs (suc p) r.at_ms (p, r) e))
          (λ late e. absurd (ground (arith, late, some_held x r dated.0 e0))))
      none_found

within_bound :
    (t : StreamTopic) {rest live : ℕ}
    → IsCounted rest live t
    → All AreDated t.parts
    → t.max_bytes ≢ 0
    → victim t ≡ none
    → t.bytes ≤ t.max_bytes
unfolding victim
within_bound t c dated bound =
    if_cases (λ (o : Option (ℕ × StreamRecord)). o ≡ none → t.bytes ≤ t.max_bytes) (is_over t) _ _
      (λ _ e. omega (arith, c.counts_bytes, no_head-bytes t.parts 0 c.parts_right dated e))
      (λ under _. ground (arith, under, bound))

-- From a topic whose counters are right and whose records have times below UINT64_MAX, the retention
-- pass leaves at most as many bytes as the topic may have, where it has a bound.
pub enforce-ceiling :
    {rest : ℕ} (now live : ℕ) (t : StreamTopic)
    → IsCounted rest live t
    → All AreDated t.parts
    → t.max_bytes ≢ 0
    → (enforce now live t).1.bytes ≤ t.max_bytes
enforce-ceiling {rest} now live t c dated bound =
    let stays =
      enforce_keeps (Stays t.max_bytes) (trim_part-Stays t.max_bytes) now live t (dated, refl) in
    let le =
      within_bound (enforce now live t).1 (enforce-IsCounted now live t c) stays.0
        (λ e. bound (sym stays.1 ∙ e)) (enforce-ends now live t c).1 in
    omega (arith, le, stays.1)
