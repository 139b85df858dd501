-- ===== src/Stream/Ends.antt =====
-- The retention pass ends.
use mathlib.Core.Path.{subst}
use kuttidb.Base.{
  ℕ, zero, suc, ◌≤◌, ◌<◌, ◌≡◌, refl, inl, inr, true, none, some, List, [], ◌∷◌, arith, some_cases,
  Option-cases, length, u64_mod, add64, ltb,
}
use kuttidb.Stream.{StreamRecord, StreamPart, StreamTopic, part_at, set_part, trim_part}
use kuttidb.Stream.Retention.{
  enforce, age_pass, age_loop, size_loop, victim, head_at, held_in, old_head, held_at,
}
use kuttidb.Stream.Trim.{kept, length-cut, total-set_part, Follows, Follows-le}
use kuttidb.Stream.Counters.{
  IsPart, IsCounted, All-part_at, trimmed, trim_part-eq, trim_part-IsCounted,
}
use kuttidb.Stream.Heads.{IsHead, victim-IsHead, old_head-IsHead}
use kuttidb.Stream.Pass.{add64_fits, age_pass_keeps}

length-kept : (b : ℕ) (rs : List StreamRecord) → length (kept b rs) ≤ length rs
length-kept b rs = omega (arith, length-cut b rs)

-- A boundary behind the head takes the head.
kept-shorter :
    (x : StreamPart) (r : StreamRecord) (rs : List StreamRecord)
    → IsPart x
    → x.held ≡ r ∷ rs
    → length (kept (add64 r.offset 1) x.held) < length x.held
unfolding kept
kept-shorter x r rs h e =
    let follows : Follows x.base x.next (r ∷ rs) = subst (λ ss. Follows x.base x.next ss) e h.1.1 in
    let le = Follows-le (suc x.base) x.next rs follows.1 in
    let below : ltb r.offset (add64 r.offset 1) ≡ true = ground (arith, follows.0, le, h.1.0) in
    rw (e, below) (omega (arith, length-kept (add64 r.offset 1) rs))

module _ {rest live : ℕ} {t : StreamTopic} (c : IsCounted rest live t) where
  trim_head-shorter :
      (p : ℕ) (r : StreamRecord)
      → IsHead p r t.parts
      → held_in (trim_part live t p (add64 r.offset 1)).1 < held_in t
  trim_head-shorter p r h =
      let b = add64 r.offset 1 in
      let x = h.part in
      rw (trim_part-eq live t p b x h.there) (
        omega (
          arith,
          total-set_part (λ y. length y.held) p x (trimmed b x) t.parts h.there,
          kept-shorter x r h.rest (All-part_at IsPart p t.parts x c.parts_right h.there) h.first,
        ))

-- With as many rounds as records the loop ends by itself.
size_loop-ends :
    {rest : ℕ} (fuel live : ℕ) (t : StreamTopic) (touched : List (ℕ × ℕ))
    → IsCounted rest live t
    → held_in t ≤ fuel
    → victim (size_loop fuel live t touched).1 ≡ none
unfolding size_loop
size_loop-ends zero live t touched c le = elim (Option-cases (victim t)) [
  | inl done ↦ done
  | inr (v, e) ↦ absurd (omega (arith, le, trim_head-shorter c v.0 v.1 (victim-IsHead t v e)))
]
size_loop-ends (suc fuel) live t touched c le =
    let P = λ (r : ℕ × StreamTopic × List (ℕ × ℕ)). victim r.1 ≡ none in
    some_cases P (victim t) (live, t, touched) _ (λ done. done)
      (λ v e.
        size_loop-ends fuel _ _ _
          (trim_part-IsCounted c v.0 (add64 v.1.offset 1) (add64_fits v.1.offset 1))
          (omega (arith, le, trim_head-shorter c v.0 v.1 (victim-IsHead t v e))))

part_at-set_part :
    (p : ℕ) (x x' : StreamPart) (xs : List StreamPart)
    → part_at p xs ≡ some x
    → part_at p (set_part p x' xs) ≡ some x'
part_at-set_part p x x' [] e = cc e
part_at-set_part zero x x' (y ∷ ys) e = refl
part_at-set_part (suc p) x x' (y ∷ ys) e = part_at-set_part p x x' ys e

module _ {rest live : ℕ} {t : StreamTopic} (c : IsCounted rest live t) where
  trim_head-fewer :
      (p : ℕ) (r : StreamRecord)
      → IsHead p r t.parts
      → held_at p (trim_part live t p (add64 r.offset 1)).1 < held_at p t
  trim_head-fewer p r h =
      let b = add64 r.offset 1 in
      let x = h.part in
      rw
        (
          trim_part-eq live t p b x h.there,
          part_at-set_part p x (trimmed b x) t.parts h.there,
          h.there,
        )
        (kept-shorter x r h.rest (All-part_at IsPart p t.parts x c.parts_right h.there) h.first)

-- The loop over one partition ends by itself too.
age_loop-ends :
    {rest : ℕ} (fuel now p live : ℕ) (t : StreamTopic) (b : ℕ)
    → IsCounted rest live t
    → held_at p t ≤ fuel
    → old_head now
        (age_loop fuel now p live t b).1.max_age_ms
        (head_at p (age_loop fuel now p live t b).1)
      ≡ none
unfolding age_loop
age_loop-ends zero now p live t b c le =
    elim (Option-cases (old_head now t.max_age_ms (head_at p t))) [
      | inl done ↦ done
      | inr (r, e) ↦ absurd (omega (arith, le, trim_head-fewer c p r (old_head-IsHead now p t r e)))
    ]
age_loop-ends (suc fuel) now p live t b c le =
    some_cases (λ (u : ℕ × StreamTopic × ℕ). old_head now u.1.max_age_ms (head_at p u.1) ≡ none)
      (old_head now t.max_age_ms (head_at p t)) (live, t, b) _ (λ done. done)
      (λ r e.
        age_loop-ends fuel now p _ _ (add64 r.offset 1)
          (trim_part-IsCounted c p (add64 r.offset 1) (add64_fits r.offset 1))
          (omega (arith, le, trim_head-fewer c p r (old_head-IsHead now p t r e))))

-- From a topic whose counters are right, the two loops of the retention pass end by themselves, not
-- by the bound on their rounds: the one over a partition, with as many rounds as it has records,
-- leaves no head that is old, and what the whole pass leaves has no more bytes than the topic may
-- have, or no head with a time to choose as the oldest.
pub enforce-ends :
    {rest : ℕ} (now live : ℕ) (t : StreamTopic)
    → IsCounted rest live t
    → ((p : ℕ)
        → old_head now
            (age_loop (held_at p t) now p live t 0).1.max_age_ms
            (head_at p (age_loop (held_at p t) now p live t 0).1)
          ≡ none)
      × (victim (enforce now live t).1 ≡ none)
unfolding enforce
enforce-ends {rest} now live t c =
    let keeps = λ (l : ℕ) (u : StreamTopic) (p b : ℕ) (fits : b < u64_mod) (k : IsCounted rest l u).
      trim_part-IsCounted k p b fits in
    let aged = age_pass (length t.parts) now 0 live t [] in
    (
      λ p. age_loop-ends (held_at p t) now p live t 0 c (omega arith),
      size_loop-ends (held_in aged.1) aged.0 aged.1 aged.2
          (age_pass_keeps (IsCounted rest) keeps (length t.parts) now 0 live t [] c) (omega arith),
    )
