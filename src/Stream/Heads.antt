-- ===== src/Stream/Heads.antt =====
-- The records that the retention pass looks at are heads of partitions.
use kuttidb.Base.{
  ℕ, suc, ◌+◌, ◌≡◌, refl, sym, ap, ◌∙◌, inl, inr, Option, none, some, List, [], ◌∷◌, arith,
  some_cases, if_cases, Option-cases, u64_max, ltb,
}
use kuttidb.Stream.{StreamRecord, StreamPart, StreamTopic, part_at}
use kuttidb.Stream.Retention.{
  oldest_head, victim, is_over, head, head_of, head_at, old_head, is_old,
}

zero_plus : (p : ℕ) → p ≡ p + 0
zero_plus p = omega arith

plus_suc : (p i : ℕ) → suc p + i ≡ p + suc i
plus_suc p i = omega arith

plus_zero : (i : ℕ) → 0 + i ≡ i
plus_zero i = omega arith

-- The head of the partition `p` of the topic is `r`.
pub record IsHead (p : ℕ) (r : StreamRecord) (xs : List StreamPart) : Type 0 where
  pub part : StreamPart
  pub rest : List StreamRecord
  pub there : part_at p xs ≡ some part
  pub first : part.held ≡ r ∷ rest

pub head-eq :
    (rs : List StreamRecord) (r : StreamRecord)
    → head rs ≡ some r
    → (ss : List StreamRecord) × (rs ≡ r ∷ ss)
head-eq [] r e = cc e
head-eq (s ∷ ss) r e = let same : s ≡ r = cc e in (ss, rw same refl)

found_head :
    (xs ys : List StreamPart) (x : StreamPart) (p : ℕ) (r : StreamRecord)
    → ((i : ℕ) → part_at (p + i) ys ≡ part_at i (x ∷ xs))
    → head x.held ≡ some r
    → IsHead p r ys
found_head xs ys x p r at e =
    let there = head-eq x.held r e in
    record {
      part = x;
      rest = there.0;
      there = ap (λ n. part_at n ys) (zero_plus p) ∙ at 0;
      first = there.1;
    }

-- What the search has found is the head of a partition, or what it was given.
pub oldest_head-IsHead :
    (xs ys : List StreamPart) (p oldest : ℕ) (found : Option (ℕ × StreamRecord))
    (v : ℕ × StreamRecord)
    → ((i : ℕ) → part_at (p + i) ys ≡ part_at i xs)
    → ((w : ℕ × StreamRecord) → found ≡ some w → IsHead w.0 w.1 ys)
    → oldest_head xs p oldest found ≡ some v
    → IsHead v.0 v.1 ys
unfolding oldest_head
oldest_head-IsHead [] ys p oldest found v at h e = h v e
oldest_head-IsHead (x ∷ xs) ys p oldest found v at h e =
    let P = λ (o : Option (ℕ × StreamRecord)). o ≡ some v → IsHead v.0 v.1 ys in
    let later : (i : ℕ) → part_at (suc p + i) ys ≡ part_at i xs =
      λ i. ap (λ n. part_at n ys) (plus_suc p i) ∙ at (suc i) in
    some_cases P (head x.held) (oldest_head xs (suc p) oldest found) _
      (λ _. oldest_head-IsHead xs ys (suc p) oldest found v later h)
      (λ r e0.
        if_cases P (ltb r.at_ms oldest) _ _
          (λ _.
            oldest_head-IsHead xs ys (suc p) r.at_ms (some (p, r)) v later (λ w e1.
              let same : (p, r) ≡ w = cc e1 in rw (sym same) (found_head xs ys x p r at e0)))
          (λ _. oldest_head-IsHead xs ys (suc p) oldest found v later h))
      e

pub victim-IsHead :
    (t : StreamTopic) (v : ℕ × StreamRecord) → victim t ≡ some v → IsHead v.0 v.1 t.parts
unfolding victim
victim-IsHead t v =
    if_cases (λ (o : Option (ℕ × StreamRecord)). o ≡ some v → IsHead v.0 v.1 t.parts) (is_over t) _
      _
      (λ _.
        oldest_head-IsHead t.parts t.parts 0 u64_max none v
          (λ i. ap (λ n. part_at n t.parts) (plus_zero i)) (λ w e. absurd (cc e)))
      (λ _ e. absurd (cc e))

old_head-some :
    (now max_age : ℕ) (o : Option StreamRecord) (r : StreamRecord)
    → old_head now max_age o ≡ some r
    → o ≡ some r
old_head-some now max_age none r e = cc e
old_head-some now max_age (some s) r e =
    if_cases (λ (o : Option StreamRecord). o ≡ some r → some s ≡ some r) (is_old now max_age s) _ _
      (λ _ e0. e0) (λ _ e0. cc e0) e

pub old_head-IsHead :
    (now p : ℕ) (t : StreamTopic) (r : StreamRecord)
    → old_head now t.max_age_ms (head_at p t) ≡ some r
    → IsHead p r t.parts
old_head-IsHead now p t r e =
    let at = old_head-some now t.max_age_ms (head_at p t) r e in
    elim (Option-cases (part_at p t.parts)) [
      | inl gone ↦ let bad : none ≡ some r = sym (ap head_of gone) ∙ at in absurd (cc bad)
      | inr (x, there) ↦
          let first = head-eq x.held r (sym (ap head_of there) ∙ at) in
          record { part = x; rest = first.0; there = there; first = first.1 }
    ]
