-- ===== src/Stream/Trim.antt =====
-- What `trim_part` does to the counters and to a partition's list, in closed form.
use native.Mathlib.Numerals.{unary_clauses}
use kuttidb.Base.{
  total, ℕ, zero, suc, ◌+◌, ◌-◌, ◌≤◌, ◌≡◌, refl, sym, ap, ◌∙◌, some, List, [], ◌∷◌, ◌++◌, arith,
  Bool-cases, if_cases, inl, inr, ltb, if◌then◌else◌, length,
}
use kuttidb.Stream.{
  StreamRecord, StreamPart, StreamTopic, record_bytes, record_live, part_at, set_part, trim_loop,
}

-- The records in front of a boundary, and those from it on.
unfoldable pub cut : ℕ → List StreamRecord → List StreamRecord
cut base [] = []
cut base (r ∷ rs) = if ltb r.offset base then r ∷ cut base rs else []

unfoldable pub kept : ℕ → List StreamRecord → List StreamRecord
kept base [] = []
kept base (r ∷ rs) = if ltb r.offset base then kept base rs else r ∷ rs

module _ (f : StreamRecord → ℕ) where
  pub total-cut :
      (base : ℕ) (rs : List StreamRecord)
      → total f (cut base rs) + total f (kept base rs) ≡ total f rs
  unfolding total cut kept
  total-cut base [] = omega arith
  total-cut base (r ∷ rs) = elim (Bool-cases (ltb r.offset base)) [
    | inl below ↦ rw below (omega (arith, total-cut base rs))
    | inr above ↦ rw above (omega arith)
  ]

pub length-cut :
    (base : ℕ) (rs : List StreamRecord) → length (cut base rs) + length (kept base rs) ≡ length rs
unfolding cut kept
length-cut base [] = omega arith
length-cut base (r ∷ rs) = elim (Bool-cases (ltb r.offset base)) [
  | inl below ↦ rw below (omega (arith, length-cut base rs))
  | inr above ↦ rw above (omega arith)
]

minus_minus : (a b c : ℕ) → a - b - c ≡ a - (b + c)
minus_minus a b c = omega arith

minus_suc : (a b : ℕ) → a - 1 - b ≡ a - suc b
minus_suc a b = omega arith

-- The loop takes what it frees off the four counters.
pub trim_loop-eq :
    (base live : ℕ) (t : StreamTopic) (x : StreamPart) (rs : List StreamRecord)
    → trim_loop base live t x rs ≡ (
      live - total (record_live t.name) (cut base rs),
      record t {
        bytes = t.bytes - total record_bytes (cut base rs);
        records = t.records - length (cut base rs);
      },
      record x { bytes = x.bytes - total record_bytes (cut base rs); held = kept base rs },
    )
unfolding trim_loop cut kept total
trim_loop-eq base live t x [] = simp unary_clauses refl
trim_loop-eq base live t x (r ∷ rs) = elim (Bool-cases (ltb r.offset base)) [
  | inl below ↦
      rw
        (
          below,
          trim_loop-eq base (live - record_live t.name r)
              (record t { bytes = t.bytes - record_bytes r; records = t.records - 1 })
              (record x { bytes = x.bytes - record_bytes r }) rs,
          minus_minus live (record_live t.name r) (total (record_live t.name) (cut base rs)),
          minus_minus t.bytes (record_bytes r) (total record_bytes (cut base rs)),
          minus_minus x.bytes (record_bytes r) (total record_bytes (cut base rs)),
          minus_suc t.records (length (cut base rs)),
        )
        refl
  | inr above ↦ rw above (simp unary_clauses refl)
]

module _ (f : StreamPart → ℕ) where
  -- A partition in the place of another changes a sum by the difference of the two.
  pub total-set_part :
      (p : ℕ) (x x' : StreamPart) (xs : List StreamPart)
      → part_at p xs ≡ some x
      → total f (set_part p x' xs) + f x ≡ total f xs + f x'
  unfolding total
  total-set_part p x x' [] e = cc e
  total-set_part zero x x' (y ∷ xs) e = let same : y ≡ x = cc e in omega (arith, ap f same)
  total-set_part (suc p) x x' (y ∷ xs) e = omega (arith, total-set_part p x x' xs e)

-- A boundary moves up only.
abbrev pub raise : ℕ → ℕ → ℕ
raise to from = if ltb from to then to else from

-- The records stand at each offset from the base to the next one.
abbrev pub Follows : ℕ → ℕ → List StreamRecord → Type 0
Follows base next [] = base ≡ next
Follows base next (r ∷ rs) = (r.offset ≡ base) × Follows (suc base) next rs

pub Follows-le : (base next : ℕ) (rs : List StreamRecord) → Follows base next rs → base ≤ next
Follows-le base next [] h = omega (arith, h)
Follows-le base next (r ∷ rs) h = omega (arith, Follows-le (suc base) next rs h.1)

pub Follows-kept :
    (b base next : ℕ) (rs : List StreamRecord)
    → Follows base next rs
    → Follows (raise b base) (raise b next) (kept b rs)
unfolding kept
Follows-kept b base next [] h = ap (raise b) h
Follows-kept b base next (r ∷ rs) h =
    if_cases (λ ks. Follows (raise b base) (raise b next) ks) (ltb r.offset b) _ _
      (λ below.
        let same : raise b (suc base) ≡ raise b base = ground (arith, below, h.0) in
        rw (sym same) (Follows-kept b (suc base) next rs h.1))
      (λ above.
        let low : raise b base ≡ base = ground (arith, above, h.0) in
        let le = Follows-le (suc base) next rs h.1 in
        let high : raise b next ≡ next = ground (arith, above, h.0, le) in rw (low, high) h)

pub Follows-append :
    (base next : ℕ) (rs : List StreamRecord) (r : StreamRecord)
    → Follows base next rs
    → r.offset ≡ next
    → Follows base (suc next) (rs ++ r ∷ [])
Follows-append base next [] r h e = (e ∙ sym h, ap suc h)
Follows-append base next (s ∷ rs) r h e = (h.0, Follows-append (suc base) next rs r h.1 e)
