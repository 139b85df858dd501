-- ===== src/Cache/Growth.antt =====
-- The bounds of a vector that was grown, and of an expiry.
use mathlib.Core.Path.{subst}
use kuttidb.Base.{
  ℕ, zero, suc, ◌+◌, ◌-◌, ◌/◌, ◌^◌, ◌≤◌, ◌<◌, ◌≡◌, ◌≢◌, Option, some, arith, if_cases, leb, ltb,
  if◌then◌else◌,
}
use kuttidb.Cache.{size_max, u32_max, first_capacity, grow_loop, vec_reserve, expiry_from_ttl}

-- As many rounds as the bytes that are missing are enough: each adds one at least.
grow_loop-enough :
    (fuel ncap need : ℕ) → 1 ≤ ncap → need ≤ ncap + fuel → need ≤ grow_loop fuel ncap need
unfolding grow_loop
grow_loop-enough zero ncap need pos le = omega (arith, le)
grow_loop-enough (suc fuel) ncap need pos le =
    let grow = if leb (2 ^ 20) ncap then ncap / 2 else ncap in
    if_cases (λ r. need ≤ r) (leb need ncap) _ _ (λ done. ground (arith, done))
      (λ _.
        if_cases (λ r. need ≤ r) (ltb (size_max - ncap) grow) _ _ (λ _. omega arith)
          (λ _. grow_loop-enough fuel (ncap + grow) need (omega (arith, pos)) (
            if_cases (λ g. need ≤ ncap + g + fuel) (leb (2 ^ 20) ncap) (ncap / 2) ncap
              (λ big. ground (arith, big, le)) (λ _. omega (arith, le, pos)))))

grow_loop-bound :
    (fuel ncap need : ℕ) → ncap ≤ size_max → need ≤ size_max → grow_loop fuel ncap need ≤ size_max
unfolding grow_loop
grow_loop-bound zero ncap need cap le = cap
grow_loop-bound (suc fuel) ncap need cap le =
    let grow = if leb (2 ^ 20) ncap then ncap / 2 else ncap in
    if_cases (λ r. r ≤ size_max) (leb need ncap) _ _ (λ _. cap)
      (λ _.
        if_cases (λ r. r ≤ size_max) (ltb (size_max - ncap) grow) _ _ (λ _. le)
          (λ fits. grow_loop-bound fuel (ncap + grow) need (ground (arith, fits, cap)) le))

first_capacity-bounds :
    (cap need : ℕ)
    → cap ≤ size_max
    → 1 ≤ need
    → need ≤ size_max
    → (1 ≤ first_capacity cap need) × (first_capacity cap need ≤ size_max)
unfolding first_capacity
first_capacity-bounds cap need le pos small = ground (arith, le, pos, small)

-- A reservation that succeeds leaves a capacity that holds what the vector has and the bytes that
-- were asked for, and that fits a `size_t`. The length and the capacity before fit one too.
pub vec_reserve-room :
    (len cap extra ncap : ℕ)
    → len ≤ size_max
    → cap ≤ size_max
    → vec_reserve len cap extra ≡ some ncap
    → (len + extra ≤ ncap) × (ncap ≤ size_max)
unfolding vec_reserve
vec_reserve-room len cap extra ncap fits le =
    if_cases (λ (o : Option ℕ). o ≡ some ncap → (len + extra ≤ ncap) × (ncap ≤ size_max))
      (ltb (size_max - len) extra) _ _ (λ _ h. absurd (cc h))
      (λ small.
        if_cases (λ (o : Option ℕ). o ≡ some ncap → (len + extra ≤ ncap) × (ncap ≤ size_max))
          (leb (len + extra) cap) _ _ (λ there h. (ground (arith, there, h), ground (arith, h, le)))
          (λ short h.
            let need : len + extra ≤ size_max = ground (arith, small, fits) in
            let pos : 1 ≤ len + extra = ground (arith, short) in
            let first = first_capacity-bounds cap (len + extra) le pos need in
            let grown = grow_loop (len + extra) (first_capacity cap (len + extra)) (len + extra) in
            let same : grown ≡ ncap = ground (arith, h) in
            let enough : len + extra ≤ grown =
              grow_loop-enough (len + extra) (first_capacity cap (len + extra)) (len + extra)
                first.0 (omega arith) in
            let bound : grown ≤ size_max =
              grow_loop-bound (len + extra) (first_capacity cap (len + extra)) (len + extra) first.1
                need in
            (subst (λ c. len + extra ≤ c) same enough, subst (λ c. c ≤ size_max) same bound)))

-- The expiry of a time to live that is not 0 is later than now, and fits 32 bits, as long as the
-- clock has not come to the last second that 32 bits hold.
pub expiry_from_ttl-bounds :
    (now ttl_ms : ℕ)
    → ttl_ms ≢ 0
    → now < u32_max
    → (now < expiry_from_ttl now ttl_ms) × (expiry_from_ttl now ttl_ms ≤ u32_max)
unfolding expiry_from_ttl
expiry_from_ttl-bounds now ttl_ms some_ttl early = ground (arith, some_ttl, early)
