-- ===== src/Cache/Sizes.antt =====
-- The room that an entry gets.
use kuttidb.Base.{ℕ, ◌+◌, ◌/◌, ◌≤◌, List, [], ◌∷◌, arith, if_cases, ltb}
use kuttidb.Cache.{class_sizes, slab_max_entry, class_for, allotted}

class_for-room : (cs : List ℕ) (total : ℕ) → total ≤ class_for cs total
unfolding class_for
class_for-room [] total = omega arith
class_for-room (c ∷ cs) total =
    if_cases (λ r. total ≤ r) (ltb c total) _ _ (λ _. class_for-room cs total)
      (λ fits. ground (arith, fits))

-- Each class is at most half larger than the one before, and a few bytes.
abbrev IsDense : ℕ → List ℕ → Type 0
IsDense last [] = Unit
IsDense last (c ∷ cs) = (c ≤ last + last / 2 + 48) × IsDense c cs

class_for-waste :
    (cs : List ℕ) (last total : ℕ)
    → IsDense last cs
    → last ≤ total
    → class_for cs total ≤ total + total / 2 + 48
unfolding class_for
class_for-waste [] last total h le = omega arith
class_for-waste (c ∷ cs) last total h le =
    if_cases (λ r. r ≤ total + total / 2 + 48) (ltb c total) _ _
      (λ larger. class_for-waste cs c total h.1 (ground (arith, larger)))
      (λ _. omega (arith, h.0, le))

-- An entry gets at least the bytes that it needs, and at most half as many again and 48.
pub allotted-bounds :
    (total : ℕ) → (total ≤ allotted total) × (allotted total ≤ total + total / 2 + 48)
unfolding allotted
allotted-bounds total =
    if_cases (λ r. (total ≤ r) × (r ≤ total + total / 2 + 48)) (ltb slab_max_entry total) _ _
      (λ _. (omega arith, omega arith))
      (λ _.
        (class_for-room class_sizes total, class_for-waste class_sizes 0 total dense (omega arith)))
  where
    dense : IsDense 0 class_sizes
    dense = ground arith
