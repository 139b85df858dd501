-- ===== src/Base/Words.antt =====
-- Unsigned machine words as native numbers: every operation wraps at the width of its type.
use Prim.Native.Nat.{ℕ, ◌+◌, ◌-◌, ◌%◌, ◌^◌, ◌<◌}

abbrev pub u32_mod : ℕ
u32_mod = 2 ^ 32

abbrev pub u64_mod : ℕ
u64_mod = 2 ^ 64

-- uint64_t a + b
abbrev pub add64 : ℕ → ℕ → ℕ
add64 a b = (a + b) % u64_mod

-- uint64_t a - b
abbrev pub sub64 : ℕ → ℕ → ℕ
sub64 a b = (a + u64_mod - b) % u64_mod

-- uint32_t a + b
abbrev pub add32 : ℕ → ℕ → ℕ
add32 a b = (a + b) % u32_mod

abbrev pub IsU64 : ℕ → Type 0
IsU64 v = v < u64_mod

abbrev pub IsU32 : ℕ → Type 0
IsU32 v = v < u32_mod

abbrev pub IsByte : ℕ → Type 0
IsByte b = b < 256

-- UINT64_MAX
abbrev pub u64_max : ℕ
u64_max = 2 ^ 64 - 1
