-- ===== src/Cache.antt =====
-- src/kuttidb.c: the hash cache. The growth of a vector, the expiry of a time to live and the size
-- classes; the children hold the shards.
pub mod Growth
pub mod Sizes
pub mod Shard
use kuttidb.Base.{
  zero, suc, ℕ, ◌+◌, ◌-◌, ◌*◌, ◌/◌, ◌%◌, ◌^◌, Bool, true, false, not, ◌&&◌, ◌||◌, Option, none,
  some, List, [], ◌∷◌, ◌==◌, leb, ltb, if◌then◌else◌, length, u64_max, u64_mod,
}

-- SIZE_MAX and UINT32_MAX
abbrev pub size_max : ℕ
size_max = 2 ^ 64 - 1

abbrev pub u32_max : ℕ
u32_max = 2 ^ 32 - 1

-- The first guess at a capacity.
unfoldable pub first_capacity : ℕ → ℕ → ℕ
first_capacity cap need =
    if cap == 0
    then 4096
    else if leb (2 ^ 20) cap
    then (if ltb (size_max - cap) (cap / 2) then need else cap + cap / 2)
    else if ltb (size_max / 2) cap
    then need
    else cap * 2

-- `while (ncap < need)`, at most `fuel` rounds.
unfoldable pub grow_loop : ℕ → ℕ → ℕ → ℕ
grow_loop zero ncap need = ncap
grow_loop (suc fuel) ncap need =
    let grow = if leb (2 ^ 20) ncap then ncap / 2 else ncap in
    let rest = grow_loop fuel (ncap + grow) need in
    if leb need ncap then ncap else if ltb (size_max - ncap) grow then need else rest

-- The new capacity, or nothing where the code returns -1: `v->len`, `v->cap` and `extra`.
unfoldable pub vec_reserve : ℕ → ℕ → ℕ → Option ℕ
vec_reserve len cap extra =
    if ltb (size_max - len) extra
    then none
    else if leb (len + extra) cap
    then some cap
    else some (grow_loop (len + extra) (first_capacity cap (len + extra)) (len + extra))

-- Seconds since the epoch at which the entry is gone; 0 for never.
unfoldable pub expiry_from_ttl : ℕ → ℕ → ℕ
expiry_from_ttl now ttl_ms =
    let secs = ttl_ms / 1000 + (if ttl_ms % 1000 == 0 then 0 else 1) in
    let added = now + (if ltb 4294967280 secs then 4294967280 else secs) in
    let capped = if ltb u32_max added then u32_max else added in
    let target = if leb capped now && ltb now u32_max then now + 1 else capped in
    if ttl_ms == 0 then 0 else target % 2 ^ 32

-- `class_sz`.
abbrev pub class_sizes : List ℕ
class_sizes =
    48 ∷ 64 ∷ 80 ∷ 96 ∷ 128 ∷ 160 ∷ 192 ∷ 256 ∷ 320 ∷ 384 ∷ 512 ∷ 640 ∷ 768 ∷ 1024 ∷ 1280 ∷ 1536
    ∷ 2048 ∷ 3072 ∷ 4096 ∷ 6144 ∷ 8192 ∷ 12288 ∷ 16384 ∷ 24576 ∷ 32768 ∷ 49152 ∷ 65536 ∷ []

abbrev pub slab_max_entry : ℕ
slab_max_entry = 4096

-- `while (class_sz[cls] < total) cls++`: the size of the class that is found.
unfoldable pub class_for : List ℕ → ℕ → ℕ
class_for [] total = total
class_for (c ∷ cs) total = if ltb c total then class_for cs total else c

-- The bytes that an entry of this size takes: its own where it is allocated directly.
unfoldable pub allotted : ℕ → ℕ
allotted total = if ltb slab_max_entry total then total else class_for class_sizes total
