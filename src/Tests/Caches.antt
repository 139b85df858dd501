-- ===== src/Tests/Caches.antt =====
-- The theorems on the cache at concrete values.
use kuttidb.Base.{◌∷◌, [], false, ◌+◌, ◌/◌, ◌≤◌, ◌<◌, ◌≡◌, refl, some, arith}
use kuttidb.Cache.{
  size_max, u32_max, first_capacity, grow_loop, vec_reserve, expiry_from_ttl, allotted,
}
use kuttidb.Cache.Growth.{vec_reserve-room, expiry_from_ttl-bounds}
use kuttidb.Cache.Sizes.{allotted-bounds}
use kuttidb.Cache.Shard.{Entry, Shard, Counters, put_abs, get_common, delete}
use kuttidb.Cache.Shard.Resize.{tally, tally_bucket}
use kuttidb.Cache.Shard.Served.{IsServed}
use kuttidb.Cache.Shard.Lookup.{
  IsPut, IsDeleted, IsQuiet, put_abs-IsPut, delete-IsDeleted, get_common-IsQuiet,
}

grown : vec_reserve 4000 4096 10000 ≡ some 16384
unfolding vec_reserve grow_loop first_capacity
grown = refl

room_example : (14000 ≤ 16384) × (16384 ≤ size_max)
room_example = vec_reserve-room 4000 4096 10000 16384 (omega arith) (omega arith) grown

expiry_example : (1000 < expiry_from_ttl 1000 1500) × (expiry_from_ttl 1000 1500 ≤ u32_max)
expiry_example = expiry_from_ttl-bounds 1000 1500 (λ e. absurd (cc e)) (omega arith)

allotted_example : (100 ≤ allotted 100) × (allotted 100 ≤ 100 + 100 / 2 + 48)
allotted_example = allotted-bounds 100

abbrev entry : Entry
entry = record {
  key = 97 ∷ [];
  value = 1 ∷ [];
  exp = 50;
  hash = 6;
  direct = false;
  class_bytes = 48;
}

-- Two buckets, of which the first one is used; the next put of a new key doubles them.
abbrev shard : Shard
shard = record { buckets = (entry ∷ []) ∷ [] ∷ []; nbuckets = 2; count = 4; mem = 64 }

abbrev counters : Counters
counters = record { total_mem = 64; ttl_entries = 1; revision = 0; expired = 0 }

shard-IsServed : IsServed shard
unfolding tally tally_bucket
shard-IsServed = record {
  table = record { size = refl; some_bucket = omega arith };
  placed = ((omega arith, tt), (tt, tt));
  single = λ h key. ground arith;
}

answered_example :
    IsPut shard 7 (98 ∷ []) (2 ∷ 3 ∷ []) 60 (put_abs shard counters 7 (98 ∷ []) (2 ∷ 3 ∷ []) 60).0
answered_example = put_abs-IsPut shard 7 (98 ∷ []) (2 ∷ 3 ∷ []) 60 counters shard-IsServed

delete_example : IsDeleted shard counters 6 (97 ∷ []) (delete shard counters 6 (97 ∷ []))
delete_example = delete-IsDeleted shard counters 6 (97 ∷ []) shard-IsServed

get_example : IsQuiet shard 60 (get_common shard counters 6 (97 ∷ []) 60).0.0
get_example = get_common-IsQuiet shard counters 6 (97 ∷ []) 60 shard-IsServed
