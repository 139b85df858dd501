-- ===== src/Cache/Shard.antt =====
-- src/kuttidb.c: one shard under its lock: `kuttidb_put_abs` (from the lock on), `maybe_resize`,
-- `lookup_copy`, `get_common` and `kuttidb_delete`. The counters of the whole cache stand beside the
-- shard. Memory is allocated without failure, and the slabs and the freelists are not modelled: an
-- entry has the bytes of its class, or its own where no class takes it.
pub mod Resize
pub mod Moved
pub mod Served
pub mod Stored
pub mod Lookup
use kuttidb.Base.{
  ℕ, zero, suc, ◌+◌, ◌-◌, ◌*◌, ◌/◌, ◌%◌, ◌^◌, Bool, true, false, not, ◌&&◌, ◌||◌, Option, none,
  some, List, [], ◌∷◌, ◌==◌, leb, ltb, bytes_eq, if◌then◌else◌, length, add64, sub64, u64_mod,
}
use kuttidb.Cache.{slab_max_entry, allotted}

-- `vlen` is given by the value; `sizeof(Entry)` is 32. An entry that no class takes is `direct`
-- (`DIRECT_CLS`), and `class_bytes` are the bytes of the class of any other.
pub record Entry : Type 0 where
  pub key : List ℕ
  pub value : List ℕ
  pub exp : ℕ
  pub hash : ℕ
  pub direct : Bool
  pub class_bytes : ℕ

pub record Shard : Type 0 where
  pub buckets : List (List Entry)
  pub nbuckets : ℕ
  pub count : ℕ
  pub mem : ℕ

pub record Counters : Type 0 where
  pub total_mem : ℕ
  pub ttl_entries : ℕ
  pub revision : ℕ
  pub expired : ℕ

abbrev pub entry_head : ℕ
entry_head = 32

abbrev pub entry_size : List ℕ → List ℕ → ℕ
entry_size key value = entry_head + length key + length value

-- `entry_capacity`, and what `entry_free` gives back.
abbrev pub entry_capacity : Entry → ℕ
entry_capacity e = if e.direct then entry_size e.key e.value else e.class_bytes

abbrev pub has_key : ℕ → List ℕ → Entry → Bool
has_key h key e = e.hash == h && bytes_eq e.key key

unfoldable pub is_expired : ℕ → Entry → Bool
is_expired now e = not (e.exp == 0) && leb e.exp now

unfoldable pub bucket_at : ℕ → List (List Entry) → List Entry
bucket_at i [] = []
bucket_at zero (b ∷ bs) = b
bucket_at (suc i) (b ∷ bs) = bucket_at i bs

unfoldable pub set_bucket : ℕ → List Entry → List (List Entry) → List (List Entry)
set_bucket i b' [] = []
set_bucket zero b' (b ∷ bs) = b' ∷ bs
set_bucket (suc i) b' (b ∷ bs) = b ∷ set_bucket i b' bs

unfoldable pub find_entry : ℕ → List ℕ → List Entry → Option Entry
find_entry h key [] = none
find_entry h key (e ∷ es) = if has_key h key e then some e else find_entry h key es

-- Writing in the place of the entry that was found.
unfoldable pub put_entry : ℕ → List ℕ → Entry → List Entry → List Entry
put_entry h key e' [] = []
put_entry h key e' (e ∷ es) = if has_key h key e then e' ∷ es else e ∷ put_entry h key e' es

unfoldable pub drop_entry : ℕ → List ℕ → List Entry → List Entry
drop_entry h key [] = []
drop_entry h key (e ∷ es) = if has_key h key e then es else e ∷ drop_entry h key es

-- `h & (nbuckets - 1)`, for a power of two.
abbrev pub index : ℕ → ℕ → ℕ
index h n = h % n

abbrev pub new_entry : ℕ → List ℕ → List ℕ → ℕ → Entry
new_entry h key value exp = record {
  key = key;
  value = value;
  exp = exp;
  hash = h;
  direct = ltb slab_max_entry (entry_size key value);
  class_bytes = allotted (entry_size key value);
}

-- `entry_alloc` and `entry_free`: the counters.
abbrev grown : ℕ → Shard → Shard
grown n s = record s { mem = add64 s.mem n }

abbrev shrunk : ℕ → Shard → Shard
shrunk n s = record s { mem = sub64 s.mem n }

-- The entries that expire, as one takes the place of another.
abbrev pub ttl_change : ℕ → ℕ → ℕ → ℕ
ttl_change old new ttl =
    if old == 0 && not (new == 0)
    then add64 ttl 1
    else if not (old == 0) && new == 0
    then sub64 ttl 1
    else ttl

unfoldable pub move_all : ℕ → List Entry → List (List Entry) → List (List Entry)
move_all newn [] nb = nb
move_all newn (e ∷ es) nb =
    move_all newn es (set_bucket (index e.hash newn) (e ∷ bucket_at (index e.hash newn) nb) nb)

unfoldable pub rehash : ℕ → List (List Entry) → List (List Entry) → List (List Entry)
rehash newn [] nb = nb
rehash newn (b ∷ bs) nb = rehash newn bs (move_all newn b nb)

unfoldable pub empty_buckets : ℕ → List (List Entry)
empty_buckets zero = []
empty_buckets (suc n) = [] ∷ empty_buckets n

-- A pointer takes 8 bytes.
unfoldable pub maybe_resize : Shard → Counters → Shard × Counters
maybe_resize s c =
    let newn = s.nbuckets * 2 in
    let delta = newn * 8 - s.nbuckets * 8 in
    if leb s.count newn then (s, c) else (
      record s {
        buckets = rehash newn s.buckets (empty_buckets newn);
        nbuckets = newn;
        mem = add64 s.mem delta;
      },
      record c { total_mem = add64 c.total_mem delta },
    )

-- The entry is there: it is overwritten where the new value fits, and replaced otherwise.
unfoldable pub overwrite : Entry → Shard → Counters → ℕ → List ℕ → List ℕ → ℕ → Shard × Counters
overwrite e s c h key value exp =
    let i = index h s.nbuckets in
    let bucket = bucket_at i s.buckets in
    let in_place = record e { value = value; exp = exp } in
    let fresh = new_entry h key value exp in
    let changed = record c {
      ttl_entries = ttl_change e.exp exp c.ttl_entries;
      revision = add64 c.revision 1;
    } in
    if leb (entry_size key value) (entry_capacity e)
    then (record s { buckets = set_bucket i (put_entry h key in_place bucket) s.buckets }, changed)
    else (
      record s {
        buckets = set_bucket i (put_entry h key fresh bucket) s.buckets;
        mem = sub64 (add64 s.mem (entry_capacity fresh)) (entry_capacity e);
      },
      record changed {
        total_mem = sub64 (add64 c.total_mem (entry_capacity fresh)) (entry_capacity e);
      },
    )

-- A new entry stands in front of its bucket.
unfoldable pub insert : Shard → Counters → ℕ → List ℕ → List ℕ → ℕ → Shard × Counters
insert s c h key value exp =
    let i = index h s.nbuckets in
    let e = new_entry h key value exp in
    let (s', c') =
      maybe_resize
        (record s {
          buckets = set_bucket i (e ∷ bucket_at i s.buckets) s.buckets;
          count = s.count + 1;
          mem = add64 s.mem (entry_capacity e);
        })
        (record c {
          total_mem = add64 c.total_mem (entry_capacity e);
          ttl_entries = if exp == 0 then c.ttl_entries else add64 c.ttl_entries 1;
        }) in
    (s', record c' { revision = add64 c'.revision 1 })

unfoldable pub put_found :
    Option Entry → Shard → Counters → ℕ → List ℕ → List ℕ → ℕ → Shard × Counters
put_found none s c h key value exp = insert s c h key value exp
put_found (some e) s c h key value exp = overwrite e s c h key value exp

unfoldable pub put_abs : Shard → Counters → ℕ → List ℕ → List ℕ → ℕ → Shard × Counters
put_abs s c h key value exp =
    put_found (find_entry h key (bucket_at (index h s.nbuckets) s.buckets)) s c h key value exp

-- `remove_locked` and the removal of `kuttidb_delete`, of the entry `e` that was found.
unfoldable pub removed : Entry → Shard → Counters → ℕ → List ℕ → Shard × Counters
removed e s c h key =
    let i = index h s.nbuckets in
    (
      record s {
        buckets = set_bucket i (drop_entry h key (bucket_at i s.buckets)) s.buckets;
        count = s.count - 1;
        mem = sub64 s.mem (entry_capacity e);
      },
      record c {
        ttl_entries = if e.exp == 0 then c.ttl_entries else sub64 c.ttl_entries 1;
        total_mem = sub64 c.total_mem (entry_capacity e);
      },
    )

unfoldable pub get_found :
    Option Entry → Shard → Counters → ℕ → List ℕ → ℕ → (Shard × Counters) × Option (List ℕ)
get_found none s c h key now = ((s, c), none)
get_found (some e) s c h key now =
    let (s', c') = removed e s c h key in
    if is_expired now e
    then ((s', record c' { expired = add64 c'.expired 1 }), none)
    else ((s, c), some e.value)

-- The value, if there is one that has not expired; an expired entry is removed.
unfoldable pub get_common : Shard → Counters → ℕ → List ℕ → ℕ → (Shard × Counters) × Option (List ℕ)
get_common s c h key now =
    get_found (find_entry h key (bucket_at (index h s.nbuckets) s.buckets)) s c h key now

unfoldable pub delete_found :
    Option Entry → Shard → Counters → ℕ → List ℕ → (Shard × Counters) × Bool
delete_found none s c h key = ((s, c), false)
delete_found (some e) s c h key =
    let (s', c') = removed e s c h key in ((s', record c' { revision = add64 c'.revision 1 }), true)

unfoldable pub delete : Shard → Counters → ℕ → List ℕ → (Shard × Counters) × Bool
delete s c h key =
    delete_found (find_entry h key (bucket_at (index h s.nbuckets) s.buckets)) s c h key
