-- ===== src/Stream.antt =====
-- src/stream.c: the partitions of a topic in memory: `part_link`, `append_memory`, `trim_part`, and
-- the counters that `topic_live` and `stream_debug_recount` count again. The lists of records are
-- lists, and a partition is named by its index. `live` is the store's `live_bytes`. Sums of bytes and
-- counts of objects in memory do not reach their width; offsets and revisions wrap.
pub mod Retention
pub mod Trim
pub mod Counters
pub mod Pass
pub mod Steps
pub mod Heads
pub mod Ends
pub mod Ceiling
pub mod Group
use kuttidb.Base.{
  map, total, ℕ, zero, suc, ◌+◌, ◌-◌, ◌*◌, Bool, true, false, Option, none, some, List, [], ◌∷◌,
  ◌++◌, ◌==◌, ltb, if◌then◌else◌, length, add64,
}

-- `len` and `key_len` are the lengths of the body and the key.
pub record StreamRecord : Type 0 where
  pub offset : ℕ
  pub at_ms : ℕ
  pub body : List ℕ
  pub key : List ℕ

pub record StreamPart : Type 0 where
  pub held : List StreamRecord
  pub base : ℕ
  pub next : ℕ
  pub bytes : ℕ

pub record StreamMember : Type 0 where
  pub owner : ℕ
  pub deadline_ms : ℕ

pub record StreamGroup : Type 0 where
  pub name : List ℕ
  pub offsets : List ℕ
  pub members : List StreamMember
  pub member_count : ℕ
  pub generation : ℕ

-- `partitions` is the length of `parts`. The identity, 16 random bytes, is not modelled; whether it is
-- in the log is.
pub record StreamTopic : Type 0 where
  pub name : List ℕ
  pub parts : List StreamPart
  pub max_bytes : ℕ
  pub max_age_ms : ℕ
  pub bytes : ℕ
  pub records : ℕ
  pub revision : ℕ
  pub id_persisted : Bool
  pub groups : List StreamGroup

abbrev pub record_bytes : StreamRecord → ℕ
record_bytes r = length r.body + length r.key

abbrev pub record_live : List ℕ → StreamRecord → ℕ
record_live name r =
    35 + length name + length r.body + (if length r.key == 0 then 0 else 2 + length r.key)

abbrev pub part_live : List ℕ → StreamPart → ℕ
part_live name x = total (record_live name) x.held

abbrev pub group_live : ℕ → List ℕ → StreamGroup → ℕ
group_live partitions name g = partitions * (25 + length name + length g.name)

unfoldable pub topic_live : StreamTopic → ℕ
topic_live t =
    22
    + length t.name
    + (if t.id_persisted then 18 + length t.name else 0)
    + total (part_live t.name) t.parts
    + total (group_live (length t.parts) t.name) t.groups

abbrev pub part_at : ℕ → List StreamPart → Option StreamPart
part_at p [] = none
part_at zero (x ∷ xs) = some x
part_at (suc p) (x ∷ xs) = part_at p xs

abbrev pub set_part : ℕ → StreamPart → List StreamPart → List StreamPart
set_part p x' [] = []
set_part zero x' (x ∷ xs) = x' ∷ xs
set_part (suc p) x' (x ∷ xs) = x ∷ set_part p x' xs

-- The record goes to the tail of the partition `x`, which is number `p`.
unfoldable pub part_link : ℕ → StreamTopic → ℕ → StreamPart → StreamRecord → ℕ × StreamTopic
part_link live t p x r =
    let x' = record x {
      held = x.held ++ r ∷ [];
      next = add64 x.next 1;
      bytes = x.bytes + record_bytes r;
    } in
    (
      live + record_live t.name r,
      record t {
        parts = set_part p x' t.parts;
        bytes = t.bytes + record_bytes r;
        records = t.records + 1;
        revision = add64 t.revision 1;
      },
    )

-- A partition that the topic does not have, and an offset that is not the next one, are errors.
unfoldable pub append_at :
    Option StreamPart → ℕ → StreamTopic → ℕ → StreamRecord → Option (ℕ × StreamTopic)
append_at none live t p r = none
append_at (some x) live t p r = if r.offset == x.next then some (part_link live t p x r) else none

unfoldable pub append_memory : ℕ → StreamTopic → ℕ → StreamRecord → Option (ℕ × StreamTopic)
unfolding append_at part_link
append_memory live t p r = append_at (part_at p t.parts) live t p r

-- The loop of `trim_part`: it frees the records in front of `base`.
unfoldable pub trim_loop :
    ℕ → ℕ → StreamTopic → StreamPart → List StreamRecord → ℕ × StreamTopic × StreamPart
trim_loop base live t x [] = (live, t, record x { held = [] })
trim_loop base live t x (r ∷ rs) =
    let rest =
      trim_loop base (live - record_live t.name r)
        (record t { bytes = t.bytes - record_bytes r; records = t.records - 1 })
        (record x { bytes = x.bytes - record_bytes r }) rs in
    if ltb r.offset base then rest else (live, t, record x { held = r ∷ rs })

-- Both boundaries go up to `base`, and a new base is a new revision.
unfoldable pub boundaries : ℕ → ℕ → StreamPart → ℕ × StreamTopic × StreamPart → ℕ × StreamTopic
boundaries p base x (live', t', x') =
    let base' = if ltb x'.base base then base else x'.base in
    let next' = if ltb x'.next base then base else x'.next in
    (
      live',
      record t' {
        parts = set_part p (record x' { base = base'; next = next' }) t'.parts;
        revision = if base' == x.base then t'.revision else add64 t'.revision 1;
      },
    )

unfoldable pub trim_at : Option StreamPart → ℕ → StreamTopic → ℕ → ℕ → ℕ × StreamTopic
unfolding boundaries
trim_at none live t p base = (live, t)
trim_at (some x) live t p base = boundaries p base x (trim_loop base live t x x.held)

unfoldable pub trim_part : ℕ → StreamTopic → ℕ → ℕ → ℕ × StreamTopic
unfolding trim_at
trim_part live t p base = trim_at (part_at p t.parts) live t p base

unfoldable pub fresh_parts : ℕ → List StreamPart
fresh_parts zero = []
fresh_parts (suc n) = record { held = []; base = 0; next = 0; bytes = 0 } ∷ fresh_parts n

-- A topic as `add_topic` makes it, at the head of the store's list.
unfoldable pub fresh_topic : List ℕ → ℕ → ℕ → ℕ → StreamTopic
unfolding fresh_parts
fresh_topic name partitions max_bytes max_age_ms = record {
  name = name;
  parts = fresh_parts partitions;
  max_bytes = max_bytes;
  max_age_ms = max_age_ms;
  bytes = 0;
  records = 0;
  revision = 1;
  id_persisted = false;
  groups = [];
}

-- The identity is in the log from now on; a second record of it changes no counter.
unfoldable pub persist_id : ℕ → StreamTopic → ℕ × StreamTopic
persist_id live t =
    if t.id_persisted
    then (live, t)
    else (live + (18 + length t.name), record t { id_persisted = true })

abbrev pub new_group : List ℕ → List ℕ → StreamGroup
new_group name offsets = record {
  name = name;
  offsets = offsets;
  members = [];
  member_count = 0;
  generation = 0;
}

-- The group that a topic does not have yet.
unfoldable pub add_group : ℕ → StreamTopic → List ℕ → ℕ × StreamTopic
add_group live t name = (
  live + length t.parts * (25 + length t.name + length name),
  record t { groups = new_group name (map (λ x. 0) t.parts) ∷ t.groups },
)
