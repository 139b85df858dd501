-- ===== src/Stream/Group.antt =====
-- src/stream.c: the members of a consumer group: `group_reap_locked`, `group_owners_locked`,
-- `member_assigned_locked`, `stream_group_join`, `stream_group_leave_member` and
-- `stream_group_member_assigned`. A call returns the store and its result, none for -1. The clock is
-- an argument.
pub mod Owners
pub mod Members
pub mod Runs
pub mod Assignment
pub mod Joined
pub mod Fair
use kuttidb.Base.{
  ℕ, zero, suc, ◌+◌, ◌-◌, ◌*◌, ◌%◌, Bool, true, false, not, ◌||◌, Option, none, some, List, [], ◌∷◌,
  ◌==◌, leb, ltb, bytes_eq, if◌then◌else◌, on_some, length, get_or, map, add64,
}
use kuttidb.Stream.{StreamMember, StreamGroup, StreamTopic, new_group, add_group}

abbrev pub members_max : ℕ
members_max = 1024

abbrev pub lease_max : ℕ
lease_max = 60_000

abbrev pub group_name_max : ℕ
group_name_max = 255

-- The topics, and the store's `live_bytes`.
pub record StreamStore : Type 0 where
  pub topics : List StreamTopic
  pub live_bytes : ℕ

unfoldable pub find_topic : List ℕ → List StreamTopic → Option StreamTopic
find_topic name [] = none
find_topic name (t ∷ ts) = if bytes_eq t.name name then some t else find_topic name ts

unfoldable pub put_topic : StreamTopic → List StreamTopic → List StreamTopic
put_topic t' [] = []
put_topic t' (t ∷ ts) = if bytes_eq t.name t'.name then t' ∷ ts else t ∷ put_topic t' ts

unfoldable pub find_group : List ℕ → List StreamGroup → Option StreamGroup
find_group name [] = none
find_group name (g ∷ gs) = if bytes_eq g.name name then some g else find_group name gs

unfoldable pub put_group : StreamGroup → List StreamGroup → List StreamGroup
put_group g' [] = []
put_group g' (g ∷ gs) = if bytes_eq g.name g'.name then g' ∷ gs else g ∷ put_group g' gs

-- The members whose lease has ended go; each takes one off the count, and is a new generation.
unfoldable pub reap_members : ℕ → List StreamMember → ℕ → ℕ → List StreamMember × ℕ × ℕ
reap_members now [] count generation = ([], count, generation)
reap_members now (m ∷ ms) count generation =
    let stay = reap_members now ms count generation in
    let gone = reap_members now ms (if count == 0 then count else count - 1) (add64 generation 1) in
    if ltb now m.deadline_ms then (m ∷ stay.0, stay.1, stay.2) else gone

unfoldable pub group_reap : ℕ → StreamGroup → StreamGroup
unfolding reap_members
group_reap now g =
    let (members, count, generation) = reap_members now g.members g.member_count g.generation in
    record g { members = members; member_count = count; generation = generation }

-- The insertion sort: an owner goes behind those that are not above it.
unfoldable pub insert_owner : ℕ → List ℕ → List ℕ
insert_owner x [] = x ∷ []
insert_owner x (y ∷ ys) = if ltb x y then x ∷ y ∷ ys else y ∷ insert_owner x ys

unfoldable pub sort_owners : List ℕ → List ℕ → List ℕ
unfolding insert_owner
sort_owners sorted [] = sorted
sort_owners sorted (x ∷ xs) = sort_owners (insert_owner x sorted) xs

-- The owners of a group that has been reaped.
unfoldable pub group_owners : StreamGroup → List ℕ
unfolding sort_owners
group_owners g = sort_owners [] (map (λ m. m.owner) g.members)

unfoldable pub first_place : ℕ → List ℕ → Option ℕ
first_place owner [] = none
first_place owner (o ∷ os) =
    if o == owner then some 0 else on_some (first_place owner os) none (λ i. some (suc i))

unfoldable pub member_assigned : ℕ → ℕ → ℕ → StreamGroup → StreamGroup × Bool
unfolding group_reap group_owners first_place
member_assigned owner partition now g =
    let g' = group_reap now g in
    let owners = group_owners g' in
    (g', on_some (first_place owner owners) false (λ i. partition % length owners == i))

-- The partitions from `p` on, `n` of them, whose place has the owner.
unfoldable pub owned_from : ℕ → ℕ → List ℕ → ℕ → List ℕ
owned_from zero p owners owner = []
owned_from (suc n) p owners owner =
    let rest = owned_from n (suc p) owners owner in
    if get_or owners (p % length owners) 0 == owner then p ∷ rest else rest

unfoldable pub has_member : ℕ → List StreamMember → Bool
has_member owner [] = false
has_member owner (m ∷ ms) = if m.owner == owner then true else has_member owner ms

unfoldable pub set_deadline : ℕ → ℕ → List StreamMember → List StreamMember
set_deadline owner deadline [] = []
set_deadline owner deadline (m ∷ ms) =
    if m.owner == owner
    then record m { deadline_ms = deadline } ∷ ms
    else m ∷ set_deadline owner deadline ms

-- The group with the member, whose lease is yet to be set; none if the group is full.
unfoldable pub with_member : ℕ → StreamGroup → Option StreamGroup
unfolding has_member
with_member owner g =
    if has_member owner g.members
    then some g
    else if leb members_max g.member_count
    then none
    else some (record g {
      members = record { owner = owner; deadline_ms = 0 } ∷ g.members;
      member_count = g.member_count + 1;
      generation = add64 g.generation 1;
    })

-- A join of a group: the group that is left, and the partitions of the owner with the generation.
unfoldable pub join_group : ℕ → ℕ → ℕ → ℕ → StreamGroup → StreamGroup × Option (List ℕ × ℕ)
unfolding with_member set_deadline group_reap group_owners owned_from
join_group owner lease now partitions g =
    on_some (with_member owner (group_reap now g)) (group_reap now g, none)
      (λ g1.
        let g2 =
          group_reap now
            (record g1 { members = set_deadline owner (add64 now lease) g1.members }) in
        (g2, some (owned_from partitions 0 (group_owners g2) owner, g2.generation)))

abbrev pub store_group : StreamStore → StreamTopic → StreamGroup → StreamStore
store_group s t g = record s {
  topics = put_topic (record t { groups = put_group g t.groups }) s.topics;
}

-- The group of the name, made if it is not there (`group` with `create`), in the store it leaves.
unfoldable pub found_or_created :
    StreamStore → StreamTopic → List ℕ → StreamStore × StreamTopic × StreamGroup
unfolding find_group put_topic add_group
found_or_created s t name =
    on_some (find_group name t.groups)
      (let (live, t') = add_group s.live_bytes t name in
        (
          record s { topics = put_topic t' s.topics; live_bytes = live },
          t',
          new_group name (map (λ x. 0) t.parts),
        ))
      (λ g. (s, t, g))

abbrev pub bad_group_name : List ℕ → Bool
bad_group_name name = length name == 0 || ltb group_name_max (length name)

unfoldable pub stream_group_join :
    StreamStore → List ℕ → List ℕ → ℕ → ℕ → ℕ → StreamStore × Option (List ℕ × ℕ)
unfolding find_topic found_or_created put_group join_group
stream_group_join s name group owner lease now =
    if bad_group_name group || owner == 0 || lease == 0 || ltb lease_max lease
    then (s, none)
    else on_some (find_topic name s.topics) (s, none)
        (λ t.
          let (s', t', g) = found_or_created s t group in
          let (g', out) = join_group owner lease now (length t'.parts) g in
          (store_group s' t' g', out))

unfoldable pub drop_member : ℕ → List StreamMember → List StreamMember
drop_member owner [] = []
drop_member owner (m ∷ ms) = if m.owner == owner then ms else m ∷ drop_member owner ms

-- The group without the member, and whether there was one.
unfoldable pub leave_group : ℕ → StreamGroup → StreamGroup × Bool
unfolding drop_member has_member
leave_group owner g =
    if has_member owner g.members
    then (
      record g {
        members = drop_member owner g.members;
        member_count = if g.member_count == 0 then g.member_count else g.member_count - 1;
        generation = add64 g.generation 1;
      },
      true,
    )
    else (g, false)

unfoldable pub stream_group_leave_member : StreamStore → List ℕ → List ℕ → ℕ → StreamStore × Bool
unfolding leave_group find_topic find_group put_topic put_group
stream_group_leave_member s name group owner =
    if bad_group_name group || owner == 0
    then (s, false)
    else on_some (find_topic name s.topics) (s, false)
        (λ t.
          on_some (find_group group t.groups) (s, false)
            (λ g. let (g', ok) = leave_group owner g in (store_group s t g', ok)))

-- None for a bad argument; false also where the topic, the group or the partition is missing.
unfoldable pub stream_group_member_assigned :
    StreamStore → List ℕ → List ℕ → ℕ → ℕ → ℕ → StreamStore × Option Bool
unfolding member_assigned find_topic find_group put_topic put_group
stream_group_member_assigned s name group owner p now =
    if bad_group_name group || owner == 0
    then (s, none)
    else on_some (find_topic name s.topics) (s, some false)
        (λ t.
          on_some (find_group group t.groups) (s, some false)
            (λ g.
              if leb (length t.parts) p
              then (s, some false)
              else let (g', ok) = member_assigned owner p now g in (store_group s t g', some ok)))
