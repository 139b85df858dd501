-- ===== src/Tests/Streams.antt =====
-- Streams at concrete values.
use mathlib.Core.Option.{some-injective}
use kuttidb.Base.{ℕ, ◌+◌, ◌≤◌, ◌<◌, ◌≡◌, ap, refl, true, none, some, [], ◌∷◌, arith}
use kuttidb.Stream.{
  StreamRecord, StreamTopic, StreamGroup, fresh_topic, fresh_parts, append_memory, append_at,
  part_link, new_group,
}
use kuttidb.Stream.Retention.{enforce, victim, age_loop, old_head, held_at, head_at}
use kuttidb.Stream.Counters.{IsCounted}
use kuttidb.Stream.Steps.{TopicCall, call_topic, IsTopicRun, topic_run-IsCounted}
use kuttidb.Stream.Ends.{enforce-ends}
use kuttidb.Stream.Ceiling.{enforce-ceiling}
use kuttidb.Stream.Group.{
  join_group, group_reap, has_member, member_assigned, with_member, set_deadline, reap_members,
  group_owners, sort_owners, insert_owner, owned_from,
}
use kuttidb.Stream.Group.Runs.{GroupCall, call_group, IsGroupRun}
use kuttidb.Stream.Group.Assignment.{member_assigned_unique}
use kuttidb.Stream.Group.Fair.{member_assigned_some}
use kuttidb.Stream.Group.Joined.{is_listed, join_group-agrees}

abbrev record_at : ℕ → StreamRecord
record_at offset = record { offset = offset; at_ms = 5 + offset; body = 1 ∷ 2 ∷ 3 ∷ []; key = [] }

-- A topic "t" of one partition and 4 bytes at most, with none, one and two records.
abbrev topic_none : StreamTopic
topic_none = fresh_topic (116 ∷ []) 1 4 0

abbrev appends : ℕ → TopicCall
appends offset = TopicCall.append 0 (record_at offset)

abbrev topic_one : ℕ × StreamTopic
topic_one = call_topic (appends 0) (0 + (22 + 1)) topic_none

abbrev topic_two : ℕ × StreamTopic
topic_two = call_topic (appends 1) topic_one.0 topic_one.1

topic_two_run : IsTopicRun 0 topic_two.0 topic_two.1
unfolding call_topic append_memory append_at part_link fresh_topic fresh_parts
topic_two_run =
    IsTopicRun.after
      (IsTopicRun.after (IsTopicRun.declared (116 ∷ []) 1 4 0) (appends 0)
        (λ x e. omega (arith, ap (λ y. y.next) (some-injective _ _ e))))
      (appends 1) (λ x e. omega (arith, ap (λ y. y.next) (some-injective _ _ e)))

counted_example : IsCounted 0 topic_two.0 topic_two.1
counted_example = topic_run-IsCounted topic_two_run

ends_example :
    ((p : ℕ)
      → old_head 10
          (age_loop (held_at p topic_two.1) 10 p topic_two.0 topic_two.1 0).1.max_age_ms
          (head_at p (age_loop (held_at p topic_two.1) 10 p topic_two.0 topic_two.1 0).1)
        ≡ none)
    × (victim (enforce 10 topic_two.0 topic_two.1).1 ≡ none)
ends_example = enforce-ends 10 topic_two.0 topic_two.1 (topic_run-IsCounted topic_two_run)

ceiling_example : (enforce 10 topic_two.0 topic_two.1).1.bytes ≤ topic_two.1.max_bytes
unfolding call_topic append_memory append_at part_link fresh_topic fresh_parts
ceiling_example =
    enforce-ceiling 10 topic_two.0 topic_two.1 (topic_run-IsCounted topic_two_run)
      ((omega arith, (omega arith, tt)), tt) (λ e. omega (arith, e))

-- A group of a topic with four partitions, and its first member.
abbrev group_none : StreamGroup
group_none = new_group (103 ∷ []) (0 ∷ 0 ∷ 0 ∷ 0 ∷ [])

abbrev group_one : StreamGroup
group_one = record group_none {
  members = record { owner = 7; deadline_ms = 150 } ∷ [];
  member_count = 1;
  generation = 1;
}

joined : join_group 7 50 100 4 group_none ≡ (group_one, some (0 ∷ 1 ∷ 2 ∷ 3 ∷ [], 1))
unfolding join_group group_reap reap_members with_member has_member set_deadline group_owners
    sort_owners insert_owner owned_from
joined = refl

group_none_run : IsGroupRun group_none
group_none_run = IsGroupRun.made (103 ∷ []) (0 ∷ 0 ∷ 0 ∷ 0 ∷ [])

group_one_run : IsGroupRun group_one
unfolding call_group join_group group_reap reap_members with_member has_member set_deadline
    group_owners sort_owners insert_owner owned_from
group_one_run = IsGroupRun.after group_none_run (GroupCall.join 7 50 100 4)

one_owner_example :
    (o : ℕ) × (has_member o (group_reap 100 group_one).members ≡ true)
    × ((member_assigned o 2 100 group_one).1 ≡ true)
    × ((o' : ℕ) → (member_assigned o' 2 100 group_one).1 ≡ true → o' ≡ o)
unfolding group_reap reap_members
one_owner_example = member_assigned_unique 2 100 group_one group_one_run (omega arith)

agrees_example :
    (has_member 7 group_one.members ≡ true)
    × ((p : ℕ) → p < 4 → is_listed p (0 ∷ 1 ∷ 2 ∷ 3 ∷ []) ≡ (member_assigned 7 p 100 group_one).1)
agrees_example =
    join_group-agrees 7 50 100 4 group_none group_one (0 ∷ 1 ∷ 2 ∷ 3 ∷ []) 1 group_none_run
      (omega arith) (omega arith) joined

fair_example : (p : ℕ) × (p < 4) × ((member_assigned 7 p 100 group_one).1 ≡ true)
unfolding group_reap reap_members has_member
fair_example = member_assigned_some 7 4 100 group_one group_one_run refl (omega arith)
