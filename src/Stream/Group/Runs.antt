-- ===== src/Stream/Group/Runs.antt =====
-- Runs of the calls on one group.
use kuttidb.Base.{
  ℕ, suc, ◌≡◌, ◌≢◌, refl, Bool, true, List, [], ◌∷◌, arith, if_cases, Bool-cases, inl, inr, length,
  All, ◌==◌,
}
use kuttidb.Stream.{StreamMember, StreamGroup, new_group}
use kuttidb.Stream.Group.{group_reap, has_member, join_group, drop_member, leave_group}
use kuttidb.Stream.Group.Owners.{IsDistinct}
use kuttidb.Stream.Group.Members.{owners, IsGroup, group_reap-IsGroup, join_group-IsGroup}

module _ {ℓ} (P : ℕ → Type ℓ) where
  All-drop_member :
      (owner : ℕ) (ms : List StreamMember)
      → All P (owners ms)
      → All P (owners (drop_member owner ms))
  unfolding drop_member
  All-drop_member owner [] h = tt
  All-drop_member owner (m ∷ ms) h =
      if_cases (λ (r : List StreamMember). All P (owners r)) (m.owner == owner) _ _ (λ _. h.1)
        (λ _. (h.0, All-drop_member owner ms h.1))

drop_member-IsDistinct :
    (owner : ℕ) (ms : List StreamMember)
    → IsDistinct (owners ms)
    → IsDistinct (owners (drop_member owner ms))
unfolding drop_member
drop_member-IsDistinct owner [] h = tt
drop_member-IsDistinct owner (m ∷ ms) h =
    if_cases (λ (r : List StreamMember). IsDistinct (owners r)) (m.owner == owner) _ _ (λ _. h.1)
      (λ _. (All-drop_member (λ o. o ≢ m.owner) owner ms h.0, drop_member-IsDistinct owner ms h.1))

drop_member-length :
    (owner : ℕ) (ms : List StreamMember)
    → has_member owner ms ≡ true
    → suc (length (drop_member owner ms)) ≡ length ms
unfolding drop_member has_member
drop_member-length owner [] h = cc h
drop_member-length owner (m ∷ ms) h = elim (Bool-cases (m.owner == owner)) [
  | inl same ↦ rw same refl
  | inr other ↦
      let later : has_member owner ms ≡ true = ground (arith, other, h) in
      rw other (omega (arith, drop_member-length owner ms later))
]

leave_group-IsGroup : (owner : ℕ) (g : StreamGroup) → IsGroup g → IsGroup (leave_group owner g).0
unfolding leave_group
leave_group-IsGroup owner g h =
    if_cases (λ (r : StreamGroup × Bool). IsGroup r.0) (has_member owner g.members) _ _
      (λ there.
        let n = drop_member-length owner g.members there in
        record {
          distinct = drop_member-IsDistinct owner g.members h.distinct;
          counted = ground (arith, n, h.counted);
          bounded = ground (arith, h.bounded);
        })
      (λ _. h)

-- What can happen to a group: a member joins or leaves, or the members whose lease has ended go.
pub data GroupCall : Type 0 where
  join : ℕ → ℕ → ℕ → ℕ → GroupCall
  leave : ℕ → GroupCall
  reap : ℕ → GroupCall

unfoldable pub call_group : GroupCall → StreamGroup → StreamGroup
call_group (GroupCall.join owner lease now partitions) g =
    (join_group owner lease now partitions g).0
call_group (GroupCall.leave owner) g = (leave_group owner g).0
call_group (GroupCall.reap now) g = group_reap now g

pub data IsGroupRun : StreamGroup → Type 0 where
  made : (name offsets : List ℕ) → IsGroupRun (new_group name offsets)
  after : {g : StreamGroup} → IsGroupRun g → (c : GroupCall) → IsGroupRun (call_group c g)

-- The members are right in every state of a run.
pub run-IsGroup : {g : StreamGroup} → IsGroupRun g → IsGroup g
unfolding call_group
run-IsGroup (IsGroupRun.made name offsets) = record {
  distinct = tt;
  counted = refl;
  bounded = omega arith;
}
run-IsGroup (IsGroupRun.after {g} run (GroupCall.join owner lease now partitions)) =
    join_group-IsGroup owner lease now partitions g (run-IsGroup run)
run-IsGroup (IsGroupRun.after {g} run (GroupCall.leave owner)) =
    leave_group-IsGroup owner g (run-IsGroup run)
run-IsGroup (IsGroupRun.after {g} run (GroupCall.reap now)) =
    group_reap-IsGroup now g (run-IsGroup run)
