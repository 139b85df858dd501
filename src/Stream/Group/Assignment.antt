-- ===== src/Stream/Group/Assignment.antt =====
-- Which member has which partition.
use native.Mathlib.Nat.{mod-lt}
use kuttidb.Base.{
  ℕ, suc, ◌%◌, ◌≤◌, ◌<◌, ◌≡◌, refl, sym, ap, ◌∙◌, Bool, true, List, [], ◌∷◌, arith, if_cases,
  length, get_or, All, ◌==◌, ==_iff,
}
use kuttidb.Stream.{StreamMember, StreamGroup}
use kuttidb.Stream.Group.{group_reap, group_owners, member_assigned, has_member}
use kuttidb.Stream.Group.Owners.{
  IsDistinct, All-weaken, All-sort_owners, All-get_or, length-sort_owners, sort_owners-IsDistinct,
  AreApart-nil, first_place_iff,
}
use kuttidb.Stream.Group.Runs.{IsGroupRun, run-IsGroup}
use kuttidb.Stream.Group.Members.{owners, IsGroup, group_reap-IsGroup}

length-owners : (ms : List StreamMember) → length (owners ms) ≡ length ms
length-owners [] = refl
length-owners (m ∷ ms) = ap suc (length-owners ms)

pub length-group_owners : (g : StreamGroup) → length (group_owners g) ≡ length g.members
unfolding group_owners
length-group_owners g =
    omega (arith, length-sort_owners [] (owners g.members), length-owners g.members)

group_owners-IsDistinct : (g : StreamGroup) → IsGroup g → IsDistinct (group_owners g)
unfolding group_owners
group_owners-IsDistinct g h =
    sort_owners-IsDistinct [] (owners g.members) tt h.distinct (AreApart-nil (owners g.members))

owners-All : (ms : List StreamMember) → All (λ o. has_member o ms ≡ true) (owners ms)
unfolding has_member
owners-All [] = tt
owners-All (m ∷ ms) = (
  ground arith,
  All-weaken {P = λ o. has_member o ms ≡ true}
      (λ o h.
        if_cases (λ (b : Bool). b ≡ true) (m.owner == o) true (has_member o ms) (λ _. refl)
          (λ _. h))
      (owners ms) (owners-All ms),
)

-- The owner at the place of a partition.
abbrev pub owner_of : StreamGroup → ℕ → ℕ
owner_of g p = get_or (group_owners g) (p % length (group_owners g)) 0

place_fits :
    (g : StreamGroup) (p : ℕ)
    → 1 ≤ length g.members
    → p % length (group_owners g) < length (group_owners g)
place_fits g p le = mod-lt p (omega (arith, le, length-group_owners g))

-- In a group with a member after a reap, the test is that of the place's owner.
pub member_assigned_iff :
    (owner p now : ℕ) (g : StreamGroup)
    → IsGroup (group_reap now g)
    → 1 ≤ length (group_reap now g).members
    → (member_assigned owner p now g).1 ≡ (owner_of (group_reap now g) p == owner)
unfolding member_assigned
member_assigned_iff owner p now g h le =
    let g' = group_reap now g in
    first_place_iff (group_owners g') owner (p % length (group_owners g'))
      (group_owners-IsDistinct g' h) (place_fits g' p le)

-- In every state of a group that joins, leaves and ends of leases lead to, and where a lease is left
-- at the time, each partition has exactly one owner: a member with a lease for which the test of
-- assignment holds, and it holds for no other.
pub member_assigned_unique :
    (p now : ℕ) (g : StreamGroup)
    → IsGroupRun g
    → 1 ≤ length (group_reap now g).members
    → (o : ℕ) × (has_member o (group_reap now g).members ≡ true)
      × ((member_assigned o p now g).1 ≡ true)
      × ((o' : ℕ) → (member_assigned o' p now g).1 ≡ true → o' ≡ o)
member_assigned_unique p now g run le =
    let g' = group_reap now g in
    let k = group_reap-IsGroup now g (run-IsGroup run) in
    let o = owner_of g' p in
    (
      o,
      All-get_or (λ x. has_member x g'.members ≡ true) (group_owners g')
          (p % length (group_owners g'))
          (unfold group_owners in
            All-sort_owners (λ x. has_member x g'.members ≡ true) [] (owners g'.members) tt
              (owners-All g'.members))
          (place_fits g' p le),
      member_assigned_iff o p now g k le ∙ (==_iff o o).1 refl,
      λ o' e. sym ((==_iff o o').0 (sym (member_assigned_iff o' p now g k le) ∙ e)),
    )
