-- ===== src/Stream/Group/Joined.antt =====
-- What a join answers, against the test that commits and fetches make.
use mathlib.Core.Path.{subst}
use mathlib.Core.Option.{some-injective}
use kuttidb.Base.{
  ℕ, zero, suc, ◌+◌, ◌%◌, ◌≤◌, ◌<◌, ◌≡◌, refl, sym, ap, ◌∙◌, Bool, true, false, Option, none, some,
  List, [], ◌∷◌, arith, if_cases, some_cases, Bool-cases, inl, inr, if◌then◌else◌, length, get_or,
  ltb, leb, add64, ◌==◌, ==_iff, u64_mod,
}
use kuttidb.Stream.{StreamMember, StreamGroup}
use kuttidb.Stream.Group.{
  members_max, reap_members, group_reap, group_owners, member_assigned, owned_from, has_member,
  set_deadline, with_member, join_group,
}
use kuttidb.Stream.Group.Runs.{IsGroupRun, run-IsGroup}
use kuttidb.Stream.Group.Members.{IsGroup, leased, leased-IsGroup}
use kuttidb.Stream.Group.Assignment.{owner_of, member_assigned_iff}

abbrev pub is_listed : ℕ → List ℕ → Bool
is_listed p [] = false
is_listed p (q ∷ qs) = if q == p then true else is_listed p qs

module _ (os : List ℕ) (owner : ℕ) where
  listed_later : (n p0 p : ℕ) → p < p0 → is_listed p (owned_from n p0 os owner) ≡ false
  unfolding owned_from
  listed_later zero p0 p le = refl
  listed_later (suc n) p0 p le =
      let later = listed_later n (suc p0) p (omega (arith, le)) in
      if_cases (λ (ps : List ℕ). is_listed p ps ≡ false) (get_or os (p0 % length os) 0 == owner) _ _
        (λ _. ground (arith, le, later)) (λ _. later)

  -- The list has just the partitions whose place has the owner.
  owned_from_listed :
      (n p0 p : ℕ)
      → p0 ≤ p
      → p < p0 + n
      → is_listed p (owned_from n p0 os owner) ≡ (get_or os (p % length os) 0 == owner)
  unfolding owned_from
  owned_from_listed zero p0 p low high = absurd (omega (arith, low, high))
  owned_from_listed (suc n) p0 p low high = elim (Bool-cases (p0 == p)) [
    | inl here ↦
        let at : p0 ≡ p = (==_iff p0 p).0 here in
        let later = listed_later n (suc p) p (omega arith) in
        rw at (
          if_cases (λ (ps : List ℕ). is_listed p ps ≡ (get_or os (p % length os) 0 == owner))
            (get_or os (p % length os) 0 == owner) _ _ (λ mine. rw mine (ground arith))
            (λ other. later ∙ sym other))
    | inr above ↦
        let later =
          owned_from_listed n (suc p0) p (ground (arith, above, low)) (omega (arith, high)) in
        if_cases (λ (ps : List ℕ). is_listed p ps ≡ (get_or os (p % length os) 0 == owner))
          (get_or os (p0 % length os) 0 == owner) _ _ (λ _. rw above later) (λ _. later)
  ]

has_member_with :
    (owner : ℕ) (g g1 : StreamGroup)
    → with_member owner g ≡ some g1
    → has_member owner g1.members ≡ true
unfolding with_member has_member
has_member_with owner g g1 =
    let P = λ (o : Option StreamGroup). o ≡ some g1 → has_member owner g1.members ≡ true in
    if_cases P (has_member owner g.members) (some g) _
      (λ there e. let at : g ≡ g1 = cc e in rw (sym at) there)
      (λ _.
        let grown = record g {
          members = record { owner = owner; deadline_ms = 0 } ∷ g.members;
          member_count = g.member_count + 1;
          generation = add64 g.generation 1;
        } in
        if_cases P (leb members_max g.member_count) none (some grown) (λ _ e. cc e)
          (λ _ e. let at : grown ≡ g1 = cc e in rw (sym at) (ground arith)))

-- A member whose lease was just set is still there after a reap.
has_member_kept :
    (owner now d : ℕ) (ms : List StreamMember) (c gen : ℕ)
    → now < d
    → has_member owner ms ≡ true
    → has_member owner (reap_members now (set_deadline owner d ms) c gen).0 ≡ true
unfolding has_member set_deadline reap_members
has_member_kept owner now d [] c gen le h = cc h
has_member_kept owner now d (m ∷ ms) c gen le h = elim (Bool-cases (m.owner == owner)) [
  | inl same ↦ let live : ltb now d ≡ true = ground (arith, le) in rw (same, live, same) refl
  | inr other ↦
      let there : has_member owner ms ≡ true = ground (arith, other, h) in
      rw other (
        if_cases (λ (r : List StreamMember × ℕ × ℕ). has_member owner r.0 ≡ true)
          (ltb now m.deadline_ms) _ _
          (λ _. rw other (has_member_kept owner now d ms c gen le there))
          (λ _. has_member_kept owner now d ms _ _ le there))
]

-- A second reap at the same time finds nothing.
reap_members-idle :
    (now : ℕ) (ms : List StreamMember) (c gen c' gen' : ℕ)
    → reap_members now (reap_members now ms c gen).0 c' gen'
      ≡ ((reap_members now ms c gen).0, c', gen')
unfolding reap_members
reap_members-idle now [] c gen c' gen' = refl
reap_members-idle now (m ∷ ms) c gen c' gen' = elim (Bool-cases (ltb now m.deadline_ms)) [
  | inl live ↦ rw (live, live, reap_members-idle now ms c gen c' gen') refl
  | inr over ↦ rw over (reap_members-idle now ms _ _ c' gen')
]

group_reap-idle : (now : ℕ) (g : StreamGroup) → group_reap now (group_reap now g) ≡ group_reap now g
unfolding group_reap
group_reap-idle now g =
    rw
      (reap_members-idle now g.members g.member_count g.generation
        (reap_members now g.members g.member_count g.generation).1
        (reap_members now g.members g.member_count g.generation).2)
      refl

pub has_member-length :
    (owner : ℕ) (ms : List StreamMember) → has_member owner ms ≡ true → 1 ≤ length ms
unfolding has_member
has_member-length owner [] h = cc h
has_member-length owner (m ∷ ms) h = omega arith

owned-agrees :
    (owner now n p : ℕ) (g : StreamGroup)
    → IsGroup (group_reap now g)
    → has_member owner (group_reap now g).members ≡ true
    → p < n
    → is_listed p (owned_from n 0 (group_owners (group_reap now g)) owner)
      ≡ (member_assigned owner p now (group_reap now g)).1
owned-agrees owner now n p g h there le =
    let g' = group_reap now g in
    let idle = group_reap-idle now g in
    let members = has_member-length owner g'.members there in
    let test : (member_assigned owner p now g').1 ≡ (owner_of g' p == owner) =
      member_assigned_iff owner p now g' (subst IsGroup (sym idle) h)
        (subst (λ (x : StreamGroup). 1 ≤ length x.members) (sym idle) members)
      ∙ ap (λ x. owner_of x p == owner) idle in
    owned_from_listed (group_owners g') owner n 0 p (omega arith) (omega (arith, le)) ∙ sym test

leased-agrees :
    (owner lease now partitions : ℕ) (g g1 g2 : StreamGroup) (parts : List ℕ) (generation : ℕ)
    → IsGroup g
    → 1 ≤ lease
    → now + lease < u64_mod
    → with_member owner (group_reap now g) ≡ some g1
    → leased owner lease now g1 ≡ g2
    → owned_from partitions 0 (group_owners (leased owner lease now g1)) owner ≡ parts
    → (has_member owner g2.members ≡ true)
      × ((p : ℕ) → p < partitions → is_listed p parts ≡ (member_assigned owner p now g2).1)
leased-agrees owner lease now partitions g g1 g2 parts generation h pos fits found at listed =
    let d = add64 now lease in
    let set = record g1 { members = set_deadline owner d g1.members } in
    let there : has_member owner (leased owner lease now g1).members ≡ true =
      unfold group_reap in
      has_member_kept owner now d g1.members g1.member_count g1.generation
        (ground (arith, pos, fits)) (has_member_with owner (group_reap now g) g1 found) in
    let right = leased-IsGroup owner lease now g g1 h found in
    rw (sym at, sym listed) (there, λ p le. owned-agrees owner now partitions p set right there le)

-- In every state of a group that joins, leaves and ends of leases lead to, a join that answers leaves
-- its owner a member of the group, and the partitions it answers are just those for which the test
-- of assignment holds right after it. The lease is not 0, and ends before the clock does.
pub join_group-agrees :
    (owner lease now partitions : ℕ) (g g2 : StreamGroup) (parts : List ℕ) (generation : ℕ)
    → IsGroupRun g
    → 1 ≤ lease
    → now + lease < u64_mod
    → join_group owner lease now partitions g ≡ (g2, some (parts, generation))
    → (has_member owner g2.members ≡ true)
      × ((p : ℕ) → p < partitions → is_listed p parts ≡ (member_assigned owner p now g2).1)
unfolding join_group
join_group-agrees owner lease now partitions g g2 parts generation run pos fits e =
    let P = λ (r : StreamGroup × Option (List ℕ × ℕ)).
      r ≡ (g2, some (parts, generation))
      → (has_member owner g2.members ≡ true)
        × ((p : ℕ) → p < partitions → is_listed p parts ≡ (member_assigned owner p now g2).1) in
    some_cases P (with_member owner (group_reap now g)) (group_reap now g, none)
      (λ g1. (
        leased owner lease now g1,
        some (
          owned_from partitions 0 (group_owners (leased owner lease now g1)) owner,
          (leased owner lease now g1).generation,
        ),
      ))
      (λ _ e0. let bad : none ≡ some (parts, generation) = ap (λ r. r.1) e0 in absurd (cc bad))
      (λ g1 found e0.
        leased-agrees owner lease now partitions g g1 g2 parts generation (run-IsGroup run) pos fits
          found (ap (λ r. r.0) e0)
          (ap (λ (r : List ℕ × ℕ). r.0) (some-injective _ _ (ap (λ r. r.1) e0))))
      e
