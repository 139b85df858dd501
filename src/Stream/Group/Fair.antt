-- ===== src/Stream/Group/Fair.antt =====
-- Every member of a group has a partition, where there are enough.
use native.Mathlib.Nat.{mod-eq_of_lt}
use kuttidb.Base.{
  ℕ, suc, ◌≤◌, ◌<◌, ◌≡◌, refl, ap, ◌∙◌, true, ◌||◌, some, List, [], ◌∷◌, arith, if_cases,
  Bool-cases, inl, inr, if◌then◌else◌, length, get_or, ltb, ◌==◌, ==_iff,
}
use kuttidb.Stream.{StreamMember, StreamGroup}
use kuttidb.Stream.Group.{
  group_reap, group_owners, insert_owner, sort_owners, first_place, member_assigned, has_member,
}
use kuttidb.Stream.Group.Owners.{first_place-some}
use kuttidb.Stream.Group.Members.{owners, group_reap-IsGroup}
use kuttidb.Stream.Group.Runs.{IsGroupRun, run-IsGroup}
use kuttidb.Stream.Group.Assignment.{owner_of, member_assigned_iff, length-group_owners}
use kuttidb.Stream.Group.Joined.{is_listed, has_member-length}

listed_insert :
    (o x : ℕ) (ys : List ℕ)
    → (x == o || is_listed o ys) ≡ true
    → is_listed o (insert_owner x ys) ≡ true
unfolding insert_owner
listed_insert o x [] h = ground (arith, h)
listed_insert o x (y ∷ ys) h =
    if_cases (λ (os : List ℕ). is_listed o os ≡ true) (ltb x y) _ _ (λ _. ground (arith, h))
      (λ _. elim (Bool-cases (y == o)) [
        | inl same ↦ rw same refl
        | inr other ↦
            let rest : (x == o || is_listed o ys) ≡ true = ground (arith, h, other) in
            rw other (listed_insert o x ys rest)
      ])

-- The sort loses no owner.
listed_sort :
    (o : ℕ) (sorted xs : List ℕ)
    → (is_listed o sorted || is_listed o xs) ≡ true
    → is_listed o (sort_owners sorted xs) ≡ true
unfolding sort_owners
listed_sort o sorted [] h = ground (arith, h)
listed_sort o sorted (x ∷ xs) h = elim (Bool-cases (is_listed o xs)) [
  | inl later ↦ listed_sort o (insert_owner x sorted) xs (ground (arith, later))
  | inr not_later ↦
      let here : (x == o || is_listed o sorted) ≡ true = ground (arith, h, not_later) in
      let kept = listed_insert o x sorted here in
      listed_sort o (insert_owner x sorted) xs (ground (arith, kept))
]

member_listed : (o : ℕ) (ms : List StreamMember) → is_listed o (owners ms) ≡ has_member o ms
unfolding has_member
member_listed o [] = refl
member_listed o (m ∷ ms) = ap (λ b. if m.owner == o then true else b) (member_listed o ms)

listed_place : (o : ℕ) (os : List ℕ) → is_listed o os ≡ true → (i : ℕ) × (first_place o os ≡ some i)
unfolding first_place
listed_place o [] h = cc h
listed_place o (x ∷ xs) h = elim (Bool-cases (x == o)) [
  | inl same ↦ (0, rw same refl)
  | inr other ↦
      let later : is_listed o xs ≡ true = ground (arith, h, other) in
      let place = listed_place o xs later in (suc place.0, rw (other, place.1) refl)
]

-- In every state of a group that joins, leaves and ends of leases lead to, and in a topic with at
-- least as many partitions as there are members whose lease is left, each of those members has a
-- partition.
pub member_assigned_some :
    (o n now : ℕ) (g : StreamGroup)
    → IsGroupRun g
    → has_member o (group_reap now g).members ≡ true
    → length (group_reap now g).members ≤ n
    → (p : ℕ) × (p < n) × ((member_assigned o p now g).1 ≡ true)
member_assigned_some o n now g run there le =
    let g' = group_reap now g in
    let listed : is_listed o (group_owners g') ≡ true =
      unfold group_owners in
      listed_sort o [] (owners g'.members) (member_listed o g'.members ∙ there) in
    let place = listed_place o (group_owners g') listed in
    let at = first_place-some (group_owners g') o place.0 place.1 in
    let same : owner_of g' place.0 ≡ o =
      ap (λ i. get_or (group_owners g') i 0) (mod-eq_of_lt at.0) ∙ at.1 in
    (
      place.0,
      omega (arith, at.0, le, length-group_owners g'),
      member_assigned_iff o place.0 now g (group_reap-IsGroup now g (run-IsGroup run))
            (has_member-length o g'.members there)
          ∙ (==_iff (owner_of g' place.0) o).1 same,
    )
