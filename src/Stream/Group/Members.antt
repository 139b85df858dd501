-- ===== src/Stream/Group/Members.antt =====
-- The members of a group: one of each owner, counted, and no more than the bound.
use kuttidb.Base.{
  ℕ, suc, ◌+◌, ◌-◌, ◌≤◌, ◌≡◌, ◌≢◌, refl, sym, ap, ◌∙◌, false, Option, none, some, List, [], ◌∷◌,
  arith, if_cases, some_cases, Bool-cases, inl, inr, if◌then◌else◌, length, map, All, ltb, leb,
  add64, ◌==◌,
}
use kuttidb.Stream.{StreamMember, StreamGroup}
use kuttidb.Stream.Group.{
  members_max, reap_members, group_reap, has_member, set_deadline, with_member, join_group,
}
use kuttidb.Stream.Group.Owners.{IsDistinct}

abbrev pub owners : List StreamMember → List ℕ
owners ms = map (λ m. m.owner) ms

pub record IsGroup (g : StreamGroup) : Type 0 where
  pub distinct : IsDistinct (owners g.members)
  pub counted : g.member_count ≡ length g.members
  pub bounded : g.member_count ≤ members_max

module _ {ℓ} (P : ℕ → Type ℓ) where
  All-reap_members :
      (now : ℕ) (ms : List StreamMember) (c gen : ℕ)
      → All P (owners ms)
      → All P (owners (reap_members now ms c gen).0)
  unfolding reap_members
  All-reap_members now [] c gen h = tt
  All-reap_members now (m ∷ ms) c gen h =
      if_cases (λ (r : List StreamMember × ℕ × ℕ). All P (owners r.0)) (ltb now m.deadline_ms) _ _
        (λ _. (h.0, All-reap_members now ms c gen h.1)) (λ _. All-reap_members now ms _ _ h.1)

reap_members-IsDistinct :
    (now : ℕ) (ms : List StreamMember) (c gen : ℕ)
    → IsDistinct (owners ms)
    → IsDistinct (owners (reap_members now ms c gen).0)
unfolding reap_members
reap_members-IsDistinct now [] c gen h = tt
reap_members-IsDistinct now (m ∷ ms) c gen h =
    if_cases (λ (r : List StreamMember × ℕ × ℕ). IsDistinct (owners r.0)) (ltb now m.deadline_ms) _
      _
      (λ _. (
        All-reap_members (λ o. o ≢ m.owner) now ms c gen h.0,
        reap_members-IsDistinct now ms c gen h.1,
      ))
      (λ _. reap_members-IsDistinct now ms _ _ h.1)

-- The count goes down with the members; `kept` of them stand in front of those that are still
-- looked at.
reap_members-length :
    (now : ℕ) (ms : List StreamMember) (c gen kept : ℕ)
    → c ≡ kept + length ms
    → ((reap_members now ms c gen).1 ≡ kept + length (reap_members now ms c gen).0)
      × ((reap_members now ms c gen).1 ≤ c)
unfolding reap_members
reap_members-length now [] c gen kept e = (e, omega arith)
reap_members-length now (m ∷ ms) c gen kept e =
    if_cases (λ (r : List StreamMember × ℕ × ℕ). (r.1 ≡ kept + length r.0) × (r.1 ≤ c))
      (ltb now m.deadline_ms) _ _
      (λ _.
        let h = reap_members-length now ms c gen (suc kept) (omega (arith, e)) in
        (omega (arith, h.0), h.1))
      (λ _.
        let c' = if c == 0 then c else c - 1 in
        let less : c' ≡ kept + length ms = ground (arith, e) in
        let h = reap_members-length now ms c' (add64 gen 1) kept less in
        (h.0, omega (arith, h.1, less, e)))

pub group_reap-IsGroup : (now : ℕ) (g : StreamGroup) → IsGroup g → IsGroup (group_reap now g)
unfolding group_reap
group_reap-IsGroup now g h =
    let n =
      reap_members-length now g.members g.member_count g.generation 0 (omega (arith, h.counted)) in
    record {
      distinct = reap_members-IsDistinct now g.members g.member_count g.generation h.distinct;
      counted = omega (arith, n.0);
      bounded = omega (arith, n.1, h.bounded);
    }

has_member-All :
    (owner : ℕ) (ms : List StreamMember)
    → has_member owner ms ≡ false
    → All (λ o. o ≢ owner) (owners ms)
unfolding has_member
has_member-All owner [] h = tt
has_member-All owner (m ∷ ms) h = elim (Bool-cases (m.owner == owner)) [
  | inl same ↦ absurd (ground (arith, same, h))
  | inr other ↦
      let later : has_member owner ms ≡ false = ground (arith, other, h) in
      (λ e. absurd (ground (arith, other, e)), has_member-All owner ms later)
]

pub with_member-IsGroup :
    (owner : ℕ) (g g1 : StreamGroup) → IsGroup g → with_member owner g ≡ some g1 → IsGroup g1
unfolding with_member
with_member-IsGroup owner g g1 h =
    let P = λ (o : Option StreamGroup). o ≡ some g1 → IsGroup g1 in
    if_cases P (has_member owner g.members) (some g) _
      (λ _ e. let at : g ≡ g1 = cc e in rw (sym at) h)
      (λ new.
        let grown = record g {
          members = record { owner = owner; deadline_ms = 0 } ∷ g.members;
          member_count = g.member_count + 1;
          generation = add64 g.generation 1;
        } in
        if_cases P (leb members_max g.member_count) none (some grown) (λ _ e. cc e)
          (λ room e.
            let at : grown ≡ g1 = cc e in
            rw (sym at) record {
              distinct = (has_member-All owner g.members new, h.distinct);
              counted = omega (arith, h.counted);
              bounded = ground (arith, room);
            }))

set_deadline-owners :
    (owner d : ℕ) (ms : List StreamMember)
    → (owners (set_deadline owner d ms) ≡ owners ms)
      × (length (set_deadline owner d ms) ≡ length ms)
unfolding set_deadline
set_deadline-owners owner d [] = (refl, refl)
set_deadline-owners owner d (m ∷ ms) =
    let h = set_deadline-owners owner d ms in
    if_cases
      (λ (r : List StreamMember). (owners r ≡ owners (m ∷ ms)) × (length r ≡ suc (length ms)))
      (m.owner == owner) _ _ (λ _. (refl, refl)) (λ _. (ap (λ os. m.owner ∷ os) h.0, ap suc h.1))

-- The group with the member under its new lease.
abbrev pub leased : ℕ → ℕ → ℕ → StreamGroup → StreamGroup
leased owner lease now g1 =
    group_reap now (record g1 { members = set_deadline owner (add64 now lease) g1.members })

pub leased-IsGroup :
    (owner lease now : ℕ) (g g1 : StreamGroup)
    → IsGroup g
    → with_member owner (group_reap now g) ≡ some g1
    → IsGroup (leased owner lease now g1)
leased-IsGroup owner lease now g g1 h e =
    let k = with_member-IsGroup owner (group_reap now g) g1 (group_reap-IsGroup now g h) e in
    let same = set_deadline-owners owner (add64 now lease) g1.members in
    group_reap-IsGroup now (record g1 { members = set_deadline owner (add64 now lease) g1.members })
      record {
        distinct = rw same.0 k.distinct;
        counted = k.counted ∙ sym same.1;
        bounded = k.bounded;
      }

pub join_group-IsGroup :
    (owner lease now partitions : ℕ) (g : StreamGroup)
    → IsGroup g
    → IsGroup (join_group owner lease now partitions g).0
unfolding join_group
join_group-IsGroup owner lease now partitions g h =
    some_cases (λ (r : StreamGroup × Option (List ℕ × ℕ)). IsGroup r.0)
      (with_member owner (group_reap now g)) _ _ (λ _. group_reap-IsGroup now g h)
      (λ g1 e. leased-IsGroup owner lease now g g1 h e)
