-- ===== src/Stream/Group/Owners.antt =====
-- The sorted list of owners: the sort keeps what the list has, and each owner has one place.
use mathlib.Core.Path.{subst}
use kuttidb.Base.{
  ℕ, zero, suc, ◌+◌, ◌<◌, ◌≡◌, ◌≢◌, refl, sym, ap, ◌∙◌, Bool, true, false, Option, none, some, List,
  [], ◌∷◌, arith, if_cases, some_cases, on_some, Bool-cases, inl, inr, length, get_or, All, ltb,
  ◌==◌, ==_iff,
}
use kuttidb.Stream.Group.{insert_owner, sort_owners, first_place}

abbrev pub IsDistinct : List ℕ → Type 0
IsDistinct [] = Unit {0}
IsDistinct (x ∷ xs) = All (λ y. y ≢ x) xs × IsDistinct xs

module _ {ℓ κ} {P : ℕ → Type ℓ} {Q : ℕ → Type κ} where
  pub All-weaken : (f : (x : ℕ) → P x → Q x) (xs : List ℕ) → All P xs → All Q xs
  All-weaken f [] h = tt
  All-weaken f (x ∷ xs) h = (f x h.0, All-weaken f xs h.1)

module _ {ℓ} (P : ℕ → Type ℓ) where
  All-insert_owner : (x : ℕ) (ys : List ℕ) → P x → All P ys → All P (insert_owner x ys)
  unfolding insert_owner
  All-insert_owner x [] h k = (h, tt)
  All-insert_owner x (y ∷ ys) h k =
      if_cases (λ r. All P r) (ltb x y) _ _ (λ _. (h, k)) (λ _. (k.0, All-insert_owner x ys h k.1))

  pub All-sort_owners :
      (sorted xs : List ℕ) → All P sorted → All P xs → All P (sort_owners sorted xs)
  unfolding sort_owners
  All-sort_owners sorted [] h k = h
  All-sort_owners sorted (x ∷ xs) h k =
      All-sort_owners (insert_owner x sorted) xs (All-insert_owner x sorted k.0 h) k.1

  pub All-get_or : (xs : List ℕ) (i : ℕ) → All P xs → i < length xs → P (get_or xs i 0)
  All-get_or [] i h le = absurd (omega (arith, le))
  All-get_or (x ∷ xs) zero h le = h.0
  All-get_or (x ∷ xs) (suc i) h le = All-get_or xs i h.1 (omega (arith, le))

length-insert_owner : (x : ℕ) (ys : List ℕ) → length (insert_owner x ys) ≡ suc (length ys)
unfolding insert_owner
length-insert_owner x [] = refl
length-insert_owner x (y ∷ ys) =
    if_cases (λ (r : List ℕ). length r ≡ suc (suc (length ys))) (ltb x y) _ _ (λ _. refl)
      (λ _. ap suc (length-insert_owner x ys))

pub length-sort_owners :
    (sorted xs : List ℕ) → length (sort_owners sorted xs) ≡ length sorted + length xs
unfolding sort_owners
length-sort_owners sorted [] = omega arith
length-sort_owners sorted (x ∷ xs) =
    omega (arith, length-sort_owners (insert_owner x sorted) xs, length-insert_owner x sorted)

insert_owner-IsDistinct :
    (x : ℕ) (ys : List ℕ) → All (λ y. y ≢ x) ys → IsDistinct ys → IsDistinct (insert_owner x ys)
unfolding insert_owner
insert_owner-IsDistinct x [] h k = (tt, tt)
insert_owner-IsDistinct x (y ∷ ys) h k =
    if_cases (λ r. IsDistinct r) (ltb x y) _ _ (λ _. (h, k))
      (λ _. (
        All-insert_owner (λ z. z ≢ y) x ys (λ e. h.0 (sym e)) k.0,
        insert_owner-IsDistinct x ys h.1 k.1,
      ))

-- The owners that are still to be sorted in are none of those that are.
abbrev AreApart : List ℕ → List ℕ → Type 0
AreApart sorted xs = All (λ x. All (λ y. y ≢ x) sorted) xs

AreApart-insert :
    (x : ℕ) (sorted xs : List ℕ)
    → All (λ y. y ≢ x) xs
    → AreApart sorted xs
    → AreApart (insert_owner x sorted) xs
AreApart-insert x sorted [] h k = tt
AreApart-insert x sorted (z ∷ zs) h k = (
  All-insert_owner (λ y. y ≢ z) x sorted (λ e. h.0 (sym e)) k.0,
  AreApart-insert x sorted zs h.1 k.1,
)

pub sort_owners-IsDistinct :
    (sorted xs : List ℕ)
    → IsDistinct sorted
    → IsDistinct xs
    → AreApart sorted xs
    → IsDistinct (sort_owners sorted xs)
unfolding sort_owners
sort_owners-IsDistinct sorted [] h k a = h
sort_owners-IsDistinct sorted (x ∷ xs) h k a =
    sort_owners-IsDistinct (insert_owner x sorted) xs (insert_owner-IsDistinct x sorted a.0 h) k.1
      (AreApart-insert x sorted xs k.0 a.1)

pub AreApart-nil : (xs : List ℕ) → AreApart [] xs
AreApart-nil [] = tt
AreApart-nil (x ∷ xs) = (tt, AreApart-nil xs)

-- Each place is the first one of its owner.
pub first_place-get_or :
    (os : List ℕ) (i : ℕ) → IsDistinct os → i < length os → first_place (get_or os i 0) os ≡ some i
unfolding first_place
first_place-get_or [] i h le = absurd (omega (arith, le))
first_place-get_or (o ∷ os) zero h le =
    if_cases (λ (r : Option ℕ). r ≡ some 0) (o == o) _ _ (λ _. refl)
      (λ n. absurd (ground (arith, n)))
first_place-get_or (o ∷ os) (suc i) h le =
    let other = All-get_or (λ y. y ≢ o) os i h.0 (omega (arith, le)) in
    let no_match : (o == get_or os i 0) ≡ false = ground (arith, other) in
    rw (no_match, first_place-get_or os i h.1 (omega (arith, le))) refl

pub first_place-some :
    (os : List ℕ) (owner i : ℕ)
    → first_place owner os ≡ some i
    → (i < length os) × (get_or os i 0 ≡ owner)
unfolding first_place
first_place-some [] owner i e = cc e
first_place-some (o ∷ os) owner i e =
    let P = λ (r : Option ℕ). r ≡ some i → (i < suc (length os)) × (get_or (o ∷ os) i 0 ≡ owner) in
    if_cases P (o == owner) (some 0) _
      (λ same (e0 : some 0 ≡ some i).
        let at : 0 ≡ i = cc e0 in rw (sym at) (omega arith, (==_iff o owner).0 same))
      (λ _.
        some_cases P (first_place owner os) none _ (λ _ e0. cc e0)
          (λ j found (e0 : some (suc j) ≡ some i).
            let at : suc j ≡ i = cc e0 in
            let h = first_place-some os owner j found in rw (sym at) (omega (arith, h.0), h.1)))
      e

first_place-owner :
    (os : List ℕ) (owner n : ℕ)
    → IsDistinct os
    → n < length os
    → (get_or os n 0 == owner) ≡ true
    → first_place owner os ≡ some n
first_place-owner os owner n h le same =
    let e : get_or os n 0 ≡ owner = ground (arith, same) in
    subst (λ o. first_place o os ≡ some n) e (first_place-get_or os n h le)

other_place :
    (os : List ℕ) (owner n i : ℕ)
    → get_or os i 0 ≡ owner
    → (get_or os n 0 == owner) ≡ false
    → (n == i) ≡ false
other_place os owner n i e other = elim (Bool-cases (n == i)) [
  | inl same ↦
      let at : i ≡ n = ground (arith, same) in
      let e' : get_or os n 0 ≡ owner = subst (λ j. get_or os j 0 ≡ owner) at e in
      absurd (ground (arith, e', other))
  | inr differ ↦ differ
]

-- Two ways to look for the place of a number: the first place of an owner, and the owner at a place.
pub first_place_iff :
    (os : List ℕ) (owner n : ℕ)
    → IsDistinct os
    → n < length os
    → on_some (first_place owner os) false (λ i. n == i) ≡ (get_or os n 0 == owner)
first_place_iff os owner n h le =
    some_cases (λ (b : Bool). b ≡ (get_or os n 0 == owner)) (first_place owner os) false
      (λ i. n == i)
      (λ missing. elim (Bool-cases (get_or os n 0 == owner)) [
        | inl same ↦
            let e : none ≡ some n = sym missing ∙ first_place-owner os owner n h le same in
            absurd (cc e)
        | inr other ↦ sym other
      ])
      (λ i found. elim (Bool-cases (get_or os n 0 == owner)) [
        | inl same ↦
            let e : some i ≡ some n = sym found ∙ first_place-owner os owner n h le same in
            let at : i ≡ n = cc e in rw (at, same) (ground arith)
        | inr other ↦
            rw (other_place os owner n i (first_place-some os owner i found).1 other, other) refl
      ])
