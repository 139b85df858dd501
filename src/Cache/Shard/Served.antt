-- ===== src/Cache/Shard/Served.antt =====
-- Tables in which every key is found, and what a resize does to them.
use mathlib.Core.Path.{subst}
use kuttidb.Base.{
  ℕ, zero, suc, ◌+◌, ◌*◌, ◌≤◌, ◌<◌, ◌%◌, ◌≡◌, ◌≢◌, refl, sym, ap, ◌∙◌, List, [], ◌∷◌, Option, some,
  none, arith, leb, if_cases, if◌then◌else◌, All, inl, inr, Bool-cases,
}
use kuttidb.Cache.Shard.{
  Entry, Shard, Counters, has_key, bucket_at, set_bucket, find_entry, move_all, rehash,
  empty_buckets, maybe_resize, index,
}
use kuttidb.Cache.Shard.Resize.{tally_bucket, tally, index-lt, IsTable, tally-rehash_empty}
use kuttidb.Cache.Shard.Moved.{last_of, last_of_all, has_key-hash, lead-rehash, lead-empty_buckets}

-- In the table that stands from bucket `k` on, each entry is in the bucket of its hash.
abbrev pub ArePlaced : ℕ → ℕ → List (List Entry) → Type 0
ArePlaced n k [] = Unit
ArePlaced n k (b ∷ bs) = All (λ e. e.hash % n ≡ k) b × ArePlaced n (suc k) bs

-- Not more than one entry of the table has the key.
abbrev pub IsSingle : ℕ → List ℕ → List (List Entry) → Type 0
IsSingle h key bs = tally (λ e. if has_key h key e then 1 else 0) bs ≤ 1

elsewhere :
    (n k h : ℕ) (key : List ℕ) (b : List Entry) (o : Option Entry)
    → All (λ e. e.hash % n ≡ k) b
    → k ≢ h % n
    → (last_of h key b o ≡ o) × (tally_bucket (λ e. if has_key h key e then 1 else 0) b ≡ 0)
unfolding last_of tally_bucket
elsewhere n k h key [] o hs ne = (refl, refl)
elsewhere n k h key (e ∷ es) o hs ne =
    let rest = elsewhere n k h key es o hs.1 ne in
    elim (Bool-cases (has_key h key e)) [
      | inl is ↦ absurd (ne (sym hs.0 ∙ ap (λ x. x % n) (has_key-hash h key e is)))
      | inr away ↦ (rw away rest.0, ground (arith, away, rest.1))
    ]

beyond :
    (n k h : ℕ) (key : List ℕ) (bs : List (List Entry)) (o : Option Entry)
    → ArePlaced n k bs
    → h % n < k
    → (last_of_all h key bs o ≡ o) × (tally (λ e. if has_key h key e then 1 else 0) bs ≡ 0)
unfolding last_of_all tally
beyond n k h key [] o hs lt = (refl, refl)
beyond n k h key (b ∷ bs) o hs lt =
    let here = elsewhere n k h key b o hs.0 (λ e. absurd (omega (arith, e, lt))) in
    let rest = beyond n (suc k) h key bs o hs.1 (omega (arith, lt)) in
    (ap (λ x. last_of_all h key bs x) here.0 ∙ rest.0, omega (arith, here.1, rest.1))

-- Only the bucket of the hash matters.
in_bucket :
    (n k j h : ℕ) (key : List ℕ) (bs : List (List Entry)) (o : Option Entry)
    → ArePlaced n k bs
    → h % n ≡ k + j
    → (last_of_all h key bs o ≡ last_of h key (bucket_at j bs) o)
      × (tally (λ e. if has_key h key e then 1 else 0) bs
          ≡ tally_bucket (λ e. if has_key h key e then 1 else 0) (bucket_at j bs))
unfolding last_of_all last_of bucket_at tally tally_bucket
in_bucket n k j h key [] o hs at = (refl, refl)
in_bucket n k zero h key (b ∷ bs) o hs at =
    let rest = beyond n (suc k) h key bs (last_of h key b o) hs.1 (omega (arith, at)) in
    (rest.0, omega (arith, rest.1))
in_bucket n k (suc j) h key (b ∷ bs) o hs at =
    let here = elsewhere n k h key b o hs.0 (λ e. absurd (omega (arith, e, at))) in
    let rest = in_bucket n (suc k) j h key bs o hs.1 (omega (arith, at)) in
    (ap (λ x. last_of_all h key bs x) here.0 ∙ rest.0, omega (arith, here.1, rest.1))

last_of_absent :
    (h : ℕ) (key : List ℕ) (b : List Entry) (o : Option Entry)
    → tally_bucket (λ e. if has_key h key e then 1 else 0) b ≡ 0
    → last_of h key b o ≡ o
unfolding last_of tally_bucket
last_of_absent h key [] o none_there = refl
last_of_absent h key (e ∷ es) o none_there = elim (Bool-cases (has_key h key e)) [
  | inl is ↦ absurd (ground (arith, is, none_there))
  | inr away ↦ rw away (last_of_absent h key es o (ground (arith, away, none_there)))
]

last_of_single :
    (h : ℕ) (key : List ℕ) (b : List Entry)
    → tally_bucket (λ e. if has_key h key e then 1 else 0) b ≤ 1
    → last_of h key b none ≡ find_entry h key b
unfolding last_of tally_bucket find_entry
last_of_single h key [] few = refl
last_of_single h key (e ∷ es) few = elim (Bool-cases (has_key h key e)) [
  | inl is ↦ rw is (last_of_absent h key es (some e) (ground (arith, is, few)))
  | inr away ↦ rw away (last_of_single h key es (ground (arith, away, few)))
]

pub absent_tally :
    (h : ℕ) (key : List ℕ) (b : List Entry)
    → find_entry h key b ≡ none
    → tally_bucket (λ e. if has_key h key e then 1 else 0) b ≡ 0
unfolding tally_bucket find_entry
absent_tally h key [] h0 = refl
absent_tally h key (e ∷ es) h0 = ground (arith, absent_tally h key es)

pub tally_absent :
    (h : ℕ) (key : List ℕ) (b : List Entry)
    → tally_bucket (λ e. if has_key h key e then 1 else 0) b ≡ 0
    → find_entry h key b ≡ none
unfolding tally_bucket find_entry
tally_absent h key [] h0 = refl
tally_absent h key (e ∷ es) h0 = ground (arith, tally_absent h key es)

pub ArePlaced-bucket_at :
    (n k i : ℕ) (bs : List (List Entry))
    → ArePlaced n k bs
    → All (λ e. e.hash % n ≡ k + i) (bucket_at i bs)
unfolding bucket_at
ArePlaced-bucket_at n k i [] hs = tt
ArePlaced-bucket_at n k zero (b ∷ bs) hs =
    subst (λ x. All (λ e. e.hash % n ≡ x) b) (omega arith) hs.0
ArePlaced-bucket_at n k (suc i) (b ∷ bs) hs =
    subst (λ x. All (λ e. e.hash % n ≡ x) (bucket_at i bs)) (omega arith)
      (ArePlaced-bucket_at n (suc k) i bs hs.1)

pub ArePlaced-set_bucket :
    (n k i : ℕ) (b : List Entry) (bs : List (List Entry))
    → ArePlaced n k bs
    → All (λ e. e.hash % n ≡ k + i) b
    → ArePlaced n k (set_bucket i b bs)
unfolding set_bucket
ArePlaced-set_bucket n k i b [] hs new = tt
ArePlaced-set_bucket n k zero b (x ∷ bs) hs new =
    (subst (λ y. All (λ e. e.hash % n ≡ y) b) (omega arith) new, hs.1)
ArePlaced-set_bucket n k (suc i) b (x ∷ bs) hs new = (
  hs.0,
  ArePlaced-set_bucket n (suc k) i b bs hs.1
      (subst (λ y. All (λ e. e.hash % n ≡ y) b) (omega arith) new),
)

ArePlaced-move_all :
    (n : ℕ) (es : List Entry) (nb : List (List Entry))
    → ArePlaced n 0 nb
    → ArePlaced n 0 (move_all n es nb)
unfolding move_all
ArePlaced-move_all n [] nb hs = hs
ArePlaced-move_all n (e ∷ es) nb hs = ArePlaced-move_all n es _ (
    ArePlaced-set_bucket n 0 (e.hash % n) (e ∷ bucket_at (e.hash % n) nb) nb hs
      (omega arith, ArePlaced-bucket_at n 0 (e.hash % n) nb hs))

ArePlaced-rehash :
    (n : ℕ) (bs nb : List (List Entry)) → ArePlaced n 0 nb → ArePlaced n 0 (rehash n bs nb)
unfolding rehash
ArePlaced-rehash n [] nb hs = hs
ArePlaced-rehash n (b ∷ bs) nb hs =
    ArePlaced-rehash n bs (move_all n b nb) (ArePlaced-move_all n b nb hs)

ArePlaced-empty_buckets : (n k m : ℕ) → ArePlaced n k (empty_buckets m)
unfolding empty_buckets
ArePlaced-empty_buckets n k zero = tt
ArePlaced-empty_buckets n k (suc m) = (tt, ArePlaced-empty_buckets n (suc k) m)

-- The table has its size, each entry is in the bucket of its hash, and no key is there twice.
pub record IsServed (s : Shard) : Type 0 where
  pub table : IsTable s
  pub placed : ArePlaced s.nbuckets 0 s.buckets
  pub single : (h : ℕ) (key : List ℕ) → IsSingle h key s.buckets

abbrev pub lookup : Shard → ℕ → List ℕ → Option Entry
lookup s h key = find_entry h key (bucket_at (index h s.nbuckets) s.buckets)

pub tally-lookup :
    (s : Shard) (h : ℕ) (key : List ℕ)
    → IsServed s
    → tally (λ e. if has_key h key e then 1 else 0) s.buckets
      ≡ tally_bucket
          (λ e. if has_key h key e then 1 else 0)
          (bucket_at (index h s.nbuckets) s.buckets)
tally-lookup s h key served =
    (in_bucket s.nbuckets 0 (h % s.nbuckets) h key s.buckets none served.placed (omega arith)).1

lookup_last :
    (s : Shard) (h : ℕ) (key : List ℕ)
    → IsServed s
    → last_of_all h key s.buckets none ≡ lookup s h key
lookup_last s h key served =
    (in_bucket s.nbuckets 0 (h % s.nbuckets) h key s.buckets none served.placed (omega arith)).0
    ∙ last_of_single h key (bucket_at (h % s.nbuckets) s.buckets)
        (omega (arith, served.single h key, tally-lookup s h key served))

-- A resize keeps the table right, and each key leads to the entry that it led to.
pub maybe_resize-IsServed :
    (s : Shard) (c : Counters)
    → IsServed s
    → IsServed (maybe_resize s c).0
      × ((h : ℕ) (key : List ℕ) → lookup (maybe_resize s c).0 h key ≡ lookup s h key)
unfolding maybe_resize
maybe_resize-IsServed s c served =
    let n = s.nbuckets * 2 in
    let bs = rehash n s.buckets (empty_buckets n) in
    let kept = tally-rehash_empty n s.buckets (omega (arith, served.table.some_bucket)) in
    if_cases
      (λ (r : Shard × Counters).
        IsServed r.0 × ((h : ℕ) (key : List ℕ) → lookup r.0 h key ≡ lookup s h key))
      (leb s.count n) _ _ (λ _. (served, λ _ _. refl))
      (λ _. (
        record {
          table = record { size = kept.1; some_bucket = omega (arith, served.table.some_bucket) };
          placed = ArePlaced-rehash n s.buckets (empty_buckets n) (ArePlaced-empty_buckets n 0 n);
          single = λ h key.
              omega (arith, kept.0 (λ e. if has_key h key e then 1 else 0), served.single h key);
        },
        λ h key.
            lead-rehash n h key s.buckets (empty_buckets n)
              (omega (arith, index-lt h n (omega (arith, served.table.some_bucket)), kept.2))
            ∙ ap (λ o. last_of_all h key s.buckets o) (lead-empty_buckets n h (h % n) key)
            ∙ lookup_last s h key served,
      ))
