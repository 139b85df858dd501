-- ===== src/Cache/Shard/Moved.antt =====
-- Where a key leads when buckets change and when entries are moved to other buckets.
use kuttidb.Base.{
  ℕ, zero, suc, ◌<◌, ◌%◌, ◌≡◌, ◌≢◌, refl, ap, ◌∙◌, true, false, List, [], ◌∷◌, Option, some, none,
  arith, if◌then◌else◌, length, inl, inr, Bool-cases, ◌==◌,
}
use kuttidb.Cache.Shard.{
  Entry, has_key, bucket_at, set_bucket, find_entry, move_all, rehash, empty_buckets,
}
use kuttidb.Cache.Shard.Resize.{length-set_bucket}

pub bucket_at-set_bucket :
    (i : ℕ) (b : List Entry) (bs : List (List Entry))
    → i < length bs
    → bucket_at i (set_bucket i b bs) ≡ b
unfolding bucket_at set_bucket
bucket_at-set_bucket i b [] lt = absurd (omega (arith, lt))
bucket_at-set_bucket zero b (x ∷ bs) lt = refl
bucket_at-set_bucket (suc i) b (x ∷ bs) lt = bucket_at-set_bucket i b bs (omega (arith, lt))

pub bucket_at-set_bucket_ne :
    (i j : ℕ) (b : List Entry) (bs : List (List Entry))
    → i ≢ j
    → bucket_at j (set_bucket i b bs) ≡ bucket_at j bs
unfolding bucket_at set_bucket
bucket_at-set_bucket_ne i j b [] ne = refl
bucket_at-set_bucket_ne zero zero b (x ∷ bs) ne = absurd (ne refl)
bucket_at-set_bucket_ne zero (suc j) b (x ∷ bs) ne = refl
bucket_at-set_bucket_ne (suc i) zero b (x ∷ bs) ne = refl
bucket_at-set_bucket_ne (suc i) (suc j) b (x ∷ bs) ne =
    bucket_at-set_bucket_ne i j b bs (λ e. ne (omega (arith, e)))

-- The last entry of the key in the list, or the one at hand.
unfoldable pub last_of : ℕ → List ℕ → List Entry → Option Entry → Option Entry
last_of h key [] o = o
last_of h key (e ∷ es) o = last_of h key es (if has_key h key e then some e else o)

unfoldable pub last_of_all : ℕ → List ℕ → List (List Entry) → Option Entry → Option Entry
last_of_all h key [] o = o
last_of_all h key (b ∷ bs) o = last_of_all h key bs (last_of h key b o)

pub has_key-hash : (h : ℕ) (key : List ℕ) (e : Entry) → has_key h key e ≡ true → e.hash ≡ h
has_key-hash h key e is = ground (arith, is)

-- What the key leads to in the table of `n` buckets.
abbrev pub lead : ℕ → ℕ → List ℕ → List (List Entry) → Option Entry
lead n h key bs = find_entry h key (bucket_at (h % n) bs)

-- An entry moved in front of its bucket.
lead_moved :
    (n h : ℕ) (key : List ℕ) (e : Entry) (nb : List (List Entry))
    → h % n < length nb
    → lead n h key (set_bucket (e.hash % n) (e ∷ bucket_at (e.hash % n) nb) nb)
      ≡ (if has_key h key e then some e else lead n h key nb)
unfolding find_entry
lead_moved n h key e nb lt = elim (Bool-cases (e.hash % n == h % n)) [
  | inl here ↦
      let same : e.hash % n ≡ h % n = ground (arith, here) in
      ap (λ b. find_entry h key b)
        (ap (λ i. bucket_at (h % n) (set_bucket i (e ∷ bucket_at i nb) nb)) same
          ∙ bucket_at-set_bucket (h % n) (e ∷ bucket_at (h % n) nb) nb lt)
  | inr there ↦
      let other : has_key h key e ≡ false = elim (Bool-cases (has_key h key e)) [
        | inl is ↦ absurd (ground (arith, there, ap (λ k. k % n) (has_key-hash h key e is)))
        | inr away ↦ away
      ] in
      ap (λ b. find_entry h key b)
        (bucket_at-set_bucket_ne (e.hash % n) (h % n) (e ∷ bucket_at (e.hash % n) nb) nb
          (ground (arith, there)))
      ∙ rw other refl
]

lead-move_all :
    (n h : ℕ) (key : List ℕ) (es : List Entry) (nb : List (List Entry))
    → h % n < length nb
    → lead n h key (move_all n es nb) ≡ last_of h key es (lead n h key nb)
unfolding move_all last_of
lead-move_all n h key [] nb lt = refl
lead-move_all n h key (e ∷ es) nb lt =
    let b = e ∷ bucket_at (e.hash % n) nb in
    lead-move_all n h key es (set_bucket (e.hash % n) b nb)
      (omega (arith, lt, length-set_bucket (e.hash % n) b nb))
    ∙ ap (λ o. last_of h key es o) (lead_moved n h key e nb lt)

length-move_all :
    (n : ℕ) (es : List Entry) (nb : List (List Entry)) → length (move_all n es nb) ≡ length nb
unfolding move_all
length-move_all n [] nb = refl
length-move_all n (e ∷ es) nb =
    length-move_all n es _ ∙ length-set_bucket (e.hash % n) (e ∷ bucket_at (e.hash % n) nb) nb

pub lead-rehash :
    (n h : ℕ) (key : List ℕ) (bs nb : List (List Entry))
    → h % n < length nb
    → lead n h key (rehash n bs nb) ≡ last_of_all h key bs (lead n h key nb)
unfolding rehash last_of_all
lead-rehash n h key [] nb lt = refl
lead-rehash n h key (b ∷ bs) nb lt =
    lead-rehash n h key bs (move_all n b nb) (omega (arith, lt, length-move_all n b nb))
    ∙ ap (λ o. last_of_all h key bs o) (lead-move_all n h key b nb lt)

pub lead-empty_buckets :
    (n h i : ℕ) (key : List ℕ) → find_entry h key (bucket_at i (empty_buckets n)) ≡ none
unfolding find_entry bucket_at empty_buckets
lead-empty_buckets zero h i key = refl
lead-empty_buckets (suc n) h zero key = refl
lead-empty_buckets (suc n) h (suc i) key = lead-empty_buckets n h i key
