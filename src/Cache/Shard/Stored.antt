-- ===== src/Cache/Shard/Stored.antt =====
-- Where keys lead after an entry of one of them is put in or taken out.
use mathlib.Core.Path.{subst}
use kuttidb.Base.{
  ℕ, ◌<◌, ◌%◌, ◌≡◌, ◌≢◌, ◌⊎◌, refl, sym, ap, ◌∙◌, true, false, ◌==◌, List, [], ◌∷◌, Option, some,
  none, arith, if_cases, if◌then◌else◌, All, length, bytes_eq→≡, bytes_eq_refl, inl, inr,
  Bool-cases,
}
use kuttidb.Cache.Shard.{
  Entry, Shard, has_key, bucket_at, set_bucket, find_entry, put_entry, drop_entry, index, new_entry,
}
use kuttidb.Cache.Shard.Resize.{
  tally_bucket, tally-set_bucket, length-set_bucket, tally-put_entry, tally-drop_entry, index-lt,
  IsTable,
}
use kuttidb.Cache.Shard.Moved.{bucket_at-set_bucket, bucket_at-set_bucket_ne, lead}
use kuttidb.Cache.Shard.Served.{
  IsServed, IsSingle, ArePlaced-bucket_at, ArePlaced-set_bucket, lookup, tally-lookup, absent_tally,
  tally_absent,
}

-- Another key: another hash, or other bytes.
abbrev pub IsOther : ℕ → List ℕ → ℕ → List ℕ → Type 0
IsOther h key h' key' = (h ≢ h') ⊎ (key ≢ key')

pub has_key-parts :
    (h : ℕ) (key : List ℕ) (e : Entry) → has_key h key e ≡ true → (e.hash ≡ h) × (e.key ≡ key)
has_key-parts h key e is = (ground (arith, is), bytes_eq→≡ e.key key (ground (arith, is)))

other_key :
    (h h' : ℕ) (key key' : List ℕ) (e : Entry)
    → IsOther h key h' key'
    → has_key h key e ≡ true
    → has_key h' key' e ≡ false
other_key h h' key key' e other is = elim (Bool-cases (has_key h' key' e)) [
  | inl both ↦
      let one = has_key-parts h key e is in
      let two = has_key-parts h' key' e both in
      elim other [
        | inl hash ↦ absurd (hash (sym one.0 ∙ two.0))
        | inr bytes ↦ absurd (bytes (sym one.1 ∙ two.1))
      ]
  | inr away ↦ away
]

pub find_entry-has_key :
    (h : ℕ) (key : List ℕ) (es : List Entry) (e : Entry)
    → find_entry h key es ≡ some e
    → has_key h key e ≡ true
unfolding find_entry
find_entry-has_key h key [] e found = absurd (cc found)
find_entry-has_key h key (x ∷ es) e found = elim (Bool-cases (has_key h key x)) [
  | inl here ↦
      let same : x ≡ e = ground (arith, here) in subst (λ y. has_key h key y ≡ true) same here
  | inr there ↦ find_entry-has_key h key es e (ground (arith, there))
]

find_entry-put_entry :
    (h : ℕ) (key : List ℕ) (e e' : Entry) (es : List Entry)
    → find_entry h key es ≡ some e
    → has_key h key e' ≡ true
    → find_entry h key (put_entry h key e' es) ≡ some e'
unfolding find_entry put_entry
find_entry-put_entry h key e e' [] found is = absurd (cc found)
find_entry-put_entry h key e e' (x ∷ es) found is = elim (Bool-cases (has_key h key x)) [
  | inl here ↦ rw (here, is) refl
  | inr there ↦
      rw (there, there) (find_entry-put_entry h key e e' es (ground (arith, there, found)) is)
]

find_entry-put_entry_ne :
    (h h' : ℕ) (key key' : List ℕ) (e' : Entry) (es : List Entry)
    → IsOther h key h' key'
    → has_key h key e' ≡ true
    → find_entry h' key' (put_entry h key e' es) ≡ find_entry h' key' es
unfolding find_entry put_entry
find_entry-put_entry_ne h h' key key' e' [] other is = refl
find_entry-put_entry_ne h h' key key' e' (x ∷ es) other is = elim (Bool-cases (has_key h key x)) [
  | inl here ↦
      rw (here, other_key h h' key key' e' other is, other_key h h' key key' x other here) refl
  | inr there ↦ rw there (
      ap (λ rest. if has_key h' key' x then some x else rest)
        (find_entry-put_entry_ne h h' key key' e' es other is))
]

find_entry-drop_entry_ne :
    (h h' : ℕ) (key key' : List ℕ) (es : List Entry)
    → IsOther h key h' key'
    → find_entry h' key' (drop_entry h key es) ≡ find_entry h' key' es
unfolding find_entry drop_entry
find_entry-drop_entry_ne h h' key key' [] other = refl
find_entry-drop_entry_ne h h' key key' (x ∷ es) other = elim (Bool-cases (has_key h key x)) [
  | inl here ↦ rw (here, other_key h h' key key' x other here) refl
  | inr there ↦ rw there (
      ap (λ rest. if has_key h' key' x then some x else rest)
        (find_entry-drop_entry_ne h h' key key' es other))
]

All-put_entry {κ} :
    (P : Entry → Type κ) (h : ℕ) (key : List ℕ) (e' : Entry) (es : List Entry)
    → P e'
    → All P es
    → All P (put_entry h key e' es)
unfolding put_entry
All-put_entry P h key e' [] new hs = hs
All-put_entry P h key e' (x ∷ es) new hs =
    if_cases (All P) (has_key h key x) (e' ∷ es) (x ∷ put_entry h key e' es) (λ _. (new, hs.1))
      (λ _. (hs.0, All-put_entry P h key e' es new hs.1))

All-drop_entry {κ} :
    (P : Entry → Type κ) (h : ℕ) (key : List ℕ) (es : List Entry)
    → All P es
    → All P (drop_entry h key es)
unfolding drop_entry
All-drop_entry P h key [] hs = hs
All-drop_entry P h key (x ∷ es) hs =
    if_cases (All P) (has_key h key x) es (x ∷ drop_entry h key es) (λ _. hs.1)
      (λ _. (hs.0, All-drop_entry P h key es hs.1))

-- A key whose bucket leads it to the same entry as before.
lead-set_bucket :
    (n i h : ℕ) (key : List ℕ) (b : List Entry) (bs : List (List Entry))
    → i < length bs
    → find_entry h key b ≡ find_entry h key (bucket_at i bs)
    → lead n h key (set_bucket i b bs) ≡ lead n h key bs
lead-set_bucket n i h key b bs lt found = elim (Bool-cases (i == h % n)) [
  | inl here ↦
      let same : i ≡ h % n = ground (arith, here) in
      ap (λ j. find_entry h key (bucket_at j (set_bucket i b bs))) (sym same)
      ∙ ap (λ x. find_entry h key x) (bucket_at-set_bucket i b bs lt)
      ∙ found
      ∙ ap (λ j. find_entry h key (bucket_at j bs)) same
  | inr there ↦
      ap (λ x. find_entry h key x) (bucket_at-set_bucket_ne i (h % n) b bs (ground (arith, there)))
]

-- The key leads to the entry, and every other key to where it led.
pub record IsStored (s : Shard) (h : ℕ) (key : List ℕ) (o : Option Entry) (out : Shard)
    : Type 0 where
  pub served : IsServed out
  pub here : lookup out h key ≡ o
  pub others :
      (h' : ℕ) (key' : List ℕ) → IsOther h key h' key' → lookup out h' key' ≡ lookup s h' key'

module _ (s : Shard) (h : ℕ) (key : List ℕ) (served : IsServed s) where
  abbrev at : ℕ
  at = index h s.nbuckets

  abbrev bucket : List Entry
  bucket = bucket_at at s.buckets

  in_range : at < length s.buckets
  in_range = omega (arith, index-lt h s.nbuckets served.table.some_bucket, served.table.size)

  bucket-AreHere : All (λ e. e.hash % s.nbuckets ≡ at) bucket
  bucket-AreHere =
      subst (λ y. All (λ e. e.hash % s.nbuckets ≡ y) bucket) (omega arith)
        (ArePlaced-bucket_at s.nbuckets 0 at s.buckets served.placed)

  table_with :
      (count mem : ℕ) (b : List Entry)
      → IsTable (record s { buckets = set_bucket at b s.buckets; count = count; mem = mem })
  table_with count mem b = record {
    size = length-set_bucket at b s.buckets ∙ served.table.size;
    some_bucket = served.table.some_bucket;
  }

  -- The bucket of the key takes the place of the old one.
  changed-IsStored :
      (count mem : ℕ) (b : List Entry) (o : Option Entry)
      → All (λ e. e.hash % s.nbuckets ≡ at) b
      → ((h' : ℕ) (key' : List ℕ) → IsSingle h' key' (set_bucket at b s.buckets))
      → find_entry h key b ≡ o
      → ((h' : ℕ) (key' : List ℕ)
          → IsOther h key h' key'
          → find_entry h' key' b ≡ find_entry h' key' bucket)
      → IsStored s h key o
          (record s { buckets = set_bucket at b s.buckets; count = count; mem = mem })
  changed-IsStored count mem b o placed single found others = record {
    served = record {
      table = table_with count mem b;
      placed =
          ArePlaced-set_bucket s.nbuckets 0 at b s.buckets served.placed
            (subst (λ y. All (λ e. e.hash % s.nbuckets ≡ y) b) (omega arith) placed);
      single = single;
    };
    here = ap (λ x. find_entry h key x) (bucket_at-set_bucket at b s.buckets in_range) ∙ found;
    others = λ h' key' other.
        lead-set_bucket s.nbuckets at h' key' b s.buckets in_range (others h' key' other);
  }

  pub replaced-IsStored :
      (e e' : Entry) (mem : ℕ)
      → lookup s h key ≡ some e
      → has_key h key e' ≡ true
      → IsStored s h key
          (some e')
          (record s { buckets = set_bucket at (put_entry h key e' bucket) s.buckets; mem = mem })
  replaced-IsStored e e' mem found is =
      let old = has_key-parts h key e (find_entry-has_key h key bucket e found) in
      let new = has_key-parts h key e' is in
      changed-IsStored s.count mem (put_entry h key e' bucket) (some e')
        (All-put_entry (λ x. x.hash % s.nbuckets ≡ at) h key e' bucket
          (ap (λ x. x % s.nbuckets) new.0) bucket-AreHere)
        (λ h' key'.
          let f : Entry → ℕ = λ x. if has_key h' key' x then 1 else 0 in
          let same : f e ≡ f e' = rw (old.0, old.1, new.0, new.1) refl in
          omega (
            arith,
            same,
            tally-set_bucket f at (put_entry h key e' bucket) s.buckets in_range,
            tally-put_entry f h key e e' bucket found,
            served.single h' key',
          ))
        (find_entry-put_entry h key e e' bucket found is)
        (λ h' key' other. find_entry-put_entry_ne h h' key key' e' bucket other is)

  pub new_key : (value : List ℕ) (exp : ℕ) → has_key h key (new_entry h key value exp) ≡ true
  new_key value exp = ground (arith, bytes_eq_refl key)

  -- A key that was not there is there once.
  inserted-IsSingle :
      (e : Entry) (h' : ℕ) (key' : List ℕ)
      → lookup s h key ≡ none
      → e.hash ≡ h
      → e.key ≡ key
      → IsSingle h' key' (set_bucket at (e ∷ bucket) s.buckets)
  unfolding tally_bucket
  inserted-IsSingle e h' key' missing hash bytes =
      let f : Entry → ℕ = λ x. if has_key h' key' x then 1 else 0 in
      let sum = tally-set_bucket f at (e ∷ bucket) s.buckets in_range in
      elim (Bool-cases (has_key h' key' e)) [
        | inl is ↦
            let parts = has_key-parts h' key' e is in
            let same_hash : h ≡ h' = sym hash ∙ parts.0 in
            let same_key : key ≡ key' = sym bytes ∙ parts.1 in
            let none_here : lookup s h' key' ≡ none =
              ap (λ x. lookup s x key') (sym same_hash)
              ∙ ap (λ k. lookup s h k) (sym same_key)
              ∙ missing in
            let counted : f e ≡ 1 = rw is refl in
            omega (
              arith,
              sum,
              counted,
              tally-lookup s h' key' served,
              absent_tally h' key' (bucket_at (index h' s.nbuckets) s.buckets) none_here,
            )
        | inr away ↦
            let counted : f e ≡ 0 = rw away refl in
            omega (arith, sum, counted, served.single h' key')
      ]

  pub inserted-IsStored :
      (e : Entry) (count mem : ℕ)
      → lookup s h key ≡ none
      → has_key h key e ≡ true
      → IsStored s h key
          (some e)
          (record s { buckets = set_bucket at (e ∷ bucket) s.buckets; count = count; mem = mem })
  unfolding find_entry tally_bucket
  inserted-IsStored e count mem missing is =
      let parts = has_key-parts h key e is in
      changed-IsStored count mem (e ∷ bucket) (some e)
        (ap (λ x. x % s.nbuckets) parts.0, bucket-AreHere)
        (λ h' key'. inserted-IsSingle e h' key' missing parts.0 parts.1) (rw is refl)
        (λ h' key' other. rw (other_key h h' key key' e other is) refl)

  pub removed-IsStored :
      (e : Entry) (count mem : ℕ)
      → lookup s h key ≡ some e
      → IsStored s h key none (record s {
        buckets = set_bucket at (drop_entry h key bucket) s.buckets;
        count = count;
        mem = mem;
      })
  removed-IsStored e count mem found =
      let is = find_entry-has_key h key bucket e found in
      changed-IsStored count mem (drop_entry h key bucket) none
        (All-drop_entry (λ x. x.hash % s.nbuckets ≡ at) h key bucket bucket-AreHere)
        (λ h' key'.
          let f : Entry → ℕ = λ x. if has_key h' key' x then 1 else 0 in
          omega (
            arith,
            tally-set_bucket f at (drop_entry h key bucket) s.buckets in_range,
            tally-drop_entry f h key e bucket found,
            served.single h' key',
          ))
        (tally_absent h key (drop_entry h key bucket) (
          let f : Entry → ℕ = λ x. if has_key h key x then 1 else 0 in
          let counted : f e ≡ 1 = rw is refl in
          omega (
            arith,
            counted,
            tally-drop_entry f h key e bucket found,
            tally-lookup s h key served,
            served.single h key,
          )))
        (λ h' key' other. find_entry-drop_entry_ne h h' key key' bucket other)
