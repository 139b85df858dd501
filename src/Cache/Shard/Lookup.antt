-- ===== src/Cache/Shard/Lookup.antt =====
-- What a get answers after a put, a delete and a get.
use kuttidb.Base.{
  ℕ, ◌+◌, ◌-◌, ◌≤◌, ◌≡◌, ◌⊎◌, refl, sym, ap, ◌∙◌, Bool, true, false, ◌||◌, ◌==◌, List, Option, some,
  none, arith, if_cases, leb, ltb, if◌then◌else◌, bytes_eq, bytes_eq→≡, bytes_eq_refl, add64, inl,
  inr, Bool-cases,
}
use kuttidb.Cache.Shard.{
  Entry, Shard, Counters, entry_capacity, has_key, entry_size, is_expired, bucket_at, index,
  new_entry, overwrite, insert, put_found, put_abs, removed, get_found, get_common, delete_found,
  delete,
}
use kuttidb.Cache.Shard.Served.{IsServed, lookup, maybe_resize-IsServed}
use kuttidb.Cache.Shard.Stored.{
  IsOther, IsStored, find_entry-has_key, new_key, replaced-IsStored, inserted-IsStored,
  removed-IsStored,
}

-- What a get at this time answers about an entry.
abbrev visible : ℕ → Option Entry → Option (List ℕ)
visible now none = none
visible now (some e) = if is_expired now e then none else some e.value

get_found-visible :
    (o : Option Entry) (s : Shard) (c : Counters) (h : ℕ) (key : List ℕ) (now : ℕ)
    → (get_found o s c h key now).1 ≡ visible now o
unfolding get_found
get_found-visible none s c h key now = refl
get_found-visible (some e) s c h key now =
    if_cases
      (λ (r : (Shard × Counters) × Option (List ℕ)).
        r.1 ≡ (if is_expired now e then none else some e.value))
      (is_expired now e) _ _ (λ gone. rw gone refl) (λ kept. rw kept refl)

get_common-visible :
    (s : Shard) (c : Counters) (h : ℕ) (key : List ℕ) (now : ℕ)
    → (get_common s c h key now).1 ≡ visible now (lookup s h key)
unfolding get_common
get_common-visible s c h key now = get_found-visible (lookup s h key) s c h key now

-- Gets of every other key answer as before.
abbrev pub KeepsOthers : Shard → ℕ → List ℕ → Shard → Type 0
KeepsOthers s h key out =
    (c c' : Counters) (h' : ℕ) (key' : List ℕ) (now : ℕ)
    → IsOther h key h' key'
    → (get_common out c' h' key' now).1 ≡ (get_common s c h' key' now).1

IsStored-KeepsOthers :
    (s : Shard) (h : ℕ) (key : List ℕ) (o : Option Entry) (out : Shard)
    → IsStored s h key o out
    → KeepsOthers s h key out
IsStored-KeepsOthers s h key o out stored c c' h' key' now other =
    get_common-visible out c' h' key' now
    ∙ ap (λ x. visible now x) (stored.others h' key' other)
    ∙ sym (get_common-visible s c h' key' now)

-- The table is right, gets of the key answer the value until it expires, and gets of any other key
-- answer what they did.
pub record IsPut (s : Shard) (h : ℕ) (key value : List ℕ) (exp : ℕ) (out : Shard) : Type 0 where
  pub served : IsServed out
  pub answer :
      (c : Counters) (now : ℕ)
      → (get_common out c h key now).1 ≡ (if exp == 0 || ltb now exp then some value else none)
  pub others : KeepsOthers s h key out

-- An entry of the key with this value and expiry.
abbrev IsOf : ℕ → List ℕ → List ℕ → ℕ → Entry → Type 0
IsOf h key value exp e = (has_key h key e ≡ true) × (e.value ≡ value) × (e.exp ≡ exp)

visible-IsOf :
    (h : ℕ) (key value : List ℕ) (exp : ℕ) (e : Entry) (now : ℕ)
    → IsOf h key value exp e
    → visible now (some e) ≡ (if exp == 0 || ltb now exp then some value else none)
unfolding is_expired
visible-IsOf h key value exp e now of = ground (arith, of.1, of.2)

IsStored-IsPut :
    (s : Shard) (h : ℕ) (key value : List ℕ) (exp : ℕ) (e : Entry) (out : Shard)
    → IsOf h key value exp e
    → IsStored s h key (some e) out
    → IsPut s h key value exp out
IsStored-IsPut s h key value exp e out of stored = record {
  served = stored.served;
  answer = λ c now.
      get_common-visible out c h key now
      ∙ ap (λ x. visible now x) stored.here
      ∙ visible-IsOf h key value exp e now of;
  others = IsStored-KeepsOthers s h key (some e) out stored;
}

overwrite-IsPut :
    (s : Shard) (h : ℕ) (key value : List ℕ) (exp : ℕ) (e : Entry) (c : Counters)
    → IsServed s
    → lookup s h key ≡ some e
    → IsPut s h key value exp (overwrite e s c h key value exp).0
unfolding overwrite
overwrite-IsPut s h key value exp e c served found =
    let is = find_entry-has_key h key (bucket_at (index h s.nbuckets) s.buckets) e found in
    let in_place = record e { value = value; exp = exp } in
    let fresh = new_entry h key value exp in
    let is_new = new_key s h key served value exp in
    if_cases (λ (r : Shard × Counters). IsPut s h key value exp r.0)
      (leb (entry_size key value) (entry_capacity e)) _ _
      (λ _.
        IsStored-IsPut s h key value exp in_place _ (is, refl, refl)
          (replaced-IsStored s h key served e in_place s.mem found is))
      (λ _.
        IsStored-IsPut s h key value exp fresh _ (is_new, refl, refl)
          (replaced-IsStored s h key served e fresh _ found is_new))

insert-IsPut :
    (s : Shard) (h : ℕ) (key value : List ℕ) (exp : ℕ) (c : Counters)
    → IsServed s
    → lookup s h key ≡ none
    → IsPut s h key value exp (insert s c h key value exp).0
unfolding insert
insert-IsPut s h key value exp c served missing =
    let e = new_entry h key value exp in
    let is = new_key s h key served value exp in
    let stored =
      inserted-IsStored s h key served e (s.count + 1) (add64 s.mem (entry_capacity e)) missing
        is in
    let resized =
      maybe_resize-IsServed _
        (record c {
          total_mem = add64 c.total_mem (entry_capacity e);
          ttl_entries = if exp == 0 then c.ttl_entries else add64 c.ttl_entries 1;
        })
        stored.served in
    IsStored-IsPut s h key value exp e _ (is, refl, refl)
      (record {
        served = resized.0;
        here = resized.1 h key ∙ stored.here;
        others = λ h' key' other. resized.1 h' key' ∙ stored.others h' key' other;
      })

put_found-IsPut :
    (o : Option Entry) (s : Shard) (h : ℕ) (key value : List ℕ) (exp : ℕ) (c : Counters)
    → IsServed s
    → lookup s h key ≡ o
    → IsPut s h key value exp (put_found o s c h key value exp).0
unfolding put_found
put_found-IsPut none s h key value exp c served e = insert-IsPut s h key value exp c served e
put_found-IsPut (some x) s h key value exp c served e =
    overwrite-IsPut s h key value exp x c served e

-- After a put into a table in which each entry is in the bucket of its hash and no key is twice, the
-- table is such a table again, whether it was resized or not; a get of the key answers the value, at
-- any time if the expiry is 0 and else before it, and nothing from then on; and a get of any other
-- key answers what it would have answered before the put.
pub put_abs-IsPut :
    (s : Shard) (h : ℕ) (key value : List ℕ) (exp : ℕ) (c : Counters)
    → IsServed s
    → IsPut s h key value exp (put_abs s c h key value exp).0
unfolding put_abs
put_abs-IsPut s h key value exp c served =
    put_found-IsPut (lookup s h key) s h key value exp c served refl

gone-IsStored :
    (e : Entry) (s : Shard) (c : Counters) (h : ℕ) (key : List ℕ)
    → IsServed s
    → lookup s h key ≡ some e
    → IsStored s h key none (removed e s c h key).0
unfolding removed
gone-IsStored e s c h key served found = removed-IsStored s h key served e (s.count - 1) _ found

abbrev pub is_some : Option (List ℕ) → Bool
is_some none = false
is_some (some _) = true

-- The table is right, no get of the key answers a value, gets of any other key answer what they did,
-- and the result says whether there was an entry: one that a get at time 0 would have answered.
pub record IsDeleted (s : Shard) (c : Counters) (h : ℕ) (key : List ℕ)
    (out : (Shard × Counters) × Bool) : Type 0 where
  pub served : IsServed out.0.0
  pub gone : (c' : Counters) (now : ℕ) → (get_common out.0.0 c' h key now).1 ≡ none
  pub others : KeepsOthers s h key out.0.0
  pub reported : out.1 ≡ is_some (get_common s c h key 0).1

unchanged-IsStored :
    (s : Shard) (h : ℕ) (key : List ℕ) (o : Option Entry)
    → IsServed s
    → lookup s h key ≡ o
    → IsStored s h key o s
unchanged-IsStored s h key o served e = record { served = served; here = e; others = λ _ _ _. refl }

IsStored-IsDeleted :
    (s : Shard) (c : Counters) (h : ℕ) (key : List ℕ) (out : (Shard × Counters) × Bool)
    → IsStored s h key none out.0.0
    → out.1 ≡ is_some (visible 0 (lookup s h key))
    → IsDeleted s c h key out
IsStored-IsDeleted s c h key out stored reported = record {
  served = stored.served;
  gone = λ c' now. get_common-visible out.0.0 c' h key now ∙ ap (λ x. visible now x) stored.here;
  others = IsStored-KeepsOthers s h key none out.0.0 stored;
  reported = reported ∙ ap (λ x. is_some x) (sym (get_common-visible s c h key 0));
}

visible_at_start : (e : Entry) → is_some (visible 0 (some e)) ≡ true
unfolding is_expired
visible_at_start e = ground arith

delete_found-IsDeleted :
    (o : Option Entry) (s : Shard) (c : Counters) (h : ℕ) (key : List ℕ)
    → IsServed s
    → lookup s h key ≡ o
    → IsDeleted s c h key (delete_found o s c h key)
unfolding delete_found
delete_found-IsDeleted none s c h key served e =
    IsStored-IsDeleted s c h key _ (unchanged-IsStored s h key none served e)
      (ap (λ x. is_some (visible 0 x)) (sym e))
delete_found-IsDeleted (some x) s c h key served e =
    IsStored-IsDeleted s c h key _ (gone-IsStored x s c h key served e)
      (sym (visible_at_start x) ∙ ap (λ y. is_some (visible 0 y)) (sym e))

-- After a delete from a table in which each entry is in the bucket of its hash and no key is twice,
-- the table is such a table again, a get of the key answers nothing at any time, a get of any other
-- key answers what it would have answered before, and the delete says that it removed an entry just
-- where a get at time 0, when nothing has expired, would have answered a value.
pub delete-IsDeleted :
    (s : Shard) (c : Counters) (h : ℕ) (key : List ℕ)
    → IsServed s
    → IsDeleted s c h key (delete s c h key)
unfolding delete
delete-IsDeleted s c h key served = delete_found-IsDeleted (lookup s h key) s c h key served refl

-- The table is right, and no later get of any key answers otherwise than it would have.
pub record IsQuiet (s : Shard) (now : ℕ) (out : Shard) : Type 0 where
  pub served : IsServed out
  pub same :
      (c c' : Counters) (h : ℕ) (key : List ℕ) (later : ℕ)
      → now ≤ later
      → (get_common out c' h key later).1 ≡ (get_common s c h key later).1

still_expired :
    (e : Entry) (now later : ℕ)
    → is_expired now e ≡ true
    → now ≤ later
    → visible later (some e) ≡ none
unfolding is_expired
still_expired e now later gone le = ground (arith, gone, le)

same_or_IsOther : (h h' : ℕ) (key key' : List ℕ) → ((h ≡ h') × (key ≡ key')) ⊎ IsOther h key h' key'
same_or_IsOther h h' key key' = elim (Bool-cases (h == h')) [
  | inl hash ↦ elim (Bool-cases (bytes_eq key key')) [
    | inl bytes ↦ inl (ground (arith, hash), bytes_eq→≡ key key' bytes)
    | inr differ ↦ inr (
        inr (λ e.
          absurd (ground (arith, differ, ap (λ k. bytes_eq key k) (sym e), bytes_eq_refl key))))
  ]
  | inr differ ↦ inr (inl (ground (arith, differ)))
]

removed-IsQuiet :
    (e : Entry) (s : Shard) (c : Counters) (h : ℕ) (key : List ℕ) (now : ℕ)
    → IsServed s
    → lookup s h key ≡ some e
    → is_expired now e ≡ true
    → IsQuiet s now (removed e s c h key).0
removed-IsQuiet e s c h key now served found gone =
    let stored = gone-IsStored e s c h key served found in
    let out = (removed e s c h key).0 in
    record {
      served = stored.served;
      same = λ c1 c2 h' key' later le. elim (same_or_IsOther h h' key key') [
        | inl alike ↦
            get_common-visible out c2 h' key' later
            ∙ ap (λ x. visible later x)
                (ap (λ y. lookup out y key') (sym alike.0)
                  ∙ ap (λ k. lookup out h k) (sym alike.1)
                  ∙ stored.here)
            ∙ sym (still_expired e now later gone le)
            ∙ ap (λ x. visible later x)
                (sym found ∙ ap (λ k. lookup s h k) alike.1 ∙ ap (λ y. lookup s y key') alike.0)
            ∙ sym (get_common-visible s c1 h' key' later)
        | inr other ↦ IsStored-KeepsOthers s h key none out stored c1 c2 h' key' later other
      ];
    }

unchanged-IsQuiet : (s : Shard) (now : ℕ) → IsServed s → IsQuiet s now s
unchanged-IsQuiet s now served = record {
  served = served;
  same = λ c c' h key later _.
      get_common-visible s c' h key later ∙ sym (get_common-visible s c h key later);
}

get_found-IsQuiet :
    (o : Option Entry) (s : Shard) (c : Counters) (h : ℕ) (key : List ℕ) (now : ℕ)
    → IsServed s
    → lookup s h key ≡ o
    → IsQuiet s now (get_found o s c h key now).0.0
unfolding get_found
get_found-IsQuiet none s c h key now served e = unchanged-IsQuiet s now served
get_found-IsQuiet (some x) s c h key now served e =
    if_cases (λ (r : (Shard × Counters) × Option (List ℕ)). IsQuiet s now r.0.0) (is_expired now x)
      _ _ (λ gone. removed-IsQuiet x s c h key now served e gone)
      (λ _. unchanged-IsQuiet s now served)

-- A get may remove an entry that has expired, and that is not seen: in a table in which each entry is
-- in the bucket of its hash and no key is twice, the table after the get is such a table again, and a
-- get of any key at the same time or later answers what it would have answered without the first get.
pub get_common-IsQuiet :
    (s : Shard) (c : Counters) (h : ℕ) (key : List ℕ) (now : ℕ)
    → IsServed s
    → IsQuiet s now (get_common s c h key now).0.0
unfolding get_common
get_common-IsQuiet s c h key now served =
    get_found-IsQuiet (lookup s h key) s c h key now served refl
