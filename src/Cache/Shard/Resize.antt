-- ===== src/Cache/Shard/Resize.antt =====
-- The entries of a table, weighed, and what each change of the table does to the sum.
use kuttidb.Base.{ℕ, zero, suc, ◌+◌, ◌≤◌, ◌<◌, ◌≡◌, refl, ◌∙◌, List, [], ◌∷◌, some, arith, length}
use kuttidb.Cache.Shard.{
  Entry, Shard, bucket_at, set_bucket, find_entry, put_entry, drop_entry, index, move_all, rehash,
  empty_buckets,
}

unfoldable pub tally_bucket : (Entry → ℕ) → List Entry → ℕ
tally_bucket f [] = 0
tally_bucket f (e ∷ es) = f e + tally_bucket f es

unfoldable pub tally : (Entry → ℕ) → List (List Entry) → ℕ
tally f [] = 0
tally f (b ∷ bs) = tally_bucket f b + tally f bs

pub tally-set_bucket :
    (f : Entry → ℕ) (i : ℕ) (b' : List Entry) (bs : List (List Entry))
    → i < length bs
    → tally f (set_bucket i b' bs) + tally_bucket f (bucket_at i bs)
      ≡ tally f bs + tally_bucket f b'
unfolding tally set_bucket bucket_at
tally-set_bucket f i b' [] lt = omega (arith, lt)
tally-set_bucket f zero b' (b ∷ bs) lt = omega arith
tally-set_bucket f (suc i) b' (b ∷ bs) lt =
    omega (arith, tally-set_bucket f i b' bs (omega (arith, lt)))

pub length-set_bucket :
    (i : ℕ) (b' : List Entry) (bs : List (List Entry)) → length (set_bucket i b' bs) ≡ length bs
unfolding set_bucket
length-set_bucket i b' [] = refl
length-set_bucket zero b' (b ∷ bs) = refl
length-set_bucket (suc i) b' (b ∷ bs) = omega (arith, length-set_bucket i b' bs)

pub tally-put_entry :
    (f : Entry → ℕ) (h : ℕ) (key : List ℕ) (e e' : Entry) (es : List Entry)
    → find_entry h key es ≡ some e
    → tally_bucket f (put_entry h key e' es) + f e ≡ tally_bucket f es + f e'
unfolding tally_bucket put_entry find_entry
tally-put_entry f h key e e' [] found = absurd (cc found)
tally-put_entry f h key e e' (x ∷ es) found = ground (arith, tally-put_entry f h key e e' es)

pub tally-drop_entry :
    (f : Entry → ℕ) (h : ℕ) (key : List ℕ) (e : Entry) (es : List Entry)
    → find_entry h key es ≡ some e
    → tally_bucket f (drop_entry h key es) + f e ≡ tally_bucket f es
unfolding tally_bucket drop_entry find_entry
tally-drop_entry f h key e [] found = absurd (cc found)
tally-drop_entry f h key e (x ∷ es) found = ground (arith, tally-drop_entry f h key e es)

pub index-lt : (h n : ℕ) → 1 ≤ n → index h n < n
index-lt h n pos = omega (arith, pos)

tally-move_all :
    (f : Entry → ℕ) (n : ℕ) (es : List Entry) (nb : List (List Entry))
    → 1 ≤ n
    → length nb ≡ n
    → (tally f (move_all n es nb) ≡ tally f nb + tally_bucket f es)
      × (length (move_all n es nb) ≡ n)
unfolding move_all tally_bucket
tally-move_all f n [] nb pos len = (omega arith, len)
tally-move_all f n (e ∷ es) nb pos len =
    let i = index e.hash n in
    let nb' = set_bucket i (e ∷ bucket_at i nb) nb in
    let lt : i < length nb = omega (arith, index-lt e.hash n pos, len) in
    let rest = tally-move_all f n es nb' pos (length-set_bucket i (e ∷ bucket_at i nb) nb ∙ len) in
    (omega (arith, rest.0, tally-set_bucket f i (e ∷ bucket_at i nb) nb lt), rest.1)

tally-rehash :
    (f : Entry → ℕ) (n : ℕ) (bs nb : List (List Entry))
    → 1 ≤ n
    → length nb ≡ n
    → (tally f (rehash n bs nb) ≡ tally f nb + tally f bs) × (length (rehash n bs nb) ≡ n)
unfolding rehash tally
tally-rehash f n [] nb pos len = (omega arith, len)
tally-rehash f n (b ∷ bs) nb pos len =
    let moved = tally-move_all f n b nb pos len in
    let rest = tally-rehash f n bs (move_all n b nb) pos (moved.1) in
    (omega (arith, moved.0, rest.0), rest.1)

tally-empty_buckets :
    (f : Entry → ℕ) (n : ℕ) → (tally f (empty_buckets n) ≡ 0) × (length (empty_buckets n) ≡ n)
unfolding empty_buckets tally tally_bucket
tally-empty_buckets f zero = (refl, refl)
tally-empty_buckets f (suc n) =
    let rest = tally-empty_buckets f n in (omega (arith, rest.0), omega (arith, rest.1))

-- The table has as many buckets as it says, and one at least.
pub record IsTable (s : Shard) : Type 0 where
  pub size : length s.buckets ≡ s.nbuckets
  pub some_bucket : 1 ≤ s.nbuckets

-- What a rehash into empty buckets keeps.
pub tally-rehash_empty :
    (n : ℕ) (bs : List (List Entry))
    → 1 ≤ n
    → ((f : Entry → ℕ) → tally f (rehash n bs (empty_buckets n)) ≡ tally f bs)
      × (length (rehash n bs (empty_buckets n)) ≡ n)
      × (length (empty_buckets n) ≡ n)
tally-rehash_empty n bs pos =
    let zero_weight = tally-empty_buckets (λ _. 0) n in
    (
      λ f.
          let empty = tally-empty_buckets f n in
          let moved = tally-rehash f n bs (empty_buckets n) pos empty.1 in
          omega (arith, moved.0, empty.0),
      (tally-rehash (λ _. 0) n bs (empty_buckets n) pos zero_weight.1).1,
      zero_weight.1,
    )
