-- ===== src/Topic/Spec.antt =====
-- What a topic pattern means: a string as its words, an inductive relation between the words of a
-- pattern and of a key, and its decision by recursion.
use kuttidb.Base.{
  ℕ, ◌≡◌, refl, Bool, true, false, ◌&&◌, ◌||◌, List, [], ◌∷◌, arith, ◌==◌, bytes_eq, bytes_eq→≡,
  bytes_eq_refl, if◌then◌else◌, Bool-cases, inl, inr,
}
use kuttidb.Topic.{is_hash, is_star}

unfoldable pub push_front : ℕ → List (List ℕ) → List (List ℕ)
push_front c [] = (c ∷ []) ∷ []
push_front c (w ∷ ws) = (c ∷ w) ∷ ws

-- The words between the dots; there is always at least one, which may be empty.
unfoldable pub words : List ℕ → List (List ℕ)
unfolding push_front
words [] = [] ∷ []
words (c ∷ s) = let rest = words s in if c == b'.' then [] ∷ rest else push_front c rest

-- '*' stands for one word, '#' for any number of words, any other word for itself.
pub data Matches : List (List ℕ) → List (List ℕ) → Type 0 where
  end : Matches [] []
  none_more :
      {p : List ℕ} {ps ks : List (List ℕ)} → is_hash p ≡ true → Matches ps ks → Matches (p ∷ ps) ks
  one_more :
      {p k : List ℕ} {ps ks : List (List ℕ)}
      → is_hash p ≡ true
      → Matches (p ∷ ps) ks
      → Matches (p ∷ ps) (k ∷ ks)
  any_word :
      {p k : List ℕ} {ps ks : List (List ℕ)}
      → is_star p ≡ true
      → Matches ps ks
      → Matches (p ∷ ps) (k ∷ ks)
  same_word :
      {p k : List ℕ} {ps ks : List (List ℕ)}
      → is_hash p ≡ false
      → is_star p ≡ false
      → p ≡ k
      → Matches ps ks
      → Matches (p ∷ ps) (k ∷ ks)

unfoldable pub match_words : List (List ℕ) → List (List ℕ) → Bool
match_words [] [] = true
match_words [] (k ∷ ks) = false
match_words (p ∷ ps) [] = is_hash p && match_words ps []
match_words (p ∷ ps) (k ∷ ks) =
    if is_hash p
    then match_words (p ∷ ps) ks || match_words ps (k ∷ ks)
    else if is_star p
    then match_words ps ks
    else bytes_eq p k && match_words ps ks

pub match_words_sound : (ps ks : List (List ℕ)) → match_words ps ks ≡ true → Matches ps ks
unfolding match_words
match_words_sound [] [] h = end
match_words_sound [] (k ∷ ks) h = cc
match_words_sound (p ∷ ps) [] h = none_more (ground arith) (match_words_sound ps [] (ground arith))
match_words_sound (p ∷ ps) (k ∷ ks) h = elim (Bool-cases (is_hash p)) [
  | inl hash ↦ elim (Bool-cases (match_words (p ∷ ps) ks)) [
    | inl more ↦ one_more hash (match_words_sound (p ∷ ps) ks more)
    | inr stop ↦ none_more hash (match_words_sound ps (k ∷ ks) (ground arith))
  ]
  | inr plain ↦ elim (Bool-cases (is_star p)) [
    | inl star ↦ any_word star (match_words_sound ps ks (ground arith))
    | inr word ↦
        same_word plain word (bytes_eq→≡ p k (ground arith))
          (match_words_sound ps ks (ground arith))
  ]
]

star-not-hash : (p : List ℕ) → is_star p ≡ true → is_hash p ≡ false
star-not-hash [] h = cc
star-not-hash (c ∷ []) h = ground arith
star-not-hash (c ∷ d ∷ p) h = cc

pub match_words_complete : {ps ks : List (List ℕ)} → Matches ps ks → match_words ps ks ≡ true
unfolding match_words
match_words_complete end = refl
match_words_complete (none_more {ks = []} h m) = ground (arith, match_words_complete m)
match_words_complete (none_more {ks = k ∷ ks} h m) = ground (arith, match_words_complete m)
match_words_complete (one_more h m) = ground (arith, match_words_complete m)
match_words_complete (any_word {p} h m) = ground (arith, star-not-hash p h, match_words_complete m)
match_words_complete (same_word {p} {k} h g e m) =
    ground (arith, e, bytes_eq_refl k, match_words_complete m)
