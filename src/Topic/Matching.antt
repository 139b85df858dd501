-- ===== src/Topic/Matching.antt =====
-- The rows of the dynamic program, against the recursion on the words.
use native.Mathlib.Nat.{le_refl}
use kuttidb.Base.{
  ℕ, zero, suc, ◌≤◌, ◌≡◌, ◌↔◌, refl, Bool, true, List, [], ◌∷◌, arith, length, drop, leb, sym, ◌∙◌,
  drop-get_or, drop-length, ◌&&◌,
}
use kuttidb.Topic.{topic_words_max, topic_word_count, seed_row, next_row, rows, topic_matches, cell}
use kuttidb.Topic.Spec.{words, Matches, match_words, match_words_sound, match_words_complete}
use kuttidb.Topic.Split.{topic_word_count-words, topic_word_at-words, words_from-words}

-- For each suffix of the pattern, whether it matches these key words.
table : List (List ℕ) → List (List ℕ) → List Bool
table [] ks = match_words [] ks ∷ []
table (p ∷ ps) ks = match_words (p ∷ ps) ks ∷ table ps ks

cell-table : (ps ks : List (List ℕ)) → cell (table ps ks) ≡ match_words ps ks
unfolding table
cell-table [] ks = refl
cell-table (p ∷ ps) ks = refl

seed_row-table : (ps : List (List ℕ)) → seed_row ps ≡ table ps []
unfolding seed_row table match_words
seed_row-table [] = refl
seed_row-table (p ∷ ps) = ground (arith, seed_row-table ps, cell-table ps [])

next_row-table :
    (k : List ℕ) (ps ks : List (List ℕ)) → next_row k ps (table ps ks) ≡ table ps (k ∷ ks)
unfolding next_row table match_words
next_row-table k [] ks = refl
next_row-table k (p ∷ ps) ks =
    ground (arith, next_row-table k ps ks, cell-table ps (k ∷ ks), cell-table ps ks)

rows-table :
    (key : List ℕ) (ps : List (List ℕ)) (j : ℕ)
    → j ≤ length (words key)
    → rows key ps j (table ps (drop j (words key))) ≡ table ps (words key)
unfolding rows
rows-table key ps zero h = refl
rows-table key ps (suc j) h =
    rw (topic_word_at-words, next_row-table, ← drop-get_or (words key) j [] h)
      (rows-table key ps j (omega arith))

rows-match_words :
    (key : List ℕ) (ps : List (List ℕ))
    → cell (rows key ps (topic_word_count key) (seed_row ps)) ≡ match_words ps (words key)
rows-match_words key ps =
    rw (seed_row-table, ← drop-length (words key), topic_word_count-words)
      (rw (rows-table key ps (length (words key)) (le_refl _)) (cell-table ps (words key)))

topic_matches-match_words :
    (pattern key : List ℕ)
    → topic_matches pattern key
      ≡ (leb (length (words pattern)) topic_words_max && match_words (words pattern) (words key))
unfolding topic_matches
topic_matches-match_words pattern key = ground (
  arith,
  words_from-words pattern,
  topic_word_count-words pattern,
  rows-match_words key (words pattern),
)

-- A pattern matches a key exactly when it has at most 128 words and its words match the key's.
pub topic_matches-Matches :
    (pattern key : List ℕ)
    → (topic_matches pattern key ≡ true)
      ↔ ((length (words pattern) ≤ topic_words_max) × Matches (words pattern) (words key))
topic_matches-Matches pattern key = (
  λ h.
      let both = sym (topic_matches-match_words pattern key) ∙ h in
      (ground (arith, both), match_words_sound (words pattern) (words key) (ground (arith, both))),
  λ h. ground (arith, topic_matches-match_words pattern key, match_words_complete h.1),
)
