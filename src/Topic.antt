-- ===== src/Topic.antt =====
-- src/queue.c: matching of routing keys against topic patterns (`topic_word_count`,
-- `topic_word_at`, `topic_matches`). A string is the list of its bytes.
pub mod Spec
pub mod Split
pub mod Matching
use kuttidb.Base.{
  ℕ, zero, suc, ◌+◌, Bool, true, false, ◌||◌, List, [], ◌∷◌, ◌++◌, ltb, ◌==◌, bytes_eq,
  if◌then◌else◌,
}

abbrev pub topic_words_max : ℕ
topic_words_max = 128

-- `words` starts at 1; the loop adds 1 for each '.'.
unfoldable pub topic_word_count : List ℕ → ℕ
topic_word_count [] = 1
topic_word_count (c ∷ s) = (if c == b'.' then 1 else 0) + topic_word_count s

-- The loop over `i`: the list is what `i` has not reached, `cur` is s[start .. i).
pub word_at_loop : List ℕ → List ℕ → ℕ → ℕ → List ℕ
word_at_loop [] cur word index = if word == index then cur else []
word_at_loop (c ∷ s) cur word index =
    let next_word = word_at_loop s [] (word + 1) index in
    let same_word = word_at_loop s (cur ++ c ∷ []) word index in
    if c == b'.' then (if word == index then cur else next_word) else same_word

unfoldable pub topic_word_at : List ℕ → ℕ → List ℕ
unfolding word_at_loop
topic_word_at s index = word_at_loop s [] 0 index

-- The `pw` array: the words i .. i + n - 1.
pub words_from : List ℕ → ℕ → ℕ → List (List ℕ)
words_from s i zero = []
words_from s i (suc n) = topic_word_at s i ∷ words_from s (i + 1) n

-- `pw_len[i] == 1 && pw[i][0] == '#'`, and the same for '*'.
abbrev pub is_hash : List ℕ → Bool
is_hash (c ∷ []) = c == b'#'
is_hash _ = false

abbrev pub is_star : List ℕ → Bool
is_star (c ∷ []) = c == b'*'
is_star _ = false

-- The first cell of a row, and the cell after it.
abbrev pub cell : List Bool → Bool
cell [] = false
cell (d ∷ _) = d

abbrev pub cells : List Bool → List Bool
cells [] = []
cells (_ ∷ ds) = ds

-- `dp` before any key word: the row's list is dp[i] .. dp[m].
pub seed_row : List (List ℕ) → List Bool
seed_row [] = true ∷ []
seed_row (p ∷ ps) = let rest = seed_row ps in (if is_hash p then cell rest else false) ∷ rest

-- `cur` from `dp` at the key word `kw`.
pub next_row : List ℕ → List (List ℕ) → List Bool → List Bool
next_row kw [] dp = false ∷ []
next_row kw (p ∷ ps) dp =
    let rest = next_row kw ps (cells dp) in
    (if is_hash p
      then cell rest || cell dp
      else if is_star p
      then cell (cells dp)
      else if bytes_eq p kw
      then cell (cells dp)
      else false)
    ∷ rest

-- for (j = n; j-- > 0;)
pub rows : List ℕ → List (List ℕ) → ℕ → List Bool → List Bool
rows key pw zero dp = dp
rows key pw (suc j) dp = rows key pw j (next_row (topic_word_at key j) pw dp)

unfoldable pub topic_matches : List ℕ → List ℕ → Bool
unfolding words_from seed_row next_row rows
topic_matches pattern key =
    let m = topic_word_count pattern in
    if ltb topic_words_max m
    then false
    else (let pw = words_from pattern 0 m in
        cell (rows key pw (topic_word_count key) (seed_row pw)))
