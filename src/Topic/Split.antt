-- ===== src/Topic/Split.antt =====
-- The index-based word functions of the code, against the split of the string into words.
use mathlib.Core.List.{append_assoc, append-nil}
use kuttidb.Base.{
  ℕ, zero, suc, ◌+◌, ◌<◌, ◌≡◌, refl, List, [], ◌∷◌, ◌++◌, arith, get_or, length, drop, sym, ◌∙◌,
  drop-get_or, drop-length,
}
use kuttidb.Topic.{topic_word_count, topic_word_at, word_at_loop, words_from}
use kuttidb.Topic.Spec.{words, push_front}

length-push_front :
    (c : ℕ) (ws : List (List ℕ)) → 0 < length ws → length (push_front c ws) ≡ length ws
unfolding push_front
length-push_front c [] h = absurd (omega arith)
length-push_front c (w ∷ ws) h = refl

words-nonempty : (s : List ℕ) → 0 < length (words s)
unfolding words
words-nonempty [] = omega arith
words-nonempty (c ∷ s) = ground (arith, words-nonempty s, length-push_front c (words s))

pub topic_word_count-words : (s : List ℕ) → topic_word_count s ≡ length (words s)
unfolding topic_word_count words
topic_word_count-words [] = refl
topic_word_count-words (c ∷ s) =
    ground (arith, topic_word_count-words s, length-push_front c (words s), words-nonempty s)

-- The word that `index` names once `cur` is the beginning of the word in front.
abbrev word_after : List ℕ → List (List ℕ) → ℕ → List ℕ
word_after cur [] i = []
word_after cur (w ∷ ws) zero = cur ++ w
word_after cur (w ∷ ws) (suc i) = get_or ws i []

word_after-empty : (ws : List (List ℕ)) (i : ℕ) → word_after [] ws i ≡ get_or ws i []
word_after-empty [] i = refl
word_after-empty (w ∷ ws) zero = refl
word_after-empty (w ∷ ws) (suc i) = refl

word_after-push :
    (c : ℕ) (cur : List ℕ) (ws : List (List ℕ)) (i : ℕ)
    → 0 < length ws
    → word_after (cur ++ c ∷ []) ws i ≡ word_after cur (push_front c ws) i
unfolding push_front
word_after-push c cur [] i h = absurd (omega arith)
word_after-push c cur (w ∷ ws) zero h = append_assoc cur (c ∷ []) w
word_after-push c cur (w ∷ ws) (suc i) h = refl

word_at_loop-words :
    (s cur : List ℕ) (word k index : ℕ)
    → word + k ≡ index
    → word_at_loop s cur word index ≡ word_after cur (words s) k
unfolding word_at_loop words
word_at_loop-words [] cur word zero index e = ground (arith, append-nil cur)
word_at_loop-words [] cur word (suc k) index e = ground arith
word_at_loop-words (c ∷ s) cur word zero index e = ground (
  arith,
  append-nil cur,
  word_at_loop-words s (cur ++ c ∷ []) word zero index,
  word_after-push c cur (words s) zero,
  words-nonempty s,
)
word_at_loop-words (c ∷ s) cur word (suc k) index e = ground (
  arith,
  word_at_loop-words s [] (word + 1) k index,
  word_at_loop-words s (cur ++ c ∷ []) word (suc k) index,
  word_after-push c cur (words s) (suc k),
  word_after-empty (words s) k,
  words-nonempty s,
)

pub topic_word_at-words : (s : List ℕ) (i : ℕ) → topic_word_at s i ≡ get_or (words s) i []
unfolding topic_word_at
topic_word_at-words s i = word_at_loop-words s [] 0 i i (omega arith) ∙ word_after-empty (words s) i

words_from-drop :
    (s : List ℕ) (i n : ℕ) → i + n ≡ length (words s) → words_from s i n ≡ drop i (words s)
unfolding words_from
words_from-drop s i zero e =
    let done : i ≡ length (words s) = omega arith in sym (rw done (drop-length (words s)))
words_from-drop s i (suc n) e =
    ground (arith, topic_word_at-words s i, words_from-drop s (i + 1) n, drop-get_or (words s) i [])

pub words_from-words : (s : List ℕ) → words_from s 0 (topic_word_count s) ≡ words s
words_from-words s = words_from-drop s 0 _ (omega (arith, topic_word_count-words s))
