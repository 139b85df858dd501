-- ===== src/Queue/Lookup.antt =====
-- Looking a queue up after writing one back.
use mathlib.Core.Path.{subst}
use kuttidb.Base.{
  ℕ, ◌≡◌, refl, sym, ap, true, false, List, [], ◌∷◌, some, arith, bytes_eq, bytes_eq→≡,
  bytes_eq_refl, if◌then◌else◌, Bool-cases, inl, inr,
}
use kuttidb.Queue.{Queue, is_named, find_queue, update_queue}

-- A live queue under its name.
pub is_named-split :
    (name : List ℕ) (q : Queue) → is_named name q ≡ true → (q.deleted ≡ false) × (q.name ≡ name)
is_named-split name q h = (ground arith, bytes_eq→≡ q.name name (ground arith))

pub is_named-make :
    (name : List ℕ) (q : Queue) → q.deleted ≡ false → q.name ≡ name → is_named name q ≡ true
is_named-make name q live same = rw (live, same, bytes_eq_refl name) refl

pub find_queue-is_named :
    (name : List ℕ) (qs : List Queue) (q : Queue)
    → find_queue name qs ≡ some q
    → is_named name q ≡ true
unfolding find_queue
find_queue-is_named name [] q e = cc
find_queue-is_named name (x ∷ qs) q e = elim (Bool-cases (is_named name x)) [
  | inl here ↦
      let same : x ≡ q = ground (arith, here) in subst (λ p. is_named name p ≡ true) same here
  | inr there ↦ find_queue-is_named name qs q (ground (arith, there))
]

-- The queue written back is the one found.
pub find_queue-update_queue :
    (name : List ℕ) (q q' : Queue) (qs : List Queue)
    → find_queue name qs ≡ some q
    → is_named name q' ≡ true
    → find_queue name (update_queue name q' qs) ≡ some q'
unfolding find_queue update_queue
find_queue-update_queue name q q' [] e h = cc
find_queue-update_queue name q q' (x ∷ qs) e h = elim (Bool-cases (is_named name x)) [
  | inl here ↦ rw (here, h) refl
  | inr there ↦ rw (there, there) (find_queue-update_queue name q q' qs (ground (arith, there)) h)
]

other_name :
    (name n : List ℕ) (q : Queue)
    → bytes_eq n name ≡ false
    → is_named n q ≡ true
    → is_named name q ≡ false
other_name name n q ne h =
    let same = (is_named-split n q h).1 in ground (arith, ap (λ k. bytes_eq k name) same)

-- Another queue is found as before.
pub find_queue-update_queue_ne :
    (name n : List ℕ) (q' : Queue) (qs : List Queue)
    → bytes_eq n name ≡ false
    → is_named n q' ≡ true
    → find_queue name (update_queue n q' qs) ≡ find_queue name qs
unfolding find_queue update_queue
find_queue-update_queue_ne name n q' [] ne h = refl
find_queue-update_queue_ne name n q' (x ∷ qs) ne h = elim (Bool-cases (is_named n x)) [
  | inl here ↦ rw (here, other_name name n q' ne h, other_name name n x ne here) refl
  | inr there ↦ rw there (
      ap (λ rest. if is_named name x then some x else rest)
        (find_queue-update_queue_ne name n q' qs ne h))
]

-- Writing back what was found changes nothing.
pub update_queue_found :
    (name : List ℕ) (q : Queue) (qs : List Queue)
    → find_queue name qs ≡ some q
    → update_queue name q qs ≡ qs
unfolding find_queue update_queue
update_queue_found name q [] e = refl
update_queue_found name q (x ∷ qs) e = elim (Bool-cases (is_named name x)) [
  | inl here ↦ let same : x ≡ q = ground (arith, here) in rw here (ap (λ p. p ∷ qs) (sym same))
  | inr there ↦
      rw there (ap (λ rest. x ∷ rest) (update_queue_found name q qs (ground (arith, there))))
]
