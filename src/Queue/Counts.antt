-- ===== src/Queue/Counts.antt =====
-- Sums over message lists, and what unlinking, changing and cutting do to them.
use mathlib.Core.List.{append_assoc}
use kuttidb.Base.{
  total, ℕ, ◌+◌, ◌≡◌, ◌≢◌, refl, sym, false, some, List, [], ◌∷◌, ◌++◌, arith, if◌then◌else◌,
  length,
}
use kuttidb.Queue.{Message, Queue, messages}
use kuttidb.Queue.Lists.{
  has_id, remove_id, replace_id, find_id, in_front_of, starting_at, inflight_run, after_inflight,
  hint_at, hint_after,
}
use kuttidb.Queue.Messages.{remove_message, replace_message, message_link, with_footprint}

pub total_one : (xs : List Message) → total (λ _. 1) xs ≡ length xs
unfolding total
total_one [] = refl
total_one (x ∷ xs) = omega (arith, total_one xs)

pub total-remove_id :
    (f : Message → ℕ) (id : ℕ) (m : Message) (xs : List Message)
    → find_id id xs ≡ some m
    → total f (remove_id id xs) + f m ≡ total f xs
unfolding total remove_id find_id
total-remove_id f id m [] h = cc
total-remove_id f id m (x ∷ xs) h = ground (arith, total-remove_id f id m xs)

pub total-replace_id :
    (f : Message → ℕ) (id : ℕ) (m m' : Message) (xs : List Message)
    → find_id id xs ≡ some m
    → total f (replace_id id m' xs) + f m ≡ total f xs + f m'
unfolding total replace_id find_id
total-replace_id f id m m' [] h = cc
total-replace_id f id m m' (x ∷ xs) h = ground (arith, total-replace_id f id m m' xs)

pub find_id-remove_id_ne :
    (i j : ℕ) (xs : List Message) → i ≢ j → find_id j (remove_id i xs) ≡ find_id j xs
unfolding remove_id find_id
find_id-remove_id_ne i j [] h = refl
find_id-remove_id_ne i j (x ∷ xs) h = ground (arith, find_id-remove_id_ne i j xs)

pub find_id-replace_id_ne :
    (i j : ℕ) (m' : Message) (xs : List Message)
    → i ≢ j
    → m'.id ≡ i
    → find_id j (replace_id i m' xs) ≡ find_id j xs
unfolding replace_id find_id
find_id-replace_id_ne i j m' [] h e = refl
find_id-replace_id_ne i j m' (x ∷ xs) h e = ground (arith, find_id-replace_id_ne i j m' xs)

remove_id_absent : (id : ℕ) (xs : List Message) → has_id id xs ≡ false → remove_id id xs ≡ xs
unfolding remove_id has_id
remove_id_absent id [] h = refl
remove_id_absent id (x ∷ xs) h = ground (arith, remove_id_absent id xs)

replace_id_absent :
    (id : ℕ) (m' : Message) (xs : List Message) → has_id id xs ≡ false → replace_id id m' xs ≡ xs
unfolding replace_id has_id
replace_id_absent id m' [] h = refl
replace_id_absent id m' (x ∷ xs) h = ground (arith, replace_id_absent id m' xs)

remove_id-append :
    (id : ℕ) (xs ys : List Message)
    → remove_id id (xs ++ ys) ≡ remove_id id xs ++ (if has_id id xs then ys else remove_id id ys)
unfolding remove_id has_id
remove_id-append id [] ys = refl
remove_id-append id (x ∷ xs) ys = ground (arith, remove_id-append id xs ys)

replace_id-append :
    (id : ℕ) (m' : Message) (xs ys : List Message)
    → replace_id id m' (xs ++ ys)
      ≡ replace_id id m' xs ++ (if has_id id xs then ys else replace_id id m' ys)
unfolding replace_id has_id
replace_id-append id m' [] ys = refl
replace_id-append id m' (x ∷ xs) ys = ground (arith, replace_id-append id m' xs ys)

-- Where the hint stands does not matter to what the queue holds.
pub messages-remove_message :
    (q : Queue) (m : Message) → messages (remove_message q m) ≡ remove_id m.id (messages q)
unfolding remove_message
messages-remove_message q m = sym (remove_id-append m.id q.before q.from_hint)

pub messages-replace_message :
    (q : Queue) (m : Message) → messages (replace_message q m) ≡ replace_id m.id m (messages q)
unfolding replace_message
messages-replace_message q m = sym (replace_id-append m.id m q.before q.from_hint)

cut_at : (id : ℕ) (xs : List Message) → in_front_of id xs ++ starting_at id xs ≡ xs
unfolding in_front_of starting_at
cut_at id [] = refl
cut_at id (x ∷ xs) = ground (arith, cut_at id xs)

cut_inflight : (xs : List Message) → inflight_run xs ++ after_inflight xs ≡ xs
unfolding inflight_run after_inflight
cut_inflight [] = refl
cut_inflight (x ∷ xs) = ground (arith, cut_inflight xs)

pub messages-hint_at : (id : ℕ) (q : Queue) → messages (hint_at id q) ≡ messages q
messages-hint_at id q = cut_at id (messages q)

pub messages-hint_after : (id : ℕ) (q : Queue) → messages (hint_after id q) ≡ messages q
messages-hint_after id q = rw (append_assoc, cut_inflight) (cut_at id (messages q))

pub messages-message_link :
    (q : Queue) (m : Message) → messages (message_link q m) ≡ messages q ++ with_footprint q m ∷ []
unfolding message_link
messages-message_link q m = sym (append_assoc q.before q.from_hint (with_footprint q m ∷ []))

pub length-remove_id :
    (id : ℕ) (m : Message) (xs : List Message)
    → find_id id xs ≡ some m
    → length (remove_id id xs) + 1 ≡ length xs
length-remove_id id m xs h =
    omega (arith, total_one xs, total_one (remove_id id xs), total-remove_id (λ _. 1) id m xs h)

pub length-replace_id :
    (id : ℕ) (m m' : Message) (xs : List Message)
    → find_id id xs ≡ some m
    → length (replace_id id m' xs) ≡ length xs
length-replace_id id m m' xs h =
    omega
      (arith, total_one xs, total_one (replace_id id m' xs), total-replace_id (λ _. 1) id m m' xs h)

pub find_id-messages-remove_message :
    (q : Queue) (m : Message) (j : ℕ)
    → m.id ≢ j
    → find_id j (messages (remove_message q m)) ≡ find_id j (messages q)
find_id-messages-remove_message q m j ne =
    rw messages-remove_message (find_id-remove_id_ne m.id j (messages q) ne)

pub find_id-messages-replace_message :
    (q : Queue) (m : Message) (j : ℕ)
    → m.id ≢ j
    → find_id j (messages (replace_message q m)) ≡ find_id j (messages q)
find_id-messages-replace_message q m j ne =
    rw messages-replace_message (find_id-replace_id_ne m.id j m (messages q) ne refl)
