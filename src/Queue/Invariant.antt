-- ===== src/Queue/Invariant.antt =====
-- What the counters of a queue say, through the single changes of its list.
use kuttidb.Base.{
  total, total-append, ℕ, ◌+◌, ◌≤◌, ◌<◌, ◌≡◌, ◌≢◌, ◌⊎◌, sym, false, List, [], ◌∷◌, ◌++◌, some,
  arith, ◌==◌, if◌then◌else◌, All, length, length-append, Bool-cases, inl, inr,
}
use mathlib.Core.Path.{subst}
use kuttidb.Queue.{Message, Queue, messages}
use kuttidb.Queue.Lists.{is_inflight, remove_id, replace_id, find_id}
use kuttidb.Queue.Messages.{message_link, with_footprint, remove_message}
use kuttidb.Queue.Counts.{
  total-remove_id, total-replace_id, length-remove_id, length-replace_id, messages-message_link,
  messages-remove_message,
}

abbrev pub inflight_weight : Message → ℕ
inflight_weight m = if is_inflight m then 1 else 0

abbrev pub ttl_weight : Message → ℕ
ttl_weight m = if m.expires_ms == 0 then 0 else 1

-- No message of the list has this id.
abbrev pub Avoids : ℕ → List Message → Type 0
Avoids id = All (λ (m : Message). m.id ≢ id)

abbrev pub AreDistinct : List Message → Type 0
AreDistinct [] = Unit
AreDistinct (m ∷ ms) = Avoids m.id ms × AreDistinct ms

abbrev pub Holds : Queue → Message → Type 0
Holds q m = find_id m.id (messages q) ≡ some m

pub record IsConsistent (q : Queue) : Type 0 where
  pub depth : q.depth ≡ length (messages q)
  pub inflight : q.inflight_count ≡ total inflight_weight (messages q)
  pub ttl : q.ttl_count ≡ total ttl_weight (messages q)
  pub distinct : AreDistinct (messages q)
  pub room : (q.max_depth ≡ 0) ⊎ (q.depth ≤ q.max_depth)

Avoids-append_one :
    (id : ℕ) (xs : List Message) (m : Message) → Avoids id xs → m.id ≢ id → Avoids id (xs ++ m ∷ [])
Avoids-append_one id [] m h e = (e, tt)
Avoids-append_one id (x ∷ xs) m h e = (h.0, Avoids-append_one id xs m h.1 e)

pub AreDistinct-append_one :
    (xs : List Message) (m : Message) → AreDistinct xs → Avoids m.id xs → AreDistinct (xs ++ m ∷ [])
AreDistinct-append_one [] m h a = (tt, tt)
AreDistinct-append_one (x ∷ xs) m h a =
    (Avoids-append_one x.id xs m h.0 (λ e. a.0 (sym e)), AreDistinct-append_one xs m h.1 a.1)

pub Avoids-remove_id : (id i : ℕ) (xs : List Message) → Avoids id xs → Avoids id (remove_id i xs)
unfolding remove_id
Avoids-remove_id id i [] h = tt
Avoids-remove_id id i (x ∷ xs) h = ground (arith, Avoids-remove_id id i xs)

AreDistinct-remove_id : (i : ℕ) (xs : List Message) → AreDistinct xs → AreDistinct (remove_id i xs)
unfolding remove_id
AreDistinct-remove_id i [] h = tt
AreDistinct-remove_id i (x ∷ xs) h =
    ground (arith, AreDistinct-remove_id i xs, Avoids-remove_id x.id i xs)

Avoids-replace_id :
    (id i : ℕ) (m' : Message) (xs : List Message)
    → m'.id ≡ i
    → Avoids id xs
    → Avoids id (replace_id i m' xs)
unfolding replace_id
Avoids-replace_id id i m' [] e h = tt
Avoids-replace_id id i m' (x ∷ xs) e h = ground (arith, Avoids-replace_id id i m' xs)

AreDistinct-replace_id :
    (i : ℕ) (m' : Message) (xs : List Message)
    → m'.id ≡ i
    → AreDistinct xs
    → AreDistinct (replace_id i m' xs)
unfolding replace_id
AreDistinct-replace_id i m' [] e h = tt
AreDistinct-replace_id i m' (x ∷ xs) e h = elim (Bool-cases (x.id == i)) [
  | inl same ↦
      let named : x.id ≡ m'.id = ground (arith, same) in
      rw same (subst (λ k. Avoids k xs) named h.0, h.1)
  | inr other ↦
      rw other (Avoids-replace_id x.id i m' xs e h.0, AreDistinct-replace_id i m' xs e h.1)
]

-- A new message, whose id no message has, in a queue that is not full.
pub message_link-IsConsistent :
    {q : Queue} (m : Message)
    → IsConsistent q
    → Avoids m.id (messages q)
    → is_inflight m ≡ false
    → (q.max_depth ≡ 0) ⊎ (q.depth < q.max_depth)
    → IsConsistent (message_link q m)
unfolding message_link total
message_link-IsConsistent {q} m c a r free =
    let list = messages-message_link q m in
    let new = with_footprint q m in
    record {
      depth = rw list (omega (arith, length-append (messages q) (new ∷ []), c.depth));
      inflight = rw list (ground (arith, total-append inflight_weight (messages q) (new ∷ [])));
      ttl = rw list (ground (arith, total-append ttl_weight (messages q) (new ∷ [])));
      distinct = rw list (AreDistinct-append_one (messages q) new c.distinct (ground arith));
      room = ground arith;
    }

pub remove_message-IsConsistent :
    {q : Queue} (m : Message) → IsConsistent q → Holds q m → IsConsistent (remove_message q m)
unfolding remove_message
remove_message-IsConsistent {q} m c h =
    let list = messages-remove_message q m in
    record {
      depth = rw list (omega (arith, length-remove_id m.id m (messages q) h, c.depth));
      inflight = rw list (ground (arith, total-remove_id inflight_weight m.id m (messages q)));
      ttl = rw list (ground (arith, total-remove_id ttl_weight m.id m (messages q)));
      distinct = rw list (AreDistinct-remove_id m.id (messages q) c.distinct);
      room = ground arith;
    }

-- A held message that changes in place, the counter of deliveries with it.
pub replace-IsConsistent :
    {q : Queue} (q' : Queue) (m m' : Message)
    → IsConsistent q
    → Holds q m
    → m'.id ≡ m.id
    → m'.expires_ms ≡ m.expires_ms
    → messages q' ≡ replace_id m.id m' (messages q)
    → q'.depth ≡ q.depth
    → q'.ttl_count ≡ q.ttl_count
    → q'.max_depth ≡ q.max_depth
    → q'.inflight_count + inflight_weight m ≡ q.inflight_count + inflight_weight m'
    → IsConsistent q'
replace-IsConsistent {q} q' m m' c h id expiry list depth count bound flight = record {
  depth = rw list (omega (arith, length-replace_id m.id m m' (messages q) h, c.depth));
  inflight =
      rw list
        (omega (arith, total-replace_id inflight_weight m.id m m' (messages q) h, c.inflight));
  ttl = rw list (ground (arith, total-replace_id ttl_weight m.id m m' (messages q)));
  distinct = rw list (AreDistinct-replace_id m.id m' (messages q) id c.distinct);
  room = ground arith;
}
