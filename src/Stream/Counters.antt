-- ===== src/Stream/Counters.antt =====
-- The counters of a topic: what they count, and that each operation on it keeps them right.
use kuttidb.Base.{
  total, total-append, ℕ, zero, suc, ◌+◌, ◌-◌, ◌<◌, ◌≡◌, refl, sym, ap, some, List, [], ◌∷◌, ◌++◌,
  ◌==◌, arith, Option-cases, inl, inr, if◌then◌else◌, length, All, IsU64, u64_mod, add64,
  length-append,
}
use kuttidb.Stream.{
  StreamRecord, StreamPart, StreamTopic, record_bytes, record_live, part_live, topic_live, part_at,
  set_part, part_link, boundaries, trim_at, trim_part,
}
use kuttidb.Stream.Trim.{
  cut, kept, total-cut, length-cut, trim_loop-eq, total-set_part, raise, Follows, Follows-kept,
  Follows-append,
}

-- The records of a partition stand at the offsets from its base to its next one, and it knows how
-- many bytes they have.
abbrev pub IsPart : StreamPart → Type 0
IsPart x = (x.bytes ≡ total record_bytes x.held) × (IsU64 x.next × Follows x.base x.next x.held)

-- The counters of a topic, and the share of the store's `live_bytes` that is not `rest`, the share
-- of the other topics.
pub record IsCounted (rest live : ℕ) (t : StreamTopic) : Type 0 where
  pub counts_live : live ≡ rest + topic_live t
  pub counts_bytes : t.bytes ≡ total (λ x. x.bytes) t.parts
  pub counts_records : t.records ≡ total (λ x. length x.held) t.parts
  pub parts_right : All IsPart t.parts

length-set_part :
    (p : ℕ) (x : StreamPart) (xs : List StreamPart) → length (set_part p x xs) ≡ length xs
length-set_part p x [] = refl
length-set_part zero x (y ∷ xs) = refl
length-set_part (suc p) x (y ∷ xs) = ap suc (length-set_part p x xs)

module _ {ℓ} (P : StreamPart → Type ℓ) where
  pub All-part_at :
      (p : ℕ) (xs : List StreamPart) (x : StreamPart) → All P xs → part_at p xs ≡ some x → P x
  All-part_at p [] x h e = cc e
  All-part_at zero (y ∷ xs) x h e = let same : y ≡ x = cc e in rw (sym same) h.0
  All-part_at (suc p) (y ∷ xs) x h e = All-part_at p xs x h.1 e

  pub All-set_part :
      (p : ℕ) (x : StreamPart) (xs : List StreamPart) → All P xs → P x → All P (set_part p x xs)
  All-set_part p x [] h k = tt
  All-set_part zero x (y ∷ xs) h k = (k, h.1)
  All-set_part (suc p) x (y ∷ xs) h k = (h.0, All-set_part p x xs h.1 k)

-- A partition after a trim.
abbrev pub trimmed : ℕ → StreamPart → StreamPart
trimmed b x = record x {
  held = kept b x.held;
  base = raise b x.base;
  next = raise b x.next;
  bytes = x.bytes - total record_bytes (cut b x.held);
}

trimmed-IsPart : (b : ℕ) (x : StreamPart) → IsU64 b → IsPart x → IsPart (trimmed b x)
trimmed-IsPart b x fits h = (
  omega (arith, h.0, total-cut record_bytes b x.held),
  (ground (arith, fits, h.1.0), Follows-kept b x.base x.next x.held h.1.1),
)

abbrev pub trimmed_topic : ℕ → StreamTopic → ℕ → StreamPart → StreamTopic
trimmed_topic b t p x = record t {
  bytes = t.bytes - total record_bytes (cut b x.held);
  records = t.records - length (cut b x.held);
  parts = set_part p (trimmed b x) t.parts;
  revision = if raise b x.base == x.base then t.revision else add64 t.revision 1;
}

pub trim_part-eq :
    (live : ℕ) (t : StreamTopic) (p b : ℕ) (x : StreamPart)
    → part_at p t.parts ≡ some x
    → trim_part live t p b
      ≡ (live - total (record_live t.name) (cut b x.held), trimmed_topic b t p x)
unfolding trim_part trim_at boundaries
trim_part-eq live t p b x e = rw (e, trim_loop-eq b live t x x.held) refl

module _ {rest live : ℕ} {t : StreamTopic} (c : IsCounted rest live t) where
  trimmed_topic-IsCounted :
      (p b : ℕ) (x : StreamPart)
      → IsU64 b
      → part_at p t.parts ≡ some x
      → IsCounted rest (live - total (record_live t.name) (cut b x.held)) (trimmed_topic b t p x)
  unfolding topic_live
  trimmed_topic-IsCounted p b x fits e =
      let part = All-part_at IsPart p t.parts x c.parts_right e in
      record {
        counts_live = rw (length-set_part p (trimmed b x) t.parts) (
            omega (
              arith,
              c.counts_live,
              total-cut (record_live t.name) b x.held,
              total-set_part (part_live t.name) p x (trimmed b x) t.parts e,
            ));
        counts_bytes = omega (
          arith,
          c.counts_bytes,
          total-cut record_bytes b x.held,
          part.0,
          total-set_part (λ y. y.bytes) p x (trimmed b x) t.parts e,
        );
        counts_records = omega (
          arith,
          c.counts_records,
          length-cut b x.held,
          total-set_part (λ y. length y.held) p x (trimmed b x) t.parts e,
        );
        parts_right =
            All-set_part IsPart p (trimmed b x) t.parts c.parts_right
              (trimmed-IsPart b x fits part);
      }

  pub trim_part-IsCounted :
      (p b : ℕ) → IsU64 b → IsCounted rest (trim_part live t p b).0 (trim_part live t p b).1
  unfolding trim_part trim_at
  trim_part-IsCounted p b fits = elim (Option-cases (part_at p t.parts)) [
    | inl gone ↦ rw gone c
    | inr (x, e) ↦ rw (trim_part-eq live t p b x e) (trimmed_topic-IsCounted p b x fits e)
  ]

  linked-IsPart :
      (x : StreamPart) (r : StreamRecord)
      → IsPart x
      → r.offset ≡ x.next
      → x.next + 1 < u64_mod
      → IsPart (record x {
        held = x.held ++ r ∷ [];
        next = add64 x.next 1;
        bytes = x.bytes + record_bytes r;
      })
  unfolding total
  linked-IsPart x r h e room =
      let up : add64 x.next 1 ≡ suc x.next = ground (arith, room) in
      (
        rw (total-append record_bytes x.held (r ∷ [])) (omega (arith, h.0)),
        (ground (arith, room), rw up (Follows-append x.base x.next x.held r h.1.1 e)),
      )

  pub part_link-IsCounted :
      (p : ℕ) (x : StreamPart) (r : StreamRecord)
      → part_at p t.parts ≡ some x
      → r.offset ≡ x.next
      → x.next + 1 < u64_mod
      → IsCounted rest (part_link live t p x r).0 (part_link live t p x r).1
  unfolding part_link topic_live total
  part_link-IsCounted p x r e off room =
      let part = linked-IsPart x r (All-part_at IsPart p t.parts x c.parts_right e) off room in
      let x' = record x {
        held = x.held ++ r ∷ [];
        next = add64 x.next 1;
        bytes = x.bytes + record_bytes r;
      } in
      record {
        counts_live = rw (length-set_part p x' t.parts) (
            omega (
              arith,
              c.counts_live,
              total-append (record_live t.name) x.held (r ∷ []),
              total-set_part (part_live t.name) p x x' t.parts e,
            ));
        counts_bytes =
            omega (arith, c.counts_bytes, total-set_part (λ y. y.bytes) p x x' t.parts e);
        counts_records = omega (
          arith,
          c.counts_records,
          length-append x.held (r ∷ []),
          total-set_part (λ y. length y.held) p x x' t.parts e,
        );
        parts_right = All-set_part IsPart p x' t.parts c.parts_right part;
      }
