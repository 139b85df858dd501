-- ===== src/Replay/Payloads.antt =====
-- The data of the records that declare, bind and update, read back.
use native.Mathlib.Nat.{zero-add, suc-add}
use kuttidb.Base.{
  ℕ, zero, suc, ◌+◌, ◌/◌, ◌%◌, ◌^◌, ◌≤◌, ◌<◌, ◌≡◌, refl, ap, ◌∙◌, true, false, some, List, [], ◌∷◌,
  ◌++◌, arith, leb, length, length-append, take, drop,
}
use kuttidb.Wal.Codec.{get_bytes}
use kuttidb.Queue.{ExchangeType, is_empty}
use kuttidb.Queue.Admin.{declare_payload}
use kuttidb.Exchange.{type_byte, binding_payload}
use kuttidb.Exchange.Admin.{exdeclare_payload}
use kuttidb.Replay.{declared_policy}
use kuttidb.Replay.Topology.{type_of_byte, declared_alternate, bound_pair, updated_alternate}

take-append : (xs ys : List ℕ) → take (length xs) (xs ++ ys) ≡ xs
take-append [] ys = refl
take-append (x ∷ xs) ys = ap (λ r. x ∷ r) (take-append xs ys)

take_all : (xs : List ℕ) → take (length xs) xs ≡ xs
take_all [] = refl
take_all (x ∷ xs) = ap (λ r. x ∷ r) (take_all xs)

drop-append : (xs ys : List ℕ) → drop (length xs) (xs ++ ys) ≡ ys
drop-append [] ys = refl
drop-append (x ∷ xs) ys = drop-append xs ys

drop-add : (n m : ℕ) (xs : List ℕ) → drop (n + m) xs ≡ drop m (drop n xs)
drop-add zero m xs = rw zero-add refl
drop-add (suc n) zero [] = rw suc-add refl
drop-add (suc n) (suc m) [] = rw suc-add refl
drop-add (suc n) m (x ∷ xs) = rw suc-add (drop-add n m xs)

-- Two bytes are read back, whatever follows them.
low_bytes :
    (v : ℕ) (rest : List ℕ) → v < 65536 → get_bytes 2 ((v % 256) ∷ (v / 256 % 256) ∷ rest) ≡ v
unfolding get_bytes
low_bytes v rest lt = omega arith

module _ (queue key : List ℕ) (named : 0 < length queue) (short : length queue ≤ 255)
    (key_short : length key ≤ 255) where
  payload_length : length (binding_payload queue key) ≡ 2 + length queue + 2 + length key
  unfolding binding_payload
  payload_length =
      omega (arith, length-append queue ((length key % 256) ∷ (length key / 256 % 256) ∷ key))

  queue_len_field : get_bytes 2 (binding_payload queue key) ≡ length queue
  unfolding binding_payload
  queue_len_field = low_bytes (length queue) _ (omega (arith, short))

  after_queue :
      drop (2 + length queue) (binding_payload queue key)
      ≡ (length key % 256) ∷ (length key / 256 % 256) ∷ key
  unfolding binding_payload
  after_queue = drop-add 2 (length queue) _ ∙ drop-append queue _

  key_len_field : get_bytes 2 (drop (2 + length queue) (binding_payload queue key)) ≡ length key
  key_len_field =
      ap (get_bytes 2) after_queue ∙ low_bytes (length key) key (omega (arith, key_short))

  key_field : take (length key) (drop (2 + length queue + 2) (binding_payload queue key)) ≡ key
  key_field =
      ap (take (length key)) (drop-add (2 + length queue) 2 _ ∙ ap (drop 2) after_queue)
      ∙ take_all key

  queue_field : take (length queue) (drop 2 (binding_payload queue key)) ≡ queue
  unfolding binding_payload
  queue_field = take-append queue _

  pub bound_pair-binding_payload : bound_pair (binding_payload queue key) ≡ some (queue, key)
  unfolding bound_pair
  bound_pair-binding_payload =
      rw (queue_len_field, key_len_field, payload_length, key_field, queue_field) (ground arith)

alternate_of_fields :
    (p ae : List ℕ) (n : ℕ)
    → length p ≡ 3 + n
    → 0 < n
    → get_bytes 2 (drop 1 p) ≡ n
    → take n (drop 3 p) ≡ ae
    → declared_alternate p ≡ some ae
unfolding declared_alternate
alternate_of_fields p ae n size named field name =
    let big : leb 3 (length p) ≡ true = ground (arith, size) in rw (big, field, name) (ground arith)

module _ (alternate : List ℕ) (named : 0 < length alternate) (short : length alternate ≤ 255) where
  abbrev alternate_bytes : List ℕ
  alternate_bytes = (length alternate % 256) ∷ (length alternate / 256 % 256) ∷ alternate

  alternate_field : get_bytes 2 alternate_bytes ≡ length alternate
  alternate_field = low_bytes (length alternate) alternate (omega (arith, short))

  pub updated_alternate-read : updated_alternate alternate_bytes ≡ some alternate
  unfolding updated_alternate
  updated_alternate-read = rw (alternate_field, take_all alternate) (ground arith)

  declared_alternate-given : (b : ℕ) → declared_alternate (b ∷ alternate_bytes) ≡ some alternate
  declared_alternate-given b =
      alternate_of_fields (b ∷ alternate_bytes) alternate (length alternate) (omega arith) named
        alternate_field (take_all alternate)

pub declared_alternate-exdeclare_payload :
    (kind : ExchangeType) (ae : List ℕ)
    → length ae ≤ 255
    → declared_alternate (exdeclare_payload kind ae) ≡ some ae
unfolding exdeclare_payload
declared_alternate-exdeclare_payload kind [] short = unfold declared_alternate in refl
declared_alternate-exdeclare_payload kind (x ∷ ae) short =
    declared_alternate-given (x ∷ ae) (omega arith) short (type_byte kind)

pub type_of_byte-type_byte : (kind : ExchangeType) → type_of_byte (type_byte kind) ≡ some kind
type_of_byte-type_byte ExchangeType.direct = refl
type_of_byte-type_byte ExchangeType.fanout = refl
type_of_byte-type_byte ExchangeType.topic = refl

pub exdeclare_payload-type :
    (kind : ExchangeType) (ae : List ℕ) → get_bytes 1 (exdeclare_payload kind ae) ≡ type_byte kind
unfolding exdeclare_payload get_bytes
exdeclare_payload-type kind [] = omega arith
exdeclare_payload-type kind (x ∷ ae) = omega arith

pub exdeclare_payload-length :
    (kind : ExchangeType) (ae : List ℕ)
    → length ae ≤ 255
    → (1 ≤ length (exdeclare_payload kind ae)) × (length (exdeclare_payload kind ae) ≤ 258)
unfolding exdeclare_payload
exdeclare_payload-length kind [] short = omega arith
exdeclare_payload-length kind (x ∷ ae) short = omega arith

policy_of_fields :
    (ext dlq : List ℕ) (n max_deliveries : ℕ)
    → is_empty ext ≡ false
    → get_bytes 2 ext ≡ n
    → length ext ≡ 6 + n
    → 0 < n
    → n ≤ 255
    → take n (drop 2 ext) ≡ dlq
    → get_bytes 4 (drop (2 + n) ext) ≡ max_deliveries
    → declared_policy ext ≡ some (dlq, max_deliveries)
unfolding declared_policy
policy_of_fields ext dlq n max_deliveries full field size named short name count =
    rw (full, field, size, name, count) (ground arith)

policy_bytes : ℕ → List ℕ
policy_bytes v = (v % 256) ∷ (v / 2 ^ 8 % 256) ∷ (v / 2 ^ 16 % 256) ∷ (v / 2 ^ 24 % 256) ∷ []

policy_bytes-read : (v : ℕ) → v < 2 ^ 32 → get_bytes 4 (policy_bytes v) ≡ v
unfolding policy_bytes get_bytes
policy_bytes-read v lt = omega arith

declare_payload-named :
    (dlq : List ℕ) (max_deliveries : ℕ)
    → 0 < length dlq
    → declare_payload dlq max_deliveries
      ≡ (length dlq % 256) ∷ (length dlq / 256 % 256) ∷ (dlq ++ policy_bytes max_deliveries)
unfolding declare_payload policy_bytes
declare_payload-named [] max_deliveries named = absurd (omega (arith, named))
declare_payload-named (x ∷ dlq) max_deliveries named = refl

-- A dead-letter policy is read back from a declaration.
pub declared_policy-declare_payload :
    (dlq : List ℕ) (max_deliveries : ℕ)
    → 0 < length dlq
    → length dlq ≤ 255
    → max_deliveries < 2 ^ 32
    → declared_policy (declare_payload dlq max_deliveries) ≡ some (dlq, max_deliveries)
declared_policy-declare_payload dlq max_deliveries named short lt =
    ap declared_policy (declare_payload-named dlq max_deliveries named)
    ∙ policy_of_fields _ dlq (length dlq) max_deliveries refl
        (low_bytes (length dlq) _ (omega (arith, short)))
        (unfold policy_bytes in omega (arith, length-append dlq (policy_bytes max_deliveries)))
        named short (take-append dlq (policy_bytes max_deliveries))
        (ap (get_bytes 4)
            (drop-add 2 (length dlq) _ ∙ drop-append dlq (policy_bytes max_deliveries))
          ∙ policy_bytes-read max_deliveries lt)
