-- ===== src/Wal/Codec/RoundTrip.antt =====
-- Reading back what was written.
use mathlib.Core.List.{append_assoc}
use kuttidb.Base.{
  ℕ, zero, suc, ◌/◌, ◌^◌, ◌<◌, ◌≡◌, refl, sym, ap, ◌∙◌, true, false, some, List, [], ◌∷◌, ◌++◌,
  ◌==◌, arith, length, take, drop,
}
use kuttidb.Wal.{Op, LogRecord}
use kuttidb.Wal.Codec.{
  put_bytes, get_bytes, crc32, op_byte, ops, find_op, header_start, header_bytes, start_of,
  checksum_of, header_of, record_bytes, read_all, Read, bad_fields, check_record, read_data,
  read_fields, read_header, read_record,
}

get_bytes-put_bytes :
    (n v : ℕ) (rest : List ℕ) → v < 256 ^ n → get_bytes n (put_bytes n v ++ rest) ≡ v
unfolding get_bytes put_bytes
get_bytes-put_bytes zero v rest lt = omega (arith, lt)
get_bytes-put_bytes (suc n) v rest lt =
    omega (arith, get_bytes-put_bytes n (v / 256) rest (omega (arith, lt)))

find_op-op_byte : (op : Op) → find_op (op_byte op) ops ≡ some op
unfolding find_op
find_op-op_byte Op.log_declare = refl
find_op-op_byte Op.log_publish = refl
find_op-op_byte Op.log_ack = refl
find_op-op_byte Op.log_deliver = refl
find_op-op_byte Op.log_requeue = refl
find_op-op_byte Op.log_exdeclare = refl
find_op-op_byte Op.log_exbind = refl
find_op-op_byte Op.log_exunbind = refl
find_op-op_byte Op.log_purge = refl
find_op-op_byte Op.log_delete = refl
find_op-op_byte Op.log_exdelete = refl
find_op-op_byte Op.log_exupdate = refl

read_all-append : (xs rest : List ℕ) → read_all (length xs) (xs ++ rest) ≡ some (xs, rest)
unfolding read_all
read_all-append [] rest = refl
read_all-append (x ∷ xs) rest = rw (read_all-append xs rest) refl

-- What may be written: the name and the data have lengths that the reader takes, the words fit, and
-- only an operation that carries data has any.
pub record IsWritable (r : LogRecord) : Type 0 where
  pub durable : r.durable ≡ true
  pub id : r.id < 2 ^ 64
  pub aux : r.aux < 2 ^ 64
  pub fields : bad_fields r.op (length r.name) (length r.payload) ≡ false

module _ (op name_len len id aux checksum : ℕ) where
  abbrev header : List ℕ
  header = header_bytes op name_len len id aux checksum

  whole_header : (rest : List ℕ) → read_all 28 (header ++ rest) ≡ some (header, rest)
  unfolding header_bytes header_start put_bytes read_all
  whole_header rest = refl

  start_taken : take 24 header ≡ header_start op name_len len id aux
  unfolding header_bytes header_start put_bytes
  start_taken = refl

  op_field : op < 256 → get_bytes 1 header ≡ op
  unfolding header_bytes header_start put_bytes get_bytes
  op_field lt = omega arith

  flag_field : get_bytes 1 (drop 1 header) ≡ 1
  unfolding header_bytes header_start put_bytes get_bytes
  flag_field = omega arith

  name_len_field : name_len < 256 ^ 2 → get_bytes 2 (drop 2 header) ≡ name_len
  unfolding header_bytes header_start put_bytes
  name_len_field lt =
      get_bytes-put_bytes 2 name_len
        (put_bytes 4 len ++ put_bytes 8 id ++ put_bytes 8 aux ++ put_bytes 4 checksum) lt

  len_field : len < 256 ^ 4 → get_bytes 4 (drop 4 header) ≡ len
  unfolding header_bytes header_start put_bytes
  len_field lt =
      get_bytes-put_bytes 4 len (put_bytes 8 id ++ put_bytes 8 aux ++ put_bytes 4 checksum) lt

  id_field : id < 256 ^ 8 → get_bytes 8 (drop 8 header) ≡ id
  unfolding header_bytes header_start put_bytes
  id_field lt = get_bytes-put_bytes 8 id (put_bytes 8 aux ++ put_bytes 4 checksum) lt

  aux_field : aux < 256 ^ 8 → get_bytes 8 (drop 16 header) ≡ aux
  unfolding header_bytes header_start put_bytes
  aux_field lt = get_bytes-put_bytes 8 aux (put_bytes 4 checksum) lt

  checksum_field : checksum < 256 ^ 4 → get_bytes 4 (drop 24 header) ≡ checksum
  unfolding header_bytes header_start put_bytes
  checksum_field lt = get_bytes-put_bytes 4 checksum [] lt

  read_whole :
      (rest : List ℕ)
      → read_record (header ++ rest) ≡ read_fields (find_op (get_bytes 1 header) ops) header rest
  unfolding read_record read_header header_bytes header_start put_bytes read_all
  read_whole rest = refl

op_byte-bounded : (op : Op) → op_byte op < 256
op_byte-bounded Op.log_declare = omega arith
op_byte-bounded Op.log_publish = omega arith
op_byte-bounded Op.log_ack = omega arith
op_byte-bounded Op.log_deliver = omega arith
op_byte-bounded Op.log_requeue = omega arith
op_byte-bounded Op.log_exdeclare = omega arith
op_byte-bounded Op.log_exbind = omega arith
op_byte-bounded Op.log_exunbind = omega arith
op_byte-bounded Op.log_purge = omega arith
op_byte-bounded Op.log_delete = omega arith
op_byte-bounded Op.log_exdelete = omega arith
op_byte-bounded Op.log_exupdate = omega arith

crc32-bounded : (a b d : List ℕ) → crc32 a b d < 256 ^ 4
unfolding crc32
crc32-bounded a b d = omega arith

name-bounded : (op : Op) (n len : ℕ) → bad_fields op n len ≡ false → n < 256 ^ 2
unfolding bad_fields
name-bounded op n len good = ground arith

payload-bounded : (op : Op) (n len : ℕ) → bad_fields op n len ≡ false → len < 256 ^ 4
unfolding bad_fields
payload-bounded op n len good = ground arith

same_bytes : (n : ℕ) → (n == n) ≡ true
same_bytes n = ground arith

rebuilt :
    (r : LogRecord)
    → r.durable ≡ true
    → record {
      op = r.op;
      durable = true;
      name = r.name;
      id = r.id;
      aux = r.aux;
      payload = r.payload;
    }
      ≡ r
rebuilt r durable =
    ap
      (λ d. record {
        op = r.op;
        durable = d;
        name = r.name;
        id = r.id;
        aux = r.aux;
        payload = r.payload;
      })
      (sym durable)

module _ (r : LogRecord) (header rest : List ℕ) (durable : r.durable ≡ true)
    (flag : get_bytes 1 (drop 1 header) ≡ 1)
    (name_len : get_bytes 2 (drop 2 header) ≡ length r.name)
    (len : get_bytes 4 (drop 4 header) ≡ length r.payload) (id : get_bytes 8 (drop 8 header) ≡ r.id)
    (aux : get_bytes 8 (drop 16 header) ≡ r.aux)
    (checksum : get_bytes 4 (drop 24 header) ≡ crc32 (take 24 header) r.name r.payload) where
  check_record-found : check_record r.op header r.name (some (r.payload, rest)) ≡ Read.found r rest
  unfolding check_record
  check_record-found =
      rw (flag, checksum, same_bytes (crc32 (take 24 header) r.name r.payload), id, aux)
        (ap (λ x. Read.found x rest) (rebuilt r durable))

  read_fields-found :
      bad_fields r.op (length r.name) (length r.payload) ≡ false
      → read_fields (some r.op) header (r.name ++ (r.payload ++ rest)) ≡ Read.found r rest
  unfolding read_fields read_data
  read_fields-found good =
      rw
        (
          name_len,
          len,
          good,
          read_all-append r.name (r.payload ++ rest),
          len,
          read_all-append r.payload rest,
        )
        check_record-found

op_found :
    (op : Op) (name_len len id aux checksum : ℕ)
    → find_op (get_bytes 1 (header_bytes (op_byte op) name_len len id aux checksum)) ops ≡ some op
op_found op name_len len id aux checksum =
    ap (λ b. find_op b ops)
      (op_field (op_byte op) name_len len id aux checksum (op_byte-bounded op))
    ∙ find_op-op_byte op

bytes_apart :
    (r : LogRecord) (rest : List ℕ)
    → record_bytes r ++ rest ≡ header_of r ++ (r.name ++ (r.payload ++ rest))
unfolding record_bytes
bytes_apart r rest =
    rw
      (
        append_assoc (header_of r ++ r.name) r.payload rest,
        append_assoc (header_of r) r.name (r.payload ++ rest),
      )
      refl

header_found :
    (r : LogRecord) (rest : List ℕ)
    → IsWritable r
    → read_fields (some r.op) (header_of r) (r.name ++ (r.payload ++ rest)) ≡ Read.found r rest
header_found r rest w =
    let name_len = length r.name in
    let len = length r.payload in
    let sum = checksum_of r in
    let byte = op_byte r.op in
    read_fields-found r (header_of r) rest w.durable
      (flag_field (op_byte r.op) name_len len r.id r.aux sum)
      (name_len_field byte name_len len r.id r.aux sum (name-bounded r.op name_len len w.fields))
      (len_field byte name_len len r.id r.aux sum (payload-bounded r.op name_len len w.fields))
      (id_field byte name_len len r.id r.aux sum w.id)
      (aux_field byte name_len len r.id r.aux sum w.aux)
      (checksum_field byte name_len len r.id r.aux sum (crc32-bounded (start_of r) r.name r.payload)
        ∙ ap (λ s. crc32 s r.name r.payload) (sym (start_taken byte name_len len r.id r.aux sum)))
      w.fields

-- A durable record whose words fit in 64 bits, and whose name and data pass the reader's tests on the
-- fields, is read back from its bytes as it was written, whatever follows it in the log; what follows
-- is left for the next record.
pub read_record-record_bytes :
    (r : LogRecord) (rest : List ℕ)
    → IsWritable r
    → read_record (record_bytes r ++ rest) ≡ Read.found r rest
read_record-record_bytes r rest w =
    ap read_record (bytes_apart r rest)
    ∙ read_whole (op_byte r.op) (length r.name) (length r.payload) r.id r.aux (checksum_of r)
        (r.name ++ (r.payload ++ rest))
    ∙ ap (λ o. read_fields o (header_of r) (r.name ++ (r.payload ++ rest)))
        (op_found r.op (length r.name) (length r.payload) r.id r.aux (checksum_of r))
    ∙ header_found r rest w
