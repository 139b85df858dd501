-- ===== src/Wal/Codec.antt =====
-- src/queue.c: the bytes of a record (`put32`, `put64`, `get32`, `get64`, `crc_init`, `crc_span`,
-- `crc32`, the header that `append_record_ex` writes and the reading of one record in `replay_log`),
-- for the operations of queues and exchanges. The shifted bytes of a word do not overlap, so `|` is a
-- sum.
pub mod RoundTrip
use Prim.Native.Nat.{bit_xor}
use kuttidb.Base.{
  ℕ, zero, suc, ◌+◌, ◌*◌, ◌/◌, ◌%◌, ◌^◌, Bool, true, false, not, ◌&&◌, ◌||◌, Option, none, some,
  List, [], ◌∷◌, ◌++◌, ◌==◌, leb, ltb, if◌then◌else◌, length, take, drop,
}
use kuttidb.Wal.{Op, LogRecord}

-- `put32` and `put64`: the bytes of a word, the lowest first.
unfoldable pub put_bytes : ℕ → ℕ → List ℕ
put_bytes zero v = []
put_bytes (suc n) v = (v % 256) ∷ put_bytes n (v / 256)

-- `get32` and `get64`
unfoldable pub get_bytes : ℕ → List ℕ → ℕ
get_bytes zero bs = 0
get_bytes (suc n) [] = 0
get_bytes (suc n) (b ∷ bs) = b + 256 * get_bytes n bs

-- One bit of `crc_table[0][i]`.
unfoldable pub crc_bit : ℕ → ℕ
crc_bit v = if v % 2 == 1 then bit_xor 3988292384 (v / 2) else v / 2

unfoldable pub crc_bits : ℕ → ℕ → ℕ
crc_bits zero v = v
crc_bits (suc n) v = crc_bits n (crc_bit v)

-- `crc_table[slice][i]`
unfoldable pub crc_table : ℕ → ℕ → ℕ
crc_table zero i = crc_bits 8 i
crc_table (suc slice) i =
    let last = crc_table slice i in bit_xor (crc_bits 8 (last % 256)) (last / 256)

unfoldable pub crc_byte : ℕ → ℕ → ℕ
crc_byte crc p = bit_xor (crc_table 0 (bit_xor crc p % 256)) (crc / 256)

unfoldable pub crc_span : ℕ → List ℕ → ℕ
crc_span crc (p0 ∷ p1 ∷ p2 ∷ p3 ∷ p4 ∷ p5 ∷ p6 ∷ p7 ∷ ps) =
    let low = bit_xor (p0 + p1 * 2 ^ 8 + p2 * 2 ^ 16 + p3 * 2 ^ 24) crc in
    crc_span
      (bit_xor (crc_table 7 (low % 256)) (
        bit_xor (crc_table 6 (low / 2 ^ 8 % 256)) (
          bit_xor (crc_table 5 (low / 2 ^ 16 % 256)) (
            bit_xor (crc_table 4 (low / 2 ^ 24 % 256)) (
              bit_xor (crc_table 3 p4)
                (bit_xor (crc_table 2 p5) (bit_xor (crc_table 1 p6) (crc_table 0 p7))))))))
      ps
crc_span crc (p ∷ ps) = crc_span (crc_byte crc p) ps
crc_span crc [] = crc

-- A `uint32_t`.
unfoldable pub crc32 : List ℕ → List ℕ → List ℕ → ℕ
crc32 a b d = bit_xor (crc_span (crc_span (crc_span 4294967295 a) b) d) 4294967295 % 2 ^ 32

abbrev pub op_byte : Op → ℕ
op_byte Op.log_declare = 1
op_byte Op.log_publish = 2
op_byte Op.log_ack = 3
op_byte Op.log_deliver = 4
op_byte Op.log_requeue = 5
op_byte Op.log_exdeclare = 6
op_byte Op.log_exbind = 7
op_byte Op.log_exunbind = 8
op_byte Op.log_purge = 13
op_byte Op.log_delete = 14
op_byte Op.log_exdelete = 15
op_byte Op.log_exupdate = 16

abbrev pub ops : List Op
ops =
    Op.log_declare ∷ Op.log_publish ∷ Op.log_ack ∷ Op.log_deliver ∷ Op.log_requeue
    ∷ Op.log_exdeclare ∷ Op.log_exbind ∷ Op.log_exunbind ∷ Op.log_purge ∷ Op.log_delete
    ∷ Op.log_exdelete ∷ Op.log_exupdate ∷ []

unfoldable pub find_op : ℕ → List Op → Option Op
find_op byte [] = none
find_op byte (op ∷ rest) = if op_byte op == byte then some op else find_op byte rest

-- The other operations of `record_op_known`: those of transactions (9, 10), consumers (11, 12) and
-- jobs (17 to 21).
unfoldable pub is_foreign : ℕ → Bool
is_foreign byte = (leb 9 byte && leb byte 12) || (leb 17 byte && leb byte 21)

-- The operations whose records carry data.
abbrev pub carries_data : Op → Bool
carries_data Op.log_declare = true
carries_data Op.log_publish = true
carries_data Op.log_exdeclare = true
carries_data Op.log_exbind = true
carries_data Op.log_exunbind = true
carries_data Op.log_exupdate = true
carries_data _ = false

-- The first 24 bytes of the header, and the header.
unfoldable pub header_start : ℕ → ℕ → ℕ → ℕ → ℕ → List ℕ
header_start op name_len len id aux =
    op ∷ 1 ∷ put_bytes 2 name_len ++ put_bytes 4 len ++ put_bytes 8 id ++ put_bytes 8 aux

unfoldable pub header_bytes : ℕ → ℕ → ℕ → ℕ → ℕ → ℕ → List ℕ
header_bytes op name_len len id aux checksum =
    header_start op name_len len id aux ++ put_bytes 4 checksum

abbrev pub start_of : LogRecord → List ℕ
start_of r = header_start (op_byte r.op) (length r.name) (length r.payload) r.id r.aux

abbrev pub checksum_of : LogRecord → ℕ
checksum_of r = crc32 (start_of r) r.name r.payload

abbrev pub header_of : LogRecord → List ℕ
header_of r =
    header_bytes (op_byte r.op) (length r.name) (length r.payload) r.id r.aux (checksum_of r)

unfoldable pub record_bytes : LogRecord → List ℕ
record_bytes r = header_of r ++ r.name ++ r.payload

-- `read_all`: that many bytes, and what follows them.
unfoldable pub read_all : ℕ → List ℕ → Option (List ℕ × List ℕ)
read_all zero bs = some ([], bs)
read_all (suc n) [] = none
read_all (suc n) (b ∷ bs) = elim (read_all n bs) [
  | none ↦ none
  | some (got, rest) ↦ some (b ∷ got, rest)
]

-- What reading one record gives: the end of the log, a record that is not whole or not right, one of
-- transactions, consumers or jobs (whose fields are not read here), or the record and what follows it.
pub data Read : Type 0 where
  at_end corrupt foreign : Read
  found : LogRecord → List ℕ → Read

-- The tests on the fields.
unfoldable pub bad_fields : Op → ℕ → ℕ → Bool
bad_fields op name_len len =
    (name_len == 0 || ltb 255 name_len)
    || (ltb (64 * 2 ^ 20) len
        || ((not (carries_data op) && not (len == 0)) || (op_byte op == 1 && ltb (6 + 255) len)))

-- With the header, the name and the data at hand: the checksum.
unfoldable pub check_record : Op → List ℕ → List ℕ → Option (List ℕ × List ℕ) → Read
check_record op header name none = Read.corrupt
check_record op header name (some (payload, rest)) =
    if crc32 (take 24 header) name payload == get_bytes 4 (drop 24 header)
    then Read.found
        (record {
          op = op;
          durable = not (get_bytes 1 (drop 1 header) == 0);
          name = name;
          id = get_bytes 8 (drop 8 header);
          aux = get_bytes 8 (drop 16 header);
          payload = payload;
        })
        rest
    else Read.corrupt

unfoldable pub read_data : Op → List ℕ → Option (List ℕ × List ℕ) → Read
read_data op header none = Read.corrupt
read_data op header (some (name, rest)) =
    check_record op header name (read_all (get_bytes 4 (drop 4 header)) rest)

unfoldable pub read_fields : Option Op → List ℕ → List ℕ → Read
read_fields none header rest =
    if is_foreign (get_bytes 1 header) then Read.foreign else Read.corrupt
read_fields (some op) header rest =
    if bad_fields op (get_bytes 2 (drop 2 header)) (get_bytes 4 (drop 4 header))
    then Read.corrupt
    else read_data op header (read_all (get_bytes 2 (drop 2 header)) rest)

unfoldable pub read_header : Option (List ℕ × List ℕ) → Read
read_header none = Read.corrupt
read_header (some (header, rest)) = read_fields (find_op (get_bytes 1 header) ops) header rest

unfoldable pub read_record : List ℕ → Read
read_record [] = Read.at_end
read_record (b ∷ bs) = read_header (read_all 28 (b ∷ bs))
