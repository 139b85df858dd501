-- ===== src/Tests/Codecs.antt =====
-- The bytes of the log at concrete values.
use kuttidb.Base.{◌≡◌, refl, true, false, [], ◌∷◌, ◌++◌, arith, length}
use kuttidb.Wal.{Op, LogRecord}
use kuttidb.Wal.Codec.{record_bytes, Read, read_record, bad_fields, read_header, read_all}
use kuttidb.Wal.Codec.RoundTrip.{IsWritable, read_record-record_bytes}

-- Two bytes published to a queue `q`.
abbrev sent : LogRecord
sent = record {
  op = Op.log_publish;
  durable = true;
  name = 113 ∷ [];
  id = 7;
  aux = 0;
  payload = 104 ∷ 105 ∷ [];
}

sent_fields : bad_fields sent.op (length sent.name) (length sent.payload) ≡ false
unfolding bad_fields
sent_fields = refl

sent-IsWritable : IsWritable sent
sent-IsWritable = record {
  durable = refl;
  id = omega arith;
  aux = omega arith;
  fields = sent_fields;
}

-- A record that is cut short is corrupt.
sent_cut : read_record (2 ∷ 1 ∷ 1 ∷ []) ≡ Read.corrupt
unfolding read_record read_header read_all
sent_cut = refl

reread_example : read_record (record_bytes sent ++ (3 ∷ [])) ≡ Read.found sent (3 ∷ [])
reread_example = read_record-record_bytes sent (3 ∷ []) sent-IsWritable
