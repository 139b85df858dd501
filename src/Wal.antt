-- ===== src/Wal.antt =====
-- src/queue.c: the write-ahead log of the queue engine (`append_record_ex`, `sync_log`,
-- `q_wait_durable_locked`). Records are values here, not bytes. What the disk answers
-- to each write and each fsync is the list `disk`, true for success, and past its end every call
-- succeeds. One thread runs at a time, so no other syncer is ever waited for.
pub mod Durability
pub mod Codec
use kuttidb.Base.{
  ℕ, ◌+◌, Bool, true, false, not, ◌||◌, List, [], ◌∷◌, ◌++◌, leb, if◌then◌else◌, add64,
}

-- The `LOG_*` operations of the queue records.
pub data Op : Type 0 where
  log_declare log_publish log_ack log_deliver log_requeue log_purge log_delete : Op
  log_exdeclare log_exbind log_exunbind log_exdelete log_exupdate : Op

-- `aux` is the expiry, the retry time or the capacity, as the operation has it.
pub record LogRecord : Type 0 where
  pub op : Op
  pub durable : Bool
  pub name : List ℕ
  pub id : ℕ
  pub aux : ℕ
  pub payload : List ℕ

-- `fsynced` is the disk's own state, which the code never reads: what a successful fsync covered.
pub record Wal : Type 0 where
  pub opened : Bool
  pub failed : Bool
  pub disk : List Bool
  pub records : List LogRecord
  pub wal_seq : ℕ
  pub synced_seq : ℕ
  pub fsynced : List LogRecord

-- The next answer of the disk, and the log without it.
abbrev pub answer : List Bool → Bool
answer [] = true
answer (ok ∷ _) = ok

abbrev pub answers : List Bool → List Bool
answers [] = []
answers (_ ∷ later) = later

-- A record is written whole; a failed write marks the store failed for good. (The bytes that a failed
-- write leaves in the buffer are not modelled: nothing is acknowledged after it.)
unfoldable pub append_record : Wal → LogRecord → Wal × Bool
append_record w r =
    if not r.durable
    then (w, true)
    else if not w.opened || w.failed
    then (w, false)
    else if answer w.disk
    then (
      record w {
        disk = answers w.disk;
        records = w.records ++ r ∷ [];
        wal_seq = add64 w.wal_seq 1;
      },
      true,
    )
    else (record w { disk = answers w.disk; failed = true }, false)

-- With `do_fsync`: the record is written and an fsync covers it before the call returns. A record
-- whose fsync fails is in the file, but not counted.
unfoldable pub append_synced : Wal → LogRecord → Wal × Bool
append_synced w r =
    let written = record w { disk = answers w.disk; records = w.records ++ r ∷ [] } in
    let seq = add64 w.wal_seq 1 in
    if not r.durable
    then (w, true)
    else if not w.opened || w.failed
    then (w, false)
    else if not (answer w.disk)
    then (record w { disk = answers w.disk; failed = true }, false)
    else if answer written.disk
    then (
      record written {
        disk = answers written.disk;
        fsynced = written.records;
        wal_seq = seq;
        synced_seq = seq;
      },
      true,
    )
    else (record written { disk = answers written.disk; failed = true }, false)

-- One fsync covers every record written so far.
unfoldable pub sync_log : Wal → Wal × Bool
sync_log w =
    if not w.opened
    then (w, false)
    else if leb w.wal_seq w.synced_seq
    then (w, true)
    else if answer w.disk
    then (record w { disk = answers w.disk; fsynced = w.records; synced_seq = w.wal_seq }, true)
    else (record w { disk = answers w.disk; failed = true }, false)

-- The wait for `target`, a sequence number that has been written.
unfoldable pub wait_durable : Wal → ℕ → Wal × Bool
wait_durable w target =
    if w.failed
    then (w, false)
    else if leb target w.synced_seq
    then (w, true)
    else if answer w.disk
    then (record w { disk = answers w.disk; fsynced = w.records; synced_seq = w.wal_seq }, true)
    else (record w { disk = answers w.disk; failed = true }, false)
