-- ===== src/Wal/Durability.antt =====
-- What a call of the log keeps of it, and when all of it is on disk.
use mathlib.Core.List.{append_assoc, append-nil}
use kuttidb.Base.{
  ℕ, ◌+◌, ◌%◌, ◌≤◌, ◌<◌, ◌≡◌, refl, sym, ap, ◌∙◌, Bool, true, false, not, ◌||◌, List, [], ◌∷◌, ◌++◌,
  arith, if_cases, length, length-append, add64, u64_mod,
}
use kuttidb.Wal.{LogRecord, Wal, answer, answers, append_record, sync_log, wait_durable}

-- The log as the other one begins.
abbrev pub IsPrefix : List LogRecord → List LogRecord → Type 0
IsPrefix rs rs' = (more : List LogRecord) × (rs' ≡ rs ++ more)

-- `wal_seq` has counted the records, as far as its width allows.
abbrev pub IsCounted : Wal → Type 0
IsCounted w = w.wal_seq ≡ length w.records % u64_mod

-- The number of the last record that is on disk is not ahead of the number of records.
abbrev pub IsBehind : Wal → Type 0
IsBehind w = w.synced_seq ≤ w.wal_seq

pub record Extends (w w' : Wal) : Type 0 where
  pub opened : w'.opened ≡ w.opened
  pub failed : w.failed ≡ true → w'.failed ≡ true
  pub counted : IsCounted w → IsCounted w'
  pub kept : IsPrefix w.records w'.records
  pub behind : length w'.records < u64_mod → IsCounted w → IsBehind w → IsBehind w'

pub Extends-refl : (w : Wal) → Extends w w
Extends-refl w = record {
  opened = refl;
  failed = λ h. h;
  counted = λ h. h;
  kept = ([], sym (append-nil w.records));
  behind = λ _ _ h. h;
}

pub Extends-trans : {u v w : Wal} → Extends u v → Extends v w → Extends u w
Extends-trans {u} {v} {w} e f = record {
  opened = f.opened ∙ e.opened;
  failed = λ h. f.failed (e.failed h);
  counted = λ h. f.counted (e.counted h);
  kept = (
    e.kept.0 ++ f.kept.0,
    f.kept.1 ∙ ap (λ rs. rs ++ f.kept.0) e.kept.1 ∙ append_assoc u.records e.kept.0 f.kept.0,
  );
  behind = λ fits c h. f.behind fits (e.counted c) (
      e.behind
        (omega (arith, fits, ap (λ rs. length rs) f.kept.1, length-append v.records f.kept.0)) c h);
}

-- Neither the records nor their count change.
same_records-Extends :
    (w w' : Wal)
    → w'.opened ≡ w.opened
    → (w.failed ≡ true → w'.failed ≡ true)
    → w'.records ≡ w.records
    → w'.wal_seq ≡ w.wal_seq
    → (IsBehind w → w'.synced_seq ≤ w.wal_seq)
    → Extends w w'
same_records-Extends w w' opened failed records seq behind = record {
  opened = opened;
  failed = failed;
  counted = λ h. rw (records, seq) h;
  kept = ([], records ∙ sym (append-nil w.records));
  behind = λ _ _ h. rw seq (behind h);
}

written-Extends :
    (w : Wal) (r : LogRecord)
    → Extends w (record w {
      disk = answers w.disk;
      records = w.records ++ r ∷ [];
      wal_seq = add64 w.wal_seq 1;
    })
written-Extends w r = record {
  opened = refl;
  failed = λ h. h;
  counted = λ h. omega (arith, length-append w.records (r ∷ []));
  kept = (r ∷ [], refl);
  behind = λ fits c h. omega (arith, fits, c, h, length-append w.records (r ∷ []));
}

abbrev Keeps : Wal → Wal × Bool → Type 0
Keeps w out = Extends w out.0

pub append_record-Extends : (w : Wal) (r : LogRecord) → Extends w (append_record w r).0
unfolding append_record
append_record-Extends w r =
    if_cases (Keeps w) (not r.durable) _ _ (λ _. Extends-refl w)
      (λ _.
        if_cases (Keeps w) (not w.opened || w.failed) _ _ (λ _. Extends-refl w)
          (λ _.
            if_cases (Keeps w) (answer w.disk) _ _ (λ _. written-Extends w r)
              (λ _. same_records-Extends w _ refl (λ _. refl) refl refl (λ h. h))))

pub sync_log-Extends : (w : Wal) → Extends w (sync_log w).0
unfolding sync_log
sync_log-Extends w =
    same_records-Extends w _ (ground arith) (ground arith) (ground arith) (ground arith)
      (λ h. ground (arith, h))

pub wait_durable-Extends : (w : Wal) (target : ℕ) → Extends w (wait_durable w target).0
unfolding wait_durable
wait_durable-Extends w target =
    same_records-Extends w _ (ground arith) (ground arith) (ground arith) (ground arith)
      (λ h. ground (arith, h))

-- The records of the log are all on disk.
abbrev pub IsDurable : Wal → Type 0
IsDurable w = w.fsynced ≡ w.records

-- The next record has a number, and the last one that is on disk is not ahead of the log.
abbrev pub HasNumbers : Wal → Type 0
HasNumbers w = IsBehind w × (w.wal_seq + 2 < u64_mod)

-- What a successful call wrote.
pub append_record-written :
    (w : Wal) (r : LogRecord)
    → r.durable ≡ true
    → (append_record w r).1 ≡ true
    → (append_record w r).0.records ≡ w.records ++ r ∷ []
unfolding append_record
append_record-written w r durable ok = ground arith

pub append_record_failed :
    (w : Wal) (r : LogRecord) → r.durable ≡ true → w.failed ≡ true → (append_record w r).1 ≡ false
unfolding append_record
append_record_failed w r durable failed = ground arith
