-- ===== src/Db/Recovery.antt =====
-- `db_local::init` of db/db_local.cc where the log is not empty.
use frenzy_kv.Prelude.{
  ℕ, ◌+◌, ◌≡◌, ◌≤◌, ◌<◌, refl, ap, ◌∙◌, arith, List, [], Bool, true, false, leb, ok, All, map,
  length,
}
use frenzy_kv.Bytes.{Bytes}
use frenzy_kv.Bytes.Endian.{BigEndian}
use frenzy_kv.Kv.Entry.{KvEntry}
use frenzy_kv.Kv.RoundTrip.{IsStorable, stored}
use frenzy_kv.Kv.Scan.{entries_bytes}
use frenzy_kv.WriteBatch.{WriteBatch, serialized_size}
use frenzy_kv.Snapshot.{set_init_leatest_used_sequence_number}
use frenzy_kv.Memtable
use frenzy_kv.Memtable.{SkipList, Memtable, ErrorCode, insert_all, could_fit_in}
use frenzy_kv.Io.Kernel.{Kernel}
use frenzy_kv.Io.Writable.{open_writable}
use frenzy_kv.Log
use frenzy_kv.Log.{max_sequence, truncate_file}
use frenzy_kv.Log.Recover.{recover-entries_bytes}
use frenzy_kv.Db.{Db, new_memtable, flush_to_disk, init_from_log}

module _ {T : Type 0} ⦃s : SkipList T⦄ ⦃k : Kernel⦄ ⦃e : BigEndian⦄ (fresh : T) (bound : ℕ) where
  -- The batch that `recover` makes of the entries of a log.
  abbrev pub recovered : List KvEntry → WriteBatch
  recovered xs = record { seqnumber = 0; entries = map stored xs }

  -- What `init` leaves behind it: an empty log, an empty memtable and the sequence numbers.
  pub record Recovered (xs : List KvEntry) (seq_from_seqfile : ℕ) (db after : Db T) : Type 0 where
    pub truncated : after.log.log_file.disk ≡ []
    pub mem : after.mem ≡ new_memtable fresh bound
    pub snapshots :
        after.snapshots
        ≡ set_init_leatest_used_sequence_number
            (max_sequence 0 xs)
            (set_init_leatest_used_sequence_number seq_from_seqfile db.snapshots)

  module _ (allocate : ℕ → Bytes) (need_buffered : Bool) (disk_block_bytes seq_from_seqfile : ℕ)
      (allocates : (n : ℕ) → length (allocate n) ≡ n) where
    init_lem :
        (xs : List KvEntry) (db : Db T)
        → db.log.log_file.disk ≡ entries_bytes xs
        → All IsStorable xs
        → (after : Db T) × (init_from_log fresh bound allocate need_buffered disk_block_bytes
              seq_from_seqfile db
            ≡ ok after)
          × Recovered xs seq_from_seqfile db after
          × (after.flushed ≡ flush_to_disk (Memtable.insert (recovered xs) db.mem).1 db.flushed)
    unfolding init_from_log
    init_lem xs db d h =
        let r : Log.recover allocate db.log.log_file.disk ≡ ok (recovered xs, max_sequence 0 xs) =
          ap (Log.recover allocate) d ∙ recover-entries_bytes allocate xs allocates h in
        (
          record db {
            snapshots =
                set_init_leatest_used_sequence_number (max_sequence 0 xs)
                  (set_init_leatest_used_sequence_number seq_from_seqfile db.snapshots);
            log = truncate_file allocate need_buffered disk_block_bytes db.log;
            mem = new_memtable fresh bound;
            flushed = flush_to_disk (Memtable.insert (recovered xs) db.mem).1 db.flushed;
            compactions = db.compactions + 1;
          },
          rw r refl,
          record {
            truncated = unfold truncate_file open_writable in refl;
            mem = refl;
            snapshots = refl;
          },
          refl,
        )

    -- If a memtable has room for what the log holds, recovery hands a memtable with the logged
    -- entries, a value without bytes as a tomb stone, to the flusher, empties the log, and sets the
    -- sequence numbers.
    pub init-Recovered :
        (xs : List KvEntry) (db : Db T)
        → db.log.log_file.disk ≡ entries_bytes xs
        → All IsStorable xs
        → db.mem ≡ new_memtable fresh bound
        → serialized_size (map stored xs) ≤ bound
        → (after : Db T) × (init_from_log fresh bound allocate need_buffered disk_block_bytes
              seq_from_seqfile db
            ≡ ok after)
          × Recovered xs seq_from_seqfile db after
          × (after.flushed
              ≡ flush_to_disk (insert_all (map stored xs) (new_memtable fresh bound)) db.flushed)
    init-Recovered xs db d h m room =
        let (after, q, r, f) = init_lem xs db d h in
        (
          after,
          q,
          r,
          f
              ∙ ap (λ t. flush_to_disk t db.flushed)
                  (ap (λ n. (Memtable.insert (recovered xs) n).1) m ∙ taken room),
        )
      where
        taken :
            serialized_size (map stored xs) ≤ bound
            → (Memtable.insert (recovered xs) (new_memtable fresh bound)).1
              ≡ insert_all (map stored xs) (new_memtable fresh bound)
        taken le =
            unfold Memtable.insert could_fit_in new_memtable in
            let fits : leb (serialized_size (map stored xs) + 0) bound ≡ true = ground arith in
            rw fits refl

    -- If the log holds more than a memtable has room for, recovery empties the log and hands nothing
    -- to the flusher.
    pub init_lost :
        (xs : List KvEntry) (db : Db T)
        → db.log.log_file.disk ≡ entries_bytes xs
        → All IsStorable xs
        → db.mem ≡ new_memtable fresh bound
        → s.pairs fresh ≡ []
        → bound < serialized_size (map stored xs)
        → (after : Db T) × (init_from_log fresh bound allocate need_buffered disk_block_bytes
              seq_from_seqfile db
            ≡ ok after)
          × Recovered xs seq_from_seqfile db after
          × (after.flushed ≡ db.flushed)
    init_lost xs db d h m none_yet large =
        let (after, q, r, f) = init_lem xs db d h in
        (
          after,
          q,
          r,
          f
              ∙ ap (λ t. flush_to_disk t db.flushed)
                  (ap (λ n. (Memtable.insert (recovered xs) n).1) m ∙ refused large)
              ∙ nothing,
        )
      where
        refused :
            bound < serialized_size (map stored xs)
            → (Memtable.insert (recovered xs) (new_memtable fresh bound)).1
              ≡ new_memtable fresh bound
        refused lt =
            unfold Memtable.insert could_fit_in new_memtable in
            let over : leb (serialized_size (map stored xs) + 0) bound ≡ false = ground arith in
            rw over refl

        nothing : flush_to_disk (new_memtable fresh bound) db.flushed ≡ db.flushed
        nothing =
            unfold flush_to_disk Memtable.empty Memtable.count new_memtable in rw none_yet refl
