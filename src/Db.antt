-- ===== src/Db.antt =====
-- `db_local` of include/frenzykv/db/db_local.h and db/db_local.cc: the writes, the lookup and the
-- recovery, over the components that they call.
use frenzy_kv.Prelude.{
  ℕ, zero, suc, ◌+◌, ◌-◌, ◌%◌, ◌^◌, List, [], ◌∷◌, ◌++◌, Option, none, some, Bool, true, false, not,
  ◌&&◌, leb, ◌==◌, if◌then◌else◌, Result, ok, err, stuck, out_of_bounds, ◌>>=◌, ◌>>◌,
}
use frenzy_kv.Bytes.{Bytes}
use frenzy_kv.Bytes.Endian.{BigEndian}
use frenzy_kv.Kv.Key.{SequencedKey, key_less}
use frenzy_kv.Kv.Value.{is_tomb_stone}
use frenzy_kv.Kv.Entry.{KvEntry}
use frenzy_kv.WriteBatch.{WriteBatch, count, set_first_sequence_num}
use frenzy_kv.Snapshot.{
  SnapshotCenter, leatest_used_sequence_number, get_next_unused_sequence_number,
  set_init_leatest_used_sequence_number, snapshot_valid,
}
use frenzy_kv.Memtable
use frenzy_kv.Memtable.{SkipList, Memtable, ErrorCode}
use frenzy_kv.Io.Kernel.{Kernel}
use frenzy_kv.Io.Readable.{Readable}
use frenzy_kv.SsTable.{TableDeps}
use frenzy_kv.SsTable.Files.{finsert}
use frenzy_kv.SsTable.Lookup.{get_kv_entry}
use frenzy_kv.Log
use frenzy_kv.Log.{Logger}
use frenzy_kv.Version.{UuidOrder, FileRep, sort}
pub mod Write
pub mod Levels
pub mod Lookup
pub mod Recovery

-- `flushed` are the memtables that the flusher has written, `compactions` counts the calls of
-- `may_compact`.
pub record Db (T : Type 0) : Type 0 where
  pub snapshots : SnapshotCenter
  pub log : Logger
  pub mem : Memtable T
  pub flushed : List (Memtable T)
  pub force_gc_hint : ℕ
  pub compactions : ℕ

-- `file_guard::have_same_level` of neighbours.
unfoldable pub chunk_with : FileRep → List (List FileRep) → List (List FileRep)
chunk_with f [] = (f ∷ []) ∷ []
chunk_with f ([] ∷ cs) = (f ∷ []) ∷ cs
chunk_with f ((g ∷ gs) ∷ cs) =
    if f.level == g.level then (f ∷ g ∷ gs) ∷ cs else (f ∷ []) ∷ (g ∷ gs) ∷ cs

unfoldable pub chunk_by_level : List FileRep → List (List FileRep)
chunk_by_level [] = []
chunk_by_level (f ∷ fs) = chunk_with f (chunk_by_level fs)

-- A snapshot of sequence number 0 is none.
unfoldable pub make_query_key : Bytes → ℕ → SnapshotCenter → SequencedKey
make_query_key user_key snap c = record {
  seq = if snapshot_valid snap then snap else leatest_used_sequence_number c;
  user_key = user_key;
}

unfoldable pub visible_value : Option KvEntry → Option KvEntry
visible_value none = none
visible_value (some x) = if is_tomb_stone x.value then none else some x

-- `memtable_flusher::flush_to_disk`, which leaves an empty table alone.
unfoldable pub flush_to_disk :
    {T : Type 0} ⦃s : SkipList T⦄ → Memtable T → List (Memtable T) → List (Memtable T)
flush_to_disk m flushed = if Memtable.empty m then flushed else flushed ++ m ∷ []

module _ {T : Type 0} ⦃s : SkipList T⦄ (fresh : T) (bound_size_bytes : ℕ) where
  unfoldable pub new_memtable : Memtable T
  new_memtable = record { bound_size_bytes = bound_size_bytes; size_bytes = 0; list = fresh }

  -- The body of the loop of `insert` after the memtable refused the batch. The remainder by zero
  -- is undefined.
  unfoldable pub replace_memtable : ℕ → Db T → Result (Db T)
  replace_memtable num_bound_level0 db =
      let divisor = (num_bound_level0 + 2 ^ 64 - 1) % 2 ^ 64 in
      let next = record db {
        mem = new_memtable;
        flushed = flush_to_disk db.mem db.flushed;
        force_gc_hint = (db.force_gc_hint + 1) % 2 ^ 64;
        compactions =
            if db.force_gc_hint % divisor == 0 then db.compactions + 1 else db.compactions;
      } in
      if divisor == 0 then err out_of_bounds else ok next

  -- What follows on the answer of the memtable.
  unfoldable pub retry :
      ℕ
      → (Db T → Result (ErrorCode × Db T))
      → Db T
      → ErrorCode × Memtable T
      → Result (ErrorCode × Db T)
  retry num_bound_level0 again db (ErrorCode.no_error, m) =
      ok (ErrorCode.no_error, record db { mem = m })
  retry num_bound_level0 again db (ErrorCode.out_of_range, m) =
      replace_memtable num_bound_level0 (record db { mem = m }) >>= again

  unfoldable pub insert_loop : ℕ → ℕ → WriteBatch → Db T → Result (ErrorCode × Db T)
  insert_loop num_bound_level0 zero batch db = err stuck
  insert_loop num_bound_level0 (suc fuel) batch db =
      retry num_bound_level0 (insert_loop num_bound_level0 fuel batch) db
        (Memtable.insert batch db.mem)

  -- `small` is the logger's test of the hot data.
  unfoldable pub insert :
      ⦃k : Kernel⦄ → ⦃e : BigEndian⦄ → ℕ → ℕ → Bool → WriteBatch → Db T → Result (ErrorCode × Db T)
  insert num_bound_level0 fuel small batch db = do
    let (seq, snapshots) = get_next_unused_sequence_number (count batch) db.snapshots
    let numbered = set_first_sequence_num seq batch
    log ← Log.insert small numbered db.log
    insert_loop num_bound_level0 fuel numbered (record db { snapshots = snapshots; log = log })

  -- `init` where the log is not empty, `disk` being the log file, `seq_from_seqfile` the number in
  -- the sequence number file. The error code of the insertion is not used.
  unfoldable pub init_from_log :
      ⦃k : Kernel⦄ → ⦃e : BigEndian⦄ → (ℕ → Bytes) → Bool → ℕ → ℕ → Db T → Result (Db T)
  init_from_log allocate need_buffered disk_block_bytes seq_from_seqfile db = do
    (batch, max_seq) ← Log.recover allocate db.log.log_file.disk
    let m = (Memtable.insert batch db.mem).1
    ok (record db {
      snapshots =
          set_init_leatest_used_sequence_number max_seq
            (set_init_leatest_used_sequence_number seq_from_seqfile db.snapshots);
      log = Log.truncate_file allocate need_buffered disk_block_bytes db.log;
      mem = new_memtable;
      flushed = flush_to_disk m db.flushed;
      compactions = db.compactions + 1;
    })

-- What it takes to read the tables of the files: `readable f` is what the environment opens for a file,
-- `memory n` a buffer of `n` bytes.
pub record Tables : Type 0 where
  pub deps : TableDeps
  pub memory : ℕ → Bytes
  pub readable : FileRep → Readable

-- Whether a table's answer stays: not if it is newer than the snapshot.
unfoldable pub within_snapshot : ℕ → Option KvEntry → List KvEntry
within_snapshot snap none = []
within_snapshot snap (some x) =
    if snapshot_valid snap && not (leb x.key.seq snap) then [] else x ∷ []

module _ ⦃e : BigEndian⦄ ⦃k : Kernel⦄ (tables : Tables) where
  unfoldable pub file_to_async_potiential_ret : ℕ → SequencedKey → FileRep → Result (List KvEntry)
  file_to_async_potiential_ret snap key f = do
    sst ← finsert tables.readable tables.deps f
    entry_opt ← get_kv_entry tables.deps tables.memory key sst
    ok (within_snapshot snap entry_opt)

  unfoldable pub potiential_results : ℕ → SequencedKey → List FileRep → Result (List KvEntry)
  potiential_results snap key [] = ok []
  potiential_results snap key (f ∷ fs) = do
    xs ← file_to_async_potiential_ret snap key f
    rest ← potiential_results snap key fs
    ok (xs ++ rest)

-- `insert_range` makes the skip list of the answers.
module _ {T : Type 0} ⦃s : SkipList T⦄ ⦃e : BigEndian⦄ ⦃k : Kernel⦄
    (insert_range : List KvEntry → T) (tables : Tables) where
  unfoldable pub find_from_level : ℕ → SequencedKey → List FileRep → Result (Option KvEntry)
  find_from_level snap key files = do
    answers ← potiential_results tables snap key files
    ok (s.find_last_less_equal key (insert_range answers))

  unfoldable pub find_from_levels : ℕ → SequencedKey → List (List FileRep) → Result (Option KvEntry)
  find_from_levels snap key [] = ok none
  find_from_levels snap key (c ∷ cs) = do
    ret ← find_from_level snap key c
    elim ret [ none ↦ find_from_levels snap key cs | some x ↦ ok (some x) ]

  unfoldable pub find_from_ssts :
      ⦃u : UuidOrder⦄ → ℕ → SequencedKey → List FileRep → Result (Option KvEntry)
  find_from_ssts snap key files = find_from_levels snap key (chunk_by_level (sort files))

  -- `files` are those of the snapshot's version. Without a snapshot one is taken.
  unfoldable pub get : ⦃u : UuidOrder⦄ → Bytes → ℕ → List FileRep → Db T → Result (Option KvEntry)
  get user_key snap files db = do
    let taken = if snapshot_valid snap then snap else leatest_used_sequence_number db.snapshots
    let key = make_query_key user_key taken db.snapshots
    result_opt ← (elim (Memtable.get key db.mem) [
      | none ↦ find_from_ssts taken key files
      | some x ↦ ok (some x)
    ])
    ok (visible_value result_opt)
