-- ===== src/Db/Write.antt =====
-- `db_local::insert` of db/db_local.cc.
use frenzy_kv.Prelude.{
  ℕ, zero, suc, ◌+◌, ◌-◌, ◌%◌, ◌^◌, ◌≡◌, ◌≤◌, ◌<◌, ◌⊎◌, inl, inr, refl, ap, ◌∙◌, arith, List, [],
  ◌∷◌, ◌++◌, Bool, true, false, Bool-cases, ◌==◌, if◌then◌else◌, ok, err, stuck, ◌>>=◌, All,
}
use native.Mathlib.Nat.{mod-eq_of_lt, add-mod_right}
use frenzy_kv.Bytes.{Bytes}
use frenzy_kv.Bytes.Endian.{BigEndian}
use frenzy_kv.Kv.Key
use frenzy_kv.Kv.Entry
use frenzy_kv.Kv.Entry.{KvEntry}
use frenzy_kv.Kv.Scan.{entries_bytes}
use frenzy_kv.WriteBatch.{
  WriteBatch, count, serialized_size, set_first_sequence_num, repropogate, set_entry_seq,
}
use frenzy_kv.Snapshot.{get_next_unused_sequence_number}
use frenzy_kv.Memtable
use frenzy_kv.Memtable.{SkipList, Memtable, ErrorCode, insert_all, could_fit_in}
use frenzy_kv.Io.Kernel.{Kernel}
use frenzy_kv.Log.Insert.{IsLoggable, IsLog, insert_lem}
use frenzy_kv.Db.{Db, new_memtable, flush_to_disk, replace_memtable, retry, insert_loop, insert}

module _ {T : Type 0} ⦃s : SkipList T⦄ (fresh : T) (bound n : ℕ) where
  -- The batch is in the memtable that there was, or that one has gone to the flusher and the batch
  -- is in a new one.
  abbrev pub IsKept : WriteBatch → Db T → Db T → Type 0
  IsKept b db after =
      ((after.mem ≡ insert_all b.entries db.mem) × (after.flushed ≡ db.flushed))
      ⊎ ((after.mem ≡ insert_all b.entries (new_memtable fresh bound))
          × (after.flushed ≡ flush_to_disk db.mem db.flushed))

  fits :
      (b : WriteBatch) (m : Memtable T)
      → could_fit_in b m ≡ true
      → Memtable.insert b m ≡ (ErrorCode.no_error, insert_all b.entries m)
  unfolding Memtable.insert
  fits b m h = rw h refl

  over :
      (b : WriteBatch) (m : Memtable T)
      → could_fit_in b m ≡ false
      → Memtable.insert b m ≡ (ErrorCode.out_of_range, m)
  unfolding Memtable.insert
  over b m h = rw h refl

  loop_fits :
      (fuel : ℕ) (b : WriteBatch) (db : Db T)
      → could_fit_in b db.mem ≡ true
      → insert_loop fresh bound n (suc fuel) b db
        ≡ ok (ErrorCode.no_error, record db { mem = insert_all b.entries db.mem })
  unfolding insert_loop retry
  loop_fits fuel b db h = rw (fits b db.mem h) refl

  loop_over :
      (fuel : ℕ) (b : WriteBatch) (db : Db T)
      → could_fit_in b db.mem ≡ false
      → insert_loop fresh bound n (suc fuel) b db
        ≡ (replace_memtable fresh bound n db >>= insert_loop fresh bound n fuel b)
  unfolding insert_loop retry
  loop_over fuel b db h = rw (over b db.mem h) refl

  record Replaced (db next : Db T) : Type 0 where
    mem : next.mem ≡ new_memtable fresh bound
    flushed : next.flushed ≡ flush_to_disk db.mem db.flushed
    log : next.log ≡ db.log
    snapshots : next.snapshots ≡ db.snapshots

  divisor-pos : 2 ≤ n → n < 2 ^ 64 → ((n + 2 ^ 64 - 1) % 2 ^ 64 == 0) ≡ false
  divisor-pos le lt =
      let e : n + 2 ^ 64 - 1 ≡ (n - 1) + 2 ^ 64 = omega arith in
      let d : (n + 2 ^ 64 - 1) % 2 ^ 64 ≡ n - 1 =
        ap (λ m. m % 2 ^ 64) e ∙ add-mod_right (n - 1) (2 ^ 64) ∙ mod-eq_of_lt (omega arith) in
      rw d (ground arith)

  -- With two files or more allowed on level 0 the memtable is replaced.
  replaced :
      (db : Db T)
      → 2 ≤ n
      → n < 2 ^ 64
      → (next : Db T) × (replace_memtable fresh bound n db ≡ ok next) × Replaced db next
  unfolding replace_memtable
  replaced db le lt = (
    record db {
      mem = new_memtable fresh bound;
      flushed = flush_to_disk db.mem db.flushed;
      force_gc_hint = (db.force_gc_hint + 1) % 2 ^ 64;
      compactions =
          if db.force_gc_hint % ((n + 2 ^ 64 - 1) % 2 ^ 64) == 0
          then db.compactions + 1
          else db.compactions;
    },
    rw (divisor-pos le lt) refl,
    record { mem = refl; flushed = refl; log = refl; snapshots = refl },
  )

  new_memtable-fits :
      (b : WriteBatch)
      → serialized_size b.entries ≤ bound
      → could_fit_in b (new_memtable fresh bound) ≡ true
  unfolding could_fit_in new_memtable
  new_memtable-fits b h = ground arith

  -- What the loop of `insert` promises of a batch that an empty memtable has room for.
  record Inserted (b : WriteBatch) (db after : Db T) : Type 0 where
    kept : IsKept b db after
    log : after.log ≡ db.log
    snapshots : after.snapshots ≡ db.snapshots

  insert_loop_lem :
      (fuel : ℕ) (b : WriteBatch) (db : Db T)
      → serialized_size b.entries ≤ bound
      → 2 ≤ n
      → n < 2 ^ 64
      → (after : Db T) × (insert_loop fresh bound n (suc (suc fuel)) b db
          ≡ ok (ErrorCode.no_error, after))
        × Inserted b db after
  insert_loop_lem fuel b db small le lt = elim (Bool-cases (could_fit_in b db.mem)) [
    | inl fits ↦ (
      record db { mem = insert_all b.entries db.mem },
      loop_fits (suc fuel) b db fits,
      record { kept = inl (refl, refl); log = refl; snapshots = refl },
    )
    | inr over ↦
        let (next, e, r) = replaced db le lt in
        let room : could_fit_in b next.mem ≡ true =
          ap (could_fit_in b) r.mem ∙ new_memtable-fits b small in
        (
          record next { mem = insert_all b.entries next.mem },
          loop_over (suc fuel) b db over ∙ rw e (loop_fits fuel b next room),
          record {
            kept = inr (ap (insert_all b.entries) r.mem, r.flushed);
            log = r.log;
            snapshots = r.snapshots;
          },
        )
  ]

  -- A batch that is larger than a memtable may be is retried without an end, each time with a new
  -- memtable, which is as small: no number of rounds is enough.
  pub insert_loop-stuck :
      (fuel : ℕ) (b : WriteBatch) (db : Db T)
      → bound < serialized_size b.entries
      → db.mem.bound_size_bytes ≡ bound
      → 2 ≤ n
      → n < 2 ^ 64
      → insert_loop fresh bound n fuel b db ≡ err stuck
  insert_loop-stuck zero b db large e le lt = unfold insert_loop in refl
  insert_loop-stuck (suc fuel) b db large e le lt =
      let (next, q, r) = replaced db le lt in
      loop_over fuel b db (unfold could_fit_in in ground arith)
      ∙ rw q (
          insert_loop-stuck fuel b next large
            (ap (λ m. m.bound_size_bytes) r.mem ∙ unfold new_memtable in refl) le lt)

size-set_entry_seq :
    (n : ℕ) (x : KvEntry)
    → Entry.serialized_bytes_size (set_entry_seq n x) ≡ Entry.serialized_bytes_size x
unfolding Entry.serialized_bytes_size set_entry_seq Key.serialized_bytes_size
    Key.set_sequence_number
size-set_entry_seq n x = refl

-- Numbering the entries of a batch does not change their lengths.
repropogate-size :
    (n i : ℕ) (xs : List KvEntry) → serialized_size (repropogate n i xs) ≡ serialized_size xs
unfolding serialized_size repropogate
repropogate-size n i [] = refl
repropogate-size n i (x ∷ xs) =
    omega (arith, size-set_entry_seq ((n + i) % 2 ^ 32) x, repropogate-size n (i + 1) xs)

repropogate-IsLoggable :
    (c n i : ℕ) (xs : List KvEntry)
    → All (IsLoggable c) xs
    → All (IsLoggable c) (repropogate n i xs)
unfolding repropogate
repropogate-IsLoggable c n i [] h = tt
repropogate-IsLoggable c n i (x ∷ xs) ((short, room), h) =
    let same = size-set_entry_seq ((n + i) % 2 ^ 32) x in
    ((omega arith, omega arith), repropogate-IsLoggable c n (i + 1) xs h)

-- The batch as it is logged and inserted.
abbrev pub numbered : {T : Type 0} → WriteBatch → Db T → WriteBatch
numbered b db = set_first_sequence_num (get_next_unused_sequence_number (count b) db.snapshots).0 b

module _ {T : Type 0} ⦃s : SkipList T⦄ ⦃k : Kernel⦄ ⦃e : BigEndian⦄ (fresh : T) (bound n : ℕ) where
  -- Inserting a batch that an empty memtable has room for, if its entries fit their fields and the
  -- log's buffer and level 0 may have two files at least, succeeds within two rounds: the batch gets
  -- the next sequence numbers, its bytes stand in the log behind those that were there, and it is
  -- in the memtable or, the old one having gone to the flusher, in a new one.
  pub insert-IsKept :
      (fuel : ℕ) (small : Bool) (b : WriteBatch) (db : Db T) (bytes : Bytes)
      → IsLog db.log bytes
      → All (IsLoggable db.log.log_file.buffer.capacity) b.entries
      → serialized_size b.entries ≤ bound
      → 2 ≤ n
      → n < 2 ^ 64
      → (after : Db T) × (insert fresh bound n (suc (suc fuel)) small b db
          ≡ ok (ErrorCode.no_error, after))
        × IsKept fresh bound n (numbered b db) db after
        × IsLog after.log (bytes ++ entries_bytes (numbered b db).entries)
        × (after.snapshots ≡ (get_next_unused_sequence_number (count b) db.snapshots).1)
  unfolding insert set_first_sequence_num
  insert-IsKept fuel small b db bytes h fits room le lt =
      let (log, e, held, flushed, cap) =
        insert_lem small (numbered b db) db.log bytes h
          (repropogate-IsLoggable _ _ 0 b.entries fits) in
      let start = record db {
        snapshots = (get_next_unused_sequence_number (count b) db.snapshots).1;
        log = log;
      } in
      let (after, q, i) =
        insert_loop_lem fresh bound n fuel (numbered b db) start
          (omega (
            arith,
            repropogate-size (get_next_unused_sequence_number (count b) db.snapshots).0 0 b.entries,
          ))
          le lt in
      (after, rw e q, i.kept, rw i.log held, i.snapshots)
