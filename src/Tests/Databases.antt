-- ===== src/Tests/Databases.antt =====
-- Examples of the theorems on the database.
use frenzy_kv.Prelude.{
  Option, some, ℕ, ◌≡◌, refl, List, [], ◌∷◌, ◌++◌, true, arith, ok, err, stuck, map, All, ◌≤◌,
}
use frenzy_kv.Bytes.{bytes_eq}
use frenzy_kv.Kv.Key
use frenzy_kv.Kv.Value
use frenzy_kv.Kv.Key.{SequencedKey, key_less, key_eq}
use frenzy_kv.Kv.Entry
use frenzy_kv.Kv.Entry.{KvEntry, entry_less}
use frenzy_kv.Kv.RoundTrip.{IsStorable, stored, stored_value}
use frenzy_kv.Kv.Scan.{entries_bytes}
use frenzy_kv.WriteBatch.{count, serialized_size}
use frenzy_kv.Snapshot.{snapshot_valid, get_next_unused_sequence_number}
use frenzy_kv.Compaction.{is_sorted}
use frenzy_kv.Compaction.Order.{asymm}
use frenzy_kv.Version.{FileRep, sort, insert_sorted, file_less}
use frenzy_kv.Memtable.{Memtable, ErrorCode, insert_all}
use frenzy_kv.Memtable.Visible.{visible}
use frenzy_kv.Compaction.Lookup.{first_of}
use frenzy_kv.Io.Buffer
use frenzy_kv.Io.Buffer.{valid_span}
use frenzy_kv.Io.Readable.{open_readable}
use frenzy_kv.SsTable.Files.{finsert, open_table, open_read}
use frenzy_kv.Tests.Tables.{deps, older}
use frenzy_kv.Tests.Opened.{table_disk, one_table, make-table_disk, get_kv_entry-one_table}
use frenzy_kv.Io.Writable.{Writable}
use frenzy_kv.Io.Writable.Content.{contents}
use frenzy_kv.Log.Insert.{IsLog}
use frenzy_kv.Db.{
  Db, Tables, chunk_with, chunk_by_level, make_query_key, get, visible_value, insert, insert_loop,
  init_from_log, new_memtable, flush_to_disk,
}
use frenzy_kv.Db.Levels.{flat, best, best_of, by_key, insert_pair}
use frenzy_kv.Db.Lookup.{
  has_same_key, to_list, found, IsAnswered, IsLayered, distinct, query_key, get-best,
}
use frenzy_kv.Db.Write.{IsKept, numbered, insert-IsKept, insert_loop-stuck}
use frenzy_kv.Db.Recovery.{Recovered, init-Recovered, init_lost}
use frenzy_kv.Tests.{big_endian, uuid_order, entry_c, batch, center, file_1}
use frenzy_kv.Tests.Coding.{entry_a-IsStorable, entry_b-IsStorable}
use frenzy_kv.Tests.State.{SortedList, sorted_list, one-is_sorted}
use frenzy_kv.Tests.Files.{zeros, length-zeros, kernel, eight}

insert_pair-is_sorted :
    (x : KvEntry) (ys : List KvEntry) → is_sorted ys ≡ true → is_sorted (insert_pair x ys) ≡ true
unfolding is_sorted insert_pair entry_less
insert_pair-is_sorted x [] h = refl
insert_pair-is_sorted x (y ∷ []) h = ground (arith, asymm x y)
insert_pair-is_sorted x (y ∷ z ∷ zs) h = ground (arith, asymm x y, insert_pair-is_sorted x (z ∷ zs))

by_key-is_sorted : (xs : List KvEntry) → is_sorted (by_key xs) ≡ true
unfolding by_key
by_key-is_sorted [] = unfold is_sorted in refl
by_key-is_sorted (x ∷ xs) = insert_pair-is_sorted x (by_key xs) (by_key-is_sorted xs)

abbrev collect : List KvEntry → SortedList
collect xs = record { items = by_key xs; is = by_key-is_sorted xs }

abbrev nothing : SortedList
nothing = record { items = []; is = unfold is_sorted in refl }

-- Every file has the table with the one entry.
abbrev tables : Tables
tables = record { deps = deps; memory = zeros; readable = λ f. open_readable table_disk }

abbrev answer : FileRep → Option KvEntry
answer f = some older

abbrev log_file : Writable
log_file = record eight {
  disk = [];
  buffer = record { storage = zeros 64; capacity = 64; left = 64 };
}

abbrev database : Db SortedList
database = record {
  snapshots = center;
  log = record { log_file = log_file };
  mem = record {
    bound_size_bytes = 100;
    size_bytes = 16;
    list = record { items = entry_c ∷ []; is = one-is_sorted entry_c };
  };
  flushed = [];
  force_gc_hint = 0;
  compactions = 0;
}

-- Two levels with a file each.
abbrev files : List FileRep
files = record { level = 1; file_id = 3 } ∷ file_1 ∷ []

abbrev asked : SequencedKey
asked = query_key (97 ∷ []) 8 database

any-IsAnswered : (f : FileRep) → IsAnswered answer tables asked f
unfolding finsert open_table open_read open_readable make_query_key snapshot_valid bytes_eq
any-IsAnswered f = record {
  table = one_table;
  opened = make-table_disk;
  returns = get_kv_entry-one_table;
  own = λ x e. let q : x ≡ older = cc in rw q refl;
}

all-IsAnswered : All (IsAnswered answer tables asked) (sort files)
unfolding sort insert_sorted file_less
all-IsAnswered = (any-IsAnswered _, (any-IsAnswered _, tt))

layered : IsLayered answer (chunk_by_level (sort files))
unfolding IsLayered chunk_by_level chunk_with sort insert_sorted file_less found flat distinct
    has_same_key
layered = (((omega arith, tt), tt), refl, ((tt, tt), refl, tt))

not_older :
    All
      (λ x. All (λ y. y.key.seq ≤ x.key.seq) (found answer (sort files)))
      (to_list (visible asked (entry_c ∷ [])))
unfolding visible first_of make_query_key snapshot_valid bytes_eq
not_older = tt

collects : (xs : List KvEntry) → distinct xs ≡ true → sorted_list.pairs (collect xs) ≡ by_key xs
collects xs h = refl

get-best_example :
    get collect tables (97 ∷ []) 8 files database
    ≡ ok (visible_value (best (visible asked (entry_c ∷ [])) (best_of (found answer (sort files)))))
get-best_example =
    get-best collect collects tables answer (97 ∷ []) 8 files database all-IsAnswered layered
      not_older

log-IsLog : IsLog database.log []
unfolding contents valid_span Buffer.size
log-IsLog = record { valid = record { whole = refl; bounded = omega arith }; holds = refl }

insert-IsKept_example :
    (after : Db SortedList) × (insert nothing 100 4 2 true batch database
      ≡ ok (ErrorCode.no_error, after))
    × IsKept nothing 100 4 (numbered batch database) database after
    × IsLog after.log ([] ++ entries_bytes (numbered batch database).entries)
    × (after.snapshots ≡ (get_next_unused_sequence_number (count batch) database.snapshots).1)
unfolding serialized_size Entry.serialized_bytes_size Key.serialized_bytes_size
    Value.serialized_bytes_size Value.size Value.is_tomb_stone
insert-IsKept_example =
    insert-IsKept nothing 100 4 0 true batch database [] log-IsLog
      ((omega arith, omega arith), ((omega arith, omega arith), tt)) (omega arith) (omega arith)
      (omega arith)

abbrev small_table : Memtable SortedList
small_table = new_memtable nothing 20

insert_loop-stuck_example :
    insert_loop nothing 20 4 1000 batch (record database { mem = small_table }) ≡ err stuck
unfolding serialized_size Entry.serialized_bytes_size Key.serialized_bytes_size
    Value.serialized_bytes_size Value.size Value.is_tomb_stone new_memtable
insert_loop-stuck_example =
    insert_loop-stuck nothing 20 4 1000 batch (record database { mem = small_table }) (omega arith)
      refl (omega arith) (omega arith)

-- A database that is opened with the batch in its log.
abbrev crashed : ℕ → Db SortedList
crashed bound = record database {
  log = record { log_file = record log_file { disk = entries_bytes batch.entries } };
  mem = new_memtable nothing bound;
}

batch-IsStorable : All IsStorable batch.entries
batch-IsStorable = (entry_a-IsStorable, (entry_b-IsStorable, tt))

init-Recovered_example :
    (after : Db SortedList) × (init_from_log nothing 100 zeros true 64 3 (crashed 100) ≡ ok after)
    × Recovered nothing 100 batch.entries 3 (crashed 100) after
    × (after.flushed
        ≡ flush_to_disk (insert_all (map stored batch.entries) (new_memtable nothing 100)) [])
unfolding serialized_size Entry.serialized_bytes_size Key.serialized_bytes_size
    Value.serialized_bytes_size Value.size Value.is_tomb_stone stored stored_value
init-Recovered_example =
    init-Recovered nothing 100 zeros true 64 3 length-zeros batch.entries (crashed 100) refl
      batch-IsStorable refl (omega arith)

init_lost_example :
    (after : Db SortedList) × (init_from_log nothing 20 zeros true 64 3 (crashed 20) ≡ ok after)
    × Recovered nothing 20 batch.entries 3 (crashed 20) after
    × (after.flushed ≡ [])
unfolding serialized_size Entry.serialized_bytes_size Key.serialized_bytes_size
    Value.serialized_bytes_size Value.size Value.is_tomb_stone stored stored_value
init_lost_example =
    init_lost nothing 20 zeros true 64 3 length-zeros batch.entries (crashed 20) refl
      batch-IsStorable refl refl (omega arith)
