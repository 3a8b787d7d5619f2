-- ===== src/Tests/State.antt =====
-- Examples of the theorems on batches, filters, sequence numbers, compaction and versions.
use frenzy_kv.Prelude.{List, ℕ, ◌+◌, ◌-◌, ◌≡◌, refl, [], ◌∷◌, ◌++◌, arith, ok, true, false}
use frenzy_kv.Bytes.{Bytes, bytes_eq}
use frenzy_kv.Kv.Key.{key_less, logic_lexicographic_simulate_less}
use frenzy_kv.Kv.Value.{tomb_stone}
use frenzy_kv.Kv.Entry.{KvEntry, entry_less}
use frenzy_kv.WriteBatch.{has_key, remove_from_db}
use frenzy_kv.WriteBatch.Remove.{remove_from_db_behind}
use frenzy_kv.Bloom.{make_bloom_filter, append_new_filter, may_match}
use frenzy_kv.Bloom.Matching.{may_match-append_new_filter, may_match_always}
use frenzy_kv.Snapshot.Sequence.{IsRunning, hand_out, Consecutive, hand_out-Consecutive}
use frenzy_kv.Compaction.{is_empty, is_sorted, merged}
use frenzy_kv.Compaction.Lookup.{newest, newer}
use frenzy_kv.Compaction.Merge.{IsTable, newest-merged}
use frenzy_kv.Version.{apply}
use frenzy_kv.Version.Files.{count as times}
use frenzy_kv.Version.Apply.{count-apply}
use frenzy_kv.Prelude.{◌⊎◌, ◌≤◌}
use frenzy_kv.Memtable.{SkipList, Memtable, last_less_equal, get, insert}
use frenzy_kv.Memtable.Visible.{visible, get-visible}
use frenzy_kv.Memtable.Size.{IsInserted, IsRefused, insert-size}
use frenzy_kv.Compaction.{merge}
use frenzy_kv.Compaction.Sorted.{merge-is_sorted}
use frenzy_kv.Compaction.Tables.{merge_tables, newest_of, merge_tables-newest_of}
use frenzy_kv.Tests.{
  uuid_order, key_a, key_b, entry_a, entry_b, entry_c, batch, center, file_1, version, delta,
}

-- A hash that adds the bytes, and a move that leaves an entry as it is.
abbrev sum_hash : Bytes → ℕ
sum_hash [] = 0
sum_hash (b ∷ bs) = b + sum_hash bs

abbrev kept_as_is : KvEntry → KvEntry
kept_as_is x = x

differs : has_key key_b.user_key entry_a ≡ false
unfolding has_key bytes_eq
differs = ground arith

matches : has_key key_b.user_key entry_b ≡ true
unfolding has_key bytes_eq
matches = ground arith

fresh_a : has_key (100 ∷ []) entry_a ≡ false
unfolding has_key bytes_eq
fresh_a = ground arith

fresh_b : has_key (100 ∷ []) entry_b ≡ false
unfolding has_key bytes_eq
fresh_b = ground arith

own : has_key key_a.user_key entry_a ≡ true
unfolding has_key bytes_eq
own = ground arith

other : has_key key_a.user_key entry_b ≡ false
unfolding has_key bytes_eq
other = ground arith

remove_from_db_behind_example :
    (remove_from_db kept_as_is key_a.user_key batch).entries
    ≡ ([] ++ ([] ++ entry_b ∷ [])) ++ record (kept_as_is entry_b) { value = tomb_stone } ∷ []
remove_from_db_behind_example =
    remove_from_db_behind kept_as_is key_a.user_key batch [] entry_a [] entry_b refl tt own
      (other, tt)

may_match-append_new_filter_example :
    may_match sum_hash
      (98 ∷ [])
      (append_new_filter sum_hash (make_bloom_filter 10) ((97 ∷ []) ∷ (98 ∷ []) ∷ []) [])
    ≡ true
may_match-append_new_filter_example =
    may_match-append_new_filter sum_hash 10 ((97 ∷ []) ∷ []) (98 ∷ []) []

may_match_always_example :
    may_match sum_hash
      (1 ∷ [])
      (append_new_filter sum_hash (make_bloom_filter 64) ((97 ∷ []) ∷ []) [])
    ≡ true
may_match_always_example = may_match_always sum_hash 64 ((97 ∷ []) ∷ []) (1 ∷ []) (omega arith)

running : IsRunning center
running = record { started = omega arith; fits = omega arith }

hand_out-Consecutive_example : Consecutive 5 (hand_out center (3 ∷ 4 ∷ []))
hand_out-Consecutive_example = hand_out-Consecutive center (3 ∷ 4 ∷ []) running (omega arith)

abbrev table_1 : List KvEntry
table_1 = entry_b ∷ entry_a ∷ []

abbrev table_2 : List KvEntry
table_2 = entry_c ∷ []

table_1-IsTable : IsTable table_1
unfolding is_empty is_sorted entry_less key_less logic_lexicographic_simulate_less
table_1-IsTable = record { nonempty = refl; descending = ground arith }

table_2-IsTable : IsTable table_2
unfolding is_empty is_sorted
table_2-IsTable = record { nonempty = refl; descending = refl }

newest-merged_example :
    newest (97 ∷ []) (merged table_1 table_2)
    ≡ newer (newest (97 ∷ []) table_1) (newest (97 ∷ []) table_2)
newest-merged_example = newest-merged (97 ∷ []) table_1 table_2 table_1-IsTable table_2-IsTable

count-apply_example :
    times file_1 (apply delta version).files
    ≡ times file_1 delta.added + (times file_1 version.files - times file_1 delta.compacted)
count-apply_example = count-apply file_1 delta version

-- Sorted lists as a skip list.
pub record SortedList : Type 0 where
  pub items : List KvEntry
  pub is : is_sorted items ≡ true

pub one-is_sorted : (x : KvEntry) → is_sorted (x ∷ []) ≡ true
unfolding is_sorted
one-is_sorted x = refl

instance abbrev pub sorted_list : SkipList SortedList
sorted_list = record {
  pairs = λ t. t.items;
  insert = λ k v t.
      let x : KvEntry = record { key = k; value = v } in
      record {
        items = merge t.items (x ∷ []);
        is = merge-is_sorted t.items (x ∷ []) t.is (one-is_sorted x);
      };
  find_last_less_equal = λ k t. last_less_equal k t.items;
  pairs_sorted = λ t. t.is;
  find_last = λ k t. refl;
}

abbrev table : Memtable SortedList
table = record {
  bound_size_bytes = 100;
  size_bytes = 17;
  list = record { items = entry_a ∷ []; is = one-is_sorted entry_a };
}

get-visible_example : get key_a table ≡ visible key_a (entry_a ∷ [])
get-visible_example = get-visible key_a table

insert-size_example :
    ((insert batch table).1.size_bytes ≤ (insert batch table).1.bound_size_bytes)
    × (IsInserted batch table ⊎ IsRefused batch table)
insert-size_example = insert-size batch table (omega arith)

merge_tables-newest_of_example :
    (r : List KvEntry) × (merge_tables (table_1 ∷ table_2 ∷ table_1 ∷ []) ≡ ok r)
    × IsTable r
    × ((u : Bytes) → newest u r ≡ newest_of u (table_1 ∷ table_2 ∷ table_1 ∷ []))
merge_tables-newest_of_example =
    merge_tables-newest_of (table_1 ∷ table_2 ∷ table_1 ∷ []) (omega arith)
      (table_1-IsTable, (table_2-IsTable, (table_1-IsTable, tt)))
