-- ===== src/Memtable.antt =====
-- `memtable` of include/frenzykv/table/memtable.h and table/memtable.cc, over the skip list of toolpex,
-- which is not part of the repository.
use frenzy_kv.Prelude.{
  ℕ, ◌+◌, ◌≡◌, List, [], ◌∷◌, Bool, true, false, none, some, Option, leb, if◌then◌else◌, ◌==◌,
  Result, ok, err, assertion, ◌>>◌, ◌>>=◌, assert, not, length,
}
use frenzy_kv.Bytes.{bytes_eq}
use frenzy_kv.Kv.Key.{SequencedKey, key_less}
use frenzy_kv.Kv.Value.{UserValue}
use frenzy_kv.Kv.Entry
use frenzy_kv.Kv.Entry.{KvEntry}
use frenzy_kv.WriteBatch.{WriteBatch, serialized_size}
use frenzy_kv.Compaction.{is_sorted}
use frenzy_kv.Compaction.Lookup.{first_of}
pub mod Visible
pub mod Size

-- The last entry whose key is not larger.
unfoldable pub last_less_equal : SequencedKey → List KvEntry → Option KvEntry
last_less_equal k [] = none
last_less_equal k (x ∷ xs) =
    first_of (last_less_equal k xs) (if key_less k x.key then none else some x)

-- The skip list: its pairs in their order, the operations that the memtable calls, and what they
-- promise: the pairs are sorted by key, and `find_last_less_equal` finds the last one that is not
-- larger than its argument.
pub record SkipList (T : Type 0) : Type 0 where
  pub pairs : T → List KvEntry
  pub insert : SequencedKey → UserValue → T → T
  pub find_last_less_equal : SequencedKey → T → Option KvEntry
  pub pairs_sorted : (t : T) → is_sorted (pairs t) ≡ true
  pub find_last :
      (k : SequencedKey) (t : T) → find_last_less_equal k t ≡ last_less_equal k (pairs t)

-- `std::error_code`: no error, or `make_frzkv_out_of_range()`.
pub data ErrorCode : Type 0 where
  no_error out_of_range : ErrorCode

pub record Memtable (T : Type 0) : Type 0 where
  pub bound_size_bytes : ℕ
  pub size_bytes : ℕ
  pub list : T

-- The entry that `table_get` found, if it is one of the user key.
unfoldable pub with_user_key : SequencedKey → Option KvEntry → Option KvEntry
with_user_key k none = none
with_user_key k (some x) = if bytes_eq x.key.user_key k.user_key then some x else none

module _ {T : Type 0} ⦃s : SkipList T⦄ where
  -- `insert_impl(kv_entry&&)`
  unfoldable pub insert_impl : KvEntry → Memtable T → Memtable T
  insert_impl x m = record m {
    size_bytes = m.size_bytes + Entry.serialized_bytes_size x;
    list = s.insert x.key x.value m.list;
  }

  -- No insertion gives an error, so the loop goes through.
  unfoldable pub insert_all : List KvEntry → Memtable T → Memtable T
  insert_all [] m = m
  insert_all (x ∷ xs) m = insert_all xs (insert_impl x m)

  unfoldable pub could_fit_in : WriteBatch → Memtable T → Bool
  could_fit_in batch m = leb (serialized_size batch.entries + m.size_bytes) m.bound_size_bytes

  unfoldable pub insert : WriteBatch → Memtable T → ErrorCode × Memtable T
  insert b m =
      if could_fit_in b m
      then (ErrorCode.no_error, insert_all b.entries m)
      else (ErrorCode.out_of_range, m)

  -- `table_get`
  unfoldable pub get : SequencedKey → Memtable T → Option KvEntry
  get k m = with_user_key k (s.find_last_less_equal k m.list)

  unfoldable pub count : Memtable T → ℕ
  count m = length (s.pairs m.list)

  -- The number of entries is compared with the bound on the bytes.
  unfoldable pub full : Memtable T → Result Bool
  full m = do assert (not (m.bound_size_bytes == 0)); ok (leb m.bound_size_bytes (count m))

  unfoldable pub empty : Memtable T → Bool
  empty m = count m == 0
