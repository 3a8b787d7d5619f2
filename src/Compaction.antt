-- ===== src/Compaction.antt =====
-- `compactor::merge_two_tables` of persistent/compaction.cc, with what it uses of <algorithm>. The
-- entries that are read from the two tables are its arguments.
use frenzy_kv.Prelude.{List, [], ◌∷◌, Bool, true, false, not, ◌&&◌, Result, ok, ◌>>◌, assert}
use mathlib.Core.List.{reverse}
use frenzy_kv.Bytes.{bytes_eq}
use frenzy_kv.Kv.Entry.{KvEntry, entry_less}
pub mod Order
pub mod Lookup
pub mod Sorted
pub mod Merge
pub mod Tables
pub mod Policy

-- `std::merge`: of two that are equal the left one comes first.
unfoldable pub merge : List KvEntry → List KvEntry → List KvEntry
merge [] ys = ys
merge (a ∷ xs) [] = a ∷ xs
merge (a ∷ xs) (b ∷ ys) = elim (entry_less b a) [
  | true ↦ b ∷ merge (a ∷ xs) ys
  | false ↦ a ∷ merge xs (b ∷ ys)
]

-- `std::is_sorted`
unfoldable pub is_sorted : List KvEntry → Bool
is_sorted [] = true
is_sorted (x ∷ []) = true
is_sorted (x ∷ y ∷ xs) = not (entry_less y x) && is_sorted (y ∷ xs)

unfoldable pub same_user_key : KvEntry → KvEntry → Bool
same_user_key a b = bytes_eq a.key.user_key b.key.user_key

-- `std::unique` compares each entry with the last one that it kept.
unfoldable pub unique_after : KvEntry → List KvEntry → List KvEntry
unique_after kept [] = []
unique_after kept (x ∷ xs) = elim (same_user_key kept x) [
  | true ↦ unique_after kept xs
  | false ↦ x ∷ unique_after x xs
]

unfoldable pub unique : List KvEntry → List KvEntry
unique [] = []
unique (x ∷ xs) = x ∷ unique_after x xs

unfoldable pub is_empty : List KvEntry → Bool
is_empty [] = true
is_empty (x ∷ xs) = false

-- The lists are descending: the iterators go backwards, and `front_inserter` turns the result round.
unfoldable pub merged : List KvEntry → List KvEntry → List KvEntry
merged lhs rhs = unique (reverse (merge (reverse lhs) (reverse rhs)))

unfoldable pub merge_two_tables : List KvEntry → List KvEntry → Result (List KvEntry)
merge_two_tables lhs rhs = do
  assert (not (is_empty lhs))
  assert (not (is_empty rhs))
  assert (is_sorted (reverse lhs))
  assert (is_sorted (reverse rhs))
  let result = merged lhs rhs
  assert (is_sorted (reverse result))
  ok result
