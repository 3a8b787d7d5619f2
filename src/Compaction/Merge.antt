-- ===== src/Compaction/Merge.antt =====
-- What `compactor::merge_two_tables` promises: its assertions hold, and the merged table has the
-- newest version of every user key.
use frenzy_kv.Prelude.{◌≡◌, ◌∙◌, List, true, false, ok}
use mathlib.Core.List.{reverse}
use frenzy_kv.Bytes.{Bytes}
use frenzy_kv.Kv.Entry.{KvEntry}
use frenzy_kv.Compaction.{merge, is_sorted, is_empty, unique, merged, merge_two_tables}
use frenzy_kv.Compaction.Lookup.{
  newest, newer, newest-reverse, latest-reverse, latest-merge, newest-unique,
}
use frenzy_kv.Compaction.Sorted.{
  is_sorted-reverse, is_descending-reverse, merge-is_sorted, unique-descending,
}

-- What the merge of two tables asserts of them.
pub record IsTable (xs : List KvEntry) : Type 0 where
  pub nonempty : is_empty xs ≡ false
  pub descending : is_sorted (reverse xs) ≡ true

pub merged_sorted :
    (lhs rhs : List KvEntry)
    → IsTable lhs
    → IsTable rhs
    → is_sorted (reverse (merged lhs rhs)) ≡ true
unfolding merged
merged_sorted lhs rhs hl hr =
    let both = merge (reverse lhs) (reverse rhs) in
    is_sorted-reverse (unique (reverse both))
    ∙ unique-descending (reverse both) (
        is_descending-reverse both
        ∙ merge-is_sorted (reverse lhs) (reverse rhs) hl.descending hr.descending)

-- On two tables that are not empty and descending no assertion fails.
pub merge_two_tables-merged :
    (lhs rhs : List KvEntry)
    → IsTable lhs
    → IsTable rhs
    → merge_two_tables lhs rhs ≡ ok (merged lhs rhs)
unfolding merge_two_tables
merge_two_tables-merged lhs rhs hl hr =
    rw (hl.nonempty, hr.nonempty, hl.descending, hr.descending, merged_sorted lhs rhs hl hr)

-- A user key is looked up in the merged table as the newer of the versions that the two tables
-- have of it.
pub newest-merged :
    (u : Bytes) (lhs rhs : List KvEntry)
    → IsTable lhs
    → IsTable rhs
    → newest u (merged lhs rhs) ≡ newer (newest u lhs) (newest u rhs)
unfolding merged
newest-merged u lhs rhs hl hr =
    let both = merge (reverse lhs) (reverse rhs) in
    newest-unique u (reverse both)
    ∙ newest-reverse u both
    ∙ latest-merge u (reverse lhs) (reverse rhs) hl.descending hr.descending
    ∙ rw (latest-reverse u lhs, latest-reverse u rhs)
