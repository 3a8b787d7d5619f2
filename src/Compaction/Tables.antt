-- ===== src/Compaction/Tables.antt =====
-- `compactor::merge_tables` of persistent/compaction.cc: the merge of any number of tables. The
-- entries of each table, as `get_entries_from_sstable_at_once` reads them, are the argument.
use frenzy_kv.Prelude.{
  ℕ, zero, suc, ◌-◌, ◌/◌, ◌≤◌, ◌<◌, ◌≡◌, refl, sym, ap, ◌∙◌, List, [], ◌∷◌, ◌++◌, All, arith, true,
  false, none, some, Option, ok, err, Result, stuck, assertion, ◌>>=◌, ◌>>◌, assert, leb, length,
  take, drop, Bool-cases, inl, inr, length-take, length-drop,
}
use mathlib.Core.Path.{subst}
use frenzy_kv.Bytes.{Bytes, bytes_eq_refl}
use frenzy_kv.Kv.Entry.{KvEntry, entry_less}
use frenzy_kv.Compaction.{is_empty, merged, merge_two_tables}
use frenzy_kv.Compaction.Order.{less_trans, le_trans, less-le_trans}
use frenzy_kv.Compaction.Lookup.{newest, newer, newer-none}
use frenzy_kv.Compaction.Merge.{IsTable, merge_two_tables-merged, newest-merged, merged_sorted}

-- Each call has fewer tables than the one before, so a round for each table is enough.
unfoldable pub devide_and_conquer_merge : ℕ → List (List KvEntry) → Result (List KvEntry)
devide_and_conquer_merge zero tables = err stuck
devide_and_conquer_merge (suc fuel) [] = err assertion
devide_and_conquer_merge (suc fuel) (a ∷ []) = ok a
devide_and_conquer_merge (suc fuel) (a ∷ b ∷ []) = merge_two_tables a b
devide_and_conquer_merge (suc fuel) (a ∷ b ∷ c ∷ rest) = do
  let tables = a ∷ b ∷ c ∷ rest
  let half = length tables / 2
  left ← devide_and_conquer_merge fuel (take half tables)
  right ← devide_and_conquer_merge fuel (drop half tables)
  merge_two_tables left right

unfoldable pub merge_tables : List (List KvEntry) → Result (List KvEntry)
merge_tables table_ptrs = do
  assert (leb 2 (length table_ptrs))
  devide_and_conquer_merge (length table_ptrs) table_ptrs

-- The newest version that any of the tables has: of two that are equal the later table's.
pub newest_of : Bytes → List (List KvEntry) → Option KvEntry
newest_of u [] = none
newest_of u (t ∷ ts) = newer (newest u t) (newest_of u ts)

newer_assoc : (x y z : Option KvEntry) → newer (newer x y) z ≡ newer x (newer y z)
unfolding newer
newer_assoc none y z = refl
newer_assoc (some x) none z = refl
newer_assoc (some x) (some y) none = ground arith
newer_assoc (some x) (some y) (some z) =
    ground (arith, less_trans z y x, le_trans x y z, less-le_trans z y x, less-le_trans z x y)

newest_of-append :
    (u : Bytes) (xs ys : List (List KvEntry))
    → newest_of u (xs ++ ys) ≡ newer (newest_of u xs) (newest_of u ys)
unfolding newest_of newer
newest_of-append u [] ys = refl
newest_of-append u (x ∷ xs) ys =
    ap (newer (newest u x)) (newest_of-append u xs ys)
    ∙ sym (newer_assoc (newest u x) (newest_of u xs) (newest_of u ys))

-- A lookup that finds something shows that a list is not empty.
found-nonempty :
    (u : Bytes) (xs : List KvEntry) (x : KvEntry) → newest u xs ≡ some x → is_empty xs ≡ false
unfolding newest is_empty
found-nonempty u [] x h = ground arith
found-nonempty u (y ∷ ys) x h = refl

newest_head : (x : KvEntry) (xs : List KvEntry) → newest x.key.user_key (x ∷ xs) ≡ some x
unfolding newest
newest_head x xs = rw (bytes_eq_refl x.key.user_key)

newer-some : (o : Option KvEntry) (y : KvEntry) → (z : KvEntry) × (newer o (some y) ≡ some z)
unfolding newer
newer-some none y = (y, refl)
newer-some (some x) y = elim (Bool-cases (entry_less y x)) [ inl h ↦ (x, rw h) | inr h ↦ (y, rw h) ]

merged-nonempty :
    (lhs rhs : List KvEntry) → IsTable lhs → IsTable rhs → is_empty (merged lhs rhs) ≡ false
unfolding is_empty
merged-nonempty lhs [] hl hr = absurd (ground (arith, hr.nonempty))
merged-nonempty lhs (y ∷ ys) hl hr =
    let u = y.key.user_key in
    let (z, q) = newer-some (newest u lhs) y in
    found-nonempty u (merged lhs (y ∷ ys)) z
      (newest-merged u lhs (y ∷ ys) hl hr ∙ ap (newer (newest u lhs)) (newest_head y ys) ∙ q)

merged-IsTable : (lhs rhs : List KvEntry) → IsTable lhs → IsTable rhs → IsTable (merged lhs rhs)
merged-IsTable lhs rhs hl hr = record {
  nonempty = merged-nonempty lhs rhs hl hr;
  descending = merged_sorted lhs rhs hl hr;
}

-- What the merge of tables gives.
pub record IsMerge (tables : List (List KvEntry)) (r : Result (List KvEntry)) : Type 0 where
  pub result : List KvEntry
  pub is_ok : r ≡ ok result
  pub is_table : IsTable result
  pub looks_up : (u : Bytes) → newest u result ≡ newest_of u tables

two-IsMerge :
    (xs ys : List (List KvEntry)) (r s : Result (List KvEntry))
    → IsMerge xs r
    → IsMerge ys s
    → IsMerge (xs ++ ys) (r >>= λ left. s >>= λ right. merge_two_tables left right)
two-IsMerge xs ys r s h k = record {
  result = merged h.result k.result;
  is_ok = rw (h.is_ok, k.is_ok) (merge_two_tables-merged h.result k.result h.is_table k.is_table);
  is_table = merged-IsTable h.result k.result h.is_table k.is_table;
  looks_up = λ u.
      newest-merged u h.result k.result h.is_table k.is_table
      ∙ rw (h.looks_up u, k.looks_up u) (sym (newest_of-append u xs ys));
}

one-IsMerge : (a : List KvEntry) → IsTable a → IsMerge (a ∷ []) (ok a)
unfolding newest_of
one-IsMerge a h = record {
  result = a;
  is_ok = refl;
  is_table = h;
  looks_up = λ u. sym (newer-none (newest u a));
}

module _ {A : Type 0} where
  take-drop : (n : ℕ) (xs : List A) → take n xs ++ drop n xs ≡ xs
  take-drop zero xs = refl
  take-drop (suc n) [] = refl
  take-drop (suc n) (x ∷ xs) = ap (λ t. x ∷ t) (take-drop n xs)

  All-take : (P : A → Type 0) (n : ℕ) (xs : List A) → All P xs → All P (take n xs)
  All-take P zero xs h = tt
  All-take P (suc n) [] h = tt
  All-take P (suc n) (x ∷ xs) (h, hs) = (h, All-take P n xs hs)

  All-drop : (P : A → Type 0) (n : ℕ) (xs : List A) → All P xs → All P (drop n xs)
  All-drop P zero xs h = h
  All-drop P (suc n) [] h = tt
  All-drop P (suc n) (x ∷ xs) (h, hs) = All-drop P n xs hs

split-IsMerge :
    (n : ℕ) (ts : List (List KvEntry)) (r s : Result (List KvEntry))
    → IsMerge (take n ts) r
    → IsMerge (drop n ts) s
    → IsMerge ts (r >>= λ left. s >>= λ right. merge_two_tables left right)
split-IsMerge n ts r s h k =
    subst (λ t. IsMerge t (r >>= λ left. s >>= λ right. merge_two_tables left right))
      (take-drop n ts) (two-IsMerge (take n ts) (drop n ts) r s h k)

pub devide-IsMerge :
    (fuel : ℕ) (tables : List (List KvEntry))
    → 0 < length tables
    → length tables ≤ fuel
    → All IsTable tables
    → IsMerge tables (devide_and_conquer_merge fuel tables)
unfolding devide_and_conquer_merge
devide-IsMerge zero tables pos enough h = absurd (omega arith)
devide-IsMerge (suc fuel) [] pos enough h = absurd (omega arith)
devide-IsMerge (suc fuel) (a ∷ []) pos enough (ha, _) = one-IsMerge a ha
devide-IsMerge (suc fuel) (a ∷ b ∷ []) pos enough (ha, (hb, _)) =
    two-IsMerge (a ∷ []) (b ∷ []) (ok a) (ok b) (one-IsMerge a ha) (one-IsMerge b hb)
devide-IsMerge (suc fuel) (a ∷ b ∷ c ∷ rest) pos enough h =
    let tables = a ∷ b ∷ c ∷ rest in
    let half = length tables / 2 in
    let low : length (take half tables) ≡ half = omega (arith, length-take half tables) in
    let high : length (drop half tables) ≡ length tables - half = length-drop half tables in
    split-IsMerge half tables _ _
      (devide-IsMerge fuel (take half tables) (omega (arith, low)) (omega (arith, low))
        (All-take IsTable half tables h))
      (devide-IsMerge fuel (drop half tables) (omega (arith, high)) (omega (arith, high))
        (All-drop IsTable half tables h))

-- Two or more tables that are not empty and descending are merged into one such table, without a
-- failed assertion, and every user key is looked up in it as the newest version that any table has.
pub merge_tables-newest_of :
    (tables : List (List KvEntry))
    → 2 ≤ length tables
    → All IsTable tables
    → (r : List KvEntry) × (merge_tables tables ≡ ok r)
      × IsTable r
      × ((u : Bytes) → newest u r ≡ newest_of u tables)
unfolding merge_tables
merge_tables-newest_of tables two h =
    let m = devide-IsMerge (length tables) tables (omega arith) (omega arith) h in
    let enough : leb 2 (length tables) ≡ true = ground arith in
    (m.result, rw enough m.is_ok, m.is_table, m.looks_up)
