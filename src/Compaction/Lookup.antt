-- ===== src/Compaction/Lookup.antt =====
-- The entry that a user key is looked up xs: the first one in a descending list, the last one in an
-- ascending list.
use frenzy_kv.Prelude.{
  ◌≡◌, refl, sym, ◌∙◌, ap, List, [], ◌∷◌, Bool, true, false, Option, none, some, if◌then◌else◌,
  arith, Bool-cases, inl, inr,
}
use mathlib.Core.List.{reverse, reverse_aux, reverse-reverse}
use frenzy_kv.Bytes.{Bytes, bytes_eq, eq_of_bytes_eq}
use frenzy_kv.Kv.Entry.{KvEntry, entry_less}
use frenzy_kv.Compaction.{merge, is_sorted, same_user_key, unique_after, unique}
use frenzy_kv.Compaction.Order.{irrefl, le_trans, less-le_trans}

unfoldable pub newest : Bytes → List KvEntry → Option KvEntry
newest u [] = none
newest u (x ∷ xs) = if bytes_eq u x.key.user_key then some x else newest u xs

unfoldable pub first_of : Option KvEntry → Option KvEntry → Option KvEntry
first_of (some x) o = some x
first_of none o = o

pub latest : Bytes → List KvEntry → Option KvEntry
latest u [] = none
latest u (x ∷ xs) = first_of (latest u xs) (if bytes_eq u x.key.user_key then some x else none)

-- The newer of two versions: of two that are equal the right one.
unfoldable pub newer : Option KvEntry → Option KvEntry → Option KvEntry
newer none o = o
newer (some x) none = some x
newer (some x) (some y) = if entry_less y x then some x else some y

newest-reverse_aux :
    (u : Bytes) (xs acc : List KvEntry)
    → newest u (reverse_aux xs acc) ≡ first_of (latest u xs) (newest u acc)
unfolding latest first_of newest
newest-reverse_aux u [] acc = refl
newest-reverse_aux u (x ∷ xs) acc = ground (arith, newest-reverse_aux u xs (x ∷ acc))

pub newest-reverse : (u : Bytes) (xs : List KvEntry) → newest u (reverse xs) ≡ latest u xs
unfolding first_of newest
newest-reverse u xs = ground (arith, newest-reverse_aux u xs [])

pub latest-reverse : (u : Bytes) (xs : List KvEntry) → latest u (reverse xs) ≡ newest u xs
latest-reverse u xs = sym (newest-reverse u (reverse xs)) ∙ ap (newest u) (reverse-reverse xs)

-- In an ascending list no entry is less than the first.
latest_ge :
    (u : Bytes) (a : KvEntry) (xs : List KvEntry) (z : KvEntry)
    → is_sorted (a ∷ xs) ≡ true
    → latest u (a ∷ xs) ≡ some z
    → entry_less z a ≡ false
unfolding latest is_sorted first_of
latest_ge u a [] z s h = ground (arith, irrefl a)
latest_ge u a (b ∷ ys) z s h = ground (arith, irrefl a, latest_ge u b ys z, le_trans a b z)

tail_sorted : (x : KvEntry) (xs : List KvEntry) → is_sorted (x ∷ xs) ≡ true → is_sorted xs ≡ true
unfolding is_sorted
tail_sorted x [] h = refl
tail_sorted x (y ∷ ys) h = ground arith

pub newer-none : (o : Option KvEntry) → newer o none ≡ o
unfolding newer
newer-none none = refl
newer-none (some x) = refl

-- The head of a list is its last entry only where the rest has none.
right_step :
    (o p : Option KvEntry) (hit : Bool) (b : KvEntry)
    → ((z : KvEntry) → o ≡ some z → entry_less b z ≡ true)
    → first_of (newer o p) (if hit then some b else none)
      ≡ newer o (first_of p (if hit then some b else none))
unfolding first_of newer
right_step none none hit b h = refl
right_step none (some y) hit b h = refl
right_step (some x) none false b h = refl
right_step (some x) none true b h = ground (arith, h x refl)
right_step (some x) (some y) hit b h = ground arith

left_step :
    (o p : Option KvEntry) (hit : Bool) (a : KvEntry)
    → ((z : KvEntry) → p ≡ some z → entry_less z a ≡ false)
    → first_of (newer o p) (if hit then some a else none)
      ≡ newer (first_of o (if hit then some a else none)) p
unfolding first_of newer
left_step none none false a h = refl
left_step none none true a h = refl
left_step none (some y) false a h = refl
left_step none (some y) true a h = ground (arith, h y refl)
left_step (some x) none hit a h = refl
left_step (some x) (some y) hit a h = ground arith

merge_right :
    (a b : KvEntry) (xs ys : List KvEntry)
    → entry_less b a ≡ true
    → merge (a ∷ xs) (b ∷ ys) ≡ b ∷ merge (a ∷ xs) ys
unfolding merge
merge_right a b xs ys d = ground arith

merge_left :
    (a b : KvEntry) (xs ys : List KvEntry)
    → entry_less b a ≡ false
    → merge (a ∷ xs) (b ∷ ys) ≡ a ∷ merge xs (b ∷ ys)
unfolding merge
merge_left a b xs ys d = ground arith

-- Of two ascending lists that are merged the newer of the two versions is the last one.
pub latest-merge :
    (u : Bytes) (xs ys : List KvEntry)
    → is_sorted xs ≡ true
    → is_sorted ys ≡ true
    → latest u (merge xs ys) ≡ newer (latest u xs) (latest u ys)
unfolding merge latest newer
latest-merge u [] ys ha hb = refl
latest-merge u (a ∷ xs) [] ha hb = sym (newer-none (latest u (a ∷ xs)))
latest-merge u (a ∷ xs) (b ∷ ys) ha hb = elim (Bool-cases (entry_less b a)) [
  | inl d ↦
      ap (latest u) (merge_right a b xs ys d)
      ∙ (ap (λ o. first_of o (if bytes_eq u b.key.user_key then some b else none))
            (latest-merge u (a ∷ xs) ys ha (tail_sorted b ys hb))
          ∙ right_step (latest u (a ∷ xs)) (latest u ys) _ b
              (λ z q. less-le_trans b a z d (latest_ge u a xs z ha q)))
  | inr d ↦
      ap (latest u) (merge_left a b xs ys d)
      ∙ (ap (λ o. first_of o (if bytes_eq u a.key.user_key then some a else none))
            (latest-merge u xs (b ∷ ys) (tail_sorted a xs ha) hb)
          ∙ left_step (latest u xs) (latest u (b ∷ ys)) _ a
              (λ z q. le_trans a b z d (latest_ge u b ys z hb q)))
]

newest-unique_after :
    (u : Bytes) (x : KvEntry) (xs : List KvEntry)
    → bytes_eq u x.key.user_key ≡ false
    → newest u (unique_after x xs) ≡ newest u xs
unfolding newest unique_after same_user_key
newest-unique_after u x [] h = refl
newest-unique_after u x (y ∷ ys) h = ground (
  arith,
  newest-unique_after u x ys,
  newest-unique_after u y ys,
  eq_of_bytes_eq x.key.user_key y.key.user_key,
)

pub newest-unique : (u : Bytes) (xs : List KvEntry) → newest u (unique xs) ≡ newest u xs
unfolding newest unique
newest-unique u [] = refl
newest-unique u (x ∷ xs) = ground (arith, newest-unique_after u x xs)
