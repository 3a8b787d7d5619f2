-- ===== src/Compaction/Sorted.antt =====
-- The assertions of `merge_two_tables`: what the algorithms keep of the order.
use frenzy_kv.Prelude.{◌≡◌, refl, sym, ◌∙◌, ap, List, [], ◌∷◌, Bool, true, not, ◌&&◌, arith}
use mathlib.Core.List.{reverse, reverse_aux, reverse-reverse}
use frenzy_kv.Kv.Entry.{KvEntry, entry_less}
use frenzy_kv.Compaction.{merge, is_sorted, unique_after, unique}
use frenzy_kv.Compaction.Order.{asymm, le_trans}

-- Whether the first entry of an ascending list is at least `x`.
pub bounds : KvEntry → List KvEntry → Bool
bounds x [] = true
bounds x (y ∷ ys) = not (entry_less y x)

is_sorted-cons :
    (x : KvEntry) (xs : List KvEntry) → is_sorted (x ∷ xs) ≡ (bounds x xs && is_sorted xs)
unfolding is_sorted bounds
is_sorted-cons x [] = refl
is_sorted-cons x (y ∷ ys) = refl

bounds-merge :
    (x : KvEntry) (xs ys : List KvEntry)
    → bounds x xs ≡ true
    → bounds x ys ≡ true
    → bounds x (merge xs ys) ≡ true
unfolding bounds merge
bounds-merge x [] ys h k = k
bounds-merge x (a ∷ xs) [] h k = h
bounds-merge x (a ∷ xs) (b ∷ ys) h k = ground arith

pub merge-is_sorted :
    (xs ys : List KvEntry)
    → is_sorted xs ≡ true
    → is_sorted ys ≡ true
    → is_sorted (merge xs ys) ≡ true
unfolding merge bounds
merge-is_sorted [] ys h k = k
merge-is_sorted (a ∷ xs) [] h k = h
merge-is_sorted (a ∷ xs) (b ∷ ys) h k = ground (
  arith,
  is_sorted-cons a xs,
  is_sorted-cons b ys,
  is_sorted-cons b (merge (a ∷ xs) ys),
  is_sorted-cons a (merge xs (b ∷ ys)),
  merge-is_sorted (a ∷ xs) ys,
  merge-is_sorted xs (b ∷ ys),
  bounds-merge b (a ∷ xs) ys,
  bounds-merge a xs (b ∷ ys),
  asymm b a,
)

-- Whether a list is descending.
pub is_descending : List KvEntry → Bool
is_descending [] = true
is_descending (x ∷ []) = true
is_descending (x ∷ y ∷ xs) = not (entry_less x y) && is_descending (y ∷ xs)

pub below : List KvEntry → List KvEntry → Bool
below [] acc = true
below (x ∷ xs) acc = bounds x acc

is_sorted-reverse_aux :
    (xs acc : List KvEntry)
    → is_sorted (reverse_aux xs acc) ≡ (is_descending xs && below xs acc && is_sorted acc)
unfolding is_descending below bounds
is_sorted-reverse_aux [] acc = refl
is_sorted-reverse_aux (x ∷ []) acc = ground (arith, is_sorted-cons x acc)
is_sorted-reverse_aux (x ∷ y ∷ xs) acc =
    ground (arith, is_sorted-reverse_aux (y ∷ xs) (x ∷ acc), is_sorted-cons x acc)

pub is_sorted-reverse : (xs : List KvEntry) → is_sorted (reverse xs) ≡ is_descending xs
unfolding is_sorted is_descending below bounds
is_sorted-reverse [] = refl
is_sorted-reverse (x ∷ xs) = ground (arith, is_sorted-reverse_aux (x ∷ xs) [])

pub is_descending-reverse : (xs : List KvEntry) → is_descending (reverse xs) ≡ is_sorted xs
is_descending-reverse xs = sym (is_sorted-reverse (reverse xs)) ∙ ap is_sorted (reverse-reverse xs)

drop_second :
    (x y : KvEntry) (ys : List KvEntry)
    → is_descending (x ∷ y ∷ ys) ≡ true
    → is_descending (x ∷ ys) ≡ true
unfolding is_descending
drop_second x y [] h = refl
drop_second x y (z ∷ ys) h = ground (arith, le_trans z y x)

unique_after-descending :
    (x : KvEntry) (xs : List KvEntry)
    → is_descending (x ∷ xs) ≡ true
    → is_descending (x ∷ unique_after x xs) ≡ true
unfolding unique_after is_descending
unique_after-descending x [] h = refl
unique_after-descending x (y ∷ ys) h =
    ground (arith, unique_after-descending x ys, unique_after-descending y ys, drop_second x y ys h)

pub unique-descending :
    (xs : List KvEntry) → is_descending xs ≡ true → is_descending (unique xs) ≡ true
unfolding unique is_descending
unique-descending [] h = refl
unique-descending (x ∷ xs) h = unique_after-descending x xs h
