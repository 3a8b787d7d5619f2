-- ===== src/Version/Files.antt =====
-- How often a file is in the lists that `sort` and `set_difference` make.
use frenzy_kv.Prelude.{
  ℕ, ◌+◌, ◌-◌, ◌≡◌, refl, arith, List, [], ◌∷◌, ◌++◌, true, false, not, if◌then◌else◌, ◌&&◌, Bool,
}
use frenzy_kv.Version.{UuidOrder, FileRep, file_less, insert_sorted, sort, set_difference}
use frenzy_kv.Version.Order.{
  same, same_less, file_less-le_trans, file_less_irrefl, file_less_trans, file_less_connected,
  less-not-same,
}

unfoldable pub count : FileRep → List FileRep → ℕ
count f [] = 0
count f (x ∷ xs) = (if same f x then 1 else 0) + count f xs

pub count-append :
    (f : FileRep) (xs ys : List FileRep) → count f (xs ++ ys) ≡ count f xs + count f ys
unfolding count
count-append f [] ys = omega arith
count-append f (x ∷ xs) ys = omega (arith, count-append f xs ys)

pub bounded : ⦃u : UuidOrder⦄ → FileRep → List FileRep → Bool
bounded x [] = true
bounded x (y ∷ ys) = not (file_less y x)

pub ascending : ⦃u : UuidOrder⦄ → List FileRep → Bool
ascending [] = true
ascending (x ∷ xs) = bounded x xs && ascending xs

same_trans : (a b f : FileRep) → same a b ≡ true → same f a ≡ same f b
unfolding same
same_trans a b f h = ground arith

module _ ⦃u : UuidOrder⦄ where
  count-insert_sorted :
      (f x : FileRep) (xs : List FileRep) → count f (insert_sorted x xs) ≡ count f (x ∷ xs)
  unfolding count insert_sorted
  count-insert_sorted f x [] = refl
  count-insert_sorted f x (y ∷ ys) = ground (arith, count-insert_sorted f x ys)

  pub count-sort : (f : FileRep) (xs : List FileRep) → count f (sort xs) ≡ count f xs
  unfolding count sort
  count-sort f [] = refl
  count-sort f (x ∷ xs) = ground (arith, count-insert_sorted f x (sort xs), count-sort f xs)

  less_asymm : (a b : FileRep) → file_less a b ≡ true → file_less b a ≡ false
  less_asymm a b h = ground (arith, file_less_trans a b a, file_less_irrefl a)

  bounded-insert_sorted :
      (z x : FileRep) (xs : List FileRep)
      → file_less x z ≡ false
      → bounded z xs ≡ true
      → bounded z (insert_sorted x xs) ≡ true
  unfolding bounded insert_sorted
  bounded-insert_sorted z x [] h k = ground arith
  bounded-insert_sorted z x (y ∷ ys) h k = ground arith

  insert_sorted-ascending :
      (x : FileRep) (xs : List FileRep)
      → ascending xs ≡ true
      → ascending (insert_sorted x xs) ≡ true
  unfolding ascending insert_sorted bounded
  insert_sorted-ascending x [] h = refl
  insert_sorted-ascending x (y ∷ ys) h =
      ground (arith, insert_sorted-ascending x ys, bounded-insert_sorted y x ys, less_asymm x y)

  pub sort-ascending : (xs : List FileRep) → ascending (sort xs) ≡ true
  unfolding ascending sort
  sort-ascending [] = refl
  sort-ascending (x ∷ xs) = insert_sorted-ascending x (sort xs) (sort-ascending xs)

  -- What is less than the first file of an ascending list is not in it.
  count_below :
      (f y : FileRep) (ys : List FileRep)
      → ascending (y ∷ ys) ≡ true
      → file_less f y ≡ true
      → count f (y ∷ ys) ≡ 0
  unfolding count ascending bounded
  count_below f y [] h k = ground (arith, less-not-same f y)
  count_below f y (z ∷ ys) h k =
      ground (arith, less-not-same f y, file_less-le_trans f y z, count_below f z ys)

  pub count-set_difference :
      (f : FileRep) (xs ys : List FileRep)
      → ascending xs ≡ true
      → ascending ys ≡ true
      → count f (set_difference xs ys) ≡ count f xs - count f ys
  unfolding count set_difference ascending
  count-set_difference f [] ys h k = omega arith
  count-set_difference f (x ∷ xs) [] h k = omega arith
  count-set_difference f (x ∷ xs) (y ∷ ys) h k = ground (
    arith,
    count-set_difference f xs (y ∷ ys),
    count-set_difference f (x ∷ xs) ys,
    count-set_difference f xs ys,
    same_less f x y,
    same_less f y x,
    count_below f y ys,
    count_below f x xs,
    file_less_connected x y,
    same_trans x y f,
  )
