-- ===== src/Bytes/Order.antt =====
-- The orders on byte strings: `std::memcmp`, `std::string`'s comparison, and util/comp.cc.
use Prim.Native.Nat.{compare, Ordering}
use Prim.Native.Nat.Ordering.{lt, eq, gt}
use native.Mathlib.Nat.{mul-le-mul_right, pow-suc, mod-lt}
use frenzy_kv.Prelude.{ℕ, zero, suc, ◌+◌, ◌*◌, ◌/◌, ◌%◌, ◌^◌, ◌<◌, min, ◌≡◌, refl, sym, arith}
use frenzy_kv.Prelude.{List, [], ◌∷◌, ◌++◌, length, ltb, ◌==◌, if◌then◌else◌, Bool, true, false}
use frenzy_kv.Bytes.Endian.{BigEndian, encode, top_byte, pow_pos}

-- The second comparison decides where the first finds no difference.
abbrev pub or_else : Ordering → Ordering → Ordering
or_else lt d = lt
or_else eq d = d
or_else gt d = gt

-- The lexicographic order of byte strings, a proper prefix first: the specification.
unfoldable pub lexicographic : List ℕ → List ℕ → Ordering
lexicographic [] [] = eq
lexicographic [] (y ∷ ys) = lt
lexicographic (x ∷ xs) [] = gt
lexicographic (x ∷ xs) (y ∷ ys) = or_else (compare x y) (lexicographic xs ys)

-- `std::memcmp` on the first `n` bytes; its sign as an ordering.
unfoldable pub memcmp : ℕ → List ℕ → List ℕ → Ordering
memcmp zero xs ys = eq
memcmp (suc n) [] ys = eq
memcmp (suc n) (x ∷ xs) [] = eq
memcmp (suc n) (x ∷ xs) (y ∷ ys) = or_else (compare x y) (memcmp n xs ys)

-- `memcmp_comparator::operator()`
unfoldable pub memcmp_comparator : List ℕ → List ℕ → Ordering
memcmp_comparator lhs rhs =
    let min_len = min (length lhs) (length rhs) in
    if min_len == 0 then compare (length lhs) (length rhs) else elim (memcmp min_len lhs rhs) [
      | eq ↦
          if length lhs == length rhs then eq else if ltb (length rhs) (length lhs) then gt else lt
      | gt ↦ gt
      | lt ↦ lt
    ]

memcmp-min :
    (xs ys : List ℕ)
    → or_else (memcmp (min (length xs) (length ys)) xs ys) (compare (length xs) (length ys))
      ≡ lexicographic xs ys
unfolding memcmp lexicographic
memcmp-min [] [] = ground arith
memcmp-min [] (y ∷ ys) = ground arith
memcmp-min (x ∷ xs) [] = ground arith
memcmp-min (x ∷ xs) (y ∷ ys) =
    let e : min (suc (length xs)) (suc (length ys)) ≡ suc (min (length xs) (length ys)) =
      omega arith in
    rw e (ground (arith, memcmp-min xs ys))

memcmp_zero : (xs ys : List ℕ) → memcmp 0 xs ys ≡ eq
unfolding memcmp
memcmp_zero xs ys = refl

-- The comparator of util/comp.cc is the lexicographic order of the two strings.
pub memcmp_comparator-lexicographic :
    (lhs rhs : List ℕ) → memcmp_comparator lhs rhs ≡ lexicographic lhs rhs
unfolding memcmp_comparator
memcmp_comparator-lexicographic lhs rhs =
    rw (sym (memcmp-min lhs rhs)) (ground (arith, memcmp_zero lhs rhs))

digits_lt : (m a b r s : ℕ) → r < m → a < b → a * m + r < b * m + s
digits_lt m a b r s hr h = omega (arith, mul-le-mul_right m h)

compare_digits :
    (m a b r s : ℕ)
    → r < m
    → s < m
    → compare (a * m + r) (b * m + s) ≡ or_else (compare a b) (compare r s)
compare_digits m a b r s hr hs = ground (arith, digits_lt m a b r s, digits_lt m b a s r)

abbrev pub is_lt : Ordering → Bool
is_lt lt = true
is_lt _ = false

-- Parts of equal length are compared one after the other.
pub lexicographic-append :
    (xs ys xs' ys' : List ℕ)
    → length xs ≡ length ys
    → lexicographic (xs ++ xs') (ys ++ ys') ≡ or_else (lexicographic xs ys) (lexicographic xs' ys')
unfolding lexicographic
lexicographic-append [] [] xs' ys' h = refl
lexicographic-append [] (y ∷ ys) xs' ys' h = absurd (omega arith)
lexicographic-append (x ∷ xs) [] xs' ys' h = absurd (omega arith)
lexicographic-append (x ∷ xs) (y ∷ ys) xs' ys' h =
    ground (arith, lexicographic-append xs ys xs' ys')

-- The big-endian format of two integers is ordered as the integers are.
pub lexicographic-encode :
    ⦃e : BigEndian⦄
    → (w a b : ℕ) → lexicographic (encode w a) (encode w b) ≡ compare (a % 256 ^ w) (b % 256 ^ w)
unfolding lexicographic
lexicographic-encode ⦃e⦄ zero a b = rw (e.encode_zero a, e.encode_zero b) (ground arith)
lexicographic-encode ⦃e⦄ (suc w) a b =
    let m = 256 ^ w in
    rw
      (
        e.encode_suc w a,
        e.encode_suc w b,
        pow-suc,
        top_byte a m (pow_pos w),
        top_byte b m (pow_pos w),
      )
      (ground (
        arith,
        lexicographic-encode w a b,
        compare_digits m (a / m % 256) (b / m % 256) (a % m) (b % m) (mod-lt a (pow_pos w))
            (mod-lt b (pow_pos w)),
      ))

abbrev pub flip : Ordering → Ordering
flip lt = gt
flip eq = eq
flip gt = lt

pub lexicographic-flip : (xs ys : List ℕ) → lexicographic ys xs ≡ flip (lexicographic xs ys)
unfolding lexicographic
lexicographic-flip [] [] = refl
lexicographic-flip [] (y ∷ ys) = refl
lexicographic-flip (x ∷ xs) [] = refl
lexicographic-flip (x ∷ xs) (y ∷ ys) = ground (arith, lexicographic-flip xs ys)

-- Only equal strings compare as equal.
pub eq_of_lexicographic : (xs ys : List ℕ) → lexicographic xs ys ≡ eq → xs ≡ ys
unfolding lexicographic
eq_of_lexicographic [] [] h = refl
eq_of_lexicographic [] (y ∷ ys) h = cc
eq_of_lexicographic (x ∷ xs) [] h = cc
eq_of_lexicographic (x ∷ xs) (y ∷ ys) h = ground (arith, eq_of_lexicographic xs ys)

pub lexicographic_refl : (xs : List ℕ) → lexicographic xs xs ≡ eq
unfolding lexicographic
lexicographic_refl [] = refl
lexicographic_refl (x ∷ xs) = ground (arith, lexicographic_refl xs)

pub lexicographic_trans :
    (xs ys zs : List ℕ)
    → lexicographic xs ys ≡ lt
    → lexicographic ys zs ≡ lt
    → lexicographic xs zs ≡ lt
unfolding lexicographic
lexicographic_trans xs [] [] h k = cc
lexicographic_trans [] [] zs h k = cc
lexicographic_trans (x ∷ xs) [] zs h k = cc
lexicographic_trans xs (y ∷ ys) [] h k = cc
lexicographic_trans [] (y ∷ ys) (z ∷ zs) h k = refl
lexicographic_trans (x ∷ xs) (y ∷ ys) (z ∷ zs) h k = ground (arith, lexicographic_trans xs ys zs)
