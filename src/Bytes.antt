-- ===== src/Bytes.antt =====
-- Byte strings. A `std::string` and a `std::span` of bytes are a list of numbers.
-- A pointer into a storage is the list of the bytes from it to the end of that storage, so a read
-- past the end is `err out_of_bounds`.
pub mod Endian
pub mod Order
use frenzy_kv.Prelude.{ap, ◌∙◌}
use Order.{lexicographic, is_lt}
use frenzy_kv.Prelude.{Bool, true, false, ◌&&◌, ◌==◌, refl, []}
use frenzy_kv.Prelude.{ℕ, zero, suc, ◌+◌, ◌≤◌, ◌≡◌, refl, List, [], ◌∷◌, ◌++◌, arith}
use frenzy_kv.Prelude.{
  length, take, drop, append_assoc, append-nil, length-append, length-drop, drop-drop, drop_all,
  take-append, drop-append,
}
use frenzy_kv.Prelude.{Result, ok, err, out_of_bounds, ◌>>=◌, leb, if◌then◌else◌, ap, ◌∙◌}

abbrev pub Bytes : Type 0
Bytes = List ℕ

-- The `n` bytes from the pointer `mem` on.
unfoldable pub read : ℕ → Bytes → Result Bytes
read n mem = if leb n (length mem) then ok (take n mem) else err out_of_bounds

-- The pointer moved on by `n`; one past the end is still a pointer.
unfoldable pub advance : ℕ → Bytes → Result Bytes
advance n mem = if leb n (length mem) then ok (drop n mem) else err out_of_bounds

-- The span `buffer` after `bytes` has been copied to its front.
unfoldable pub overwrite : Bytes → Bytes → Bytes
overwrite bytes buffer = bytes ++ drop (length bytes) buffer

-- The span `buffer` after a write to its `subspan(n)`.
unfoldable pub within : ℕ → (Bytes → Bytes) → Bytes → Bytes
within n write buffer = take n buffer ++ write (drop n buffer)

-- `==` of two strings.
unfoldable pub bytes_eq : Bytes → Bytes → Bool
bytes_eq [] [] = true
bytes_eq [] (y ∷ ys) = false
bytes_eq (x ∷ xs) [] = false
bytes_eq (x ∷ xs) (y ∷ ys) = x == y && bytes_eq xs ys

pub bytes_eq_refl : (xs : Bytes) → bytes_eq xs xs ≡ true
unfolding bytes_eq
bytes_eq_refl [] = refl
bytes_eq_refl (x ∷ xs) = ground (arith, bytes_eq_refl xs)

pub eq_of_bytes_eq : (xs ys : Bytes) → bytes_eq xs ys ≡ true → xs ≡ ys
unfolding bytes_eq
eq_of_bytes_eq [] [] h = refl
eq_of_bytes_eq [] (y ∷ ys) h = cc
eq_of_bytes_eq (x ∷ xs) [] h = cc
eq_of_bytes_eq (x ∷ xs) (y ∷ ys) h = ground (arith, eq_of_bytes_eq xs ys)

-- `<` of two strings, by unsigned bytes.
unfoldable pub string_less : Bytes → Bytes → Bool
unfolding lexicographic
string_less a b = is_lt (lexicographic a b)

pub read-append : (n : ℕ) (xs ys : Bytes) → length xs ≡ n → read n (xs ++ ys) ≡ ok xs
unfolding read
read-append n xs ys h = ground (arith, length-append xs ys, take-append n xs ys h)

pub read_all : (n : ℕ) (xs : Bytes) → length xs ≡ n → read n xs ≡ ok xs
read_all n xs h = rw append-nil at (read-append n xs [] h)

pub advance-append : (n : ℕ) (xs ys : Bytes) → length xs ≡ n → advance n (xs ++ ys) ≡ ok ys
unfolding advance
advance-append n xs ys h = ground (arith, length-append xs ys, drop-append n xs ys h)

pub overwrite-within :
    (n : ℕ) (xs ys zs : Bytes)
    → length xs ≡ n
    → within n (overwrite ys) (xs ++ zs) ≡ xs ++ overwrite ys zs
unfolding within overwrite
overwrite-within n xs ys zs h = ground (arith, take-append n xs zs h, drop-append n xs zs h)

-- The next write into a subspan, after what has been written at the front.
pub within-overwrite :
    (n : ℕ) (write : Bytes → Bytes) (xs ys buffer : Bytes)
    → length xs ≡ n
    → write (drop n buffer) ≡ overwrite ys (drop n buffer)
    → within n write (overwrite xs buffer) ≡ overwrite (xs ++ ys) buffer
unfolding within overwrite
within-overwrite n write xs ys buffer h w =
    let rest = drop (length xs) buffer in
    let same : rest ≡ drop n buffer = ap (λ k. drop k buffer) h in
    let more : drop (length ys) (drop n buffer) ≡ drop (length (xs ++ ys)) buffer =
      drop-drop (length ys) n buffer
      ∙ ap (λ k. drop k buffer) (omega (arith, length-append xs ys)) in
    rw (take-append n xs rest h, drop-append n xs rest h, same, w, more, append_assoc)

pub length-overwrite :
    (xs buffer : Bytes) → length xs ≤ length buffer → length (overwrite xs buffer) ≡ length buffer
unfolding overwrite
length-overwrite xs buffer h =
    omega (arith, length-append xs (drop (length xs) buffer), length-drop (length xs) buffer)

-- A buffer of just the size is replaced.
pub overwrite_all : (xs buffer : Bytes) → length buffer ≤ length xs → overwrite xs buffer ≡ xs
unfolding overwrite
overwrite_all xs buffer h = rw (drop_all (length xs) buffer h) (append-nil xs)

-- What a write at the front leaves behind it.
pub drop-overwrite :
    (n : ℕ) (xs buffer : Bytes) → length xs ≡ n → drop n (overwrite xs buffer) ≡ drop n buffer
unfolding overwrite
drop-overwrite n xs buffer h =
    drop-append n xs (drop (length xs) buffer) h ∙ ap (λ k. drop k buffer) h
