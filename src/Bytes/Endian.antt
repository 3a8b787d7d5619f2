-- ===== src/Bytes/Endian.antt =====
-- The integer coding of the toolpex library: `encode_big_endian_to`, `append_encode_big_endian_to`
-- and `decode_big_endian_from`. toolpex is not part of the repository, so the coding is a parameter
-- of the model; its laws state the big-endian format, the most significant byte first.
use frenzy_kv.Prelude.{ℕ, zero, suc, ◌+◌, ◌*◌, ◌/◌, ◌%◌, ◌^◌, ◌<◌, ◌≤◌, ◌≡◌, List, [], ◌∷◌, arith}
use frenzy_kv.Prelude.{length, ap, ◌∙◌, sym}
use native.Mathlib.Nat.{
  pow-suc, mod-eq_of_lt, div-add-mod, mod-lt, mul-add-mod_self_left, mul-le-mul_right,
}

pub record BigEndian : Type 0 where
  -- the `w` bytes of an unsigned integer
  pub encode : ℕ → ℕ → List ℕ
  pub decode : List ℕ → ℕ
  pub encode_zero : (n : ℕ) → encode zero n ≡ []
  pub encode_suc : (w n : ℕ) → encode (suc w) n ≡ (n / 256 ^ w % 256) ∷ encode w n
  pub decode_nil : decode [] ≡ 0
  pub decode_cons : (b : ℕ) (bs : List ℕ) → decode (b ∷ bs) ≡ b * 256 ^ length bs + decode bs

mod_unique : (n m k r : ℕ) → r < m → n ≡ m * k + r → n % m ≡ r
mod_unique n m k r h e = rw e (mul-add-mod_self_left m k r ∙ mod-eq_of_lt h)

pub top_byte : (n m : ℕ) → 0 < m → n % (m * 256) ≡ n / m % 256 * m + n % m
top_byte n m h =
    mod_unique n (m * 256) (n / m / 256) (n / m % 256 * m + n % m)
      (omega (arith, mod-lt n h, mul-le-mul_right m (let b : n / m % 256 ≤ 255 = omega arith in b)))
      (omega (arith, div-add-mod n m, ap (λ (q : ℕ). m * q) (div-add-mod (n / m) 256)))

pub pow_pos : (w : ℕ) → 0 < 256 ^ w
pow_pos zero = omega arith
pow_pos (suc w) = rw pow-suc (omega (arith, pow_pos w))

split_top_byte : (n w : ℕ) → n / 256 ^ w % 256 * 256 ^ w + n % 256 ^ w ≡ n % 256 ^ suc w
split_top_byte n w = rw pow-suc (sym (top_byte n (256 ^ w) (pow_pos w)))

module _ ⦃e : BigEndian⦄ where
  abbrev pub encode : ℕ → ℕ → List ℕ
  encode = e.encode

  abbrev pub decode : List ℕ → ℕ
  decode = e.decode

  pub length-encode : (w n : ℕ) → length (encode w n) ≡ w
  length-encode zero n = ap length (e.encode_zero n)
  length-encode (suc w) n = ap length (e.encode_suc w n) ∙ ap suc (length-encode w n)

  decode-encode_mod : (w n : ℕ) → decode (encode w n) ≡ n % 256 ^ w
  decode-encode_mod zero n = ap decode (e.encode_zero n) ∙ e.decode_nil ∙ omega arith
  decode-encode_mod (suc w) n =
      rw (e.encode_suc w n, e.decode_cons, length-encode w n, decode-encode_mod w n)
        (split_top_byte n w)

  -- An integer that fits its width is read back.
  pub decode-encode : (w n : ℕ) → n < 256 ^ w → decode (encode w n) ≡ n
  decode-encode w n h = decode-encode_mod w n ∙ mod-eq_of_lt h

  pub decode_zeros : decode (0 ∷ 0 ∷ 0 ∷ 0 ∷ []) ≡ 0
  decode_zeros = simp (e.decode_cons, e.decode_nil) (omega arith)
