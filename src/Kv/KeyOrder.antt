-- ===== src/Kv/KeyOrder.antt =====
-- `logic_lexicographic_simulate_less`: the comparison of two sequenced keys and the order of their
-- serialized bytes.
use frenzy_kv.Prelude.{
  ◌^◌, ◌<◌, ◌≡◌, refl, sym, ◌∙◌, [], ◌∷◌, ◌++◌, arith, length, append_assoc, true, false,
}
use Prim.Native.Nat.{compare, Ordering}
use frenzy_kv.Bytes.{Bytes, string_less}
use frenzy_kv.Bytes.Endian.{BigEndian, encode, length-encode}
use frenzy_kv.Bytes.Order.{
  lexicographic, or_else, is_lt, lexicographic-append, lexicographic-encode, lexicographic-flip,
}
use frenzy_kv.Kv.Key.{SequencedKey, user_key_len, logic_lexicographic_simulate_less}
use frenzy_kv.Kv.Wire.{key_bytes}
use frenzy_kv.Kv.Key.{key_less, key_eq}
use frenzy_kv.Bytes.{bytes_eq}
use frenzy_kv.Bytes.Order.{lexicographic_trans, eq_of_lexicographic}
use frenzy_kv.Prelude.{◌||◌, not}

module _ ⦃e : BigEndian⦄ where
  abbrev parts : SequencedKey → Bytes × Bytes × Bytes
  parts k = (encode 2 (user_key_len k), k.user_key, encode 4 k.seq)

  lexicographic-key_bytes :
      (l r : SequencedKey)
      → length l.user_key < 2 ^ 16
      → length r.user_key < 2 ^ 16
      → l.seq < 2 ^ 32
      → r.seq < 2 ^ 32
      → lexicographic (key_bytes l) (key_bytes r)
        ≡ or_else
            (compare (length l.user_key) (length r.user_key))
            (or_else (lexicographic l.user_key r.user_key) (compare l.seq r.seq))
  lexicographic-key_bytes l r hl hr sl sr =
      let (ll, lk, ls) = parts l in
      let (rl, rk, rs) = parts r in
      ground (
        arith,
        append_assoc ll lk ls,
        append_assoc rl rk rs,
        lexicographic-append ll rl (lk ++ ls) (rk ++ rs)
            (length-encode 2 _ ∙ sym (length-encode 2 _)),
        lexicographic-encode 2 (user_key_len l) (user_key_len r),
        lexicographic-append lk rk ls rs,
        lexicographic-encode 4 l.seq r.seq,
      )

  -- For user keys and sequence numbers that fit their fields the comparison is `<` on the serialized bytes.
  pub less-lexicographic :
      (l r : SequencedKey)
      → length l.user_key < 2 ^ 16
      → length r.user_key < 2 ^ 16
      → l.seq < 2 ^ 32
      → r.seq < 2 ^ 32
      → logic_lexicographic_simulate_less l r ≡ is_lt (lexicographic (key_bytes l) (key_bytes r))
  unfolding logic_lexicographic_simulate_less string_less
  less-lexicographic l r hl hr sl sr =
      rw (lexicographic-key_bytes l r hl hr sl sr)
        (ground (arith, lexicographic-flip l.user_key r.user_key))

bytes_eq-lexicographic :
    (xs ys : Bytes) → bytes_eq xs ys ≡ elim (lexicographic xs ys) [ Ordering.eq ↦ true | _ ↦ false ]
unfolding bytes_eq lexicographic
bytes_eq-lexicographic [] [] = refl
bytes_eq-lexicographic [] (y ∷ ys) = refl
bytes_eq-lexicographic (x ∷ xs) [] = refl
bytes_eq-lexicographic (x ∷ xs) (y ∷ ys) = ground (arith, bytes_eq-lexicographic xs ys)

-- `operator==` holds exactly where neither key is `<` the other.
pub key_eq-less : (a b : SequencedKey) → key_eq a b ≡ not (key_less a b || key_less b a)
unfolding key_eq key_less logic_lexicographic_simulate_less string_less
key_eq-less a b = ground (
  arith,
  bytes_eq-lexicographic a.user_key b.user_key,
  lexicographic-flip a.user_key b.user_key,
  eq_of_lexicographic a.user_key b.user_key,
)

-- `operator<` is transitive.
pub key_less_trans :
    (a b c : SequencedKey) → key_less a b ≡ true → key_less b c ≡ true → key_less a c ≡ true
unfolding key_less logic_lexicographic_simulate_less string_less
key_less_trans a b c h k =
    let x = a.user_key in
    let y = b.user_key in
    let z = c.user_key in
    ground (
      arith,
      lexicographic-flip x y,
      lexicographic-flip y z,
      lexicographic-flip x z,
      lexicographic_trans x y z,
      eq_of_lexicographic x y,
      eq_of_lexicographic y z,
    )
