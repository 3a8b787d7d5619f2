-- ===== src/SsTable/Sorted.antt =====
-- What the assertion in `sstable_builder::add` of include/frenzykv/table/sstable_builder.h says of the
-- keys.
use frenzy_kv.Prelude.{
  ◌^◌, ◌<◌, ◌≡◌, refl, sym, ap, ◌∙◌, arith, List, [], ◌∷◌, All, true, false, length, drop,
  drop-append, inl, inr, compare,
}
use Prim.Native.Nat.{Ordering}
use frenzy_kv.Bytes.{string_less}
use frenzy_kv.Bytes.Endian.{BigEndian, encode, length-encode}
use frenzy_kv.Bytes.Order.{
  lexicographic, or_else, lexicographic-append, lexicographic-encode, lexicographic-flip,
  eq_of_lexicographic, memcmp_comparator-lexicographic,
}
use frenzy_kv.Kv.Key.{SequencedKey, user_key_len, key_less, logic_lexicographic_simulate_less}
use frenzy_kv.Kv.Entry.{KvEntry, entry_less}
use frenzy_kv.Kv.Wire.{user_key_bytes}
use frenzy_kv.Compaction.{is_sorted}
use frenzy_kv.Block.Steps.{IsBlockable}
use frenzy_kv.Block.Building.{Follows, Ascends}

module _ ⦃e : BigEndian⦄ where
  user_key_order :
      (l r : SequencedKey)
      → length l.user_key < 2 ^ 16
      → length r.user_key < 2 ^ 16
      → lexicographic (user_key_bytes l) (user_key_bytes r)
        ≡ or_else
            (compare (length l.user_key) (length r.user_key))
            (lexicographic l.user_key r.user_key)
  user_key_order l r hl hr = ground (
    arith,
    lexicographic-append (encode 2 (user_key_len l)) (encode 2 (user_key_len r)) l.user_key
        r.user_key (length-encode 2 _ ∙ sym (length-encode 2 _)),
    lexicographic-encode 2 (user_key_len l) (user_key_len r),
  )

  same_key : (l r : SequencedKey) → user_key_bytes l ≡ user_key_bytes r → l.user_key ≡ r.user_key
  same_key l r t =
      sym (drop-append 2 (encode 2 (user_key_len l)) l.user_key (length-encode 2 _))
      ∙ ap (drop 2) t
      ∙ drop-append 2 (encode 2 (user_key_len r)) r.user_key (length-encode 2 _)

  follows_lem :
      (x y : KvEntry) (o : Ordering)
      → lexicographic (user_key_bytes y.key) (user_key_bytes x.key) ≡ o
      → length x.key.user_key < 2 ^ 16
      → length y.key.user_key < 2 ^ 16
      → entry_less y x ≡ false
      → Follows x.key y
  unfolding entry_less key_less logic_lexicographic_simulate_less string_less
  follows_lem x y Ordering.eq t hx hy h =
      inl
        (same_key y.key x.key (eq_of_lexicographic (user_key_bytes y.key) (user_key_bytes x.key) t))
  follows_lem x y Ordering.gt t hx hy h =
      inr (memcmp_comparator-lexicographic (user_key_bytes y.key) (user_key_bytes x.key) ∙ t)
  follows_lem x y Ordering.lt t hx hy h = absurd (
      ground (
        arith,
        t,
        h,
        user_key_order y.key x.key hy hx,
        lexicographic-flip y.key.user_key x.key.user_key,
      ))

  -- Sorted entries stand in the order that a block asks for.
  pub is_sorted-Ascends :
      (x : KvEntry) (xs : List KvEntry)
      → All IsBlockable (x ∷ xs)
      → is_sorted (x ∷ xs) ≡ true
      → Ascends x.key xs
  unfolding is_sorted
  is_sorted-Ascends x [] h s = tt
  is_sorted-Ascends x (y ∷ ys) (hx, (hy, hs)) s =
      let first : entry_less y x ≡ false = ground arith in
      let rest : is_sorted (y ∷ ys) ≡ true = ground arith in
      (
        follows_lem x y _ refl (omega (arith, hx.key_fits)) (omega (arith, hy.key_fits)) first,
        is_sorted-Ascends y ys (hy, hs) rest,
      )
