-- ===== src/Block/PrefixTests.antt =====
-- The three comparisons of a user prefix with a segment's public prefix.
use frenzy_kv.Prelude.{◌≤◌, ◌≡◌, arith, length, take, ok, true, false, not, Bool}
use Prim.Native.Nat.{Ordering}
use frenzy_kv.Bytes.{Bytes}
use frenzy_kv.Bytes.Order.{lexicographic, memcmp_comparator-lexicographic}
use frenzy_kv.Block.Segment.{Segment, fit_public_prefix}
use frenzy_kv.Block.Reader.{
  larger_equal, less_than, prefix_subspan, larger_equal_than_this_public_prefix,
  less_than_this_public_prefix,
}

abbrev pub is : Ordering → Ordering → Bool
is Ordering.lt Ordering.lt = true
is Ordering.eq Ordering.eq = true
is Ordering.gt Ordering.gt = true
is _ _ = false

-- With a user prefix that is not longer than the public prefix, all three tell how it compares lexicographically with the
-- public prefix cut to its length.
pub public_prefix-lexicographic :
    (u : Bytes) (seg : Segment)
    → length u ≤ length seg.prefix
    → (fit_public_prefix u seg ≡ is Ordering.eq (lexicographic u (take (length u) seg.prefix)))
      × (less_than_this_public_prefix u seg
          ≡ ok (is Ordering.lt (lexicographic u (take (length u) seg.prefix))))
      × (larger_equal_than_this_public_prefix u seg
          ≡ ok (not (is Ordering.lt (lexicographic u (take (length u) seg.prefix)))))
unfolding fit_public_prefix larger_equal_than_this_public_prefix less_than_this_public_prefix
    prefix_subspan less_than larger_equal
public_prefix-lexicographic u seg h =
    let e = memcmp_comparator-lexicographic u (take (length u) seg.prefix) in
    (ground (arith, e), ground (arith, e), ground (arith, e))
