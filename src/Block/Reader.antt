-- ===== src/Block/Reader.antt =====
-- `block` of persistent/block.cc and the functions on a block's storage. Pointers into the storage
-- are offsets from its first byte.
use frenzy_kv.Prelude.{
  ℕ, zero, suc, ◌+◌, ◌-◌, ◌*◌, [], ◌∷◌, ◌++◌, List, length, take, ltb, ◌==◌, if◌then◌else◌, Bool,
  true, false, not, ◌||◌, Option, none, some,
}
use frenzy_kv.Prelude.{Result, ok, err, stuck, out_of_bounds, ◌>>=◌, ◌>>◌, assert, throw_unless}
use Prim.Native.Nat.{Ordering}
use frenzy_kv.Bytes.{Bytes, read, advance}
use frenzy_kv.Bytes.Endian.{BigEndian, decode}
use frenzy_kv.Bytes.Order.{memcmp_comparator}
use frenzy_kv.Kv.Entry.{KvEntry}
use frenzy_kv.Block.Segment.{
  Segment, ParseResult, success, read_at, parse_segment, entries_from_block_segment,
  fit_public_prefix,
}

pub record Block : Type 0 where
  pub storage : Bytes
  pub special_segs : List ℕ
  pub first_seg_public_prefix : Bytes

-- A pointer moved back.
unfoldable pub back : ℕ → ℕ → Result ℕ
back p n = if ltb p n then err out_of_bounds else ok (p - n)

abbrev pub is_success : ParseResult → Bool
is_success success = true
is_success _ = false

unfoldable pub larger_equal : Bytes → Bytes → Bool
larger_equal a b = elim (memcmp_comparator a b) [ Ordering.lt ↦ false | _ ↦ true ]

unfoldable pub less_than : Bytes → Bytes → Bool
less_than a b = elim (memcmp_comparator a b) [ Ordering.lt ↦ true | _ ↦ false ]

-- `m_prefix.subspan(0, n)`
unfoldable pub prefix_subspan : ℕ → Segment → Result Bytes
prefix_subspan n seg =
    if ltb (length seg.prefix) n then err out_of_bounds else ok (take n seg.prefix)

unfoldable pub larger_equal_than_this_public_prefix : Bytes → Segment → Result Bool
larger_equal_than_this_public_prefix user_prefix seg = do
  p ← prefix_subspan (length user_prefix) seg
  ok (larger_equal user_prefix p)

unfoldable pub less_than_this_public_prefix : Bytes → Segment → Result Bool
less_than_this_public_prefix user_prefix seg = do
  p ← prefix_subspan (length user_prefix) seg
  ok (less_than user_prefix p)

unfoldable pub larger_equal_than_this_first_segment_public_prefix : Bytes → Block → Bool
larger_equal_than_this_first_segment_public_prefix cb b = larger_equal cb b.first_seg_public_prefix

unfoldable pub less_than_this_first_segment_public_prefix : Bytes → Block → Bool
less_than_this_first_segment_public_prefix cb b = less_than cb b.first_seg_public_prefix

module _ ⦃e : BigEndian⦄ where
  unfoldable pub crc32_beg : Bytes → Result ℕ
  crc32_beg storage = do btl ← read 4 storage; back (decode btl) 4

  unfoldable pub wc_beg : Bytes → Result ℕ
  wc_beg storage = do p ← crc32_beg storage; back p 1

  unfoldable pub wc_value : Bytes → Result ℕ
  wc_value storage = do p ← wc_beg storage; b ← read_at p 1 storage; ok (decode b)

  -- From behind the total length up to the flag.
  unfoldable pub undecompressed_block_content : Bytes → Result Bytes
  undecompressed_block_content storage = do p ← wc_beg storage; n ← back p 4; read_at 4 n storage

  unfoldable pub embeded_crc32_value : Bytes → Result ℕ
  embeded_crc32_value storage = do p ← crc32_beg storage; b ← read_at p 4 storage; ok (decode b)

  unfoldable pub block_integrity_check : (Bytes → ℕ) → Bytes → Result Bool
  block_integrity_check crc32c storage = do
    bc ← undecompressed_block_content storage
    ecrc32 ← embeded_crc32_value storage
    ok (crc32c bc == ecrc32)

  unfoldable pub block_content_was_comprssed : Bytes → Result Bool
  block_content_was_comprssed storage = do
    wc ← wc_value storage
    assert (wc == 1 || wc == 0)
    ok (wc == 1)

  unfoldable pub btl_value : Bytes → Result ℕ
  btl_value storage = do b ← read 4 storage; assert (not (decode b == 0)); ok (decode b)

  unfoldable pub nsbs_beg : Bytes → Result ℕ
  nsbs_beg s = do btl ← btl_value s; back btl 7

  unfoldable pub nsbs_value : Bytes → Result ℕ
  nsbs_value s = do p ← nsbs_beg s; b ← read_at p 2 s; ok (decode b)

  unfoldable pub meta_data_beg : Bytes → Result ℕ
  meta_data_beg s = do nsbs ← nsbs_value s; p ← nsbs_beg s; back p (nsbs * 4)

  -- The loop of `parse_meta_data`, over the offsets left. The pointers that it notes are checked
  -- when they are read through.
  unfoldable pub sbso_loop : ℕ → ℕ → Bytes → Result (List ℕ)
  sbso_loop zero sbso_cur s = ok []
  sbso_loop (suc n) sbso_cur s = do
    b ← read_at sbso_cur 4 s
    rest ← sbso_loop n (sbso_cur + 4) s
    ok (decode b ∷ rest)

  -- The segment at an offset, in the span up to `sentinal`.
  unfoldable pub segment_at : ℕ → ℕ → Bytes → Result Segment
  segment_at current sentinal s = do p ← advance current s; parse_segment (sentinal - current) p

  -- `segments_in_single_interval(from, sentinal)`, run to its end: a segment that does not parse as
  -- a whole ends it. Every segment has a byte at least, so a round for each byte is enough.
  unfoldable pub interval_loop : ℕ → ℕ → ℕ → Bytes → Result (List Segment)
  interval_loop zero current sentinal s = err stuck
  interval_loop (suc fuel) current sentinal s = elim (ltb current sentinal) [
    | false ↦ ok []
    | true ↦ (do
      seg ← segment_at current sentinal s
      elim (is_success seg.parse_result) [
        | false ↦ ok []
        | true ↦ (do
          rest ← interval_loop fuel (current + length seg.storage) sentinal s
          ok (seg ∷ rest))
      ])
  ]

  unfoldable pub segments_in_single_interval : ℕ → ℕ → Bytes → Result (List Segment)
  segments_in_single_interval from sentinal s = interval_loop (suc (length s)) from sentinal s

  -- The same generator, read up to the first segment that fits.
  unfoldable pub find_loop : ℕ → Bytes → ℕ → ℕ → Bytes → Result (Option Segment)
  find_loop zero user_prefix current sentinal s = err stuck
  find_loop (suc fuel) user_prefix current sentinal s = elim (ltb current sentinal) [
    | false ↦ ok none
    | true ↦ (do
      seg ← segment_at current sentinal s
      elim (is_success seg.parse_result) [
        | false ↦ ok none
        | true ↦ elim (fit_public_prefix user_prefix seg) [
          | true ↦ ok (some seg)
          | false ↦ find_loop fuel user_prefix (current + length seg.storage) sentinal s
        ]
      ])
  ]

  unfoldable pub find_in_interval : Bytes → ℕ → ℕ → Bytes → Result (Option Segment)
  find_in_interval user_prefix from sentinal s =
      find_loop (suc (length s)) user_prefix from sentinal s

  -- `segments()`, run to its end, over the data area up to `sentinal`.
  unfoldable pub segments_loop : ℕ → ℕ → ℕ → Bytes → Result (List Segment)
  segments_loop zero current sentinal s = err stuck
  segments_loop (suc fuel) current sentinal s = elim (ltb current sentinal) [
    | false ↦ ok []
    | true ↦ (do
      seg ← segment_at current sentinal s
      assert (is_success seg.parse_result)
      rest ← segments_loop fuel (current + length seg.storage) sentinal s
      ok (seg ∷ rest))
  ]

  unfoldable pub parse_meta_data : Bytes → Result (List ℕ)
  parse_meta_data s = do
    sbso_cur ← meta_data_beg s
    nsbs ← nsbs_value s
    throw_unless (not (nsbs == 0))
    sbso_loop nsbs sbso_cur s

  -- The end of the first interval.
  unfoldable pub first_sentinal : List ℕ → ℕ → ℕ
  first_sentinal (a ∷ b ∷ rest) potential_end = b
  first_sentinal _ potential_end = potential_end

  unfoldable pub front : List ℕ → Result ℕ
  front [] = err out_of_bounds
  front (a ∷ rest) = ok a

  -- The constructor. The first segment of the first interval is read through the generator's
  -- iterator, which is at its end if that segment is not whole.
  unfoldable pub parse_block : Bytes → Result Block
  parse_block s = do
    special_segs ← parse_meta_data s
    potential_end ← meta_data_beg s
    from ← front special_segs
    let sentinal = first_sentinal special_segs potential_end
    if not (ltb from sentinal) then err out_of_bounds else do
      seg ← segment_at from sentinal s
      if not (is_success seg.parse_result)
          then err out_of_bounds
          else ok (record {
            storage = s;
            special_segs = special_segs;
            first_seg_public_prefix = seg.prefix;
          })

  unfoldable pub segments : Block → Result (List Segment)
  segments b = do
    current ← front b.special_segs
    sentinal ← meta_data_beg b.storage
    segments_loop (suc (length b.storage)) current sentinal b.storage

  unfoldable pub entries_of_segments : List Segment → Result (List KvEntry)
  entries_of_segments [] = ok []
  entries_of_segments (seg ∷ segs) = do
    xs ← entries_from_block_segment seg
    rest ← entries_of_segments segs
    ok (xs ++ rest)

  unfoldable pub entries : Block → Result (List KvEntry)
  entries b = do segs ← segments b; entries_of_segments segs

  -- Whether the key lies in the interval between two special segments; the second comparison is
  -- made only if the first one holds.
  unfoldable pub shot : Bytes → Segment → Segment → Result Bool
  shot user_prefix seg1 seg2 = do
    above ← larger_equal_than_this_public_prefix user_prefix seg1
    if above then less_than_this_public_prefix user_prefix seg2 else ok false

  -- The end of `get`: the interval behind the last special segment.
  unfoldable pub get_last : Bytes → ℕ → Bytes → Result (Option Segment)
  get_last user_prefix last_segp s = do
    last_seg ← segment_at last_segp (length s) s
    above ← larger_equal_than_this_public_prefix user_prefix last_seg
    if above
        then (do sentinal ← meta_data_beg s; find_in_interval user_prefix last_segp sentinal s)
        else ok none

  -- The loop of `get` over adjacent special segments.
  unfoldable pub get_loop : Bytes → ℕ → List ℕ → Bytes → Result (Option Segment)
  get_loop user_prefix seg1p [] s = get_last user_prefix seg1p s
  get_loop user_prefix seg1p (seg2p ∷ rest) s = do
    seg1 ← segment_at seg1p (length s) s
    seg2 ← segment_at seg2p (length s) s
    here ← shot user_prefix seg1 seg2
    found ← (if here then find_in_interval user_prefix seg1p seg2p s else ok none)
    elim found [ some seg ↦ ok (some seg) | none ↦ get_loop user_prefix seg2p rest s ]

  unfoldable pub get : Bytes → Block → Result (Option Segment)
  get user_prefix b =
      if not (larger_equal_than_this_first_segment_public_prefix user_prefix b)
      then ok none
      else elim b.special_segs [
        | [] ↦ err out_of_bounds
        | p ∷ rest ↦ get_loop user_prefix p rest b.storage
      ]
