-- ===== src/SsTable/Lookup.antt =====
-- The lookups and the scan of `sstable` of table/sstable.cc.
use frenzy_kv.Prelude.{
  ℕ, List, [], ◌∷◌, ◌++◌, Bool, true, false, not, ◌&&◌, leb, length, ◌==◌, if◌then◌else◌, Option,
  none, some, Result, ok, err, out_of_bounds, ◌>>=◌, ◌>>◌, assert,
}
use mathlib.Core.List.{reverse}
use frenzy_kv.Bytes.{Bytes}
use frenzy_kv.Bytes.Endian.{BigEndian}
use frenzy_kv.Kv.Key.{SequencedKey, serialize_user_key_as_string}
use frenzy_kv.Kv.Entry.{KvEntry}
use frenzy_kv.Io.Kernel.{Kernel}
use frenzy_kv.Io.Readable.{read_at}
use frenzy_kv.Block.Segment.{Segment, entries_from_block_segment_reverse}
use frenzy_kv.Block.Reader
use frenzy_kv.Block.Reader.{
  Block, block_integrity_check, block_content_was_comprssed, parse_block, meta_data_beg, front,
  first_sentinal, segments_in_single_interval, larger_equal_than_this_first_segment_public_prefix,
  less_than_this_first_segment_public_prefix,
}
use frenzy_kv.Block.Decompress.{approx_block_decompress_size, block_decompress_to}
use frenzy_kv.SsTable.{TableDeps}
use frenzy_kv.SsTable.Reader.{SsTable}

module _ ⦃e : BigEndian⦄ ⦃k : Kernel⦄ (deps : TableDeps) where
  -- The block to read of the bytes of a block. `memory n` is a buffer of `n` bytes.
  unfoldable pub plain_block : (ℕ → Bytes) → Bytes → Result (Option Bytes)
  plain_block memory bs = do
    compressed ← block_content_was_comprssed bs
    if compressed
        then (do
          minimum_buffer_sz ← approx_block_decompress_size bs deps.named
          (result, w) ← block_decompress_to bs (memory minimum_buffer_sz) deps.named
          ok (if result then some w else none))
        else ok (some bs)

  abbrev pub block_of : Option Bytes → Result (Option Block)
  block_of none = ok none
  block_of (some bs) = do b ← parse_block bs; ok (some b)

  unfoldable pub get_block : (ℕ → Bytes) → SsTable → ℕ × ℕ → Result (Option Block)
  get_block memory t (offset, btl) = do
    let bs = read_at btl offset t.file
    assert (length bs == btl)
    fine ← block_integrity_check deps.crc32c bs
    if fine then (do plain ← plain_block memory bs; block_of plain) else ok none

  -- A dereferenced optional.
  abbrev pub value_of : Option Block → Result Block
  value_of none = err out_of_bounds
  value_of (some b) = ok b

  abbrev pub has_value : Option Block → Bool
  has_value none = false
  has_value (some b) = true

  -- The end of `get_segment`: the last block.
  unfoldable pub get_from_last : Bytes → Option Block → Result (Option Segment)
  get_from_last user_key_rep last_block = do
    b ← value_of last_block
    if larger_equal_than_this_first_segment_public_prefix user_key_rep b
        then Reader.get user_key_rep b
        else ok none

  -- The loop over adjacent blocks; the block of an offset is read anew in each round.
  unfoldable pub get_loop :
      (ℕ → Bytes) → SsTable → Bytes → ℕ × ℕ → List (ℕ × ℕ) → Option Block → Result (Option Segment)
  get_loop memory t user_key_rep p0 [] last_block = get_from_last user_key_rep last_block
  get_loop memory t user_key_rep p0 (p1 ∷ ps) last_block = do
    blk0_opt ← get_block memory t p0
    blk1_opt ← get_block memory t p1
    assert (has_value blk0_opt)
    assert (has_value blk1_opt)
    blk0 ← value_of blk0_opt
    blk1 ← value_of blk1_opt
    if larger_equal_than_this_first_segment_public_prefix user_key_rep blk0
          && less_than_this_first_segment_public_prefix user_key_rep blk1
        then Reader.get user_key_rep blk0
        else get_loop memory t user_key_rep p1 ps blk1_opt

  -- The first block, and the loop.
  unfoldable pub get_from_blocks :
      (ℕ → Bytes) → SsTable → Bytes → List (ℕ × ℕ) → Result (Option Segment)
  get_from_blocks memory t user_key_rep [] = err out_of_bounds
  get_from_blocks memory t user_key_rep (p ∷ ps) = do
    last_block ← get_block memory t p
    get_loop memory t user_key_rep p ps last_block

  unfoldable pub get_segment : (ℕ → Bytes) → SequencedKey → SsTable → Result (Option Segment)
  get_segment memory user_key_ignore_seq t =
      let user_key_rep = serialize_user_key_as_string user_key_ignore_seq in
      if not (deps.filter.may_match user_key_rep t.filter_rep)
      then ok none
      else get_from_blocks memory t user_key_rep t.block_offsets

  unfoldable pub first_not_above : ℕ → List KvEntry → Option KvEntry
  first_not_above seq [] = none
  first_not_above seq (x ∷ xs) = if leb x.key.seq seq then some x else first_not_above seq xs

  abbrev pub newest_of_segment : ℕ → Option Segment → Result (Option KvEntry)
  newest_of_segment seq none = ok none
  newest_of_segment seq (some seg) = do
    xs ← entries_from_block_segment_reverse seg
    ok (first_not_above seq xs)

  unfoldable pub get_kv_entry : (ℕ → Bytes) → SequencedKey → SsTable → Result (Option KvEntry)
  get_kv_entry memory user_key t = do
    seg_opt ← get_segment memory user_key t
    newest_of_segment user_key.seq seg_opt

  -- The loops of `get_entries_from_sstable` and `get_entries_from_sstable_at_once`.
  unfoldable pub entries_of_blocks : (ℕ → Bytes) → SsTable → List (ℕ × ℕ) → Result (List KvEntry)
  entries_of_blocks memory t [] = ok []
  entries_of_blocks memory t (p ∷ ps) = do
    blk_opt ← get_block memory t p
    assert (has_value blk_opt)
    blk ← value_of blk_opt
    xs ← Reader.entries blk
    rest ← entries_of_blocks memory t ps
    ok (xs ++ rest)

  unfoldable pub get_entries_from_sstable : (ℕ → Bytes) → SsTable → Result (List KvEntry)
  get_entries_from_sstable memory t = entries_of_blocks memory t t.block_offsets

  unfoldable pub get_entries_from_sstable_at_once :
      (ℕ → Bytes) → SsTable → Bool → Result (List KvEntry)
  get_entries_from_sstable_at_once memory t backwards = do
    xs ← entries_of_blocks memory t t.block_offsets
    ok (if backwards then reverse xs else xs)
