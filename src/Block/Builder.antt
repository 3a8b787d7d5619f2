-- ===== src/Block/Builder.antt =====
-- `block_builder` of persistent/block.cc. The checksum (crc32c) and the compressor, which stands
-- behind the interface `compressor_policy`, are parameters.
use frenzy_kv.Prelude.{
  ℕ, ◌+◌, ◌-◌, ◌%◌, ◌^◌, [], ◌∷◌, ◌++◌, List, length, drop, replicate, leb, ◌==◌, if◌then◌else◌,
  Bool, true, false, not, Option, none, some, ltb,
}
use frenzy_kv.Prelude.{Result, ok, err, exception, assertion, out_of_bounds, ◌>>=◌, ◌>>◌, assert}
use Prim.Native.Nat.{Ordering}
use frenzy_kv.Bytes.{Bytes, overwrite, bytes_eq}
use frenzy_kv.Bytes.Endian.{BigEndian, encode}
use frenzy_kv.Bytes.Order.{memcmp_comparator}
use frenzy_kv.Kv.Key.{SequencedKey, serialize_user_key_as_string}
use frenzy_kv.Kv.Value.{UserValue}
use frenzy_kv.Kv.Entry.{KvEntry}
use frenzy_kv.Block.SegmentBuilder
use frenzy_kv.Block.SegmentBuilder.{SegmentBuilder, new_segment}

abbrev pub btl_size : ℕ
btl_size = 4

-- The options that a block depends on, and the capacity that the library has given the string that
-- `finish` holds some bytes in.
pub record BlockOptions : Type 0 where
  pub capacity : Bytes → ℕ
  pub max_block_segments_number : ℕ
  pub need_compress : Bool

-- `compressor_policy`: what `compress_append_to` and `decompress_append_to` append, what `decompress`
-- makes of a span of some bytes, and the size that it wants; `none` is an error code.
pub record Compressor : Type 0 where
  pub compress : Bytes → Option Bytes
  pub decompress : Bytes → Option Bytes
  pub decompress_into : ℕ → Bytes → Option Bytes
  pub decompressed_minimum_size : Bytes → ℕ

pub record BlockBuilder : Type 0 where
  pub storage : Bytes
  pub current_seg_builder : Option SegmentBuilder
  pub seg_count : ℕ
  pub sbsos : List ℕ
  pub finished : Bool
  pub compressor : Option Compressor
  pub compressed : Bool

abbrev pub new_block_builder : Option Compressor → BlockBuilder
new_block_builder compressor = record {
  storage = replicate btl_size 0;
  current_seg_builder = none;
  seg_count = 0;
  sbsos = [];
  finished = false;
  compressor = compressor;
  compressed = false;
}

abbrev pub is_greater : Ordering → Bool
is_greater Ordering.gt = true
is_greater _ = false

module _ ⦃e : BigEndian⦄ where
  -- A fresh segment for the key, at the end of the storage.
  unfoldable pub open_segment : SequencedKey → BlockBuilder → BlockBuilder × SegmentBuilder
  open_segment key b =
      let (seg, storage) = new_segment b.storage (serialize_user_key_as_string key) in
      (record b { storage = storage; current_seg_builder = some seg }, seg)

  -- "At the very beginning of the building phase" the first segment is opened.
  unfoldable pub ensure_segment : SequencedKey → BlockBuilder → BlockBuilder × SegmentBuilder
  ensure_segment key b = elim b.current_seg_builder [
    | some seg ↦ (b, seg)
    | none ↦
        open_segment key
          (record b { seg_count = b.seg_count + 1; sbsos = b.sbsos ++ btl_size ∷ [] })
  ]

  -- Every `interval_sz` segments the offset of the next one is noted.
  unfoldable pub note_special : ℕ → BlockBuilder → Result BlockBuilder
  note_special interval_sz b =
      if interval_sz == 0
      then err out_of_bounds
      else if (b.seg_count + 1) % interval_sz == 0
      then (do
        assert (bytes_eq (drop (length b.storage - 4) b.storage) (0 ∷ 0 ∷ 0 ∷ 0 ∷ []))
        ok (record b { sbsos = b.sbsos ++ (length b.storage % 2 ^ 32) ∷ [] }))
      else ok b

  -- "Segment end, need a new segment."
  unfoldable pub next_segment :
      BlockOptions → SegmentBuilder → SequencedKey → UserValue → BlockBuilder → Result BlockBuilder
  next_segment opt seg key value b = do
    let closed = (SegmentBuilder.finish seg b.storage).1
    assert (is_greater (memcmp_comparator (serialize_user_key_as_string key) seg.public_prefix))
    noted ←
        note_special opt.max_block_segments_number
          (record b { storage = closed; seg_count = b.seg_count + 1 })
    let (opened, fresh) = open_segment key noted
    let (added, storage) = SegmentBuilder.add fresh key value opened.storage
    assert added
    ok (record opened { storage = storage })

  unfoldable pub add : BlockOptions → SequencedKey → UserValue → BlockBuilder → Result BlockBuilder
  add opt key value b = do
    assert (not b.finished)
    let (ready, seg) = ensure_segment key b
    let (added, storage) = SegmentBuilder.add seg key value ready.storage
    if added then ok (record ready { storage = storage }) else next_segment opt seg key value ready

  unfoldable pub add_entries : BlockOptions → List KvEntry → BlockBuilder → Result BlockBuilder
  add_entries opt [] b = ok b
  add_entries opt (x ∷ xs) b = do b' ← add opt x.key x.value b; add_entries opt xs b'

  unfoldable pub meta_data : List ℕ → Bytes
  meta_data [] = []
  meta_data (sbso ∷ sbsos) = encode 4 sbso ++ meta_data sbsos

  -- "If the last sbso point to exactly the end of data area, then delete it."
  unfoldable pub drop_dangling : ℕ → List ℕ → List ℕ
  drop_dangling end [] = []
  drop_dangling end (s ∷ []) = if s == end then [] else s ∷ []
  drop_dangling end (s ∷ t ∷ rest) = s ∷ drop_dangling end (t ∷ rest)

  -- Compression: the block so far, and whether it was compressed. The content behind the total
  -- length is what is compressed.
  unfoldable pub pack : BlockOptions → Option Compressor → Bytes → Result (Bytes × Bool)
  pack opt compressor storage =
      if opt.need_compress
      then elim compressor [
        | none ↦ ok (storage, false)
        | some c ↦ elim (c.compress (drop btl_size storage)) [
          | none ↦ err exception
          | some packed ↦ ok (replicate btl_size 0 ++ packed, true)
        ]
      ]
      else ok (storage, false)

  -- The end of `finish`: the flag, the checksum of the content and the total length. The span whose
  -- checksum is taken points into the string from before the flag was appended, so that it is dangling
  -- if the string had no room for the flag.
  unfoldable pub seal : (Bytes → ℕ) → (Bytes → ℕ) → Bytes → Bool → Result Bytes
  seal capacity crc32c packed compressed = do
    if ltb (length packed) (capacity packed) then ok tt else err out_of_bounds
    let flagged = packed ++ encode 1 (if compressed then 1 else 0)
    let whole = flagged ++ encode 4 (crc32c (drop btl_size packed))
    assert (leb (length whole) (2 ^ 32 - 1))
    ok (overwrite (encode 4 (length whole)) whole)

  -- The finished block. The builder is not used again: its storage is moved out.
  unfoldable pub finish : BlockOptions → (Bytes → ℕ) → BlockBuilder → Result Bytes
  finish opt crc32c b = do
    assert (not b.finished)
    elim b.current_seg_builder [
      | none ↦ err assertion
      | some seg ↦ (do
        assert (not (b.seg_count == 0))
        let closed = (SegmentBuilder.finish seg b.storage).1
        let sbsos = drop_dangling (length closed) b.sbsos
        let content = (closed ++ meta_data sbsos) ++ encode 2 (length sbsos % 2 ^ 16)
        (packed, compressed) ← pack opt b.compressor content
        seal opt.capacity crc32c packed compressed)
    ]
