-- ===== src/SsTable/Reader.antt =====
-- `sstable` of include/frenzykv/table/sstable.h and table/sstable.cc.
use frenzy_kv.Prelude.{
  ℕ, zero, suc, ◌+◌, ◌-◌, ◌^◌, List, [], ◌∷◌, ◌++◌, Bool, true, false, not, ◌&&◌, ◌||◌, ltb, leb,
  length, take, drop, replicate, ◌==◌, if◌then◌else◌, Option, none, some, Result, ok, err, stuck,
  out_of_bounds, ◌>>=◌, ◌>>◌, assert, throw_unless,
}
use frenzy_kv.Bytes.{Bytes, bytes_eq, overwrite, advance}
use frenzy_kv.Bytes.Endian.{BigEndian, decode}
use frenzy_kv.Kv.Key.{SequencedKey, serialize_user_key_as_string, parse_key, key_less}
use frenzy_kv.Kv.Value
use frenzy_kv.Io.Kernel.{Kernel}
use frenzy_kv.Io.Readable.{Readable, read_at}
use frenzy_kv.Block.Builder.{Compressor}
use frenzy_kv.Block.Segment.{Segment}
use frenzy_kv.Block.Reader.{
  Block, block_integrity_check, parse_block, meta_data_beg, front, first_sentinal,
  segments_in_single_interval,
}
use frenzy_kv.SsTable.{TableDeps, magic_number, last_uk_name, first_uk_name, bloom_filter_name}

pub record SsTable : Type 0 where
  pub file : Readable
  pub meta_data_parsed : Bool
  pub filter_rep : Bytes
  pub first_uk : Bytes
  pub last_uk : Bytes
  pub block_offsets : List (ℕ × ℕ)

-- The members before the meta data are parsed.
unfoldable pub unparsed : Readable → SsTable
unparsed file = record {
  file = file;
  meta_data_parsed = false;
  filter_rep = [];
  first_uk = [];
  last_uk = [];
  block_offsets = [];
}

abbrev pub is_some : Option Compressor → Bool
is_some none = false
is_some (some c) = true

-- Either constructor. It reads the name of its file, so that it has one, and there is a filter. A
-- compressor is asserted.
unfoldable pub new_sstable : TableDeps → Readable → Result SsTable
new_sstable deps file = assert (is_some deps.named) >> ok (unparsed file)

-- A difference of two `size_t`.
abbrev pub size_minus : ℕ → ℕ → ℕ
size_minus a b = if ltb a b then (a + 2 ^ 64) - b else a - b

-- A string is not made longer than `max_size()`.
abbrev pub max_size : ℕ
max_size = 2 ^ 63 - 1

module _ ⦃k : Kernel⦄ where
  -- A read into a string of `n` zeros.
  unfoldable pub read_into : ℕ → ℕ → Readable → Bytes
  read_into n offset file = overwrite (read_at n offset file) (replicate n 0)

module _ ⦃e : BigEndian⦄ where
  -- The value of the only entry of a segment of the meta block.
  unfoldable pub meta_value : Segment → Result Bytes
  meta_value seg = elim seg.items [
    | [] ↦ err out_of_bounds
    | item ∷ items ↦ (do serialized ← advance 4 item; v ← Value.parse serialized; Value.value v)
  ]

  abbrev pub name_rep : Bytes → Bytes
  name_rep name = serialize_user_key_as_string (record { seq = 0; user_key = name })

  -- One round over the segments of the meta block.
  unfoldable pub note_segment : Segment → SsTable → Result SsTable
  note_segment seg t =
      if bytes_eq seg.prefix (name_rep bloom_filter_name)
      then (do uv ← meta_value seg; ok (record t { filter_rep = uv }))
      else if bytes_eq seg.prefix (name_rep last_uk_name)
      then (do uv ← meta_value seg; ok (record t { last_uk = uv }))
      else if bytes_eq seg.prefix (name_rep first_uk_name)
      then (do uv ← meta_value seg; ok (record t { first_uk = uv }))
      else ok t

  unfoldable pub note_segments : List Segment → SsTable → Result SsTable
  note_segments [] t = ok t
  note_segments (seg ∷ segs) t = note_segment seg t >>= λ u. note_segments segs u

  -- `segments_in_single_interval()` with no arguments.
  unfoldable pub first_interval : Block → Result (List Segment)
  first_interval b = do
    potential_end ← meta_data_beg b.storage
    from ← front b.special_segs
    segments_in_single_interval from (first_sentinal b.special_segs potential_end) b.storage

module _ ⦃e : BigEndian⦄ ⦃k : Kernel⦄ where
  unfoldable pub btl_value_impl : ℕ → SsTable → ℕ
  btl_value_impl offset t =
      if length (read_at 4 offset t.file) == 0 then 0 else decode (read_into 4 offset t.file)

  -- Whether the offsets reach the meta block, and the offsets.
  unfoldable pub offsets_loop : ℕ → ℕ → ℕ → SsTable → Result (Bool × List (ℕ × ℕ))
  offsets_loop zero offset mbo t = err stuck
  offsets_loop (suc fuel) offset mbo t = elim (ltb offset mbo) [
    | false ↦ ok (true, [])
    | true ↦ elim (btl_value_impl offset t == 0) [
      | true ↦ ok (false, [])
      | false ↦ (do
        (result, later) ← offsets_loop fuel (offset + btl_value_impl offset t) mbo t
        ok (result, (offset, btl_value_impl offset t) ∷ later))
    ]
  ]

  -- Every round moves on by a byte at least.
  unfoldable pub generate_block_offsets_impl : ℕ → SsTable → Result (Bool × SsTable)
  generate_block_offsets_impl mbo t = do
    (result, offsets) ← offsets_loop (suc mbo) 0 mbo t
    ok (result, record t { block_offsets = t.block_offsets ++ offsets })

  module _ (deps : TableDeps) where
    unfoldable pub parse_meta_block : ℕ → SsTable → Result SsTable
    parse_meta_block mbo t = do
      let filesz = t.file.filesize
      let size = size_minus (size_minus (size_minus filesz mbo) 8) 4
      throw_unless (leb size max_size)
      let sp = read_into size mbo t.file
      fine ← block_integrity_check deps.crc32c sp
      assert fine
      meta_block ← parse_block sp
      assert (length meta_block.special_segs == 1)
      segs ← first_interval meta_block
      noted ← note_segments segs t
      assert (not (length noted.filter_rep == 0))
      assert (not (length noted.last_uk == 0))
      assert (not (length noted.first_uk == 0))
      ok noted

    -- The part of `parse_meta_data` behind the check of the magic number.
    unfoldable pub parse_from : ℕ → SsTable → Result (Bool × SsTable)
    parse_from mbo t = do
      noted ← parse_meta_block mbo t
      (result, u) ← generate_block_offsets_impl mbo noted
      ok (result, if result then record u { meta_data_parsed = true } else u)

    unfoldable pub parse_meta_data : SsTable → Result (Bool × SsTable)
    parse_meta_data t =
        let footer = read_into 12 (size_minus t.file.filesize 12) t.file in
        let mbo = decode (take 8 footer) in
        let magic_num = decode (take 4 (drop 8 footer)) in
        if t.meta_data_parsed
        then ok (true, t)
        else if not (magic_number == magic_num)
        then ok (false, t)
        else parse_from mbo t

    unfoldable pub make : Readable → Result SsTable
    make file = do
      created ← new_sstable deps file
      (parse_ret, t) ← parse_meta_data created
      assert parse_ret
      ok t

module _ ⦃e : BigEndian⦄ where
  unfoldable pub last_user_key_without_seq : SsTable → Result SequencedKey
  last_user_key_without_seq t = parse_key (t.last_uk ++ replicate 8 0)

  unfoldable pub first_user_key_without_seq : SsTable → Result SequencedKey
  first_user_key_without_seq t = parse_key (t.first_uk ++ replicate 8 0)

  unfoldable pub disjoint : SsTable → SsTable → Result Bool
  disjoint a b = do
    al ← first_user_key_without_seq a
    ar ← last_user_key_without_seq a
    bl ← first_user_key_without_seq b
    br ← last_user_key_without_seq b
    ok ((key_less al bl && key_less ar bl) || (key_less bl al && key_less br al))

  unfoldable pub overlapped : SsTable → SsTable → Result Bool
  overlapped a b = do apart ← disjoint a b; ok (not apart)

  unfoldable pub less : SsTable → SsTable → Result Bool
  less a b = do
    al ← first_user_key_without_seq a
    bl ← first_user_key_without_seq b
    ok (key_less al bl)
