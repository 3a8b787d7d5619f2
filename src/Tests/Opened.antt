-- ===== src/Tests/Opened.antt =====
-- A table that the builder has written, as it is opened.
use frenzy_kv.Prelude.{◌≡◌, refl, [], ◌∷◌, true, ok, some}
use frenzy_kv.Bytes.{Bytes}
use frenzy_kv.Io.Readable.{open_readable}
use frenzy_kv.SsTable.Reader.{SsTable, make, first_user_key_without_seq, last_user_key_without_seq}
use frenzy_kv.SsTable.Lookup.{get_kv_entry}
use frenzy_kv.Kv.Key.{parse_key}
use frenzy_kv.Tests.{big_endian}
use frenzy_kv.Tests.Files.{kernel, zeros}
use frenzy_kv.Tests.Tables.{deps, older}

-- The table has one entry, with the key "a".
abbrev pub table_disk : Bytes
table_disk =
    0 ∷ 0 ∷ 0 ∷ 39 ∷ 9 ∷ 0 ∷ 3 ∷ 0 ∷ 1 ∷ 97 ∷ 0 ∷ 0 ∷ 0 ∷ 10 ∷ 0 ∷ 0 ∷ 0 ∷ 3 ∷ 0 ∷ 0 ∷ 0 ∷ 2 ∷ 1 ∷ 2
    ∷ 0 ∷ 0 ∷ 0 ∷ 0 ∷ 0 ∷ 0 ∷ 0 ∷ 4 ∷ 0 ∷ 1 ∷ 1 ∷ 0 ∷ 0 ∷ 0 ∷ 7 ∷ 0 ∷ 0 ∷ 0 ∷ 109 ∷ 0 ∷ 9 ∷ 0 ∷ 7
    ∷ 108 ∷ 97 ∷ 115 ∷ 116 ∷ 95 ∷ 117 ∷ 107 ∷ 0 ∷ 0 ∷ 0 ∷ 11 ∷ 0 ∷ 0 ∷ 0 ∷ 0 ∷ 0 ∷ 0 ∷ 0 ∷ 3 ∷ 0 ∷ 1
    ∷ 97 ∷ 0 ∷ 0 ∷ 0 ∷ 0 ∷ 0 ∷ 10 ∷ 0 ∷ 8 ∷ 102 ∷ 105 ∷ 114 ∷ 115 ∷ 116 ∷ 95 ∷ 117 ∷ 107 ∷ 0 ∷ 0 ∷ 0
    ∷ 11 ∷ 0 ∷ 0 ∷ 0 ∷ 0 ∷ 0 ∷ 0 ∷ 0 ∷ 3 ∷ 0 ∷ 1 ∷ 97 ∷ 0 ∷ 0 ∷ 0 ∷ 0 ∷ 0 ∷ 14 ∷ 0 ∷ 12 ∷ 98 ∷ 108
    ∷ 111 ∷ 111 ∷ 109 ∷ 95 ∷ 102 ∷ 105 ∷ 108 ∷ 116 ∷ 101 ∷ 114 ∷ 0 ∷ 0 ∷ 0 ∷ 9 ∷ 0 ∷ 0 ∷ 0 ∷ 0 ∷ 0
    ∷ 0 ∷ 0 ∷ 1 ∷ 1 ∷ 0 ∷ 0 ∷ 0 ∷ 0 ∷ 0 ∷ 0 ∷ 0 ∷ 4 ∷ 0 ∷ 1 ∷ 0 ∷ 0 ∷ 0 ∷ 0 ∷ 7 ∷ 0 ∷ 0 ∷ 0 ∷ 0 ∷ 0
    ∷ 0 ∷ 0 ∷ 39 ∷ 71 ∷ 214 ∷ 221 ∷ 195 ∷ []

abbrev pub one_table : SsTable
one_table = record {
  file = open_readable table_disk;
  meta_data_parsed = true;
  filter_rep = 1 ∷ [];
  first_uk = 0 ∷ 1 ∷ 97 ∷ [];
  last_uk = 0 ∷ 1 ∷ 97 ∷ [];
  block_offsets = (0, 39) ∷ [];
}

pub make-table_disk : make deps (open_readable table_disk) ≡ ok one_table
unfolding frenzy_kv.Bytes.read frenzy_kv.Bytes.advance frenzy_kv.Bytes.overwrite
    frenzy_kv.Bytes.within frenzy_kv.Bytes.bytes_eq frenzy_kv.Io.Readable.open_readable
    frenzy_kv.Io.Readable.read_at frenzy_kv.SsTable.Reader.unparsed
    frenzy_kv.SsTable.Reader.new_sstable frenzy_kv.SsTable.Reader.read_into
    frenzy_kv.SsTable.Reader.meta_value frenzy_kv.SsTable.Reader.note_segment
    frenzy_kv.SsTable.Reader.note_segments frenzy_kv.SsTable.Reader.first_interval
    frenzy_kv.SsTable.Reader.btl_value_impl frenzy_kv.SsTable.Reader.offsets_loop
    frenzy_kv.SsTable.Reader.generate_block_offsets_impl frenzy_kv.SsTable.Reader.parse_meta_block
    frenzy_kv.SsTable.Reader.parse_from frenzy_kv.SsTable.Reader.parse_meta_data
    frenzy_kv.SsTable.Reader.make frenzy_kv.Block.Reader.back frenzy_kv.Block.Reader.crc32_beg
    frenzy_kv.Block.Reader.wc_beg frenzy_kv.Block.Reader.undecompressed_block_content
    frenzy_kv.Block.Reader.embeded_crc32_value frenzy_kv.Block.Reader.block_integrity_check
    frenzy_kv.Block.Reader.btl_value frenzy_kv.Block.Reader.nsbs_beg
    frenzy_kv.Block.Reader.nsbs_value frenzy_kv.Block.Reader.meta_data_beg
    frenzy_kv.Block.Reader.sbso_loop frenzy_kv.Block.Reader.segment_at
    frenzy_kv.Block.Reader.interval_loop frenzy_kv.Block.Reader.segments_in_single_interval
    frenzy_kv.Block.Reader.parse_meta_data frenzy_kv.Block.Reader.first_sentinal
    frenzy_kv.Block.Reader.front frenzy_kv.Block.Reader.parse_block frenzy_kv.Block.Segment.read_at
    frenzy_kv.Block.Segment.filled_with_zero frenzy_kv.Block.Segment.consumed_completely
    frenzy_kv.Block.Segment.items_loop frenzy_kv.Block.Segment.parse_end
    frenzy_kv.Block.Segment.parse_segment frenzy_kv.Kv.Value.value frenzy_kv.Kv.Value.parse_bytes
    frenzy_kv.Kv.Value.parse frenzy_kv.Kv.Key.serialized_user_key_bytes_size
    frenzy_kv.Kv.Key.serialize_user_key_as_string
make-table_disk = refl

pub get_kv_entry-one_table :
    get_kv_entry deps zeros (record { seq = 8; user_key = 97 ∷ [] }) one_table ≡ ok (some older)
unfolding frenzy_kv.Bytes.read frenzy_kv.Bytes.advance frenzy_kv.Bytes.overwrite
    frenzy_kv.Bytes.within frenzy_kv.Bytes.bytes_eq frenzy_kv.Io.Readable.open_readable
    frenzy_kv.Io.Readable.read_at frenzy_kv.SsTable.Lookup.plain_block
    frenzy_kv.SsTable.Lookup.get_block frenzy_kv.SsTable.Lookup.get_from_last
    frenzy_kv.SsTable.Lookup.get_loop frenzy_kv.SsTable.Lookup.get_from_blocks
    frenzy_kv.SsTable.Lookup.get_segment frenzy_kv.SsTable.Lookup.first_not_above
    frenzy_kv.SsTable.Lookup.get_kv_entry frenzy_kv.Block.Reader.back
    frenzy_kv.Block.Reader.larger_equal frenzy_kv.Block.Reader.prefix_subspan
    frenzy_kv.Block.Reader.larger_equal_than_this_public_prefix
    frenzy_kv.Block.Reader.larger_equal_than_this_first_segment_public_prefix
    frenzy_kv.Block.Reader.crc32_beg frenzy_kv.Block.Reader.wc_beg frenzy_kv.Block.Reader.wc_value
    frenzy_kv.Block.Reader.undecompressed_block_content frenzy_kv.Block.Reader.embeded_crc32_value
    frenzy_kv.Block.Reader.block_integrity_check frenzy_kv.Block.Reader.block_content_was_comprssed
    frenzy_kv.Block.Reader.btl_value frenzy_kv.Block.Reader.nsbs_beg
    frenzy_kv.Block.Reader.nsbs_value frenzy_kv.Block.Reader.meta_data_beg
    frenzy_kv.Block.Reader.sbso_loop frenzy_kv.Block.Reader.segment_at
    frenzy_kv.Block.Reader.find_loop frenzy_kv.Block.Reader.find_in_interval
    frenzy_kv.Block.Reader.parse_meta_data frenzy_kv.Block.Reader.first_sentinal
    frenzy_kv.Block.Reader.front frenzy_kv.Block.Reader.parse_block frenzy_kv.Block.Reader.get_last
    frenzy_kv.Block.Reader.get_loop frenzy_kv.Block.Reader.get frenzy_kv.Block.Segment.read_at
    frenzy_kv.Block.Segment.filled_with_zero frenzy_kv.Block.Segment.consumed_completely
    frenzy_kv.Block.Segment.items_loop frenzy_kv.Block.Segment.parse_end
    frenzy_kv.Block.Segment.parse_segment frenzy_kv.Block.Segment.entry_of_item
    frenzy_kv.Block.Segment.entries_of_items
    frenzy_kv.Block.Segment.entries_from_block_segment_reverse
    frenzy_kv.Block.Segment.fit_public_prefix
    frenzy_kv.Block.Decompress.approx_block_decompress_size
    frenzy_kv.Block.Decompress.into_destination frenzy_kv.Block.Decompress.block_decompress_to
    frenzy_kv.Kv.Value.parse_bytes frenzy_kv.Kv.Value.parse
    frenzy_kv.Kv.Key.serialized_user_key_bytes_size frenzy_kv.Kv.Key.serialize_user_key_as_string
    frenzy_kv.Bytes.Order.memcmp_comparator frenzy_kv.Bytes.Order.memcmp
    frenzy_kv.Kv.Entry.serialized_user_value_from_value_len
get_kv_entry-one_table = refl

pub first_user_key_without_seq-one_table :
    first_user_key_without_seq one_table ≡ ok (record { seq = 0; user_key = 97 ∷ [] })
unfolding first_user_key_without_seq parse_key frenzy_kv.Bytes.read frenzy_kv.Bytes.advance
first_user_key_without_seq-one_table = refl

pub last_user_key_without_seq-one_table :
    last_user_key_without_seq one_table ≡ ok (record { seq = 0; user_key = 97 ∷ [] })
unfolding last_user_key_without_seq parse_key frenzy_kv.Bytes.read frenzy_kv.Bytes.advance
last_user_key_without_seq-one_table = refl
