-- ===== src/Tests/Tables.antt =====
-- Examples of the theorems on whole blocks and tables.
use frenzy_kv.Prelude.{
  ℕ, ◌≤◌, ◌≡◌, ◌+◌, ◌-◌, leb, if◌then◌else◌, inl, refl, arith, [], ◌∷◌, All, true, length, some,
  none, ok, ◌>>=◌,
}
use frenzy_kv.Bytes.{Bytes, string_less}
use frenzy_kv.Kv.Key.{key_less, logic_lexicographic_simulate_less}
use frenzy_kv.Kv.Value.{of_string, tomb_stone}
use frenzy_kv.Kv.Value
use frenzy_kv.Kv.Entry.{KvEntry, entry_less}
use frenzy_kv.Kv.RoundTrip.{stored}
use frenzy_kv.Io.Readable.{open_readable}
use frenzy_kv.Block.Builder.{BlockOptions, new_block_builder, add_entries}
use frenzy_kv.Block.Builder
use frenzy_kv.Block.Steps.{IsBlockable}
use frenzy_kv.Block.Reader.{Block, parse_block, entries, block_integrity_check}
use frenzy_kv.Block.RoundTrip.{Lossless, entries-finish}
use frenzy_kv.Block.Builder.{Compressor}
use frenzy_kv.Compressor.{get_compressor, zstd_name}
use frenzy_kv.Compressor.Zstd.{ZstdLib}
use frenzy_kv.Compressor.Lossless.{IsDocumented, decompress_into-get_compressor}
use frenzy_kv.Compaction.{is_sorted}
use frenzy_kv.SsTable.{TableDeps}
use frenzy_kv.SsTable.Limits.{Bounds, FitsTable}
use frenzy_kv.SsTable.Builder.{SsTableBuilder}
use frenzy_kv.SsTable.Reader.{SsTable, make}
use frenzy_kv.SsTable.Lookup.{get_entries_from_sstable}
use frenzy_kv.SsTable.RoundTrip.{build_table, get_entries-build_table}
use frenzy_kv.Tests.{big_endian}
use frenzy_kv.Tests.Blocks.{compressor}
use frenzy_kv.Tests.Files.{kernel, zeros, length-zeros, empty_file, eight-IsValid}
use frenzy_kv.Version.Descriptor.RoundTrip.{Buffered}
use frenzy_kv.Io.Writable.Content.{contents}
use frenzy_kv.Io.Buffer.{valid_span}
use frenzy_kv.Block.Building.{weight, Ascends}
use frenzy_kv.SsTable.Sorted.{is_sorted-Ascends}

-- A checksum that is the same for all bytes.
abbrev seven : Bytes → ℕ
seven bytes = 7

abbrev one_more : Bytes → ℕ
one_more bytes = length bytes + 1

abbrev packing : BlockOptions
packing = record { capacity = one_more; max_block_segments_number = 8; need_compress = true }

-- Two versions of a key, and another key that was deleted.
abbrev pub older : KvEntry
older = record { key = record { seq = 3; user_key = 97 ∷ [] }; value = of_string (1 ∷ 2 ∷ []) }

abbrev newer : KvEntry
newer = record { key = record { seq = 5; user_key = 97 ∷ [] }; value = of_string (4 ∷ []) }

abbrev deleted : KvEntry
deleted = record { key = record { seq = 4; user_key = 98 ∷ [] }; value = tomb_stone }

one_IsBlockable :
    (x : KvEntry)
    → length x.key.user_key ≤ 2
    → x.key.seq ≤ 8
    → Value.serialized_bytes_size x.value ≤ 8
    → IsBlockable x
one_IsBlockable x k s v = record {
  key_fits = omega (arith, k);
  member = record { same_key = refl; seq_fits = omega (arith, s); item_fits = omega (arith, v) };
}

all_IsBlockable : All IsBlockable (older ∷ newer ∷ deleted ∷ [])
unfolding Value.serialized_bytes_size Value.size Value.is_tomb_stone
all_IsBlockable = (
  one_IsBlockable older (omega arith) (omega arith) (omega arith),
  (
    one_IsBlockable newer (omega arith) (omega arith) (omega arith),
    (one_IsBlockable deleted (omega arith) (omega arith) (omega arith), tt),
  ),
)

-- Every block is written at once, and the filter has a byte for each key.
abbrev pub deps : TableDeps
deps = record {
  opt = packing;
  block_size = 20;
  zstd = some compressor;
  named = some compressor;
  filter = record { append_new_filter = λ key dst. 1 ∷ dst; may_match = λ key rep. true };
  crc32c = seven;
}

compressor-Lossless : Lossless 1000 (some compressor)
unfolding Lossless
compressor-Lossless content small = (
  9 ∷ content,
  record {
    compressed = refl;
    decompressed = refl;
    room = omega arith;
    into = λ n h. ground (arith, h);
    short = omega (arith, small);
  },
)

bounds : Bounds deps 1000 1
bounds = record {
  sealable = record { roomy = λ bytes. omega arith; lossless = compressor-Lossless };
  segments = omega arith;
  grows = λ key dst. (omega arith, omega arith);
}

fits : FitsTable 1000 4096 (older ∷ newer ∷ deleted ∷ [])
unfolding weight Value.serialized_bytes_size Value.size Value.is_tomb_stone
fits = record { light = omega arith; room = omega arith; few = omega arith; below = omega arith }

entries_sorted : is_sorted (older ∷ newer ∷ deleted ∷ []) ≡ true
unfolding is_sorted entry_less key_less logic_lexicographic_simulate_less string_less
entries_sorted = refl

file_IsBuffered : Buffered empty_file
file_IsBuffered = record { valid = eight-IsValid; buffered = refl }

file_new : contents empty_file ≡ []
unfolding contents valid_span
file_new = refl

get_entries-build_table_example :
    (u : SsTableBuilder) × (t : SsTable) × (build_table deps 4096
        (older ∷ newer ∷ deleted ∷ [])
        empty_file
      ≡ ok (true, u))
    × (make deps (open_readable u.file.disk) ≡ ok t)
    × (get_entries_from_sstable deps zeros t
        ≡ ok (stored older ∷ stored newer ∷ stored deleted ∷ []))
get_entries-build_table_example =
    get_entries-build_table deps 1000 1 4096 zeros compressor older (newer ∷ deleted ∷ [])
      empty_file bounds fits (omega arith) (omega arith) (λ bytes. omega arith) length-zeros refl
      refl all_IsBlockable entries_sorted file_IsBuffered file_new

ascending : Ascends older.key (newer ∷ deleted ∷ [])
ascending = is_sorted-Ascends older (newer ∷ deleted ∷ []) all_IsBlockable entries_sorted

entries-finish_example :
    (block : Bytes) × (b : Block) × ((add_entries packing
          (older ∷ newer ∷ deleted ∷ [])
          (new_block_builder none)
        >>= Builder.finish packing seven)
      ≡ ok block)
    × (block_integrity_check seven block ≡ ok true)
    × (parse_block block ≡ ok b)
    × (entries b ≡ ok (stored older ∷ stored newer ∷ stored deleted ∷ []))
unfolding weight Value.serialized_bytes_size Value.size Value.is_tomb_stone
entries-finish_example =
    entries-finish packing seven older (newer ∷ deleted ∷ []) (omega arith) (λ bytes. omega arith)
      (λ bytes. omega arith)
      (record { fit = all_IsBlockable; up = ascending; light = omega arith; few = omega arith })

-- A library that puts a byte in front.
abbrev byte_lib : ZstdLib
byte_lib = record {
  zstd_compress = λ level n xs. if leb (length xs + 1) n then some (9 ∷ xs) else none;
  zstd_decompress =
      λ n xs. elim xs [ [] ↦ none | x ∷ rest ↦ if leb (length rest) n then some rest else none ];
  compress_bound = λ n. n + 1;
  get_frame_content_size = λ xs. length xs - 1;
  max_c_level = 22;
}

byte_lib-IsDocumented : IsDocumented byte_lib 15
byte_lib-IsDocumented = record {
  compressed = λ content. (
    9 ∷ content,
    (let enough : leb (length content + 1) (length content + 1) ≡ true = ground arith in
        rw enough refl),
    record { bounded = omega arith; size = omega arith; decompressed = λ n h. ground (arith, h) },
  );
}

decompress_into-get_compressor_example :
    (c : Compressor) × (packed : Bytes) × (get_compressor byte_lib 15 zstd_name [] ≡ ok c)
    × (c.compress (1 ∷ 2 ∷ []) ≡ some packed)
    × (c.decompress packed ≡ some (1 ∷ 2 ∷ []))
    × (c.decompress_into (c.decompressed_minimum_size packed + 5) packed ≡ some (1 ∷ 2 ∷ []))
decompress_into-get_compressor_example =
    decompress_into-get_compressor byte_lib 15 1000 zstd_name [] (1 ∷ 2 ∷ []) 5
      byte_lib-IsDocumented (omega arith) (omega arith) (λ n h. omega (arith, h)) (inl refl)
      (omega arith)
