-- ===== src/Compressor/Empty.antt =====
-- `empty_compressor` of util/compressor.cc, which copies.
use frenzy_kv.Prelude.{ℕ, ◌++◌, [], ltb, length, if◌then◌else◌, Option, none, some}
use frenzy_kv.Bytes.{Bytes}
use frenzy_kv.Block.Builder.{Compressor}

unfoldable pub compress_append_to : Bytes → Bytes → Option Bytes
compress_append_to original compressed_dst = some (compressed_dst ++ original)

unfoldable pub decompress_append_to : Bytes → Bytes → Option Bytes
decompress_append_to compressed_src decompressed_dst = some (decompressed_dst ++ compressed_src)

unfoldable pub compress : Bytes → Option Bytes
compress original = compress_append_to original []

unfoldable pub decompress : Bytes → Option Bytes
decompress compressed_src = decompress_append_to compressed_src []

unfoldable pub decompressed_minimum_size : Bytes → ℕ
decompressed_minimum_size original = length original

unfoldable pub compressed_minimum_size : Bytes → ℕ
compressed_minimum_size original = length original

-- Into a span of `n` bytes, which is cut behind what was written.
unfoldable pub compress_into : ℕ → Bytes → Option Bytes
compress_into n original = if ltb n (length original) then none else some original

unfoldable pub decompress_into : ℕ → Bytes → Option Bytes
decompress_into n compressed_src =
    if ltb n (length compressed_src) then none else some compressed_src

abbrev pub policy : Compressor
policy = record {
  compress = compress;
  decompress = decompress;
  decompress_into = decompress_into;
  decompressed_minimum_size = decompressed_minimum_size;
}
