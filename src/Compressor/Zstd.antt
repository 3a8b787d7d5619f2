-- ===== src/Compressor/Zstd.antt =====
-- `zstd_compressor` of util/compressor.cc, behind `compressor_policy` of
-- include/frenzykv/util/compressor.h. The zstd library is a parameter. A string that a method leaves
-- behind with an error code is not looked at, so that an error, and an exception, is `none`.
use frenzy_kv.Prelude.{
  ℕ, ◌+◌, ◌-◌, ◌^◌, ◌++◌, [], leb, ltb, length, if◌then◌else◌, Option, none, some, Result, ok, ◌>>◌,
  throw_unless,
}
use frenzy_kv.Bytes.{Bytes}
use frenzy_kv.Block.Builder.{Compressor}

-- The functions of zstd.h that are called: what `ZSTD_compress` with a level and `ZSTD_decompress`
-- write into a buffer of some bytes (`none` is an error), `ZSTD_compressBound`,
-- `ZSTD_getFrameContentSize` and `ZSTD_maxCLevel`. `ZSTD_minCLevel` is negative.
pub record ZstdLib : Type 0 where
  pub zstd_compress : ℕ → ℕ → Bytes → Option Bytes
  pub zstd_decompress : ℕ → Bytes → Option Bytes
  pub compress_bound : ℕ → ℕ
  pub get_frame_content_size : Bytes → ℕ
  pub max_c_level : ℕ

-- A string is not made longer than `max_size()`.
abbrev pub max_size : ℕ
max_size = 2 ^ 63 - 1

abbrev pub append_written : Bytes → Option Bytes → Option Bytes
append_written dst none = none
append_written dst (some bytes) = some (dst ++ bytes)

module _ (zstd : ZstdLib) where
  -- The constructor: the level.
  unfoldable pub zstd_compressor : ℕ → Result ℕ
  zstd_compressor compress_level =
      throw_unless (leb compress_level zstd.max_c_level) >> ok compress_level

  unfoldable pub decompressed_minimum_size : Bytes → ℕ
  decompressed_minimum_size original = zstd.get_frame_content_size original

  unfoldable pub compressed_minimum_size : Bytes → ℕ
  compressed_minimum_size original = zstd.compress_bound (length original)

  unfoldable pub decompress_append_to : Bytes → Bytes → Option Bytes
  decompress_append_to compressed_src decompressed_dst =
      let decompression_need_sz = decompressed_minimum_size compressed_src in
      if ltb max_size (length decompressed_dst + decompression_need_sz)
      then none
      else append_written decompressed_dst
          (zstd.zstd_decompress decompression_need_sz compressed_src)

  -- Into a new string.
  unfoldable pub decompress : Bytes → Option Bytes
  decompress compressed_src = decompress_append_to compressed_src []

  -- Into a span of `n` bytes, which is cut behind what was written.
  unfoldable pub decompress_into : ℕ → Bytes → Option Bytes
  decompress_into n compressed_src =
      if ltb n (decompressed_minimum_size compressed_src)
      then none
      else zstd.zstd_decompress n compressed_src

  module _ (level : ℕ) where
    unfoldable pub compress_append_to : Bytes → Bytes → Option Bytes
    compress_append_to original compressed_dst =
        let compression_need_sz = zstd.compress_bound (length original) in
        if ltb max_size (length compressed_dst + compression_need_sz)
        then none
        else append_written compressed_dst (zstd.zstd_compress level compression_need_sz original)

    unfoldable pub compress : Bytes → Option Bytes
    compress original = compress_append_to original []

    unfoldable pub compress_into : ℕ → Bytes → Option Bytes
    compress_into n original =
        if ltb n (compressed_minimum_size original)
        then none
        else zstd.zstd_compress level n original

    abbrev pub policy : Compressor
    policy = record {
      compress = compress;
      decompress = decompress;
      decompress_into = decompress_into;
      decompressed_minimum_size = decompressed_minimum_size;
    }
