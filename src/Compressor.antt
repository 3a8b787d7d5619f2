-- ===== src/Compressor.antt =====
-- `get_compressor` of util/compressor.cc. The compressors are made of the compression level and the
-- configured name of the options of the first call.
use frenzy_kv.Prelude.{ℕ, [], ◌∷◌, length, ◌==◌, if◌then◌else◌, Result, ok, err, assertion, ◌>>=◌}
use frenzy_kv.Bytes.{Bytes, bytes_eq}
use frenzy_kv.Block.Builder.{Compressor}
use frenzy_kv.Compressor.Zstd.{ZstdLib}
pub mod Zstd
pub mod Empty
pub mod Lossless

-- "zstd"
abbrev pub zstd_name : Bytes
zstd_name = 122 ∷ 115 ∷ 116 ∷ 100 ∷ []

-- "empty"
abbrev pub empty_name : Bytes
empty_name = 101 ∷ 109 ∷ 112 ∷ 116 ∷ 121 ∷ []

-- The compressor of a name in the map.
unfoldable pub compressor_at : ZstdLib → ℕ → Bytes → Result Compressor
compressor_at zstd level name =
    if bytes_eq name zstd_name
    then ok (Zstd.policy zstd level)
    else if bytes_eq name empty_name
    then ok Empty.policy
    else err assertion

-- The map is made before a name is looked up in it.
unfoldable pub get_compressor : ZstdLib → ℕ → Bytes → Bytes → Result Compressor
get_compressor zstd compress_level compressor_name name = do
  level ← Zstd.zstd_compressor zstd compress_level
  compressor_at zstd level (if length name == 0 then compressor_name else name)
