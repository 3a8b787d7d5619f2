-- ===== src/Compressor/Lossless.antt =====
-- Every compressor of `get_compressor` of util/compressor.cc is what the blocks and the tables ask for.
use frenzy_kv.Prelude.{
  ℕ, ◌+◌, ◌^◌, ◌≤◌, ◌<◌, ◌≡◌, refl, arith, ◌⊎◌, length, ltb, leb, true, false, inl, inr,
  if◌then◌else◌, some, ok, ◌==◌,
}
use frenzy_kv.Bytes.{Bytes, bytes_eq, bytes_eq_refl}
use frenzy_kv.Bytes.Endian.{BigEndian}
use frenzy_kv.Block.Builder.{Compressor}
use frenzy_kv.Block.RoundTrip.{Lossless}
use frenzy_kv.Compressor.Zstd
use frenzy_kv.Compressor.Zstd.{ZstdLib, append_written}
use frenzy_kv.Compressor.Empty
use frenzy_kv.Compressor.{zstd_name, empty_name, compressor_at, get_compressor}

-- What zstd.h says: compression into a buffer of `ZSTD_compressBound` bytes succeeds, what is written
-- fits the buffer, and is a frame that has the size of the content and is decompressed to it in any
-- buffer with room for it.
pub record IsFrame (zstd : ZstdLib) (content packed : Bytes) : Type 0 where
  pub bounded : length packed ≤ zstd.compress_bound (length content)
  pub size : zstd.get_frame_content_size packed ≡ length content
  pub decompressed : (n : ℕ) → length content ≤ n → zstd.zstd_decompress n packed ≡ some content

pub record IsDocumented (zstd : ZstdLib) (level : ℕ) : Type 0 where
  pub compressed :
      (content : Bytes)
      → (packed : Bytes) × (zstd.zstd_compress level (zstd.compress_bound (length content)) content
          ≡ some packed)
        × IsFrame zstd content packed

module _ ⦃e : BigEndian⦄ where
  zstd_lem :
      (zstd : ZstdLib) (level bound : ℕ)
      → IsDocumented zstd level
      → bound < 2 ^ 32
      → ((n : ℕ) → n ≤ bound → zstd.compress_bound n + 9 < 2 ^ 32)
      → Lossless bound (some (Zstd.policy zstd level))
  unfolding Lossless Zstd.compress Zstd.compress_append_to Zstd.decompress Zstd.decompress_append_to
      Zstd.decompress_into Zstd.decompressed_minimum_size
  zstd_lem zstd level bound doc small narrow content room =
      let (packed, c, f) = doc.compressed content in
      let need = zstd.compress_bound (length content) in
      let tight = narrow (length content) room in
      let fits : ltb Zstd.max_size (0 + need) ≡ false = ground (arith, tight) in
      let holds : ltb Zstd.max_size (0 + zstd.get_frame_content_size packed) ≡ false =
        ground (arith, f.size, room, small) in
      (
        packed,
        record {
          compressed = rw fits (rw c refl);
          decompressed = rw holds (
              rw (f.decompressed (zstd.get_frame_content_size packed) (omega (arith, f.size)))
                refl);
          room = omega (arith, f.size);
          into = λ n h.
              let wide : ltb n (zstd.get_frame_content_size packed) ≡ false = ground (arith, h) in
              rw wide (f.decompressed n (omega (arith, h, f.size)));
          short = omega (arith, f.bounded, tight);
        },
      )

  empty_lem : (bound : ℕ) → bound + 9 < 2 ^ 32 → Lossless bound (some Empty.policy)
  unfolding Lossless Empty.compress Empty.compress_append_to Empty.decompress
      Empty.decompress_append_to Empty.decompress_into Empty.decompressed_minimum_size
  empty_lem bound small content room = (
    content,
    record {
      compressed = refl;
      decompressed = refl;
      room = omega arith;
      into = λ n h. let wide : ltb n (length content) ≡ false = ground (arith, h) in rw wide refl;
      short = omega (arith, room, small);
    },
  )

  abbrev pub IsKnown : Bytes → Type 0
  IsKnown name = (name ≡ zstd_name) ⊎ (name ≡ empty_name)

  compressor_at_lem :
      (zstd : ZstdLib) (level bound : ℕ) (name : Bytes)
      → IsDocumented zstd level
      → bound + 9 < 2 ^ 32
      → ((n : ℕ) → n ≤ bound → zstd.compress_bound n + 9 < 2 ^ 32)
      → IsKnown name
      → (c : Compressor) × (compressor_at zstd level name ≡ ok c) × Lossless bound (some c)
  unfolding compressor_at
  compressor_at_lem zstd level bound name doc small narrow (inl t) = (
    Zstd.policy zstd level,
    rw t (rw (bytes_eq_refl zstd_name) refl),
    zstd_lem zstd level bound doc (omega (arith, small)) narrow,
  )
  compressor_at_lem zstd level bound name doc small narrow (inr t) =
      let other : bytes_eq empty_name zstd_name ≡ false = unfold bytes_eq in refl in
      (Empty.policy, rw t (rw other (rw (bytes_eq_refl empty_name) refl)), empty_lem bound small)

  -- If the level of the options is none above that of zstd, and the name that is asked for, or the one
  -- of the options if it is empty, is a known one, then there is the compressor.
  pub get_compressor-Lossless :
      (zstd : ZstdLib) (level bound : ℕ) (configured name : Bytes)
      → IsDocumented zstd level
      → level ≤ zstd.max_c_level
      → bound + 9 < 2 ^ 32
      → ((n : ℕ) → n ≤ bound → zstd.compress_bound n + 9 < 2 ^ 32)
      → IsKnown (if length name == 0 then configured else name)
      → (c : Compressor) × (get_compressor zstd level configured name ≡ ok c)
        × Lossless bound (some c)
  unfolding get_compressor Zstd.zstd_compressor
  get_compressor-Lossless zstd level bound configured name doc within small narrow known =
      let (c, found, lossless) =
        compressor_at_lem zstd level bound (if length name == 0 then configured else name) doc small
          narrow known in
      let allowed : leb level zstd.max_c_level ≡ true = ground (arith, within) in
      (c, rw allowed found, lossless)

  -- `get_compressor`, asked for a known name, or for none where the options have a known one, and with a
  -- level of the options that is not above the largest of zstd, gives a compressor; that compresses every
  -- content of `bound` bytes at most, and decompresses the result to the content again, into a string as
  -- well as into a span of the size that it names and any bytes more. zstd does what it documents;
  -- `bound`, and what zstd wants for a content of so many bytes at most, are nine bytes less than 32-bit
  -- lengths.
  pub decompress_into-get_compressor :
      (zstd : ZstdLib) (level bound : ℕ) (configured name content : Bytes) (more : ℕ)
      → IsDocumented zstd level
      → level ≤ zstd.max_c_level
      → bound + 9 < 2 ^ 32
      → ((n : ℕ) → n ≤ bound → zstd.compress_bound n + 9 < 2 ^ 32)
      → IsKnown (if length name == 0 then configured else name)
      → length content ≤ bound
      → (c : Compressor) × (packed : Bytes) × (get_compressor zstd level configured name ≡ ok c)
        × (c.compress content ≡ some packed)
        × (c.decompress packed ≡ some content)
        × (c.decompress_into (c.decompressed_minimum_size packed + more) packed ≡ some content)
  unfolding Lossless
  decompress_into-get_compressor zstd level bound configured name content more doc within small
        narrow known room =
      let (c, found, lossless) =
        get_compressor-Lossless zstd level bound configured name doc within small narrow known in
      let (packed, h) = lossless content room in
      (
        c,
        packed,
        found,
        h.compressed,
        h.decompressed,
        h.into (c.decompressed_minimum_size packed + more) (omega arith),
      )
