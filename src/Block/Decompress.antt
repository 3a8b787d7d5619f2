-- ===== src/Block/Decompress.antt =====
-- `block_decompress` of persistent/block.cc.
use frenzy_kv.Prelude.{
  ℕ, ◌%◌, ◌^◌, ◌<◌, ◌≡◌, refl, ◌++◌, arith, length, length-append, drop-append, replicate, ◌-◌, ◌+◌,
  ltb, leb, take, drop, if◌then◌else◌, out_of_bounds, Bool, none, some, Option, ok, err, Result,
  assertion, exception, ◌>>=◌, ◌>>◌, assert, true, ◌==◌,
}
use frenzy_kv.Bytes.{Bytes, overwrite}
use frenzy_kv.Bytes.Endian.{BigEndian, encode, length-encode}
use frenzy_kv.Block.Builder.{BlockOptions, Compressor, pack, seal}
use frenzy_kv.Block.Reader.{wc_value, undecompressed_block_content}
use frenzy_kv.Block.Integrity.{seal_lem, wc_value-sealed, undecompressed_block_content-sealed}

module _ ⦃e : BigEndian⦄ where
  -- The checksum and the flag of the result are left zero.
  unfoldable pub block_decompress : Bytes → Option Compressor → Result Bytes
  block_decompress storage compressor = elim compressor [
    | none ↦ err assertion
    | some c ↦ (do
      wc ← wc_value storage
      assert (wc == 1)
      compressed_part ← undecompressed_block_content storage
      elim (c.decompress compressed_part) [
        | none ↦ err exception
        | some content ↦
            (let result = (replicate 4 0 ++ content) ++ replicate 5 0 in
              ok (overwrite (encode 4 (length result % 2 ^ 32)) result))
      ])
  ]

  unfoldable pub approx_block_decompress_size : Bytes → Option Compressor → Result ℕ
  approx_block_decompress_size storage compressor = elim compressor [
    | none ↦ err assertion
    | some c ↦ (do
      compressed_part ← undecompressed_block_content storage
      ok (c.decompressed_minimum_size compressed_part + 4 + 4 + 1))
  ]

  -- The end of `block_decompress_to`: the content is written behind four bytes of the destination,
  -- the new total length before it, and the destination is cut behind five more bytes, as they are.
  unfoldable pub into_destination : Bytes → Bytes → Result Bytes
  into_destination content dst =
      let new_btl = 4 + length content + 1 + 4 in
      if ltb (length dst) new_btl
      then err out_of_bounds
      else (assert (leb new_btl (2 ^ 32 - 1))
          >> ok (encode 4 new_btl ++ (content ++ take 5 (drop (4 + length content) dst))))

  -- Whether it succeeds, and the destination. What did not decompress is as long as it was, so that
  -- the destination is cut behind its end.
  unfoldable pub block_decompress_to : Bytes → Bytes → Option Compressor → Result (Bool × Bytes)
  block_decompress_to storage dst compressor = elim compressor [
    | none ↦ err assertion
    | some c ↦ if ltb (length dst) 4 then err out_of_bounds else (do
      compressed_part ← undecompressed_block_content storage
      elim (c.decompress_into (length dst - 4) compressed_part) [
        | none ↦ err out_of_bounds
        | some content ↦ (do result ← into_destination content dst; ok (true, result))
      ])
  ]

  -- The options ask for compression, and the compressor takes the content and gives it back.
  pub record IsPacked (opt : BlockOptions) (c : Compressor) (content packed : Bytes) : Type 0 where
    pub wanted : opt.need_compress ≡ true
    pub compressed : c.compress content ≡ some packed
    pub decompressed : c.decompress packed ≡ some content

  -- A block that was compressed and sealed is decompressed to its content between the total length
  -- and five zeros, if the lengths fit 32 bits and the string that it was compressed into is not full.
  pub block_decompress-seal :
      (opt : BlockOptions) (c : Compressor) (crc32c : Bytes → ℕ) (free content packed : Bytes)
      → IsPacked opt c content packed
      → length free ≡ 4
      → length (replicate 4 0 ++ packed) < opt.capacity (replicate 4 0 ++ packed)
      → length packed + 9 < 2 ^ 32
      → length content + 9 < 2 ^ 32
      → (pack opt (some c) (free ++ content) >>= λ p.
          seal opt.capacity crc32c p.0 p.1 >>= λ block. block_decompress block (some c))
        ≡ ok (encode 4 (length content + 9) ++ (content ++ replicate 5 0))
  unfolding pack block_decompress overwrite
  block_decompress-seal opt c crc32c free content packed h four roomy small_packed small =
      let zeros : Bytes = replicate 4 0 in
      let n : length ((zeros ++ content) ++ replicate 5 0) ≡ length content + 9 =
        omega
          (arith, length-append (zeros ++ content) (replicate 5 0), length-append zeros content) in
      let wrap : (length content + 9) % 2 ^ 32 ≡ length content + 9 = omega arith in
      rw (
        h.wanted,
        drop-append 4 free content four,
        h.compressed,
        seal_lem crc32c packed true opt.capacity zeros refl roomy small_packed,
        wc_value-sealed crc32c packed true small_packed,
        undecompressed_block_content-sealed crc32c packed true small_packed,
        h.decompressed,
        n,
        wrap,
        length-encode 4 (length content + 9),
      )
