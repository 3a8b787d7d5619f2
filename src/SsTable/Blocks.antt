-- ===== src/SsTable/Blocks.antt =====
-- How `sstable::get_block` of table/sstable.cc reads the blocks of a table.
use frenzy_kv.Prelude.{
  ℕ, ◌+◌, ◌-◌, ◌^◌, ◌≤◌, ◌<◌, ◌≡◌, refl, ap, ◌∙◌, arith, List, ◌++◌, map, Bool, true, false, ltb,
  leb, length, length-append, length-take, length-drop, take, drop, take-append, drop-append,
  ==_refl, if◌then◌else◌, Option, some, ok,
}
use frenzy_kv.Bytes.{Bytes}
use frenzy_kv.Bytes.Endian.{BigEndian, encode, length-encode}
use frenzy_kv.Kv.Entry.{KvEntry}
use frenzy_kv.Kv.RoundTrip.{stored}
use frenzy_kv.Io.Kernel.{Kernel}
use frenzy_kv.Io.Readable.{Readable, read_at, open_readable}
use frenzy_kv.Block.Builder.{Compressor}
use frenzy_kv.Block.Reader.{Block, entries, block_integrity_check}
use frenzy_kv.Block.Integrity.{
  sealed, undecompressed_block_content-sealed, block_integrity_check-sealed, was_compressed-sealed,
}
use frenzy_kv.Block.Decompress.{approx_block_decompress_size, block_decompress_to, into_destination}
use frenzy_kv.Block.Content.{IsContent}
use frenzy_kv.Block.RoundTrip.{IsBlockOf, plainly, packed_by, parse_content}
use frenzy_kv.SsTable.{TableDeps}
use frenzy_kv.SsTable.Reader.{SsTable}
use frenzy_kv.SsTable.Lookup.{plain_block, get_block}

module _ ⦃e : BigEndian⦄ where
  pub length-sealed :
      (crc32c : Bytes → ℕ) (content : Bytes) (compressed : Bool)
      → length (sealed crc32c content compressed) ≡ length content + 9
  length-sealed crc32c content compressed =
      let flag = encode 1 (if compressed then 1 else 0) in
      let crc = encode 4 (crc32c content) in
      omega (
        arith,
        length-append (encode 4 (length content + 9)) (content ++ (flag ++ crc)),
        length-append content (flag ++ crc),
        length-append flag crc,
        length-encode 4 (length content + 9),
        length-encode 1 (if compressed then 1 else 0),
        length-encode 4 (crc32c content),
      )

  checked_lem :
      (crc32c : Bytes → ℕ) (c : Option Compressor) (content block : Bytes)
      → IsBlockOf crc32c c content block
      → ((bytes : Bytes) → crc32c bytes < 2 ^ 32)
      → length content + 9 < 2 ^ 32
      → block_integrity_check crc32c block ≡ ok true
  checked_lem crc32c c content _ plainly crc small =
      block_integrity_check-sealed crc32c content false small (crc content)
  checked_lem crc32c c content _ (packed_by cp packed is i) crc small =
      block_integrity_check-sealed crc32c packed true i.short (crc packed)

  -- A content that decompresses into a destination with room for it, and for nine bytes more.
  into_destination_lem :
      (content dst : Bytes)
      → length content + 9 ≤ length dst
      → length content + 9 < 2 ^ 32
      → into_destination content dst
        ≡ ok (encode 4 (length content + 9) ++ (content ++ take 5 (drop (4 + length content) dst)))
  unfolding into_destination
  into_destination_lem content dst room small =
      let total : 4 + length content + 1 + 4 ≡ length content + 9 = omega arith in
      let fits : ltb (length dst) (length content + 9) ≡ false = ground arith in
      let short : leb (length content + 9) (2 ^ 32 - 1) ≡ true = ground arith in
      rw total (rw fits (rw short refl))

  module _ ⦃k : Kernel⦄ (deps : TableDeps) (memory : ℕ → Bytes) where
    -- A block is read as a total length, its content and five more bytes.
    plain_block_lem :
        (c : Option Compressor) (content block : Bytes)
        → deps.named ≡ c
        → ((n : ℕ) → length (memory n) ≡ n)
        → IsBlockOf deps.crc32c c content block
        → length content + 9 < 2 ^ 32
        → (tail : Bytes) × (plain_block deps memory block
            ≡ ok (some (encode 4 (length content + 9) ++ (content ++ tail))))
          × (length tail ≡ 5)
    unfolding plain_block approx_block_decompress_size block_decompress_to
    plain_block_lem c content _ named size plainly small = (
      encode 1 0 ++ encode 4 (deps.crc32c content),
      rw (was_compressed-sealed deps.crc32c content false small) refl,
      omega (
        arith,
        length-append (encode 1 0) (encode 4 (deps.crc32c content)),
        length-encode 1 0,
        length-encode 4 (deps.crc32c content),
      ),
    )
    plain_block_lem c content _ named size (packed_by cp packed is i) small =
        let n = cp.decompressed_minimum_size packed + 4 + 4 + 1 in
        let dst = memory n in
        let room : length content + 9 ≤ length dst = omega (arith, size n, i.room) in
        let four : ltb (length dst) 4 ≡ false = ground arith in
        let into = i.into (length dst - 4) (omega (arith, size n)) in
        (
          take 5 (drop (4 + length content) dst),
          rw (was_compressed-sealed deps.crc32c packed true i.short) (
              rw (named ∙ is) (
                rw (undecompressed_block_content-sealed deps.crc32c packed true i.short)
                  (rw four (rw into (rw (into_destination_lem content dst room small) refl))))),
          omega (
            arith,
            room,
            length-take 5 (drop (4 + length content) dst),
            length-drop (4 + length content) dst,
          ),
        )

    -- A block with some entries, in a part of a file, is read, passes its check and has these entries,
    -- whether it is compressed or not.
    pub get_block-IsBlockOf :
        (c : Option Compressor) (content block pre post : Bytes) (xs : List KvEntry) (t : SsTable)
        → deps.named ≡ c
        → ((n : ℕ) → length (memory n) ≡ n)
        → ((bytes : Bytes) → deps.crc32c bytes < 2 ^ 32)
        → IsBlockOf deps.crc32c c content block
        → IsContent content xs
        → length content + 9 < 2 ^ 32
        → t.file ≡ open_readable (pre ++ (block ++ post))
        → (b : Block) × (get_block deps memory t (length pre, length block) ≡ ok (some b))
          × (entries b ≡ ok (map stored xs))
    unfolding get_block read_at open_readable
    get_block-IsBlockOf c content block pre post xs t named size crc of i small file =
        let (tail, plain, five) = plain_block_lem c content block named size of small in
        let (b, p, q) = parse_content content xs tail i five in
        let found : k.read (length block) (length pre) t.file.disk ≡ block =
          k.delivered (length block) (length pre) t.file.disk
          ∙ ap (λ f. take (length block) (drop (length pre) (Readable.disk f))) file
          ∙ ap (take (length block)) (drop-append (length pre) pre (block ++ post) refl)
          ∙ take-append (length block) block post refl in
        (
          b,
          rw found (
              rw (==_refl (length block))
                (rw (checked_lem deps.crc32c c content block of crc small) (rw plain (rw p refl)))),
          q,
        )
