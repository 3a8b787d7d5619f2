-- ===== src/Block/RoundTrip.antt =====
-- What `block_builder` of persistent/block.cc makes of the entries of a block, and what `block` reads
-- of it.
use frenzy_kv.Prelude.{
  ℕ, ◌+◌, ◌^◌, ◌≤◌, ◌<◌, ◌≡◌, refl, ◌∙◌, List, ◌∷◌, ◌++◌, All, map, arith, length, length-append,
  drop-append, Bool, none, ok, ◌>>=◌, Option, some, true, false,
}
use frenzy_kv.Bytes.{Bytes}
use frenzy_kv.Bytes.Endian.{BigEndian, encode, length-encode}
use frenzy_kv.Kv.Entry.{KvEntry}
use frenzy_kv.Kv.RoundTrip.{stored}
use frenzy_kv.Block.Items.{zeros}
use frenzy_kv.Block.Whole.{parse_block_lem, entries_lem, parsed}
use frenzy_kv.Block.Reader.{Block, parse_block, entries, block_integrity_check}
use frenzy_kv.Block.Integrity.{seal_lem, block_integrity_check-sealed, sealed}
use frenzy_kv.Block.Steps.{IsBlockable}
use frenzy_kv.Block.Building.{weight, Ascends}
use frenzy_kv.Block.Run.{add_all_lem}
use frenzy_kv.Block.Builder.{
  BlockOptions, Compressor, new_block_builder, add_entries, pack, seal, finish,
}
use frenzy_kv.Block.Content.{IsContent, finish_lem}

module _ ⦃e : BigEndian⦄ where
  -- What a compressor has made of a content, and how it gives it back.
  pub record IsCompressed (cp : Compressor) (content packed : Bytes) : Type 0 where
    pub compressed : cp.compress content ≡ some packed
    pub decompressed : cp.decompress packed ≡ some content
    pub room : length content ≤ cp.decompressed_minimum_size packed
    pub into :
        (n : ℕ)
        → cp.decompressed_minimum_size packed ≤ n
        → cp.decompress_into n packed ≡ some content
    pub short : length packed + 9 < 2 ^ 32

  -- The compressor, if there is one, takes every content of `cap` bytes at most and gives it back.
  unfoldable pub Lossless : ℕ → Option Compressor → Type 0
  Lossless cap none = Unit {0}
  Lossless cap (some cp) =
      (content : Bytes) → length content ≤ cap → (packed : Bytes) × IsCompressed cp content packed

  -- No string that a block is sealed in is full, and the compressor takes every content and gives it
  -- back.
  pub record IsSealable (opt : BlockOptions) (cap : ℕ) (c : Option Compressor) : Type 0 where
    pub roomy : (bytes : Bytes) → length bytes < opt.capacity bytes
    pub lossless : Lossless cap c

  -- A sealed block with a content, which may be compressed.
  pub data IsBlockOf (crc32c : Bytes → ℕ) (c : Option Compressor) (content : Bytes)
      : Bytes → Type 0 where
    plainly : IsBlockOf crc32c c content (sealed crc32c content false)
    packed_by :
        (cp : Compressor) (packed : Bytes)
        → c ≡ some cp
        → IsCompressed cp content packed
        → IsBlockOf crc32c c content (sealed crc32c packed true)

  pub pack_lem :
      (opt : BlockOptions) (crc32c : Bytes → ℕ) (cap : ℕ) (c : Option Compressor) (content : Bytes)
      (wanted : Bool)
      → opt.need_compress ≡ wanted
      → IsSealable opt cap c
      → length content ≤ cap
      → length content + 9 < 2 ^ 32
      → (block : Bytes) × ((pack opt c (zeros ++ content) >>= λ (packed, compressed).
            seal opt.capacity crc32c packed compressed)
          ≡ ok block)
        × IsBlockOf crc32c c content block
  unfolding pack Lossless
  pack_lem opt crc32c cap c content false w h room small = (
    sealed crc32c content false,
    rw w (seal_lem crc32c content false opt.capacity zeros refl (h.roomy (zeros ++ content)) small),
    plainly,
  )
  pack_lem opt crc32c cap none content true w h room small = (
    sealed crc32c content false,
    rw w (seal_lem crc32c content false opt.capacity zeros refl (h.roomy (zeros ++ content)) small),
    plainly,
  )
  pack_lem opt crc32c cap (some cp) content true w h room small =
      let (packed, i) = h.lossless content room in
      (
        sealed crc32c packed true,
        rw w (
            rw (drop-append 4 zeros content refl) (
              rw i.compressed (
                seal_lem crc32c packed true opt.capacity zeros refl (h.roomy (zeros ++ packed))
                  i.short))),
        packed_by cp packed refl i,
      )

  -- Entries that fit a block, in ascending order.
  pub record IsBlockful (x : KvEntry) (xs : List KvEntry) : Type 0 where
    pub fit : All IsBlockable (x ∷ xs)
    pub up : Ascends x.key xs
    pub light : weight (x ∷ xs) + 15 < 2 ^ 32
    pub few : length (x ∷ xs) < 2 ^ 16

  -- The block that is built of entries.
  pub finish-IsBlockOf :
      (opt : BlockOptions) (crc32c : Bytes → ℕ) (cap : ℕ) (c : Option Compressor) (x : KvEntry)
      (xs : List KvEntry)
      → 0 < opt.max_block_segments_number
      → IsSealable opt cap c
      → IsBlockful x xs
      → weight (x ∷ xs) + 6 ≤ cap
      → (content : Bytes) × (block : Bytes) × ((add_entries opt (x ∷ xs) (new_block_builder c)
            >>= finish opt crc32c)
          ≡ ok block)
        × IsBlockOf crc32c c content block
        × IsContent content (x ∷ xs)
        × (length content + 9 < 2 ^ 32)
  finish-IsBlockOf opt crc32c cap c x xs pos lossless h room =
      let held = add_all_lem opt c pos x xs h.fit h.up (omega (arith, h.light)) in
      let (content, f, i, n) = finish_lem opt crc32c c _ (x ∷ xs) held h.light h.few in
      let (block, p, o) =
        pack_lem opt crc32c cap c content opt.need_compress refl lossless (omega (arith, n, room))
          (omega (arith, n, h.light)) in
      (content, block, f ∙ p, o, i, omega (arith, n, h.light))

  -- A content between a total length and five more bytes is read as a block with its entries.
  pub parse_content :
      (content : Bytes) (xs : List KvEntry) (tail : Bytes)
      → IsContent content xs
      → length tail ≡ 5
      → (b : Block) × (parse_block (encode 4 (length content + 9) ++ (content ++ tail)) ≡ ok b)
        × (entries b ≡ ok (map stored xs))
  parse_content content xs tail i five =
      let whole = i.whole tail five in
      (
        parsed i.s i.ss i.more tail whole,
        rw i.is (parse_block_lem i.s i.ss i.more tail whole),
        entries_lem i.s i.ss i.more tail whole ∙ i.means,
      )

  plain_lem :
      (crc32c : Bytes → ℕ) (content block : Bytes) (xs : List KvEntry)
      → ((bytes : Bytes) → crc32c bytes < 2 ^ 32)
      → IsBlockOf crc32c none content block
      → IsContent content xs
      → length content + 9 < 2 ^ 32
      → (b : Block) × (block_integrity_check crc32c block ≡ ok true)
        × (parse_block block ≡ ok b)
        × (entries b ≡ ok (map stored xs))
  plain_lem crc32c content _ xs crc plainly i small =
      let tail = encode 1 0 ++ encode 4 (crc32c content) in
      let five : length tail ≡ 5 = omega (
        arith,
        length-append (encode 1 0) (encode 4 (crc32c content)),
        length-encode 1 0,
        length-encode 4 (crc32c content),
      ) in
      let (b, p, q) = parse_content content xs tail i five in
      (b, block_integrity_check-sealed crc32c content false small (crc content), p, q)
  plain_lem crc32c content _ xs crc (packed_by cp packed t i) j small = absurd (cc)

  -- Ascending entries, one at least, fewer than 2 ^ 16, that fit their fields and together a block of
  -- 32-bit length, built into a block without a compressor, are read back from it in their order, a
  -- value without bytes as a tomb stone; the block passes the integrity check, if an interval has a
  -- segment at least, no string that a block is sealed in is full, and checksums have 32 bits.
  pub entries-finish :
      (opt : BlockOptions) (crc32c : Bytes → ℕ) (x : KvEntry) (xs : List KvEntry)
      → 0 < opt.max_block_segments_number
      → ((bytes : Bytes) → length bytes < opt.capacity bytes)
      → ((bytes : Bytes) → crc32c bytes < 2 ^ 32)
      → IsBlockful x xs
      → (block : Bytes) × (b : Block) × ((add_entries opt (x ∷ xs) (new_block_builder none)
            >>= finish opt crc32c)
          ≡ ok block)
        × (block_integrity_check crc32c block ≡ ok true)
        × (parse_block block ≡ ok b)
        × (entries b ≡ ok (map stored (x ∷ xs)))
  entries-finish opt crc32c x xs pos roomy crc h =
      let (content, block, f, o, i, small) =
        finish-IsBlockOf opt crc32c (weight (x ∷ xs) + 6) none x xs pos
          (record { roomy = roomy; lossless = unfold Lossless in tt }) h (omega arith) in
      let (b, checked, p, q) = plain_lem crc32c content block (x ∷ xs) crc o i small in
      (block, b, f, checked, p, q)
