-- ===== src/Block/Integrity.antt =====
-- The end of `block_builder::finish`, read by the functions that look at a block before it is
-- decompressed: `undecompressed_block_content`, `block_integrity_check` and
-- `block_content_was_comprssed`.
use frenzy_kv.Prelude.{
  ltb, ℕ, ◌+◌, ◌-◌, ◌^◌, ◌<◌, ◌≡◌, refl, sym, ap, ◌∙◌, [], ◌++◌, arith, length, length-append,
  append_assoc, append-nil, drop, drop-append, ok, ◌>>=◌, true, Bool, if◌then◌else◌, leb, ==_refl,
}
use frenzy_kv.Bytes.{Bytes, read-append, overwrite}
use frenzy_kv.Bytes.Endian.{BigEndian, encode, length-encode, decode-encode}
use frenzy_kv.Block.Segment.{read_at}
use frenzy_kv.Block.Items.{read_at-append}
use frenzy_kv.Block.Builder.{seal}
use frenzy_kv.Block.Reader.{
  back, crc32_beg, wc_beg, wc_value, undecompressed_block_content, embeded_crc32_value,
  block_integrity_check, block_content_was_comprssed,
}

module _ ⦃e : BigEndian⦄ (crc32c : Bytes → ℕ) (content : Bytes) (compressed : Bool) where
  abbrev flag : ℕ
  flag = if compressed then 1 else 0

  -- The block around its content: the total length, the content, the flag, the checksum.
  abbrev pub sealed : Bytes
  sealed =
      encode 4 (length content + 9) ++ (content ++ (encode 1 flag ++ encode 4 (crc32c content)))

  -- `seal` on the content behind four bytes that are still free.
  pub seal_lem :
      (capacity : Bytes → ℕ) (free : Bytes)
      → length free ≡ 4
      → length (free ++ content) < capacity (free ++ content)
      → length content + 9 < 2 ^ 32
      → seal capacity crc32c (free ++ content) compressed ≡ ok sealed
  unfolding seal overwrite
  seal_lem capacity free h roomy fits =
      let tail = encode 1 flag ++ encode 4 (crc32c content) in
      let packed = free ++ content in
      let behind : drop 4 packed ≡ content = drop-append 4 free content h in
      let flat : (packed ++ encode 1 flag) ++ encode 4 (crc32c content)
          ≡ free ++ (content ++ tail) =
        append_assoc packed (encode 1 flag) (encode 4 (crc32c content))
        ∙ append_assoc free content tail in
      let total : length (free ++ (content ++ tail)) ≡ length content + 9 = omega (
        arith,
        h,
        length-append free (content ++ tail),
        length-append content tail,
        length-append (encode 1 flag) (encode 4 (crc32c content)),
        length-encode 1 flag,
        length-encode 4 (crc32c content),
      ) in
      let small : leb (length content + 9) (2 ^ 32 - 1) ≡ true = ground arith in
      let kept : ltb (length packed) (capacity packed) ≡ true = ground (arith, roomy) in
      rw (
        kept,
        behind,
        flat,
        total,
        small,
        length-encode 4 (length content + 9),
        drop-append 4 free (content ++ tail) h,
      )

  module _ (fits : length content + 9 < 2 ^ 32) where
    crc32_beg_lem : crc32_beg sealed ≡ ok (length content + 5)
    unfolding crc32_beg back
    crc32_beg_lem = ground (
      arith,
      read-append 4 (encode 4 (length content + 9))
          (content ++ (encode 1 flag ++ encode 4 (crc32c content))) (length-encode 4 _),
      decode-encode 4 (length content + 9) fits,
    )

    wc_beg_lem : wc_beg sealed ≡ ok (length content + 4)
    unfolding wc_beg back
    wc_beg_lem = ground (arith, crc32_beg_lem)

    pub undecompressed_block_content-sealed : undecompressed_block_content sealed ≡ ok content
    unfolding undecompressed_block_content back
    undecompressed_block_content-sealed =
        let len = encode 4 (length content + 9) in
        let tail = encode 1 flag ++ encode 4 (crc32c content) in
        let at : read_at 4 (length content) sealed ≡ ok content =
          ap (λ n. read_at n (length content) sealed) (sym (length-encode 4 (length content + 9)))
          ∙ read_at-append (length content) len content tail refl in
        ground (arith, wc_beg_lem, at)

    pub wc_value-sealed : wc_value sealed ≡ ok flag
    unfolding wc_value
    wc_value-sealed =
        let len = encode 4 (length content + 9) in
        let front = len ++ content in
        let n : length front ≡ length content + 4 =
          omega (arith, length-append len content, length-encode 4 (length content + 9)) in
        let at : read_at (length content + 4) 1 sealed ≡ ok (encode 1 flag) =
          rw (sym n, sym (append_assoc len content (encode 1 flag ++ encode 4 (crc32c content))))
            (read_at-append 1 front (encode 1 flag) (encode 4 (crc32c content))
              (length-encode 1 _)) in
        ground (arith, wc_beg_lem, at, decode-encode 1 flag)

    embeded-sealed : crc32c content < 2 ^ 32 → embeded_crc32_value sealed ≡ ok (crc32c content)
    unfolding embeded_crc32_value
    embeded-sealed h =
        let len = encode 4 (length content + 9) in
        let wc = encode 1 flag in
        let crc = encode 4 (crc32c content) in
        let front = (len ++ content) ++ wc in
        let n : length front ≡ length content + 5 = omega (
          arith,
          length-append (len ++ content) wc,
          length-append len content,
          length-encode 4 (length content + 9),
          length-encode 1 flag,
        ) in
        let whole : sealed ≡ front ++ (crc ++ []) = rw (
          append-nil crc,
          append_assoc (len ++ content) wc crc,
          append_assoc len content (wc ++ crc),
        ) in
        let at : read_at (length content + 5) 4 sealed ≡ ok crc =
          rw (whole, sym n) (read_at-append 4 front crc [] (length-encode 4 _)) in
        ground (arith, crc32_beg_lem, at, decode-encode 4 (crc32c content) h)

    pub block_integrity_check-sealed :
        crc32c content < 2 ^ 32 → block_integrity_check crc32c sealed ≡ ok true
    unfolding block_integrity_check
    block_integrity_check-sealed h =
        ground
          (arith, undecompressed_block_content-sealed, embeded-sealed h, ==_refl (crc32c content))

    pub was_compressed-sealed : block_content_was_comprssed sealed ≡ ok compressed
    unfolding block_content_was_comprssed
    was_compressed-sealed = ground (arith, wc_value-sealed)

    -- A sealed block passes the integrity check, says whether it is compressed, and gives back its
    -- content, if the block's length and its checksum fit 32 bits, and the string of the builder has room
    -- for the flag: else it is moved, and the checksum is read from where it was.
    pub seal-integrity :
        (capacity : Bytes → ℕ) (free : Bytes)
        → length free ≡ 4
        → length (free ++ content) < capacity (free ++ content)
        → crc32c content < 2 ^ 32
        → ((seal capacity crc32c (free ++ content) compressed >>= block_integrity_check crc32c)
            ≡ ok true)
          × ((seal capacity crc32c (free ++ content) compressed >>= block_content_was_comprssed)
              ≡ ok compressed)
          × ((seal capacity crc32c (free ++ content) compressed >>= undecompressed_block_content)
              ≡ ok content)
    seal-integrity capacity free h roomy small = rw (seal_lem capacity free h roomy fits) (
      block_integrity_check-sealed small,
      was_compressed-sealed,
      undecompressed_block_content-sealed,
    )
