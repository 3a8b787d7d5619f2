-- ===== src/SsTable/Ending.antt =====
-- The meta block and the footer of a table: `write_end`, the end of `sstable_builder::finish` in
-- table/sstable_builder.cc.
use frenzy_kv.Prelude.{
  ℕ, ◌+◌, ◌^◌, ◌<◌, ◌≡◌, refl, ap, ◌∙◌, arith, List, [], ◌∷◌, ◌++◌, true, false, Bool-cases, length,
  append_assoc, ==_refl, none, ok, ◌>>=◌, inl, inr,
}
use frenzy_kv.Bytes.{Bytes}
use frenzy_kv.Bytes.Endian.{BigEndian, encode}
use frenzy_kv.Io.Kernel.{Kernel}
use frenzy_kv.Io.Writable.{close}
use frenzy_kv.Io.Writable.Content.{flush-disk}
use frenzy_kv.Version.Descriptor.RoundTrip.{append_lem}
use frenzy_kv.Block.Builder
use frenzy_kv.Block.Builder.{BlockBuilder, BlockOptions, new_block_builder, pack, seal}
use frenzy_kv.Block.Integrity.{sealed, seal_lem}
use frenzy_kv.Block.Items.{zeros}
use frenzy_kv.Block.Whole.{content_bytes}
use frenzy_kv.Block.Content.{finish_bytes, segments_held}
use frenzy_kv.SsTable.{TableDeps, magic_number}
use frenzy_kv.SsTable.Pieces.{Piece, pieces_bytes}
use frenzy_kv.SsTable.Filling.{IsFiled}
use frenzy_kv.SsTable.Meta.{meta_entries, meta_parts, meta_weight, meta_lem}
use frenzy_kv.SsTable.Builder.{
  SsTableBuilder, is_nil, block_is_empty, write_block, flush_current_block, meta_builder, write_end,
}

module _ ⦃e : BigEndian⦄ where
  abbrev pub meta_content : Bytes → Bytes → Bytes → Bytes
  meta_content last_uk first_uk filter_rep =
      content_bytes (meta_parts last_uk first_uk filter_rep) (4 ∷ [])

  abbrev pub meta_block : (Bytes → ℕ) → Bytes → Bytes → Bytes → Bytes
  meta_block crc32c last_uk first_uk filter_rep =
      sealed crc32c (meta_content last_uk first_uk filter_rep) false

  abbrev pub footer : ℕ → Bytes
  footer mbo = encode 8 mbo ++ encode 4 magic_number

  pack-none : (opt : BlockOptions) (storage : Bytes) → pack opt none storage ≡ ok (storage, false)
  unfolding pack
  pack-none opt storage = elim (Bool-cases opt.need_compress) [
    | inl t ↦ rw t refl
    | inr t ↦ rw t refl
  ]

  module _ ⦃k : Kernel⦄ (deps : TableDeps) where
    -- The meta block is built and sealed.
    meta_finish :
        (t : SsTableBuilder)
        → ((bytes : Bytes) → length bytes < deps.opt.capacity bytes)
        → 4 < deps.opt.max_block_segments_number
        → length t.last_uk + length t.first_uk + length t.filter_rep + 114 < 2 ^ 32
        → (b : BlockBuilder) × (meta_builder deps t ≡ ok b)
          × (Builder.finish deps.opt deps.crc32c b
              ≡ ok (meta_block deps.crc32c t.last_uk t.first_uk t.filter_rep))
          × (block_is_empty b ≡ false)
          × (length (meta_content t.last_uk t.first_uk t.filter_rep) + 9 < 2 ^ 32)
    unfolding meta_builder
    meta_finish t roomy wide small =
        let (b, run, h, parts, marks, some_segment) = meta_lem deps t wide small in
        let w = meta_weight t.last_uk t.first_uk t.filter_rep in
        let (sealing, total, few) =
          finish_bytes deps.opt deps.crc32c none (ok b)
            (meta_entries t.last_uk t.first_uk t.filter_rep) h (omega (arith, w, small))
            (omega arith) in
        let content = meta_content t.last_uk t.first_uk t.filter_rep in
        let same : content_bytes (segments_held h) h.marks ≡ content =
          ap (λ ps. content_bytes ps h.marks) parts
          ∙ ap (λ ms. content_bytes (meta_parts t.last_uk t.first_uk t.filter_rep) ms) marks in
        let n : length content + 9 < 2 ^ 32 = omega (arith, ap length same, total, w, small) in
        (
          b,
          run,
          sealing
              ∙ ap
                  (λ c. pack deps.opt none (zeros ++ c) >>= λ (packed, compressed).
                    seal deps.opt.capacity deps.crc32c packed compressed)
                  same
              ∙ ap
                  (λ r. r >>= λ (packed, compressed).
                    seal deps.opt.capacity deps.crc32c packed compressed)
                  (pack-none deps.opt (zeros ++ content))
              ∙ seal_lem deps.crc32c content false deps.opt.capacity zeros refl
                  (roomy (zeros ++ content)) n,
          some_segment,
          n,
        )

    -- The end of the file.
    pub write_end_lem :
        (ps : List Piece) (t : SsTableBuilder)
        → IsFiled deps ps t
        → ((bytes : Bytes) → length bytes < deps.opt.capacity bytes)
        → 4 < deps.opt.max_block_segments_number
        → length t.last_uk + length t.first_uk + length t.filter_rep + 114 < 2 ^ 32
        → 0 < length t.last_uk
        → 0 < length t.first_uk
        → 0 < length t.filter_rep
        → (u : SsTableBuilder) × (write_end deps t ≡ ok (true, u))
          × (u.file.disk
              ≡ pieces_bytes ps
                ++ (meta_block deps.crc32c t.last_uk t.first_uk t.filter_rep
                    ++ footer (length (pieces_bytes ps))))
          × (length (meta_content t.last_uk t.first_uk t.filter_rep) + 9 < 2 ^ 32)
    unfolding write_end flush_current_block write_block close
    write_end_lem ps t h roomy wide small last first rep =
        let (b, built, sealing, some_segment, n) = meta_finish t roomy wide small in
        let block = meta_block deps.crc32c t.last_uk t.first_uk t.filter_rep in
        let (g, a, c, bg) = append_lem block t.file h.buffered in
        let (g', a', c', bg') = append_lem (footer t.bytes_appended_to_file) g bg in
        let has_last : is_nil t.last_uk ≡ false = ground arith in
        let has_first : is_nil t.first_uk ≡ false = ground arith in
        let has_rep : is_nil t.filter_rep ≡ false = ground arith in
        (
          record t {
            block_builder = new_block_builder b.compressor;
            file = close g';
            bytes_appended_to_file = t.bytes_appended_to_file + length block;
          },
          rw has_last (
              rw has_first (
                rw has_rep (
                  rw built (
                    rw some_segment
                      (rw sealing (rw a (rw (==_refl (length block)) (rw a' refl)))))))),
          flush-disk g' bg'.valid
              ∙ c'
              ∙ ap (λ s. s ++ footer t.bytes_appended_to_file) (c ∙ ap (λ s. s ++ block) h.bytes)
              ∙ append_assoc (pieces_bytes ps) block (footer t.bytes_appended_to_file)
              ∙ ap (λ m. pieces_bytes ps ++ (block ++ footer m)) h.appended,
          n,
        )
