-- ===== src/SsTable/Reading.antt =====
-- A table that `sstable_builder` of table/sstable_builder.cc wrote, opened and read by `sstable` of
-- table/sstable.cc.
use frenzy_kv.Prelude.{
  some, ℕ, suc, ◌+◌, ◌^◌, ◌<◌, ◌≡◌, refl, sym, ap, ◌∙◌, arith, List, [], ◌∷◌, ◌++◌, map, true,
  false, leb, length, length-append, take, drop, take-append, drop-append, take_all, append_assoc,
  append-nil, replicate, length-replicate, ◌==◌, ok,
}
use frenzy_kv.Bytes.{Bytes, overwrite_all}
use frenzy_kv.Bytes.Endian.{BigEndian, encode, decode, length-encode, decode-encode}
use frenzy_kv.Kv.Entry.{KvEntry}
use frenzy_kv.Kv.RoundTrip.{stored}
use frenzy_kv.Io.Kernel.{Kernel}
use frenzy_kv.Io.Readable.{read_at, open_readable}
use frenzy_kv.Block.Reader.{front, first_sentinal}
use frenzy_kv.Block.Integrity.{block_integrity_check-sealed}
use frenzy_kv.Block.Whole.{parse_block_lem, meta_data_beg_lem, interval_lem}
use frenzy_kv.SsTable.{TableDeps, magic_number}
use frenzy_kv.SsTable.Pieces.{
  pieces_bytes, offsets_from, read_at-append, offsets_loop-pieces, entries_of_blocks-pieces,
}
use frenzy_kv.SsTable.Blocks.{length-sealed}
use frenzy_kv.SsTable.Meta.{meta_part, last_entry, first_entry, filter_entry}
use frenzy_kv.SsTable.Ending.{meta_content, meta_block, footer}
use frenzy_kv.SsTable.Closing.{IsTable}
use frenzy_kv.SsTable.Opening.{note_segments_lem, meta-IsWhole}
use frenzy_kv.SsTable.Lookup.{get_entries_from_sstable}
use frenzy_kv.Block.Builder.{Compressor}
use frenzy_kv.SsTable.Reader.{
  SsTable, unparsed, is_some, new_sstable, size_minus, max_size, read_into, first_interval,
  offsets_loop, generate_block_offsets_impl, parse_meta_block, parse_from, parse_meta_data, make,
}

module _ ⦃e : BigEndian⦄ ⦃k : Kernel⦄ (deps : TableDeps) (disk : Bytes) (xs : List KvEntry)
    (h : IsTable deps disk xs) (few : length xs < 2 ^ 16)
    (crc : (bytes : Bytes) → deps.crc32c bytes < 2 ^ 32) where
  abbrev blocks : Bytes
  blocks = pieces_bytes h.pieces

  abbrev meta : Bytes
  meta = meta_block deps.crc32c h.last_uk h.first_uk h.filter_rep

  abbrev end : Bytes
  end = footer (length blocks)

  length-meta : length meta < 2 ^ 32
  length-meta = omega (
    arith,
    length-sealed deps.crc32c (meta_content h.last_uk h.first_uk h.filter_rep) false,
    h.meta_small,
  )

  length-blocks : length blocks < 2 ^ 63
  length-blocks = omega (arith, h.bounded, few)

  length-end : length end ≡ 12
  length-end = omega (
    arith,
    length-append (encode 8 (length blocks)) (encode 4 magic_number),
    length-encode 8 (length blocks),
    length-encode 4 magic_number,
  )

  sizes : length disk ≡ length blocks + length meta + 12
  sizes = omega (
    arith,
    ap length h.bytes,
    length-append blocks (meta ++ end),
    length-append meta end,
    length-end,
  )

  into_lem :
      (n : ℕ) (pre part post : Bytes) (offset : ℕ)
      → disk ≡ pre ++ (part ++ post)
      → length part ≡ n
      → offset ≡ length pre
      → read_into n offset (open_readable disk) ≡ part
  unfolding read_into
  into_lem n pre part post offset is len at =
      let found : read_at n offset (open_readable disk) ≡ part =
        ap (λ d. read_at n offset (open_readable d)) is
        ∙ ap (λ m. read_at n m (open_readable (pre ++ (part ++ post)))) at
        ∙ read_at-append n pre part post len in
      rw found
        (overwrite_all part (replicate n 0) (omega (arith, len, length-replicate {A = ℕ} n 0)))

  -- The meta block, in the file.
  meta_read : read_into (length meta) (length blocks) (open_readable disk) ≡ meta
  meta_read = into_lem (length meta) blocks meta end (length blocks) h.bytes refl refl

  end_read : read_into 12 (length blocks + length meta) (open_readable disk) ≡ end
  end_read =
      into_lem 12 (blocks ++ meta) end [] (length blocks + length meta)
        (h.bytes
          ∙ sym (append_assoc blocks meta end)
          ∙ ap (λ t. (blocks ++ meta) ++ t) (sym (append-nil end)))
        length-end (sym (length-append blocks meta))

  tail : Bytes
  tail = encode 1 0 ++ encode 4 (deps.crc32c (meta_content h.last_uk h.first_uk h.filter_rep))

  noted : SsTable
  noted = record (unparsed (open_readable disk)) {
    filter_rep = h.filter_rep;
    first_uk = h.first_uk;
    last_uk = h.last_uk;
  }

  parse_meta_block_lem :
      parse_meta_block deps (length blocks) (unparsed (open_readable disk)) ≡ ok noted
  unfolding parse_meta_block first_interval front first_sentinal open_readable noted unparsed tail
  parse_meta_block_lem =
      let five : length tail ≡ 5 = omega (
        arith,
        length-append (encode 1 0)
            (encode 4 (deps.crc32c (meta_content h.last_uk h.first_uk h.filter_rep))),
        length-encode 1 0,
        length-encode 4 (deps.crc32c (meta_content h.last_uk h.first_uk h.filter_rep)),
      ) in
      let whole = meta-IsWhole h.last_uk h.first_uk h.filter_rep tail h.small h.meta_small five in
      let part = meta_part (last_entry h.last_uk) in
      let parts = meta_part (first_entry h.first_uk) ∷ meta_part (filter_entry h.filter_rep) ∷ [] in
      let n : size_minus (size_minus (size_minus (length disk) (length blocks)) 8) 4 ≡ length meta =
        ground (arith, sizes) in
      let room : leb (length meta) max_size ≡ true = ground (arith, length-meta) in
      let fine =
        block_integrity_check-sealed deps.crc32c (meta_content h.last_uk h.first_uk h.filter_rep)
          false h.meta_small (crc _) in
      let some_filter : (length h.filter_rep == 0) ≡ false = let p = h.has_filter in ground arith in
      let some_last : (length h.last_uk == 0) ≡ false = let p = h.has_last in ground arith in
      let some_first : (length h.first_uk == 0) ≡ false = let p = h.has_first in ground arith in
      rw n (
        rw room (
          rw meta_read (
            rw fine (
              rw (parse_block_lem part parts [] tail whole) (
                rw (meta_data_beg_lem part parts [] tail whole) (
                  rw (interval_lem part parts [] tail whole) (
                    rw
                      (note_segments_lem h.last_uk h.first_uk h.filter_rep
                        (unparsed (open_readable disk)) h.has_last h.has_first h.has_filter
                        (let s = h.small in omega arith))
                      (rw some_filter (rw some_last (rw some_first refl))))))))))

  offsets : List (ℕ × ℕ)
  offsets = offsets_from 0 h.pieces

  pub opened : SsTable
  opened = record noted { block_offsets = offsets; meta_data_parsed = true }

  parse_from_lem :
      parse_from deps (length blocks) (unparsed (open_readable disk)) ≡ ok (true, opened)
  unfolding parse_from generate_block_offsets_impl noted opened offsets unparsed
  parse_from_lem =
      let zero : length blocks ≡ 0 + length blocks = omega arith in
      let found : offsets_loop (suc (length blocks)) 0 (length blocks) noted ≡ ok (true, offsets) =
        ap (λ m. offsets_loop (suc (length blocks)) 0 m noted) zero
        ∙ offsets_loop-pieces (suc (length blocks)) deps.crc32c deps.zstd h.pieces [] (meta ++ end)
            noted (ap open_readable h.bytes) h.are (omega arith) in
      rw parse_meta_block_lem (rw found refl)

  parse_meta_data_lem : parse_meta_data deps (unparsed (open_readable disk)) ≡ ok (true, opened)
  unfolding parse_meta_data open_readable unparsed
  parse_meta_data_lem =
      let at : size_minus (length disk) 12 ≡ length blocks + length meta = ground (arith, sizes) in
      let eight = length-encode 8 (length blocks) in
      let mbo : decode (take 8 end) ≡ length blocks =
        ap decode (take-append 8 (encode 8 (length blocks)) (encode 4 magic_number) eight)
        ∙ decode-encode 8 (length blocks) (omega (arith, length-blocks)) in
      let magic : decode (take 4 (drop 8 end)) ≡ magic_number =
        ap (λ b. decode (take 4 b))
          (drop-append 8 (encode 8 (length blocks)) (encode 4 magic_number) eight)
        ∙ ap decode
            (take_all 4 (encode 4 magic_number) (omega (arith, length-encode 4 magic_number)))
        ∙ decode-encode 4 magic_number (omega arith) in
      rw at (rw end_read (rw magic (rw mbo parse_from_lem)))

  pub make_lem : (c : Compressor) → deps.named ≡ some c → make deps (open_readable disk) ≡ ok opened
  unfolding make new_sstable
  make_lem c named =
      let present : is_some deps.named ≡ true = rw named refl in
      rw present (rw parse_meta_data_lem refl)

  pub entries_lem :
      (memory : ℕ → Bytes)
      → ((n : ℕ) → length (memory n) ≡ n)
      → deps.named ≡ deps.zstd
      → get_entries_from_sstable deps memory opened ≡ ok (map stored xs)
  unfolding get_entries_from_sstable opened noted offsets unparsed
  entries_lem memory room same =
      entries_of_blocks-pieces deps memory h.pieces [] (meta ++ end) opened
        (ap open_readable h.bytes) room crc (rw same h.are)
      ∙ ap (λ ys. ok (map stored ys)) h.entries
