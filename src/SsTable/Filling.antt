-- ===== src/SsTable/Filling.antt =====
-- What `sstable_builder` of table/sstable_builder.cc has written and holds, entry after entry.
use frenzy_kv.Prelude.{
  ℕ, ◌+◌, ◌*◌, ◌^◌, ◌≤◌, ◌<◌, ◌≡◌, refl, sym, ap, ◌∙◌, arith, List, [], ◌∷◌, ◌++◌, All, append-All,
  Bool, true, false, Bool-cases, leb, length, length-append, append-nil, ==_refl, Option, ok, inl,
  inr,
}
use frenzy_kv.Bytes.Endian.{BigEndian}
use frenzy_kv.Kv.Key.{SequencedKey}
use frenzy_kv.Kv.Entry.{KvEntry}
use frenzy_kv.Io.Kernel.{Kernel}
use frenzy_kv.Io.Writable.{flush}
use frenzy_kv.Io.Writable.Content.{contents, flush_valid_lem}
use frenzy_kv.Version.Descriptor.RoundTrip.{Buffered, append_lem}
use frenzy_kv.Block.Builder.{BlockBuilder, new_block_builder, Compressor}
use frenzy_kv.Block.Building.{weight}
use frenzy_kv.Block.Carrying.{Carrying, finish-carried_lem}
use frenzy_kv.Block.RoundTrip.{IsSealable}
use frenzy_kv.SsTable.{TableDeps}
use frenzy_kv.SsTable.Pieces.{
  Piece, IsPiece, IsBlockOf-Starts, pieces_bytes, pieces_entries, pieces_bytes-append,
  pieces_entries-append,
}
use frenzy_kv.SsTable.Builder.{
  SsTableBuilder, block_is_empty, write_block, flush_current_block, flush_if_large,
}

module _ ⦃e : BigEndian⦄ ⦃k : Kernel⦄ (deps : TableDeps) where
  -- The file holds the blocks that were written.
  pub record IsFiled (ps : List Piece) (t : SsTableBuilder) : Type 0 where
    pub pieces : All (IsPiece deps.crc32c deps.zstd) ps
    pub buffered : Buffered t.file
    pub bytes : contents t.file ≡ pieces_bytes ps
    pub appended : t.bytes_appended_to_file ≡ length (pieces_bytes ps)
    pub bounded : length (pieces_bytes ps) ≤ 2 ^ 32 * length (pieces_entries ps)

  -- The block builder holds the entries of the next block, of which there may be none.
  pub data Pending (last : SequencedKey) : BlockBuilder → List KvEntry → Type 0 where
    fresh : Pending last (new_block_builder deps.zstd) []
    carried :
        {b : BlockBuilder} {xs : List KvEntry} → Carrying deps.zstd b xs last → Pending last b xs

  -- What a write leaves as it is.
  pub record Kept (t u : SsTableBuilder) : Type 0 where
    pub finished : u.finished ≡ t.finished
    pub size_limit : u.size_limit ≡ t.size_limit
    pub first_uk : u.first_uk ≡ t.first_uk
    pub last_uk : u.last_uk ≡ t.last_uk
    pub filter_rep : u.filter_rep ≡ t.filter_rep

  pub carried_block :
      {c : Option Compressor} {b : BlockBuilder} {xs : List KvEntry} {last : SequencedKey}
      → Carrying c b xs last
      → (block_is_empty b ≡ false) × (b.finished ≡ false) × (b.compressor ≡ c)
  carried_block h = (rw h.is refl, rw h.is refl, rw h.is refl)

  carried_some :
      {c : Option Compressor} {b : BlockBuilder} {xs : List KvEntry} {last : SequencedKey}
      → Carrying c b xs last
      → 0 < length xs
  carried_some h =
      let w = h.built in
      omega
        (arith, ap length (sym h.all), length-append h.before h.members, w.few, ap length w.first)

  -- A write of the block at hand.
  pub write_block_lem :
      (bound : ℕ) (ps : List Piece) (t : SsTableBuilder) (xs : List KvEntry) (last : SequencedKey)
      → IsFiled ps t
      → Carrying deps.zstd t.block_builder xs last
      → IsSealable deps.opt bound deps.zstd
      → weight xs + 15 < 2 ^ 32
      → weight xs + 6 ≤ bound
      → length xs < 2 ^ 16
      → (p : Piece) × (u : SsTableBuilder) × (write_block deps t ≡ ok (true, u))
        × IsFiled (ps ++ p ∷ []) u
        × (p.entries ≡ xs)
        × (u.block_builder ≡ new_block_builder deps.zstd)
        × (u.size_flushed ≡ t.size_flushed)
        × Kept t u
  unfolding write_block
  write_block_lem bound ps t xs last h b lossless light room few =
      let (content, block, f, of, is, small) =
        finish-carried_lem deps.opt deps.zstd deps.crc32c bound t.block_builder xs last b lossless
          light room few in
      let (g, a, c, bg) = append_lem block t.file h.buffered in
      let p : Piece = record { content = content; block = block; entries = xs } in
      let (nonempty, unfinished, same) = carried_block b in
      let u : SsTableBuilder = record t {
        block_builder = new_block_builder t.block_builder.compressor;
        file = g;
        bytes_appended_to_file = t.bytes_appended_to_file + length block;
      } in
      let joined : pieces_bytes (ps ++ p ∷ []) ≡ pieces_bytes ps ++ block =
        pieces_bytes-append ps (p ∷ []) ∙ ap (λ b. pieces_bytes ps ++ b) (append-nil block) in
      (
        p,
        u,
        rw f (rw a (rw (==_refl (length block)) refl)),
        record {
          pieces =
              append-All (IsPiece deps.crc32c deps.zstd) ps (p ∷ []) h.pieces
                (record { of = of; is = is; small = small }, tt);
          buffered = bg;
          bytes = c ∙ ap (λ b. b ++ block) h.bytes ∙ sym joined;
          appended =
              omega (arith, h.appended, ap length joined, length-append (pieces_bytes ps) block);
          bounded = omega (
            arith,
            h.bounded,
            ap length joined,
            length-append (pieces_bytes ps) block,
            (IsBlockOf-Starts deps.crc32c deps.zstd content block of small).fits,
            ap length (pieces_entries-append ps (p ∷ [])),
            length-append (pieces_entries ps) (xs ++ []),
            length-append xs [],
            carried_some b,
          );
        },
        refl,
        ap (λ c. new_block_builder c) same,
        refl,
        record {
          finished = refl;
          size_limit = refl;
          first_uk = refl;
          last_uk = refl;
          filter_rep = refl;
        },
      )

  flush-IsFiled :
      (ps : List Piece) (t : SsTableBuilder)
      → IsFiled ps t
      → IsFiled ps (record t { file = flush t.file })
  unfolding flush
  flush-IsFiled ps t h =
      let fl = flush_valid_lem t.file h.buffered.valid in
      record {
        pieces = h.pieces;
        buffered = record {
          valid = fl.still_valid;
          buffered = fl.same.buffering ∙ h.buffered.buffered;
        };
        bytes = fl.same_bytes ∙ h.bytes;
        appended = h.appended;
        bounded = h.bounded;
      }

  -- The same with a flush or without one.
  pub flush_current_block_lem :
      (need_flush : Bool) (bound : ℕ) (ps : List Piece) (t : SsTableBuilder) (xs : List KvEntry)
      (last : SequencedKey)
      → IsFiled ps t
      → Carrying deps.zstd t.block_builder xs last
      → IsSealable deps.opt bound deps.zstd
      → weight xs + 15 < 2 ^ 32
      → weight xs + 6 ≤ bound
      → length xs < 2 ^ 16
      → (p : Piece) × (u : SsTableBuilder) × (flush_current_block deps need_flush t ≡ ok (true, u))
        × IsFiled (ps ++ p ∷ []) u
        × (p.entries ≡ xs)
        × (u.block_builder ≡ new_block_builder deps.zstd)
        × (u.size_flushed ≡ t.size_flushed)
        × Kept t u
  unfolding flush_current_block
  flush_current_block_lem false bound ps t xs last h b lossless light room few =
      let (p, u, w, filed, entries, fresh_block, size, kept) =
        write_block_lem bound ps t xs last h b lossless light room few in
      let (nonempty, unfinished, same) = carried_block b in
      (p, u, rw nonempty (rw w refl), filed, entries, fresh_block, size, kept)
  flush_current_block_lem true bound ps t xs last h b lossless light room few =
      let (p, u, w, filed, entries, fresh_block, size, kept) =
        write_block_lem bound ps t xs last h b lossless light room few in
      let (nonempty, unfinished, same) = carried_block b in
      (
        p,
        record u { file = flush u.file },
        rw nonempty (rw w refl),
        flush-IsFiled (ps ++ p ∷ []) u filed,
        entries,
        fresh_block,
        size,
        record {
          finished = kept.finished;
          size_limit = kept.size_limit;
          first_uk = kept.first_uk;
          last_uk = kept.last_uk;
          filter_rep = kept.filter_rep;
        },
      )

  -- What is written and pending after a round.
  pub record Moved (ps : List Piece) (xs : List KvEntry) (last : SequencedKey)
      (t u : SsTableBuilder) : Type 0 where
    pub pieces : List Piece
    pub pending : List KvEntry
    pub filed : IsFiled pieces u
    pub held : Pending last u.block_builder pending
    pub entries : pieces_entries pieces ++ pending ≡ pieces_entries ps ++ xs
    pub flushed :
        u.size_flushed + 4 * length (pieces_entries ps)
        ≤ t.size_flushed + 4 * length (pieces_entries pieces)
    pub kept : Kept t u

  pub flush_if_large_lem :
      (bound : ℕ) (ps : List Piece) (t : SsTableBuilder) (xs : List KvEntry) (last : SequencedKey)
      → IsFiled ps t
      → Carrying deps.zstd t.block_builder xs last
      → IsSealable deps.opt bound deps.zstd
      → weight xs + 15 < 2 ^ 32
      → weight xs + 6 ≤ bound
      → length xs < 2 ^ 16
      → 0 < length xs
      → (u : SsTableBuilder) × (flush_if_large deps t ≡ ok (true, u)) × Moved ps xs last t u
  unfolding flush_if_large
  flush_if_large_lem bound ps t xs last h b lossless light room few pos =
      let (p, u, w, filed, entries, fresh_block, size, kept) =
        flush_current_block_lem true bound ps t xs last h b lossless light room few in
      elim (Bool-cases (leb deps.block_size (length t.block_builder.storage))) [
        | inl large ↦
            let four : length u.block_builder.storage ≡ 4 =
              ap (λ b. length (BlockBuilder.storage b)) fresh_block in
            let joined : pieces_entries (ps ++ p ∷ []) ≡ pieces_entries ps ++ xs =
              pieces_entries-append ps (p ∷ [])
              ∙ ap (λ ys. pieces_entries ps ++ ys) (append-nil p.entries ∙ entries) in
            (
              record u { size_flushed = u.size_flushed + length u.block_builder.storage },
              rw large (rw w refl),
              record {
                pieces = ps ++ p ∷ [];
                pending = [];
                filed = record {
                  pieces = filed.pieces;
                  buffered = filed.buffered;
                  bytes = filed.bytes;
                  appended = filed.appended;
                  bounded = filed.bounded;
                };
                held = rw fresh_block fresh;
                entries = append-nil (pieces_entries (ps ++ p ∷ [])) ∙ joined;
                flushed = omega (
                  arith,
                  size,
                  four,
                  ap length joined,
                  length-append (pieces_entries ps) xs,
                  pos,
                );
                kept = record {
                  finished = kept.finished;
                  size_limit = kept.size_limit;
                  first_uk = kept.first_uk;
                  last_uk = kept.last_uk;
                  filter_rep = kept.filter_rep;
                };
              },
            )
        | inr small ↦ (
          t,
          rw small refl,
          record {
            pieces = ps;
            pending = xs;
            filed = h;
            held = carried b;
            entries = refl;
            flushed = omega arith;
            kept = record {
              finished = refl;
              size_limit = refl;
              first_uk = refl;
              last_uk = refl;
              filter_rep = refl;
            };
          },
        )
      ]
