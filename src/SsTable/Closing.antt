-- ===== src/SsTable/Closing.antt =====
-- The end of a table: `sstable_builder::finish` of table/sstable_builder.cc.
use frenzy_kv.Prelude.{
  ℕ, ◌+◌, ◌*◌, ◌^◌, ◌≤◌, ◌<◌, ◌≡◌, refl, sym, ap, ◌∙◌, arith, List, [], ◌∷◌, ◌++◌, All, Bool, true,
  false, not, length, length-append, append-nil, if◌then◌else◌, ok, ◌>>=◌, ◌>>◌, assert,
}
use frenzy_kv.Bytes.{Bytes}
use frenzy_kv.Bytes.Endian.{BigEndian}
use frenzy_kv.Kv.Key.{SequencedKey}
use frenzy_kv.Kv.Entry.{KvEntry}
use frenzy_kv.Kv.Wire.{user_key_bytes, length-user_key_bytes}
use frenzy_kv.Io.Kernel.{Kernel}
use frenzy_kv.Block.Builder.{BlockBuilder, new_block_builder}
use frenzy_kv.Block.Building.{weight-append}
use frenzy_kv.Block.RoundTrip.{IsSealable}
use frenzy_kv.Block.Carrying.{Carrying}
use frenzy_kv.SsTable.{TableDeps}
use frenzy_kv.SsTable.Pieces.{Piece, IsPiece, pieces_bytes, pieces_entries, pieces_entries-append}
use frenzy_kv.SsTable.Filling.{
  IsFiled, Pending, fresh, carried, Kept, carried_block, flush_current_block_lem,
}
use frenzy_kv.SsTable.Limits.{FitsTable}
use frenzy_kv.SsTable.Adding.{IsFilling}
use frenzy_kv.SsTable.Builder.{
  SsTableBuilder, is_nil, empty, block_is_empty, flush_current_block, write_end, finish,
}
use frenzy_kv.SsTable.Ending.{meta_content, meta_block, footer, write_end_lem}

module _ ⦃e : BigEndian⦄ where
  module _ ⦃k : Kernel⦄ (deps : TableDeps) where
    -- What the last call has left in the builder is written.
    pub record Flushed (entries : List KvEntry) (t : SsTableBuilder) : Type 0 where
      pub result : Bool
      pub u : SsTableBuilder
      pub returns : flush_current_block deps false t ≡ ok (result, u)
      pub pieces : List Piece
      pub filed : IsFiled deps pieces u
      pub same_entries : pieces_entries pieces ≡ entries
      pub kept : Kept deps t u
      pub unfinished : t.block_builder.finished ≡ false

    flush_fresh :
        (ps : List Piece) (t : SsTableBuilder)
        → IsFiled deps ps t
        → t.block_builder ≡ new_block_builder deps.zstd
        → Flushed (pieces_entries ps) t
    unfolding flush_current_block
    flush_fresh ps t h b = record {
      result = false;
      u = t;
      returns =
          let none_open : block_is_empty t.block_builder ≡ true = ap block_is_empty b in
          rw none_open refl;
      pieces = ps;
      filed = h;
      same_entries = refl;
      kept = record {
        finished = refl;
        size_limit = refl;
        first_uk = refl;
        last_uk = refl;
        filter_rep = refl;
      };
      unfinished = ap BlockBuilder.finished b;
    }

    flush_end :
        (bound limit : ℕ) (ps : List Piece) (t : SsTableBuilder) (block : BlockBuilder)
        (pending : List KvEntry) (last : SequencedKey)
        → t.block_builder ≡ block
        → IsFiled deps ps t
        → Pending deps last block pending
        → IsSealable deps.opt bound deps.zstd
        → FitsTable bound limit (pieces_entries ps ++ pending)
        → Flushed (pieces_entries ps ++ pending) t
    flush_end bound limit ps t _ _ last same h fresh lossless f =
        rw (append-nil (pieces_entries ps)) (flush_fresh ps t h same)
    flush_end bound limit ps t block pending last same h (carried {b} {xs} c) lossless f =
        let w = weight-append (pieces_entries ps) pending in
        let n = length-append (pieces_entries ps) pending in
        let c' : Carrying deps.zstd t.block_builder pending last = rw same c in
        let (p, u, r, filed, entries, fresh_block, size, kept) =
          flush_current_block_lem deps false bound ps t pending last h c' lossless
            (omega (arith, w, f.light)) (omega (arith, w, f.room)) (omega (arith, n, f.few)) in
        let (nonempty, unfinished, compressor) = carried_block deps c' in
        record {
          result = true;
          u = u;
          returns = r;
          pieces = ps ++ p ∷ [];
          filed = filed;
          same_entries =
              pieces_entries-append ps (p ∷ [])
              ∙ ap (λ ys. pieces_entries ps ++ ys) (append-nil p.entries ∙ entries);
          kept = kept;
          unfinished = unfinished;
        }

    finish_steps :
        (t : SsTableBuilder) (result : Bool) (u : SsTableBuilder) (r : Bool × SsTableBuilder)
        → t.finished ≡ false
        → t.block_builder.finished ≡ false
        → flush_current_block deps false (record t { finished = true }) ≡ ok (result, u)
        → empty u ≡ false
        → write_end deps u ≡ ok r
        → finish deps t ≡ ok r
    unfolding finish
    finish_steps t result u r unfinished block flushed some_key written =
        let closing : SsTableBuilder = record t { finished = true } in
        ap
          (λ f.
            assert (not f)
            >> ((if t.block_builder.finished
                  then ok (true, closing)
                  else flush_current_block deps false closing)
                >>= λ (result, u). if empty u then ok (true, u) else write_end deps u))
          unfinished
        ∙ ap
            (λ f.
              (if f then ok (true, closing) else flush_current_block deps false closing)
              >>= λ (result, u). if empty u then ok (true, u) else write_end deps u)
            block
        ∙ ap (λ q. q >>= λ (result, u). if empty u then ok (true, u) else write_end deps u) flushed
        ∙ ap (λ f. if f then ok (true, u) else write_end deps u) some_key
        ∙ written

    -- A file that is a table of some entries.
    pub record IsTable (disk : Bytes) (xs : List KvEntry) : Type 0 where
      pub pieces : List Piece
      pub last_uk : Bytes
      pub first_uk : Bytes
      pub filter_rep : Bytes
      pub are : All (IsPiece deps.crc32c deps.zstd) pieces
      pub entries : pieces_entries pieces ≡ xs
      pub bytes :
          disk
          ≡ pieces_bytes pieces
            ++ (meta_block deps.crc32c last_uk first_uk filter_rep
                ++ footer (length (pieces_bytes pieces)))
      pub bounded : length (pieces_bytes pieces) ≤ 2 ^ 32 * length xs
      pub has_last : 0 < length last_uk
      pub has_first : 0 < length first_uk
      pub has_filter : 0 < length filter_rep
      pub small : length last_uk + length first_uk + length filter_rep + 114 < 2 ^ 32
      pub meta_small : length (meta_content last_uk first_uk filter_rep) + 9 < 2 ^ 32

    -- `finish` makes a table of the entries that were added.
    pub finish_lem :
        (bound growth limit : ℕ) (first last : SequencedKey) (xs : List KvEntry)
        (t : SsTableBuilder)
        → IsFilling deps bound growth limit first last xs t
        → IsSealable deps.opt bound deps.zstd
        → FitsTable bound limit xs
        → 4 < deps.opt.max_block_segments_number
        → length (user_key_bytes last) + length (user_key_bytes first) + growth * length xs + 114
          < 2 ^ 32
        → (u : SsTableBuilder) × (finish deps t ≡ ok (true, u)) × IsTable u.file.disk xs
    unfolding empty
    finish_lem bound growth limit first last xs t h lossless f wide small =
        let closing : SsTableBuilder = record t { finished = true } in
        let filed : IsFiled deps h.pieces closing = record {
          pieces = h.filed.pieces;
          buffered = h.filed.buffered;
          bytes = h.filed.bytes;
          appended = h.filed.appended;
          bounded = h.filed.bounded;
        } in
        let fl =
          flush_end bound limit h.pieces closing t.block_builder h.pending last refl filed h.held
            lossless (rw h.entries f) in
        let last_is : fl.u.last_uk ≡ user_key_bytes last = fl.kept.last_uk ∙ h.last_uk in
        let first_is : fl.u.first_uk ≡ user_key_bytes first = fl.kept.first_uk ∙ h.first_uk in
        let has_rep : 0 < length fl.u.filter_rep = rw fl.kept.filter_rep h.filter_some in
        let rep_small : length fl.u.filter_rep ≤ growth * length xs =
          rw fl.kept.filter_rep h.filter_small in
        let has_last : 0 < length fl.u.last_uk =
          rw last_is (omega (arith, length-user_key_bytes last)) in
        let has_first : 0 < length fl.u.first_uk =
          rw first_is (omega (arith, length-user_key_bytes first)) in
        let meta_small : length fl.u.last_uk + length fl.u.first_uk + length fl.u.filter_rep + 114
            < 2 ^ 32 =
          omega (arith, ap length last_is, ap length first_is, rep_small, small) in
        let (v, r, disk, meta_fits) =
          write_end_lem deps fl.pieces fl.u fl.filed lossless.roomy wide meta_small has_last
            has_first has_rep in
        let not_empty : is_nil fl.u.filter_rep ≡ false = ground (arith, has_rep) in
        (
          v,
          finish_steps t fl.result fl.u (true, v) h.unfinished fl.unfinished fl.returns not_empty r,
          record {
            pieces = fl.pieces;
            last_uk = fl.u.last_uk;
            first_uk = fl.u.first_uk;
            filter_rep = fl.u.filter_rep;
            are = fl.filed.pieces;
            entries = fl.same_entries ∙ h.entries;
            bytes = disk;
            bounded = rw (sym (fl.same_entries ∙ h.entries)) fl.filed.bounded;
            has_last = has_last;
            has_first = has_first;
            has_filter = has_rep;
            small = meta_small;
            meta_small = meta_fits;
          },
        )
