-- ===== src/SsTable/Adding.antt =====
-- A run of `sstable_builder::add` in table/sstable_builder.cc over the entries of a table.
use frenzy_kv.Prelude.{
  ℕ, ◌+◌, ◌*◌, ◌^◌, ◌≤◌, ◌<◌, ◌≡◌, refl, sym, ap, ◌∙◌, arith, List, [], ◌∷◌, ◌++◌, All, Bool, true,
  false, not, length, length-append, append_assoc, append-nil, if◌then◌else◌, ok, ◌>>=◌, ◌>>◌,
  assert,
}
use frenzy_kv.Bytes.Endian.{BigEndian}
use frenzy_kv.Kv.Key.{SequencedKey}
use frenzy_kv.Kv.Entry.{KvEntry}
use frenzy_kv.Kv.Wire.{user_key_bytes}
use frenzy_kv.Io.Kernel.{Kernel}
use frenzy_kv.Block.Builder
use frenzy_kv.Block.Builder.{BlockBuilder, new_block_builder}
use frenzy_kv.Block.Steps.{IsBlockable}
use frenzy_kv.Block.Building.{weight, weight-append, Follows, Ascends}
use frenzy_kv.Block.Carrying.{Carrying, add-first_lem, add-more_lem}
use frenzy_kv.SsTable.{TableDeps}
use frenzy_kv.SsTable.Pieces.{Piece, pieces_entries}
use frenzy_kv.SsTable.Filling.{IsFiled, Pending, fresh, carried, flush_if_large_lem}
use native.Mathlib.Nat.{mul-add}
use frenzy_kv.SsTable.Limits.{Bounds, FitsTable, fits_front, note_key_lem, note_first_lem}
use frenzy_kv.SsTable.Builder.{
  SsTableBuilder, reach_the_size_limit, note_key, flush_if_large, add, add_each, then_next,
}

module _ ⦃e : BigEndian⦄ ⦃k : Kernel⦄ (deps : TableDeps) (bound growth limit : ℕ) where
  -- A builder that was given the entries `seen`, the last one with the key `last`.
  pub record IsFilling (first last : SequencedKey) (seen : List KvEntry) (t : SsTableBuilder)
      : Type 0 where
    pub pieces : List Piece
    pub pending : List KvEntry
    pub filed : IsFiled deps pieces t
    pub held : Pending deps last t.block_builder pending
    pub entries : pieces_entries pieces ++ pending ≡ seen
    pub flushed : t.size_flushed ≤ 4 * length (pieces_entries pieces)
    pub unfinished : t.finished ≡ false
    pub size_limit : t.size_limit ≡ limit
    pub first_uk : t.first_uk ≡ user_key_bytes first
    pub last_uk : t.last_uk ≡ user_key_bytes last
    pub filter_some : 0 < length t.filter_rep
    pub filter_small : length t.filter_rep ≤ growth * length seen

  -- The block builder takes the next entry.
  Pending-add :
      (last : SequencedKey) (block : BlockBuilder) (pending : List KvEntry) (x : KvEntry)
      → Pending deps last block pending
      → 0 < deps.opt.max_block_segments_number
      → IsBlockable x
      → Follows last x
      → weight pending + 8 < 2 ^ 32
      → (b : BlockBuilder) × (Builder.add deps.opt x.key x.value block ≡ ok b)
        × Carrying deps.zstd b (pending ++ x ∷ []) x.key
  Pending-add last _ _ x fresh pos h follows small = add-first_lem deps.opt deps.zstd x h
  Pending-add last block pending x (carried c) pos h follows small =
      add-more_lem deps.opt deps.zstd block pending last x c pos h follows small

  add_steps :
      (t v : SsTableBuilder) (x : KvEntry) (b : BlockBuilder) (r : Bool × SsTableBuilder)
      → t.finished ≡ false
      → reach_the_size_limit t ≡ false
      → note_key deps x.key t ≡ v
      → Builder.add deps.opt x.key x.value v.block_builder ≡ ok b
      → flush_if_large deps (record v { block_builder = b }) ≡ ok r
      → add deps x.key x.value t ≡ ok r
  unfolding add
  add_steps t v x b r unfinished below noted added large =
      ap
        (λ f.
          assert (not f)
          >> (if reach_the_size_limit t
              then ok (false, t)
              else (Builder.add deps.opt x.key x.value (note_key deps x.key t).block_builder
                  >>= λ block.
                      flush_if_large deps
                        (record (note_key deps x.key t) { block_builder = block }))))
        unfinished
      ∙ ap
          (λ f.
            if f
            then ok (false, t)
            else (Builder.add deps.opt x.key x.value (note_key deps x.key t).block_builder
                >>= λ block.
                    flush_if_large deps (record (note_key deps x.key t) { block_builder = block })))
          below
      ∙ ap
          (λ n. Builder.add deps.opt x.key x.value (SsTableBuilder.block_builder n) >>= λ block.
            flush_if_large deps (record n { block_builder = block }))
          noted
      ∙ ap (λ q. q >>= λ block. flush_if_large deps (record v { block_builder = block })) added
      ∙ large

  add_lem :
      (first last : SequencedKey) (seen : List KvEntry) (t : SsTableBuilder) (x : KvEntry)
      → Bounds deps bound growth
      → IsFilling first last seen t
      → FitsTable bound limit (seen ++ x ∷ [])
      → IsBlockable x
      → Follows last x
      → (u : SsTableBuilder) × (add deps x.key x.value t ≡ ok (true, u))
        × IsFilling first x.key (seen ++ x ∷ []) u
  unfolding reach_the_size_limit
  add_lem first last seen t x bs h fits hx follows =
      let flushed = pieces_entries h.pieces in
      let number : length seen ≡ length flushed + length h.pending =
        ap length (sym h.entries) ∙ length-append flushed h.pending in
      let weights : weight seen ≡ weight flushed + weight h.pending =
        ap weight (sym h.entries) ∙ weight-append flushed h.pending in
      let total = weight-append seen (x ∷ []) in
      let grown = weight-append h.pending (x ∷ []) in
      let count = length-append seen (x ∷ []) in
      let more = length-append h.pending (x ∷ []) in
      let below : reach_the_size_limit t ≡ false =
        ground (arith, h.flushed, h.size_limit, fits.below, number, count) in
      let (rep, noted, some_byte, small) =
        note_key_lem deps bound growth t first x.key bs h.first_uk h.filter_some in
      let (b, added, carrying) =
        Pending-add last t.block_builder h.pending x h.held bs.segments hx follows
          (omega (arith, weights, total, fits.light)) in
      let v : SsTableBuilder = record t {
        filter_rep = rep;
        last_uk = user_key_bytes x.key;
        block_builder = b;
      } in
      let filed : IsFiled deps h.pieces v = record {
        pieces = h.filed.pieces;
        buffered = h.filed.buffered;
        bytes = h.filed.bytes;
        appended = h.filed.appended;
        bounded = h.filed.bounded;
      } in
      let (u, large, m) =
        flush_if_large_lem deps bound h.pieces v (h.pending ++ x ∷ []) x.key filed carrying
          bs.sealable (omega (arith, weights, total, grown, fits.light))
          (omega (arith, weights, total, grown, fits.room))
          (omega (arith, number, count, more, fits.few)) (omega (arith, more)) in
      (
        u,
        add_steps t (record t { filter_rep = rep; last_uk = user_key_bytes x.key }) x b (true, u)
            h.unfinished below noted added large,
        record {
          pieces = m.pieces;
          pending = m.pending;
          filed = m.filed;
          held = m.held;
          entries =
              m.entries
              ∙ sym (append_assoc flushed h.pending (x ∷ []))
              ∙ ap (λ ys. ys ++ x ∷ []) h.entries;
          flushed = omega (arith, m.flushed, h.flushed);
          unfinished = m.kept.finished ∙ h.unfinished;
          size_limit = m.kept.size_limit ∙ h.size_limit;
          first_uk = m.kept.first_uk ∙ h.first_uk;
          last_uk = m.kept.last_uk;
          filter_some = rw m.kept.filter_rep some_byte;
          filter_small = rw m.kept.filter_rep (
              omega (
                arith,
                small,
                h.filter_small,
                ap (λ n. growth * n) count,
                mul-add growth (length seen) 1,
              ));
        },
      )

  pub add_each_lem :
      (xs : List KvEntry) (first last : SequencedKey) (seen : List KvEntry) (t : SsTableBuilder)
      → Bounds deps bound growth
      → IsFilling first last seen t
      → FitsTable bound limit (seen ++ xs)
      → All IsBlockable xs
      → Ascends last xs
      → length last.user_key + 2 < 2 ^ 16
      → (u : SsTableBuilder) × (end : SequencedKey) × (add_each deps xs t ≡ ok (true, u))
        × IsFilling first end (seen ++ xs) u
        × (length end.user_key + 2 < 2 ^ 16)
  unfolding add_each then_next
  add_each_lem [] first last seen t bs h fits hx up short =
      (t, last, refl, rw (append-nil seen) h, short)
  add_each_lem (x ∷ xs) first last seen t bs h fits (hx, hxs) (follows, up) short =
      let flat : (seen ++ x ∷ []) ++ xs ≡ seen ++ x ∷ xs = append_assoc seen (x ∷ []) xs in
      let fits' : FitsTable bound limit ((seen ++ x ∷ []) ++ xs) = rw flat fits in
      let (v, a, hv) =
        add_lem first last seen t x bs h (fits_front bound limit (seen ++ x ∷ []) xs fits') hx
          follows in
      let (u, end, r, hu, n) =
        add_each_lem xs first x.key (seen ++ x ∷ []) v bs hv fits' hxs up hx.key_fits in
      (u, end, rw a r, rw (sym flat) hu, n)

  -- The first entry.
  pub add_first_lem :
      (t : SsTableBuilder) (x : KvEntry)
      → Bounds deps bound growth
      → IsFiled deps [] t
      → t.block_builder ≡ new_block_builder deps.zstd
      → t.finished ≡ false
      → t.size_limit ≡ limit
      → t.size_flushed ≡ 0
      → t.first_uk ≡ []
      → t.last_uk ≡ []
      → t.filter_rep ≡ []
      → FitsTable bound limit (x ∷ [])
      → IsBlockable x
      → (u : SsTableBuilder) × (add deps x.key x.value t ≡ ok (true, u))
        × IsFilling x.key x.key (x ∷ []) u
  unfolding reach_the_size_limit
  add_first_lem t x bs filed block unfinished size_limit flushed first last rep fits hx =
      let key_rep = user_key_bytes x.key in
      let filter_rep = deps.filter.append_new_filter key_rep [] in
      let below : reach_the_size_limit t ≡ false =
        ground (arith, size_limit, flushed, fits.below) in
      let (b, added, carrying) = add-first_lem deps.opt deps.zstd x hx in
      let v : SsTableBuilder = record t {
        first_uk = key_rep;
        filter_rep = filter_rep;
        last_uk = key_rep;
        block_builder = b;
      } in
      let filed_v : IsFiled deps [] v = record {
        pieces = filed.pieces;
        buffered = filed.buffered;
        bytes = filed.bytes;
        appended = filed.appended;
        bounded = filed.bounded;
      } in
      let (u, large, m) =
        flush_if_large_lem deps bound [] v (x ∷ []) x.key filed_v carrying bs.sealable fits.light
          fits.room fits.few (omega arith) in
      let noted = note_first_lem deps t x.key first last rep in
      let taken : Builder.add deps.opt x.key x.value t.block_builder ≡ ok b =
        ap (λ q. Builder.add deps.opt x.key x.value q) block ∙ added in
      (
        u,
        add_steps t (record t { first_uk = key_rep; filter_rep = filter_rep; last_uk = key_rep }) x
            b (true, u) unfinished below noted taken large,
        record {
          pieces = m.pieces;
          pending = m.pending;
          filed = m.filed;
          held = m.held;
          entries = m.entries;
          flushed = omega (arith, m.flushed, flushed);
          unfinished = m.kept.finished ∙ unfinished;
          size_limit = m.kept.size_limit ∙ size_limit;
          first_uk = m.kept.first_uk;
          last_uk = m.kept.last_uk;
          filter_some = rw m.kept.filter_rep (bs.grows key_rep []).0;
          filter_small = rw m.kept.filter_rep (let g = (bs.grows key_rep []).1 in omega (arith, g));
        },
      )
