-- ===== src/SsTable/RoundTrip.antt =====
-- A table through `sstable_builder` of table/sstable_builder.cc and back through `sstable` of
-- table/sstable.cc.
use frenzy_kv.Prelude.{
  some, ◌∙◌, sym, ℕ, ◌+◌, ◌*◌, ◌^◌, ◌<◌, ◌≡◌, refl, arith, List, [], ◌∷◌, All, map, Bool, true,
  false, length, Result, ok, ◌>>=◌, ◌==◌,
}
use frenzy_kv.Bytes.{Bytes}
use frenzy_kv.Bytes.Endian.{BigEndian}
use frenzy_kv.Kv.Entry.{KvEntry}
use frenzy_kv.Kv.Wire.{length-user_key_bytes}
use frenzy_kv.Kv.RoundTrip.{stored}
use frenzy_kv.Io.Kernel.{Kernel}
use frenzy_kv.Io.Readable.{open_readable}
use frenzy_kv.Io.Writable.{Writable}
use frenzy_kv.Io.Writable.Content.{contents}
use frenzy_kv.Version.Descriptor.RoundTrip.{Buffered}
use frenzy_kv.Block.Builder.{Compressor, new_block_builder}
use frenzy_kv.Block.Steps.{IsBlockable}
use frenzy_kv.Compaction.{is_sorted}
use frenzy_kv.SsTable.{TableDeps}
use frenzy_kv.SsTable.Filling.{IsFiled}
use frenzy_kv.SsTable.Adding
use frenzy_kv.SsTable.Limits.{Bounds, FitsTable, fits_front}
use frenzy_kv.SsTable.Adding.{add_first_lem, add_each_lem}
use frenzy_kv.SsTable.Sorted.{is_sorted-Ascends}
use frenzy_kv.SsTable.Closing.{finish_lem, IsTable}
use frenzy_kv.SsTable.Reading
use frenzy_kv.SsTable.Builder.{
  SsTableBuilder, new_sstable_builder, add_each, add_range, then_next, finish,
}
use frenzy_kv.SsTable.Reader.{SsTable, make}
use frenzy_kv.SsTable.Lookup.{get_entries_from_sstable}

module _ ⦃e : BigEndian⦄ ⦃k : Kernel⦄ (deps : TableDeps) where
  -- A builder for the file, the entries, and the end of the table.
  unfoldable pub build_table : ℕ → List KvEntry → Writable → Result (Bool × SsTableBuilder)
  build_table limit entries file = do
    t ← new_sstable_builder deps limit file
    (added, u) ← add_range deps entries t
    finish deps u

  abbrev started : ℕ → Writable → SsTableBuilder
  started limit file = record {
    finished = false;
    size_limit = limit;
    size_flushed = 0;
    first_uk = [];
    last_uk = [];
    filter_rep = [];
    block_builder = new_block_builder deps.zstd;
    file = file;
    bytes_appended_to_file = 0;
  }

  new_sstable_builder_lem :
      (limit : ℕ) (file : Writable)
      → 0 < limit
      → new_sstable_builder deps limit file ≡ ok (started limit file)
  unfolding new_sstable_builder
  new_sstable_builder_lem limit file pos =
      let some_limit : (limit == 0) ≡ false = ground arith in rw some_limit refl

  started-IsFiled :
      (limit : ℕ) (file : Writable)
      → Buffered file
      → contents file ≡ []
      → IsFiled deps [] (started limit file)
  started-IsFiled limit file b new = record {
    pieces = tt;
    buffered = b;
    bytes = new;
    appended = refl;
    bounded = omega arith;
  }

  module _ (bound growth limit : ℕ) where
    -- All entries of the range are added.
    add_range_lem :
        (x : KvEntry) (xs : List KvEntry) (file : Writable)
        → Bounds deps bound growth
        → FitsTable bound limit (x ∷ xs)
        → All IsBlockable (x ∷ xs)
        → is_sorted (x ∷ xs) ≡ true
        → Buffered file
        → contents file ≡ []
        → (u : SsTableBuilder) × (end : _) × (add_range deps (x ∷ xs) (started limit file)
            ≡ ok (true, u))
          × Adding.IsFilling deps bound growth limit x.key end (x ∷ xs) u
          × (length end.user_key + 2 < 2 ^ 16)
    unfolding add_range add_each then_next
    add_range_lem x xs file bs fits (hx, hxs) sorted b new =
        let (v, a, hv) =
          add_first_lem deps bound growth limit (started limit file) x bs
            (started-IsFiled limit file b new) refl refl refl refl refl refl refl
            (fits_front bound limit (x ∷ []) xs fits) hx in
        let (u, end, r, hu, n) =
          add_each_lem deps bound growth limit xs x.key x.key (x ∷ []) v bs hv fits hxs
            (is_sorted-Ascends x xs (hx, hxs) sorted) hx.key_fits in
        (u, end, rw sorted (rw a r), hu, n)

    build_table_lem :
        (x : KvEntry) (xs : List KvEntry) (file : Writable)
        → Bounds deps bound growth
        → FitsTable bound limit (x ∷ xs)
        → 4 < deps.opt.max_block_segments_number
        → growth * length (x ∷ xs) + 2 ^ 18 < 2 ^ 32
        → All IsBlockable (x ∷ xs)
        → is_sorted (x ∷ xs) ≡ true
        → Buffered file
        → contents file ≡ []
        → (u : SsTableBuilder) × (build_table limit (x ∷ xs) file ≡ ok (true, u))
          × IsTable deps u.file.disk (x ∷ xs)
    unfolding build_table
    build_table_lem x xs file bs fits wide small (hx, hxs) sorted b new =
        let (v, end, a, hv, n) = add_range_lem x xs file bs fits (hx, hxs) sorted b new in
        let (u, r, t) =
          finish_lem deps bound growth limit x.key end (x ∷ xs) v hv bs.sealable fits wide (
            omega (
              arith,
              small,
              n,
              hx.key_fits,
              length-user_key_bytes end,
              length-user_key_bytes x.key,
            )) in
        (u, rw (new_sstable_builder_lem limit file (omega (arith, fits.below))) (rw a r), t)

    -- Sorted entries, one at least, that fit their fields and the bounds of a table, added as a range to
    -- a new builder over an empty buffered file, are all taken, and the table is finished. `make` over
    -- the file that it wrote succeeds, and `get_entries_from_sstable` gives the entries in their order,
    -- a value without bytes as a tomb stone. The compressor of the builder, if there is one, is that of
    -- the reader, and takes and gives back what a block holds; a key makes the filter longer, by `growth`
    -- bytes at most; there are more than four segments in an interval of a block; a checksum has 32 bits,
    -- and the memory for a buffer the length that is asked for.
    pub get_entries-build_table :
        (memory : ℕ → Bytes) (c : Compressor) (x : KvEntry) (xs : List KvEntry) (file : Writable)
        → Bounds deps bound growth
        → FitsTable bound limit (x ∷ xs)
        → 4 < deps.opt.max_block_segments_number
        → growth * length (x ∷ xs) + 2 ^ 18 < 2 ^ 32
        → ((bytes : Bytes) → deps.crc32c bytes < 2 ^ 32)
        → ((n : ℕ) → length (memory n) ≡ n)
        → deps.zstd ≡ some c
        → deps.named ≡ some c
        → All IsBlockable (x ∷ xs)
        → is_sorted (x ∷ xs) ≡ true
        → Buffered file
        → contents file ≡ []
        → (u : SsTableBuilder) × (t : SsTable) × (build_table limit (x ∷ xs) file ≡ ok (true, u))
          × (make deps (open_readable u.file.disk) ≡ ok t)
          × (get_entries_from_sstable deps memory t ≡ ok (map stored (x ∷ xs)))
    get_entries-build_table memory c x xs file bs fits wide small crc room builds reads h sorted b
          new =
        let (u, built, table) = build_table_lem x xs file bs fits wide small h sorted b new in
        (
          u,
          Reading.opened deps u.file.disk (x ∷ xs) table fits.few crc,
          built,
          Reading.make_lem deps u.file.disk (x ∷ xs) table fits.few crc c reads,
          Reading.entries_lem deps u.file.disk (x ∷ xs) table fits.few crc memory room
              (reads ∙ sym builds),
        )
