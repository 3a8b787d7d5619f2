-- ===== src/SsTable/Meta.antt =====
-- The meta block that `sstable_builder::finish` of table/sstable_builder.cc writes.
use frenzy_kv.Prelude.{
  ℕ, ◌+◌, ◌%◌, ◌^◌, ◌<◌, ◌≡◌, refl, sym, ap, ◌∙◌, arith, List, [], ◌∷◌, ◌++◌, false, length,
  length-append, ◌==◌, none, ok, ◌>>=◌,
}
use Prim.Native.Nat.{Ordering}
use frenzy_kv.Bytes.{Bytes}
use frenzy_kv.Bytes.Endian.{BigEndian, encode, length-encode}
use frenzy_kv.Bytes.Order.{
  memcmp_comparator, memcmp_comparator-lexicographic, lexicographic, lexicographic-encode,
  lexicographic-append,
}
use frenzy_kv.Kv.Key.{SequencedKey}
use frenzy_kv.Kv.Value
use frenzy_kv.Kv.Value.{of_string}
use frenzy_kv.Kv.Entry.{KvEntry}
use frenzy_kv.Kv.Wire.{user_key_bytes}
use frenzy_kv.Block.Builder
use frenzy_kv.Block.Builder.{BlockBuilder, new_block_builder, Compressor}
use frenzy_kv.Block.Items.{zeros}
use frenzy_kv.Block.Layout.{Parts}
use frenzy_kv.Block.Steps.{IsBlockable, add_first, add_next}
use frenzy_kv.Block.Building.{weight, weight-append, open_part, IsBuilt}
use frenzy_kv.Block.Growing.{Holds, first-IsBuilt, next-IsBuilt}
use native.Mathlib.Nat.{mod-eq_of_lt}
use frenzy_kv.SsTable.{TableDeps, last_uk_name, first_uk_name, bloom_filter_name}
use frenzy_kv.SsTable.Builder.{meta_entry, block_is_empty, SsTableBuilder}

module _ ⦃e : BigEndian⦄ where
  -- A name that is longer is greater, since its length stands before it.
  longer_lem :
      (m n : ℕ) (short long : Bytes)
      → length short < length long
      → length long < 2 ^ 16
      → memcmp_comparator
          (user_key_bytes (record { seq = m; user_key = long }))
          (user_key_bytes (record { seq = n; user_key = short }))
        ≡ Ordering.gt
  longer_lem m n short long lt fits =
      let a = encode 2 (length long % 2 ^ 16) in
      let b = encode 2 (length short % 2 ^ 16) in
      let small : length long % 2 ^ 16 % 256 ^ 2 ≡ length long = omega arith in
      let smaller : length short % 2 ^ 16 % 256 ^ 2 ≡ length short = omega arith in
      let first : lexicographic a b ≡ Ordering.gt =
        lexicographic-encode 2 (length long % 2 ^ 16) (length short % 2 ^ 16)
        ∙ rw small (rw smaller (ground arith)) in
      memcmp_comparator-lexicographic (a ++ long) (b ++ short)
      ∙ lexicographic-append a b long short
          (length-encode 2 (length long % 2 ^ 16) ∙ sym (length-encode 2 (length short % 2 ^ 16)))
      ∙ rw first refl

  pub meta_entry-IsBlockable :
      (name content : Bytes)
      → length name + 2 < 2 ^ 16
      → length content + 8 < 2 ^ 32
      → IsBlockable (meta_entry name content)
  unfolding Value.serialized_bytes_size Value.is_tomb_stone Value.size
  meta_entry-IsBlockable name content fits small = record {
    key_fits = fits;
    member = record { same_key = refl; seq_fits = omega arith; item_fits = omega arith };
  }

  abbrev pub last_entry : Bytes → KvEntry
  last_entry last_uk = meta_entry last_uk_name last_uk

  abbrev pub first_entry : Bytes → KvEntry
  first_entry first_uk = meta_entry first_uk_name first_uk

  abbrev pub filter_entry : Bytes → KvEntry
  filter_entry filter_rep = meta_entry bloom_filter_name filter_rep

  abbrev pub meta_entries : Bytes → Bytes → Bytes → List KvEntry
  meta_entries last_uk first_uk filter_rep =
      last_entry last_uk ∷ first_entry first_uk ∷ filter_entry filter_rep ∷ []

  -- The segments of the meta block.
  abbrev pub meta_part : KvEntry → Parts
  meta_part x = open_part x.key (x ∷ [])

  abbrev pub meta_parts : Bytes → Bytes → Bytes → List Parts
  meta_parts last_uk first_uk filter_rep =
      meta_part (last_entry last_uk)
      ∷ meta_part (first_entry first_uk)
      ∷ meta_part (filter_entry filter_rep)
      ∷ []

  pub meta_weight :
      (last_uk first_uk filter_rep : Bytes)
      → weight (meta_entries last_uk first_uk filter_rep)
        ≡ length last_uk + length first_uk + length filter_rep + 99
  unfolding weight Value.serialized_bytes_size Value.is_tomb_stone Value.size
  meta_weight last_uk first_uk filter_rep = omega arith

  weight-meta_entry :
      (name content : Bytes)
      → weight (meta_entry name content ∷ []) ≡ length name + length content + 24
  unfolding weight Value.serialized_bytes_size Value.is_tomb_stone Value.size
  weight-meta_entry name content = omega arith

  room_lem :
      {done : List Parts} {before : List KvEntry} {k : SequencedKey} {members : List KvEntry}
      {storage : Bytes} {n : ℕ} {marks : List ℕ}
      → IsBuilt done before k members storage n marks
      → weight before + weight members + 8 < 2 ^ 32
      → length (storage ++ zeros) < 2 ^ 32
  room_lem {storage = storage} b h = omega (arith, b.size, length-append storage zeros, h)

  short_lem : (n m : ℕ) → n < m → n % m ≡ n
  short_lem n m h = mod-eq_of_lt h

  -- The three entries, built into a block with an interval of five segments at least: only the first
  -- of its segments is a special one.
  pub meta_lem :
      (deps : TableDeps) (t : SsTableBuilder)
      → 4 < deps.opt.max_block_segments_number
      → length t.last_uk + length t.first_uk + length t.filter_rep + 114 < 2 ^ 32
      → (b : BlockBuilder) × (Builder.add_entries deps.opt
            (meta_entries t.last_uk t.first_uk t.filter_rep)
            (new_block_builder none)
          ≡ ok b)
        × (h : Holds none (ok b) (meta_entries t.last_uk t.first_uk t.filter_rep)) × (h.done
              ++ open_part h.k h.members ∷ []
            ≡ meta_parts t.last_uk t.first_uk t.filter_rep)
        × (h.marks ≡ 4 ∷ [])
        × (block_is_empty b ≡ false)
  unfolding Builder.add_entries
  meta_lem deps t wide small =
      let x = last_entry t.last_uk in
      let y = first_entry t.first_uk in
      let z = filter_entry t.filter_rep in
      let hx = meta_entry-IsBlockable last_uk_name t.last_uk (omega arith) (omega arith) in
      let hy = meta_entry-IsBlockable first_uk_name t.first_uk (omega arith) (omega arith) in
      let hz = meta_entry-IsBlockable bloom_filter_name t.filter_rep (omega arith) (omega arith) in
      let bx = first-IsBuilt x hx in
      let wx = weight-meta_entry last_uk_name t.last_uk in
      let wy = weight-meta_entry first_uk_name t.first_uk in
      let up = longer_lem 0 0 last_uk_name first_uk_name (omega arith) (omega arith) in
      let (my, ey, ny, qy) =
        add_next deps.opt y x.key _ 1 (4 ∷ []) none hy (omega (arith, wide))
          (room_lem bx (omega (arith, weight-append [] (x ∷ []), wx, small))) up in
      let three : (3 % deps.opt.max_block_segments_number == 0) ≡ false =
        ap (λ n. n == 0) (short_lem 3 deps.opt.max_block_segments_number (omega (arith, wide))) in
      let none_y : my ≡ [] = qy three in
      let by = next-IsBuilt bx y my hy ny in
      let up' = longer_lem 0 0 first_uk_name bloom_filter_name (omega arith) (omega arith) in
      let (mz, ez, nz, qz) =
        add_next deps.opt z y.key _ 2 ((4 ∷ []) ++ my) none hz (omega (arith, wide))
          (room_lem by (omega (arith, weight-append [] (x ∷ []), wx, wy, small))) up' in
      let four : (4 % deps.opt.max_block_segments_number == 0) ≡ false =
        ap (λ n. n == 0) (short_lem 4 deps.opt.max_block_segments_number (omega (arith, wide))) in
      let none_z : mz ≡ [] = qz four in
      let bz = next-IsBuilt by z mz hz nz in
      let run : Builder.add_entries deps.opt (x ∷ y ∷ z ∷ []) (new_block_builder none) ≡ ok _ =
        unfold Builder.add_entries in
        ap (λ r. r >>= λ b. Builder.add_entries deps.opt (y ∷ z ∷ []) b)
          (add_first deps.opt x none hx)
        ∙ ap (λ r. r >>= λ b. Builder.add_entries deps.opt (z ∷ []) b) ey
        ∙ ap (λ r. r >>= λ b. Builder.add_entries deps.opt [] b) ez in
      (
        _,
        run,
        record {
          done = _;
          before = _;
          k = z.key;
          members = z ∷ [];
          storage = _;
          n = _;
          marks = _;
          built = bz;
          returns = refl;
          all = refl;
        },
        refl,
        ap (λ ms. (4 ∷ []) ++ my ++ ms) none_z ∙ ap (λ ms. (4 ∷ []) ++ ms ++ []) none_y,
        refl,
      )
