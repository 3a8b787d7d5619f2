-- ===== src/SsTable/Limits.antt =====
-- The bounds of a table, and what `sstable_builder::add` in table/sstable_builder.cc notes of a key.
use frenzy_kv.Prelude.{
  ℕ, ◌+◌, ◌*◌, ◌^◌, ◌≤◌, ◌<◌, ◌≡◌, refl, sym, ap, arith, List, [], ◌++◌, true, false, Bool-cases,
  length, length-append, inl, inr,
}
use frenzy_kv.Bytes.{Bytes, bytes_eq, eq_of_bytes_eq}
use frenzy_kv.Bytes.Endian.{BigEndian}
use frenzy_kv.Kv.Key.{SequencedKey}
use frenzy_kv.Kv.Entry.{KvEntry}
use frenzy_kv.Kv.Wire.{user_key_bytes, length-user_key_bytes, serialize_user_key_as_string_lem}
use frenzy_kv.Io.Kernel.{Kernel}
use frenzy_kv.Block.Building.{weight, weight-append}
use frenzy_kv.Block.RoundTrip.{IsSealable}
use frenzy_kv.SsTable.{TableDeps}
use frenzy_kv.SsTable.Builder.{SsTableBuilder, is_nil, note_key}

-- The entries fit into one table, even if all of them stand in one block: its length has 32 bits, the
-- compressor takes its content, and the limit on the size is not reached. The builder counts the
-- four bytes of the new block toward that limit when it has written one.
pub record FitsTable (bound limit : ℕ) (xs : List KvEntry) : Type 0 where
  pub light : weight xs + 15 < 2 ^ 32
  pub room : weight xs + 6 ≤ bound
  pub few : length xs < 2 ^ 16
  pub below : 4 * length xs < limit

pub fits_front :
    (bound limit : ℕ) (xs ys : List KvEntry)
    → FitsTable bound limit (xs ++ ys)
    → FitsTable bound limit xs
fits_front bound limit xs ys h =
    let n = length-append xs ys in
    let w = weight-append xs ys in
    record {
      light = omega (arith, w, h.light);
      room = omega (arith, w, h.room);
      few = omega (arith, n, h.few);
      below = omega (arith, n, h.below);
    }

module _ ⦃e : BigEndian⦄ where
  -- The bounds of a table: the weight of its entries, their number, and how long the filter grows by a
  -- key.
  pub record Bounds (deps : TableDeps) (bound growth : ℕ) : Type 0 where
    pub sealable : IsSealable deps.opt bound deps.zstd
    pub segments : 0 < deps.opt.max_block_segments_number
    pub grows :
        (key dst : Bytes)
        → (0 < length (deps.filter.append_new_filter key dst))
          × (length (deps.filter.append_new_filter key dst) ≤ length dst + growth)

  not_nil : (key : SequencedKey) → is_nil (user_key_bytes key) ≡ false
  not_nil key = ground (arith, length-user_key_bytes key)

  module _ ⦃k : Kernel⦄ (deps : TableDeps) where
    -- A key that is not the first one.
    pub note_key_lem :
        (bound growth : ℕ) (t : SsTableBuilder) (first key : SequencedKey)
        → Bounds deps bound growth
        → t.first_uk ≡ user_key_bytes first
        → 0 < length t.filter_rep
        → (rep : Bytes) × (note_key deps key t
            ≡ record t { filter_rep = rep; last_uk = user_key_bytes key })
          × (0 < length rep)
          × (length rep ≤ length t.filter_rep + growth)
    unfolding note_key
    note_key_lem bound growth t first key b f pos =
        let started : is_nil t.first_uk ≡ false = rw f (not_nil first) in
        elim (Bool-cases (bytes_eq (user_key_bytes key) t.last_uk)) [
          | inl same ↦ (
            t.filter_rep,
            rw (serialize_user_key_as_string_lem key) (
                rw started (
                  rw same (
                    ap (λ l. record t { last_uk = l })
                      (sym (eq_of_bytes_eq (user_key_bytes key) t.last_uk same))))),
            pos,
            omega arith,
          )
          | inr other ↦ (
            deps.filter.append_new_filter (user_key_bytes key) t.filter_rep,
            rw (serialize_user_key_as_string_lem key) (rw started (rw other refl)),
            (b.grows (user_key_bytes key) t.filter_rep).0,
            (b.grows (user_key_bytes key) t.filter_rep).1,
          )
        ]

    pub note_first_lem :
        (t : SsTableBuilder) (key : SequencedKey)
        → t.first_uk ≡ []
        → t.last_uk ≡ []
        → t.filter_rep ≡ []
        → note_key deps key t ≡ record t {
          first_uk = user_key_bytes key;
          filter_rep = deps.filter.append_new_filter (user_key_bytes key) [];
          last_uk = user_key_bytes key;
        }
    unfolding note_key
    note_first_lem t key first last rep =
        let started : is_nil t.first_uk ≡ true = ground (arith, first) in
        let other : bytes_eq (user_key_bytes key) t.last_uk ≡ false =
          elim (Bool-cases (bytes_eq (user_key_bytes key) t.last_uk)) [
            | inl same ↦ absurd (
                omega (
                  arith,
                  ap length (eq_of_bytes_eq (user_key_bytes key) t.last_uk same),
                  ap length last,
                  length-user_key_bytes key,
                ))
            | inr t ↦ t
          ] in
        rw (serialize_user_key_as_string_lem key) (
          rw started (
            rw other (
              ap
                (λ f. record t {
                  first_uk = user_key_bytes key;
                  filter_rep = deps.filter.append_new_filter (user_key_bytes key) f;
                  last_uk = user_key_bytes key;
                })
                rep)))
