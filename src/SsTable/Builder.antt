-- ===== src/SsTable/Builder.antt =====
-- `sstable_builder` of include/frenzykv/table/sstable_builder.h and table/sstable_builder.cc.
use frenzy_kv.Prelude.{
  ℕ, ◌+◌, List, [], ◌∷◌, ◌++◌, Bool, true, false, not, length, leb, ◌==◌, if◌then◌else◌, none, some,
  Result, ok, ◌>>=◌, ◌>>◌, assert,
}
use frenzy_kv.Bytes.{Bytes, bytes_eq}
use frenzy_kv.Bytes.Endian.{BigEndian, encode}
use frenzy_kv.Kv.Key.{SequencedKey, serialize_user_key_as_string}
use frenzy_kv.Kv.Value.{UserValue, of_string}
use frenzy_kv.Kv.Entry.{KvEntry}
use frenzy_kv.Io.Kernel.{Kernel}
use frenzy_kv.Io.Writable.{Writable, append, flush, close}
use frenzy_kv.Block.Builder
use frenzy_kv.Block.Builder.{BlockBuilder, new_block_builder}
use frenzy_kv.Compaction.{is_sorted}
use frenzy_kv.SsTable.{TableDeps, magic_number, last_uk_name, first_uk_name, bloom_filter_name}

pub record SsTableBuilder : Type 0 where
  pub finished : Bool
  pub size_limit : ℕ
  pub size_flushed : ℕ
  pub first_uk : Bytes
  pub last_uk : Bytes
  pub filter_rep : Bytes
  pub block_builder : BlockBuilder
  pub file : Writable
  pub bytes_appended_to_file : ℕ

abbrev pub is_nil : Bytes → Bool
is_nil s = length s == 0

unfoldable pub new_sstable_builder : TableDeps → ℕ → Writable → Result SsTableBuilder
new_sstable_builder deps size_limit file =
    assert (not (size_limit == 0))
    >> ok (record {
      finished = false;
      size_limit = size_limit;
      size_flushed = 0;
      first_uk = [];
      last_uk = [];
      filter_rep = [];
      block_builder = new_block_builder deps.zstd;
      file = file;
      bytes_appended_to_file = 0;
    })

unfoldable pub reach_the_size_limit : SsTableBuilder → Bool
reach_the_size_limit t = leb t.size_limit t.size_flushed

unfoldable pub empty : SsTableBuilder → Bool
empty t = is_nil t.filter_rep

abbrev pub block_is_empty : BlockBuilder → Bool
block_is_empty b = elim b.current_seg_builder [ none ↦ true | some seg ↦ false ]

abbrev pub meta_entry : Bytes → Bytes → KvEntry
meta_entry name content = record {
  key = record { seq = 0; user_key = name };
  value = of_string content;
}

module _ ⦃e : BigEndian⦄ ⦃k : Kernel⦄ (deps : TableDeps) where
  -- The part of `flush_current_block` that writes the block, and whether it was written as a whole.
  unfoldable pub write_block : SsTableBuilder → Result (Bool × SsTableBuilder)
  write_block t = do
    block_storage ← Builder.finish deps.opt deps.crc32c t.block_builder
    (wrote, file) ← append block_storage t.file
    let result = wrote == length block_storage
    ok (
      result,
      record t {
        block_builder = new_block_builder t.block_builder.compressor;
        file = file;
        bytes_appended_to_file =
            if result then t.bytes_appended_to_file + wrote else t.bytes_appended_to_file;
      },
    )

  unfoldable pub flush_current_block : Bool → SsTableBuilder → Result (Bool × SsTableBuilder)
  flush_current_block need_flush t = do
    (result, u) ← (if block_is_empty t.block_builder then ok (false, t) else write_block t)
    ok (result, if need_flush then record u { file = flush u.file } else u)

  -- "Including the length encoded part at the begging of the key_rep"
  unfoldable pub note_key : SequencedKey → SsTableBuilder → SsTableBuilder
  note_key key t =
      let key_rep = serialize_user_key_as_string key in
      let started = if is_nil t.first_uk then record t { first_uk = key_rep } else t in
      if bytes_eq key_rep started.last_uk then started else record started {
        filter_rep = deps.filter.append_new_filter key_rep started.filter_rep;
        last_uk = key_rep;
      }

  -- "Flush to file"
  unfoldable pub flush_if_large : SsTableBuilder → Result (Bool × SsTableBuilder)
  flush_if_large t =
      if leb deps.block_size (length t.block_builder.storage)
      then (do
        (ret, u) ← flush_current_block true t
        ok (
            if ret
            then (true, record u { size_flushed = u.size_flushed + length u.block_builder.storage })
            else (false, u)))
      else ok (true, t)

  unfoldable pub add : SequencedKey → UserValue → SsTableBuilder → Result (Bool × SsTableBuilder)
  add key value t = do
    assert (not t.finished)
    if reach_the_size_limit t then ok (false, t) else (do
      let noted = note_key key t
      block_builder ← Builder.add deps.opt key value noted.block_builder
      flush_if_large (record noted { block_builder = block_builder }))

  -- The rest of a round that has added its entry, or has not.
  unfoldable pub then_next :
      Bool
      → SsTableBuilder
      → (SsTableBuilder → Result (Bool × SsTableBuilder))
      → Result (Bool × SsTableBuilder)
  then_next false t rest = ok (false, t)
  then_next true t rest = rest t

  unfoldable pub add_each : List KvEntry → SsTableBuilder → Result (Bool × SsTableBuilder)
  add_each [] t = ok (true, t)
  add_each (x ∷ xs) t = add x.key x.value t >>= λ (result, u). then_next result u (add_each xs)

  -- The overload for a range.
  unfoldable pub add_range : List KvEntry → SsTableBuilder → Result (Bool × SsTableBuilder)
  add_range entries t = assert (is_sorted entries) >> add_each entries t

  -- "Build meta block"
  unfoldable pub meta_builder : SsTableBuilder → Result BlockBuilder
  meta_builder t =
      Builder.add_entries deps.opt
        (meta_entry last_uk_name t.last_uk
          ∷ meta_entry first_uk_name t.first_uk
          ∷ meta_entry bloom_filter_name t.filter_rep
          ∷ [])
        (new_block_builder none)

  -- The meta block and what stands behind it.
  unfoldable pub write_end : SsTableBuilder → Result (Bool × SsTableBuilder)
  write_end t = do
    assert (not (is_nil t.last_uk))
    assert (not (is_nil t.first_uk))
    assert (not (is_nil t.filter_rep))
    built ← meta_builder t
    let mbo = t.bytes_appended_to_file
    (result, u) ← flush_current_block false (record t { block_builder = built })
    (wrote, file) ← append (encode 8 mbo ++ encode 4 magic_number) u.file
    ok (true, record u { file = close file })

  unfoldable pub finish : SsTableBuilder → Result (Bool × SsTableBuilder)
  finish t = do
    assert (not t.finished)
    let closing = record t { finished = true }
    (result, u) ←
        (if closing.block_builder.finished
          then ok (true, closing)
          else flush_current_block false closing)
    if empty u then ok (true, u) else write_end u
