-- ===== src/SsTable.antt =====
-- What `sstable_builder` of table/sstable_builder.cc and `sstable` of table/sstable.cc share: the
-- parts of the options, the compressors and the filter that they use, and the end of a table.
use frenzy_kv.Prelude.{ℕ, List, [], ◌∷◌, Bool, true, Option}
use frenzy_kv.Bytes.{Bytes}
use frenzy_kv.Bloom
use frenzy_kv.Bloom.{BloomFilter}
use frenzy_kv.Block.Builder.{BlockOptions, Compressor}
pub mod Builder
pub mod Reader
pub mod Lookup
pub mod Files
pub mod Blocks
pub mod Pieces
pub mod Filling
pub mod Limits
pub mod Adding
pub mod Meta
pub mod Ending
pub mod Closing
pub mod Opening
pub mod Reading
pub mod Sorted
pub mod RoundTrip

-- `filter_policy`, with the `append_new_filter` that takes one key.
pub record FilterPolicy : Type 0 where
  pub append_new_filter : Bytes → Bytes → Bytes
  pub may_match : Bytes → Bytes → Bool

abbrev pub bloom_policy : (Bytes → ℕ) → BloomFilter → FilterPolicy
bloom_policy hash f = record {
  append_new_filter = λ key dst. Bloom.append_new_filter hash f (key ∷ []) dst;
  may_match = λ key rep. Bloom.may_match hash key rep;
}

-- `empty_filter` of util/empty_filter.cc.
abbrev pub empty_policy : FilterPolicy
empty_policy = record { append_new_filter = λ key dst. dst; may_match = λ key rep. true }

-- `zstd` is the compressor of that name, `named` the one that the options name.
pub record TableDeps : Type 0 where
  pub opt : BlockOptions
  pub block_size : ℕ
  pub zstd : Option Compressor
  pub named : Option Compressor
  pub filter : FilterPolicy
  pub crc32c : Bytes → ℕ

abbrev pub magic_number : ℕ
magic_number = 0x47d6_ddc3

-- "last_uk"
abbrev pub last_uk_name : Bytes
last_uk_name = 108 ∷ 97 ∷ 115 ∷ 116 ∷ 95 ∷ 117 ∷ 107 ∷ []

-- "first_uk"
abbrev pub first_uk_name : Bytes
first_uk_name = 102 ∷ 105 ∷ 114 ∷ 115 ∷ 116 ∷ 95 ∷ 117 ∷ 107 ∷ []

-- "bloom_filter"
abbrev pub bloom_filter_name : Bytes
bloom_filter_name = 98 ∷ 108 ∷ 111 ∷ 111 ∷ 109 ∷ 95 ∷ 102 ∷ 105 ∷ 108 ∷ 116 ∷ 101 ∷ 114 ∷ []
