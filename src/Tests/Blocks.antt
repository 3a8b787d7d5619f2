-- ===== src/Tests/Blocks.antt =====
-- Examples of the theorems on blocks.
use frenzy_kv.Prelude.{
  ◌+◌, ℕ, ◌≡◌, refl, [], ◌∷◌, ◌++◌, take, length, leb, ◌-◌, if◌then◌else◌, arith, ok, err, ◌>>=◌,
  true, not,
}
use Prim.Native.Nat.{Ordering}
use frenzy_kv.Bytes.{Bytes}
use frenzy_kv.Bytes.Order.{lexicographic}
use frenzy_kv.Block.Segment.{ParseResult, Segment, fit_public_prefix}
use frenzy_kv.Prelude.{replicate, some, none}
use frenzy_kv.Bytes.Endian.{encode}
use frenzy_kv.Block.Builder.{Compressor, BlockOptions, pack, seal}
use frenzy_kv.Block.Decompress.{IsPacked, block_decompress, block_decompress-seal}
use frenzy_kv.Block.Reader.{
  undecompressed_block_content, block_integrity_check, block_content_was_comprssed,
  larger_equal_than_this_public_prefix, less_than_this_public_prefix,
}
use frenzy_kv.Block.Integrity.{seal-integrity}
use frenzy_kv.Block.PrefixTests.{is, public_prefix-lexicographic}
use frenzy_kv.Block.Segment.{parse_segment}
use frenzy_kv.Block.Termination.{parse_segment-ne-stuck}
use frenzy_kv.Prelude.{◌≢◌, stuck}
use frenzy_kv.Tests.{big_endian}

-- A checksum that is the length.
abbrev checksum : Bytes → ℕ
checksum = length

abbrev one_more : Bytes → ℕ
one_more bytes = length bytes + 1

abbrev content : Bytes
content = 1 ∷ 2 ∷ 3 ∷ []

abbrev free : Bytes
free = 0 ∷ 0 ∷ 0 ∷ 0 ∷ []

seal-integrity_example :
    ((seal one_more checksum (free ++ content) true >>= block_integrity_check checksum) ≡ ok true)
    × ((seal one_more checksum (free ++ content) true >>= block_content_was_comprssed) ≡ ok true)
    × ((seal one_more checksum (free ++ content) true >>= undecompressed_block_content)
        ≡ ok content)
seal-integrity_example =
    seal-integrity checksum content true (omega arith) one_more free refl (omega arith)
      (omega arith)

abbrev segment : Segment
segment = record {
  storage = [];
  prefix = 0 ∷ 1 ∷ 97 ∷ [];
  items = [];
  parse_result = ParseResult.success;
}

abbrev short_key : Bytes
short_key = 0 ∷ 1 ∷ 98 ∷ []

public_prefix-lexicographic_example :
    (fit_public_prefix short_key segment
      ≡ is Ordering.eq (lexicographic short_key (take 3 segment.prefix)))
    × (less_than_this_public_prefix short_key segment
        ≡ ok (is Ordering.lt (lexicographic short_key (take 3 segment.prefix))))
    × (larger_equal_than_this_public_prefix short_key segment
        ≡ ok (not (is Ordering.lt (lexicographic short_key (take 3 segment.prefix)))))
public_prefix-lexicographic_example = public_prefix-lexicographic short_key segment (omega arith)

-- A compressor that puts a byte in front.
abbrev pub compressor : Compressor
compressor = record {
  compress = λ xs. some (9 ∷ xs);
  decompress = λ xs. elim xs [ [] ↦ none | x ∷ rest ↦ some rest ];
  decompress_into =
      λ n xs. elim xs [ [] ↦ none | x ∷ rest ↦ if leb (length rest) n then some rest else none ];
  decompressed_minimum_size = λ xs. length xs - 1;
}

abbrev options : BlockOptions
options = record {
  capacity = λ bytes. length bytes + 1;
  max_block_segments_number = 4;
  need_compress = true;
}

options-IsPacked : IsPacked options compressor content (9 ∷ content)
options-IsPacked = record { wanted = refl; compressed = refl; decompressed = refl }

block_decompress-seal_example :
    (pack options (some compressor) (free ++ content) >>= λ p.
    seal options.capacity checksum p.0 p.1 >>= λ block. block_decompress block (some compressor))
    ≡ ok (encode 4 12 ++ (content ++ replicate 5 0))
block_decompress-seal_example =
    block_decompress-seal options compressor checksum free content (9 ∷ content) options-IsPacked
      refl (omega arith) (omega arith) (omega arith)

parse_segment-ne-stuck_example :
    parse_segment 9 (0 ∷ 1 ∷ 97 ∷ 0 ∷ 0 ∷ 0 ∷ 200 ∷ 1 ∷ 2 ∷ []) ≢ err stuck
parse_segment-ne-stuck_example =
    parse_segment-ne-stuck 9 (0 ∷ 1 ∷ 97 ∷ 0 ∷ 0 ∷ 0 ∷ 200 ∷ 1 ∷ 2 ∷ [])
