-- ===== src/Bloom.antt =====
-- The Bloom filter of util/bloom_filter.cc. The hash function (MurmurHash3 behind util/hash.cc) is a
-- parameter; a `size_t` has 64 bits.
pub mod Bits
pub mod Matching
use Prim.Native.Nat.{bit_and, bit_or}
use frenzy_kv.Prelude.{
  ℕ, zero, suc, ◌+◌, ◌-◌, ◌*◌, ◌/◌, ◌%◌, ◌^◌, [], ◌∷◌, ◌++◌, List, length, replicate, ltb, ◌==◌,
  if◌then◌else◌, Bool, true, false,
}
use frenzy_kv.Bytes.{Bytes}

pub record BloomFilter : Type 0 where
  pub num_key_bits : ℕ
  pub k : ℕ

-- `size_t(num_key_bits * 0.69314)`, in whole numbers.
abbrev pub raw_k : ℕ → ℕ
raw_k num_key_bits = num_key_bits * 69314 / 100000

unfoldable pub make_bloom_filter : ℕ → BloomFilter
make_bloom_filter num_key_bits = record {
  num_key_bits = num_key_bits;
  k =
      if ltb (raw_k num_key_bits) 1
      then 1
      else if ltb 60 (raw_k num_key_bits)
      then 60
      else raw_k num_key_bits;
}

unfoldable pub get_delta : ℕ → ℕ
get_delta h = bit_or (h / 2 ^ 33) (h * 2 ^ 31 % 2 ^ 64)

-- `arr[i] |= mask` and `arr[i]`.
unfoldable pub or_at : ℕ → ℕ → Bytes → Bytes
or_at i mask [] = []
or_at zero mask (b ∷ bs) = bit_or b mask ∷ bs
or_at (suc i) mask (b ∷ bs) = b ∷ or_at i mask bs

unfoldable pub byte_at : ℕ → Bytes → ℕ
byte_at i [] = 0
byte_at zero (b ∷ bs) = b
byte_at (suc i) (b ∷ bs) = byte_at i bs

unfoldable pub set_bit : ℕ → Bytes → Bytes
set_bit bitpos arr = or_at (bitpos / 8) (2 ^ (bitpos % 8)) arr

unfoldable pub test_bit : ℕ → Bytes → Bool
test_bit bitpos arr =
    if bit_and (byte_at (bitpos / 8) arr) (2 ^ (bitpos % 8)) == 0 then false else true

-- The `k` rounds for one key.
unfoldable pub add_key : ℕ → ℕ → ℕ → ℕ → Bytes → Bytes
add_key zero h delta bits arr = arr
add_key (suc rounds) h delta bits arr =
    add_key rounds ((h + delta) % 2 ^ 64) delta bits (set_bit (h % bits) arr)

unfoldable pub match_key : ℕ → ℕ → ℕ → ℕ → Bytes → Bool
match_key zero h delta bits rep = true
match_key (suc rounds) h delta bits rep =
    let rest = match_key rounds ((h + delta) % 2 ^ 64) delta bits rep in
    if test_bit (h % bits) rep then rest else false

-- The size of a new filter's bit array.
unfoldable pub filter_bytes : ℕ → ℕ → ℕ
filter_bytes num_key_bits count =
    let bits = count * num_key_bits in ((if ltb 64 bits then bits else 64) + 7) / 8

module _ (hash : Bytes → ℕ) where
  unfoldable pub add_keys : ℕ → ℕ → List Bytes → Bytes → Bytes
  add_keys k bits [] arr = arr
  add_keys k bits (key ∷ keys) arr =
      add_keys k bits keys (add_key k (hash key) (get_delta (hash key)) bits arr)

  unfoldable pub append_new_filter : BloomFilter → List Bytes → Bytes → Bytes
  append_new_filter f keys dst =
      let bytes = filter_bytes f.num_key_bits (length keys) in
      dst ++ add_keys f.k (bytes * 8) keys (replicate bytes 0 ++ f.k ∷ [])

  -- A `char` is signed: from 128 on the conversion to `size_t` adds 2^64 - 256.
  abbrev pub char_to_size : ℕ → ℕ
  char_to_size c = if ltb c 128 then c else c + 2 ^ 64 - 256

  unfoldable pub may_match : Bytes → Bytes → Bool
  may_match key rep =
      let filter_len = length rep in
      let bits = (filter_len - 1) * 8 in
      let rep_k = char_to_size (byte_at (filter_len - 1) rep) in
      let found = match_key rep_k (hash key) (get_delta (hash key)) bits rep in
      if ltb filter_len 2 then false else if ltb 30 rep_k then true else found
