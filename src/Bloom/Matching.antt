-- ===== src/Bloom/Matching.antt =====
-- `may_match` finds every key that `append_new_filter` was given.
use frenzy_kv.Prelude.{
  ℕ, zero, suc, ◌+◌, ◌-◌, ◌*◌, ◌/◌, ◌%◌, ◌^◌, ◌≤◌, ◌<◌, ◌≡◌, refl, ◌∙◌, [], ◌∷◌, ◌++◌, List, length,
  length-append, length-replicate, replicate, All, true, arith,
}
use frenzy_kv.Bytes.{Bytes}
use frenzy_kv.Bloom.{
  BloomFilter, make_bloom_filter, get_delta, byte_at, set_bit, test_bit, add_key, match_key,
  add_keys, filter_bytes, append_new_filter, may_match,
}
use frenzy_kv.Bloom.Bits.{
  IsByte, set_bit-IsByte, length-set_bit, test_bit-set_self, test_bit-set, byte_at-set_bit,
}
use native.Mathlib.Nat.{mod-lt}

-- A bit array of `bytes` bytes and whatever stands behind it.
pub record IsArray (bytes : ℕ) (arr : Bytes) : Type 0 where
  pub all : All IsByte arr
  pub room : bytes < length arr
  pub some_bits : 0 < bytes

-- What keeps an array and its set bits.
pub record Grows (bytes : ℕ) (old new : Bytes) : Type 0 where
  pub array : IsArray bytes new
  pub bits : (p : ℕ) → test_bit p old ≡ true → test_bit p new ≡ true
  pub behind : byte_at bytes new ≡ byte_at bytes old
  pub same_length : length new ≡ length old

Grows-refl : (bytes : ℕ) (arr : Bytes) → IsArray bytes arr → Grows bytes arr arr
Grows-refl bytes arr h = record { array = h; bits = λ p t. t; behind = refl; same_length = refl }

Grows-trans : {bytes : ℕ} {a b c : Bytes} → Grows bytes a b → Grows bytes b c → Grows bytes a c
Grows-trans g h = record {
  array = h.array;
  bits = λ p t. h.bits p (g.bits p t);
  behind = h.behind ∙ g.behind;
  same_length = h.same_length ∙ g.same_length;
}

Grows-set_bit :
    (bytes q : ℕ) (arr : Bytes)
    → IsArray bytes arr
    → q / 8 < bytes
    → Grows bytes arr (set_bit q arr)
Grows-set_bit bytes q arr h low = record {
  array = record {
    all = set_bit-IsByte q arr h.all;
    room = omega (arith, length-set_bit q arr, h.room);
    some_bits = h.some_bits;
  };
  bits = λ p t. test_bit-set p q arr h.all t;
  behind = byte_at-set_bit q bytes arr low;
  same_length = length-set_bit q arr;
}

bit_low : (h bytes : ℕ) → 0 < bytes → h % (bytes * 8) / 8 < bytes
bit_low h bytes pos = omega (arith, mod-lt h (let p : 0 < bytes * 8 = omega arith in p))

Grows-add_key :
    (rounds h delta bytes : ℕ) (arr : Bytes)
    → IsArray bytes arr
    → Grows bytes arr (add_key rounds h delta (bytes * 8) arr)
unfolding add_key
Grows-add_key zero h delta bytes arr a = Grows-refl bytes arr a
Grows-add_key (suc rounds) h delta bytes arr a =
    let g = Grows-set_bit bytes (h % (bytes * 8)) arr a (bit_low h bytes a.some_bits) in
    Grows-trans g (
      Grows-add_key rounds ((h + delta) % 2 ^ 64) delta bytes (set_bit (h % (bytes * 8)) arr)
        g.array)

match_key-Grows :
    (rounds h delta bits bytes : ℕ) {old new : Bytes}
    → Grows bytes old new
    → match_key rounds h delta bits old ≡ true
    → match_key rounds h delta bits new ≡ true
unfolding match_key
match_key-Grows zero h delta bits bytes g m = refl
match_key-Grows (suc rounds) h delta bits bytes g m =
    ground
      (arith, g.bits (h % bits), match_key-Grows rounds ((h + delta) % 2 ^ 64) delta bits bytes g)

-- The bits that a key's rounds set are those that its rounds test.
match_key-add_key :
    (rounds h delta bytes : ℕ) (arr : Bytes)
    → IsArray bytes arr
    → match_key rounds h delta (bytes * 8) (add_key rounds h delta (bytes * 8) arr) ≡ true
unfolding match_key add_key
match_key-add_key zero h delta bytes arr a = refl
match_key-add_key (suc rounds) h delta bytes arr a =
    let q = h % (bytes * 8) in
    let h' = (h + delta) % 2 ^ 64 in
    let low = bit_low h bytes a.some_bits in
    let g = Grows-set_bit bytes q arr a low in
    let now = test_bit-set_self q arr a.all (omega (arith, low, a.room)) in
    let later = (Grows-add_key rounds h' delta bytes (set_bit q arr) g.array).bits q now in
    rw later (match_key-add_key rounds h' delta bytes (set_bit q arr) g.array)

length-fresh : (bytes k : ℕ) → length (replicate bytes 0 ++ k ∷ []) ≡ bytes + 1
length-fresh bytes k =
    omega (arith, length-append (replicate bytes 0) (k ∷ []), length-replicate {A = ℕ} bytes 0)

byte_at-fresh : (bytes k : ℕ) → byte_at bytes (replicate bytes 0 ++ k ∷ []) ≡ k
unfolding byte_at
byte_at-fresh zero k = refl
byte_at-fresh (suc bytes) k = byte_at-fresh bytes k

fresh_bytes : (bytes k : ℕ) → k ≤ 60 → All IsByte (replicate bytes 0 ++ k ∷ [])
fresh_bytes zero k h = omega arith
fresh_bytes (suc bytes) k h = (omega arith, fresh_bytes bytes k h)

fresh-IsArray : (bytes k : ℕ) → k ≤ 60 → 0 < bytes → IsArray bytes (replicate bytes 0 ++ k ∷ [])
fresh-IsArray bytes k h pos = record {
  all = fresh_bytes bytes k h;
  room = omega (arith, length-fresh bytes k);
  some_bits = pos;
}

many_rounds : (n : ℕ) → 45 ≤ n → 30 < (make_bloom_filter n).k
unfolding make_bloom_filter
many_rounds n h = ground arith

k_bound : (n : ℕ) → (make_bloom_filter n).k ≤ 60
unfolding make_bloom_filter
k_bound n = ground arith

filter_bytes_pos : (n count : ℕ) → 0 < filter_bytes n count
unfolding filter_bytes
filter_bytes_pos n count = ground arith

module _ (hash : Bytes → ℕ) where
  Grows-add_keys :
      (k bytes : ℕ) (keys : List Bytes) (arr : Bytes)
      → IsArray bytes arr
      → Grows bytes arr (add_keys hash k (bytes * 8) keys arr)
  unfolding add_keys
  Grows-add_keys k bytes [] arr a = Grows-refl bytes arr a
  Grows-add_keys k bytes (key ∷ keys) arr a =
      let g = Grows-add_key k (hash key) (get_delta (hash key)) bytes arr a in
      Grows-trans g (Grows-add_keys k bytes keys _ g.array)

  match-add_keys :
      (k bytes : ℕ) (before : List Bytes) (key : Bytes) (after : List Bytes) (arr : Bytes)
      → IsArray bytes arr
      → match_key k
          (hash key)
          (get_delta (hash key))
          (bytes * 8)
          (add_keys hash k (bytes * 8) (before ++ key ∷ after) arr)
        ≡ true
  unfolding add_keys
  match-add_keys k bytes [] key after arr a =
      let g = Grows-add_key k (hash key) (get_delta (hash key)) bytes arr a in
      match_key-Grows k (hash key) (get_delta (hash key)) (bytes * 8) bytes
        (Grows-add_keys k bytes after _ g.array)
        (match_key-add_key k (hash key) (get_delta (hash key)) bytes arr a)
  match-add_keys k bytes (b ∷ before) key after arr a =
      let g = Grows-add_key k (hash b) (get_delta (hash b)) bytes arr a in
      match-add_keys k bytes before key after _ g.array

  abbrev filter_array : BloomFilter → List Bytes → ℕ → Bytes
  filter_array f keys bytes = add_keys hash f.k (bytes * 8) keys (replicate bytes 0 ++ f.k ∷ [])

  -- The filter's parts: its length, its last byte and its bits.
  grown :
      (f : BloomFilter) (keys : List Bytes) (bytes : ℕ)
      → f.k ≤ 60
      → 0 < bytes
      → (length (filter_array f keys bytes) ≡ bytes + 1)
        × (byte_at bytes (filter_array f keys bytes) ≡ f.k)
  grown f keys bytes h pos =
      let g = Grows-add_keys f.k bytes keys _ (fresh-IsArray bytes f.k h pos) in
      (g.same_length ∙ length-fresh bytes f.k, g.behind ∙ byte_at-fresh bytes f.k)

  may_match_array :
      (f : BloomFilter) (before : List Bytes) (key : Bytes) (after : List Bytes)
      → f.k ≤ 60
      → may_match hash key (append_new_filter hash f (before ++ key ∷ after) []) ≡ true
  unfolding may_match append_new_filter
  may_match_array f before key after h =
      let keys = before ++ key ∷ after in
      let bytes = filter_bytes f.num_key_bits (length keys) in
      let pos = filter_bytes_pos f.num_key_bits (length keys) in
      let (len, last) = grown f keys bytes h pos in
      let found = match-add_keys f.k bytes before key after _ (fresh-IsArray bytes f.k h pos) in
      let rep = filter_array f keys bytes in
      let end : length rep - 1 ≡ bytes = omega arith in rw (end, last) (ground arith)

  -- A filter for a list of keys matches each of them, whatever the hash function is: no false
  -- negatives.
  pub may_match-append_new_filter :
      (n : ℕ) (before : List Bytes) (key : Bytes) (after : List Bytes)
      → may_match hash key (append_new_filter hash (make_bloom_filter n) (before ++ key ∷ after) [])
        ≡ true
  may_match-append_new_filter n before key after =
      may_match_array (make_bloom_filter n) before key after (k_bound n)

  -- With 45 bits a key or more, every key matches every filter, also one that it is not in: what a
  -- filter stores as its number of rounds is above 30, and `may_match` then does not look.
  pub may_match_always :
      (n : ℕ) (keys : List Bytes) (key : Bytes)
      → 45 ≤ n
      → may_match hash key (append_new_filter hash (make_bloom_filter n) keys []) ≡ true
  unfolding may_match append_new_filter
  may_match_always n keys key h =
      let f = make_bloom_filter n in
      let bytes = filter_bytes f.num_key_bits (length keys) in
      let pos = filter_bytes_pos f.num_key_bits (length keys) in
      let (len, last) = grown f keys bytes (k_bound n) pos in
      let end : length (filter_array f keys bytes) - 1 ≡ bytes = omega arith in
      let many = many_rounds n h in rw (end, last) (ground arith)
