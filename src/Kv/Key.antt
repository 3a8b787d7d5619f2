-- ===== src/Kv/Key.antt =====
-- `sequenced_key` of include/frenzykv/db/kv_entry.h and db/kv_entry.cc.
use frenzy_kv.Prelude.{ℕ, ◌+◌, ◌%◌, ◌^◌, [], ◌++◌, length, replicate, ltb, ◌==◌, if◌then◌else◌}
use frenzy_kv.Prelude.{Bool, true, false, ◌&&◌, Result, ok, ◌>>=◌, ◌>>◌, assert}
use frenzy_kv.Bytes.{Bytes, read, advance, overwrite, within, bytes_eq, string_less}
use frenzy_kv.Bytes.Endian.{BigEndian, encode, decode}

abbrev pub total_length_bytes_size : ℕ
total_length_bytes_size = 4

abbrev pub user_key_length_bytes_size : ℕ
user_key_length_bytes_size = 2

abbrev pub seq_bytes_size : ℕ
seq_bytes_size = 4

abbrev pub user_value_length_bytes_size : ℕ
user_value_length_bytes_size = 4

pub record SequencedKey : Type 0 where
  pub seq : ℕ
  pub user_key : Bytes

unfoldable pub serialized_bytes_size : SequencedKey → ℕ
serialized_bytes_size k = seq_bytes_size + user_key_length_bytes_size + length k.user_key

unfoldable pub serialized_user_key_bytes_size : SequencedKey → ℕ
serialized_user_key_bytes_size k = user_key_length_bytes_size + length k.user_key

-- The user key's length in a `uint16_t`.
abbrev pub user_key_len : SequencedKey → ℕ
user_key_len k = length k.user_key % 2 ^ 16

unfoldable pub set_sequence_number : ℕ → SequencedKey → SequencedKey
set_sequence_number num k = record k { seq = num }

-- `operator==`
unfoldable pub key_eq : SequencedKey → SequencedKey → Bool
key_eq a b = a.seq == b.seq && bytes_eq a.user_key b.user_key

unfoldable pub logic_lexicographic_simulate_less : SequencedKey → SequencedKey → Bool
logic_lexicographic_simulate_less l r =
    if ltb (length l.user_key) (length r.user_key)
    then true
    else if ltb (length r.user_key) (length l.user_key)
    then false
    else if string_less l.user_key r.user_key
    then true
    else if string_less r.user_key l.user_key
    then false
    else ltb l.seq r.seq

-- `operator<`
unfoldable pub key_less : SequencedKey → SequencedKey → Bool
key_less a b = logic_lexicographic_simulate_less a b

module _ ⦃e : BigEndian⦄ where
  -- The bytes written, and the buffer after the call.
  unfoldable pub serialize_to : SequencedKey → Bytes → ℕ × Bytes
  serialize_to k buffer = if ltb (length buffer) (serialized_bytes_size k) then (0, buffer) else (
    serialized_bytes_size k,
    within (user_key_length_bytes_size + length k.user_key) (overwrite (encode 4 k.seq)) (
        within user_key_length_bytes_size (overwrite k.user_key)
          (overwrite (encode 2 (user_key_len k)) buffer)),
  )

  -- The overload that replaces a string's contents.
  unfoldable pub serialize_to_string : SequencedKey → ℕ × Bytes
  serialize_to_string k = serialize_to k (replicate (serialized_bytes_size k) 0)

  unfoldable pub serialize_as_string : SequencedKey → Bytes
  serialize_as_string k = (serialize_to k (replicate (serialized_bytes_size k) 0)).1

  unfoldable pub serialize_user_key_as_string : SequencedKey → Bytes
  serialize_user_key_as_string k =
      within 2 (overwrite k.user_key)
        (overwrite (encode 2 (user_key_len k)) (replicate (serialized_user_key_bytes_size k) 0))

  -- The returned size, and the string after the call.
  unfoldable pub serialize_sequence_number_append_to : SequencedKey → Bytes → ℕ × Bytes
  serialize_sequence_number_append_to k dst = (4, dst ++ encode 4 k.seq)

  -- The length's buffer has `sizeof(sequence_number_t)` bytes, and all of it is appended.
  unfoldable pub serialize_user_key_append_to : SequencedKey → Bytes → ℕ × Bytes
  serialize_user_key_append_to k dst =
      let ukl_buffer = overwrite (encode 2 (user_key_len k)) (replicate 4 0) in
      (user_key_length_bytes_size + length k.user_key, (dst ++ ukl_buffer) ++ k.user_key)

  -- The constructor from serialized bytes.
  unfoldable pub parse_key : Bytes → Result SequencedKey
  parse_key serialized_seq_key =
      if length serialized_seq_key == 0 then ok (record { seq = 0; user_key = [] }) else do
        assert (ltb (user_key_length_bytes_size + seq_bytes_size) (length serialized_seq_key))
        len_bytes ← read 2 serialized_seq_key
        rest ← advance user_key_length_bytes_size serialized_seq_key
        userkey ← read (decode len_bytes) rest
        after ← advance (decode len_bytes) rest
        seq_number_bytes ← read seq_bytes_size after
        ok (record { seq = decode seq_number_bytes; user_key = userkey })
