-- ===== src/Kv/Entry.antt =====
-- `kv_entry` of include/frenzykv/db/kv_entry.h and db/kv_entry.cc, the functions on serialized
-- entries, and `kv_entries_from_buffer`.
use frenzy_kv.Prelude.{
  ℕ, zero, suc, ◌+◌, ◌%◌, ◌^◌, [], ◌∷◌, ◌++◌, List, length, replicate, ltb, leb, ◌==◌,
}
use frenzy_kv.Prelude.{if◌then◌else◌, Bool, not, ◌&&◌, ◌||◌, Option, none, some}
use frenzy_kv.Prelude.{Result, ok, err, stuck, ◌>>=◌, ◌>>◌, throw_unless}
use frenzy_kv.Bytes.{Bytes, read, advance, overwrite, within}
use frenzy_kv.Bytes.Endian.{BigEndian, encode, decode}
use frenzy_kv.Kv.Key
use frenzy_kv.Kv.Key.{SequencedKey, parse_key, key_eq, key_less, total_length_bytes_size}
use frenzy_kv.Kv.Key.{user_key_length_bytes_size, seq_bytes_size, user_value_length_bytes_size}
use frenzy_kv.Kv.Value
use frenzy_kv.Kv.Value.{UserValue, value_eq}

pub record KvEntry : Type 0 where
  pub key : SequencedKey
  pub value : UserValue

-- `operator==` and `operator<`
unfoldable pub entry_eq : KvEntry → KvEntry → Bool
entry_eq a b = key_eq a.key b.key && value_eq a.value b.value

unfoldable pub entry_less : KvEntry → KvEntry → Bool
entry_less a b = key_less a.key b.key

unfoldable pub serialized_bytes_size : KvEntry → ℕ
serialized_bytes_size x =
    total_length_bytes_size + Key.serialized_bytes_size x.key + Value.serialized_bytes_size x.value

module _ ⦃e : BigEndian⦄ where
  -- The bytes written, and the buffer after the call.
  unfoldable pub serialize_to : KvEntry → Bytes → ℕ × Bytes
  serialize_to x dst =
      let total_len = serialized_bytes_size x % 2 ^ 32 in
      let key_end = total_length_bytes_size + Key.serialized_bytes_size x.key in
      if ltb (length dst) total_len then (0, dst) else (
        total_len,
        within key_end (λ b. (Value.serialize_to x.value b).1)
            (within total_length_bytes_size (λ b. (Key.serialize_to x.key b).1)
              (overwrite (encode 4 total_len) dst)),
      )

  -- The overload that replaces a string's contents.
  unfoldable pub serialize_to_string : KvEntry → ℕ × Bytes
  serialize_to_string x = serialize_to x (replicate (serialized_bytes_size x) 0)

  unfoldable pub serialize_append_to_string : KvEntry → Bytes → ℕ × Bytes
  serialize_append_to_string x str =
      let (result, appended) = serialize_to_string x in (result, str ++ appended)

  unfoldable pub serialized_entry_size : Bytes → Result ℕ
  serialized_entry_size beg = do b ← read total_length_bytes_size beg; ok (decode b)

  unfoldable pub serialized_sequenced_key : Bytes → Result Bytes
  serialized_sequenced_key entry_beg = do
    userkey_len_beg ← advance total_length_bytes_size entry_beg
    userkey_len ← read user_key_length_bytes_size userkey_len_beg
    read (user_key_length_bytes_size + decode userkey_len + seq_bytes_size) userkey_len_beg

  unfoldable pub serialized_user_value_from_value_len : Bytes → Result Bytes
  serialized_user_value_from_value_len value_len_beg = do
    value_len ← read user_value_length_bytes_size value_len_beg
    read (user_value_length_bytes_size + decode value_len) value_len_beg

  unfoldable pub serialized_user_value : Bytes → Result Bytes
  serialized_user_value entry_beg = do
    seq_key ← serialized_sequenced_key entry_beg
    value_len_beg ← advance (total_length_bytes_size + length seq_key) entry_beg
    serialized_user_value_from_value_len value_len_beg

  -- `end` is the end of the storage that `entry_beg` points into; `none` is `nullptr`.
  unfoldable pub next_serialized_entry_beg : Bytes → Result (Option Bytes)
  next_serialized_entry_beg entry_beg = do
    sz ← serialized_entry_size entry_beg
    if sz == 0 || leb (length entry_beg) sz
        then ok none
        else do next ← advance sz entry_beg; ok (some next)

  -- The constructor from the span of `sz` bytes at `entry_beg`: it reads by the lengths in the
  -- bytes, and looks at the span's own size last.
  unfoldable pub parse_entry : ℕ → Bytes → Result KvEntry
  parse_entry sz entry_beg = do
    seq_key ← serialized_sequenced_key entry_beg
    k ← parse_key seq_key
    user_value ← serialized_user_value entry_beg
    v ← Value.parse user_value
    throw_unless (not (sz == 0))
    ok (record { key = k; value = v })

  -- What a round yields: nothing for an empty span.
  unfoldable pub yielded_entry : ℕ → Bytes → Result (List KvEntry)
  yielded_entry sz cur = if sz == 0 then ok [] else do x ← parse_entry sz cur; ok (x ∷ [])

  -- One round of the generator: the entry that it yields, if any, and the next `cur`.
  unfoldable pub entries_step : Bytes → Result (List KvEntry × Option Bytes)
  entries_step cur = do
    sz ← serialized_entry_size cur
    yielded ← yielded_entry sz cur
    next ← next_serialized_entry_beg cur
    ok (yielded, next)

  -- The generator run to its end. `cur` is a null pointer or points into the buffer.
  unfoldable pub entries_loop : ℕ → Option Bytes → Result (List KvEntry)
  entries_loop fuel none = ok []
  entries_loop fuel (some []) = ok []
  entries_loop zero (some (b ∷ bs)) = err stuck
  entries_loop (suc fuel) (some (b ∷ bs)) = do
    (yielded, next) ← entries_step (b ∷ bs)
    rest ← entries_loop fuel next
    ok (yielded ++ rest)

  -- Each round moves on by a byte at least, so a round for each byte is enough.
  unfoldable pub kv_entries_from_buffer : Bytes → Result (List KvEntry)
  kv_entries_from_buffer buffer = entries_loop (length buffer) (some buffer)
