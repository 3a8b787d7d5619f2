-- ===== src/Kv/Value.antt =====
-- `kv_user_value` of include/frenzykv/db/kv_entry.h and db/kv_entry.cc.
use frenzy_kv.Prelude.{ℕ, ◌+◌, ◌%◌, ◌^◌, [], ◌++◌, length, replicate, ltb, ◌==◌, if◌then◌else◌}
use frenzy_kv.Prelude.{Bool, true, false, Option, none, some, Result, ok, err, exception, ◌>>=◌}
use frenzy_kv.Bytes.{Bytes, read, advance, overwrite, within, bytes_eq}
use frenzy_kv.Bytes.Endian.{BigEndian, encode, decode}
use frenzy_kv.Kv.Key.{total_length_bytes_size, user_value_length_bytes_size}

-- `none` is the null pointer, a tomb stone.
pub record UserValue : Type 0 where
  pub user_value : Option Bytes

abbrev pub tomb_stone : UserValue
tomb_stone = record { user_value = none }

abbrev pub of_string : Bytes → UserValue
of_string v = record { user_value = some v }

unfoldable pub is_tomb_stone : UserValue → Bool
is_tomb_stone v = elim v.user_value [ none ↦ true | some _ ↦ false ]

-- The argument is not read.
unfoldable pub set_tomb_stone : Bool → UserValue → UserValue
set_tomb_stone b v = tomb_stone

unfoldable pub set : Bytes → UserValue → UserValue
set s v = of_string s

unfoldable pub value : UserValue → Result Bytes
value v = elim v.user_value [ none ↦ err exception | some s ↦ ok s ]

unfoldable pub size : UserValue → ℕ
size v = elim v.user_value [ none ↦ 0 | some s ↦ length s ]

-- `operator==`
unfoldable pub value_eq : UserValue → UserValue → Bool
value_eq a b = elim a.user_value [
  | none ↦ elim b.user_value [ none ↦ true | some _ ↦ false ]
  | some s ↦ elim b.user_value [ none ↦ false | some t ↦ bytes_eq s t ]
]

unfoldable pub serialized_bytes_size : UserValue → ℕ
serialized_bytes_size v = total_length_bytes_size + (if is_tomb_stone v then 0 else size v)

-- The value's bytes, for the copy; the source reads them only of a value that has a length.
abbrev pub rep : UserValue → Bytes
rep v = elim v.user_value [ none ↦ [] | some s ↦ s ]

module _ ⦃e : BigEndian⦄ where
  -- The bytes written, and the buffer after the call.
  unfoldable pub serialize_to : UserValue → Bytes → ℕ × Bytes
  serialize_to v buffer =
      let value_len = size v % 2 ^ 32 in
      let headed = overwrite (encode 4 value_len) buffer in
      if ltb (length buffer) (serialized_bytes_size v) then (0, buffer) else (
        serialized_bytes_size v,
        (if value_len == 0
            then headed
            else within user_value_length_bytes_size (overwrite (rep v)) headed),
      )

  unfoldable pub serialize_as_string : UserValue → Bytes
  serialize_as_string v = (serialize_to v (replicate (serialized_bytes_size v) 0)).1

  -- The overload that replaces a string's contents.
  unfoldable pub serialize_to_string : UserValue → ℕ × Bytes
  serialize_to_string v = serialize_to v (replicate (serialized_bytes_size v) 0)

  unfoldable pub serialize_append_to_string : UserValue → Bytes → ℕ × Bytes
  serialize_append_to_string v dst =
      let (result, temp) = serialize_to_string v in (result, dst ++ temp)

  -- The bytes behind a length that is not 0.
  unfoldable pub parse_bytes : ℕ → Bytes → Result UserValue
  parse_bytes value_len serialized_value = do
    rest ← advance user_value_length_bytes_size serialized_value
    s ← read value_len rest
    ok (of_string s)

  unfoldable pub parse : Bytes → Result UserValue
  parse serialized_value = if length serialized_value == 0 then ok tomb_stone else do
    value_len_buf ← read user_value_length_bytes_size serialized_value
    let value_len = decode value_len_buf
    if value_len == 0 then ok tomb_stone else parse_bytes value_len serialized_value
