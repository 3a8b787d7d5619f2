-- ===== src/Kv/RoundTrip.antt =====
-- Reading back what the serializing functions wrote: `sequenced_key`'s constructor,
-- `kv_user_value::parse`, `kv_entry`'s constructor and `kv_entries_from_buffer`.
use frenzy_kv.Prelude.{◌+◌, ◌^◌, ◌<◌, ◌≡◌, refl, ap, ◌∙◌, [], ◌∷◌, ◌++◌, arith}
use frenzy_kv.Prelude.{length, length-append, append_assoc, none, some, ok, ◌==◌}
use frenzy_kv.Prelude.{if◌then◌else◌}
use frenzy_kv.Bytes.{Bytes, read-append, read_all, advance-append}
use frenzy_kv.Bytes.Endian.{BigEndian, encode, decode, length-encode, decode-encode}
use frenzy_kv.Kv.Key
use frenzy_kv.Kv.Key.{SequencedKey, user_key_len, parse_key}
use frenzy_kv.Kv.Value
use frenzy_kv.Kv.Value.{UserValue, rep, size, tomb_stone}
use frenzy_kv.Kv.Entry
use frenzy_kv.Kv.Entry.{
  KvEntry, serialized_entry_size, serialized_sequenced_key, serialized_user_value,
  serialized_user_value_from_value_len, parse_entry, yielded_entry, next_serialized_entry_beg,
  entries_step, entries_loop, kv_entries_from_buffer,
}
use frenzy_kv.Kv.Wire.{
  user_key_bytes, key_bytes, value_bytes, entry_bytes, length-key_bytes, length-value_bytes,
  length-entry_bytes, size-le,
}
use native.Mathlib.Nat.{mod-eq_of_lt}

-- The keys and entries that the fields of the format can hold. An empty user key is written, and
-- the constructor's assertion refuses it.
pub record IsStorableKey (k : SequencedKey) : Type 0 where
  pub nonempty : 0 < length k.user_key
  pub key_fits : length k.user_key < 2 ^ 16
  pub seq_fits : k.seq < 2 ^ 32

pub record IsStorable (x : KvEntry) : Type 0 where
  pub key : IsStorableKey x.key
  pub total_fits : Entry.serialized_bytes_size x < 2 ^ 32

-- A value with no bytes is read back as a tomb stone.
unfoldable pub stored_value : UserValue → UserValue
stored_value v = if size v == 0 then tomb_stone else v

unfoldable pub stored : KvEntry → KvEntry
stored x = record x { value = stored_value x.value }

module _ ⦃e : BigEndian⦄ where
  pub user_key_len-decode :
      (k : SequencedKey)
      → length k.user_key < 2 ^ 16
      → decode (encode 2 (user_key_len k)) ≡ length k.user_key
  user_key_len-decode k h = decode-encode 2 (user_key_len k) (omega arith) ∙ mod-eq_of_lt h

  -- `sequenced_key`'s constructor on a serialized key.
  pub parse_key-key_bytes : (k : SequencedKey) → IsStorableKey k → parse_key (key_bytes k) ≡ ok k
  unfolding parse_key
  parse_key-key_bytes k h =
      let len = encode 2 (user_key_len k) in
      let seq = encode 4 k.seq in
      let tail = k.user_key ++ seq in
      let n : length (key_bytes k) ≡ length k.user_key + 6 =
        unfold Key.serialized_bytes_size in omega (arith, length-key_bytes k) in
      ground (
        arith,
        n,
        append_assoc len k.user_key seq,
        read-append 2 len tail (length-encode 2 _),
        advance-append 2 len tail (length-encode 2 _),
        user_key_len-decode k h.key_fits,
        read-append (length k.user_key) k.user_key seq refl,
        advance-append (length k.user_key) k.user_key seq refl,
        read_all 4 seq (length-encode 4 k.seq),
        decode-encode 4 k.seq h.seq_fits,
      )

  pub parse-value_bytes :
      (v : UserValue) → size v < 2 ^ 32 → Value.parse (value_bytes v) ≡ ok (stored_value v)
  unfolding Value.parse Value.parse_bytes stored_value size
  parse-value_bytes v h =
      let len = encode 4 (size v) in
      ground (
        arith,
        length-value_bytes v,
        size-le v,
        read-append 4 len (rep v) (length-encode 4 _),
        advance-append 4 len (rep v) (length-encode 4 _),
        decode-encode 4 (size v) h,
        read_all (length (rep v)) (rep v) refl,
      )

sized : (v : UserValue) → Value.serialized_bytes_size v ≡ 4 + size v
unfolding Value.serialized_bytes_size size Value.is_tomb_stone
sized v = ground arith

pub sizes : (x : KvEntry) → 0 < Entry.serialized_bytes_size x
unfolding Entry.serialized_bytes_size
sizes x = omega arith

-- The value behind a pointer to its length, with the length.
pub value_from_len :
    ⦃e : BigEndian⦄
    → (v : UserValue) (rest : Bytes) → size v < 2 ^ 32
    → serialized_user_value_from_value_len (value_bytes v ++ rest) ≡ ok (value_bytes v)
unfolding serialized_user_value_from_value_len
value_from_len v rest small =
    let len = encode 4 (size v) in
    ground (
      arith,
      append_assoc len (rep v) rest,
      read-append 4 len (rep v ++ rest) (length-encode 4 _),
      decode-encode 4 (size v) small,
      read-append (4 + size v) (value_bytes v) rest (length-value_bytes v ∙ sized v),
    )

-- The reads of one serialized entry, whatever follows it in the storage.
module _ ⦃e : BigEndian⦄ (x : KvEntry) (rest : Bytes) (h : IsStorable x) where
  entry_parts :
      entry_bytes x ++ rest
      ≡ encode 4 (Entry.serialized_bytes_size x)
        ++ (key_bytes x.key ++ (value_bytes x.value ++ rest))
  entry_parts =
      let total = encode 4 (Entry.serialized_bytes_size x) in
      append_assoc (total ++ key_bytes x.key) (value_bytes x.value) rest
      ∙ append_assoc total (key_bytes x.key) (value_bytes x.value ++ rest)

  serialized_entry_size_lem :
      serialized_entry_size (entry_bytes x ++ rest) ≡ ok (Entry.serialized_bytes_size x)
  unfolding serialized_entry_size
  serialized_entry_size_lem =
      let total = encode 4 (Entry.serialized_bytes_size x) in
      rw
        (
          entry_parts,
          read-append 4 total (key_bytes x.key ++ (value_bytes x.value ++ rest))
              (length-encode 4 _),
        )
        (ap ok (decode-encode 4 _ h.total_fits))

  serialized_sequenced_key_lem :
      serialized_sequenced_key (entry_bytes x ++ rest) ≡ ok (key_bytes x.key)
  unfolding serialized_sequenced_key
  serialized_sequenced_key_lem =
      let total = encode 4 (Entry.serialized_bytes_size x) in
      let after = value_bytes x.value ++ rest in
      let k = x.key in
      let len = encode 2 (user_key_len k) in
      ground (
        arith,
        entry_parts,
        advance-append 4 total (key_bytes k ++ after) (length-encode 4 _),
        append_assoc (user_key_bytes k) (encode 4 k.seq) after,
        append_assoc len k.user_key (encode 4 k.seq ++ after),
        read-append 2 len (k.user_key ++ (encode 4 k.seq ++ after)) (length-encode 2 _),
        user_key_len-decode k h.key.key_fits,
        read-append (2 + length k.user_key + 4) (key_bytes k) after
            (unfold Key.serialized_bytes_size in omega (arith, length-key_bytes k)),
      )

  size_small : size x.value < 2 ^ 32
  unfolding Entry.serialized_bytes_size
  size_small = omega (arith, h.total_fits, size-le x.value)

  serialized_user_value_lem :
      serialized_user_value (entry_bytes x ++ rest) ≡ ok (value_bytes x.value)
  unfolding serialized_user_value
  serialized_user_value_lem =
      let front = encode 4 (Entry.serialized_bytes_size x) ++ key_bytes x.key in
      let after = value_bytes x.value ++ rest in
      ground (
        arith,
        serialized_sequenced_key_lem,
        append_assoc front (value_bytes x.value) rest,
        advance-append (4 + length (key_bytes x.key)) front after (
            omega (
              arith,
              length-append (encode 4 (Entry.serialized_bytes_size x)) (key_bytes x.key),
              length-encode 4 (Entry.serialized_bytes_size x),
            )),
        value_from_len x.value rest size_small,
      )

  -- A storable entry is read back from its bytes, whatever follows them; a value without bytes
  -- comes back as a tomb stone.
  pub parse_entry-entry_bytes :
      parse_entry (Entry.serialized_bytes_size x) (entry_bytes x ++ rest) ≡ ok (stored x)
  unfolding parse_entry stored
  parse_entry-entry_bytes = ground (
    arith,
    serialized_sequenced_key_lem,
    serialized_user_value_lem,
    parse_key-key_bytes x.key h.key,
    parse-value_bytes x.value size_small,
    sizes x,
  )

  next_lem :
      next_serialized_entry_beg (entry_bytes x ++ rest)
      ≡ ok (if length rest == 0 then none else some rest)
  unfolding next_serialized_entry_beg
  next_lem = ground (
    arith,
    serialized_entry_size_lem,
    length-append (entry_bytes x) rest,
    length-entry_bytes x,
    advance-append (Entry.serialized_bytes_size x) (entry_bytes x) rest (length-entry_bytes x),
    sizes x,
  )

  pub entries_step_lem :
      entries_step (entry_bytes x ++ rest)
      ≡ ok (stored x ∷ [], (if length rest == 0 then none else some rest))
  unfolding entries_step yielded_entry
  entries_step_lem =
      ground (arith, serialized_entry_size_lem, next_lem, parse_entry-entry_bytes, sizes x)
