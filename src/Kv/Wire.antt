-- ===== src/Kv/Wire.antt =====
-- The format of serialized entries, as the diagram of include/frenzykv/db/kv_entry.h draws it, and
-- that the serializing functions write it.
use frenzy_kv.Prelude.{
  ◌+◌, ◌^◌, ◌≤◌, ◌<◌, ◌≡◌, refl, sym, ap, ◌∙◌, [], ◌++◌, arith, ltb-false, ◌==◌, if◌then◌else◌,
  Bool-cases, inl, inr, true, append-nil,
}
use frenzy_kv.Prelude.{length, drop, length-append, length-drop}
use frenzy_kv.Prelude.{ℕ, replicate, length-replicate, ◌∷◌, []}
use frenzy_kv.Bytes.{length-overwrite, overwrite_all}
use frenzy_kv.Bytes.{Bytes, overwrite, within, within-overwrite}
use frenzy_kv.Bytes.Endian.{BigEndian, encode, length-encode}
use frenzy_kv.Kv.Key
use frenzy_kv.Kv.Key.{SequencedKey, user_key_len}
use frenzy_kv.Kv.Key.{
  serialize_user_key_as_string, serialized_user_key_bytes_size, serialize_user_key_append_to,
}
use frenzy_kv.Kv.Value
use frenzy_kv.Kv.Value.{UserValue, rep, size}
use frenzy_kv.Kv.Entry
use frenzy_kv.Kv.Entry.{KvEntry}
use native.Mathlib.Nat.{mod-eq_of_lt}

rep_empty : (v : UserValue) → (size v == 0) ≡ true → rep v ≡ []
unfolding size
rep_empty v h = ground arith

pub size-le : (v : UserValue) → size v + 4 ≤ Value.serialized_bytes_size v
unfolding Value.serialized_bytes_size size Value.is_tomb_stone
size-le v = ground arith

module _ ⦃e : BigEndian⦄ where
  -- The serialized user key, sequenced key, value and entry.
  abbrev pub user_key_bytes : SequencedKey → Bytes
  user_key_bytes k = encode 2 (user_key_len k) ++ k.user_key

  abbrev pub key_bytes : SequencedKey → Bytes
  key_bytes k = user_key_bytes k ++ encode 4 k.seq

  abbrev pub value_bytes : UserValue → Bytes
  value_bytes v = encode 4 (size v) ++ rep v

  abbrev pub entry_bytes : KvEntry → Bytes
  entry_bytes x =
      (encode 4 (Entry.serialized_bytes_size x) ++ key_bytes x.key) ++ value_bytes x.value

  pub length-user_key_bytes : (k : SequencedKey) → length (user_key_bytes k) ≡ 2 + length k.user_key
  length-user_key_bytes k = omega (
    arith,
    length-append (encode 2 (user_key_len k)) k.user_key,
    length-encode 2 (user_key_len k),
  )

  pub length-key_bytes : (k : SequencedKey) → length (key_bytes k) ≡ Key.serialized_bytes_size k
  unfolding Key.serialized_bytes_size
  length-key_bytes k = omega (
    arith,
    length-append (user_key_bytes k) (encode 4 k.seq),
    length-user_key_bytes k,
    length-encode 4 k.seq,
  )

  pub length-value_bytes : (v : UserValue) → length (value_bytes v) ≡ Value.serialized_bytes_size v
  unfolding Value.serialized_bytes_size size Value.is_tomb_stone
  length-value_bytes v =
      ground (arith, length-append (encode 4 (size v)) (rep v), length-encode 4 (size v))

  pub length-entry_bytes : (x : KvEntry) → length (entry_bytes x) ≡ Entry.serialized_bytes_size x
  unfolding Entry.serialized_bytes_size
  length-entry_bytes x =
      let total = encode 4 (Entry.serialized_bytes_size x) in
      omega (
        arith,
        length-append (total ++ key_bytes x.key) (value_bytes x.value),
        length-append total (key_bytes x.key),
        length-encode 4 (Entry.serialized_bytes_size x),
        length-key_bytes x.key,
        length-value_bytes x.value,
      )

  user_key_written :
      (k : SequencedKey) (buffer : Bytes)
      → within 2 (overwrite k.user_key) (overwrite (encode 2 (user_key_len k)) buffer)
        ≡ overwrite (user_key_bytes k) buffer
  user_key_written k buffer =
      within-overwrite 2 (overwrite k.user_key) _ k.user_key buffer
        (length-encode 2 (user_key_len k)) refl

  pub key-serialize_to :
      (k : SequencedKey) (buffer : Bytes)
      → Key.serialized_bytes_size k ≤ length buffer
      → Key.serialize_to k buffer ≡ (Key.serialized_bytes_size k, overwrite (key_bytes k) buffer)
  unfolding Key.serialize_to
  key-serialize_to k buffer h = rw (ltb-false h) (
      ap (λ b. (Key.serialized_bytes_size k, b))
        (ap (within (2 + length k.user_key) (overwrite (encode 4 k.seq)))
            (user_key_written k buffer)
          ∙ within-overwrite _ (overwrite (encode 4 k.seq)) (user_key_bytes k) (encode 4 k.seq)
              buffer (length-user_key_bytes k) refl))

  value_written :
      (v : UserValue) (buffer : Bytes)
      → (if size v == 0
          then overwrite (encode 4 (size v)) buffer
          else within 4 (overwrite (rep v)) (overwrite (encode 4 (size v)) buffer))
        ≡ overwrite (value_bytes v) buffer
  value_written v buffer = elim (Bool-cases (size v == 0)) [
    | inl none_left ↦
        rw (none_left, rep_empty v none_left) (ap (λ xs. overwrite xs buffer) (sym (append-nil _)))
    | inr some_left ↦ rw some_left (
        within-overwrite 4 (overwrite (rep v)) (encode 4 (size v)) (rep v) buffer
          (length-encode 4 (size v)) refl)
  ]

  pub value-serialize_to :
      (v : UserValue) (buffer : Bytes)
      → size v < 2 ^ 32
      → Value.serialized_bytes_size v ≤ length buffer
      → Value.serialize_to v buffer
        ≡ (Value.serialized_bytes_size v, overwrite (value_bytes v) buffer)
  unfolding Value.serialize_to
  value-serialize_to v buffer small h =
      rw (ltb-false h, mod-eq_of_lt small)
        (ap (λ b. (Value.serialized_bytes_size v, b)) (value_written v buffer))

  key_part :
      (x : KvEntry) (buffer : Bytes)
      → Entry.serialized_bytes_size x ≤ length buffer
      → within 4
          (λ b. (Key.serialize_to x.key b).1)
          (overwrite (encode 4 (Entry.serialized_bytes_size x)) buffer)
        ≡ overwrite (encode 4 (Entry.serialized_bytes_size x) ++ key_bytes x.key) buffer
  unfolding Entry.serialized_bytes_size
  key_part x buffer h =
      let total = encode 4 (Entry.serialized_bytes_size x) in
      within-overwrite 4 (λ b. (Key.serialize_to x.key b).1) total (key_bytes x.key) buffer
        (length-encode 4 (Entry.serialized_bytes_size x))
        (ap (λ p. p.1)
          (key-serialize_to x.key (drop 4 buffer) (omega (arith, length-drop 4 buffer))))

  value_part :
      (x : KvEntry) (buffer : Bytes)
      → Entry.serialized_bytes_size x < 2 ^ 32
      → Entry.serialized_bytes_size x ≤ length buffer
      → within
          (4 + Key.serialized_bytes_size x.key)
          (λ b. (Value.serialize_to x.value b).1)
          (overwrite (encode 4 (Entry.serialized_bytes_size x) ++ key_bytes x.key) buffer)
        ≡ overwrite (entry_bytes x) buffer
  unfolding Entry.serialized_bytes_size
  value_part x buffer small h =
      let total = encode 4 (Entry.serialized_bytes_size x) in
      let at = 4 + Key.serialized_bytes_size x.key in
      within-overwrite at (λ b. (Value.serialize_to x.value b).1) (total ++ key_bytes x.key)
        (value_bytes x.value) buffer
        (omega (
          arith,
          length-append total (key_bytes x.key),
          length-encode 4 (Entry.serialized_bytes_size x),
          length-key_bytes x.key,
        ))
        (ap (λ p. p.1)
          (value-serialize_to x.value (drop at buffer) (omega (arith, size-le x.value))
            (omega (arith, length-drop at buffer))))

  -- An entry is written as its bytes at the buffer's front, with the length that it reports, if the
  -- buffer has room and the length fits 32 bits.
  pub entry-serialize_to :
      (x : KvEntry) (buffer : Bytes)
      → Entry.serialized_bytes_size x < 2 ^ 32
      → Entry.serialized_bytes_size x ≤ length buffer
      → Entry.serialize_to x buffer
        ≡ (Entry.serialized_bytes_size x, overwrite (entry_bytes x) buffer)
  unfolding Entry.serialize_to
  entry-serialize_to x buffer small h =
      rw (mod-eq_of_lt small, ltb-false h)
        (ap (λ b. (Entry.serialized_bytes_size x, b))
          (ap (within (4 + Key.serialized_bytes_size x.key) (λ b. (Value.serialize_to x.value b).1))
              (key_part x buffer h)
            ∙ value_part x buffer small h))

  -- The serialized user key is the length and the key, in a string of just their size.
  pub serialize_user_key_as_string_lem :
      (k : SequencedKey) → serialize_user_key_as_string k ≡ user_key_bytes k
  unfolding serialize_user_key_as_string serialized_user_key_bytes_size
  serialize_user_key_as_string_lem k =
      let n = 2 + length k.user_key in
      user_key_written k (replicate n 0)
      ∙ overwrite_all (user_key_bytes k) (replicate n 0)
          (omega (arith, length-user_key_bytes k, length-replicate {A = ℕ} n 0))

  -- `serialize_append_to_string` of a value appends its serialized bytes.
  pub serialize_append_to_string_lem :
      (v : UserValue) (dst : Bytes)
      → size v < 2 ^ 32
      → (Value.serialize_append_to_string v dst).1 ≡ dst ++ value_bytes v
  unfolding Value.serialize_append_to_string Value.serialize_to_string
  serialize_append_to_string_lem v dst h =
      let n = Value.serialized_bytes_size v in
      let buffer = replicate n 0 in
      ap (λ b. dst ++ b)
        (ap (λ p. p.1) (value-serialize_to v buffer h (omega (arith, length-replicate {A = ℕ} n 0)))
          ∙ overwrite_all (value_bytes v) buffer
              (omega (arith, length-value_bytes v, length-replicate {A = ℕ} n 0)))

  -- `serialize_user_key_append_to` writes a buffer of four bytes where the length takes two, so
  -- what it appends is longer by two than the serialized user key and than the size it returns.
  pub serialize_user_key_append_to_long :
      (k : SequencedKey) (dst : Bytes)
      → length (serialize_user_key_append_to k dst).1
          ≡ length (dst ++ serialize_user_key_as_string k) + 2
        × ((serialize_user_key_append_to k dst).0 ≡ length (serialize_user_key_as_string k))
  unfolding serialize_user_key_append_to
  serialize_user_key_append_to_long k dst =
      let ukl = overwrite (encode 2 (user_key_len k)) (0 ∷ 0 ∷ 0 ∷ 0 ∷ []) in
      let four : length ukl ≡ 4 =
        length-overwrite (encode 2 (user_key_len k)) (0 ∷ 0 ∷ 0 ∷ 0 ∷ [])
          (omega (arith, length-encode 2 (user_key_len k))) in
      rw serialize_user_key_as_string_lem (
        omega (
          arith,
          length-append (dst ++ ukl) k.user_key,
          length-append dst ukl,
          four,
          length-append dst (user_key_bytes k),
          length-user_key_bytes k,
        ),
        omega (arith, length-user_key_bytes k),
      )
