-- ===== src/Block/SegmentRoundTrip.antt =====
-- A segment that `block_segment_builder` wrote, parsed by `block_segment` and read by
-- `entries_from_block_segment`.
use frenzy_kv.Prelude.{
  ℕ, ◌+◌, ◌^◌, ◌≤◌, ◌<◌, ◌≡◌, refl, sym, ap, ◌∙◌, List, [], ◌∷◌, ◌++◌, All, map, arith, length,
  length-append, append_assoc, append-nil, ok, ◌>>=◌, true, false,
}
use frenzy_kv.Bytes.{Bytes, read-append, advance-append, bytes_eq_refl}
use frenzy_kv.Bytes.Endian.{BigEndian, encode, length-encode, decode-encode}
use frenzy_kv.Kv.Key.{
  SequencedKey, user_key_len, serialize_user_key_as_string, serialize_sequence_number_append_to,
}
use frenzy_kv.Kv.Value
use frenzy_kv.Kv.Value.{size}
use frenzy_kv.Kv.Entry.{KvEntry}
use frenzy_kv.Kv.Wire.{
  user_key_bytes, value_bytes, length-user_key_bytes, length-value_bytes, size-le,
  serialize_user_key_as_string_lem, serialize_append_to_string_lem,
}
use frenzy_kv.Kv.RoundTrip.{stored, parse-value_bytes, value_from_len}
use frenzy_kv.Block.Segment.{
  parse_segment, entry_of_item, entries_of_items, entries_from_block_segment,
}
use frenzy_kv.Block.SegmentBuilder.{SegmentBuilder, new_segment, add, finish}
use frenzy_kv.Block.Items.{
  IsItem, item_bytes, items_bytes, segment_front, segment_bytes, zeros, parse_segment-segment_bytes,
}
use native.Mathlib.Nat.{mod-eq_of_lt}

-- An entry of the user key whose parts fit their fields in a segment.
pub record IsMember (user_key : Bytes) (x : KvEntry) : Type 0 where
  pub same_key : x.key.user_key ≡ user_key
  pub seq_fits : x.key.seq < 2 ^ 32
  pub item_fits : 4 + Value.serialized_bytes_size x.value < 2 ^ 32

module _ ⦃e : BigEndian⦄ where
  -- The bytes of an item.
  abbrev pub item_rep : KvEntry → Bytes
  item_rep x = encode 4 x.key.seq ++ value_bytes x.value

  -- Adding one entry after the other: whether all were taken, and the storage.
  pub add_run : SegmentBuilder → List KvEntry → Bytes → Bytes
  add_run b [] storage = storage
  add_run b (x ∷ xs) storage = add_run b xs (add b x.key x.value storage).1

  pub length-item_rep :
      (x : KvEntry) → length (item_rep x) ≡ 4 + Value.serialized_bytes_size x.value
  length-item_rep x = omega (
    arith,
    length-append (encode 4 x.key.seq) (value_bytes x.value),
    length-encode 4 x.key.seq,
    length-value_bytes x.value,
  )

  item_rep-IsItem : {k : Bytes} (x : KvEntry) → IsMember k x → IsItem (item_rep x)
  item_rep-IsItem x h = omega (arith, length-item_rep x, h.item_fits)

  -- `add` takes an entry of its key and appends its length and its item.
  pub add_lem :
      (b : SegmentBuilder) (x : KvEntry) (storage : Bytes)
      → IsMember x.key.user_key x
      → b.public_prefix ≡ user_key_bytes x.key
      → add b x.key x.value storage ≡ (true, storage ++ item_bytes (item_rep x))
  unfolding add serialize_sequence_number_append_to
  add_lem b x storage h p =
      let ril = 4 + Value.serialized_bytes_size x.value in
      let fits : size x.value < 2 ^ 32 = omega (arith, size-le x.value, h.item_fits) in
      rw
        (
          serialize_user_key_as_string_lem x.key,
          p,
          bytes_eq_refl (user_key_bytes x.key),
          mod-eq_of_lt h.item_fits,
        )
        (ap (λ s. (true, s))
          (serialize_append_to_string_lem x.value _ fits
            ∙ rw (
              append_assoc (storage ++ encode 4 ril) (encode 4 x.key.seq) (value_bytes x.value),
              append_assoc storage (encode 4 ril) (item_rep x),
              length-item_rep x,
            )))

  same_prefix :
      (x : KvEntry) (k : SequencedKey)
      → x.key.user_key ≡ k.user_key
      → user_key_bytes k ≡ user_key_bytes x.key
  same_prefix x k h = rw h

  add_run_lem :
      (k : SequencedKey) (b : SegmentBuilder) (xs : List KvEntry) (storage : Bytes)
      → b.public_prefix ≡ user_key_bytes k
      → All (IsMember k.user_key) xs
      → add_run b xs storage ≡ storage ++ items_bytes (map item_rep xs)
  unfolding add_run
  add_run_lem k b [] storage p h = sym (append-nil storage)
  add_run_lem k b (x ∷ xs) storage p (hx, hxs) =
      let own : IsMember x.key.user_key x = record {
        same_key = refl;
        seq_fits = hx.seq_fits;
        item_fits = hx.item_fits;
      } in
      rw (add_lem b x storage own (p ∙ same_prefix x k hx.same_key)) (
        add_run_lem k b xs (storage ++ item_bytes (item_rep x)) p hxs
        ∙ append_assoc storage (item_bytes (item_rep x)) (items_bytes (map item_rep xs)))

  -- An item is read as the entry that it was written for.
  pub entry_of_item_lem :
      (k : Bytes) (x : KvEntry) → IsMember k x → entry_of_item k (item_rep x) ≡ ok (stored x)
  unfolding entry_of_item stored
  entry_of_item_lem k x h =
      let fits : size x.value < 2 ^ 32 = omega (arith, size-le x.value, h.item_fits) in
      let seq = encode 4 x.key.seq in
      ground (
        arith,
        h.same_key,
        read-append 4 seq (value_bytes x.value) (length-encode 4 _),
        advance-append 4 seq (value_bytes x.value) (length-encode 4 _),
        decode-encode 4 x.key.seq h.seq_fits,
        value_from_len x.value [] fits,
        append-nil (value_bytes x.value),
        parse-value_bytes x.value fits,
      )

  pub entries_of_items_lem :
      (k : Bytes) (xs : List KvEntry)
      → All (IsMember k) xs
      → entries_of_items k (map item_rep xs) ≡ ok (map stored xs)
  unfolding entries_of_items
  entries_of_items_lem k [] h = refl
  entries_of_items_lem k (x ∷ xs) (hx, hxs) =
      rw (entry_of_item_lem k x hx, entries_of_items_lem k xs hxs)

  -- The segment that the builder writes for the entries of one user key, behind `dst`.
  pub build_segment : SequencedKey → List KvEntry → Bytes → Bytes
  build_segment k xs dst =
      let (b, storage) = new_segment dst (serialize_user_key_as_string k) in
      (finish b (add_run b xs storage)).1

  pub build_segment_lem :
      (k : SequencedKey) (xs : List KvEntry) (dst : Bytes)
      → length k.user_key + 2 < 2 ^ 16
      → All (IsMember k.user_key) xs
      → build_segment k xs dst ≡ dst ++ segment_bytes (user_key_bytes k) (map item_rep xs)
  unfolding build_segment new_segment finish
  build_segment_lem k xs dst fits h =
      let prefix = user_key_bytes k in
      let n : length prefix < 2 ^ 16 = omega (arith, length-user_key_bytes k) in
      let front = (dst ++ encode 2 (length prefix)) ++ prefix in
      let its = items_bytes (map item_rep xs) in
      rw
        (
          serialize_user_key_as_string_lem k,
          mod-eq_of_lt n,
          add_run_lem k (record { public_prefix = prefix; finished = false }) xs front refl h,
        )
        (rw (
          append_assoc front its zeros,
          append_assoc dst (encode 2 (length prefix)) prefix,
          append_assoc dst (segment_front prefix) (its ++ zeros),
        ))

  pub members-IsItem :
      (k : Bytes) (xs : List KvEntry) → All (IsMember k) xs → All IsItem (map item_rep xs)
  members-IsItem k [] h = tt
  members-IsItem k (x ∷ xs) (hx, hxs) = (item_rep-IsItem x hx, members-IsItem k xs hxs)

  -- The entries of one user key, written as a segment, are read back in their order, whatever
  -- follows it, if the key and the items fit their fields and the segment lies within the given
  -- size. A value without bytes comes back as a tomb stone.
  pub entries-build_segment :
      (k : SequencedKey) (xs : List KvEntry) (rest : Bytes) (size : ℕ)
      → length k.user_key + 2 < 2 ^ 16
      → All (IsMember k.user_key) xs
      → length (build_segment k xs []) ≤ size
      → (parse_segment size (build_segment k xs [] ++ rest) >>= entries_from_block_segment)
        ≡ ok (map stored xs)
  unfolding entries_from_block_segment
  entries-build_segment k xs rest size fits h room =
      let prefix = user_key_bytes k in
      let items = map item_rep xs in
      let built = build_segment_lem k xs [] fits h in
      let n : length prefix ≡ 2 + length k.user_key = length-user_key_bytes k in
      rw (built) (
        rw
          (parse_segment-segment_bytes prefix items rest size (omega (arith, n)) (omega (arith, n))
            (members-IsItem k.user_key xs h) (rw (sym built) room))
          (rw (advance-append 2 (encode 2 (user_key_len k)) k.user_key (length-encode 2 _))
            (entries_of_items_lem k.user_key xs h)))
