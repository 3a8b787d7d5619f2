-- ===== src/Block/SegmentBuilder.antt =====
-- `block_segment_builder` of persistent/block.cc. It appends to a string that it does not own: each
-- operation takes that string and returns it.
use frenzy_kv.Prelude.{
  ◌+◌, ◌%◌, ◌^◌, ◌++◌, length, replicate, if◌then◌else◌, Bool, true, false, not,
}
use frenzy_kv.Bytes.{Bytes, bytes_eq}
use frenzy_kv.Bytes.Endian.{BigEndian, encode}
use frenzy_kv.Kv.Key.{
  SequencedKey, serialize_user_key_as_string, serialize_sequence_number_append_to,
}
use frenzy_kv.Kv.Value
use frenzy_kv.Kv.Value.{UserValue}
use frenzy_kv.Block.Segment.{bs_ril}

pub record SegmentBuilder : Type 0 where
  pub public_prefix : Bytes
  pub finished : Bool

module _ ⦃e : BigEndian⦄ where
  unfoldable pub new_segment : Bytes → Bytes → SegmentBuilder × Bytes
  new_segment dst public_prefix = (
    record { public_prefix = public_prefix; finished = false },
    (dst ++ encode 2 (length public_prefix % 2 ^ 16)) ++ public_prefix,
  )

  unfoldable pub add : SegmentBuilder → SequencedKey → UserValue → Bytes → Bool × Bytes
  add b key value storage =
      let ril = (4 + Value.serialized_bytes_size value) % 2 ^ 32 in
      let with_seq = (serialize_sequence_number_append_to key (storage ++ encode 4 ril)).1 in
      if not (bytes_eq (serialize_user_key_as_string key) b.public_prefix)
      then (false, storage)
      else (true, (Value.serialize_append_to_string value with_seq).1)

unfoldable pub finish : SegmentBuilder → Bytes → SegmentBuilder × Bytes
finish b storage =
    if b.finished
    then (b, storage)
    else (record b { finished = true }, storage ++ replicate bs_ril 0)
