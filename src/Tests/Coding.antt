-- ===== src/Tests/Coding.antt =====
-- Examples of the theorems on the serialized forms.
use frenzy_kv.Prelude.{
  ◌+◌, ◌≤◌, ◌≡◌, ◌≢◌, refl, [], ◌∷◌, ◌++◌, map, length, replicate, arith, ok, err, stuck, inl, true,
}
use frenzy_kv.Bytes.Order.{lexicographic, is_lt}
use frenzy_kv.Kv.Key
use frenzy_kv.Kv.Key.{
  logic_lexicographic_simulate_less, key_less, key_eq, serialize_user_key_append_to,
  serialize_user_key_as_string,
}
use frenzy_kv.Kv.Value
use frenzy_kv.Kv.Value.{size}
use frenzy_kv.Kv.Entry
use frenzy_kv.Kv.Entry.{KvEntry, kv_entries_from_buffer, parse_entry}
use frenzy_kv.Kv.Wire.{key_bytes, serialize_user_key_append_to_long}
use frenzy_kv.Kv.RoundTrip.{IsStorable, stored}
use frenzy_kv.Kv.Scan.{entries_bytes, kv_entries_from_buffer-entries_bytes}
use frenzy_kv.Kv.Termination.{kv_entries_from_buffer-ne-stuck}
use frenzy_kv.Kv.KeyOrder.{less-lexicographic}
use frenzy_kv.Block.Items.{segment_size}
use frenzy_kv.Block.SegmentRoundTrip.{IsMember, build_segment, build_segment_lem}
use frenzy_kv.WriteBatch.{serialized_size, serialize_to}
use frenzy_kv.WriteBatch.Serialize.{IsShort, kv_entries_from_buffer-serialize_to}
use frenzy_kv.Tests.{big_endian, key_a, key_b, entry_a, entry_b, entry_c, batch}

entry_a-IsShort : IsShort entry_a
unfolding Entry.serialized_bytes_size Key.serialized_bytes_size Value.serialized_bytes_size
    Value.is_tomb_stone size
entry_a-IsShort = omega arith

entry_b-IsShort : IsShort entry_b
unfolding Entry.serialized_bytes_size Key.serialized_bytes_size Value.serialized_bytes_size
    Value.is_tomb_stone size
entry_b-IsShort = omega arith

pub entry_a-IsStorable : IsStorable entry_a
entry_a-IsStorable = record {
  key = record { nonempty = omega arith; key_fits = omega arith; seq_fits = omega arith };
  total_fits = entry_a-IsShort;
}

pub entry_b-IsStorable : IsStorable entry_b
entry_b-IsStorable = record {
  key = record { nonempty = omega arith; key_fits = omega arith; seq_fits = omega arith };
  total_fits = entry_b-IsShort;
}

kv_entries_from_buffer-entries_bytes_example :
    kv_entries_from_buffer (entries_bytes (entry_a ∷ entry_b ∷ []) ++ [])
    ≡ ok (map stored (entry_a ∷ entry_b ∷ []))
kv_entries_from_buffer-entries_bytes_example =
    kv_entries_from_buffer-entries_bytes (entry_a ∷ entry_b ∷ []) []
      (entry_a-IsStorable, (entry_b-IsStorable, tt)) (inl refl)

less-lexicographic_example :
    logic_lexicographic_simulate_less key_a key_b
    ≡ is_lt (lexicographic (key_bytes key_a) (key_bytes key_b))
less-lexicographic_example =
    less-lexicographic key_a key_b (omega arith) (omega arith) (omega arith) (omega arith)

kv_entries_from_buffer-serialize_to_example :
    kv_entries_from_buffer (serialize_to batch (replicate (serialized_size batch.entries) 0)).1
    ≡ ok (map stored batch.entries)
kv_entries_from_buffer-serialize_to_example =
    kv_entries_from_buffer-serialize_to batch (entry_a-IsStorable, (entry_b-IsStorable, tt))

kv_entries_from_buffer-ne-stuck_example :
    kv_entries_from_buffer (0 ∷ 0 ∷ 0 ∷ 9 ∷ 1 ∷ []) ≢ err stuck
kv_entries_from_buffer-ne-stuck_example = kv_entries_from_buffer-ne-stuck (0 ∷ 0 ∷ 0 ∷ 9 ∷ 1 ∷ [])

segment_fits : segment_size (0 ∷ 1 ∷ 97 ∷ []) ((1 ∷ 2 ∷ []) ∷ []) ≤ 20
segment_fits = omega arith

entry_a-IsMember : IsMember key_a.user_key entry_a
unfolding Value.serialized_bytes_size Value.is_tomb_stone size
entry_a-IsMember = record { same_key = refl; seq_fits = omega arith; item_fits = omega arith }

entry_c-IsMember : IsMember key_a.user_key entry_c
unfolding Value.serialized_bytes_size Value.is_tomb_stone size
entry_c-IsMember = record { same_key = refl; seq_fits = omega arith; item_fits = omega arith }

built_fits : length (build_segment key_a (entry_a ∷ entry_c ∷ []) []) ≤ 1000
built_fits =
    rw
      (build_segment_lem key_a (entry_a ∷ entry_c ∷ []) [] (omega arith)
        (entry_a-IsMember, (entry_c-IsMember, tt)))
      (unfold size in omega arith)

fits_20 : Entry.serialized_bytes_size entry_a ≤ 20
unfolding Entry.serialized_bytes_size Key.serialized_bytes_size Value.serialized_bytes_size
    Value.is_tomb_stone size
fits_20 = omega arith

serialize_user_key_append_to_long_example :
    length (serialize_user_key_append_to key_b (1 ∷ [])).1
      ≡ length ((1 ∷ []) ++ serialize_user_key_as_string key_b) + 2
    × ((serialize_user_key_append_to key_b (1 ∷ [])).0
        ≡ length (serialize_user_key_as_string key_b))
serialize_user_key_append_to_long_example = serialize_user_key_append_to_long key_b (1 ∷ [])

less_ab : key_less key_a key_b ≡ true
unfolding key_less logic_lexicographic_simulate_less
less_ab = ground arith

less_bc : key_less key_b (record { seq = 0; user_key = 1 ∷ 2 ∷ 3 ∷ [] }) ≡ true
unfolding key_less logic_lexicographic_simulate_less
less_bc = ground arith
