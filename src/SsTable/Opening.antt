-- ===== src/SsTable/Opening.antt =====
-- How `sstable` of table/sstable.cc opens a table: the end of the file, the meta block and the offsets
-- of the blocks.
use frenzy_kv.Prelude.{
  ◌+◌, ◌^◌, ◌<◌, ◌≡◌, ◌≢◌, refl, ap, arith, [], ◌∷◌, map, true, false, Bool-cases, length, ◌==◌, ok,
  inl, inr,
}
use frenzy_kv.Bytes.{Bytes, bytes_eq, bytes_eq_refl, eq_of_bytes_eq, advance-append}
use frenzy_kv.Bytes.Endian.{BigEndian, encode, length-encode}
use frenzy_kv.Kv.Value
use frenzy_kv.Kv.Value.{of_string}
use frenzy_kv.Kv.Wire.{
  user_key_bytes, value_bytes, length-user_key_bytes, serialize_user_key_as_string_lem,
}
use frenzy_kv.Kv.RoundTrip.{stored_value, parse-value_bytes}
use frenzy_kv.Block.Layout.{IsParts, segment_of}
use frenzy_kv.Block.Building.{open_part-IsParts}
use frenzy_kv.Block.Whole.{IsWhole}
use frenzy_kv.SsTable.{last_uk_name, first_uk_name, bloom_filter_name}
use frenzy_kv.SsTable.Builder.{meta_entry}
use frenzy_kv.SsTable.Meta.{
  meta_parts, meta_part, last_entry, first_entry, filter_entry, meta_entry-IsBlockable,
}
use frenzy_kv.SsTable.Ending.{meta_content}
use frenzy_kv.SsTable.Reader.{SsTable, meta_value, name_rep, note_segment, note_segments}

module _ ⦃e : BigEndian⦄ where
  abbrev named_key : Bytes → Bytes
  named_key name = user_key_bytes (record { seq = 0; user_key = name })

  same_name : (name : Bytes) → bytes_eq (named_key name) (name_rep name) ≡ true
  same_name name =
      rw (serialize_user_key_as_string_lem (record { seq = 0; user_key = name }))
        (bytes_eq_refl (named_key name))

  other_name : (a b : Bytes) → length a ≢ length b → bytes_eq (named_key a) (name_rep b) ≡ false
  other_name a b lt =
      let key_a = length-user_key_bytes (record { seq = 0; user_key = a }) in
      let key_b = length-user_key_bytes (record { seq = 0; user_key = b }) in
      rw (serialize_user_key_as_string_lem (record { seq = 0; user_key = b }))
        (elim (Bool-cases (bytes_eq (named_key a) (named_key b))) [
          | inl t ↦ absurd (
              lt (
                omega
                  (arith, ap length (eq_of_bytes_eq (named_key a) (named_key b) t), key_a, key_b)))
          | inr t ↦ t
        ])

  -- The value of a meta entry is read back from its segment.
  meta_value_lem :
      (name content : Bytes)
      → 0 < length content
      → length content < 2 ^ 32
      → meta_value (segment_of (meta_part (meta_entry name content))) ≡ ok content
  unfolding meta_value stored_value Value.size Value.value
  meta_value_lem name content pos fits =
      let some_byte : (length content == 0) ≡ false = ground arith in
      rw (advance-append 4 (encode 4 0) (value_bytes (of_string content)) (length-encode 4 0))
        (rw (parse-value_bytes (of_string content) fits) (rw some_byte refl))

  pub note_segments_lem :
      (last_uk first_uk filter_rep : Bytes) (t : SsTable)
      → 0 < length last_uk
      → 0 < length first_uk
      → 0 < length filter_rep
      → length last_uk + length first_uk + length filter_rep < 2 ^ 32
      → note_segments (map segment_of (meta_parts last_uk first_uk filter_rep)) t
        ≡ ok (record t { filter_rep = filter_rep; first_uk = first_uk; last_uk = last_uk })
  unfolding note_segments note_segment
  note_segments_lem last_uk first_uk filter_rep t pl pf pr small =
      rw (other_name last_uk_name bloom_filter_name (omega arith)) (
        rw (same_name last_uk_name) (
          rw (meta_value_lem last_uk_name last_uk pl (omega arith)) (
            rw (other_name first_uk_name bloom_filter_name (omega arith)) (
              rw (other_name first_uk_name last_uk_name (omega arith)) (
                rw (same_name first_uk_name) (
                  rw (meta_value_lem first_uk_name first_uk pf (omega arith)) (
                    rw (same_name bloom_filter_name) (
                      rw (meta_value_lem bloom_filter_name filter_rep pr (omega arith)) refl))))))))

  pub meta-IsWhole :
      (last_uk first_uk filter_rep tail : Bytes)
      → length last_uk + length first_uk + length filter_rep + 114 < 2 ^ 32
      → length (meta_content last_uk first_uk filter_rep) + 9 < 2 ^ 32
      → length tail ≡ 5
      → IsWhole
          (meta_part (last_entry last_uk))
          (meta_part (first_entry first_uk) ∷ meta_part (filter_entry filter_rep) ∷ [])
          []
          tail
  meta-IsWhole last_uk first_uk filter_rep tail small fits five =
      let part : (name content : Bytes)
          → length name + 2 < 2 ^ 16
          → length content + 8 < 2 ^ 32
          → IsParts (meta_part (meta_entry name content)) =
        λ name content n c.
          let b = meta_entry-IsBlockable name content n c in
          open_part-IsParts (record { seq = 0; user_key = name }) (meta_entry name content ∷ [])
            b.key_fits (b.member, tt) in
      record {
        parts = (
          part last_uk_name last_uk (omega arith) (omega arith),
          (
            part first_uk_name first_uk (omega arith) (omega arith),
            (part bloom_filter_name filter_rep (omega arith) (omega arith), tt),
          ),
        );
        behind = tt;
        marks_fit = tt;
        few = omega arith;
        small = fits;
        five = five;
      }
