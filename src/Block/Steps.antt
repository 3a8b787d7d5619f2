-- ===== src/Block/Steps.antt =====
-- What one `add` of `block_builder` in persistent/block.cc does.
use frenzy_kv.Prelude.{
  ℕ, ◌+◌, ◌-◌, ◌%◌, ◌^◌, ◌<◌, ◌≡◌, refl, sym, ap, List, [], ◌∷◌, ◌++◌, arith, length, length-append,
  append_assoc, append-nil, drop, drop-append, ok, true, false, Option, some, Bool-cases, inl, inr,
  ◌⊎◌, ◌==◌,
}
use Prim.Native.Nat.{Ordering}
use frenzy_kv.Bytes.{Bytes, bytes_eq, eq_of_bytes_eq}
use frenzy_kv.Bytes.Endian.{BigEndian, encode}
use frenzy_kv.Bytes.Order.{memcmp_comparator, memcmp_comparator-lexicographic, lexicographic_refl}
use frenzy_kv.Kv.Key.{SequencedKey}
use frenzy_kv.Kv.Entry.{KvEntry}
use frenzy_kv.Kv.Wire.{user_key_bytes, length-user_key_bytes, serialize_user_key_as_string_lem}
use frenzy_kv.Block.SegmentBuilder
use frenzy_kv.Block.SegmentBuilder.{SegmentBuilder, new_segment}
use frenzy_kv.Block.SegmentRoundTrip.{IsMember, item_rep, add_lem}
use frenzy_kv.Block.Items.{item_bytes, segment_front, zeros}
use frenzy_kv.Block.Builder.{
  BlockBuilder, BlockOptions, Compressor, new_block_builder, open_segment, ensure_segment,
  note_special, next_segment, add,
}
use native.Mathlib.Nat.{mod-eq_of_lt}

-- The parts of an entry fit their fields in a block.
pub record IsBlockable (x : KvEntry) : Type 0 where
  pub key_fits : length x.key.user_key + 2 < 2 ^ 16
  pub member : IsMember x.key.user_key x

module _ ⦃e : BigEndian⦄ where
  abbrev pub segment_for : SequencedKey → SegmentBuilder
  segment_for k = record { public_prefix = user_key_bytes k; finished = false }

  -- A builder that has an open segment for a key.
  abbrev pub state : Bytes → SequencedKey → ℕ → List ℕ → Option Compressor → BlockBuilder
  state storage k count marks c = record {
    storage = storage;
    current_seg_builder = some (segment_for k);
    seg_count = count;
    sbsos = marks;
    finished = false;
    compressor = c;
    compressed = false;
  }

  -- A front and the first item of a segment.
  abbrev pub opening : KvEntry → Bytes
  opening x = segment_front (user_key_bytes x.key) ++ item_bytes (item_rep x)

  -- What starts a segment for the key of an entry, and adds the entry to it.
  opened_lem :
      (x : KvEntry) (b : BlockBuilder)
      → IsBlockable x
      → open_segment x.key b ≡ (
        record b {
          storage = b.storage ++ segment_front (user_key_bytes x.key);
          current_seg_builder = some (segment_for x.key);
        },
        segment_for x.key,
      )
  unfolding open_segment new_segment
  opened_lem x b h =
      let prefix = user_key_bytes x.key in
      let n : length prefix < 2 ^ 16 = omega (arith, length-user_key_bytes x.key, h.key_fits) in
      rw (serialize_user_key_as_string_lem x.key, mod-eq_of_lt n)
        (ap
          (λ bytes. (
            record b { storage = bytes; current_seg_builder = some (segment_for x.key) },
            segment_for x.key,
          ))
          (append_assoc b.storage (encode 2 (length prefix)) prefix))

  added_lem :
      (x : KvEntry) (k : SequencedKey) (storage : Bytes)
      → IsBlockable x
      → x.key.user_key ≡ k.user_key
      → SegmentBuilder.add (segment_for k) x.key x.value storage
        ≡ (true, storage ++ item_bytes (item_rep x))
  added_lem x k storage h same =
      let prefixes : user_key_bytes k ≡ user_key_bytes x.key = rw same refl in
      add_lem (segment_for k) x storage h.member prefixes

  -- An entry of the segment's key goes into the segment.
  pub add_same :
      (opt : BlockOptions) (x : KvEntry) (k : SequencedKey) (storage : Bytes) (n : ℕ)
      (marks : List ℕ) (c : Option Compressor)
      → IsBlockable x
      → x.key.user_key ≡ k.user_key
      → add opt x.key x.value (state storage k n marks c)
        ≡ ok (state (storage ++ item_bytes (item_rep x)) k n marks c)
  unfolding add ensure_segment
  add_same opt x k storage n marks c h same = rw (added_lem x k storage h same) refl

  -- The first entry opens a segment, whose offset is noted.
  pub add_first :
      (opt : BlockOptions) (x : KvEntry) (c : Option Compressor)
      → IsBlockable x
      → add opt x.key x.value (new_block_builder c)
        ≡ ok (state (zeros ++ opening x) x.key 1 (4 ∷ []) c)
  unfolding add ensure_segment
  add_first opt x c h =
      let b : BlockBuilder = record (new_block_builder c) { seg_count = 1; sbsos = 4 ∷ [] } in
      rw (opened_lem x b h) (
        rw (added_lem x x.key (zeros ++ segment_front (user_key_bytes x.key)) h refl) (
          ap (λ bytes. ok (state bytes x.key 1 (4 ∷ []) c))
            (append_assoc zeros (segment_front (user_key_bytes x.key)) (item_bytes (item_rep x)))))

  abbrev pub IsMarked : Bytes → List ℕ → Type 0
  IsMarked storage more = (more ≡ []) ⊎ (more ≡ length storage ∷ [])

  note_special_lem :
      (interval : ℕ) (storage : Bytes) (k : SequencedKey) (n : ℕ) (marks : List ℕ)
      (c : Option Compressor)
      → 0 < interval
      → length (storage ++ zeros) < 2 ^ 32
      → (more : List ℕ) × (note_special interval (state (storage ++ zeros) k n marks c)
          ≡ ok (state (storage ++ zeros) k n (marks ++ more) c))
        × IsMarked (storage ++ zeros) more
        × (((n + 1) % interval == 0) ≡ false → more ≡ [])
  unfolding note_special bytes_eq
  note_special_lem interval storage k n marks c pos fits =
      let nonzero : (interval == 0) ≡ false = ground arith in
      let at : length storage ≡ length (storage ++ zeros) - 4 =
        omega (arith, length-append storage zeros) in
      let end : drop (length (storage ++ zeros) - 4) (storage ++ zeros) ≡ zeros =
        drop-append (length (storage ++ zeros) - 4) storage zeros at in
      elim (Bool-cases ((n + 1) % interval == 0)) [
        | inl t ↦ (
          length (storage ++ zeros) ∷ [],
          rw nonzero (rw t (rw end (rw (mod-eq_of_lt fits) refl))),
          inr refl,
          λ f. absurd (ground (arith, t, f)),
        )
        | inr t ↦ (
          [],
          rw nonzero
              (rw t (ap (λ ms. ok (state (storage ++ zeros) k n ms c)) (sym (append-nil marks)))),
          inl refl,
          λ f. refl,
        )
      ]

  other_prefix :
      (x : KvEntry) (k : SequencedKey)
      → memcmp_comparator (user_key_bytes x.key) (user_key_bytes k) ≡ Ordering.gt
      → bytes_eq (user_key_bytes x.key) (user_key_bytes k) ≡ false
  other_prefix x k h = elim (Bool-cases (bytes_eq (user_key_bytes x.key) (user_key_bytes k))) [
    | inl t ↦ absurd (
        ground (
          arith,
          h,
          eq_of_bytes_eq (user_key_bytes x.key) (user_key_bytes k) t,
          memcmp_comparator-lexicographic (user_key_bytes x.key) (user_key_bytes k),
          lexicographic_refl (user_key_bytes x.key),
          lexicographic_refl (user_key_bytes k),
        ))
    | inr t ↦ t
  ]

  refused_lem :
      (x : KvEntry) (k : SequencedKey) (storage : Bytes)
      → memcmp_comparator (user_key_bytes x.key) (user_key_bytes k) ≡ Ordering.gt
      → SegmentBuilder.add (segment_for k) x.key x.value storage ≡ (false, storage)
  unfolding SegmentBuilder.add
  refused_lem x k storage above =
      rw (serialize_user_key_as_string_lem x.key) (rw (other_prefix x k above) refl)

  -- An entry of a greater key ends the segment and opens one, whose offset may be noted.
  pub add_next :
      (opt : BlockOptions) (x : KvEntry) (k : SequencedKey) (storage : Bytes) (n : ℕ)
      (marks : List ℕ) (c : Option Compressor)
      → IsBlockable x
      → 0 < opt.max_block_segments_number
      → length (storage ++ zeros) < 2 ^ 32
      → memcmp_comparator (user_key_bytes x.key) (user_key_bytes k) ≡ Ordering.gt
      → (more : List ℕ) × (add opt x.key x.value (state storage k n marks c)
          ≡ ok (state ((storage ++ zeros) ++ opening x) x.key (n + 1) (marks ++ more) c))
        × IsMarked (storage ++ zeros) more
        × (((n + 1 + 1) % opt.max_block_segments_number == 0) ≡ false → more ≡ [])
  unfolding add ensure_segment next_segment SegmentBuilder.finish
  add_next opt x k storage n marks c h pos fits above =
      let (more, e, m, unmarked) =
        note_special_lem opt.max_block_segments_number storage k (n + 1) marks c pos fits in
      let closed = storage ++ zeros in
      let b = state closed k (n + 1) (marks ++ more) c in
      (
        more,
        rw (refused_lem x k storage above) (
            rw (serialize_user_key_as_string_lem x.key) (
              rw above (
                rw e (
                  rw (opened_lem x b h) (
                    rw (added_lem x x.key (closed ++ segment_front (user_key_bytes x.key)) h refl) (
                      ap (λ bytes. ok (state bytes x.key (n + 1) (marks ++ more) c))
                        (append_assoc closed (segment_front (user_key_bytes x.key))
                          (item_bytes (item_rep x))))))))),
        m,
        unmarked,
      )
