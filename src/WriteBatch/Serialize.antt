-- ===== src/WriteBatch/Serialize.antt =====
-- `write_batch::serialize_to`, and reading a serialized batch back.
use frenzy_kv.Prelude.{
  ℕ, ◌^◌, ◌≤◌, ◌<◌, ◌≡◌, refl, ap, ◌∙◌, sym, List, [], ◌∷◌, map, All, All-map, arith, length, drop,
  replicate, length-drop, length-replicate, ltb, ltb-false, ◌==◌, if◌then◌else◌, true, false, ok,
  inl, append-nil,
}
use frenzy_kv.Bytes.{Bytes, overwrite, within-overwrite, overwrite_all, drop-overwrite}
use frenzy_kv.Prelude.{length-append}
use frenzy_kv.Bytes.Endian.{BigEndian}
use frenzy_kv.Kv.Entry
use frenzy_kv.Kv.Entry.{KvEntry, kv_entries_from_buffer}
use frenzy_kv.Kv.Wire.{entry_bytes, length-entry_bytes, entry-serialize_to}
use frenzy_kv.Kv.RoundTrip.{IsStorable, stored, sizes}
use frenzy_kv.Kv.Scan.{entries_bytes, kv_entries_from_buffer-entries_bytes}
use frenzy_kv.WriteBatch.{WriteBatch, serialized_size, serialize_loop, serialize_to}

-- The entry's length fits its 32-bit field.
abbrev pub IsShort : KvEntry → Type 0
IsShort x = Entry.serialized_bytes_size x < 2 ^ 32

module _ ⦃e : BigEndian⦄ where
  loop_lem :
      (xs : List KvEntry) (buffer : Bytes)
      → All IsShort xs
      → serialized_size xs ≤ length buffer
      → serialize_loop xs buffer ≡ (true, overwrite (entries_bytes xs) buffer)
  unfolding serialize_loop serialized_size entries_bytes
  loop_lem [] buffer h room = unfold overwrite in refl
  loop_lem (x ∷ xs) buffer (hx, hxs) room =
      let n = Entry.serialized_bytes_size x in
      let rest = drop n buffer in
      let some_left : (n == 0) ≡ false = ground (arith, sizes x) in
      rw (entry-serialize_to x buffer hx (omega arith)) (
        rw (drop-overwrite n (entry_bytes x) buffer (length-entry_bytes x)) (
          rw (loop_lem xs rest hxs (omega (arith, length-drop n buffer))) (
            rw some_left (
              ap (λ w. (true, w))
                (within-overwrite n (λ _. overwrite (entries_bytes xs) rest) (entry_bytes x)
                  (entries_bytes xs) buffer (length-entry_bytes x) refl)))))

  pub length-entries_bytes : (xs : List KvEntry) → length (entries_bytes xs) ≡ serialized_size xs
  unfolding entries_bytes serialized_size
  length-entries_bytes [] = refl
  length-entries_bytes (x ∷ xs) = omega (
    arith,
    length-append (entry_bytes x) (entries_bytes xs),
    length-entry_bytes x,
    length-entries_bytes xs,
  )

  -- A batch of entries whose lengths fit 32 bits is written as its entries one after the other at
  -- the buffer's front, or, into a buffer that is too small, not at all.
  pub serialize_to_lem :
      (b : WriteBatch) (buffer : Bytes)
      → All IsShort b.entries
      → serialize_to b buffer ≡ (
          if ltb (length buffer) (serialized_size b.entries)
          then (0, buffer)
          else (serialized_size b.entries, overwrite (entries_bytes b.entries) buffer))
  unfolding serialize_to
  serialize_to_lem b buffer h = ground (arith, loop_lem b.entries buffer h)

  -- Reading a serialized batch of storable entries gives them back in their order, a value without
  -- bytes as a tomb stone.
  pub kv_entries_from_buffer-serialize_to :
      (b : WriteBatch)
      → All IsStorable b.entries
      → kv_entries_from_buffer (serialize_to b (replicate (serialized_size b.entries) 0)).1
        ≡ ok (map stored b.entries)
  kv_entries_from_buffer-serialize_to b h =
      let n = serialized_size b.entries in
      let buffer = replicate n 0 in
      let short : All IsShort b.entries = All-map (λ x s. s.total_fits) b.entries h in
      let whole : (serialize_to b buffer).1 ≡ entries_bytes b.entries =
        rw
          (
            serialize_to_lem b buffer short,
            ltb-false {a = n} {b = length buffer} (omega (arith, length-replicate {A = ℕ} n 0)),
          )
          (overwrite_all (entries_bytes b.entries) buffer
            (omega (arith, length-entries_bytes b.entries, length-replicate {A = ℕ} n 0))) in
      ap kv_entries_from_buffer (whole ∙ sym (append-nil (entries_bytes b.entries)))
      ∙ kv_entries_from_buffer-entries_bytes b.entries [] h (inl refl)
