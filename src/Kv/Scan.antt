-- ===== src/Kv/Scan.antt =====
-- `kv_entries_from_buffer` of db/kv_entry.cc, run over a whole buffer.
use frenzy_kv.Prelude.{ℕ, zero, suc, ◌+◌, ◌≤◌, ◌<◌, ◌≡◌, refl, ap, List, [], ◌∷◌, ◌++◌, arith}
use frenzy_kv.Prelude.{length, length-append, append_assoc, none, some, ok, ◌>>=◌, ◌==◌}
use frenzy_kv.Prelude.{if◌then◌else◌, ◌⊎◌, inl, inr, map, All, Option}
use frenzy_kv.Bytes.{Bytes, read}
use frenzy_kv.Bytes.Endian.{decode_zeros, BigEndian}
use frenzy_kv.Kv.Entry
use frenzy_kv.Kv.Entry.{
  KvEntry, serialized_entry_size, parse_entry, yielded_entry, next_serialized_entry_beg,
  entries_step, entries_loop, kv_entries_from_buffer,
}
use frenzy_kv.Kv.Wire.{entry_bytes, length-entry_bytes}
use frenzy_kv.Kv.RoundTrip.{IsStorable, stored, sizes, entries_step_lem}

-- What may stand behind the last entry: nothing, or four zeros and anything.
abbrev pub IsEof : Bytes → Type 0
IsEof tail = (tail ≡ []) ⊎ ((rest : Bytes) × (tail ≡ 0 ∷ 0 ∷ 0 ∷ 0 ∷ rest))

module _ ⦃e : BigEndian⦄ where
  -- The entries one after the other, with no gap.
  unfoldable pub entries_bytes : List KvEntry → Bytes
  entries_bytes [] = []
  entries_bytes (x ∷ xs) = entry_bytes x ++ entries_bytes xs

  loop_step :
      (fuel : ℕ) (mem : Bytes) {yielded : List KvEntry} {next : Option Bytes}
      → 0 < length mem
      → entries_step mem ≡ ok (yielded, next)
      → entries_loop (suc fuel) (some mem)
        ≡ (entries_loop fuel next >>= λ rest. ok (yielded ++ rest))
  unfolding entries_loop
  loop_step fuel [] h s = absurd (omega arith)
  loop_step fuel (b ∷ bs) h s = rw s

  loop_next :
      (fuel : ℕ) (mem : Bytes)
      → entries_loop fuel (if length mem == 0 then none else some mem)
        ≡ entries_loop fuel (some mem)
  unfolding entries_loop
  loop_next zero [] = refl
  loop_next (suc fuel) [] = refl
  loop_next fuel (b ∷ bs) = ground arith

  step_eof : (rest : Bytes) → entries_step (0 ∷ 0 ∷ 0 ∷ 0 ∷ rest) ≡ ok ([], none)
  unfolding entries_step serialized_entry_size yielded_entry next_serialized_entry_beg read
  step_eof rest = ground (arith, decode_zeros ⦃e = e⦄)

  room :
      (x : KvEntry) (ys tail : Bytes)
      → length ((entry_bytes x ++ ys) ++ tail)
          ≡ Entry.serialized_bytes_size x + length ys + length tail
        × (0 < Entry.serialized_bytes_size x)
  room x ys tail = (
    omega (
      arith,
      length-append (entry_bytes x ++ ys) tail,
      length-append (entry_bytes x) ys,
      length-entry_bytes x,
    ),
    sizes x,
  )

  loop_eof :
      (fuel : ℕ) (tail : Bytes)
      → IsEof tail
      → length tail ≤ fuel
      → entries_loop fuel (some tail) ≡ ok []
  loop_eof fuel tail (inl t) h = rw t (unfold entries_loop in refl)
  loop_eof zero tail (inr (rest, t)) h = absurd (omega (arith, ap length t))
  loop_eof (suc fuel) tail (inr (rest, t)) h =
      rw t (rw (loop_step fuel _ (omega arith) (step_eof rest)) (unfold entries_loop in refl))

  loop_entries :
      (fuel : ℕ) (xs : List KvEntry) (tail : Bytes)
      → All IsStorable xs
      → IsEof tail
      → length (entries_bytes xs ++ tail) ≤ fuel
      → entries_loop fuel (some (entries_bytes xs ++ tail)) ≡ ok (map stored xs)
  unfolding entries_bytes
  loop_entries fuel [] tail h t enough = loop_eof fuel tail t enough
  loop_entries zero (x ∷ xs) tail h t enough =
      absurd (omega (arith, room x (entries_bytes xs) tail))
  loop_entries (suc fuel) (x ∷ xs) tail (hx, hxs) t enough =
      let more = entries_bytes xs ++ tail in
      rw (append_assoc (entry_bytes x) (entries_bytes xs) tail) (
        rw
          (loop_step fuel _
            (omega (arith, length-append (entry_bytes x) more, length-entry_bytes x, sizes x))
            (entries_step_lem x more hx))
          (rw (
            loop_next fuel more,
            loop_entries fuel xs tail hxs t (
                omega
                  (arith, room x (entries_bytes xs) tail, length-append (entries_bytes xs) tail)),
          )))

  -- Scanning a buffer gives back the entries that were written into it, in their order, whether
  -- the buffer ends behind the last one or goes on with four zeros, if every entry is storable: its
  -- user key is not empty, and its parts fit their fields. A value without bytes comes back as a
  -- tomb stone.
  pub kv_entries_from_buffer-entries_bytes :
      (xs : List KvEntry) (tail : Bytes)
      → All IsStorable xs
      → IsEof tail
      → kv_entries_from_buffer (entries_bytes xs ++ tail) ≡ ok (map stored xs)
  unfolding kv_entries_from_buffer
  kv_entries_from_buffer-entries_bytes xs tail h t =
      loop_entries (length (entries_bytes xs ++ tail)) xs tail h t (omega arith)
