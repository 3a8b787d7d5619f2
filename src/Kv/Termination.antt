-- ===== src/Kv/Termination.antt =====
-- `kv_entries_from_buffer` ends on every buffer, well formed or not.
use mathlib.Core.Logic.{◌≢◌}
use frenzy_kv.Prelude.{
  ℕ, zero, suc, ◌≤◌, ◌<◌, ◌≡◌, refl, ◌∙◌, List, [], ◌∷◌, ◌++◌, arith, length, length-drop,
}
use frenzy_kv.Prelude.{none, some, ok, err, stuck, ◌>>=◌, Option, Result}
use frenzy_kv.Prelude.{bind-ne-stuck}
use frenzy_kv.Bytes.{Bytes, read, advance}
use frenzy_kv.Bytes.Endian.{BigEndian}
use frenzy_kv.Kv.Key.{parse_key}
use frenzy_kv.Kv.Value
use frenzy_kv.Kv.Value.{UserValue}
use frenzy_kv.Kv.Entry.{
  KvEntry, serialized_entry_size, serialized_sequenced_key, serialized_user_value,
  serialized_user_value_from_value_len, parse_entry, yielded_entry, next_serialized_entry_beg,
  entries_step, entries_loop, kv_entries_from_buffer,
}

pub read-ne-stuck : (n : ℕ) (mem : Bytes) → read n mem ≢ err stuck
unfolding read
read-ne-stuck n mem = ground arith

pub advance-ne-stuck : (n : ℕ) (mem : Bytes) → advance n mem ≢ err stuck
unfolding advance
advance-ne-stuck n mem = ground arith

module _ ⦃e : BigEndian⦄ where
  size-ne-stuck : (mem : Bytes) → serialized_entry_size mem ≢ err stuck
  unfolding serialized_entry_size read
  size-ne-stuck mem = ground arith

  seq_key-ne-stuck : (mem : Bytes) → serialized_sequenced_key mem ≢ err stuck
  unfolding serialized_sequenced_key read advance
  seq_key-ne-stuck mem = ground arith

  user_value-ne-stuck : (mem : Bytes) → serialized_user_value mem ≢ err stuck
  unfolding serialized_user_value serialized_user_value_from_value_len read advance
  user_value-ne-stuck mem = ground (arith, seq_key-ne-stuck mem)

  parse_key-ne-stuck : (bs : Bytes) → parse_key bs ≢ err stuck
  unfolding parse_key read advance
  parse_key-ne-stuck bs = ground arith

  parse-ne-stuck : (bs : Bytes) → Value.parse bs ≢ err stuck
  unfolding Value.parse Value.parse_bytes read advance
  parse-ne-stuck bs = ground arith

  parse_entry-ne-stuck : (n : ℕ) (mem : Bytes) → parse_entry n mem ≢ err stuck
  unfolding parse_entry
  parse_entry-ne-stuck n mem =
      grind (arith, seq_key-ne-stuck, user_value-ne-stuck, parse_key-ne-stuck, parse-ne-stuck)

  next_shrinks :
      (mem : Bytes) (m : Bytes)
      → next_serialized_entry_beg mem ≡ ok (some m)
      → length m < length mem
  unfolding next_serialized_entry_beg advance
  next_shrinks mem m h = grind (arith, length-drop)

  next-ne-stuck : (mem : Bytes) → next_serialized_entry_beg mem ≢ err stuck
  unfolding next_serialized_entry_beg advance
  next-ne-stuck mem = ground (arith, size-ne-stuck mem)

  step-ne-stuck : (mem : Bytes) → entries_step mem ≢ err stuck
  unfolding entries_step yielded_entry
  step-ne-stuck mem = grind (arith, size-ne-stuck, parse_entry-ne-stuck, next-ne-stuck)

  step_shrinks :
      (mem : Bytes) (yielded : List KvEntry) (m : Bytes)
      → entries_step mem ≡ ok (yielded, some m)
      → length m < length mem
  unfolding entries_step
  step_shrinks mem yielded m h = grind (arith, next_shrinks)

  loop-ne-stuck :
      (fuel : ℕ) (mem : Bytes) → length mem ≤ fuel → entries_loop fuel (some mem) ≢ err stuck
  unfolding entries_loop
  loop-ne-stuck fuel [] h = λ e. cc
  loop-ne-stuck zero (b ∷ bs) h = absurd (omega arith)
  loop-ne-stuck (suc fuel) (b ∷ bs) h =
      after (λ m. loop-ne-stuck fuel m) (entries_step (b ∷ bs)) refl
    where
      after :
          ((m : Bytes) → length m ≤ fuel → entries_loop fuel (some m) ≢ err stuck)
          → (r : Result (List KvEntry × Option Bytes)) → entries_step (b ∷ bs) ≡ r
          → (r >>= λ p. entries_loop fuel p.1 >>= λ rest. ok (p.0 ++ rest)) ≢ err stuck
      after ih (err x) s = λ q. step-ne-stuck (b ∷ bs) (s ∙ cc q)
      after ih (ok (yielded, none)) s = λ q. cc
      after ih (ok (yielded, some m)) s =
          bind-ne-stuck (entries_loop fuel (some m)) _
            (ih m (omega (arith, step_shrinks (b ∷ bs) yielded m s))) (λ rest q. cc)

  -- On every buffer the scan ends within a round for each byte.
  pub kv_entries_from_buffer-ne-stuck : (buffer : Bytes) → kv_entries_from_buffer buffer ≢ err stuck
  unfolding kv_entries_from_buffer
  kv_entries_from_buffer-ne-stuck buffer = loop-ne-stuck (length buffer) buffer (omega arith)
