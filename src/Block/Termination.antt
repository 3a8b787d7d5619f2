-- ===== src/Block/Termination.antt =====
-- The constructor of `block_segment` ends on every storage, well formed or not.
use mathlib.Core.Logic.{◌≢◌}
use frenzy_kv.Prelude.{
  ℕ, zero, suc, ◌+◌, ◌<◌, ◌≡◌, refl, arith, true, false, ok, err, stuck, ◌>>=◌, Result,
  bind-ne-stuck, Bool, List, ◌∙◌, if◌then◌else◌, ◌==◌, exception, Bool-cases, inl, inr,
}
use frenzy_kv.Bytes.{Bytes, read}
use frenzy_kv.Bytes.Endian.{BigEndian, decode}
use frenzy_kv.Kv.Termination.{read-ne-stuck, advance-ne-stuck}
use frenzy_kv.Block.Segment.{
  bs_ppl, read_at, filled_with_zero, consumed_completely, items_loop, parse_end, parse_segment,
}

read_at-ne-stuck : (p n : ℕ) (mem : Bytes) → read_at p n mem ≢ err stuck
unfolding read_at
read_at-ne-stuck p n mem = bind-ne-stuck _ _ (advance-ne-stuck p mem) (λ rest. read-ne-stuck n rest)

zeros-ne-stuck : (p : ℕ) (mem : Bytes) → filled_with_zero p mem ≢ err stuck
unfolding filled_with_zero
zeros-ne-stuck p mem = bind-ne-stuck _ _ (read_at-ne-stuck p 4 mem) (λ b q. cc)

consumed-ne-stuck : (sentinal p : ℕ) (mem : Bytes) → consumed_completely sentinal p mem ≢ err stuck
unfolding consumed_completely
consumed-ne-stuck sentinal p mem = ground (arith, zeros-ne-stuck p mem)

-- The loop goes on only before the segment's end.
consumed-false :
    (sentinal p : ℕ) (mem : Bytes) → consumed_completely sentinal p mem ≡ ok false → p < sentinal
unfolding consumed_completely
consumed-false sentinal p mem h = ground arith

module _ ⦃e : BigEndian⦄ where
  loop-ne-stuck :
      (fuel sentinal p : ℕ) (mem : Bytes)
      → 0 < fuel
      → sentinal < fuel + p
      → items_loop fuel sentinal p mem ≢ err stuck
  unfolding items_loop
  loop-ne-stuck zero sentinal p mem pos room = absurd (omega arith)
  loop-ne-stuck (suc fuel) sentinal p mem pos room =
      after (λ p'. loop-ne-stuck fuel sentinal p' mem) (consumed_completely sentinal p mem) refl
    where
      after :
          ((p' : ℕ) → 0 < fuel → sentinal < fuel + p' → items_loop fuel sentinal p' mem ≢ err stuck)
          → (c : Result Bool) → consumed_completely sentinal p mem ≡ c
          → items_loop (suc fuel) sentinal p mem ≢ err stuck
      after ih (err x) q = rw q (λ s. consumed-ne-stuck sentinal p mem (q ∙ cc s))
      after ih (ok true) q = rw q (λ s. cc)
      after ih (ok false) q =
          let low : p < sentinal = consumed-false sentinal p mem q in
          rw q (
            bind-ne-stuck (read_at p 4 mem) _ (read_at-ne-stuck p 4 mem) (λ ril.
              bind-ne-stuck (items_loop fuel sentinal (p + 4 + decode ril) mem) _
                (ih (p + 4 + decode ril) (omega arith) (omega arith)) (λ x s. cc)))

  parse_end-ne-stuck :
      (sentinal : ℕ) (mem prefix : Bytes) (found : ℕ × List Bytes)
      → parse_end sentinal mem prefix found ≢ err stuck
  unfolding parse_end
  parse_end-ne-stuck sentinal mem prefix (current, items) =
      ground (arith, zeros-ne-stuck current mem)

  -- The parser of a segment ends within a round more than the segment has bytes, on every storage.
  pub parse_segment-ne-stuck : (size : ℕ) (mem : Bytes) → parse_segment size mem ≢ err stuck
  unfolding parse_segment
  parse_segment-ne-stuck size mem =
      bind-ne-stuck (read 2 mem) _ (read-ne-stuck 2 mem) (λ b. behind_length (decode b))
    where
      behind_length :
          (ppl : ℕ)
          → (if ppl == 0 then err exception else (do
            prefix ← read_at bs_ppl ppl mem
            found ← items_loop (suc size) size (bs_ppl + ppl) mem
            parse_end size mem prefix found))
            ≢ err stuck
      behind_length ppl = elim (Bool-cases (ppl == 0)) [
        | inl h ↦ rw h (λ s. cc)
        | inr h ↦ rw h (
            bind-ne-stuck (read_at 2 ppl mem) _ (read_at-ne-stuck 2 ppl mem) (λ prefix.
              bind-ne-stuck (items_loop (suc size) size (2 + ppl) mem) _
                (loop-ne-stuck (suc size) size (2 + ppl) mem (omega arith) (omega arith))
                (λ found. parse_end-ne-stuck size mem prefix found)))
      ]
