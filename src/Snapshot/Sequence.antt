-- ===== src/Snapshot/Sequence.antt =====
-- Sequence numbers are handed out in consecutive ranges and never twice.
use Prim.Native.Nat.{max}
use frenzy_kv.Prelude.{ℕ, ◌+◌, ◌-◌, ◌%◌, ◌≤◌, ◌<◌, ◌≡◌, refl, List, [], ◌∷◌, arith}
use frenzy_kv.Snapshot.{
  SnapshotCenter, seq_mod, leatest_used_sequence_number, get_next_unused_sequence_number,
  set_init_leatest_used_sequence_number,
}

-- A number is in use from 1 on, and the next one fits its type.
pub record IsRunning (c : SnapshotCenter) : Type 0 where
  pub started : 1 ≤ c.newest_unused_seq
  pub fits : c.newest_unused_seq < seq_mod

-- The ranges that a run of calls hands out, as pairs of the first number and the count.
pub hand_out : SnapshotCenter → List ℕ → List (ℕ × ℕ)
hand_out c [] = []
hand_out c (n ∷ counts) =
    let (first, c') = get_next_unused_sequence_number n c in (first, n) ∷ hand_out c' counts

abbrev total : List ℕ → ℕ
total [] = 0
total (n ∷ counts) = n + total counts

-- Each range begins behind the ranges before it, which end below `from`.
abbrev pub Consecutive : ℕ → List (ℕ × ℕ) → Type 0
Consecutive from [] = Unit
Consecutive from ((first, n) ∷ ranges) = (first ≡ from) × Consecutive (from + n) ranges

-- As long as the 32 bits are not used up, each range that is handed out starts right behind the one
-- before.
pub hand_out-Consecutive :
    (c : SnapshotCenter) (counts : List ℕ)
    → IsRunning c
    → c.newest_unused_seq + total counts < seq_mod
    → Consecutive c.newest_unused_seq (hand_out c counts)
unfolding hand_out get_next_unused_sequence_number
hand_out-Consecutive c [] h room = tt
hand_out-Consecutive c (n ∷ counts) h room =
    let u = c.newest_unused_seq in
    let wrap : (u + n % seq_mod) % seq_mod ≡ u + n = omega arith in
    (
      refl,
      rw wrap (
          hand_out-Consecutive (record { newest_unused_seq = u + n }) counts (omega arith)
            (omega arith)),
    )

-- After a range is handed out, the last number in use is the range's last one, if the 32 bits are
-- not used up and the range is not empty.
pub leatest_used-get_next :
    (c : SnapshotCenter) (n : ℕ)
    → IsRunning c
    → 0 < n
    → c.newest_unused_seq + n < seq_mod
    → leatest_used_sequence_number (get_next_unused_sequence_number n c).1
      ≡ (get_next_unused_sequence_number n c).0 + n - 1
unfolding leatest_used_sequence_number get_next_unused_sequence_number
leatest_used-get_next c n h pos room = omega arith

-- Recovery sets the last number in use to the larger of the one it has and the one it is given.
pub leatest_used-set_init :
    (c : SnapshotCenter) (seq : ℕ)
    → IsRunning c
    → seq + 1 < seq_mod
    → leatest_used_sequence_number (set_init_leatest_used_sequence_number seq c)
      ≡ max (leatest_used_sequence_number c) seq
unfolding leatest_used_sequence_number set_init_leatest_used_sequence_number
leatest_used-set_init c seq h room = ground arith
