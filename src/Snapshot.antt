-- ===== src/Snapshot.antt =====
-- `snapshot_center` of include/frenzykv/db/snapshot.h and db/snapshot.cc: the sequence numbers.
pub mod Sequence
use frenzy_kv.Prelude.{ℕ, ◌+◌, ◌-◌, ◌%◌, ◌^◌, leb, if◌then◌else◌, Bool, not, ◌==◌}

-- A `sequence_number_t` is a `uint32_t`.
abbrev pub seq_mod : ℕ
seq_mod = 2 ^ 32

pub record SnapshotCenter : Type 0 where
  pub newest_unused_seq : ℕ

abbrev pub new_center : SnapshotCenter
new_center = record { newest_unused_seq = 1 }

unfoldable pub leatest_used_sequence_number : SnapshotCenter → ℕ
leatest_used_sequence_number c = (c.newest_unused_seq + seq_mod - 1) % seq_mod

-- The first of `count` numbers, and the state after the atomic addition. The `assert` that `count` is
-- below the largest number, which a build without assertions does not have, is left out.
unfoldable pub get_next_unused_sequence_number : ℕ → SnapshotCenter → ℕ × SnapshotCenter
get_next_unused_sequence_number count c = (
  c.newest_unused_seq,
  record c { newest_unused_seq = (c.newest_unused_seq + count % seq_mod) % seq_mod },
)

unfoldable pub set_init_leatest_used_sequence_number : ℕ → SnapshotCenter → SnapshotCenter
set_init_leatest_used_sequence_number seq c =
    if leb ((seq + 1) % seq_mod) (leatest_used_sequence_number c)
    then c
    else record c { newest_unused_seq = (seq + 1) % seq_mod }

-- `snapshot::valid`: a snapshot of sequence number 0 counts as none.
unfoldable pub snapshot_valid : ℕ → Bool
snapshot_valid seq = not (seq == 0)
