-- ===== src/Tests.antt =====
-- Data that the examples of the theorems run on.
use frenzy_kv.Prelude.{
  ◌≡◌, true, false, ℕ, zero, suc, ◌+◌, ◌*◌, ◌/◌, ◌%◌, ◌^◌, refl, List, [], ◌∷◌, length,
}
use frenzy_kv.Bytes.{Bytes}
use frenzy_kv.Bytes.Endian.{BigEndian}
use frenzy_kv.Kv.Key.{SequencedKey}
use frenzy_kv.Kv.Value.{UserValue, of_string, tomb_stone}
use frenzy_kv.Kv.Entry.{KvEntry}
use frenzy_kv.Snapshot.{SnapshotCenter}
use frenzy_kv.WriteBatch.{WriteBatch}
use frenzy_kv.Version.{UuidOrder, FileRep, VersionDelta, VersionRep}
use frenzy_kv.Prelude.{ltb, arith}
pub mod Coding
pub mod State
pub mod Versions
pub mod Files
pub mod Databases
pub mod Blocks
pub mod Tables
pub mod Opened

abbrev to_bytes : ℕ → ℕ → List ℕ
to_bytes zero n = []
to_bytes (suc w) n = (n / 256 ^ w % 256) ∷ to_bytes w n

abbrev from_bytes : List ℕ → ℕ
from_bytes [] = 0
from_bytes (b ∷ bs) = b * 256 ^ length bs + from_bytes bs

instance abbrev pub big_endian : BigEndian
big_endian = record {
  encode = to_bytes;
  decode = from_bytes;
  encode_zero = λ n. refl;
  encode_suc = λ w n. refl;
  decode_nil = refl;
  decode_cons = λ b bs. refl;
}

pub ltb_irrefl : (a : ℕ) → ltb a a ≡ false
ltb_irrefl a = ground arith

pub ltb_trans : (a b c : ℕ) → ltb a b ≡ true → ltb b c ≡ true → ltb a c ≡ true
ltb_trans a b c h k = ground arith

pub ltb_connected : (a b : ℕ) → ltb a b ≡ false → ltb b a ≡ false → a ≡ b
ltb_connected a b h k = ground arith

instance abbrev pub uuid_order : UuidOrder
uuid_order = record {
  less = ltb;
  less_irrefl = ltb_irrefl;
  less_trans = ltb_trans;
  less_connected = ltb_connected;
}

abbrev pub key_a : SequencedKey
key_a = record { seq = 7; user_key = 97 ∷ [] }

abbrev pub key_b : SequencedKey
key_b = record { seq = 8; user_key = 98 ∷ 99 ∷ [] }

abbrev pub entry_a : KvEntry
entry_a = record { key = key_a; value = of_string (120 ∷ 121 ∷ []) }

abbrev pub entry_b : KvEntry
entry_b = record { key = key_b; value = tomb_stone }

-- A later version of the first key.
abbrev pub entry_c : KvEntry
entry_c = record { key = record { seq = 9; user_key = 97 ∷ [] }; value = of_string (122 ∷ []) }

abbrev pub batch : WriteBatch
batch = record { seqnumber = 7; entries = entry_a ∷ entry_b ∷ [] }

abbrev pub center : SnapshotCenter
center = record { newest_unused_seq = 5 }

abbrev pub file_1 : FileRep
file_1 = record { level = 0; file_id = 1 }

abbrev pub file_2 : FileRep
file_2 = record { level = 0; file_id = 2 }

abbrev pub version : VersionRep
version = record { files = file_2 ∷ file_1 ∷ []; ref_count = 1; version_desc_name = [] }

abbrev pub delta : VersionDelta
delta = record { compacted = file_1 ∷ []; added = record { level = 1; file_id = 3 } ∷ [] }
