-- ===== src/WriteBatch.antt =====
-- `write_batch` of include/frenzykv/write_batch.h and util/write_batch.cc.
pub mod Sequence
pub mod Serialize
pub mod Remove
use frenzy_kv.Prelude.{
  ℕ, zero, suc, ◌+◌, ◌-◌, ◌%◌, ◌^◌, List, [], ◌∷◌, ◌++◌, length, drop, ltb, ◌==◌, if◌then◌else◌,
  Bool, true, false,
}
use frenzy_kv.Bytes.{Bytes, bytes_eq, within}
use frenzy_kv.Bytes.Endian.{BigEndian}
use frenzy_kv.Kv.Key.{SequencedKey, set_sequence_number}
use frenzy_kv.Kv.Value.{set_tomb_stone, of_string, tomb_stone}
use frenzy_kv.Kv.Entry
use frenzy_kv.Kv.Entry.{KvEntry}

pub record WriteBatch : Type 0 where
  pub seqnumber : ℕ
  pub entries : List KvEntry

abbrev pub empty : WriteBatch
empty = record { seqnumber = 0; entries = [] }

abbrev pub count : WriteBatch → ℕ
count b = length b.entries

unfoldable pub write_entry : KvEntry → WriteBatch → WriteBatch
write_entry x b = record b { entries = b.entries ++ x ∷ [] }

-- The sequence number of the entry that a `write` appends.
abbrev pub next_seq : WriteBatch → ℕ
next_seq b = (b.seqnumber + count b) % 2 ^ 32

unfoldable pub write : Bytes → Bytes → WriteBatch → WriteBatch
write k v b =
    write_entry (record { key = record { seq = next_seq b; user_key = k }; value = of_string v }) b

unfoldable pub write_batch : WriteBatch → WriteBatch → WriteBatch
write_batch other b = record b { entries = b.entries ++ other.entries }

unfoldable pub serialized_size : List KvEntry → ℕ
serialized_size [] = 0
serialized_size (x ∷ xs) = Entry.serialized_bytes_size x + serialized_size xs

unfoldable pub set_entry_seq : ℕ → KvEntry → KvEntry
set_entry_seq n x = record x { key = set_sequence_number n x.key }

-- `repropogate_sequence_num`, from the index `i` on.
unfoldable pub repropogate : ℕ → ℕ → List KvEntry → List KvEntry
repropogate first i [] = []
repropogate first i (x ∷ xs) = set_entry_seq ((first + i) % 2 ^ 32) x ∷ repropogate first (i + 1) xs

unfoldable pub set_first_sequence_num : ℕ → WriteBatch → WriteBatch
set_first_sequence_num num b = record { seqnumber = num; entries = repropogate num 0 b.entries }

unfoldable pub last_sequence_num : WriteBatch → ℕ
last_sequence_num b = (b.seqnumber + count b + 2 ^ 32 - 1) % 2 ^ 32

unfoldable pub has_key : Bytes → KvEntry → Bool
has_key key x = bytes_eq x.key.user_key key

-- The elements that `std::remove_if` keeps, in their order.
unfoldable pub kept : Bytes → List KvEntry → List KvEntry
kept key [] = []
kept key (x ∷ xs) = let rest = kept key xs in if has_key key x then rest else x ∷ rest

-- `std::remove_if` moves the kept elements to the front. What stands behind them is, from the
-- first match on, a moved-from object where an element was kept, and the element itself elsewhere.
-- The state of a moved-from object is unspecified: it is the parameter `moved_from`.
module _ (moved_from : KvEntry → KvEntry) where
  unfoldable pub leftovers : Bytes → Bool → List KvEntry → List KvEntry
  leftovers key matched [] = []
  leftovers key matched (x ∷ xs) =
      let now = has_key key x in
      (if now then x else if matched then moved_from x else x)
      ∷ leftovers key (if now then true else matched) xs

  -- The vector's elements from the returned iterator on.
  unfoldable pub stl_style_remove : Bytes → List KvEntry → List KvEntry
  stl_style_remove key xs = drop (length (kept key xs)) (leftovers key false xs)

  abbrev bury : KvEntry → KvEntry
  bury x = record x { value = set_tomb_stone true x.value }

  -- The end of `remove_from_db`: the first element behind the kept ones becomes the tomb stone and
  -- the others are erased, or a new one is appended.
  unfoldable pub entomb : Bytes → WriteBatch → List KvEntry → List KvEntry → List KvEntry
  entomb key b front [] =
      front ++ record { key = record { seq = next_seq b; user_key = key }; value = tomb_stone } ∷ []
  entomb key b front (x ∷ xs) = front ++ bury x ∷ []

  unfoldable pub remove_from_db : Bytes → WriteBatch → WriteBatch
  remove_from_db key b = record b {
    entries = entomb key b (kept key b.entries) (stl_style_remove key b.entries);
  }

module _ ⦃e : BigEndian⦄ where
  -- The loop of `serialize_to`: the buffer after it, and whether every entry was written.
  unfoldable pub serialize_loop : List KvEntry → Bytes → Bool × Bytes
  serialize_loop [] writable = (true, writable)
  serialize_loop (x ∷ xs) writable =
      let (occupied, written) = Entry.serialize_to x writable in
      let (fine, rest) = serialize_loop xs (drop occupied written) in
      if occupied == 0 then (false, written) else (fine, within occupied (λ _. rest) written)

  unfoldable pub serialize_to : WriteBatch → Bytes → ℕ × Bytes
  serialize_to b buffer =
      let result = serialized_size b.entries in
      let (fine, written) = serialize_loop b.entries buffer in
      if ltb (length buffer) result
      then (0, buffer)
      else if fine
      then (result, written)
      else (0, written)
