-- ===== src/Version/Descriptor.antt =====
-- The version descriptor files and the sequence number file of db/version_descriptor.cc, over the
-- files of io/.
use frenzy_kv.Prelude.{
  ℕ, zero, suc, ◌+◌, List, [], ◌∷◌, Bool, true, false, ltb, ◌==◌, if◌then◌else◌, Result, ok, err,
  stuck, ◌>>=◌, ◌>>◌, assert, ◌||◌, length, take, Option, none, some,
}
use frenzy_kv.Bytes.{Bytes}
use frenzy_kv.Io.Kernel.{Kernel}
use frenzy_kv.Io.Writable.{Writable, append, sync, flush, file_size}
use frenzy_kv.Io.Readable.{Readable, read_next}
pub mod RoundTrip
pub mod Number

abbrev pub newline : Bytes
newline = 10 ∷ []

abbrev pub vd_name_length : ℕ
vd_name_length = 52

module _ ⦃k : Kernel⦄ where
  -- The rest of a round that has written its name, as a whole or not.
  unfoldable pub then_newline :
      Bool → Writable → (Writable → Result (Bool × Writable)) → Result (Bool × Writable)
  then_newline false g rest = ok (false, g)
  then_newline true g rest = append newline g >>= λ (one, h). rest h

  -- Whether every name was written as a whole.
  unfoldable pub append_names : List Bytes → Writable → Result (Bool × Writable)
  append_names [] f = ok (true, f)
  append_names (name ∷ names) f =
      append name f >>= λ (wrote, g). then_newline (wrote == length name) g (append_names names)

  -- A file to which not every name was written is not synchronized.
  unfoldable pub append_version_descriptor : List Bytes → Writable → Result (Bool × Writable)
  append_version_descriptor filenames f = do
    (fine, g) ← append_names filenames f
    ok (fine, if fine then sync g else g)

  unfoldable pub write_version_descriptor : List Bytes → Writable → Result (Bool × Writable)
  write_version_descriptor filenames f =
      assert (file_size f == 0) >> append_version_descriptor filenames f

  -- `file` is the one that `get_truncate_seq_writable` gives.
  unfoldable pub set_current_version_file : Bytes → Writable → Result Writable
  set_current_version_file filename file = do (wrote, g) ← append filename file; ok (sync g)

  unfoldable pub current_descriptor_name : Readable → Result (Option Bytes)
  current_descriptor_name file =
      let name = (read_next vd_name_length file).0 in
      assert (length name == vd_name_length || length name == 0)
      >> (if length name == 0 then ok none else ok (some name))

  -- The rest of a round that has read `buffer`, `n` being `sst_name_length()`.
  unfoldable pub read_on : ℕ → Bool → Bytes → Result (List Bytes) → Result (List Bytes)
  read_on n true buffer rest = ok []
  read_on n false buffer rest =
      rest >>= λ names. ok (if ltb (length buffer) n then names else take n buffer ∷ names)

  unfoldable pub read_names : ℕ → ℕ → Readable → Result (List Bytes)
  read_names n zero file = err stuck
  read_names n (suc fuel) file =
      let r = read_next (n + 1) file in read_on n (length r.0 == 0) r.0 (read_names n fuel r.1)

  -- Every round but the last reads a byte at least.
  unfoldable pub read_version_descriptor : ℕ → Readable → Result (List Bytes)
  read_version_descriptor n file = read_names n (suc file.filesize) file

  -- `encode_little_endian` writes the four bytes of a number.
  unfoldable pub write_leatest_sequence_number :
      (ℕ → Bytes) → ℕ → Writable → Result (Bool × Writable)
  write_leatest_sequence_number encode_little_endian seq file = do
    (wrote, g) ← append (encode_little_endian seq) file
    ok (if wrote == 4 then (true, flush g) else (false, g))

  unfoldable pub get_leatest_sequence_number : (Bytes → ℕ) → Readable → ℕ
  get_leatest_sequence_number decode_little_endian file =
      let buffer = (read_next 4 file).0 in
      if length buffer == 4 then decode_little_endian buffer else 0
