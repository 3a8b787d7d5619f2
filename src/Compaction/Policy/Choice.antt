-- ===== src/Compaction/Policy/Choice.antt =====
-- What the policy of persistent/compaction_policy_oldest.cc takes of a level that needs a compaction.
use frenzy_kv.Prelude.{ℕ, ◌≡◌, ◌<◌, List, Result, ok, All}
use frenzy_kv.Bytes.Endian.{BigEndian}
use frenzy_kv.Kv.Key.{SequencedKey}
use frenzy_kv.Io.Kernel.{Kernel}
use frenzy_kv.Io.Readable.{Readable}
use frenzy_kv.SsTable.{TableDeps}
use frenzy_kv.SsTable.Reader.{SsTable, first_user_key_without_seq, last_user_key_without_seq}
use frenzy_kv.SsTable.Files.{open_table}
use frenzy_kv.Version.{FileRep}

-- The files of a level.
abbrev Of : ℕ → FileRep → Type 0
Of l f = f.level ≡ l

module _ ⦃e : BigEndian⦄ ⦃k : Kernel⦄ (deps : TableDeps) (last_write_time file_size : FileRep → ℕ)
    (readable : FileRep → Readable) where
  -- The table of a file can be opened, and its first and its last key can be read.
  pub record IsOpenable (f : FileRep) : Type 0 where
    pub table : SsTable
    pub first : SequencedKey
    pub last : SequencedKey
    pub opened : open_table readable deps f ≡ ok table
    pub first_key : first_user_key_without_seq table ≡ ok first
    pub last_key : last_user_key_without_seq table ≡ ok last

  -- The files of the next level that are taken.
  record Taken (P : FileRep → Type 0) (r : Result (List FileRep)) : Type 0 where
    pub files : List FileRep
    pub returns : r ≡ ok files
    pub all : All P files

  -- A file whose table has to be opened for a choice from level `from` can be opened.
  abbrev pub Ready : ℕ → FileRep → Type 0
  Ready from f = 1 < from → IsOpenable f
