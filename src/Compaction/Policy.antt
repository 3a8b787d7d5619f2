-- ===== src/Compaction/Policy.antt =====
-- The choice of the files that a compaction takes: the level bounds of include/frenzykv/options.h and
-- util/options.cc, `need_compaction` of db/db_local.cc, and the policies of
-- persistent/compaction_policy_oldest.cc and persistent/compaction_policy_tombstone.cc.
use frenzy_kv.Prelude.{
  ℕ, zero, suc, ◌+◌, List, [], ◌∷◌, ◌++◌, Bool, true, false, not, ◌||◌, ltb, leb, ◌==◌,
  if◌then◌else◌, Result, ok, err, exception, ◌>>=◌, ◌>>◌, assert, throw_unless, length,
}
use frenzy_kv.Bytes.Endian.{BigEndian}
use frenzy_kv.Io.Kernel.{Kernel}
use frenzy_kv.Io.Readable.{Readable}
use frenzy_kv.SsTable.{TableDeps}
use frenzy_kv.SsTable.Reader.{SsTable, overlapped}
use frenzy_kv.SsTable.Files.{open_table}
use frenzy_kv.Version.{FileRep}
pub mod Choice

pub record Options : Type 0 where
  pub level_file_number : List ℕ
  pub level_file_size : List ℕ
  pub max_level : ℕ

unfoldable pub nth : ℕ → List ℕ → ℕ
nth l [] = 0
nth zero (x ∷ xs) = x
nth (suc l) (x ∷ xs) = nth l xs

unfoldable pub allowed_level_file_number : ℕ → Options → ℕ
allowed_level_file_number l o = nth l o.level_file_number

unfoldable pub allowed_level_file_size : ℕ → Options → ℕ
allowed_level_file_size l o = nth l o.level_file_size

-- `scale n` is `n * thresh_ratio`, rounded down.
unfoldable pub is_appropriate_level_file_number : (ℕ → ℕ) → ℕ → ℕ → Options → Bool
is_appropriate_level_file_number scale l num o =
    let val = scale (allowed_level_file_number l o) in leb num val || val == 0

unfoldable pub is_appropriate_level_file_size : ℕ → ℕ → Options → Bool
is_appropriate_level_file_size l num o =
    let val = allowed_level_file_size l o in leb num val || val == 0

unfoldable pub with_level : ℕ → List FileRep → List FileRep
with_level l [] = []
with_level l (f ∷ fs) = let rest = with_level l fs in if f.level == l then f ∷ rest else rest

-- The name of a file gives its level.
unfoldable pub need_compaction : (ℕ → ℕ) → ℕ → List FileRep → Options → Bool
need_compaction scale l files o =
    not (is_appropriate_level_file_number scale l (length (with_level l files)) o)

-- `std::ranges::sort` by a number.
unfoldable pub insert_by : (FileRep → ℕ) → FileRep → List FileRep → List FileRep
insert_by key f [] = f ∷ []
insert_by key f (g ∷ gs) =
    let rest = insert_by key f gs in if ltb (key g) (key f) then g ∷ rest else f ∷ g ∷ gs

unfoldable pub sort_by : (FileRep → ℕ) → List FileRep → List FileRep
sort_by key [] = []
sort_by key (f ∷ fs) = insert_by key f (sort_by key fs)

unfoldable pub drop_last : List FileRep → List FileRep
drop_last [] = []
drop_last (f ∷ []) = []
drop_last (f ∷ g ∷ gs) = f ∷ drop_last (g ∷ gs)

-- `result.resize(result.size() - 1)`: of an empty vector the new size is too large.
unfoldable pub shrink : List FileRep → Result (List FileRep)
shrink [] = err exception
shrink (f ∷ fs) = ok (drop_last (f ∷ fs))

-- What a file tells: its time of the last write, its size, and what the environment opens for it.
module _ ⦃e : BigEndian⦄ ⦃k : Kernel⦄ (deps : TableDeps) (last_write_time file_size : FileRep → ℕ)
    (readable : FileRep → Readable) where
  unfoldable pub overlapping : SsTable → List FileRep → Result (List FileRep)
  overlapping from_l_sst [] = ok []
  overlapping from_l_sst (g ∷ gs) = do
    next_l_sst ← open_table readable deps g
    meets ← overlapped from_l_sst next_l_sst
    rest ← overlapping from_l_sst gs
    ok (if meets then g ∷ rest else rest)

  unfoldable pub with_next_level : ℕ → List FileRep → List FileRep → Result (List FileRep)
  with_next_level from files [] = ok []
  with_next_level from files (f ∷ fs) =
      if ltb 1 from
      then (do
        from_l_sst ← open_table readable deps f
        more ←
            overlapping from_l_sst
              (sort_by file_size (sort_by last_write_time (with_level (from + 1) files)))
        ok ((f ∷ fs) ++ more))
      else ok (f ∷ fs)

  -- `compaction_policy_oldest::compacting_files`
  unfoldable pub compacting_files : ℕ → List FileRep → Options → Result (List FileRep)
  compacting_files from files o = do
    result ← shrink (sort_by last_write_time (with_level from files))
    if length result == 0
        then ok []
        else (assert (leb 2 (allowed_level_file_number from o))
            >> with_next_level from files result)

-- `compaction_policy_tombstone::compacting_files`
unfoldable pub compacting_files_tombstone : (FileRep → ℕ) → ℕ → List FileRep → List FileRep
compacting_files_tombstone last_write_time from files =
    sort_by last_write_time (with_level from files)
