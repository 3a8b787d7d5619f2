-- ===== src/SsTable/Files.antt =====
-- The table of a file: `file_rep::open_read` of util/file_rep.cc, the `sstable::make` that its callers
-- give the file to, and `table_cache::finsert` of table/table_cache.cc.
use frenzy_kv.Prelude.{◌==◌, not, Result, ok, ◌>>=◌, ◌>>◌, assert}
use frenzy_kv.Bytes.Endian.{BigEndian}
use frenzy_kv.Io.Kernel.{Kernel}
use frenzy_kv.Io.Readable.{Readable}
use frenzy_kv.SsTable.{TableDeps}
use frenzy_kv.SsTable.Reader.{SsTable, make}
use frenzy_kv.Version.{FileRep}

-- `readable f` is what the environment opens for the name of the file.
module _ (readable : FileRep → Readable) where
  unfoldable pub open_read : FileRep → Result Readable
  open_read f = assert (not ((readable f).filesize == 0)) >> ok (readable f)

  unfoldable pub open_table : ⦃e : BigEndian⦄ → ⦃k : Kernel⦄ → TableDeps → FileRep → Result SsTable
  open_table deps f = do file ← open_read f; make deps file

  -- A file does not change, so that a table that the cache holds is the one that is made again. The
  -- copy of the file in memory is read as the file is.
  unfoldable pub finsert : ⦃e : BigEndian⦄ → ⦃k : Kernel⦄ → TableDeps → FileRep → Result SsTable
  finsert deps f = open_table deps f
