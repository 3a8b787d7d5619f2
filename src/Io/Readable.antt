-- ===== src/Io/Readable.antt =====
-- `iouring_readable` of include/frenzykv/io/iouring_readable.h and io/iouring_readable.cc, with the
-- cursor of `seq_readable_context`.
use frenzy_kv.Prelude.{
  ℕ, zero, suc, ◌+◌, ◌-◌, ◌==◌, true, false, Result, ok, err, stuck, ◌>>=◌, length,
}
use frenzy_kv.Bytes.{Bytes, overwrite}
use frenzy_kv.Io.Kernel.{Kernel}
use frenzy_kv.Io.Writable.{Writable, writable_span, write_to_file_span, commit}
pub mod Dump

pub record Readable : Type 0 where
  pub disk : Bytes
  pub filesize : ℕ
  pub cursor : ℕ

unfoldable pub open_readable : Bytes → Readable
open_readable disk = record { disk = disk; filesize = length disk; cursor = 0 }

unfoldable pub reset : Readable → Readable
reset f = record f { cursor = 0 }

module _ ⦃k : Kernel⦄ where
  -- The bytes delivered into a destination of `n` bytes.
  unfoldable pub read_at : ℕ → ℕ → Readable → Bytes
  read_at n offset f = k.read n offset f.disk

  unfoldable pub read_next : ℕ → Readable → Bytes × Readable
  read_next n f =
      let delivered = k.read n f.cursor f.disk in
      (delivered, record f { cursor = f.cursor + length delivered })

  unfoldable pub dump_loop : ℕ → ℕ → Readable → Writable → Result (ℕ × Writable)
  dump_loop zero wrote f w = err stuck
  dump_loop (suc fuel) wrote f w = do
    let each_read = read_at (length (writable_span w)) wrote f
    next ← commit (length each_read) (write_to_file_span (overwrite each_read) w)
    let total = wrote + length each_read
    elim (f.filesize - total == 0) [ true ↦ ok (total, next) | false ↦ dump_loop fuel total f next ]

  -- With a buffer in the target, every round but one of an empty file delivers a byte at least.
  unfoldable pub dump_to : Readable → Writable → Result (ℕ × Writable)
  dump_to f w = dump_loop (suc f.filesize) 0 f w
