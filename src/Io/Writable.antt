-- ===== src/Io/Writable.antt =====
-- `iouring_writable` of include/frenzykv/io/iouring_writable.h and io/iouring_writable.cc.
use frenzy_kv.Prelude.{
  ℕ, ◌+◌, Bool, true, false, ◌≡◌, refl, [], length, leb, ◌==◌, if◌then◌else◌, Result, ok, err,
  exception, ◌>>=◌,
}
use frenzy_kv.Bytes.{Bytes}
use frenzy_kv.Io.Buffer
use frenzy_kv.Io.Buffer.{Buffer, new_buffer, valid_span, whole_span, write_to_span, turncate}
use frenzy_kv.Io.Kernel.{Kernel}
pub mod Content
pub mod Unbuffered

-- `disk` is the file of `m_fd`, `need_buffered` the option that `m_opt` gives.
pub record Writable : Type 0 where
  pub disk : Bytes
  pub is_open : Bool
  pub need_buffered : Bool
  pub buffer : Buffer
  pub wrote : ℕ

unfoldable pub buffer_size_nbytes : Bool → ℕ → ℕ
buffer_size_nbytes need_buffered disk_block_bytes = if need_buffered then disk_block_bytes else 0

-- `O_TRUNC` among the flags empties the file.
unfoldable pub open_writable : (ℕ → Bytes) → Bool → ℕ → Bool → Bytes → Writable
open_writable allocate need_buffered disk_block_bytes o_trunc disk = record {
  disk = if o_trunc then [] else disk;
  is_open = true;
  need_buffered = need_buffered;
  buffer = new_buffer allocate (buffer_size_nbytes need_buffered disk_block_bytes);
  wrote = 0;
}

unfoldable pub file_size : Writable → ℕ
file_size f = length f.disk

unfoldable pub writable_span : Writable → Bytes
writable_span f = Buffer.writable_span f.buffer

-- The caller's writes to the writable span.
unfoldable pub write_to_file_span : (Bytes → Bytes) → Writable → Writable
write_to_file_span write f = record f { buffer = write_to_span write f.buffer }

module _ ⦃k : Kernel⦄ where
  unfoldable pub flush_valid : Writable → Writable
  flush_valid f =
      let sp = valid_span f.buffer in
      if length sp == 0
      then f
      else record f { disk = k.append_all sp f.disk; buffer = turncate f.buffer }

  unfoldable pub flush_block : Writable → Writable
  flush_block f = record f {
    disk = k.append_all (whole_span f.buffer) f.disk;
    buffer = turncate f.buffer;
  }

  unfoldable pub flush : Writable → Writable
  flush f = flush_valid f

  -- `fdatasync` does not change the bytes of the file.
  unfoldable pub sync : Writable → Writable
  sync f = flush_valid f

  unfoldable pub close : Writable → Writable
  close f = record (flush f) { is_open = false }

  unfoldable pub flush_if_full : Writable → Writable
  flush_if_full f = if Buffer.full f.buffer then flush_valid f else f

  unfoldable pub commit : ℕ → Writable → Result Writable
  commit len f = do
    b ← Buffer.commit len f.buffer
    ok (flush_if_full (record f { buffer = b; wrote = f.wrote + len }))

  -- The rest of `append` where the bytes did not fit into the buffer.
  unfoldable pub append_flushed : Bytes → Writable → Result (ℕ × Writable)
  append_flushed bytes f =
      if leb f.buffer.left (length bytes)
      then ok (length bytes, record f { disk = k.append_all bytes f.disk })
      else (Buffer.append bytes f.buffer >>= λ (fits, b).
          (if fits
            then ok (length bytes, record f { buffer = b; wrote = f.wrote + length bytes })
            else err exception))

  unfoldable pub append_buffered : Bytes → Writable → Result (ℕ × Writable)
  append_buffered bytes f = do
    (fits, b) ← Buffer.append bytes f.buffer
    if fits
        then ok (length bytes, flush_if_full (record f { buffer = b }))
        else append_flushed bytes (flush_valid f)

  -- Without a buffer, what is written is the valid span of the buffer.
  unfoldable pub append : Bytes → Writable → Result (ℕ × Writable)
  append bytes f =
      if f.need_buffered
      then append_buffered bytes f
      else ok (length bytes, record f { disk = k.append_all (valid_span f.buffer) f.disk })
