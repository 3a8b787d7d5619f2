-- ===== src/Log.antt =====
-- `write_ahead_logger` and `recover` of include/frenzykv/log/write_ahead_logger.h and
-- log/write_ahead_logger.cc, over the files of io/.
use frenzy_kv.Prelude.{
  ℕ, zero, suc, ◌+◌, Bool, true, false, not, ◌||◌, List, [], ◌∷◌, length, ltb, leb, ◌==◌,
  if◌then◌else◌, Result, ok, err, exception, ◌>>=◌, ◌>>◌, assert, throw_unless, take, drop,
}
use frenzy_kv.Bytes.{Bytes, overwrite}
use frenzy_kv.Bytes.Endian.{BigEndian}
use frenzy_kv.Kv.Entry
use frenzy_kv.Kv.Entry.{KvEntry, kv_entries_from_buffer}
use frenzy_kv.WriteBatch.{WriteBatch, write_entry, empty as empty_batch}
use frenzy_kv.Io.Buffer
use frenzy_kv.Io.Buffer.{new_buffer, valid_span, write_to_span}
use frenzy_kv.Io.Kernel.{Kernel}
use frenzy_kv.Io.Readable.{open_readable, read_next}
use frenzy_kv.Io.Writable.{
  Writable, open_writable, writable_span, write_to_file_span, flush, commit, file_size,
}
pub mod Insert
pub mod Recover

pub record Logger : Type 0 where
  pub log_file : Writable

unfoldable pub empty : Logger → Bool
empty l = file_size l.log_file == 0

unfoldable pub max_sequence : ℕ → List KvEntry → ℕ
max_sequence max_seq [] = max_seq
max_sequence max_seq (x ∷ xs) =
    max_sequence (if ltb max_seq x.key.seq then x.key.seq else max_seq) xs

unfoldable pub write_all : List KvEntry → WriteBatch → WriteBatch
write_all [] b = b
write_all (x ∷ xs) b = write_all xs (write_entry x b)

-- `allocate` gives the memory of the buffers; the others are the options of the files.
module _ (allocate : ℕ → Bytes) (need_buffered : Bool) (disk_block_bytes : ℕ) where
  unfoldable pub new_logger : Bytes → Logger
  new_logger disk = record {
    log_file = open_writable allocate need_buffered disk_block_bytes false disk;
  }

  -- The file that was open is closed without a flush, and its name opened with `O_TRUNC`.
  unfoldable pub truncate_file : Logger → Logger
  truncate_file l = record {
    log_file = open_writable allocate need_buffered disk_block_bytes true l.log_file.disk;
  }

module _ ⦃k : Kernel⦄ where
  -- `small` says that there are no statistics, or that the hot data are below the baseline.
  unfoldable pub may_flush_impl : Bool → Bool → Logger → Logger
  may_flush_impl force small l =
      if force || small then record l { log_file = flush l.log_file } else l

  unfoldable pub flush_for : ℕ → Writable → Writable
  flush_for item_size f = if ltb (length (writable_span f)) item_size then flush f else f

  module _ ⦃e : BigEndian⦄ where
    -- What `serialize_to` makes of the writable span, where it writes anything.
    unfoldable pub insert_item : KvEntry → Writable → Result Writable
    insert_item item f =
        let item_size = Entry.serialized_bytes_size item in
        let g = flush_for item_size f in
        throw_unless (not ((Entry.serialize_to item (writable_span g)).0 == 0))
        >> commit item_size (write_to_file_span (λ w. (Entry.serialize_to item w).1) g)

    unfoldable pub insert_items : List KvEntry → Writable → Result Writable
    insert_items [] f = ok f
    insert_items (x ∷ xs) f = do g ← insert_item x f; insert_items xs g

    unfoldable pub insert : Bool → WriteBatch → Logger → Result Logger
    insert small b l = do
      f ← insert_items b.entries l.log_file
      ok (may_flush_impl false small (record l { log_file = f }))

    -- A file that is not there has no bytes.
    unfoldable pub recover : (ℕ → Bytes) → Bytes → Result (WriteBatch × ℕ)
    recover allocate disk = if length disk == 0 then ok (empty_batch, 0) else do
      let filesz = length disk
      let buf = new_buffer allocate filesz
      let readed = (read_next (length (Buffer.writable_span buf)) (open_readable disk)).0
      assert (length readed == filesz)
      full ← Buffer.commit (length readed) (write_to_span (overwrite readed) buf)
      entries ← kv_entries_from_buffer (valid_span full)
      ok (write_all entries empty_batch, max_sequence 0 entries)
