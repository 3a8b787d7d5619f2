-- ===== src/Tests/Files.antt =====
-- Examples of the theorems on buffers, files and the write-ahead log.
use frenzy_kv.Prelude.{
  ◌-◌, ℕ, ◌≡◌, ◌≤◌, refl, [], ◌∷◌, ◌++◌, map, All, arith, ok, err, exception, Result, some, true,
  false, length, take, drop, replicate, length-replicate,
}
use frenzy_kv.Bytes.{Bytes, bytes_eq}
use frenzy_kv.Kv.Entry
use frenzy_kv.Kv.Entry.{KvEntry}
use frenzy_kv.Kv.RoundTrip.{IsStorable, stored}
use frenzy_kv.Io.Buffer
use frenzy_kv.Io.Buffer.{new_buffer, new_buffer-IsValid}
use frenzy_kv.Io.Kernel.{Kernel}
use frenzy_kv.Io.InMem
use frenzy_kv.Io.InMem.{InMemRw, new_in_mem_rw, file_size, read}
use frenzy_kv.Io.InMem.Content.{contents, IsFilled, IsValid}
use frenzy_kv.Io.InMem.Appending.{append-contents}
use frenzy_kv.Io.InMem.Reading.{read-contents}
use frenzy_kv.Io.Writable.{Writable, open_writable, flush, append}
use frenzy_kv.Io.Writable.Content.{flush-append}
use frenzy_kv.Io.Writable.Content as W
use frenzy_kv.Io.Writable.Unbuffered.{append_each, append_unbuffered}
use frenzy_kv.Io.Readable.{open_readable, dump_to}
use frenzy_kv.Io.Readable.Dump.{dump_to-contents}
use frenzy_kv.Version.Descriptor.{write_version_descriptor, read_version_descriptor}
use frenzy_kv.Version.Descriptor.RoundTrip.{read-write_version_descriptor}
use frenzy_kv.FileCenter.{
  FileCenter, sst_prefix, sst_suffix, new_center, get_file, deref, gc, is_sst_name, starts_with,
  ends_with, split, onto_first, part_at, without_stars, level_part,
  retrive_level_and_id_from_sst_name, find, found_or_new, new_rep, ref,
}
use frenzy_kv.FileCenter.Safety.{
  Sees, IsReadable, start, later, gets, collects, releases, get_file-Sees,
}
use frenzy_kv.Log.{Logger, new_logger, insert, recover, max_sequence}
use frenzy_kv.Log.Insert.{IsLoggable, insert-exception}
use frenzy_kv.Log.Recover.{logged, insert_each, max_sequence-bound, recover-insert_each}
use frenzy_kv.Kv.Key
use frenzy_kv.Kv.Value
use frenzy_kv.Tests.Coding.{entry_a-IsStorable, entry_b-IsStorable}
use frenzy_kv.Tests.{big_endian, batch, entry_a}

abbrev pub zeros : ℕ → Bytes
zeros n = replicate n 0

pub length-zeros : (n : ℕ) → length (zeros n) ≡ n
length-zeros n = length-replicate n 0

-- A kernel that writes and reads as documented.
instance abbrev pub kernel : Kernel
kernel = record {
  append_all = λ bytes file. file ++ bytes;
  read = λ n offset file. take n (drop offset file);
  appended = λ bytes file. refl;
  delivered = λ n offset file. refl;
}

-- A file in memory with blocks of four bytes.
abbrev small_file : InMemRw
small_file = record {
  blocks =
      record { storage = 1 ∷ 2 ∷ 3 ∷ 4 ∷ []; capacity = 4; left = 0 }
      ∷ record { storage = 5 ∷ 6 ∷ 0 ∷ 0 ∷ []; capacity = 4; left = 2 }
      ∷ [];
  block_size = 4;
  cursor = 0;
}

small_file-IsValid : IsValid small_file
unfolding IsFilled
small_file-IsValid = record {
  some_block = omega arith;
  filled = (
    record { whole = refl; bounded = omega arith },
    refl,
    refl,
    (record { whole = refl; bounded = omega arith }, refl),
  );
  positive = omega arith;
}

append-contents_example :
    (g : InMemRw) × (InMem.append zeros (7 ∷ 8 ∷ 9 ∷ []) small_file ≡ ok (3, g))
    × (contents g ≡ contents small_file ++ 7 ∷ 8 ∷ 9 ∷ [])
    × IsValid g
    × (g.cursor ≡ 0)
append-contents_example =
    append-contents zeros length-zeros (7 ∷ 8 ∷ 9 ∷ []) small_file small_file-IsValid

read-contents_example : read 3 3 small_file ≡ ok (take 3 (drop 3 (contents small_file)))
unfolding file_size InMem.span_sizes Buffer.size
read-contents_example = read-contents 3 3 small_file small_file-IsValid (omega arith)

-- A buffered file with a buffer of eight bytes, and something on the disk.
abbrev pub eight : Writable
eight = record {
  disk = 9 ∷ [];
  is_open = true;
  need_buffered = true;
  buffer = record { storage = zeros 8; capacity = 8; left = 8 };
  wrote = 0;
}

pub eight-IsValid : Buffer.IsValid eight.buffer
eight-IsValid = record { whole = refl; bounded = omega arith }

flush-append_example :
    (g : Writable) × (append (1 ∷ 2 ∷ []) eight ≡ ok (2, g))
    × (W.contents g ≡ W.contents eight ++ 1 ∷ 2 ∷ [])
    × Buffer.IsValid g.buffer
    × ((flush g).disk ≡ W.contents eight ++ 1 ∷ 2 ∷ [])
flush-append_example = flush-append (1 ∷ 2 ∷ []) eight eight-IsValid refl

append_unbuffered_example :
    let f = open_writable zeros false 8 false (9 ∷ []) in
    (g : Writable) × (append_each ((1 ∷ 2 ∷ []) ∷ (3 ∷ []) ∷ []) f ≡ ok (2 ∷ 1 ∷ [], g))
    × (g.disk ≡ f.disk)
    × ((flush g).disk ≡ 9 ∷ [])
append_unbuffered_example = append_unbuffered zeros ((1 ∷ 2 ∷ []) ∷ (3 ∷ []) ∷ []) (9 ∷ []) 8 false

-- The same file with nothing on the disk.
abbrev pub empty_file : Writable
empty_file = record eight { disk = [] }

-- The second name does not fit into the buffer.
read-write_version_descriptor_example :
    (g : Writable) × (write_version_descriptor
        ((65 ∷ 66 ∷ 67 ∷ []) ∷ (68 ∷ 69 ∷ 70 ∷ []) ∷ [])
        empty_file
      ≡ ok (true, g))
    × (read_version_descriptor 3 (open_readable g.disk)
        ≡ ok ((65 ∷ 66 ∷ 67 ∷ []) ∷ (68 ∷ 69 ∷ 70 ∷ []) ∷ []))
unfolding W.contents Buffer.valid_span
read-write_version_descriptor_example =
    read-write_version_descriptor 3 ((65 ∷ 66 ∷ 67 ∷ []) ∷ (68 ∷ 69 ∷ 70 ∷ []) ∷ []) empty_file
      eight-IsValid refl refl (refl, (refl, tt))

dump_to-contents_example :
    (g : Writable) × (dump_to (open_readable (zeros 20)) eight ≡ ok (20, g))
    × (W.contents g ≡ W.contents eight ++ zeros 20)
dump_to-contents_example = dump_to-contents (zeros 20) eight eight-IsValid (omega arith)

max_sequence-bound_example :
    (5 ≤ max_sequence 5 batch.entries)
    × All (λ x. x.key.seq ≤ max_sequence 5 batch.entries) batch.entries
max_sequence-bound_example = max_sequence-bound batch.entries 5

storable : All IsStorable (logged (batch ∷ []))
unfolding logged
storable = (entry_a-IsStorable, (entry_b-IsStorable, tt))

fitting : All (IsLoggable 64) (logged (batch ∷ []))
unfolding logged Entry.serialized_bytes_size Key.serialized_bytes_size Value.serialized_bytes_size
    Value.size Value.is_tomb_stone
fitting = ((omega arith, omega arith), ((omega arith, omega arith), tt))

recover-insert_each_example :
    (l : Logger) × (insert_each (batch ∷ []) (new_logger zeros true 64 []) ≡ ok l)
    × (recover zeros l.log_file.disk
        ≡ ok (
          record { seqnumber = 0; entries = map stored (logged (batch ∷ [])) },
          max_sequence 0 (logged (batch ∷ [])),
        ))
recover-insert_each_example =
    recover-insert_each zeros 64 (batch ∷ []) length-zeros storable fitting

insert-exception_example :
    insert true (record { seqnumber = 7; entries = entry_a ∷ [] }) (record { log_file = eight })
    ≡ err exception
unfolding Entry.serialized_bytes_size Key.serialized_bytes_size Value.serialized_bytes_size
    Value.size Value.is_tomb_stone
insert-exception_example =
    insert-exception true entry_a [] 7 (record { log_file = eight }) eight-IsValid (omega arith)
      (omega arith)

-- "frzkv#*1#A#.frzkvsst"
abbrev table_name : Bytes
table_name = sst_prefix ++ (42 ∷ 49 ∷ 35 ∷ 65 ∷ []) ++ sst_suffix

-- Reads one digit.
abbrev digit : Bytes → Result ℕ
digit [] = err exception
digit (b ∷ bs) = ok (b - 48)

abbrev any_uuid : Bytes → Result Bytes
any_uuid bytes = ok bytes

table_name-IsReadable : IsReadable digit any_uuid table_name
unfolding retrive_level_and_id_from_sst_name is_sst_name starts_with ends_with bytes_eq split
    onto_first part_at level_part without_stars
table_name-IsReadable = record { named = refl; level_and_id = (1, 65 ∷ []); read = refl }

-- A center after the file was asked for.
abbrev one_file : FileCenter
one_file = ref 0 (new_rep table_name (some (1, 65 ∷ [])) new_center)

asked_for : get_file digit any_uuid table_name new_center ≡ ok (0, one_file)
unfolding get_file found_or_new find retrive_level_and_id_from_sst_name is_sst_name starts_with
    ends_with bytes_eq split onto_first part_at level_part without_stars
asked_for = refl

-- Its guard ended and a collection removed it.
get_file-Sees_example :
    (a : ℕ) × (d : FileCenter) × (get_file digit any_uuid table_name (gc (deref 0 one_file))
      ≡ ok (a, d))
    × Sees 1 table_name a d.reps
get_file-Sees_example =
    get_file-Sees digit any_uuid table_name (gc (deref 0 one_file))
      (later
        (later (later start (gets table_name 0 one_file table_name-IsReadable asked_for))
          (releases 0))
        collects)
      table_name-IsReadable
