-- ===== src/Log/Recover.antt =====
-- `recover` of log/write_ahead_logger.cc, on what `write_ahead_logger::insert` wrote.
use frenzy_kv.Prelude.{
  ℕ, ◌-◌, ◌≡◌, ◌≤◌, ◌<◌, refl, ap, sym, ◌∙◌, arith, List, [], ◌∷◌, ◌++◌, true, false, ok, length,
  length-append, ==_refl, append_assoc, append-nil, ltb, ◌==◌, if◌then◌else◌, Result, ◌>>=◌, All,
  map, take_all, inl,
}
use frenzy_kv.Bytes.{Bytes}
use frenzy_kv.Bytes.Endian.{BigEndian}
use frenzy_kv.Kv.Entry.{KvEntry, kv_entries_from_buffer}
use frenzy_kv.Kv.RoundTrip.{IsStorable, stored, sizes}
use frenzy_kv.Kv.Wire.{entry_bytes, length-entry_bytes}
use frenzy_kv.Kv.Scan.{entries_bytes, kv_entries_from_buffer-entries_bytes}
use frenzy_kv.WriteBatch.{WriteBatch, write_entry, empty as empty_batch}
use frenzy_kv.Io.Buffer
use frenzy_kv.Io.Buffer.{new_buffer, new_buffer-IsValid, committed, valid_span}
use frenzy_kv.Io.Kernel.{Kernel}
use frenzy_kv.Io.Writable.{open_writable, buffer_size_nbytes}
use frenzy_kv.Io.Writable.Content.{contents}
use frenzy_kv.Io.Readable.{read_next, open_readable}
use frenzy_kv.Log.{Logger, new_logger, insert, recover, write_all, max_sequence}
use frenzy_kv.Log.Insert.{IsLoggable, IsLog, insert_lem}

write_all-entries :
    (xs : List KvEntry) (b : WriteBatch) → write_all xs b ≡ record b { entries = b.entries ++ xs }
unfolding write_all write_entry
write_all-entries [] b = ap (λ ys. record b { entries = ys }) (sym (append-nil b.entries))
write_all-entries (x ∷ xs) b =
    write_all-entries xs (write_entry x b)
    ∙ ap (λ ys. record b { entries = ys }) (append_assoc b.entries (x ∷ []) xs)

-- The recovered sequence number does not depend on the values.
max_sequence-stored :
    (xs : List KvEntry) (m : ℕ) → max_sequence m (map stored xs) ≡ max_sequence m xs
unfolding max_sequence stored
max_sequence-stored [] m = refl
max_sequence-stored (x ∷ xs) m = max_sequence-stored xs (if ltb m x.key.seq then x.key.seq else m)

max_sequence-ge : (xs : List KvEntry) (m : ℕ) → m ≤ max_sequence m xs
unfolding max_sequence
max_sequence-ge [] m = omega arith
max_sequence-ge (x ∷ xs) m = ground (arith, max_sequence-ge xs m, max_sequence-ge xs x.key.seq)

first-le : (x : KvEntry) (xs : List KvEntry) (m : ℕ) → x.key.seq ≤ max_sequence m (x ∷ xs)
unfolding max_sequence
first-le x xs m = ground (arith, max_sequence-ge xs m, max_sequence-ge xs x.key.seq)

-- The sequence number that a list of entries is recovered with is at least the one given and that
-- of every entry.
pub max_sequence-bound :
    (xs : List KvEntry) (m : ℕ)
    → (m ≤ max_sequence m xs) × All (λ x. x.key.seq ≤ max_sequence m xs) xs
unfolding max_sequence
max_sequence-bound [] m = (omega arith, tt)
max_sequence-bound (x ∷ xs) m = (
  max_sequence-ge (x ∷ xs) m,
  (first-le x xs m, (max_sequence-bound xs (if ltb m x.key.seq then x.key.seq else m)).1),
)

new_buffer-span : (allocate : ℕ → Bytes) (n : ℕ) → valid_span (new_buffer allocate n) ≡ []
unfolding valid_span new_buffer Buffer.size
new_buffer-span allocate n = let z : n - n ≡ 0 = omega arith in rw z refl

new_buffer-writable :
    (allocate : ℕ → Bytes) (n : ℕ) → Buffer.writable_span (new_buffer allocate n) ≡ allocate n
unfolding Buffer.writable_span new_buffer Buffer.size
new_buffer-writable allocate n = let z : n - n ≡ 0 = omega arith in rw z refl

-- The entries of some batches.
unfoldable pub logged : List WriteBatch → List KvEntry
logged [] = []
logged (b ∷ bs) = b.entries ++ logged bs

All-split : (P : KvEntry → Type 0) (xs ys : List KvEntry) → All P (xs ++ ys) → All P xs × All P ys
All-split P [] ys h = (tt, h)
All-split P (x ∷ xs) ys (p, h) = let (a, b) = All-split P xs ys h in ((p, a), b)

module _ ⦃k : Kernel⦄ ⦃e : BigEndian⦄ where
  read_whole :
      (allocate : ℕ → Bytes) (disk : Bytes)
      → ((n : ℕ) → length (allocate n) ≡ n)
      → (read_next
          (length (Buffer.writable_span (new_buffer allocate (length disk))))
          (open_readable disk)).0
        ≡ disk
  unfolding read_next open_readable
  read_whole allocate disk allocates =
      k.delivered _ 0 disk
      ∙ take_all _ disk (
          omega (
            arith,
            ap length (new_buffer-writable allocate (length disk)),
            allocates (length disk),
          ))

  -- Recovery is the scan of the whole file.
  recover_scan :
      (allocate : ℕ → Bytes) (disk : Bytes)
      → ((n : ℕ) → length (allocate n) ≡ n)
      → 0 < length disk
      → recover allocate disk ≡ (
          kv_entries_from_buffer disk >>= λ entries.
          ok (write_all entries empty_batch, max_sequence 0 entries))
  unfolding recover
  recover_scan allocate disk allocates h =
      let buf = new_buffer allocate (length disk) in
      let some_bytes : (length disk == 0) ≡ false = ground arith in
      let same : (length disk == length disk) ≡ true = ==_refl (length disk) in
      let (full, c, a) =
        committed disk buf (new_buffer-IsValid allocate (length disk) (allocates (length disk)))
          (unfold new_buffer in omega arith) in
      let whole : valid_span full ≡ disk =
        a.content ∙ ap (λ xs. xs ++ disk) (new_buffer-span allocate (length disk)) in
      rw some_bytes (rw (read_whole allocate disk allocates) (rw same (rw c (rw whole refl))))

  -- Recovering from a log gives its entries, in a batch, and their greatest sequence number.
  pub recover-entries_bytes :
      (allocate : ℕ → Bytes) (xs : List KvEntry)
      → ((n : ℕ) → length (allocate n) ≡ n)
      → All IsStorable xs
      → recover allocate (entries_bytes xs)
        ≡ ok (record { seqnumber = 0; entries = map stored xs }, max_sequence 0 xs)
  recover-entries_bytes allocate [] allocates h = unfold recover entries_bytes max_sequence in refl
  recover-entries_bytes allocate (x ∷ xs) allocates h =
      recover_scan allocate (entries_bytes (x ∷ xs)) allocates (
        unfold entries_bytes in
        omega
          (arith, length-append (entry_bytes x) (entries_bytes xs), length-entry_bytes x, sizes x))
      ∙ rw scanned (
          ap (λ p. ok p)
            (ap (λ b. (b, max_sequence 0 (map stored (x ∷ xs))))
                (write_all-entries (map stored (x ∷ xs)) empty_batch)
              ∙ ap (λ m. (record { seqnumber = 0; entries = map stored (x ∷ xs) }, m))
                  (max_sequence-stored (x ∷ xs) 0)))
    where
      scanned : kv_entries_from_buffer (entries_bytes (x ∷ xs)) ≡ ok (map stored (x ∷ xs))
      scanned =
          ap kv_entries_from_buffer (sym (append-nil (entries_bytes (x ∷ xs))))
          ∙ kv_entries_from_buffer-entries_bytes (x ∷ xs) [] h (inl refl)

  entries_bytes-append :
      (xs ys : List KvEntry) → entries_bytes (xs ++ ys) ≡ entries_bytes xs ++ entries_bytes ys
  unfolding entries_bytes
  entries_bytes-append [] ys = refl
  entries_bytes-append (x ∷ xs) ys =
      ap (λ zs. entry_bytes x ++ zs) (entries_bytes-append xs ys)
      ∙ sym (append_assoc (entry_bytes x) (entries_bytes xs) (entries_bytes ys))

  -- Some batches inserted one after the other, each of them flushed.
  unfoldable pub insert_each : List WriteBatch → Logger → Result Logger
  insert_each [] l = ok l
  insert_each (b ∷ bs) l = do m ← insert true b l; insert_each bs m

  insert_each_lem :
      (bs : List WriteBatch) (l : Logger) (xs : List KvEntry)
      → IsLog l (entries_bytes xs)
      → l.log_file.disk ≡ entries_bytes xs
      → All (IsLoggable l.log_file.buffer.capacity) (logged bs)
      → (m : Logger) × (insert_each bs l ≡ ok m)
        × (m.log_file.disk ≡ entries_bytes (xs ++ logged bs))
  unfolding insert_each logged
  insert_each_lem [] l xs h d fits = (l, refl, d ∙ ap entries_bytes (sym (append-nil xs)))
  insert_each_lem (b ∷ bs) l xs h d fits =
      let (here, there) =
        All-split (IsLoggable l.log_file.buffer.capacity) b.entries (logged bs) fits in
      let (m, e, held, flushed, cap) = insert_lem true b l (entries_bytes xs) h here in
      let same = sym (entries_bytes-append xs b.entries) in
      let (g, eg, dg) =
        insert_each_lem bs m (xs ++ b.entries)
          (record { valid = held.valid; holds = held.holds ∙ same }) (flushed refl ∙ same)
          (rw cap there) in
      (g, rw e eg, dg ∙ ap entries_bytes (append_assoc xs b.entries (logged bs)))

  new_logger-IsLog :
      (allocate : ℕ → Bytes) (n : ℕ)
      → ((m : ℕ) → length (allocate m) ≡ m)
      → IsLog (new_logger allocate true n []) []
        × ((new_logger allocate true n []).log_file.disk ≡ [])
        × ((new_logger allocate true n []).log_file.buffer.capacity ≡ n)
  unfolding new_logger open_writable buffer_size_nbytes contents
  new_logger-IsLog allocate n allocates = (
    record {
      valid = new_buffer-IsValid allocate n (allocates n);
      holds = new_buffer-span allocate n;
    },
    refl,
    unfold new_buffer in refl,
  )

  -- What a logger with a buffer of `n` bytes has logged of some batches, if every entry is storable
  -- and no longer than the buffer, is recovered: the entries of the batches in their order, a value
  -- without bytes as a tomb stone, and the greatest of their sequence numbers.
  pub recover-insert_each :
      (allocate : ℕ → Bytes) (n : ℕ) (bs : List WriteBatch)
      → ((m : ℕ) → length (allocate m) ≡ m)
      → All IsStorable (logged bs)
      → All (IsLoggable n) (logged bs)
      → (l : Logger) × (insert_each bs (new_logger allocate true n []) ≡ ok l)
        × (recover allocate l.log_file.disk
            ≡ ok (
              record { seqnumber = 0; entries = map stored (logged bs) },
              max_sequence 0 (logged bs),
            ))
  recover-insert_each allocate n bs allocates h fits =
      let (log, disk, cap) = new_logger-IsLog allocate n allocates in
      let none_yet : entries_bytes [] ≡ [] = unfold entries_bytes in refl in
      let (l, e, d) =
        insert_each_lem bs (new_logger allocate true n []) [] (rw none_yet log)
          (disk ∙ sym none_yet) (rw cap fits) in
      (l, e, rw d (recover-entries_bytes allocate (logged bs) allocates h))
