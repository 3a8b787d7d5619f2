-- ===== src/Version/Descriptor/RoundTrip.antt =====
-- A version descriptor of db/version_descriptor.cc is read back.
use frenzy_kv.Prelude.{
  ℕ, zero, suc, ◌+◌, ◌≡◌, ◌≤◌, ◌<◌, refl, ap, sym, ◌∙◌, arith, List, [], ◌∷◌, ◌++◌, true, false,
  ltb, ◌==◌, ==_refl, ok, length, length-append, take, drop, take-append, drop-append, drop-drop,
  append_assoc, append-nil, take_all, All,
}
use frenzy_kv.Bytes.{Bytes}
use frenzy_kv.Io.Buffer
use frenzy_kv.Io.Kernel.{Kernel}
use frenzy_kv.Io.Writable.{Writable, append, sync, file_size, flush, flush_valid}
use frenzy_kv.Io.Writable.Content.{contents, append_buffered_lem, buffered_step, flush-disk}
use frenzy_kv.Io.Readable.{Readable, open_readable, read_next}
use frenzy_kv.Version.Descriptor.{
  newline, then_newline, read_on, append_names, append_version_descriptor, write_version_descriptor,
  read_names, read_version_descriptor,
}

-- The names, each with a newline behind it.
unfoldable pub lines : List Bytes → Bytes
lines [] = []
lines (n ∷ ns) = (n ++ newline) ++ lines ns

length-lines : (names : List Bytes) → length names ≤ length (lines names)
unfolding lines
length-lines [] = omega arith
length-lines (n ∷ ns) =
    omega (arith, length-append (n ++ newline) (lines ns), length-append n newline, length-lines ns)

module _ ⦃k : Kernel⦄ where
  -- A file that appends into a buffer.
  pub record Buffered (f : Writable) : Type 0 where
    pub valid : Buffer.IsValid f.buffer
    pub buffered : f.need_buffered ≡ true

  pub append_lem :
      (bytes : Bytes) (f : Writable)
      → Buffered f
      → (g : Writable) × (append bytes f ≡ ok (length bytes, g))
        × (contents g ≡ contents f ++ bytes)
        × Buffered g
  append_lem bytes f b =
      let (g, e, x) = append_buffered_lem bytes f b.valid in
      (
        g,
        buffered_step bytes f b.buffered ∙ e,
        x.more_bytes,
        record { valid = x.still_valid; buffered = x.same.buffering ∙ b.buffered },
      )

  append_names_lem :
      (names : List Bytes) (f : Writable)
      → Buffered f
      → (g : Writable) × (append_names names f ≡ ok (true, g))
        × (contents g ≡ contents f ++ lines names)
        × Buffered g
  unfolding append_names then_newline lines
  append_names_lem [] f b = (f, refl, sym (append-nil (contents f)), b)
  append_names_lem (n ∷ ns) f b =
      let (g, e, c, b') = append_lem n f b in
      let (h, eh, ch, bh) = append_lem newline g b' in
      let (i, ei, ci, bi) = append_names_lem ns h bh in
      (
        i,
        rw e (rw (==_refl (length n)) (rw eh ei)),
        ci
            ∙ ap (λ xs. xs ++ lines ns)
                (ch ∙ ap (λ xs. xs ++ newline) c ∙ append_assoc (contents f) n newline)
            ∙ append_assoc (contents f) (n ++ newline) (lines ns),
        bi,
      )

  at_cursor : ℕ → Bytes → Readable
  at_cursor c disk = record (open_readable disk) { cursor = c }

  read_step :
      (n c : ℕ) (disk buffer : Bytes)
      → take n (drop c disk) ≡ buffer
      → read_next n (at_cursor c disk) ≡ (buffer, at_cursor (c + length buffer) disk)
  unfolding read_next at_cursor open_readable
  read_step n c disk buffer h =
      ap (λ xs. (xs, record { disk = disk; filesize = length disk; cursor = c + length xs }))
        (k.delivered n c disk ∙ h)

  read_names_lem :
      (n fuel c : ℕ) (names : List Bytes) (disk : Bytes)
      → All (λ name. length name ≡ n) names
      → drop c disk ≡ lines names
      → length names < fuel
      → read_names n fuel (at_cursor c disk) ≡ ok names
  unfolding read_names read_on lines
  read_names_lem n zero c names disk h d lt = absurd (omega arith)
  read_names_lem n (suc fuel) c [] disk h d lt =
      rw (read_step (n + 1) c disk [] (ap (take (n + 1)) d ∙ take_all (n + 1) [] (omega arith)))
        refl
  read_names_lem n (suc fuel) c (name ∷ names) disk (hn, h) d lt =
      let line = name ++ newline in
      let size : length line ≡ n + 1 = omega (arith, length-append name newline) in
      let here : take (n + 1) (drop c disk) ≡ line =
        ap (take (n + 1)) d ∙ take-append (n + 1) line (lines names) size in
      let behind : drop (c + length line) disk ≡ lines names =
        sym (drop-drop (length line) c disk)
        ∙ ap (drop (length line)) d
        ∙ drop-append (length line) line (lines names) refl in
      let some_read : (length line == 0) ≡ false = ground arith in
      let whole : ltb (length line) n ≡ false = ground arith in
      rw (read_step (n + 1) c disk line here) (
        rw some_read (
          rw (read_names_lem n fuel (c + length line) names disk h behind (omega arith))
            (rw whole (ap (λ xs. ok (xs ∷ names)) (take-append n name newline hn)))))

  -- What `write_version_descriptor` writes of some names of `n` bytes into an empty file, through a
  -- buffer, is read back by `read_version_descriptor` as those names, in order.
  pub read-write_version_descriptor :
      (n : ℕ) (names : List Bytes) (f : Writable)
      → Buffer.IsValid f.buffer
      → f.need_buffered ≡ true
      → contents f ≡ []
      → All (λ name. length name ≡ n) names
      → (g : Writable) × (write_version_descriptor names f ≡ ok (true, g))
        × (read_version_descriptor n (open_readable g.disk) ≡ ok names)
  unfolding write_version_descriptor append_version_descriptor read_version_descriptor flush_valid
      flush
  read-write_version_descriptor n names f v b empty h =
      let (g, e, c, bg) = append_names_lem names f (record { valid = v; buffered = b }) in
      let on_disk : (sync g).disk ≡ lines names =
        unfold sync in flush-disk g bg.valid ∙ c ∙ ap (λ xs. xs ++ lines names) empty in
      let no_file : file_size f ≡ 0 =
        unfold file_size contents in
        omega (arith, ap length empty, length-append f.disk (Buffer.valid_span f.buffer)) in
      let back : read_names n (suc (length (lines names))) (open_readable (lines names))
          ≡ ok names =
        unfold at_cursor open_readable in
        read_names_lem n (suc (length (lines names))) 0 names (lines names) h refl
          (omega (arith, length-lines names)) in
      (sync g, rw no_file (rw e refl), rw on_disk (unfold open_readable in back))
