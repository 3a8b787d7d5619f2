-- ===== src/Io/Writable/Unbuffered.antt =====
-- What `iouring_writable::append` of io/iouring_writable.cc does without a buffer.
use frenzy_kv.Prelude.{
  ℕ, ◌≡◌, refl, ◌∙◌, ap, List, [], ◌∷◌, Bool, true, false, Result, ok, ◌>>=◌, length, map,
  append-nil, if◌then◌else◌, ◌==◌,
}
use frenzy_kv.Bytes.{Bytes}
use frenzy_kv.Io.Buffer
use frenzy_kv.Io.Buffer.{new_buffer, valid_span}
use frenzy_kv.Io.Kernel.{Kernel}
use frenzy_kv.Io.Writable.{
  Writable, open_writable, buffer_size_nbytes, append, append_buffered, flush, flush_valid,
}

module _ ⦃k : Kernel⦄ where
  -- One append after the other, and what they return.
  unfoldable pub append_each : List Bytes → Writable → Result (List ℕ × Writable)
  append_each [] f = ok ([], f)
  append_each (bytes ∷ rest) f = do
    (wrote, g) ← append bytes f
    (later, h) ← append_each rest g
    ok (wrote ∷ later, h)

  append_lem :
      (bytes : Bytes) (f : Writable)
      → f.need_buffered ≡ false
      → append bytes f
        ≡ ok (length bytes, record f { disk = k.append_all (valid_span f.buffer) f.disk })
  unfolding append
  append_lem bytes f u =
      ap
        (λ b.
          if b
          then append_buffered bytes f
          else ok (length bytes, record f { disk = k.append_all (valid_span f.buffer) f.disk }))
        u

  append_each_lem :
      (all : List Bytes) (f : Writable)
      → f.need_buffered ≡ false
      → valid_span f.buffer ≡ []
      → (g : Writable) × (append_each all f ≡ ok (map length all, g))
        × (g.disk ≡ f.disk)
        × (g.buffer ≡ f.buffer)
  unfolding append_each
  append_each_lem [] f u none_valid = (f, refl, refl, refl)
  append_each_lem (bytes ∷ rest) f u none_valid =
      let f' : Writable = record f { disk = k.append_all (valid_span f.buffer) f.disk } in
      let (g, r, d, b) = append_each_lem rest f' u none_valid in
      (
        g,
        rw (append_lem bytes f u) (rw r refl),
        d ∙ ap (λ sp. k.append_all sp f.disk) none_valid ∙ k.appended [] f.disk ∙ append-nil f.disk,
        b,
      )

  flush_none : (g : Writable) → valid_span g.buffer ≡ [] → (flush g).disk ≡ g.disk
  unfolding flush flush_valid
  flush_none g h =
      let none_valid : (length (valid_span g.buffer) == 0) ≡ true = rw h refl in rw none_valid refl

  new_none : (allocate : ℕ → Bytes) → valid_span (new_buffer allocate 0) ≡ []
  unfolding valid_span new_buffer Buffer.size
  new_none allocate = refl

  -- A file that is opened without a buffer, with `O_TRUNC` or without, answers every one of any
  -- number of appends as if it had written the bytes, and holds after them, and after a flush, what it
  -- held when it was opened.
  pub append_unbuffered :
      (allocate : ℕ → Bytes) (all : List Bytes) (disk : Bytes) (disk_block_bytes : ℕ)
      (o_trunc : Bool)
      → let f = open_writable allocate false disk_block_bytes o_trunc disk in
        (g : Writable) × (append_each all f ≡ ok (map length all, g))
        × (g.disk ≡ f.disk)
        × ((flush g).disk ≡ (if o_trunc then [] else disk))
  unfolding open_writable buffer_size_nbytes
  append_unbuffered allocate all disk disk_block_bytes o_trunc =
      let f = open_writable allocate false disk_block_bytes o_trunc disk in
      let (g, r, d, b) = append_each_lem all f refl (new_none allocate) in
      (g, r, d, flush_none g (ap valid_span b ∙ new_none allocate) ∙ d)
