-- ===== src/Io/Writable/Content.antt =====
-- The bytes that an `iouring_writable` of io/iouring_writable.cc holds, on the disk and behind it
-- in the buffer.
use frenzy_kv.Prelude.{
  ℕ, ◌+◌, ◌-◌, ◌≡◌, ◌≤◌, refl, ap, sym, ◌∙◌, arith, [], ◌++◌, true, false, ok, length, leb,
  append_assoc, append-nil, length-drop, nil_of_length, ◌==◌, Bool-cases, inl, inr,
}
use native.Mathlib.Decide.{dec_le}
use frenzy_kv.Bytes.{Bytes, overwrite}
use frenzy_kv.Io.Buffer
use frenzy_kv.Io.Buffer.{
  Buffer, valid_span, turncate, write_to_span, append_fits, append_refused, committed,
  turncate-IsValid, valid_span-turncate, length-valid_span, Appended,
}
use frenzy_kv.Io.Kernel.{Kernel}
use frenzy_kv.Io.Writable.{
  Writable, flush_valid, flush, flush_if_full, commit, append_flushed, append_buffered, append,
  write_to_file_span, writable_span,
}

unfoldable pub contents : Writable → Bytes
contents f = f.disk ++ valid_span f.buffer

pub length-writable_span :
    (w : Writable) → Buffer.IsValid w.buffer → length (writable_span w) ≡ w.buffer.left
unfolding writable_span Buffer.writable_span Buffer.size
length-writable_span w v =
    omega
      (arith, v.whole, v.bounded, length-drop (w.buffer.capacity - w.buffer.left) w.buffer.storage)

-- What the operations leave as it is.
pub record Same (f g : Writable) : Type 0 where
  pub capacity : g.buffer.capacity ≡ f.buffer.capacity
  pub buffering : g.need_buffered ≡ f.need_buffered

module _ ⦃k : Kernel⦄ where
  -- A flush keeps the bytes and empties the buffer.
  pub record Flushed (f g : Writable) : Type 0 where
    pub same_bytes : contents g ≡ contents f
    pub still_valid : Buffer.IsValid g.buffer
    pub nothing_left : valid_span g.buffer ≡ []
    pub all_left : g.buffer.left ≡ g.buffer.capacity
    pub same : Same f g

  flush_step :
      (f : Writable)
      → (length (valid_span f.buffer) == 0) ≡ false
      → flush_valid f
        ≡ record f { disk = k.append_all (valid_span f.buffer) f.disk; buffer = turncate f.buffer }
  unfolding flush_valid
  flush_step f h = rw h refl

  skip_step : (f : Writable) → (length (valid_span f.buffer) == 0) ≡ true → flush_valid f ≡ f
  unfolding flush_valid
  skip_step f h = rw h refl

  pub flush_valid_lem : (f : Writable) → Buffer.IsValid f.buffer → Flushed f (flush_valid f)
  unfolding Buffer.size
  flush_valid_lem f v = elim (Bool-cases (length (valid_span f.buffer) == 0)) [
    | inl empty ↦ rw (skip_step f empty) (record {
      same_bytes = refl;
      still_valid = v;
      nothing_left = nil_of_length (valid_span f.buffer) (ground arith);
      all_left = ground (arith, v.bounded, length-valid_span f.buffer v);
      same = record { capacity = refl; buffering = refl };
    })
    | inr some_left ↦ rw (flush_step f some_left) (record {
      same_bytes =
          unfold contents in
          rw (valid_span-turncate f.buffer, k.appended (valid_span f.buffer) f.disk)
            (append-nil (f.disk ++ valid_span f.buffer));
      still_valid = turncate-IsValid f.buffer v;
      nothing_left = valid_span-turncate f.buffer;
      all_left = unfold turncate in refl;
      same = record { capacity = unfold turncate in refl; buffering = refl };
    })
  ]

  -- After a flush all the bytes are on the disk.
  pub flush-disk : (f : Writable) → Buffer.IsValid f.buffer → (flush f).disk ≡ contents f
  unfolding flush
  flush-disk f v =
      let fl = flush_valid_lem f v in
      sym (append-nil (flush_valid f).disk)
      ∙ ap (λ xs. (flush_valid f).disk ++ xs) (sym fl.nothing_left)
      ∙ unfold contents in fl.same_bytes

  -- The file after `bytes` have been appended.
  pub record Extended (bytes : Bytes) (f g : Writable) : Type 0 where
    pub more_bytes : contents g ≡ contents f ++ bytes
    pub still_valid : Buffer.IsValid g.buffer
    pub same : Same f g

  pub flush_if_full-Extended :
      (bytes : Bytes) (f g : Writable) → Extended bytes f g → Extended bytes f (flush_if_full g)
  unfolding flush_if_full
  flush_if_full-Extended bytes f g x = elim (Bool-cases (Buffer.full g.buffer)) [
    | inl full ↦
        let fl = flush_valid_lem g x.still_valid in
        rw full (record {
          more_bytes = fl.same_bytes ∙ x.more_bytes;
          still_valid = fl.still_valid;
          same = record {
            capacity = fl.same.capacity ∙ x.same.capacity;
            buffering = fl.same.buffering ∙ x.same.buffering;
          };
        })
    | inr room ↦ rw room x
  ]

  pub Appended-Extended :
      (bytes : Bytes) (f : Writable) (b : Buffer) (n : ℕ)
      → Appended bytes f.buffer b
      → Extended bytes f (record f { buffer = b; wrote = n })
  unfolding contents
  Appended-Extended bytes f b n a = record {
    more_bytes =
        ap (λ xs. f.disk ++ xs) a.content ∙ sym (append_assoc f.disk (valid_span f.buffer) bytes);
    still_valid = a.still_valid;
    same = record { capacity = a.same_capacity; buffering = refl };
  }

  -- Committing what was written into the writable span appends it.
  pub commit_lem :
      (bytes : Bytes) (f : Writable)
      → Buffer.IsValid f.buffer
      → length bytes ≤ f.buffer.left
      → (g : Writable) × (commit (length bytes) (write_to_file_span (overwrite bytes) f) ≡ ok g)
        × Extended bytes f g
  unfolding commit write_to_file_span
  commit_lem bytes f v h =
      let (b, e, a) = committed bytes f.buffer v h in
      (
        flush_if_full (record f { buffer = b; wrote = f.wrote + length bytes }),
        rw e refl,
        flush_if_full-Extended bytes f _ (Appended-Extended bytes f b _ a),
      )

  written_through :
      (bytes : Bytes) (f : Writable)
      → (leb f.buffer.left (length bytes)) ≡ true
      → append_flushed bytes f ≡ ok (length bytes, record f { disk = k.append_all bytes f.disk })
  unfolding append_flushed
  written_through bytes f h = rw h refl

  append_flushed_lem :
      (bytes : Bytes) (f : Writable)
      → Buffer.IsValid f.buffer
      → valid_span f.buffer ≡ []
      → (g : Writable) × (append_flushed bytes f ≡ ok (length bytes, g)) × Extended bytes f g
  append_flushed_lem bytes f v e = elim (Bool-cases (leb f.buffer.left (length bytes))) [
    | inl large ↦ (
      record f { disk = k.append_all bytes f.disk },
      written_through bytes f large,
      record {
        more_bytes =
            unfold contents in
            rw (e, k.appended bytes f.disk)
              (append-nil (f.disk ++ bytes) ∙ ap (λ xs. xs ++ bytes) (sym (append-nil f.disk)));
        still_valid = v;
        same = record { capacity = refl; buffering = refl };
      },
    )
    | inr small ↦
        let (b, eb, a) = append_fits bytes f.buffer v (ground arith) in
        (
          record f { buffer = b; wrote = f.wrote + length bytes },
          unfold append_flushed in rw (small, eb) refl,
          Appended-Extended bytes f b _ a,
        )
  ]

  pub append_buffered_lem :
      (bytes : Bytes) (f : Writable)
      → Buffer.IsValid f.buffer
      → (g : Writable) × (append_buffered bytes f ≡ ok (length bytes, g)) × Extended bytes f g
  unfolding append_buffered
  append_buffered_lem bytes f v = elim (dec_le (length bytes) f.buffer.left) [
    | yes fits ↦
        let (b, e, a) = append_fits bytes f.buffer v fits in
        (
          flush_if_full (record f { buffer = b }),
          rw e refl,
          flush_if_full-Extended bytes f _ (Appended-Extended bytes f b f.wrote a),
        )
    | no large ↦
        let fl = flush_valid_lem f v in
        let (g, e, x) = append_flushed_lem bytes (flush_valid f) fl.still_valid fl.nothing_left in
        (
          g,
          rw (append_refused bytes f.buffer (omega arith)) e,
          record {
            more_bytes = x.more_bytes ∙ ap (λ xs. xs ++ bytes) fl.same_bytes;
            still_valid = x.still_valid;
            same = record {
              capacity = x.same.capacity ∙ fl.same.capacity;
              buffering = x.same.buffering ∙ fl.same.buffering;
            };
          },
        )
  ]

  pub buffered_step :
      (bytes : Bytes) (f : Writable)
      → f.need_buffered ≡ true
      → append bytes f ≡ append_buffered bytes f
  unfolding append
  buffered_step bytes f h = ground arith

  -- A buffered file appends the bytes behind those that it holds, on every path: into the buffer,
  -- into the buffer after a flush, or straight to the disk. It returns their number.
  pub flush-append :
      (bytes : Bytes) (f : Writable)
      → Buffer.IsValid f.buffer
      → f.need_buffered ≡ true
      → (g : Writable) × (append bytes f ≡ ok (length bytes, g))
        × (contents g ≡ contents f ++ bytes)
        × Buffer.IsValid g.buffer
        × ((flush g).disk ≡ contents f ++ bytes)
  flush-append bytes f v n =
      let (g, e, x) = append_buffered_lem bytes f v in
      (
        g,
        buffered_step bytes f n ∙ e,
        x.more_bytes,
        x.still_valid,
        flush-disk g x.still_valid ∙ x.more_bytes,
      )
