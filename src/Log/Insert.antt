-- ===== src/Log/Insert.antt =====
-- `write_ahead_logger::insert` of log/write_ahead_logger.cc.
use frenzy_kv.Prelude.{
  ℕ, Bool, ◌^◌, ◌≡◌, ◌≤◌, ◌<◌, refl, ap, sym, ◌∙◌, arith, List, [], ◌∷◌, ◌++◌, true, false, ok, err,
  exception, length, append_assoc, append-nil, ltb, ◌==◌, Bool-cases, inl, inr, All, take, drop,
}
use native.Mathlib.Nat.{mod-eq_of_lt}
use frenzy_kv.Bytes.{Bytes, overwrite, within}
use frenzy_kv.Bytes.Endian.{BigEndian}
use frenzy_kv.Kv.Entry
use frenzy_kv.Kv.Entry.{KvEntry}
use frenzy_kv.Kv.Wire.{entry_bytes, length-entry_bytes, entry-serialize_to}
use frenzy_kv.Kv.RoundTrip.{sizes}
use frenzy_kv.Kv.Scan.{entries_bytes}
use frenzy_kv.WriteBatch.{WriteBatch}
use frenzy_kv.Io.Buffer
use frenzy_kv.Io.Kernel.{Kernel}
use frenzy_kv.Io.Writable.{Writable, writable_span, write_to_file_span, flush, commit}
use frenzy_kv.Io.Writable.Content.{
  contents, length-writable_span, Same, Extended, flush_valid_lem, commit_lem, flush-disk,
}
use frenzy_kv.Log.{Logger, flush_for, insert_item, insert_items, insert, may_flush_impl}

-- An entry whose length fits its field and the buffer.
abbrev pub IsLoggable : ℕ → KvEntry → Type 0
IsLoggable capacity x =
    (Entry.serialized_bytes_size x < 2 ^ 32) × (Entry.serialized_bytes_size x ≤ capacity)

module _ ⦃k : Kernel⦄ where
  record Roomy (n : ℕ) (f g : Writable) : Type 0 where
    same_bytes : contents g ≡ contents f
    still_valid : Buffer.IsValid g.buffer
    same : Same f g
    room : n ≤ g.buffer.left

  flush_for-Roomy :
      (n : ℕ) (f : Writable)
      → Buffer.IsValid f.buffer
      → n ≤ f.buffer.capacity
      → Roomy n f (flush_for n f)
  unfolding flush_for flush
  flush_for-Roomy n f v h = elim (Bool-cases (ltb (length (writable_span f)) n)) [
    | inl small ↦
        let fl = flush_valid_lem f v in
        rw small (record {
          same_bytes = fl.same_bytes;
          still_valid = fl.still_valid;
          same = fl.same;
          room = omega (arith, fl.all_left, fl.same.capacity);
        })
    | inr large ↦ rw large (record {
      same_bytes = refl;
      still_valid = v;
      same = record { capacity = refl; buffering = refl };
      room = ground (arith, length-writable_span f v);
    })
  ]

  flush_for-left :
      (n : ℕ) (f : Writable)
      → Buffer.IsValid f.buffer
      → (flush_for n f).buffer.left ≤ f.buffer.capacity × Buffer.IsValid (flush_for n f).buffer
  unfolding flush_for flush
  flush_for-left n f v = elim (Bool-cases (ltb (length (writable_span f)) n)) [
    | inl small ↦
        let fl = flush_valid_lem f v in
        rw small (omega (arith, fl.all_left, fl.same.capacity), fl.still_valid)
    | inr large ↦ rw large (v.bounded, v)
  ]

  module _ ⦃e : BigEndian⦄ where
    -- Serializing into the writable span is writing the entry's bytes to its front.
    serialized_span :
        (x : KvEntry) (f : Writable)
        → Buffer.IsValid f.buffer
        → Entry.serialized_bytes_size x < 2 ^ 32
        → Entry.serialized_bytes_size x ≤ f.buffer.left
        → write_to_file_span (λ w. (Entry.serialize_to x w).1) f
          ≡ write_to_file_span (overwrite (entry_bytes x)) f
    unfolding write_to_file_span Buffer.write_to_span within writable_span Buffer.writable_span
    serialized_span x f v small h = ap put (
        ap (λ p. p.1)
          (entry-serialize_to x (drop (Buffer.size f.buffer) f.buffer.storage) small
            (omega (arith, length-writable_span f v))))
      where
        put : Bytes → Writable
        put w = record f {
          buffer = record f.buffer { storage = take (Buffer.size f.buffer) f.buffer.storage ++ w };
        }

    written_size :
        (x : KvEntry) (f : Writable)
        → Buffer.IsValid f.buffer
        → Entry.serialized_bytes_size x < 2 ^ 32
        → Entry.serialized_bytes_size x ≤ f.buffer.left
        → ((Entry.serialize_to x (writable_span f)).0 == 0) ≡ false
    written_size x f v small h =
        let n : (Entry.serialize_to x (writable_span f)).0 ≡ Entry.serialized_bytes_size x =
          ap (λ p. p.0)
            (entry-serialize_to x (writable_span f) small
              (omega (arith, length-writable_span f v))) in
        ground (arith, n, sizes x)

    insert_item_lem :
        (x : KvEntry) (f : Writable)
        → Buffer.IsValid f.buffer
        → IsLoggable f.buffer.capacity x
        → (g : Writable) × (insert_item x f ≡ ok g) × Extended (entry_bytes x) f g
    unfolding insert_item
    insert_item_lem x f v (small, fits) =
        let n = Entry.serialized_bytes_size x in
        let r = flush_for-Roomy n f v fits in
        let (g, e, w) =
          commit_lem (entry_bytes x) (flush_for n f) r.still_valid
            (omega (arith, r.room, length-entry_bytes x)) in
        (
          g,
          rw (written_size x (flush_for n f) r.still_valid small r.room) (
              ap (commit n) (serialized_span x (flush_for n f) r.still_valid small r.room)
              ∙ ap (λ m. commit m (write_to_file_span (overwrite (entry_bytes x)) (flush_for n f)))
                  (sym (length-entry_bytes x))
              ∙ e),
          record {
            more_bytes = w.more_bytes ∙ ap (λ xs. xs ++ entry_bytes x) r.same_bytes;
            still_valid = w.still_valid;
            same = record {
              capacity = w.same.capacity ∙ r.same.capacity;
              buffering = w.same.buffering ∙ r.same.buffering;
            };
          },
        )

    insert_items_lem :
        (xs : List KvEntry) (f : Writable)
        → Buffer.IsValid f.buffer
        → All (IsLoggable f.buffer.capacity) xs
        → (g : Writable) × (insert_items xs f ≡ ok g) × Extended (entries_bytes xs) f g
    unfolding insert_items entries_bytes
    insert_items_lem [] f v h = (
      f,
      refl,
      record {
        more_bytes = sym (append-nil (contents f));
        still_valid = v;
        same = record { capacity = refl; buffering = refl };
      },
    )
    insert_items_lem (x ∷ xs) f v (hx, hxs) =
        let (g, e, w) = insert_item_lem x f v hx in
        let (h, eh, wh) = insert_items_lem xs g w.still_valid (rw w.same.capacity hxs) in
        (
          h,
          rw e eh,
          record {
            more_bytes =
                wh.more_bytes
                ∙ ap (λ ys. ys ++ entries_bytes xs) w.more_bytes
                ∙ append_assoc (contents f) (entry_bytes x) (entries_bytes xs);
            still_valid = wh.still_valid;
            same = record {
              capacity = wh.same.capacity ∙ w.same.capacity;
              buffering = wh.same.buffering ∙ w.same.buffering;
            };
          },
        )

    -- A logger whose buffer is in order, and what it holds.
    pub record IsLog (l : Logger) (bytes : Bytes) : Type 0 where
      pub valid : Buffer.IsValid l.log_file.buffer
      pub holds : contents l.log_file ≡ bytes

    may_flush-IsLog :
        (small : Bool) (l : Logger) (bytes : Bytes)
        → IsLog l bytes
        → IsLog (may_flush_impl false small l) bytes
          × ((may_flush_impl false true l).log_file.disk ≡ bytes)
          × ((may_flush_impl false small l).log_file.buffer.capacity ≡ l.log_file.buffer.capacity)
    unfolding may_flush_impl flush
    may_flush-IsLog false l bytes h = (h, flush-disk l.log_file h.valid ∙ h.holds, refl)
    may_flush-IsLog true l bytes h =
        let fl = flush_valid_lem l.log_file h.valid in
        (
          record { valid = fl.still_valid; holds = fl.same_bytes ∙ h.holds },
          flush-disk l.log_file h.valid ∙ h.holds,
          fl.same.capacity,
        )

    -- Inserting a batch of entries whose lengths fit 32 bits and the buffer succeeds, and puts their
    -- bytes behind what the log held, on the disk too where the logger flushes.
    pub insert_lem :
        (small : Bool) (b : WriteBatch) (l : Logger) (bytes : Bytes)
        → IsLog l bytes
        → All (IsLoggable l.log_file.buffer.capacity) b.entries
        → (m : Logger) × (insert small b l ≡ ok m)
          × IsLog m (bytes ++ entries_bytes b.entries)
          × (small ≡ true → m.log_file.disk ≡ bytes ++ entries_bytes b.entries)
          × (m.log_file.buffer.capacity ≡ l.log_file.buffer.capacity)
    unfolding insert
    insert_lem small b l bytes h hs =
        let (f, e, w) = insert_items_lem b.entries l.log_file h.valid hs in
        let held : IsLog (record l { log_file = f }) (bytes ++ entries_bytes b.entries) = record {
          valid = w.still_valid;
          holds = w.more_bytes ∙ ap (λ xs. xs ++ entries_bytes b.entries) h.holds;
        } in
        let (kept, flushed, cap) = may_flush-IsLog small (record l { log_file = f }) _ held in
        (
          may_flush_impl false small (record l { log_file = f }),
          rw e refl,
          kept,
          λ s. rw s flushed,
          cap ∙ w.same.capacity,
        )

    refused :
        (x : KvEntry) (dst : Bytes)
        → Entry.serialized_bytes_size x < 2 ^ 32
        → length dst < Entry.serialized_bytes_size x
        → ((Entry.serialize_to x dst).0 == 0) ≡ true
    unfolding Entry.serialize_to
    refused x dst short h =
        let small : ltb (length dst) (Entry.serialized_bytes_size x) ≡ true = ground arith in
        rw (mod-eq_of_lt short, small) refl

    -- An entry that the buffer is too short for is refused, flushed or not.
    pub insert-exception :
        (small : Bool) (x : KvEntry) (xs : List KvEntry) (num : ℕ) (l : Logger)
        → Buffer.IsValid l.log_file.buffer
        → Entry.serialized_bytes_size x < 2 ^ 32
        → l.log_file.buffer.capacity < Entry.serialized_bytes_size x
        → insert small (record { seqnumber = num; entries = x ∷ xs }) l ≡ err exception
    unfolding insert insert_items insert_item
    insert-exception small x xs num l v short large =
        let n = Entry.serialized_bytes_size x in
        let (le, g) = flush_for-left n l.log_file v in
        rw
          (refused x (writable_span (flush_for n l.log_file)) short
            (omega (arith, length-writable_span (flush_for n l.log_file) g)))
          refl
