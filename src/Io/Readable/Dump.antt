-- ===== src/Io/Readable/Dump.antt =====
-- `iouring_readable::dump_to` of io/iouring_readable.cc into a buffered file.
use frenzy_kv.Prelude.{
  ℕ, zero, suc, ◌+◌, ◌-◌, ◌≡◌, ◌≤◌, ◌<◌, refl, ap, sym, ◌∙◌, arith, ◌++◌, true, false, ok, length,
  length-take, length-drop, drop-length-take, drop-drop, take, drop, append_assoc, append-nil,
  drop_all, ◌==◌, Bool-cases, inl, inr, min,
}
use frenzy_kv.Bytes.{Bytes, overwrite}
use frenzy_kv.Io.Buffer
use frenzy_kv.Io.Kernel.{Kernel}
use frenzy_kv.Io.Writable.{Writable, writable_span, write_to_file_span, flush_if_full, commit}
use frenzy_kv.Io.Writable.Content.{
  length-writable_span, contents, flush_if_full-Extended, Appended-Extended, flush_valid_lem,
}
use frenzy_kv.Io.Readable.{open_readable, read_at, dump_loop, dump_to}

module _ ⦃k : Kernel⦄ where
  flush_if_full-room :
      (f : Writable)
      → Buffer.IsValid f.buffer
      → 0 < f.buffer.capacity
      → 0 < (flush_if_full f).buffer.left
  unfolding flush_if_full Buffer.full
  flush_if_full-room f v h = elim (Bool-cases (f.buffer.left == 0)) [
    | inl full ↦
        let fl = flush_valid_lem f v in rw full (omega (arith, fl.all_left, fl.same.capacity))
    | inr room ↦ rw room (ground arith)
  ]

  -- The file that a round of the loop dumps into.
  record Ready (w : Writable) : Type 0 where
    valid : Buffer.IsValid w.buffer
    sized : 0 < w.buffer.capacity
    room : 0 < w.buffer.left

  commit_room :
      (bytes : Bytes) (w : Writable)
      → Ready w
      → length bytes ≤ w.buffer.left
      → (g : Writable) × (commit (length bytes) (write_to_file_span (overwrite bytes) w) ≡ ok g)
        × (contents g ≡ contents w ++ bytes)
        × Ready g
        × (g.need_buffered ≡ w.need_buffered)
  unfolding commit write_to_file_span
  commit_room bytes w r h =
      let (b, e, a) = Buffer.committed bytes w.buffer r.valid h in
      let f = record w { buffer = b; wrote = w.wrote + length bytes } in
      let x = flush_if_full-Extended bytes w f (Appended-Extended bytes w b _ a) in
      (
        flush_if_full f,
        rw e refl,
        x.more_bytes,
        record {
          valid = x.still_valid;
          sized = omega (arith, x.same.capacity, r.sized);
          room = flush_if_full-room f a.still_valid (omega (arith, a.same_capacity, r.sized));
        },
        x.same.buffering,
      )

  -- What is still to be read, split at what a round reads.
  split_rest :
      (n wrote : ℕ) (disk : Bytes)
      → take n (drop wrote disk) ++ drop (wrote + length (take n (drop wrote disk))) disk
        ≡ drop wrote disk
  split_rest n wrote disk =
      ap (λ xs. take n (drop wrote disk) ++ xs)
        (sym (drop-drop (length (take n (drop wrote disk))) wrote disk))
      ∙ drop-length-take n (drop wrote disk)

  -- What a round reads.
  each_read : ℕ → Bytes → Writable → Bytes
  each_read wrote disk w = read_at (length (writable_span w)) wrote (open_readable disk)

  dump_done :
      (fuel wrote : ℕ) (disk : Bytes) (w next : Writable)
      → commit
          (length (each_read wrote disk w))
          (write_to_file_span (overwrite (each_read wrote disk w)) w)
        ≡ ok next
      → (length disk - (wrote + length (each_read wrote disk w)) == 0) ≡ true
      → dump_loop (suc fuel) wrote (open_readable disk) w
        ≡ ok (wrote + length (each_read wrote disk w), next)
  unfolding dump_loop each_read open_readable
  dump_done fuel wrote disk w next e h = rw e (rw h refl)

  dump_more :
      (fuel wrote : ℕ) (disk : Bytes) (w next : Writable)
      → commit
          (length (each_read wrote disk w))
          (write_to_file_span (overwrite (each_read wrote disk w)) w)
        ≡ ok next
      → (length disk - (wrote + length (each_read wrote disk w)) == 0) ≡ false
      → dump_loop (suc fuel) wrote (open_readable disk) w
        ≡ dump_loop fuel (wrote + length (each_read wrote disk w)) (open_readable disk) next
  unfolding dump_loop each_read open_readable
  dump_more fuel wrote disk w next e h = rw e (rw h refl)

  record Round (wrote : ℕ) (disk each : Bytes) (w next : Writable) : Type 0 where
    committed : commit (length each) (write_to_file_span (overwrite each) w) ≡ ok next
    joined : contents next ++ drop (wrote + length each) disk ≡ contents w ++ drop wrote disk
    ready : Ready next
    size : length each ≡ min w.buffer.left (length disk - wrote)

  round_lem :
      (wrote : ℕ) (disk : Bytes) (w : Writable)
      → Ready w
      → (next : Writable) × Round wrote disk (each_read wrote disk w) w next
  unfolding each_read read_at open_readable
  round_lem wrote disk w r =
      let n = length (writable_span w) in
      let each = take n (drop wrote disk) in
      let rest = drop (wrote + length each) disk in
      let size : length each ≡ min w.buffer.left (length disk - wrote) = omega (
        arith,
        length-take n (drop wrote disk),
        length-drop wrote disk,
        length-writable_span w r.valid,
      ) in
      let (next, e, c, r', b) = commit_room each w r (omega arith) in
      (
        next,
        rw (k.delivered n wrote disk) (record {
          committed = e;
          joined =
              ap (λ xs. xs ++ rest) c
              ∙ append_assoc (contents w) each rest
              ∙ ap (λ xs. contents w ++ xs) (split_rest n wrote disk);
          ready = r';
          size = size;
        }),
      )

  dump_loop_lem :
      (fuel wrote : ℕ) (disk : Bytes) (w : Writable)
      → Ready w
      → wrote ≤ length disk
      → length disk - wrote < fuel
      → (g : Writable) × (dump_loop fuel wrote (open_readable disk) w ≡ ok (length disk, g))
        × (contents g ≡ contents w ++ drop wrote disk)
  dump_loop_lem zero wrote disk w r le h = absurd (omega arith)
  dump_loop_lem (suc fuel) wrote disk w r le h =
      let (next, o) = round_lem wrote disk w r in
      let each = each_read wrote disk w in
      elim (Bool-cases (length disk - (wrote + length each) == 0)) [
        | inl done ↦ (
          next,
          dump_done fuel wrote disk w next o.committed done
              ∙ ap (λ m. ok (m, next)) (ground (arith, o.size)),
          sym (append-nil (contents next))
              ∙ ap (λ xs. contents next ++ xs)
                  (sym (drop_all (wrote + length each) disk (ground arith)))
              ∙ o.joined,
        )
        | inr more ↦
            let (g, eg, cg) =
              dump_loop_lem fuel (wrote + length each) disk next o.ready (omega (arith, o.size))
                (ground (arith, o.size, r.room)) in
            (g, dump_more fuel wrote disk w next o.committed more ∙ eg, cg ∙ o.joined)
      ]

  -- A dump of a file into a buffered one that has room in its buffer ends, reports the size of the
  -- file, and appends its bytes.
  pub dump_to-contents :
      (disk : Bytes) (w : Writable)
      → Buffer.IsValid w.buffer
      → 0 < w.buffer.left
      → (g : Writable) × (dump_to (open_readable disk) w ≡ ok (length disk, g))
        × (contents g ≡ contents w ++ disk)
  unfolding dump_to open_readable
  dump_to-contents disk w v h =
      dump_loop_lem (suc (length disk)) 0 disk w
        (record { valid = v; sized = omega (arith, v.bounded); room = h }) (omega arith)
        (omega arith)
