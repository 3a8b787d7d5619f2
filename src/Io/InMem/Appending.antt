-- ===== src/Io/InMem/Appending.antt =====
-- `in_mem_rw::append` of io/in_mem_rw.cc.
use frenzy_kv.Prelude.{
  ℕ, suc, zero, ◌-◌, ◌≡◌, ◌<◌, refl, ap, sym, ◌∙◌, arith, List, [], ◌∷◌, ◌++◌, some, ok, true,
  false, length, length-append, length-take, length-drop, append_assoc, append-nil, min, ◌==◌, take,
  drop, take-append-drop, take_all, Bool-cases, inl, inr,
}
use frenzy_kv.Bytes.{Bytes}
use frenzy_kv.Io.Buffer
use frenzy_kv.Io.Buffer.{
  Buffer, new_buffer, valid_span, append_fits, valid_span-turncate, turncate, new_buffer-IsValid,
}
use frenzy_kv.Io.InMem.{InMemRw, split_last, next_writable_buffer, append_loop, append}
use frenzy_kv.Io.InMem.Content.{
  spans, contents, IsValid, spans-append, AllFull, AllFull-IsFilled, AllFull-snoc, split_last_lem,
}

module _ (allocate : ℕ → Bytes) (allocates : (n : ℕ) → length (allocate n) ≡ n) where
  -- The writable block has room and stands behind full ones.
  pub record Writable (f : InMemRw) (front : List Buffer) (last : Buffer) : Type 0 where
    pub same_bytes : spans front ++ valid_span last ≡ contents f
    pub front_full : AllFull f.block_size front
    pub last_valid : Buffer.IsValid last
    pub last_capacity : last.capacity ≡ f.block_size
    pub room : 0 < last.left

  new_buffer-empty : (n : ℕ) → valid_span (new_buffer allocate n) ≡ []
  unfolding valid_span new_buffer
  new_buffer-empty n = let z : n - n ≡ 0 = omega arith in rw z refl

  spans_snoc : (bs : List Buffer) (c : Buffer) → spans (bs ++ c ∷ []) ≡ spans bs ++ valid_span c
  unfolding spans
  spans_snoc bs c = spans-append bs (c ∷ []) ∙ ap (λ xs. spans bs ++ xs) (append-nil (valid_span c))

  full_step :
      (f : InMemRw) {front : List Buffer} {last : Buffer}
      → split_last f.blocks ≡ some (front, last)
      → (last.left == 0) ≡ true
      → next_writable_buffer allocate f ≡ ok (f.blocks, new_buffer allocate f.block_size)
  unfolding next_writable_buffer
  full_step f s h = ground arith

  room_step :
      (f : InMemRw) {front : List Buffer} {last : Buffer}
      → split_last f.blocks ≡ some (front, last)
      → (last.left == 0) ≡ false
      → next_writable_buffer allocate f ≡ ok (front, last)
  unfolding next_writable_buffer
  room_step f s h = ground arith

  next_writable_lem :
      (f : InMemRw)
      → IsValid f
      → (front : List Buffer) × (last : Buffer) × (next_writable_buffer allocate f
          ≡ ok (front, last))
        × Writable f front last
  next_writable_lem f v =
      let (front, last, s, q, full, vl, el) =
        split_last_lem f.block_size f.blocks v.some_block v.filled in
      elim (Bool-cases (last.left == 0)) [
        | inl none_left ↦ (
          f.blocks,
          new_buffer allocate f.block_size,
          full_step f s none_left,
          record {
            same_bytes =
                rw (new_buffer-empty f.block_size)
                  (append-nil (spans f.blocks) ∙ unfold contents in refl);
            front_full = rw q (AllFull-snoc f.block_size front last full vl el (ground arith));
            last_valid = new_buffer-IsValid allocate f.block_size (allocates f.block_size);
            last_capacity = unfold new_buffer in refl;
            room = unfold new_buffer in v.positive;
          },
        )
        | inr some_left ↦ (
          front,
          last,
          room_step f s some_left,
          record {
            same_bytes = unfold contents in rw q (sym (spans_snoc front last));
            front_full = full;
            last_valid = vl;
            last_capacity = el;
            room = ground arith;
          },
        )
      ]

  -- One round of the loop: what it appends, and the file after it.
  round_lem :
      (buffer : Bytes) (f : InMemRw) (front : List Buffer) (last : Buffer)
      → Writable f front last
      → IsValid f
      → (after : Buffer) × (Buffer.append (take (min last.left (length buffer)) buffer) last
          ≡ ok (true, after))
        × (contents (record f { blocks = front ++ after ∷ [] })
            ≡ contents f ++ take (min last.left (length buffer)) buffer)
        × IsValid (record f { blocks = front ++ after ∷ [] })
  round_lem buffer f front last w v =
      let part = take (min last.left (length buffer)) buffer in
      let (after, e, a) =
        append_fits part last w.last_valid
          (omega (arith, length-take (min last.left (length buffer)) buffer)) in
      (
        after,
        e,
        unfold contents in
            spans_snoc front after
            ∙ ap (λ xs. spans front ++ xs) a.content
            ∙ sym (append_assoc (spans front) (valid_span last) part)
            ∙ ap (λ xs. xs ++ part) (w.same_bytes ∙ unfold contents in refl),
        record {
          some_block = omega (arith, length-append front (after ∷ []));
          filled =
              AllFull-IsFilled f.block_size front after w.front_full a.still_valid
                (a.same_capacity ∙ w.last_capacity);
          positive = v.positive;
        },
      )

  append_loop_lem :
      (fuel : ℕ) (buffer : Bytes) (f : InMemRw)
      → IsValid f
      → length buffer < fuel
      → (g : InMemRw) × (append_loop allocate fuel buffer f ≡ ok g)
        × (contents g ≡ contents f ++ buffer)
        × IsValid g
        × (g.block_size ≡ f.block_size)
        × (g.cursor ≡ f.cursor)
  unfolding append_loop
  append_loop_lem zero buffer f v h = absurd (omega arith)
  append_loop_lem (suc fuel) buffer f v h =
      let (front, last, e, w) = next_writable_lem f v in
      let (after, a, c, v') = round_lem buffer f front last w v in
      let n = min last.left (length buffer) in
      let rest = drop n buffer in
      elim (Bool-cases (length rest == 0)) [
        | inl done ↦ (
          record f { blocks = front ++ after ∷ [] },
          rw (e, a, done) refl,
          c
              ∙ ap (λ xs. contents f ++ xs)
                  (take_all n buffer (ground (arith, length-drop n buffer))),
          v',
          refl,
          refl,
        )
        | inr more ↦
            let (g, eg, cg, vg, bg, kg) =
              append_loop_lem fuel rest (record f { blocks = front ++ after ∷ [] }) v'
                (ground (arith, length-drop n buffer, w.room)) in
            (
              g,
              rw (e, a, more) eg,
              cg
                  ∙ ap (λ xs. xs ++ rest) c
                  ∙ append_assoc (contents f) (take n buffer) rest
                  ∙ ap (λ xs. contents f ++ xs) (take-append-drop n buffer),
              vg,
              bg,
              kg,
            )
      ]

  -- Appending to a file with a positive block size ends, returns the number of the bytes, leaves
  -- the read cursor, and puts the bytes behind those that the file held.
  pub append-contents :
      (buffer : Bytes) (f : InMemRw)
      → IsValid f
      → (g : InMemRw) × (append allocate buffer f ≡ ok (length buffer, g))
        × (contents g ≡ contents f ++ buffer)
        × IsValid g
        × (g.cursor ≡ f.cursor)
  unfolding append
  append-contents buffer f v =
      let (g, e, c, w, b, k) =
        append_loop_lem (suc (suc (length buffer))) buffer f v (omega arith) in
      (g, rw e refl, c, w, k)
