-- ===== src/Block/Items.antt =====
-- The format of a block segment, as the diagram of include/frenzykv/persistent/block.h draws it, and
-- that `block_segment::parse` reads it.
use frenzy_kv.Prelude.{
  ℕ, zero, suc, ◌+◌, ◌^◌, ◌≤◌, ◌<◌, ◌≡◌, refl, sym, ap, ◌∙◌, List, [], ◌∷◌, ◌++◌, All, arith,
  length, take, drop, length-append, append_assoc, take-append, drop-append, ok, ◌>>=◌, ◌==◌, true,
  false,
}
use frenzy_kv.Bytes.{
  Bytes, read, read-append, advance-append, bytes_eq, eq_of_bytes_eq, bytes_eq_refl,
}
use frenzy_kv.Bytes.Endian.{BigEndian, encode, decode, length-encode, decode-encode, decode_zeros}
use frenzy_kv.Block.Segment.{
  success, read_at, filled_with_zero, consumed_completely, items_loop, parse_end, parse_segment,
}

abbrev pub zeros : Bytes
zeros = 0 ∷ 0 ∷ 0 ∷ 0 ∷ []

-- The offset of a pointer, and where a part of the storage ends.
pub read_at-append :
    (n : ℕ) (pre xs ys : Bytes) → length xs ≡ n → read_at (length pre) n (pre ++ (xs ++ ys)) ≡ ok xs
unfolding read_at
read_at-append n pre xs ys h =
    ground (arith, advance-append (length pre) pre (xs ++ ys) refl, read-append n xs ys h)

abbrev pub IsItem : Bytes → Type 0
IsItem item = (0 < length item) × (length item < 2 ^ 32)

module _ ⦃e : BigEndian⦄ where
  abbrev pub item_bytes : Bytes → Bytes
  item_bytes item = encode 4 (length item) ++ item

  abbrev pub items_bytes : List Bytes → Bytes
  items_bytes [] = []
  items_bytes (i ∷ is) = item_bytes i ++ items_bytes is

  abbrev pub segment_front : Bytes → Bytes
  segment_front prefix = encode 2 (length prefix) ++ prefix

  abbrev pub segment_bytes : Bytes → List Bytes → Bytes
  segment_bytes prefix items = segment_front prefix ++ (items_bytes items ++ zeros)

  pub length-item_bytes : (item : Bytes) → length (item_bytes item) ≡ 4 + length item
  length-item_bytes item =
      omega (arith, length-append (encode 4 (length item)) item, length-encode 4 (length item))

  -- The length of an item is no terminator.
  zero_test : (n : ℕ) → 0 < n → n < 2 ^ 32 → bytes_eq (encode 4 n) zeros ≡ false
  zero_test n pos fits =
      ground
        (arith, eq_of_bytes_eq (encode 4 n) zeros, decode-encode 4 n fits, decode_zeros ⦃e = e⦄)

  -- At the offset of an item the segment is not used up, and at its end it is.
  consumed_item :
      (size : ℕ) (pre item rest : Bytes)
      → IsItem item
      → length pre < size
      → consumed_completely size (length pre) (pre ++ (item_bytes item ++ rest)) ≡ ok false
  unfolding consumed_completely filled_with_zero
  consumed_item size pre item rest (pos, fits) room =
      let len = encode 4 (length item) in
      ground (
        arith,
        append_assoc len item rest,
        read_at-append 4 pre len (item ++ rest) (length-encode 4 _),
        zero_test (length item) pos fits,
      )

  zeros_found :
      (pre rest : Bytes) → filled_with_zero (length pre) (pre ++ (zeros ++ rest)) ≡ ok true
  unfolding filled_with_zero
  zeros_found pre rest = rw (read_at-append 4 pre zeros rest refl) (ap ok (bytes_eq_refl zeros))

  consumed_end :
      (size : ℕ) (pre rest : Bytes)
      → length pre < size
      → consumed_completely size (length pre) (pre ++ (zeros ++ rest)) ≡ ok true
  unfolding consumed_completely
  consumed_end size pre rest room = ground (arith, zeros_found pre rest)

  item_dropped :
      (pre item more : Bytes)
      → take
          (length item)
          (drop (length pre + 4) (pre ++ (encode 4 (length item) ++ (item ++ more))))
        ≡ item
  item_dropped pre item more =
      let len = encode 4 (length item) in
      rw (sym (append_assoc pre len (item ++ more))) (
        rw
          (drop-append (length pre + 4) (pre ++ len) (item ++ more)
            (omega (arith, length-append pre len, length-encode 4 (length item))))
          (take-append (length item) item more refl))

  -- One round of the loop.
  loop_item :
      (fuel size : ℕ) (pre item more : Bytes)
      → IsItem item
      → length pre < size
      → items_loop (suc fuel) size (length pre) (pre ++ (item_bytes item ++ more)) ≡ (
          items_loop fuel size (length pre + 4 + length item) (pre ++ (item_bytes item ++ more))
          >>= λ p. ok (p.0, item ∷ p.1))
  unfolding items_loop
  loop_item fuel size pre item more h room =
      let len = encode 4 (length item) in
      rw (consumed_item size pre item more h room) (
        rw (append_assoc len item more) (
          rw (read_at-append 4 pre len (item ++ more) (length-encode 4 _))
            (rw (decode-encode 4 (length item) h.1) (rw (item_dropped pre item more)))))

  loop_end :
      (fuel size : ℕ) (pre rest : Bytes)
      → length pre < size
      → items_loop (suc fuel) size (length pre) (pre ++ (zeros ++ rest)) ≡ ok (length pre, [])
  unfolding items_loop
  loop_end fuel size pre rest room = rw (consumed_end size pre rest room)

  loop_lem :
      (fuel size : ℕ) (pre : Bytes) (items : List Bytes) (rest : Bytes)
      → All IsItem items
      → length pre + length (items_bytes items) < size
      → length (items_bytes items) < fuel
      → items_loop fuel size (length pre) (pre ++ (items_bytes items ++ (zeros ++ rest)))
        ≡ ok (length pre + length (items_bytes items), items)
  loop_lem zero size pre items rest h room enough = absurd (omega arith)
  loop_lem (suc fuel) size pre [] rest h room enough =
      loop_end fuel size pre rest (omega arith) ∙ ap (λ n. ok (n, [])) (omega arith)
  loop_lem (suc fuel) size pre (i ∷ is) rest (hi, his) room enough =
      let tail = zeros ++ rest in
      let next = pre ++ item_bytes i in
      let grown : length next ≡ length pre + 4 + length i =
        omega (arith, length-append pre (item_bytes i), length-item_bytes i) in
      let split : length (items_bytes (i ∷ is)) ≡ 4 + length i + length (items_bytes is) =
        omega (arith, length-append (item_bytes i) (items_bytes is), length-item_bytes i) in
      let ih = loop_lem fuel size next is rest his (omega arith) (omega arith) in
      rw (append_assoc (item_bytes i) (items_bytes is) tail) (
        loop_item fuel size pre i (items_bytes is ++ tail) hi (omega arith)
        ∙ rw (sym (append_assoc pre (item_bytes i) (items_bytes is ++ tail)), sym grown, ih)
            (ap (λ n. ok (n, i ∷ is)) (omega arith)))

  end_lem :
      (size : ℕ) (pre prefix : Bytes) (items : List Bytes) (rest : Bytes)
      → length pre + 4 ≤ size
      → parse_end size (pre ++ (zeros ++ rest)) prefix (length pre, items)
        ≡ ok (record {
          storage = pre ++ zeros;
          prefix = prefix;
          items = items;
          parse_result = success;
        })
  unfolding parse_end
  end_lem size pre prefix items rest room =
      let whole : take (length pre + 4) (pre ++ (zeros ++ rest)) ≡ pre ++ zeros =
        rw (sym (append_assoc pre zeros rest)) (
          take-append (length pre + 4) (pre ++ zeros) rest
            (omega (arith, length-append pre zeros))) in
      ground (arith, zeros_found pre rest, whole)

  -- The prefix and the length before it.
  head_lem :
      (prefix more : Bytes)
      → length prefix < 2 ^ 16
      → (read 2 (segment_front prefix ++ more) ≡ ok (encode 2 (length prefix)))
        × (read_at 2 (length prefix) (segment_front prefix ++ more) ≡ ok prefix)
        × (decode (encode 2 (length prefix)) ≡ length prefix)
  head_lem prefix more fits =
      let len = encode 2 (length prefix) in
      let at : read_at (length len) (length prefix) (len ++ (prefix ++ more)) ≡ ok prefix =
        read_at-append (length prefix) len prefix more refl in
      (
        rw (append_assoc len prefix more) (read-append 2 len (prefix ++ more) (length-encode 2 _)),
        rw (append_assoc len prefix more) (rw (length-encode 2 (length prefix)) at at),
        decode-encode 2 (length prefix) fits,
      )

  pub length-segment_front : (prefix : Bytes) → length (segment_front prefix) ≡ 2 + length prefix
  length-segment_front prefix =
      omega
        (arith, length-append (encode 2 (length prefix)) prefix, length-encode 2 (length prefix))

  abbrev pub segment_size : Bytes → List Bytes → ℕ
  segment_size prefix items = length (segment_bytes prefix items)

  -- A segment in the documented format is parsed into its prefix and its items and ends behind its
  -- zeros, whatever follows it in the storage and however far the span reaches behind it, if the
  -- prefix and the items are not empty and fit their length fields.
  pub parse_segment-segment_bytes :
      (prefix : Bytes) (items : List Bytes) (rest : Bytes) (size : ℕ)
      → 0 < length prefix
      → length prefix < 2 ^ 16
      → All IsItem items
      → segment_size prefix items ≤ size
      → parse_segment size (segment_bytes prefix items ++ rest)
        ≡ ok (record {
          storage = segment_bytes prefix items;
          prefix = prefix;
          items = items;
          parse_result = success;
        })
  unfolding parse_segment
  parse_segment-segment_bytes prefix items rest size pos fits h room =
      let front = segment_front prefix in
      let its = items_bytes items in
      let more = its ++ (zeros ++ rest) in
      let (r, p, d) = head_lem prefix more fits in
      let nonzero : (length prefix == 0) ≡ false = ground arith in
      let sizes : length front + length its + 4 ≤ size =
        omega (arith, length-append front (its ++ zeros), length-append its zeros) in
      rw (append_assoc front (its ++ zeros) rest, append_assoc its zeros rest)
        (rw r (
          rw d (
            rw nonzero (
              rw p (
                rw (sym (length-segment_front prefix)) (
                  rw (loop_lem (suc size) size front items rest h (omega arith) (omega arith)) (
                    rw (sym (length-append front its), sym (append_assoc front its (zeros ++ rest)))
                      (rw
                        (end_lem size (front ++ its) prefix items rest
                          (omega (arith, length-append front its)))
                        (rw (append_assoc front its zeros))))))))))
