-- ===== src/Block/Layout.antt =====
-- The data area of a block, as the diagram of include/frenzykv/persistent/block.h draws it: segments
-- one behind the other, and the offsets of some of them, the special segments.
use frenzy_kv.Prelude.{
  ℕ, zero, suc, ◌+◌, ◌-◌, ◌^◌, ◌≤◌, ◌<◌, ◌≡◌, refl, sym, ap, ◌∙◌, List, [], ◌∷◌, ◌++◌, All, All-map,
  map, arith, length, length-append, append_assoc, ok, ◌>>=◌,
}
use frenzy_kv.Bytes.{Bytes, advance-append}
use frenzy_kv.Bytes.Endian.{BigEndian, encode, length-encode}
use frenzy_kv.Block.Segment.{Segment, success}
use frenzy_kv.Block.Reader.{segment_at, segments_loop, interval_loop}
use frenzy_kv.Block.Items.{
  IsItem, items_bytes, segment_front, segment_bytes, zeros, parse_segment-segment_bytes,
}

-- A segment as its public prefix and its items.
abbrev pub Parts : Type 0
Parts = Bytes × List Bytes

abbrev pub IsParts : Parts → Type 0
IsParts (prefix, items) = (0 < length prefix) × (length prefix < 2 ^ 16) × All IsItem items

module _ ⦃e : BigEndian⦄ where
  abbrev pub part_bytes : Parts → Bytes
  part_bytes (prefix, items) = segment_bytes prefix items

  abbrev pub parts_bytes : List Parts → Bytes
  parts_bytes [] = []
  parts_bytes (s ∷ ss) = part_bytes s ++ parts_bytes ss

  -- What the parser gives of a segment.
  abbrev pub segment_of : Parts → Segment
  segment_of (prefix, items) = record {
    storage = segment_bytes prefix items;
    prefix = prefix;
    items = items;
    parse_result = success;
  }

  pub length-part_bytes : (s : Parts) → 6 ≤ length (part_bytes s)
  length-part_bytes (prefix, items) = omega (
    arith,
    length-append (segment_front prefix) (items_bytes items ++ zeros),
    length-append (items_bytes items) zeros,
    length-append (encode 2 (length prefix)) prefix,
    length-encode 2 (length prefix),
  )

  pub parts_bytes-append :
      (ss ts : List Parts) → parts_bytes (ss ++ ts) ≡ parts_bytes ss ++ parts_bytes ts
  parts_bytes-append [] ts = refl
  parts_bytes-append (s ∷ ss) ts =
      ap (λ b. part_bytes s ++ b) (parts_bytes-append ss ts)
      ∙ sym (append_assoc (part_bytes s) (parts_bytes ss) (parts_bytes ts))

  pub length-parts : (ss : List Parts) → length ss ≤ length (parts_bytes ss)
  length-parts [] = omega arith
  length-parts (s ∷ ss) =
      omega
        (arith, length-append (part_bytes s) (parts_bytes ss), length-part_bytes s, length-parts ss)

  -- The segment behind some bytes.
  pub segment_at-part_bytes :
      (pre : Bytes) (s : Parts) (rest : Bytes) (sentinal : ℕ)
      → IsParts s
      → length pre + length (part_bytes s) ≤ sentinal
      → segment_at (length pre) sentinal (pre ++ (part_bytes s ++ rest)) ≡ ok (segment_of s)
  unfolding segment_at
  segment_at-part_bytes pre (prefix, items) rest sentinal (pos, fits, its) room =
      rw (advance-append (length pre) pre (segment_bytes prefix items ++ rest) refl) (
        parse_segment-segment_bytes prefix items rest (sentinal - length pre) pos fits its
          (omega arith))

  segments_loop_step :
      (fuel current sentinal : ℕ) (s : Bytes) (parts : Parts)
      → current < sentinal
      → segment_at current sentinal s ≡ ok (segment_of parts)
      → segments_loop (suc fuel) current sentinal s ≡ (
          segments_loop fuel (current + length (part_bytes parts)) sentinal s >>= λ rest.
          ok (segment_of parts ∷ rest))
  unfolding segments_loop
  segments_loop_step fuel current sentinal s parts lt found = ground (arith, found)

  segments_loop_end :
      (fuel current sentinal : ℕ) (s : Bytes)
      → sentinal ≤ current
      → segments_loop (suc fuel) current sentinal s ≡ ok []
  unfolding segments_loop
  segments_loop_end fuel current sentinal s le = ground arith

  pub segments_loop-parts_bytes :
      (fuel : ℕ) (pre : Bytes) (ss : List Parts) (rest : Bytes)
      → All IsParts ss
      → length ss < fuel
      → segments_loop fuel
          (length pre)
          (length pre + length (parts_bytes ss))
          (pre ++ (parts_bytes ss ++ rest))
        ≡ ok (map segment_of ss)
  segments_loop-parts_bytes zero pre ss rest h lt = absurd (omega arith)
  segments_loop-parts_bytes (suc fuel) pre [] rest h lt =
      segments_loop_end fuel (length pre) (length pre + 0) (pre ++ rest) (omega arith)
  segments_loop-parts_bytes (suc fuel) pre (s ∷ ss) rest (h, hs) lt =
      let front = part_bytes s in
      let behind = parts_bytes ss in
      let size : length (front ++ behind) ≡ length front + length behind =
        length-append front behind in
      let flat : pre ++ ((front ++ behind) ++ rest) ≡ pre ++ (front ++ (behind ++ rest)) =
        ap (λ b. pre ++ b) (append_assoc front behind rest) in
      let first : segment_at (length pre) (length pre + length (front ++ behind))
            (pre ++ (front ++ (behind ++ rest)))
          ≡ ok (segment_of s) =
        segment_at-part_bytes pre s (behind ++ rest) _ h (omega (arith, size)) in
      let n : length pre + length (front ++ behind) ≡ length (pre ++ front) + length behind =
        omega (arith, size, length-append pre front) in
      let later : segments_loop fuel (length pre + length front)
            (length pre + length (front ++ behind)) (pre ++ (front ++ (behind ++ rest)))
          ≡ ok (map segment_of ss) =
        rw (n, sym (length-append pre front), sym (append_assoc pre front (behind ++ rest)))
          (segments_loop-parts_bytes fuel (pre ++ front) ss rest hs (omega arith)) in
      ap (λ b. segments_loop (suc fuel) (length pre) (length pre + length (front ++ behind)) b) flat
      ∙ segments_loop_step fuel (length pre) (length pre + length (front ++ behind))
          (pre ++ (front ++ (behind ++ rest))) s (omega (arith, size, length-part_bytes s)) first
      ∙ ap (λ r. r >>= λ rest. ok (segment_of s ∷ rest)) later

  interval_loop_step :
      (fuel current sentinal : ℕ) (s : Bytes) (parts : Parts)
      → current < sentinal
      → segment_at current sentinal s ≡ ok (segment_of parts)
      → interval_loop (suc fuel) current sentinal s ≡ (
          interval_loop fuel (current + length (part_bytes parts)) sentinal s >>= λ rest.
          ok (segment_of parts ∷ rest))
  unfolding interval_loop
  interval_loop_step fuel current sentinal s parts lt found = ground (arith, found)

  -- The same for a single interval.
  pub interval_loop-parts_bytes :
      (fuel : ℕ) (pre : Bytes) (ss : List Parts) (rest : Bytes)
      → All IsParts ss
      → length ss < fuel
      → interval_loop fuel
          (length pre)
          (length pre + length (parts_bytes ss))
          (pre ++ (parts_bytes ss ++ rest))
        ≡ ok (map segment_of ss)
  interval_loop-parts_bytes zero pre ss rest h lt = absurd (omega arith)
  interval_loop-parts_bytes (suc fuel) pre [] rest h lt = unfold interval_loop in ground arith
  interval_loop-parts_bytes (suc fuel) pre (s ∷ ss) rest (h, hs) lt =
      let front = part_bytes s in
      let behind = parts_bytes ss in
      let size : length (front ++ behind) ≡ length front + length behind =
        length-append front behind in
      let flat : pre ++ ((front ++ behind) ++ rest) ≡ pre ++ (front ++ (behind ++ rest)) =
        ap (λ b. pre ++ b) (append_assoc front behind rest) in
      let first : segment_at (length pre) (length pre + length (front ++ behind))
            (pre ++ (front ++ (behind ++ rest)))
          ≡ ok (segment_of s) =
        segment_at-part_bytes pre s (behind ++ rest) _ h (omega (arith, size)) in
      let n : length pre + length (front ++ behind) ≡ length (pre ++ front) + length behind =
        omega (arith, size, length-append pre front) in
      let later : interval_loop fuel (length pre + length front)
            (length pre + length (front ++ behind)) (pre ++ (front ++ (behind ++ rest)))
          ≡ ok (map segment_of ss) =
        rw (n, sym (length-append pre front), sym (append_assoc pre front (behind ++ rest)))
          (interval_loop-parts_bytes fuel (pre ++ front) ss rest hs (omega arith)) in
      ap (λ b. interval_loop (suc fuel) (length pre) (length pre + length (front ++ behind)) b) flat
      ∙ interval_loop_step fuel (length pre) (length pre + length (front ++ behind))
          (pre ++ (front ++ (behind ++ rest))) s (omega (arith, size, length-part_bytes s)) first
      ∙ ap (λ r. r >>= λ rest. ok (segment_of s ∷ rest)) later

  -- The offsets of some of the segments, in their order, the first segment being at `offset`.
  pub data Marks : ℕ → List Parts → List ℕ → Type 0 where
    none_left : {offset : ℕ} → Marks offset [] []
    marked :
        {offset : ℕ} {s : Parts} {ss : List Parts} {marks : List ℕ}
        → Marks (offset + length (part_bytes s)) ss marks
        → Marks offset (s ∷ ss) (offset ∷ marks)
    skipped :
        {offset : ℕ} {s : Parts} {ss : List Parts} {marks : List ℕ}
        → Marks (offset + length (part_bytes s)) ss marks
        → Marks offset (s ∷ ss) marks

  -- The offsets do not depend on the length of the last segment.
  pub Marks_last :
      (ss : List Parts) (s t : Parts) (offset : ℕ) (marks : List ℕ)
      → Marks offset (ss ++ s ∷ []) marks
      → Marks offset (ss ++ t ∷ []) marks
  Marks_last [] s t o _ (marked none_left) = marked none_left
  Marks_last [] s t o _ (skipped none_left) = skipped none_left
  Marks_last (r ∷ ss) s t o _ (marked h) =
      marked (Marks_last ss s t (o + length (part_bytes r)) _ h)
  Marks_last (r ∷ ss) s t o _ (skipped h) =
      skipped (Marks_last ss s t (o + length (part_bytes r)) _ h)

  -- A segment more, whose offset may be noted.
  pub Marks_skip :
      (ss : List Parts) (t : Parts) (offset : ℕ) (marks : List ℕ)
      → Marks offset ss marks
      → Marks offset (ss ++ t ∷ []) marks
  Marks_skip [] t o _ none_left = skipped none_left
  Marks_skip (s ∷ ss) t o _ (marked h) = marked (Marks_skip ss t (o + length (part_bytes s)) _ h)
  Marks_skip (s ∷ ss) t o _ (skipped h) = skipped (Marks_skip ss t (o + length (part_bytes s)) _ h)

  pub Marks_snoc :
      (ss : List Parts) (t : Parts) (at offset : ℕ) (marks : List ℕ)
      → at ≡ offset + length (parts_bytes ss)
      → Marks offset ss marks
      → Marks offset (ss ++ t ∷ []) (marks ++ at ∷ [])
  Marks_snoc [] t at o _ e none_left =
      let here : at ≡ o = omega (arith, e) in rw here (marked none_left)
  Marks_snoc (s ∷ ss) t at o _ e (marked h) = marked (
      Marks_snoc ss t at (o + length (part_bytes s)) _
        (omega (arith, e, length-append (part_bytes s) (parts_bytes ss))) h)
  Marks_snoc (s ∷ ss) t at o _ e (skipped h) = skipped (
      Marks_snoc ss t at (o + length (part_bytes s)) _
        (omega (arith, e, length-append (part_bytes s) (parts_bytes ss))) h)

  abbrev pub Within : ℕ → ℕ → ℕ → Type 0
  Within from to mark = (from ≤ mark) × (mark < to)

  -- Every offset is that of a segment.
  pub Marks-Within :
      (ss : List Parts) (offset : ℕ) (marks : List ℕ)
      → Marks offset ss marks
      → All (Within offset (offset + length (parts_bytes ss))) marks
  Marks-Within [] o _ none_left = tt
  Marks-Within (s ∷ ss) o _ (marked {marks = marks} h) =
      let size = length-append (part_bytes s) (parts_bytes ss) in
      let later = Marks-Within ss (o + length (part_bytes s)) marks h in
      (
        (omega arith, omega (arith, size, length-part_bytes s)),
        All-map (λ mark b. (omega (arith, b.0), omega (arith, b.1, size))) marks later,
      )
  Marks-Within (s ∷ ss) o marks (skipped h) =
      let size = length-append (part_bytes s) (parts_bytes ss) in
      let later = Marks-Within ss (o + length (part_bytes s)) marks h in
      All-map (λ mark b. (omega (arith, b.0), omega (arith, b.1, size))) marks later
