-- ===== src/Block/Whole.antt =====
-- A whole block that is not compressed, read by `block` of persistent/block.cc.
use frenzy_kv.Prelude.{
  ℕ, suc, ◌+◌, ◌*◌, ◌^◌, ◌≤◌, ◌<◌, ◌≡◌, refl, sym, ap, ◌∙◌, List, [], ◌∷◌, ◌++◌, All, map, arith,
  length, length-append, append_assoc, ok, true, false, ltb, ◌==◌,
}
use frenzy_kv.Bytes.{Bytes, read-append}
use frenzy_kv.Bytes.Endian.{BigEndian, encode, length-encode, decode-encode}
use frenzy_kv.Block.Segment.{read_at}
use frenzy_kv.Block.Builder.{meta_data}
use frenzy_kv.Block.Items.{read_at-append}
use frenzy_kv.Block.Layout.{
  Parts, IsParts, part_bytes, parts_bytes, segment_of, segment_at-part_bytes,
  segments_loop-parts_bytes, interval_loop-parts_bytes, length-part_bytes, length-parts,
}
use frenzy_kv.Block.Reader.{
  Block, back, btl_value, nsbs_beg, nsbs_value, meta_data_beg, sbso_loop, parse_meta_data, front,
  first_sentinal, parse_block, segments, segments_loop, segments_in_single_interval, interval_loop,
  segment_at, entries, entries_of_segments,
}

abbrev pub Fits : ℕ → Type 0
Fits mark = mark < 2 ^ 32

module _ ⦃e : BigEndian⦄ where
  abbrev pub content_bytes : List Parts → List ℕ → Bytes
  content_bytes ss marks = parts_bytes ss ++ (meta_data marks ++ encode 2 (length marks))

  abbrev pub block_bytes : List Parts → List ℕ → Bytes → Bytes
  block_bytes ss marks tail =
      encode 4 (length (content_bytes ss marks) + 9) ++ (content_bytes ss marks ++ tail)

  pub length-meta_data : (marks : List ℕ) → length (meta_data marks) ≡ 4 * length marks
  unfolding meta_data
  length-meta_data [] = refl
  length-meta_data (m ∷ ms) =
      omega
        (arith, length-append (encode 4 m) (meta_data ms), length-encode 4 m, length-meta_data ms)

  sbso_loop-meta_data :
      (marks : List ℕ) (pre rest : Bytes)
      → All Fits marks
      → sbso_loop (length marks) (length pre) (pre ++ (meta_data marks ++ rest)) ≡ ok marks
  unfolding sbso_loop meta_data
  sbso_loop-meta_data [] pre rest h = refl
  sbso_loop-meta_data (m ∷ ms) pre rest (h, hs) =
      let here = encode 4 m in
      let flat : pre ++ ((here ++ meta_data ms) ++ rest) ≡ pre ++ (here ++ (meta_data ms ++ rest)) =
        ap (λ b. pre ++ b) (append_assoc here (meta_data ms) rest) in
      let n : length pre + 4 ≡ length (pre ++ here) =
        omega (arith, length-append pre here, length-encode 4 m) in
      let later : sbso_loop (length ms) (length pre + 4) (pre ++ (here ++ (meta_data ms ++ rest)))
          ≡ ok ms =
        rw (n, sym (append_assoc pre here (meta_data ms ++ rest)))
          (sbso_loop-meta_data ms (pre ++ here) rest hs) in
      rw flat (
        rw (read_at-append 4 pre here (meta_data ms ++ rest) (length-encode 4 m))
          (rw later (rw (decode-encode 4 m h) refl)))

  -- A block of some segments with the offsets of some of them, of which the first is that of the
  -- first segment and the others lie behind it.
  pub record IsWhole (s : Parts) (ss : List Parts) (more : List ℕ) (tail : Bytes) : Type 0 where
    pub parts : All IsParts (s ∷ ss)
    pub behind : All (λ mark. 4 + length (part_bytes s) ≤ mark) more
    pub marks_fit : All Fits more
    pub few : length (4 ∷ more) < 2 ^ 16
    pub small : length (content_bytes (s ∷ ss) (4 ∷ more)) + 9 < 2 ^ 32
    pub five : length tail ≡ 5

  module _ (s : Parts) (ss : List Parts) (more : List ℕ) (tail : Bytes)
      (h : IsWhole s ss more tail) where
    abbrev all : List Parts
    all = s ∷ ss

    abbrev marks : List ℕ
    marks = 4 ∷ more

    abbrev whole : Bytes
    whole = block_bytes all marks tail

    abbrev total : Bytes
    total = encode 4 (length (content_bytes all marks) + 9)

    abbrev number : Bytes
    number = encode 2 (length marks)

    sizes : length (content_bytes all marks) ≡ length (parts_bytes all) + (4 * length marks + 2)
    sizes = omega (
      arith,
      length-append (parts_bytes all) (meta_data marks ++ number),
      length-append (meta_data marks) number,
      length-meta_data marks,
      length-encode 2 (length marks),
    )

    nsbs_beg_lem : nsbs_beg whole ≡ ok (4 + length (parts_bytes all) + 4 * length marks)
    unfolding nsbs_beg btl_value back
    nsbs_beg_lem = ground (
      arith,
      read-append 4 total (content_bytes all marks ++ tail) (length-encode 4 _),
      decode-encode 4 (length (content_bytes all marks) + 9) h.small,
      sizes,
    )

    nsbs_value_lem : nsbs_value whole ≡ ok (length marks)
    unfolding nsbs_value
    nsbs_value_lem =
        let pre = (total ++ parts_bytes all) ++ meta_data marks in
        let n : 4 + length (parts_bytes all) + 4 * length marks ≡ length pre = omega (
          arith,
          length-append (total ++ parts_bytes all) (meta_data marks),
          length-append total (parts_bytes all),
          length-encode 4 (length (content_bytes all marks) + 9),
          length-meta_data marks,
        ) in
        let flat : whole ≡ pre ++ (number ++ tail) =
          ap (λ b. total ++ b)
            (append_assoc (parts_bytes all) (meta_data marks ++ number) tail
              ∙ ap (λ b. parts_bytes all ++ b) (append_assoc (meta_data marks) number tail))
          ∙ sym (append_assoc total (parts_bytes all) (meta_data marks ++ (number ++ tail)))
          ∙ sym (append_assoc (total ++ parts_bytes all) (meta_data marks) (number ++ tail)) in
        let at : read_at (4 + length (parts_bytes all) + 4 * length marks) 2 whole ≡ ok number =
          rw (n, flat) (read_at-append 2 pre number tail (length-encode 2 _)) in
        rw nsbs_beg_lem (rw at (rw (decode-encode 2 (length marks) h.few) refl))

    pub meta_data_beg_lem : meta_data_beg whole ≡ ok (4 + length (parts_bytes all))
    unfolding meta_data_beg back
    meta_data_beg_lem = ground (arith, nsbs_value_lem, nsbs_beg_lem)

    parse_meta_data_lem : parse_meta_data whole ≡ ok marks
    unfolding parse_meta_data
    parse_meta_data_lem =
        let pre = total ++ parts_bytes all in
        let n : 4 + length (parts_bytes all) ≡ length pre = omega (
          arith,
          length-append total (parts_bytes all),
          length-encode 4 (length (content_bytes all marks) + 9),
        ) in
        let flat : whole ≡ pre ++ (meta_data marks ++ (number ++ tail)) =
          ap (λ b. total ++ b)
            (append_assoc (parts_bytes all) (meta_data marks ++ number) tail
              ∙ ap (λ b. parts_bytes all ++ b) (append_assoc (meta_data marks) number tail))
          ∙ sym (append_assoc total (parts_bytes all) (meta_data marks ++ (number ++ tail))) in
        let read : sbso_loop (length marks) (4 + length (parts_bytes all)) whole ≡ ok marks =
          rw (n, flat)
            (sbso_loop-meta_data marks pre (number ++ tail) (omega arith, h.marks_fit)) in
        let some_mark : (length marks == 0) ≡ false = ground arith in
        rw meta_data_beg_lem (rw nsbs_value_lem (rw some_mark read))

    content_lem : whole ≡ total ++ (parts_bytes all ++ ((meta_data marks ++ number) ++ tail))
    content_lem =
        ap (λ b. total ++ b) (append_assoc (parts_bytes all) (meta_data marks ++ number) tail)

    -- The first segment, whatever the sentinal behind it.
    first_segment :
        (sentinal : ℕ)
        → 4 + length (part_bytes s) ≤ sentinal
        → segment_at 4 sentinal whole ≡ ok (segment_of s)
    first_segment sentinal room =
        let rest = parts_bytes ss ++ ((meta_data marks ++ number) ++ tail) in
        let flat : whole ≡ total ++ (part_bytes s ++ rest) =
          content_lem
          ∙ ap (λ b. total ++ b)
              (append_assoc (part_bytes s) (parts_bytes ss)
                ((meta_data marks ++ number) ++ tail)) in
        let four : length total ≡ 4 = length-encode 4 (length (content_bytes all marks) + 9) in
        let at : segment_at (length total) sentinal (total ++ (part_bytes s ++ rest))
            ≡ ok (segment_of s) =
          segment_at-part_bytes total s rest sentinal h.parts.0 (omega (arith, four)) in
        ap (λ b. segment_at 4 sentinal b) flat
        ∙ ap (λ n. segment_at n sentinal (total ++ (part_bytes s ++ rest))) (sym four)
        ∙ at

    size_lem : length (parts_bytes all) ≡ length (part_bytes s) + length (parts_bytes ss)
    size_lem = length-append (part_bytes s) (parts_bytes ss)

    first_room :
        (ms : List ℕ)
        → All (λ mark. 4 + length (part_bytes s) ≤ mark) ms
        → 4 + length (part_bytes s) ≤ first_sentinal (4 ∷ ms) (4 + length (parts_bytes all))
    unfolding first_sentinal
    first_room [] b = omega (arith, size_lem)
    first_room (m ∷ ms) (b, bs) = b

    abbrev pub parsed : Block
    parsed = record { storage = whole; special_segs = marks; first_seg_public_prefix = s.0 }

    pub parse_block_lem : parse_block whole ≡ ok parsed
    unfolding parse_block front
    parse_block_lem =
        let sentinal = first_sentinal marks (4 + length (parts_bytes all)) in
        let room = first_room more h.behind in
        let before : ltb 4 sentinal ≡ true = ground (arith, room, length-part_bytes s) in
        rw parse_meta_data_lem
          (rw meta_data_beg_lem (rw before (rw (first_segment sentinal room) refl)))

    pub segments_lem : segments parsed ≡ ok (map segment_of all)
    unfolding segments front
    segments_lem =
        let four : length total ≡ 4 = length-encode 4 (length (content_bytes all marks) + 9) in
        let rest = (meta_data marks ++ number) ++ tail in
        let enough : length all < suc (length whole) = omega (
          arith,
          length-parts all,
          length-append total (content_bytes all marks ++ tail),
          length-append (content_bytes all marks) tail,
          sizes,
        ) in
        let at : segments_loop (suc (length whole)) (length total)
              (length total + length (parts_bytes all)) (total ++ (parts_bytes all ++ rest))
            ≡ ok (map segment_of all) =
          segments_loop-parts_bytes (suc (length whole)) total all rest h.parts enough in
        rw meta_data_beg_lem (
          ap (λ b. segments_loop (suc (length whole)) 4 (4 + length (parts_bytes all)) b)
            content_lem
          ∙ ap
              (λ n.
                segments_loop (suc (length whole)) n (n + length (parts_bytes all))
                  (total ++ (parts_bytes all ++ rest)))
              (sym four)
          ∙ at)

    -- The same as a single interval.
    pub interval_lem :
        segments_in_single_interval 4 (4 + length (parts_bytes all)) whole ≡ ok (map segment_of all)
    unfolding segments_in_single_interval
    interval_lem =
        let four : length total ≡ 4 = length-encode 4 (length (content_bytes all marks) + 9) in
        let rest = (meta_data marks ++ number) ++ tail in
        let enough : length all < suc (length whole) = omega (
          arith,
          length-parts all,
          length-append total (content_bytes all marks ++ tail),
          length-append (content_bytes all marks) tail,
          sizes,
        ) in
        let at : interval_loop (suc (length whole)) (length total)
              (length total + length (parts_bytes all)) (total ++ (parts_bytes all ++ rest))
            ≡ ok (map segment_of all) =
          interval_loop-parts_bytes (suc (length whole)) total all rest h.parts enough in
        ap (λ b. interval_loop (suc (length whole)) 4 (4 + length (parts_bytes all)) b) content_lem
        ∙ ap
            (λ n.
              interval_loop (suc (length whole)) n (n + length (parts_bytes all))
                (total ++ (parts_bytes all ++ rest)))
            (sym four)
        ∙ at

    -- Its entries are those of its segments.
    pub entries_lem : entries parsed ≡ entries_of_segments (map segment_of all)
    unfolding entries
    entries_lem = rw segments_lem refl
