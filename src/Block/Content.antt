-- ===== src/Block/Content.antt =====
-- The content that `block_builder::finish` of persistent/block.cc seals.
use frenzy_kv.Prelude.{
  ℕ, ◌+◌, ◌^◌, ◌≤◌, ◌<◌, ◌≡◌, refl, sym, ap, ◌∙◌, List, [], ◌∷◌, ◌++◌, All, All-map, append-All,
  map, arith, length, length-append, append_assoc, drop, Result, ok, ◌>>=◌, Option, false, ◌==◌,
}
use frenzy_kv.Bytes.{Bytes}
use frenzy_kv.Bytes.Endian.{BigEndian, encode, length-encode}
use frenzy_kv.Kv.Entry.{KvEntry}
use frenzy_kv.Kv.RoundTrip.{stored}
use frenzy_kv.Block.SegmentBuilder
use frenzy_kv.Block.Items.{zeros}
use frenzy_kv.Block.Layout.{
  Parts, IsParts, Marks, marked, skipped, part_bytes, parts_bytes, length-part_bytes, segment_of,
  Within, Marks-Within,
}
use frenzy_kv.Block.Whole.{Fits, content_bytes, IsWhole, length-meta_data}
use frenzy_kv.Block.Reader.{entries_of_segments}
use frenzy_kv.Block.Building.{weight, weight-append, open_part, entries_snoc, open_part-IsParts}
use frenzy_kv.Block.Growing.{Holds, closed_lem}
use frenzy_kv.Block.Builder.{
  BlockBuilder, BlockOptions, Compressor, drop_dangling, meta_data, pack, seal, finish,
}
use native.Mathlib.Nat.{mod-eq_of_lt}

module _ ⦃e : BigEndian⦄ where
  drop_dangling_lem :
      (end : ℕ) (marks : List ℕ) → All (λ mark. mark < end) marks → drop_dangling end marks ≡ marks
  unfolding drop_dangling
  drop_dangling_lem end [] h = refl
  drop_dangling_lem end (m ∷ []) (h, hs) = ground arith
  drop_dangling_lem end (m ∷ n ∷ ms) (h, hs) = ap (λ t. m ∷ t) (drop_dangling_lem end (n ∷ ms) hs)

  -- The content of a block with the entries `xs`.
  pub record IsContent (content : Bytes) (xs : List KvEntry) : Type 0 where
    pub s : Parts
    pub ss : List Parts
    pub more : List ℕ
    pub is : content ≡ content_bytes (s ∷ ss) (4 ∷ more)
    pub whole : (tail : Bytes) → length tail ≡ 5 → IsWhole s ss more tail
    pub means : entries_of_segments (map segment_of (s ∷ ss)) ≡ ok (map stored xs)

  behind_lem :
      (s : Parts) (ss : List Parts) (marks others : List ℕ)
      → Marks 4 (s ∷ ss) marks
      → marks ≡ 4 ∷ others
      → All (λ mark. 4 + length (part_bytes s) ≤ mark) others
  behind_lem s ss _ others (marked {marks = marks} h) t =
      let tails : marks ≡ others = ap (λ ms. drop 1 ms) t in
      rw (sym tails)
        (All-map (λ mark b. b.0) marks (Marks-Within ss (4 + length (part_bytes s)) marks h))
  behind_lem s ss marks others (skipped h) t =
      let all = Marks-Within ss (4 + length (part_bytes s)) marks h in
      let head : All
          (Within (4 + length (part_bytes s)) (4 + length (part_bytes s) + length (parts_bytes ss)))
          (4 ∷ others) =
        rw t at all in
      absurd (omega (arith, head.0, length-part_bytes s))

  content_lem :
      (all : List Parts) (marks others : List ℕ) (xs : List KvEntry)
      → 0 < length all
      → All IsParts all
      → Marks 4 all marks
      → marks ≡ 4 ∷ others
      → entries_of_segments (map segment_of all) ≡ ok (map stored xs)
      → length marks < 2 ^ 16
      → length (content_bytes all marks) + 9 < 2 ^ 32
      → IsContent (content_bytes all marks) xs
  content_lem [] marks others xs pos h m t means few small = absurd (omega arith)
  content_lem (s ∷ ss) marks others xs pos h m t means few small =
      let up : length (parts_bytes (s ∷ ss)) ≤ length (content_bytes (s ∷ ss) marks) = omega (
        arith,
        length-append (parts_bytes (s ∷ ss)) (meta_data marks ++ encode 2 (length marks)),
      ) in
      let fit : All Fits marks =
        All-map (λ mark b. omega (arith, b.1, up, small)) marks (Marks-Within (s ∷ ss) 4 marks m) in
      let fits : All Fits (4 ∷ others) = rw t at fit in
      record {
        s = s;
        ss = ss;
        more = others;
        is = ap (λ ms. content_bytes (s ∷ ss) ms) t;
        whole = λ tail five. record {
          parts = h;
          behind = behind_lem s ss marks others m t;
          marks_fit = fits.1;
          few = rw t at few;
          small = rw t at small;
          five = five;
        };
        means = means;
      }

  -- The segments of a builder, the open one closed.
  abbrev pub segments_held :
      {c : Option Compressor} {r : Result BlockBuilder} {xs : List KvEntry}
      → Holds c r xs
      → List Parts
  segments_held h = h.done ++ open_part h.k h.members ∷ []

  -- `finish` packs and seals the content of the block.
  pub finish_bytes :
      (opt : BlockOptions) (crc32c : Bytes → ℕ) (c : Option Compressor) (r : Result BlockBuilder)
      (xs : List KvEntry) (h : Holds c r xs)
      → weight xs + 15 < 2 ^ 32
      → length xs < 2 ^ 16
      → ((r >>= finish opt crc32c) ≡ (
          pack opt c (zeros ++ content_bytes (segments_held h) h.marks) >>= λ (packed, compressed).
          seal opt.capacity crc32c packed compressed))
        × (length (content_bytes (segments_held h) h.marks) ≤ weight xs + 6)
        × (length h.marks < 2 ^ 16)
  unfolding finish SegmentBuilder.finish
  finish_bytes opt crc32c c r xs h small few_entries =
      let b = h.built in
      let all = segments_held h in
      let marks = h.marks in
      let closed = h.storage ++ zeros in
      let is_closed : closed ≡ zeros ++ parts_bytes all = closed_lem b in
      let number : length xs ≡ length h.before + length h.members =
        ap length (sym h.all) ∙ length-append h.before h.members in
      let weights : weight xs ≡ weight h.before + weight h.members =
        ap weight (sym h.all) ∙ weight-append h.before h.members in
      let few : length marks < 2 ^ 16 = omega (arith, b.few, number, few_entries) in
      let size : length closed ≡ 4 + length (parts_bytes all) =
        ap length is_closed ∙ length-append zeros (parts_bytes all) in
      let within : All (λ mark. mark < length closed) marks =
        All-map (λ mark w. omega (arith, w.1, size)) marks (Marks-Within all 4 marks b.noted) in
      let kept : drop_dangling (length closed) marks ≡ marks =
        drop_dangling_lem (length closed) marks within in
      let content = content_bytes all marks in
      let total : length content ≤ weight xs + 6 = omega (
        arith,
        length-append (parts_bytes all) (meta_data marks ++ encode 2 (length marks)),
        length-append (meta_data marks) (encode 2 (length marks)),
        length-meta_data marks,
        length-encode 2 (length marks),
        size,
        length-append h.storage zeros,
        b.size,
        weights,
        small,
      ) in
      let counted : (h.n == 0) ≡ false = let c = b.counted in ground arith in
      let flat : (closed ++ meta_data marks) ++ encode 2 (length marks) ≡ zeros ++ content =
        ap (λ s. (s ++ meta_data marks) ++ encode 2 (length marks)) is_closed
        ∙ append_assoc (zeros ++ parts_bytes all) (meta_data marks) (encode 2 (length marks))
        ∙ append_assoc zeros (parts_bytes all) (meta_data marks ++ encode 2 (length marks)) in
      (rw h.returns (rw counted (rw kept (rw (mod-eq_of_lt few) (rw flat refl)))), total, few)

  -- That content has the entries of the builder.
  pub finish_lem :
      (opt : BlockOptions) (crc32c : Bytes → ℕ) (c : Option Compressor) (r : Result BlockBuilder)
      (xs : List KvEntry)
      → Holds c r xs
      → weight xs + 15 < 2 ^ 32
      → length xs < 2 ^ 16
      → (content : Bytes) × ((r >>= finish opt crc32c) ≡ (
          pack opt c (zeros ++ content) >>= λ (packed, compressed).
          seal opt.capacity crc32c packed compressed))
        × IsContent content xs
        × (length content ≤ weight xs + 6)
  finish_lem opt crc32c c r xs h small few_entries =
      let b = h.built in
      let (sealing, total, few) = finish_bytes opt crc32c c r xs h small few_entries in
      (
        content_bytes (segments_held h) h.marks,
        sealing,
        content_lem (segments_held h) h.marks b.others xs
            (omega (arith, length-append h.done (open_part h.k h.members ∷ [])))
            (append-All IsParts h.done (open_part h.k h.members ∷ []) b.parts
              (open_part-IsParts h.k h.members b.key_fits b.of_key, tt))
            b.noted b.first
            (rw (sym h.all) (entries_snoc h.done h.before h.k h.members b.means b.of_key)) few
            (omega (arith, total, small)),
        total,
      )
