-- ===== src/Block/Growing.antt =====
-- Every `add` of `block_builder` in persistent/block.cc keeps what its storage holds.
use frenzy_kv.Prelude.{
  ℕ, ◌+◌, ◌≤◌, ◌≡◌, refl, sym, ap, ◌∙◌, List, [], ◌∷◌, ◌++◌, append-All, map, arith, length,
  length-append, append_assoc, append-nil, Result, ok, Option, inl, inr,
}
use frenzy_kv.Bytes.{Bytes}
use frenzy_kv.Bytes.Endian.{BigEndian}
use frenzy_kv.Kv.Key.{SequencedKey}
use frenzy_kv.Kv.Entry.{KvEntry}
use frenzy_kv.Kv.Wire.{user_key_bytes, length-user_key_bytes}
use frenzy_kv.Block.SegmentRoundTrip.{IsMember, item_rep}
use frenzy_kv.Block.Items.{item_bytes, items_bytes, segment_front, zeros, length-segment_front}
use frenzy_kv.Block.Layout.{
  IsParts, Parts, Marks, parts_bytes, parts_bytes-append, Marks_last, Marks_skip, Marks_snoc,
  marked, none_left,
}
use frenzy_kv.Block.Reader.{entries_of_segments}
use frenzy_kv.Block.Steps.{IsBlockable, IsMarked, state, opening}
use frenzy_kv.Block.Building.{
  weight, weight-append, open_part, IsBuilt, items_snoc, length-item, entries_snoc,
  open_part-IsParts,
}
use frenzy_kv.Block.Builder.{BlockBuilder, Compressor}

module _ ⦃e : BigEndian⦄ where
  opening_lem :
      (x : KvEntry)
      → opening x ≡ segment_front (user_key_bytes x.key) ++ items_bytes (map item_rep (x ∷ []))
  opening_lem x =
      ap (λ b. segment_front (user_key_bytes x.key) ++ b)
        (sym (append-nil (item_bytes (item_rep x))))

  length-opening : (x : KvEntry) → length (opening x) + 8 ≡ weight (x ∷ [])
  unfolding weight
  length-opening x = omega (
    arith,
    length-append (segment_front (user_key_bytes x.key)) (item_bytes (item_rep x)),
    length-segment_front (user_key_bytes x.key),
    length-user_key_bytes x.key,
    length-item x,
  )

  item-weight : (x : KvEntry) → length (item_bytes (item_rep x)) ≤ weight (x ∷ [])
  unfolding weight
  item-weight x = omega (arith, length-item x)

  pub first-IsBuilt :
      (x : KvEntry) → IsBlockable x → IsBuilt [] [] x.key (x ∷ []) (zeros ++ opening x) 1 (4 ∷ [])
  unfolding entries_of_segments
  first-IsBuilt x h = record {
    bytes = ap (λ b. zeros ++ b) (opening_lem x);
    key_fits = h.key_fits;
    of_key = (h.member, tt);
    parts = tt;
    means = refl;
    noted = marked none_left;
    others = [];
    first = refl;
    counted = omega arith;
    size = omega (arith, length-append zeros (opening x), length-opening x);
    few = omega arith;
  }

  module _ {done : List Parts} {before : List KvEntry} {k : SequencedKey} {members : List KvEntry}
      {storage : Bytes} {n : ℕ} {marks : List ℕ}
      (b : IsBuilt done before k members storage n marks) where
    pub same-IsBuilt :
        (x : KvEntry)
        → IsBlockable x
        → x.key.user_key ≡ k.user_key
        → IsBuilt done before k (members ++ x ∷ []) (storage ++ item_bytes (item_rep x)) n marks
    same-IsBuilt x h same =
        let item = item_bytes (item_rep x) in
        let front = segment_front (user_key_bytes k) in
        let m : IsMember k.user_key x = record {
          same_key = same;
          seq_fits = h.member.seq_fits;
          item_fits = h.member.item_fits;
        } in
        let parts = parts_bytes done in
        let held = items_bytes (map item_rep members) in
        record {
          bytes =
              ap (λ s. s ++ item) b.bytes
              ∙ append_assoc zeros (parts ++ (front ++ held)) item
              ∙ ap (λ s. zeros ++ s)
                  (append_assoc parts (front ++ held) item
                    ∙ ap (λ s. parts ++ s)
                        (append_assoc front held item
                          ∙ ap (λ s. front ++ s) (sym (items_snoc members x))));
          key_fits = b.key_fits;
          of_key = append-All (IsMember k.user_key) members (x ∷ []) b.of_key (m, tt);
          parts = b.parts;
          means = b.means;
          noted =
              Marks_last done (open_part k members) (open_part k (members ++ x ∷ [])) 4 marks
                b.noted;
          others = b.others;
          first = b.first;
          counted = b.counted;
          size = omega (
            arith,
            b.size,
            length-append storage item,
            length-item x,
            weight-append members (x ∷ []),
            item-weight x,
          );
          few = omega (arith, b.few, length-append members (x ∷ []));
        }

    -- The storage once the open segment is closed.
    pub closed_lem : storage ++ zeros ≡ zeros ++ parts_bytes (done ++ open_part k members ∷ [])
    closed_lem =
        let front = segment_front (user_key_bytes k) in
        let parts = parts_bytes done in
        let held = items_bytes (map item_rep members) in
        ap (λ s. s ++ zeros) b.bytes
        ∙ append_assoc zeros (parts ++ (front ++ held)) zeros
        ∙ ap (λ s. zeros ++ s)
            (append_assoc parts (front ++ held) zeros
              ∙ ap (λ s. parts ++ s)
                  (append_assoc front held zeros ∙ sym (append-nil (front ++ (held ++ zeros))))
              ∙ sym (parts_bytes-append done (open_part k members ∷ [])))

    next_noted :
        (x : KvEntry) (more : List ℕ)
        → IsMarked (storage ++ zeros) more
        → Marks 4
            ((done ++ open_part k members ∷ []) ++ open_part x.key (x ∷ []) ∷ [])
            (marks ++ more)
    next_noted x _ (inl none) =
        rw (none, append-nil marks)
          (Marks_skip (done ++ open_part k members ∷ []) (open_part x.key (x ∷ [])) 4 marks b.noted)
    next_noted x _ (inr one) =
        let closed = parts_bytes (done ++ open_part k members ∷ []) in
        let at : length (storage ++ zeros) ≡ 4 + length closed =
          ap length closed_lem ∙ length-append zeros closed in
        rw one (
          Marks_snoc (done ++ open_part k members ∷ []) (open_part x.key (x ∷ []))
            (length (storage ++ zeros)) 4 marks at b.noted)

    pub next-IsBuilt :
        (x : KvEntry) (more : List ℕ)
        → IsBlockable x
        → IsMarked (storage ++ zeros) more
        → IsBuilt
            (done ++ open_part k members ∷ [])
            (before ++ members)
            x.key
            (x ∷ [])
            ((storage ++ zeros) ++ opening x)
            (n + 1)
            (marks ++ more)
    next-IsBuilt x more h m =
        let closed = parts_bytes (done ++ open_part k members ∷ []) in
        let one : length more ≤ 1 = elim m [
          | inl t ↦ omega (arith, ap length t)
          | inr t ↦ omega (arith, ap length t)
        ] in
        record {
          bytes =
              ap (λ s. s ++ opening x) closed_lem
              ∙ append_assoc zeros closed (opening x)
              ∙ ap (λ s. zeros ++ (closed ++ s)) (opening_lem x);
          key_fits = h.key_fits;
          of_key = (h.member, tt);
          parts =
              append-All IsParts done (open_part k members ∷ []) b.parts
                (open_part-IsParts k members b.key_fits b.of_key, tt);
          means = entries_snoc done before k members b.means b.of_key;
          noted = next_noted x more m;
          others = b.others ++ more;
          first = ap (λ ms. ms ++ more) b.first;
          counted = omega arith;
          size = omega (
            arith,
            b.size,
            length-append (storage ++ zeros) (opening x),
            length-append storage zeros,
            length-opening x,
            weight-append before members,
            length-append marks more,
            one,
          );
          few = omega (arith, b.few, length-append before members, length-append marks more, one);
        }

  -- A run that ends with a builder which holds the entries.
  pub record Holds (c : Option Compressor) (r : Result BlockBuilder) (xs : List KvEntry)
      : Type 0 where
    pub done : List Parts
    pub before : List KvEntry
    pub k : SequencedKey
    pub members : List KvEntry
    pub storage : Bytes
    pub n : ℕ
    pub marks : List ℕ
    pub built : IsBuilt done before k members storage n marks
    pub returns : r ≡ ok (state storage k n marks c)
    pub all : before ++ members ≡ xs
