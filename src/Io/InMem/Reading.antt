-- ===== src/Io/InMem/Reading.antt =====
-- `in_mem_rw::read` of io/in_mem_rw.cc.
use frenzy_kv.Prelude.{
  ℕ, suc, zero, ◌+◌, ◌-◌, ◌*◌, ◌/◌, ◌%◌, ◌≡◌, ◌≤◌, ◌<◌, refl, ap, sym, ◌∙◌, arith, List, [], ◌∷◌,
  ◌++◌, ok, true, false, length, length-append, length-take, length-drop, append_assoc, append-nil,
  min, ◌==◌, ltb, leb, take, drop, take_all, nil_of_length, take-append-le, take-append-add,
  drop-append-add, drop-append-le, ◌>>=◌, Bool-cases, inl, inr, ◌⊎◌,
}
use native.Mathlib.Decide.{dec_le}
use native.Mathlib.Nat.{mod-lt, div-add-mod'}
use frenzy_kv.Bytes.{Bytes, advance}
use frenzy_kv.Io.Buffer
use frenzy_kv.Io.Buffer.{Buffer, valid_span, length-valid_span}
use frenzy_kv.Io.InMem.{
  InMemRw, following_spans, spans_from, target_spans, append_to_dest, read_spans, read, file_size,
}
use frenzy_kv.Io.InMem.Content.{
  spans, contents, IsFilled, IsValid, IsFilled-tail, IsFilled-head, file_size-contents,
}

-- The bytes of some spans, and that only the last of them can be empty.
unfoldable pub joined : List Bytes → Bytes
joined [] = []
joined (s ∷ ss) = s ++ joined ss

unfoldable pub IsSolid : List Bytes → Type 0
IsSolid [] = Unit
IsSolid (s ∷ ss) = ((0 < length s) ⊎ (joined ss ≡ [])) × IsSolid ss

take-nil : (n : ℕ) (xs : Bytes) → length xs ≡ 0 → take n xs ≡ []
take-nil n xs h = take_all n xs (omega arith) ∙ nil_of_length xs h

read_spans_stop :
    (n : ℕ) (s : Bytes) (ss : List Bytes)
    → (length (append_to_dest n s) == 0) ≡ true
    → read_spans n (s ∷ ss) ≡ []
unfolding read_spans
read_spans_stop n s ss h = rw h refl

read_spans_more :
    (n : ℕ) (s : Bytes) (ss : List Bytes)
    → (length (append_to_dest n s) == 0) ≡ false
    → read_spans n (s ∷ ss) ≡ append_to_dest n s ++ read_spans (n - length (append_to_dest n s)) ss
unfolding read_spans
read_spans_more n s ss h = rw h refl

nothing_left :
    (n : ℕ) (s j : Bytes) → (0 < length s) ⊎ (j ≡ []) → min n (length s) ≡ 0 → take n (s ++ j) ≡ []
nothing_left zero s j h e = refl
nothing_left (suc n) s j (inl h) e = absurd (omega arith)
nothing_left (suc n) s j (inr h) e = rw (h, append-nil) (take-nil (suc n) s (omega arith))

-- The bytes that a round copies, and those of the rounds after it.
first_part :
    (n : ℕ) (s j : Bytes) → append_to_dest n s ++ take (n - min n (length s)) j ≡ take n (s ++ j)
unfolding append_to_dest
first_part n s j = elim (dec_le n (length s)) [
  | yes h ↦
      let m : min n (length s) ≡ n = omega arith in
      let z : n - n ≡ 0 = omega arith in
      rw (m, z) (append-nil (take n s) ∙ sym (take-append-le n s j h))
  | no h ↦
      let m : min n (length s) ≡ length s = omega arith in
      rw (m, take_all (length s) s (omega arith))
        (sym (take-append-add n (n - length s) s j (omega arith)))
]

length-append_to_dest : (n : ℕ) (s : Bytes) → length (append_to_dest n s) ≡ min n (length s)
unfolding append_to_dest
length-append_to_dest n s = omega (arith, length-take (min n (length s)) s)

read_spans-joined : (n : ℕ) (ss : List Bytes) → IsSolid ss → read_spans n ss ≡ take n (joined ss)
unfolding joined IsSolid
read_spans-joined n [] h = unfold read_spans in sym (take-nil n [] refl)
read_spans-joined n (s ∷ ss) (h, hs) = elim (Bool-cases (length (append_to_dest n s) == 0)) [
  | inl stop ↦
      read_spans_stop n s ss stop
      ∙ sym (nothing_left n s (joined ss) h (ground (arith, length-append_to_dest n s)))
  | inr more ↦
      read_spans_more n s ss more
      ∙ ap (λ xs. append_to_dest n s ++ xs)
          (read_spans-joined (n - length (append_to_dest n s)) ss hs
            ∙ ap (λ k. take (n - k) (joined ss)) (length-append_to_dest n s))
      ∙ first_part n s (joined ss)
]

following_spans_stop :
    (m n : ℕ) (b : Buffer) (bs : List Buffer) → ltb m n ≡ false → following_spans m n (b ∷ bs) ≡ []
unfolding following_spans
following_spans_stop m n b bs h = rw h refl

following_spans_more :
    (m n : ℕ) (b : Buffer) (bs : List Buffer)
    → ltb m n ≡ true
    → following_spans m n (b ∷ bs) ≡ valid_span b ∷ following_spans (m + length (valid_span b)) n bs
unfolding following_spans
following_spans_more m n b bs h = rw h refl

-- The spans that a read needs hold as many bytes as it asks for, or all there are.
following_spans-take :
    (n : ℕ) (xs : Bytes) (bs : List Buffer)
    → take n (xs ++ joined (following_spans (length xs) n bs)) ≡ take n (xs ++ spans bs)
unfolding joined spans
following_spans-take n xs [] = unfold following_spans in refl
following_spans-take n xs (b ∷ bs) = elim (Bool-cases (ltb (length xs) n)) [
  | inl more ↦
      let v = valid_span b in
      rw
        (
          following_spans_more (length xs) n b bs more,
          sym (append_assoc xs v (joined (following_spans (length xs + length v) n bs))),
          sym (append_assoc xs v (spans bs)),
          sym (length-append xs v),
        )
        (following_spans-take n (xs ++ v) bs)
  | inr stop ↦ rw (following_spans_stop (length xs) n b bs stop) (
      take-append-le n xs [] (ground arith)
      ∙ sym (take-append-le n xs (valid_span b ++ spans bs) (ground arith)))
]

-- A block with another one behind it has a byte at least.
solid_head :
    (k m n : ℕ) (b : Buffer) (bs : List Buffer)
    → IsFilled k (b ∷ bs)
    → 0 < k
    → (0 < length (valid_span b)) ⊎ (joined (following_spans m n bs) ≡ [])
unfolding IsFilled following_spans joined Buffer.size
solid_head k m n b [] h p = inr refl
solid_head k m n b (c ∷ bs) (v, e, l, h) p = inl (omega (arith, length-valid_span b v))

following_spans-IsSolid :
    (k m n : ℕ) (bs : List Buffer) → IsFilled k bs → 0 < k → IsSolid (following_spans m n bs)
unfolding IsSolid
following_spans-IsSolid k m n [] h p = unfold following_spans in tt
following_spans-IsSolid k m n (b ∷ bs) h p = elim (Bool-cases (ltb m n)) [
  | inl more ↦ rw (following_spans_more m n b bs more) (
    solid_head k (m + length (valid_span b)) n b bs h p,
    following_spans-IsSolid k (m + length (valid_span b)) n bs (IsFilled-tail k b bs h) p,
  )
  | inr stop ↦ rw (following_spans_stop m n b bs stop) tt
]

-- A block that another one stands behind is full.
full_head :
    (k : ℕ) (b c : Buffer) (bs : List Buffer) → IsFilled k (b ∷ c ∷ bs) → length (valid_span b) ≡ k
unfolding IsFilled Buffer.size
full_head k b c bs (v, e, l, h) = omega (arith, length-valid_span b v)

length-le :
    (k : ℕ) (b : Buffer) (bs : List Buffer) → IsFilled k (b ∷ bs) → length (valid_span b) ≤ k
unfolding Buffer.size
length-le k b bs h = let (v, e) = IsFilled-head k b bs h in omega (arith, length-valid_span b v)

IsFilled-drop : (k q : ℕ) (bs : List Buffer) → IsFilled k bs → IsFilled k (drop q bs)
IsFilled-drop k zero bs h = h
IsFilled-drop k (suc q) [] h = h
IsFilled-drop k (suc q) (b ∷ bs) h = IsFilled-drop k q bs (IsFilled-tail k b bs h)

-- Whole blocks are skipped.
drop-blocks :
    (k q r : ℕ) (bs : List Buffer)
    → IsFilled k bs
    → q * k + r < length (spans bs)
    → drop (q * k + r) (spans bs) ≡ drop r (spans (drop q bs))
unfolding spans
drop-blocks k zero r bs h lt = ap (λ n. drop n (spans bs)) (omega arith)
drop-blocks k (suc q) r [] h lt = absurd (omega arith)
drop-blocks k (suc q) r (b ∷ []) h lt =
    absurd (omega (arith, length-append (valid_span b) [], length-le k b [] h))
drop-blocks k (suc q) r (b ∷ c ∷ bs) h lt =
    drop-append-add (suc q * k + r) (q * k + r) (valid_span b) (spans (c ∷ bs))
      (omega (arith, full_head k b c bs h))
    ∙ drop-blocks k q r (c ∷ bs) (IsFilled-tail k b (c ∷ bs) h)
        (omega (arith, length-append (valid_span b) (spans (c ∷ bs)), full_head k b c bs h))

in_first :
    (k r : ℕ) (b : Buffer) (bs : List Buffer)
    → IsFilled k (b ∷ bs)
    → r < k
    → r < length (spans (b ∷ bs))
    → r < length (valid_span b)
unfolding spans
in_first k r b [] h lt l = omega (arith, length-append (valid_span b) [])
in_first k r b (c ∷ bs) h lt l = omega (arith, full_head k b c bs h)

advance-le : (r : ℕ) (xs : Bytes) → r ≤ length xs → advance r xs ≡ ok (drop r xs)
unfolding advance
advance-le r xs h = let l : leb r (length xs) ≡ true = ground arith in rw l refl

-- A read from a cursor in the first of some blocks.
read_from :
    (k r n : ℕ) (bs : List Buffer)
    → IsFilled k bs
    → r < k
    → r < length (spans bs)
    → (spans_from r n bs >>= λ ss. ok (read_spans n ss)) ≡ ok (take n (drop r (spans bs)))
unfolding spans_from
read_from k r n [] h p lt = absurd (unfold spans in omega arith)
read_from k r n (b ∷ bs) h p lt =
    let v = valid_span b in
    let inside = in_first k r b bs h p lt in
    rw (advance-le r v (omega arith)) (
      ap ok (
        read_spans-joined n (drop r v ∷ following_spans (length (drop r v)) n bs) (
          unfold IsSolid in
          (
            inl (omega (arith, length-drop r v)),
            following_spans-IsSolid k (length (drop r v)) n bs (IsFilled-tail k b bs h)
                (omega arith),
          ))
        ∙ unfold joined in
          following_spans-take n (drop r v) bs
          ∙ ap (take n) (unfold spans in sym (drop-append-le r v (spans bs) (omega arith)))))

-- A read at an offset in a file gives the bytes of the file from there on, as many as it asks for
-- or all there are.
pub read-contents :
    (n offset : ℕ) (f : InMemRw)
    → IsValid f
    → offset < file_size f
    → read n offset f ≡ ok (take n (drop offset (contents f)))
unfolding read target_spans contents
read-contents n offset f v lt =
    let k = f.block_size in
    let positive : (k == 0) ≡ false = ground (arith, v.positive) in
    let q = offset / k in
    let r = offset % k in
    let whole : q * k + r ≡ offset = div-add-mod' offset k in
    let below : offset < length (spans f.blocks) = omega (arith, file_size-contents f v) in
    let inside : q * k + r < length (spans f.blocks) = omega arith in
    let skip = drop-blocks k q r f.blocks v.filled inside in
    let left : r < length (spans (drop q f.blocks)) = omega (
      arith,
      ap length skip,
      length-drop (q * k + r) (spans f.blocks),
      length-drop r (spans (drop q f.blocks)),
    ) in
    rw positive (
      read_from k r n (drop q f.blocks) (IsFilled-drop k q f.blocks v.filled)
        (mod-lt offset v.positive) left
      ∙ ap (λ xs. ok (take n xs)) (sym skip ∙ ap (λ m. drop m (spans f.blocks)) whole))
