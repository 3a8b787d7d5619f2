-- ===== src/Io/InMem/Content.antt =====
-- The bytes that an `in_mem_rw` of io/in_mem_rw.cc holds.
use frenzy_kv.Prelude.{
  ℕ, ◌≡◌, ◌<◌, refl, ap, sym, ◌∙◌, arith, List, [], ◌∷◌, ◌++◌, some, length, length-append,
  append_assoc,
}
use frenzy_kv.Bytes.{Bytes}
use frenzy_kv.Io.Buffer
use frenzy_kv.Io.Buffer.{Buffer, valid_span, length-valid_span}
use frenzy_kv.Io.InMem.{InMemRw, split_last, span_sizes, file_size}

unfoldable pub spans : List Buffer → Bytes
spans [] = []
spans (b ∷ bs) = valid_span b ++ spans bs

unfoldable pub contents : InMemRw → Bytes
contents f = spans f.blocks

-- Every block has the file's size, and every block but the last is full.
unfoldable pub IsFilled : ℕ → List Buffer → Type 0
IsFilled n [] = Unit
IsFilled n (b ∷ []) = Buffer.IsValid b × (b.capacity ≡ n)
IsFilled n (b ∷ c ∷ bs) = Buffer.IsValid b × (b.capacity ≡ n) × (b.left ≡ 0) × IsFilled n (c ∷ bs)

pub record IsValid (f : InMemRw) : Type 0 where
  pub some_block : 0 < length f.blocks
  pub filled : IsFilled f.block_size f.blocks
  pub positive : 0 < f.block_size

pub spans-append : (bs cs : List Buffer) → spans (bs ++ cs) ≡ spans bs ++ spans cs
unfolding spans
spans-append [] cs = refl
spans-append (b ∷ bs) cs =
    ap (λ xs. valid_span b ++ xs) (spans-append bs cs)
    ∙ sym (append_assoc (valid_span b) (spans bs) (spans cs))

pub IsFilled-tail : (n : ℕ) (b : Buffer) (bs : List Buffer) → IsFilled n (b ∷ bs) → IsFilled n bs
unfolding IsFilled
IsFilled-tail n b [] h = tt
IsFilled-tail n b (c ∷ bs) (v, e, l, h) = h

pub IsFilled-head :
    (n : ℕ) (b : Buffer) (bs : List Buffer)
    → IsFilled n (b ∷ bs)
    → Buffer.IsValid b × (b.capacity ≡ n)
unfolding IsFilled
IsFilled-head n b [] h = h
IsFilled-head n b (c ∷ bs) (v, e, l, h) = (v, e)

-- All the blocks are full, and another one comes behind them.
unfoldable pub AllFull : ℕ → List Buffer → Type 0
AllFull n [] = Unit
AllFull n (b ∷ bs) = Buffer.IsValid b × (b.capacity ≡ n) × (b.left ≡ 0) × AllFull n bs

pub AllFull-IsFilled :
    (n : ℕ) (bs : List Buffer) (c : Buffer)
    → AllFull n bs
    → Buffer.IsValid c
    → c.capacity ≡ n
    → IsFilled n (bs ++ c ∷ [])
unfolding AllFull IsFilled
AllFull-IsFilled n [] c h v e = (v, e)
AllFull-IsFilled n (b ∷ []) c (vb, eb, lb, h) v e = (vb, eb, lb, (v, e))
AllFull-IsFilled n (b ∷ d ∷ bs) c (vb, eb, lb, h) v e =
    (vb, eb, lb, AllFull-IsFilled n (d ∷ bs) c h v e)

pub AllFull-snoc :
    (n : ℕ) (bs : List Buffer) (c : Buffer)
    → AllFull n bs
    → Buffer.IsValid c
    → c.capacity ≡ n
    → c.left ≡ 0
    → AllFull n (bs ++ c ∷ [])
unfolding AllFull
AllFull-snoc n [] c h v e l = (v, e, l, tt)
AllFull-snoc n (b ∷ bs) c (vb, eb, lb, h) v e l = (vb, eb, lb, AllFull-snoc n bs c h v e l)

-- The last block, and that the ones before it are full.
pub split_last_lem :
    (n : ℕ) (bs : List Buffer)
    → 0 < length bs
    → IsFilled n bs
    → (front : List Buffer) × (last : Buffer) × (split_last bs ≡ some (front, last))
      × (bs ≡ front ++ last ∷ [])
      × AllFull n front
      × Buffer.IsValid last
      × (last.capacity ≡ n)
unfolding split_last IsFilled AllFull
split_last_lem n [] p h = absurd (omega arith)
split_last_lem n (b ∷ []) p (v, e) = ([], b, refl, refl, tt, v, e)
split_last_lem n (b ∷ c ∷ bs) p (v, e, l, h) =
    let (front, last, s, q, full, vl, el) = split_last_lem n (c ∷ bs) (omega arith) h in
    (b ∷ front, last, rw s refl, ap (λ xs. b ∷ xs) q, (v, e, l, full), vl, el)

span_sizes-spans : (n : ℕ) (bs : List Buffer) → IsFilled n bs → span_sizes bs ≡ length (spans bs)
unfolding span_sizes spans
span_sizes-spans n [] h = refl
span_sizes-spans n (b ∷ bs) h = omega (
  arith,
  length-append (valid_span b) (spans bs),
  length-valid_span b (IsFilled-head n b bs h).0,
  span_sizes-spans n bs (IsFilled-tail n b bs h),
)

-- The file's size is the number of the bytes that it holds.
pub file_size-contents : (f : InMemRw) → IsValid f → file_size f ≡ length (contents f)
unfolding file_size contents
file_size-contents f v = span_sizes-spans f.block_size f.blocks v.filled
