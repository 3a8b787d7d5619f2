-- ===== src/Io/InMem.antt =====
-- `in_mem_rw` of include/frenzykv/io/in_mem_rw.h and io/in_mem_rw.cc. A read gives the bytes that
-- it copies to the front of its destination: their number is the number that the source returns.
use frenzy_kv.Prelude.{
  ℕ, zero, suc, ◌+◌, ◌-◌, ◌*◌, ◌/◌, ◌%◌, List, [], ◌∷◌, ◌++◌, Bool, true, false, not, Option, none,
  some, ◌==◌, ltb, leb, if◌then◌else◌, Result, ok, err, stuck, out_of_bounds, ◌>>=◌, ◌>>◌, assert,
  length, take, drop, min,
}
use frenzy_kv.Bytes.{Bytes, advance, overwrite}
use frenzy_kv.Io.Buffer
use frenzy_kv.Io.Buffer.{Buffer, new_buffer, valid_span, write_to_span, commit}
pub mod Content
pub mod Appending
pub mod Reading

-- `cursor` is that of the `seq_readable_context`.
pub record InMemRw : Type 0 where
  pub blocks : List Buffer
  pub block_size : ℕ
  pub cursor : ℕ

unfoldable pub split_last : List Buffer → Option (List Buffer × Buffer)
split_last [] = none
split_last (b ∷ bs) =
    let rest = split_last bs in
    elim rest [ none ↦ some ([], b) | some (front, last) ↦ some (b ∷ front, last) ]

unfoldable pub span_sizes : List Buffer → ℕ
span_sizes [] = 0
span_sizes (b ∷ bs) = Buffer.size b + span_sizes bs

unfoldable pub file_size : InMemRw → ℕ
unfolding span_sizes
file_size f = span_sizes f.blocks

-- `m_blocks[idx++].valid_span()` while it is needed and there are blocks.
unfoldable pub following_spans : ℕ → ℕ → List Buffer → List Bytes
following_spans selected_bytes dest_size [] = []
following_spans selected_bytes dest_size (b ∷ bs) =
    let sp = valid_span b in
    let rest = following_spans (selected_bytes + length sp) dest_size bs in
    if ltb selected_bytes dest_size then sp ∷ rest else []

unfoldable pub spans_from : ℕ → ℕ → List Buffer → Result (List Bytes)
spans_from first_cursor dest_size [] = err out_of_bounds
spans_from first_cursor dest_size (b ∷ bs) = do
  first_span ← advance first_cursor (valid_span b)
  ok (first_span ∷ following_spans (length first_span) dest_size bs)

-- An index behind the blocks and a cursor behind the valid bytes are out of bounds.
unfoldable pub target_spans : ℕ → ℕ → InMemRw → Result (List Bytes)
target_spans offset dest_size f =
    if f.block_size == 0
    then err out_of_bounds
    else spans_from (offset % f.block_size) dest_size (drop (offset / f.block_size) f.blocks)

unfoldable pub append_to_dest : ℕ → Bytes → Bytes
append_to_dest dest_size src = take (min dest_size (length src)) src

unfoldable pub read_spans : ℕ → List Bytes → Bytes
read_spans dest_size [] = []
read_spans dest_size (s ∷ ss) =
    let readed = append_to_dest dest_size s in
    let rest = read_spans (dest_size - length readed) ss in
    if length readed == 0 then [] else readed ++ rest

unfoldable pub read : ℕ → ℕ → InMemRw → Result Bytes
read dest_size offset f = do
  spans ← target_spans offset dest_size f
  ok (read_spans dest_size spans)

unfoldable pub read_next : ℕ → InMemRw → Result (Bytes × InMemRw)
read_next dest_size f = do
  readed ← read dest_size f.cursor f
  ok (readed, record f { cursor = f.cursor + length readed })

unfoldable pub dump_spans {ℓ} :
    {W : Type ℓ} → (Bytes → W → Result (ℕ × W)) → ℕ → List Buffer → W → Result (ℕ × W)
dump_spans append_to wrote [] w = ok (wrote, w)
dump_spans append_to wrote (b ∷ bs) w =
    let sp = valid_span b in
    elim (length sp == 0) [
      | true ↦ dump_spans append_to wrote bs w
      | false ↦ append_to sp w >>= λ (cur_wrote, after). elim (cur_wrote == 0) [
        | true ↦ ok (0, after)
        | false ↦ dump_spans append_to (wrote + cur_wrote) bs after
      ]
    ]

-- The early return leaves out the assertion.
unfoldable pub dump_to {ℓ} :
    {W : Type ℓ} → (Bytes → W → Result (ℕ × W)) → InMemRw → W → Result (ℕ × W)
dump_to append_to f w = do
  (wrote, after) ← dump_spans append_to 0 f.blocks w
  if wrote == 0 then ok (0, after) else assert (wrote == file_size f) >> ok (wrote, after)

-- `allocate` gives the memory of the blocks.
module _ (allocate : ℕ → Bytes) where
  unfoldable pub new_in_mem_rw : ℕ → InMemRw
  new_in_mem_rw block_size = record {
    blocks = new_buffer allocate block_size ∷ [];
    block_size = block_size;
    cursor = 0;
  }

  -- The blocks before the writable one, and that one.
  unfoldable pub next_writable_buffer : InMemRw → Result (List Buffer × Buffer)
  next_writable_buffer f = elim (split_last f.blocks) [
    | none ↦ err out_of_bounds
    | some (front, last) ↦
        if last.left == 0 then ok (f.blocks, new_buffer allocate f.block_size) else ok (front, last)
  ]

  unfoldable pub writable_span : InMemRw → Result Bytes
  writable_span f = do (front, last) ← next_writable_buffer f; ok (Buffer.writable_span last)

  -- The caller's writes to the writable span, and the commit of them.
  unfoldable pub write_and_commit : (Bytes → Bytes) → ℕ → InMemRw → Result InMemRw
  write_and_commit write wrote_len f = do
    (front, last) ← next_writable_buffer f
    after ← commit wrote_len (write_to_span write last)
    ok (record f { blocks = front ++ after ∷ [] })

  unfoldable pub append_loop : ℕ → Bytes → InMemRw → Result InMemRw
  append_loop zero buffer f = err stuck
  append_loop (suc fuel) buffer f = do
    (front, last) ← next_writable_buffer f
    let appended = min last.left (length buffer)
    (fits, after) ← Buffer.append (take appended buffer) last
    let next = record f { blocks = front ++ after ∷ [] }
    let buffer' = drop appended buffer
    elim (length buffer' == 0) [ true ↦ ok next | false ↦ append_loop fuel buffer' next ]

  -- With a positive block size every round but the first appends a byte at least.
  unfoldable pub append : Bytes → InMemRw → Result (ℕ × InMemRw)
  append buffer f = do
    after ← append_loop (suc (suc (length buffer))) buffer f
    ok (length buffer, after)
