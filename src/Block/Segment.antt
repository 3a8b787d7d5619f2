-- ===== src/Block/Segment.antt =====
-- `block_segment` of persistent/block.cc: the parser of one segment, the comparisons with its
-- public prefix, and the entries that it yields.
use frenzy_kv.Prelude.{
  ℕ, zero, suc, ◌+◌, [], ◌∷◌, List, length, take, drop, ltb, leb, ◌==◌, if◌then◌else◌, Bool, true,
  false,
}
use frenzy_kv.Prelude.{Result, ok, err, out_of_bounds, exception, stuck, ◌>>=◌}
use Prim.Native.Nat.{Ordering}
use mathlib.Core.List.{reverse}
use frenzy_kv.Bytes.{Bytes, read, advance, bytes_eq}
use frenzy_kv.Bytes.Endian.{BigEndian, decode}
use frenzy_kv.Bytes.Order.{memcmp_comparator}
use frenzy_kv.Kv.Key.{user_key_length_bytes_size}
use frenzy_kv.Kv.Value
use frenzy_kv.Kv.Entry.{KvEntry, serialized_user_value_from_value_len}

abbrev pub bs_ppl : ℕ
bs_ppl = 2

abbrev pub bs_ril : ℕ
bs_ril = 4

-- `parse_result_t`
pub data ParseResult : Type 0 where
  success partial error : ParseResult

-- `storage` holds the bytes of `m_storage`, and `items` those of the spans in `m_items`.
pub record Segment : Type 0 where
  pub storage : Bytes
  pub prefix : Bytes
  pub items : List Bytes
  pub parse_result : ParseResult

-- The `n` bytes behind the offset.
unfoldable pub read_at : ℕ → ℕ → Bytes → Result Bytes
read_at offset n mem = do p ← advance offset mem; read n p

-- `filled_with_zero<bs_ril>`
unfoldable pub filled_with_zero : ℕ → Bytes → Result Bool
filled_with_zero offset mem = do b ← read_at offset bs_ril mem; ok (bytes_eq b (0 ∷ 0 ∷ 0 ∷ 0 ∷ []))

-- `sentinal` is the segment's size, and offsets count from its first byte. `mem` goes on to the end
-- of the storage that the segment lies in.
unfoldable pub consumed_completely : ℕ → ℕ → Bytes → Result Bool
consumed_completely sentinal current mem =
    if leb sentinal current then ok true else filled_with_zero current mem

module _ ⦃e : BigEndian⦄ where
  -- The loop of `parse`: the offset that it stops at, and the items. A round moves on by four
  -- bytes at least.
  unfoldable pub items_loop : ℕ → ℕ → ℕ → Bytes → Result (ℕ × List Bytes)
  items_loop zero sentinal current mem = err stuck
  items_loop (suc fuel) sentinal current mem = do
    done ← consumed_completely sentinal current mem
    elim done [
      | true ↦ ok (current, [])
      | false ↦ (do
        ril ← read_at current bs_ril mem
        let r = decode ril
        (last, items) ← items_loop fuel sentinal (current + bs_ril + r) mem
        ok (last, take r (drop (current + bs_ril) mem) ∷ items))
    ]

  -- The end of `parse`: behind the items stand four zeros, which belong to the segment. A span
  -- cannot be made longer than it is.
  unfoldable pub parse_end : ℕ → Bytes → Bytes → ℕ × List Bytes → Result Segment
  parse_end sentinal mem prefix (current, items) =
      let whole = take sentinal mem in
      if ltb sentinal current
      then ok (record { storage = whole; prefix = prefix; items = items; parse_result = partial })
      else do
        zeros ← filled_with_zero current mem
        if zeros
            then (if ltb sentinal (current + 4)
                then err out_of_bounds
                else ok (record {
                  storage = take (current + 4) mem;
                  prefix = prefix;
                  items = items;
                  parse_result = success;
                }))
            else ok
                (record { storage = whole; prefix = prefix; items = items; parse_result = success })

  -- The constructor on the span of `size` bytes at `mem`; it throws what `parse` calls an error.
  unfoldable pub parse_segment : ℕ → Bytes → Result Segment
  parse_segment size mem = do
    ppl_bytes ← read bs_ppl mem
    let ppl = decode ppl_bytes
    if ppl == 0 then err exception else do
      prefix ← read_at bs_ppl ppl mem
      found ← items_loop (suc size) size (bs_ppl + ppl) mem
      parse_end size mem prefix found

  -- One entry of `entries_from_block_segment_impl`.
  unfoldable pub entry_of_item : Bytes → Bytes → Result KvEntry
  entry_of_item user_key item = do
    seq_buffer ← read 4 item
    uv_with_len ← advance 4 item
    uv ← serialized_user_value_from_value_len uv_with_len
    v ← Value.parse uv
    ok (record { key = record { seq = decode seq_buffer; user_key = user_key }; value = v })

  unfoldable pub entries_of_items : Bytes → List Bytes → Result (List KvEntry)
  entries_of_items user_key [] = ok []
  entries_of_items user_key (item ∷ items) = do
    x ← entry_of_item user_key item
    xs ← entries_of_items user_key items
    ok (x ∷ xs)

  unfoldable pub entries_from_block_segment : Segment → Result (List KvEntry)
  entries_from_block_segment seg = do
    user_key ← advance user_key_length_bytes_size seg.prefix
    entries_of_items user_key seg.items

  unfoldable pub entries_from_block_segment_reverse : Segment → Result (List KvEntry)
  entries_from_block_segment_reverse seg = do
    user_key ← advance user_key_length_bytes_size seg.prefix
    entries_of_items user_key (reverse seg.items)

unfoldable pub fit_public_prefix : Bytes → Segment → Bool
fit_public_prefix user_prefix seg =
    if ltb (length seg.prefix) (length user_prefix)
    then false
    else elim (memcmp_comparator user_prefix (take (length user_prefix) seg.prefix)) [
      | Ordering.eq ↦ true
      | _ ↦ false
    ]
