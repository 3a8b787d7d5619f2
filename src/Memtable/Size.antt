-- ===== src/Memtable/Size.antt =====
-- The size that the memtable keeps account of.
use frenzy_kv.Prelude.{
  ℕ, ◌+◌, ◌≤◌, ◌<◌, ◌≡◌, refl, arith, List, [], ◌∷◌, leb, ◌⊎◌, inl, inr, Bool-cases,
}
use frenzy_kv.Kv.Entry.{KvEntry}
use frenzy_kv.WriteBatch.{WriteBatch, serialized_size}
use frenzy_kv.Memtable.{
  SkipList, Memtable, ErrorCode, insert_impl, insert_all, could_fit_in, insert,
}

le_or_lt : (a b : ℕ) → (a ≤ b) ⊎ (b < a)
le_or_lt a b = elim (Bool-cases (leb a b)) [
  | inl h ↦ inl (ground arith)
  | inr h ↦ inr (ground arith)
]

module _ {T : Type 0} ⦃s : SkipList T⦄ where
  insert_all_lem :
      (xs : List KvEntry) (m : Memtable T)
      → ((insert_all xs m).size_bytes ≡ serialized_size xs + m.size_bytes)
        × ((insert_all xs m).bound_size_bytes ≡ m.bound_size_bytes)
  unfolding insert_all insert_impl serialized_size
  insert_all_lem [] m = (omega arith, refl)
  insert_all_lem (x ∷ xs) m =
      let (a, b) = insert_all_lem xs (insert_impl x m) in (omega (arith, a), b)

  insert_fits :
      (b : WriteBatch) (m : Memtable T)
      → serialized_size b.entries + m.size_bytes ≤ m.bound_size_bytes
      → insert b m ≡ (ErrorCode.no_error, insert_all b.entries m)
  unfolding insert could_fit_in
  insert_fits b m h = ground arith

  insert_over :
      (b : WriteBatch) (m : Memtable T)
      → m.bound_size_bytes < serialized_size b.entries + m.size_bytes
      → insert b m ≡ (ErrorCode.out_of_range, m)
  unfolding insert could_fit_in
  insert_over b m h = ground arith

  abbrev pub IsInserted : WriteBatch → Memtable T → Type 0
  IsInserted b m =
      (serialized_size b.entries + m.size_bytes ≤ m.bound_size_bytes)
      × ((insert b m).0 ≡ ErrorCode.no_error)
      × ((insert b m).1.size_bytes ≡ serialized_size b.entries + m.size_bytes)

  abbrev pub IsRefused : WriteBatch → Memtable T → Type 0
  IsRefused b m =
      (m.bound_size_bytes < serialized_size b.entries + m.size_bytes)
      × (insert b m ≡ (ErrorCode.out_of_range, m))

  -- A memtable within its bound stays within it. A batch that fits is inserted and counted with its
  -- serialized size; one that does not is refused with an error and changes nothing.
  pub insert-size :
      (b : WriteBatch) (m : Memtable T)
      → m.size_bytes ≤ m.bound_size_bytes
      → ((insert b m).1.size_bytes ≤ (insert b m).1.bound_size_bytes)
        × (IsInserted b m ⊎ IsRefused b m)
  insert-size b m h =
      elim (le_or_lt (serialized_size b.entries + m.size_bytes) m.bound_size_bytes) [
        | inl fits ↦
            let (size, bound) = insert_all_lem b.entries m in
            rw (insert_fits b m fits) (omega (arith, size, bound), inl (fits, refl, size))
        | inr over ↦ rw (insert_over b m over) (h, inr (over, refl))
      ]
