-- ===== src/WriteBatch/Sequence.antt =====
-- `set_first_sequence_num` numbers a batch's entries one after the other.
use frenzy_kv.Prelude.{
  ℕ, zero, suc, ◌+◌, ◌-◌, ◌^◌, ◌≤◌, ◌<◌, ◌≡◌, refl, ap, ◌∙◌, List, [], ◌∷◌, map, arith, length,
}
use frenzy_kv.Kv.Key.{set_sequence_number}
use frenzy_kv.Kv.Entry.{KvEntry}
use frenzy_kv.Bytes.{Bytes}
use frenzy_kv.Kv.Value.{UserValue}
use frenzy_kv.WriteBatch.{
  WriteBatch, count, set_entry_seq, repropogate, set_first_sequence_num, last_sequence_num,
}

-- n, n + 1, … : `k` numbers.
abbrev pub iota : ℕ → ℕ → List ℕ
iota n zero = []
iota n (suc k) = n ∷ iota (n + 1) k

abbrev pub seqs : List KvEntry → List ℕ
seqs = map (λ x. x.key.seq)

-- What an entry says, without its number.
abbrev pub contents : List KvEntry → List (Bytes × UserValue)
contents = map (λ x. (x.key.user_key, x.value))

seqs-repropogate :
    (n i : ℕ) (xs : List KvEntry)
    → n + i + length xs ≤ 2 ^ 32
    → seqs (repropogate n i xs) ≡ iota (n + i) (length xs)
unfolding repropogate set_entry_seq set_sequence_number
seqs-repropogate n i [] h = refl
seqs-repropogate n i (x ∷ xs) h = ground (arith, seqs-repropogate n (i + 1) xs)

contents-repropogate : (n i : ℕ) (xs : List KvEntry) → contents (repropogate n i xs) ≡ contents xs
unfolding repropogate set_entry_seq set_sequence_number
contents-repropogate n i [] = refl
contents-repropogate n i (x ∷ xs) =
    ap (λ t. (x.key.user_key, x.value) ∷ t) (contents-repropogate n (i + 1) xs)

length-repropogate : (n i : ℕ) (xs : List KvEntry) → length (repropogate n i xs) ≡ length xs
unfolding repropogate
length-repropogate n i [] = refl
length-repropogate n i (x ∷ xs) = ap suc (length-repropogate n (i + 1) xs)

-- While the numbers fit 32 bits the entries of a batch that is not empty get n, n + 1, … in their order, and nothing else of
-- them changes; the last number that the batch reports is the last entry's.
pub set_first_sequence_num_lem :
    (n : ℕ) (b : WriteBatch)
    → 0 < count b
    → n + count b ≤ 2 ^ 32
    → (seqs (set_first_sequence_num n b).entries ≡ iota n (count b))
      × (contents (set_first_sequence_num n b).entries ≡ contents b.entries)
      × (last_sequence_num (set_first_sequence_num n b) ≡ n + count b - 1)
unfolding set_first_sequence_num last_sequence_num
set_first_sequence_num_lem n b pos h = (
  seqs-repropogate n 0 b.entries (omega arith) ∙ ap (λ k. iota k (count b)) (omega arith),
  contents-repropogate n 0 b.entries,
  omega (arith, length-repropogate n 0 b.entries),
)
