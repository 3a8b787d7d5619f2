-- ===== src/Block/Run.antt =====
-- A run of `block_builder` in persistent/block.cc over the entries of a block, up to the content of
-- the block.
use frenzy_kv.Prelude.{
  ℕ, ◌+◌, ◌^◌, ◌<◌, ◌≡◌, refl, sym, ap, ◌∙◌, List, [], ◌∷◌, ◌++◌, All, arith, length, length-append,
  append_assoc, append-nil, Result, ◌>>=◌, Option, inl, inr,
}
use frenzy_kv.Bytes.{Bytes}
use frenzy_kv.Bytes.Endian.{BigEndian}
use frenzy_kv.Kv.Key.{SequencedKey}
use frenzy_kv.Kv.Entry.{KvEntry}
use frenzy_kv.Block.Items.{zeros}
use frenzy_kv.Block.Layout.{Parts}
use frenzy_kv.Block.Steps.{IsBlockable, state, add_same, add_first, add_next}
use frenzy_kv.Block.Building.{weight, weight-append, Ascends, ascends_same, IsBuilt}
use frenzy_kv.Block.Growing.{Holds, first-IsBuilt, same-IsBuilt, next-IsBuilt}
use frenzy_kv.Block.Builder.{BlockBuilder, BlockOptions, Compressor, new_block_builder, add_entries}

module _ ⦃e : BigEndian⦄ where
  Holds-path :
      {c : Option Compressor} {r q : Result BlockBuilder} {xs ys : List KvEntry}
      → r ≡ q
      → ys ≡ xs
      → Holds c q ys
      → Holds c r xs
  Holds-path p t h = rw p (rw (sym t) h)

  module _ (opt : BlockOptions) (c : Option Compressor)
      (pos : 0 < opt.max_block_segments_number) where
    add_entries_lem :
        (xs : List KvEntry) {done : List Parts} {before : List KvEntry} {k : SequencedKey}
        {members : List KvEntry} {storage : Bytes} {n : ℕ} {marks : List ℕ}
        → IsBuilt done before k members storage n marks
        → All IsBlockable xs
        → Ascends k xs
        → weight before + weight members + weight xs + 8 < 2 ^ 32
        → Holds c (add_entries opt xs (state storage k n marks c)) ((before ++ members) ++ xs)
    unfolding add_entries
    add_entries_lem [] {done} {before} {k} {members} {storage} {n} {marks} b h up small = record {
      done = done;
      before = before;
      k = k;
      members = members;
      storage = storage;
      n = n;
      marks = marks;
      built = b;
      returns = refl;
      all = sym (append-nil (before ++ members));
    }
    add_entries_lem (x ∷ xs) {done} {before} {k} {members} {storage} {n} {marks} b (h, hs)
          (inl same, up) small =
        let grown = members ++ x ∷ [] in
        let bound : weight before + weight grown + weight xs + 8 < 2 ^ 32 =
          omega (arith, weight-append members (x ∷ []), weight-append (x ∷ []) xs, small) in
        let later =
          add_entries_lem xs (same-IsBuilt b x h same) hs (ascends_same k x xs same up) bound in
        let order : (before ++ grown) ++ xs ≡ (before ++ members) ++ (x ∷ xs) =
          append_assoc before grown xs
          ∙ ap (λ ys. before ++ ys) (append_assoc members (x ∷ []) xs)
          ∙ sym (append_assoc before members (x ∷ xs)) in
        Holds-path
          (ap (λ r. r >>= λ b'. add_entries opt xs b') (add_same opt x k storage n marks c h same))
          order later
    add_entries_lem (x ∷ xs) {done} {before} {k} {members} {storage} {n} {marks} b (h, hs)
          (inr above, up) small =
        let room : length (storage ++ zeros) < 2 ^ 32 =
          omega (arith, b.size, length-append storage zeros, small) in
        let (more, e, m, unmarked) = add_next opt x k storage n marks c h pos room above in
        let bound : weight (before ++ members) + weight (x ∷ []) + weight xs + 8 < 2 ^ 32 =
          omega (arith, weight-append before members, weight-append (x ∷ []) xs, small) in
        let later = add_entries_lem xs (next-IsBuilt b x more h m) hs up bound in
        Holds-path (ap (λ r. r >>= λ b'. add_entries opt xs b') e)
          (append_assoc (before ++ members) (x ∷ []) xs) later

    -- From an empty builder on.
    pub add_all_lem :
        (x : KvEntry) (xs : List KvEntry)
        → All IsBlockable (x ∷ xs)
        → Ascends x.key xs
        → weight (x ∷ xs) + 8 < 2 ^ 32
        → Holds c (add_entries opt (x ∷ xs) (new_block_builder c)) (x ∷ xs)
    unfolding add_entries
    add_all_lem x xs (h, hs) up small =
        let bound : weight [] + weight (x ∷ []) + weight xs + 8 < 2 ^ 32 =
          omega (arith, weight-append [] (x ∷ []), weight-append (x ∷ []) xs, small) in
        Holds-path (ap (λ r. r >>= λ b'. add_entries opt xs b') (add_first opt x c h)) refl
          (add_entries_lem xs (first-IsBuilt x h) hs up bound)
