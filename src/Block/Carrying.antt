-- ===== src/Block/Carrying.antt =====
-- A `block_builder` of persistent/block.cc between two calls: what it holds, what the next `add` does
-- to that, and what `finish` makes of it.
use frenzy_kv.Prelude.{
  ℕ, ◌+◌, ◌^◌, ◌≤◌, ◌<◌, ◌≡◌, refl, sym, ap, ◌∙◌, arith, List, [], ◌∷◌, ◌++◌, length, append_assoc,
  ok, Option, inl, inr, length-append, length-append,
}
use frenzy_kv.Bytes.{Bytes}
use frenzy_kv.Bytes.Endian.{BigEndian}
use frenzy_kv.Kv.Key.{SequencedKey}
use frenzy_kv.Kv.Entry.{KvEntry}
use frenzy_kv.Kv.Wire.{user_key_bytes}
use frenzy_kv.Block.Items.{zeros}
use frenzy_kv.Block.Layout.{Parts}
use frenzy_kv.Block.Steps.{IsBlockable, state, add_same, add_first, add_next}
use frenzy_kv.Block.Building.{weight, weight-append, Follows, IsBuilt}
use frenzy_kv.Block.Growing.{Holds, first-IsBuilt, same-IsBuilt, next-IsBuilt}
use frenzy_kv.Block.Content.{IsContent, finish_lem}
use frenzy_kv.Block.RoundTrip.{IsBlockOf, IsSealable, pack_lem}
use frenzy_kv.Block.Builder.{BlockBuilder, BlockOptions, Compressor, new_block_builder, add, finish}

module _ ⦃e : BigEndian⦄ where
  -- A builder with entries, of which the last has the key `last`.
  pub record Carrying (c : Option Compressor) (b : BlockBuilder) (xs : List KvEntry)
      (last : SequencedKey) : Type 0 where
    pub done : List Parts
    pub before : List KvEntry
    pub k : SequencedKey
    pub members : List KvEntry
    pub storage : Bytes
    pub n : ℕ
    pub marks : List ℕ
    pub built : IsBuilt done before k members storage n marks
    pub is : b ≡ state storage k n marks c
    pub all : before ++ members ≡ xs
    pub same_last : last.user_key ≡ k.user_key

  module _ (opt : BlockOptions) (c : Option Compressor) where
    pub add-first_lem :
        (x : KvEntry)
        → IsBlockable x
        → (b : BlockBuilder) × (add opt x.key x.value (new_block_builder c) ≡ ok b)
          × Carrying c b (x ∷ []) x.key
    add-first_lem x h = (
      _,
      add_first opt x c h,
      record {
        done = [];
        before = [];
        k = x.key;
        members = x ∷ [];
        storage = _;
        n = _;
        marks = _;
        built = first-IsBuilt x h;
        is = refl;
        all = refl;
        same_last = refl;
      },
    )

    Follows-same :
        (k last : SequencedKey) (x : KvEntry)
        → last.user_key ≡ k.user_key
        → Follows last x
        → Follows k x
    Follows-same k last x same (inl t) = inl (t ∙ same)
    Follows-same k last x same (inr t) =
        let prefixes : user_key_bytes k ≡ user_key_bytes last = rw same refl in inr (rw prefixes t)

    add_step :
        (b : BlockBuilder) (xs : List KvEntry) (last : SequencedKey) (x : KvEntry)
        (h : Carrying c b xs last)
        → 0 < opt.max_block_segments_number
        → IsBlockable x
        → Follows h.k x
        → weight xs + 8 < 2 ^ 32
        → (b' : BlockBuilder) × (add opt x.key x.value b ≡ ok b')
          × Carrying c b' (xs ++ x ∷ []) x.key
    add_step b xs last x h pos hx (inl same) small = (
      _,
      ap (λ b. add opt x.key x.value b) h.is ∙ add_same opt x h.k h.storage h.n h.marks c hx same,
      record {
        done = h.done;
        before = h.before;
        k = h.k;
        members = h.members ++ x ∷ [];
        storage = _;
        n = _;
        marks = _;
        built = same-IsBuilt h.built x hx same;
        is = refl;
        all = sym (append_assoc h.before h.members (x ∷ [])) ∙ ap (λ ys. ys ++ x ∷ []) h.all;
        same_last = same;
      },
    )
    add_step b xs last x h pos hx (inr above) small =
        let w = h.built in
        let room : length (h.storage ++ zeros) < 2 ^ 32 = omega (
          arith,
          w.size,
          length-append h.storage zeros,
          ap weight h.all,
          weight-append h.before h.members,
          small,
        ) in
        let (more, t, m, unmarked) = add_next opt x h.k h.storage h.n h.marks c hx pos room above in
        (
          _,
          ap (λ b. add opt x.key x.value b) h.is ∙ t,
          record {
            done = _;
            before = h.before ++ h.members;
            k = x.key;
            members = x ∷ [];
            storage = _;
            n = _;
            marks = _;
            built = next-IsBuilt h.built x more hx m;
            is = refl;
            all = ap (λ ys. ys ++ x ∷ []) h.all;
            same_last = refl;
          },
        )

    pub add-more_lem :
        (b : BlockBuilder) (xs : List KvEntry) (last : SequencedKey) (x : KvEntry)
        → Carrying c b xs last
        → 0 < opt.max_block_segments_number
        → IsBlockable x
        → Follows last x
        → weight xs + 8 < 2 ^ 32
        → (b' : BlockBuilder) × (add opt x.key x.value b ≡ ok b')
          × Carrying c b' (xs ++ x ∷ []) x.key
    add-more_lem b xs last x h pos hx follows small =
        add_step b xs last x h pos hx (Follows-same h.k last x h.same_last follows) small

    pub finish-carried_lem :
        (crc32c : Bytes → ℕ) (cap : ℕ) (b : BlockBuilder) (xs : List KvEntry) (last : SequencedKey)
        → Carrying c b xs last
        → IsSealable opt cap c
        → weight xs + 15 < 2 ^ 32
        → weight xs + 6 ≤ cap
        → length xs < 2 ^ 16
        → (content : Bytes) × (block : Bytes) × (finish opt crc32c b ≡ ok block)
          × IsBlockOf crc32c c content block
          × IsContent content xs
          × (length content + 9 < 2 ^ 32)
    finish-carried_lem crc32c cap b xs last h lossless light room few =
        let held : Holds c (ok b) xs = record {
          done = h.done;
          before = h.before;
          k = h.k;
          members = h.members;
          storage = h.storage;
          n = h.n;
          marks = h.marks;
          built = h.built;
          returns = ap ok h.is;
          all = h.all;
        } in
        let (content, f, i, n) = finish_lem opt crc32c c (ok b) xs held light few in
        let (block, p, o) =
          pack_lem opt crc32c cap c content opt.need_compress refl lossless (omega (arith, n, room))
            (omega (arith, n, light)) in
        (content, block, f ∙ p, o, i, omega (arith, n, light))
