-- ===== src/Block/Building.antt =====
-- What the storage of a `block_builder` of persistent/block.cc holds, entry after entry.
use frenzy_kv.Prelude.{
  Result, err, ℕ, ◌+◌, ◌*◌, ◌^◌, ◌≤◌, ◌<◌, ◌≡◌, refl, sym, ap, ◌∙◌, List, [], ◌∷◌, ◌++◌, All, map,
  arith, length, append_assoc, append-nil, ok, ◌>>=◌, inl, inr, ◌⊎◌,
}
use mathlib.Core.List.{map-append}
use Prim.Native.Nat.{Ordering}
use frenzy_kv.Bytes.{Bytes, advance-append}
use frenzy_kv.Bytes.Endian.{BigEndian, encode, length-encode}
use frenzy_kv.Bytes.Order.{memcmp_comparator}
use frenzy_kv.Kv.Key.{SequencedKey, user_key_len}
use frenzy_kv.Kv.Value
use frenzy_kv.Kv.Entry.{KvEntry}
use frenzy_kv.Kv.Wire.{user_key_bytes, length-user_key_bytes}
use frenzy_kv.Kv.RoundTrip.{stored}
use frenzy_kv.Block.Segment.{Segment, entries_from_block_segment}
use frenzy_kv.Block.Reader.{entries_of_segments}
use frenzy_kv.Block.SegmentRoundTrip.{
  IsMember, item_rep, length-item_rep, members-IsItem, entries_of_items_lem,
}
use frenzy_kv.Block.Items.{item_bytes, items_bytes, segment_front, zeros, length-item_bytes}
use frenzy_kv.Block.Layout.{Parts, IsParts, Marks, parts_bytes, segment_of}

-- What an entry adds to a block at most.
unfoldable pub weight : List KvEntry → ℕ
weight [] = 0
weight (x ∷ xs) = length x.key.user_key + Value.serialized_bytes_size x.value + 20 + weight xs

pub weight-append : (xs ys : List KvEntry) → weight (xs ++ ys) ≡ weight xs + weight ys
unfolding weight
weight-append [] ys = omega arith
weight-append (x ∷ xs) ys = omega (arith, weight-append xs ys)

module _ ⦃e : BigEndian⦄ where
  -- An entry may come behind one with the key `k`.
  abbrev pub Follows : SequencedKey → KvEntry → Type 0
  Follows k x =
      (x.key.user_key ≡ k.user_key)
      ⊎ (memcmp_comparator (user_key_bytes x.key) (user_key_bytes k) ≡ Ordering.gt)

  abbrev pub Ascends : SequencedKey → List KvEntry → Type 0
  Ascends k [] = Unit {0}
  Ascends k (x ∷ xs) = Follows k x × Ascends x.key xs

  pub ascends_same :
      (k : SequencedKey) (x : KvEntry) (xs : List KvEntry)
      → x.key.user_key ≡ k.user_key
      → Ascends x.key xs
      → Ascends k xs
  ascends_same k x [] same h = tt
  ascends_same k x (y ∷ ys) same (inl t, hs) = (inl (t ∙ same), hs)
  ascends_same k x (y ∷ ys) same (inr t, hs) =
      let prefixes : user_key_bytes k ≡ user_key_bytes x.key = rw same refl in
      (inr (rw prefixes t), hs)

  abbrev pub open_part : SequencedKey → List KvEntry → Parts
  open_part k members = (user_key_bytes k, map item_rep members)

  -- A builder with the segments `done`, of the entries `before`, and an open one of `members`.
  pub record IsBuilt (done : List Parts) (before : List KvEntry) (k : SequencedKey)
      (members : List KvEntry) (storage : Bytes) (n : ℕ) (marks : List ℕ) : Type 0 where
    pub bytes :
        storage
        ≡ zeros
          ++ (parts_bytes done
              ++ (segment_front (user_key_bytes k) ++ items_bytes (map item_rep members)))
    pub key_fits : length k.user_key + 2 < 2 ^ 16
    pub of_key : All (IsMember k.user_key) members
    pub parts : All IsParts done
    pub means : entries_of_segments (map segment_of done) ≡ ok (map stored before)
    pub noted : Marks 4 (done ++ open_part k members ∷ []) marks
    pub others : List ℕ
    pub first : marks ≡ 4 ∷ others
    pub counted : 0 < n
    pub size : length storage + 4 * length marks ≤ 4 + (weight before + weight members)
    pub few : length marks ≤ length before + length members

  pub items_bytes-append :
      (is js : List Bytes) → items_bytes (is ++ js) ≡ items_bytes is ++ items_bytes js
  items_bytes-append [] js = refl
  items_bytes-append (i ∷ is) js =
      ap (λ b. item_bytes i ++ b) (items_bytes-append is js)
      ∙ sym (append_assoc (item_bytes i) (items_bytes is) (items_bytes js))

  pub items_snoc :
      (members : List KvEntry) (x : KvEntry)
      → items_bytes (map item_rep (members ++ x ∷ []))
        ≡ items_bytes (map item_rep members) ++ item_bytes (item_rep x)
  items_snoc members x =
      ap items_bytes (map-append item_rep members (x ∷ []))
      ∙ items_bytes-append (map item_rep members) (item_rep x ∷ [])
      ∙ ap (λ b. items_bytes (map item_rep members) ++ b) (append-nil (item_bytes (item_rep x)))

  pub length-item :
      (x : KvEntry) → length (item_bytes (item_rep x)) ≡ 8 + Value.serialized_bytes_size x.value
  length-item x = omega (arith, length-item_bytes (item_rep x), length-item_rep x)

  -- The segment that is still open, once it is closed.
  pub open_part-IsParts :
      (k : SequencedKey) (members : List KvEntry)
      → length k.user_key + 2 < 2 ^ 16
      → All (IsMember k.user_key) members
      → IsParts (open_part k members)
  open_part-IsParts k members fits h = (
    omega (arith, length-user_key_bytes k),
    omega (arith, length-user_key_bytes k),
    members-IsItem k.user_key members h,
  )

  pub entries_of_part :
      (k : SequencedKey) (members : List KvEntry)
      → All (IsMember k.user_key) members
      → entries_from_block_segment (segment_of (open_part k members)) ≡ ok (map stored members)
  unfolding entries_from_block_segment
  entries_of_part k members h =
      rw (advance-append 2 (encode 2 (user_key_len k)) k.user_key (length-encode 2 _))
        (entries_of_items_lem k.user_key members h)

  right_unit : (r : Result (List KvEntry)) → r ≡ (r >>= λ xs. ok xs)
  right_unit (err x) = refl
  right_unit (ok xs) = refl

  bind_append :
      (r rs ts : Result (List KvEntry))
      → (r >>= λ xs. (rs >>= λ ys. ts >>= λ zs. ok (ys ++ zs)) >>= λ rest. ok (xs ++ rest))
        ≡ ((r >>= λ xs. rs >>= λ rest. ok (xs ++ rest)) >>= λ ys. ts >>= λ zs. ok (ys ++ zs))
  bind_append (err x) rs ts = refl
  bind_append (ok xs) (err x) ts = refl
  bind_append (ok xs) (ok ys) (err x) = refl
  bind_append (ok xs) (ok ys) (ok zs) = ap ok (sym (append_assoc xs ys zs))

  pub entries_of_segments-append :
      (segs more : List Segment)
      → entries_of_segments (segs ++ more)
        ≡ (entries_of_segments segs >>= λ ys. entries_of_segments more >>= λ zs. ok (ys ++ zs))
  unfolding entries_of_segments
  entries_of_segments-append [] more = right_unit (entries_of_segments more)
  entries_of_segments-append (seg ∷ segs) more =
      ap (λ r. entries_from_block_segment seg >>= λ xs. r >>= λ rest. ok (xs ++ rest))
        (entries_of_segments-append segs more)
      ∙ bind_append (entries_from_block_segment seg) (entries_of_segments segs)
          (entries_of_segments more)

  -- Closed segments and one behind them.
  pub entries_snoc :
      (done : List Parts) (before : List KvEntry) (k : SequencedKey) (members : List KvEntry)
      → entries_of_segments (map segment_of done) ≡ ok (map stored before)
      → All (IsMember k.user_key) members
      → entries_of_segments (map segment_of (done ++ open_part k members ∷ []))
        ≡ ok (map stored (before ++ members))
  entries_snoc done before k members means h =
      let last : entries_of_segments (segment_of (open_part k members) ∷ [])
          ≡ ok (map stored members) =
        unfold entries_of_segments in
        rw (entries_of_part k members h) (ap ok (append-nil (map stored members))) in
      ap entries_of_segments (map-append segment_of done (open_part k members ∷ []))
      ∙ entries_of_segments-append (map segment_of done) (segment_of (open_part k members) ∷ [])
      ∙ rw means (rw last (ap ok (sym (map-append stored before members))))
