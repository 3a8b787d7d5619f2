-- ===== src/Db/Levels.antt =====
-- The files of a version in the order in which `db_local::find_from_ssts` of db/db_local.cc asks
-- them, and the best of their answers.
use frenzy_kv.Prelude.{
  ◌≡◌, ◌≢◌, ◌≤◌, ◌<◌, refl, ap, sym, ◌∙◌, arith, List, [], ◌∷◌, ◌++◌, Option, none, some, Bool,
  true, false, Bool-cases, inl, inr, ltb, leb, ◌&&◌, if◌then◌else◌, All,
}
use frenzy_kv.Bytes.{eq_of_bytes_eq, bytes_eq_refl}
use frenzy_kv.Kv.Key.{SequencedKey, key_less}
use frenzy_kv.Kv.Entry.{KvEntry}
use frenzy_kv.Version.{FileRep}
use frenzy_kv.Compaction.Lookup.{first_of}
use frenzy_kv.Memtable.{last_less_equal}
use frenzy_kv.Memtable.Visible.{sees, same_user-less}
use frenzy_kv.Db.{chunk_with, chunk_by_level}

unfoldable pub flat : List (List FileRep) → List FileRep
flat [] = []
flat (c ∷ cs) = c ++ flat cs

flat-chunk_with : (f : FileRep) (cs : List (List FileRep)) → flat (chunk_with f cs) ≡ f ∷ flat cs
unfolding flat chunk_with
flat-chunk_with f [] = refl
flat-chunk_with f ([] ∷ cs) = refl
flat-chunk_with f ((g ∷ gs) ∷ cs) = ground arith

-- Cutting the files into levels keeps them and their order.
pub flat-chunk_by_level : (fs : List FileRep) → flat (chunk_by_level fs) ≡ fs
unfolding flat chunk_by_level
flat-chunk_by_level [] = refl
flat-chunk_by_level (f ∷ fs) =
    flat-chunk_with f (chunk_by_level fs) ∙ ap (λ xs. f ∷ xs) (flat-chunk_by_level fs)

-- The version with the greater sequence number.
unfoldable pub best : Option KvEntry → Option KvEntry → Option KvEntry
best none o = o
best (some x) none = some x
best (some x) (some y) = if ltb x.key.seq y.key.seq then some y else some x

unfoldable pub best_of : List KvEntry → Option KvEntry
best_of [] = none
best_of (x ∷ xs) = best (some x) (best_of xs)

-- Insertion into a list that is sorted by key.
unfoldable pub insert_pair : KvEntry → List KvEntry → List KvEntry
insert_pair x [] = x ∷ []
insert_pair x (y ∷ ys) =
    let rest = insert_pair x ys in if key_less x.key y.key then x ∷ y ∷ ys else y ∷ rest

unfoldable pub by_key : List KvEntry → List KvEntry
by_key [] = []
by_key (x ∷ xs) = insert_pair x (by_key xs)

abbrev pub Sees : SequencedKey → KvEntry → Type 0
Sees k x = sees k x ≡ true

Sees-less :
    (k : SequencedKey) (x y : KvEntry)
    → Sees k x
    → Sees k y
    → key_less x.key y.key ≡ ltb x.key.seq y.key.seq
Sees-less k x y h l = same_user-less x.key y.key (
    ground (
      arith,
      eq_of_bytes_eq x.key.user_key k.user_key,
      eq_of_bytes_eq y.key.user_key k.user_key,
      bytes_eq_refl k.user_key,
    ))

Sees-le : (k : SequencedKey) (x : KvEntry) → Sees k x → key_less k x.key ≡ false
Sees-le k x h = same_user-less k x.key (ground arith) ∙ ground arith

unfoldable pub ascending : List KvEntry → Bool
ascending [] = true
ascending (x ∷ []) = true
ascending (x ∷ y ∷ ys) = leb x.key.seq y.key.seq && ascending (y ∷ ys)

insert_pair-Sees :
    (k : SequencedKey) (x : KvEntry) (ys : List KvEntry)
    → Sees k x
    → All (Sees k) ys
    → All (Sees k) (insert_pair x ys)
unfolding insert_pair
insert_pair-Sees k x [] h hs = (h, tt)
insert_pair-Sees k x (y ∷ ys) h (hy, hs) = elim (Bool-cases (key_less x.key y.key)) [
  | inl less ↦ rw less (h, (hy, hs))
  | inr more ↦ rw more (hy, insert_pair-Sees k x ys h hs)
]

by_key-Sees : (k : SequencedKey) (xs : List KvEntry) → All (Sees k) xs → All (Sees k) (by_key xs)
unfolding by_key
by_key-Sees k [] h = tt
by_key-Sees k (x ∷ xs) (h, hs) = insert_pair-Sees k x (by_key xs) h (by_key-Sees k xs hs)

insert_pair-ascending :
    (k : SequencedKey) (x : KvEntry) (ys : List KvEntry)
    → Sees k x
    → All (Sees k) ys
    → ascending ys ≡ true
    → ascending (insert_pair x ys) ≡ true
unfolding ascending insert_pair
insert_pair-ascending k x [] h hs a = refl
insert_pair-ascending k x (y ∷ []) h (hy, hs) a = ground (arith, Sees-less k x y h hy)
insert_pair-ascending k x (y ∷ z ∷ zs) h (hy, (hz, hs)) a = ground (
  arith,
  Sees-less k x y h hy,
  Sees-less k x z h hz,
  insert_pair-ascending k x (z ∷ zs) h (hz, hs),
)

by_key-ascending :
    (k : SequencedKey) (xs : List KvEntry) → All (Sees k) xs → ascending (by_key xs) ≡ true
unfolding by_key
by_key-ascending k [] h = unfold ascending in refl
by_key-ascending k (x ∷ xs) (h, hs) =
    insert_pair-ascending k x (by_key xs) h (by_key-Sees k xs hs) (by_key-ascending k xs hs)

seen_last :
    (k : SequencedKey) (y : KvEntry) (ys : List KvEntry)
    → Sees k y
    → last_less_equal k (y ∷ ys) ≡ first_of (last_less_equal k ys) (some y)
unfolding last_less_equal
seen_last k y ys h = rw (Sees-le k y h) refl

last-ge :
    (k : SequencedKey) (y : KvEntry) (ys : List KvEntry) (z : KvEntry)
    → All (Sees k) (y ∷ ys)
    → ascending (y ∷ ys) ≡ true
    → last_less_equal k (y ∷ ys) ≡ some z
    → y.key.seq ≤ z.key.seq
unfolding ascending first_of
last-ge k y [] z (h, hs) a e = ground (arith, seen_last k y [] h, unfolded k)
  where
    unfolded : (k : SequencedKey) → last_less_equal k [] ≡ none
    unfolded k = unfold last_less_equal in refl
last-ge k y (w ∷ ws) z (h, (hw, hs)) a e =
    ground (arith, seen_last k y (w ∷ ws) h, last-ge k w ws z (hw, hs))

last_some :
    (k : SequencedKey) (y : KvEntry) (ys : List KvEntry)
    → Sees k y
    → last_less_equal k (y ∷ ys) ≢ none
unfolding first_of
last_some k y ys h e = ground (arith, seen_last k y ys h)

ascending-tail : (y : KvEntry) (ys : List KvEntry) → ascending (y ∷ ys) ≡ true → ascending ys ≡ true
unfolding ascending
ascending-tail y [] h = refl
ascending-tail y (z ∷ zs) h = ground arith

insert_before :
    (x y : KvEntry) (ys : List KvEntry)
    → key_less x.key y.key ≡ true
    → insert_pair x (y ∷ ys) ≡ x ∷ y ∷ ys
unfolding insert_pair
insert_before x y ys h = rw h refl

insert_behind :
    (x y : KvEntry) (ys : List KvEntry)
    → key_less x.key y.key ≡ false
    → insert_pair x (y ∷ ys) ≡ y ∷ insert_pair x ys
unfolding insert_pair
insert_behind x y ys h = rw h refl

-- A pair that is inserted into a list of versions of one user key.
last-insert_pair :
    (k : SequencedKey) (x : KvEntry) (ys : List KvEntry)
    → Sees k x
    → All (Sees k) ys
    → ascending ys ≡ true
    → last_less_equal k (insert_pair x ys) ≡ best (some x) (last_less_equal k ys)
last-insert_pair k x [] h hs a =
    unfold insert_pair last_less_equal best first_of in rw (Sees-le k x h) refl
last-insert_pair k x (y ∷ ys) h (hy, hs) a = elim (Bool-cases (key_less x.key y.key)) [
  | inl less ↦
      ap (last_less_equal k) (insert_before x y ys less)
      ∙ seen_last k x (y ∷ ys) h
      ∙ behind (last_less_equal k (y ∷ ys)) (last_some k y ys hy)
          (λ z e. last-ge k y ys z (hy, hs) a e) (omega_lt less)
  | inr more ↦
      ap (last_less_equal k) (insert_behind x y ys more)
      ∙ seen_last k y (insert_pair x ys) hy
      ∙ ap (λ o. first_of o (some y)) (last-insert_pair k x ys h hs (tail a))
      ∙ before (last_less_equal k ys) (not_less more)
      ∙ ap (best (some x)) (sym (seen_last k y ys hy))
]
  where
    omega_lt : key_less x.key y.key ≡ true → x.key.seq < y.key.seq
    omega_lt e = ground (arith, Sees-less k x y h hy)

    not_less : key_less x.key y.key ≡ false → y.key.seq ≤ x.key.seq
    not_less e = ground (arith, Sees-less k x y h hy)

    tail : ascending (y ∷ ys) ≡ true → ascending ys ≡ true
    tail e = ascending-tail y ys e

    behind :
        (o : Option KvEntry)
        → o ≢ none
        → ((z : KvEntry) → o ≡ some z → y.key.seq ≤ z.key.seq)
        → x.key.seq < y.key.seq
        → first_of o (some x) ≡ best (some x) o
    behind none n f lt = absurd (n refl)
    behind (some z) n f lt =
        unfold first_of best in
        let less : ltb x.key.seq z.key.seq ≡ true = ground (arith, f z refl) in rw less refl

    before :
        (o : Option KvEntry)
        → y.key.seq ≤ x.key.seq
        → first_of (best (some x) o) (some y) ≡ best (some x) (first_of o (some y))
    before none le =
        unfold first_of best in
        let more : ltb x.key.seq y.key.seq ≡ false = ground arith in rw more refl
    before (some z) le = unfold first_of best in ground arith

-- The last of some versions of one user key that are sorted by key is the best of them.
pub last-by_key :
    (k : SequencedKey) (xs : List KvEntry)
    → All (Sees k) xs
    → last_less_equal k (by_key xs) ≡ best_of xs
unfolding by_key best_of
last-by_key k [] h = unfold last_less_equal in refl
last-by_key k (x ∷ xs) (h, hs) =
    last-insert_pair k x (by_key xs) h (by_key-Sees k xs hs) (by_key-ascending k xs hs)
    ∙ ap (best (some x)) (last-by_key k xs hs)
