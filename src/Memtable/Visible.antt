-- ===== src/Memtable/Visible.antt =====
-- `memtable::get` finds the version of a user key that a snapshot sees.
use frenzy_kv.Prelude.{
  ◌≡◌, refl, sym, ap, ◌∙◌, arith, List, [], ◌∷◌, Bool, true, false, none, some, Option, ltb, leb,
  ◌&&◌, if◌then◌else◌,
}
use frenzy_kv.Bytes.{bytes_eq, eq_of_bytes_eq, bytes_eq_refl, string_less}
use frenzy_kv.Bytes.Order.{lexicographic-flip, lexicographic_refl, eq_of_lexicographic}
use frenzy_kv.Kv.Key.{SequencedKey, key_less, logic_lexicographic_simulate_less}
use frenzy_kv.Kv.Entry.{KvEntry, entry_less}
use frenzy_kv.Compaction.{is_sorted}
use frenzy_kv.Compaction.Lookup.{first_of}
use frenzy_kv.Compaction.Order.{le_trans}
use frenzy_kv.Memtable.{SkipList, Memtable, last_less_equal, with_user_key, get}

abbrev pub sees : SequencedKey → KvEntry → Bool
sees k x = bytes_eq x.key.user_key k.user_key && leb x.key.seq k.seq

-- Of the entries in their order the last one of the user key whose number is at most the
-- snapshot's.
unfoldable pub visible : SequencedKey → List KvEntry → Option KvEntry
visible k [] = none
visible k (x ∷ xs) = first_of (visible k xs) (if sees k x then some x else none)

pub same_user-less :
    (k x : SequencedKey) → bytes_eq x.user_key k.user_key ≡ true → key_less k x ≡ ltb k.seq x.seq
unfolding key_less logic_lexicographic_simulate_less string_less
same_user-less k x h =
    ground (arith, eq_of_bytes_eq x.user_key k.user_key, lexicographic_refl k.user_key)

-- Between two keys of one user key stand keys of that user key only.
squeeze :
    (x z k : SequencedKey)
    → key_less z x ≡ false
    → key_less k z ≡ false
    → bytes_eq x.user_key k.user_key ≡ true
    → bytes_eq z.user_key k.user_key ≡ true
unfolding key_less logic_lexicographic_simulate_less string_less
squeeze x z k h l e = ground (
  arith,
  eq_of_bytes_eq x.user_key k.user_key,
  lexicographic-flip z.user_key k.user_key,
  eq_of_lexicographic z.user_key k.user_key,
  bytes_eq_refl k.user_key,
)

last_ge :
    (k : SequencedKey) (x : KvEntry) (xs : List KvEntry) (z : KvEntry)
    → is_sorted (x ∷ xs) ≡ true
    → last_less_equal k xs ≡ some z
    → entry_less z x ≡ false
unfolding is_sorted last_less_equal first_of
last_ge k x [] z s h = ground arith
last_ge k x (y ∷ ys) z s h = ground (arith, last_ge k y ys z, le_trans x y z)

last_le :
    (k : SequencedKey) (xs : List KvEntry) (z : KvEntry)
    → last_less_equal k xs ≡ some z
    → key_less k z.key ≡ false
unfolding last_less_equal first_of
last_le k [] z h = ground arith
last_le k (x ∷ xs) z h = ground (arith, last_le k xs z)

tail_sorted : (x : KvEntry) (xs : List KvEntry) → is_sorted (x ∷ xs) ≡ true → is_sorted xs ≡ true
unfolding is_sorted
tail_sorted x [] h = refl
tail_sorted x (y ∷ ys) h = ground arith

visible_step :
    (k : SequencedKey) (x : KvEntry) (o v : Option KvEntry)
    → ((z : KvEntry) → o ≡ some z → (entry_less z x ≡ false) × (key_less k z.key ≡ false))
    → with_user_key k o ≡ v
    → with_user_key k (first_of o (if key_less k x.key then none else some x))
      ≡ first_of v (if sees k x then some x else none)
unfolding with_user_key first_of entry_less
visible_step k x none v h e = rw (sym e) (ground (arith, same_user-less k x.key))
visible_step k x (some z) v h e =
    let (a, b) = h z refl in rw (sym e) (ground (arith, squeeze x.key z.key k a b))

visible-last :
    (k : SequencedKey) (xs : List KvEntry)
    → is_sorted xs ≡ true
    → with_user_key k (last_less_equal k xs) ≡ visible k xs
unfolding visible last_less_equal with_user_key
visible-last k [] h = refl
visible-last k (x ∷ xs) h =
    visible_step k x (last_less_equal k xs) (visible k xs)
      (λ z q. (last_ge k x xs z h q, last_le k xs z q)) (visible-last k xs (tail_sorted x xs h))

module _ {T : Type 0} ⦃s : SkipList T⦄ where
  -- A lookup finds, of all entries of the user key whose sequence number is at most the given one,
  -- the last, and nothing if there is none.
  pub get-visible : (k : SequencedKey) (m : Memtable T) → get k m ≡ visible k (s.pairs m.list)
  unfolding get
  get-visible k m =
      ap (with_user_key k) (s.find_last k m.list)
      ∙ visible-last k (s.pairs m.list) (s.pairs_sorted m.list)
