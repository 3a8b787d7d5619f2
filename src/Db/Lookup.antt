-- ===== src/Db/Lookup.antt =====
-- `db_local::get` of db/db_local.cc finds the newest version that the snapshot sees.
use frenzy_kv.Prelude.{
  Result, ok, err, ◌>>=◌, leb, ℕ, ◌≡◌, ◌≤◌, refl, ap, sym, ◌∙◌, arith, List, [], ◌∷◌, ◌++◌, Option,
  none, some, Bool, true, false, Bool-cases, inl, inr, ltb, ◌&&◌, not, if◌then◌else◌, All,
  append_assoc,
}
use frenzy_kv.Bytes.{Bytes}
use frenzy_kv.Kv.Key.{SequencedKey, key_eq}
use frenzy_kv.Kv.Entry.{KvEntry}
use frenzy_kv.Version.{UuidOrder, FileRep, sort}
use frenzy_kv.Snapshot.{SnapshotCenter, snapshot_valid, leatest_used_sequence_number}
use frenzy_kv.Compaction.Lookup.{first_of}
use frenzy_kv.Memtable
use frenzy_kv.Memtable.{SkipList, Memtable, last_less_equal}
use frenzy_kv.Memtable.Visible.{visible, get-visible}
use frenzy_kv.Bytes.{bytes_eq}
use frenzy_kv.Bytes.Endian.{BigEndian}
use frenzy_kv.Io.Kernel.{Kernel}
use frenzy_kv.Block.Segment.{Segment, entries_from_block_segment_reverse}
use frenzy_kv.SsTable.{TableDeps}
use frenzy_kv.SsTable.Reader.{SsTable}
use frenzy_kv.SsTable.Files.{finsert}
use frenzy_kv.SsTable.Lookup.{get_kv_entry, get_segment, first_not_above, newest_of_segment}
use frenzy_kv.Db.{
  Db, Tables, file_to_async_potiential_ret, chunk_by_level, make_query_key, visible_value,
  within_snapshot, potiential_results, find_from_level, find_from_levels, find_from_ssts, get,
}
use frenzy_kv.Db.Levels.{flat, flat-chunk_by_level, best, best_of, by_key, Sees, last-by_key}

-- No two of the entries have the same key.
unfoldable pub has_same_key : KvEntry → List KvEntry → Bool
has_same_key x [] = false
has_same_key x (y ∷ ys) = let rest = has_same_key x ys in if key_eq x.key y.key then true else rest

unfoldable pub distinct : List KvEntry → Bool
distinct [] = true
distinct (x ∷ xs) = not (has_same_key x xs) && distinct xs

abbrev pub to_list : Option KvEntry → List KvEntry
to_list none = []
to_list (some x) = x ∷ []

-- What a lookup in a table gives is not newer than the key.
bind_lem :
    {A : Type 0} {B : Type 0} (r : Result A) (f : A → Result B) (y : B)
    → (r >>= f) ≡ ok y
    → (a : A) × (f a ≡ ok y)
bind_lem (ok a) f y h = (a, h)
bind_lem (err e) f y h = absurd (cc)

module _ ⦃e : BigEndian⦄ ⦃k : Kernel⦄ (deps : TableDeps) where
  first_not_above_lem :
      (seq : ℕ) (xs : List KvEntry) (x : KvEntry)
      → first_not_above deps seq xs ≡ some x
      → leb x.key.seq seq ≡ true
  unfolding first_not_above
  first_not_above_lem seq [] x h = absurd (cc)
  first_not_above_lem seq (y ∷ ys) x h = elim (Bool-cases (leb y.key.seq seq)) [
    | inl t ↦ let same : some y ≡ some x = sym (rw t refl) ∙ h in let q : x ≡ y = cc in rw q t
    | inr t ↦ first_not_above_lem seq ys x (sym (rw t refl) ∙ h)
  ]

  newest_of_segment_lem :
      (seq : ℕ) (o : Option Segment) (x : KvEntry)
      → newest_of_segment deps seq o ≡ ok (some x)
      → leb x.key.seq seq ≡ true
  newest_of_segment_lem seq none x h = absurd (cc)
  newest_of_segment_lem seq (some seg) x h =
      let (xs, q) =
        bind_lem (entries_from_block_segment_reverse seg) (λ xs. ok (first_not_above deps seq xs))
          (some x) h in
      let found_it : first_not_above deps seq xs ≡ some x = cc in
      first_not_above_lem seq xs x found_it

  get_kv_entry_lem :
      (memory : ℕ → Bytes) (key : SequencedKey) (t : SsTable) (x : KvEntry)
      → get_kv_entry deps memory key t ≡ ok (some x)
      → leb x.key.seq key.seq ≡ true
  unfolding get_kv_entry
  get_kv_entry_lem memory key t x h =
      let (o, q) =
        bind_lem (get_segment deps memory key t) (newest_of_segment deps key.seq) (some x) h in
      newest_of_segment_lem key.seq o x q

to_list-member :
    (P : KvEntry → Type 0) (o : Option KvEntry) (x : KvEntry) → All P (to_list o) → o ≡ some x → P x
to_list-member P none x h e = absurd (cc)
to_list-member P (some y) x (h, _) e = let q : x ≡ y = cc in rw q h

best_assoc : (a b c : Option KvEntry) → best (best a b) c ≡ best a (best b c)
unfolding best
best_assoc none b c = refl
best_assoc (some x) none c = refl
best_assoc (some x) (some y) none = ground arith
best_assoc (some x) (some y) (some z) = ground arith

best_of-append : (xs ys : List KvEntry) → best_of (xs ++ ys) ≡ best (best_of xs) (best_of ys)
unfolding best_of
best_of-append [] ys = unfold best in refl
best_of-append (x ∷ xs) ys =
    ap (best (some x)) (best_of-append xs ys) ∙ sym (best_assoc (some x) (best_of xs) (best_of ys))

module _ (answer : FileRep → Option KvEntry) where
  -- What the tables of some files answer, one entry for each file at most.
  unfoldable pub found : List FileRep → List KvEntry
  found [] = []
  found (f ∷ fs) = to_list (answer f) ++ found fs

  -- What a level answers is not older than what the levels behind it answer.
  unfoldable pub IsLayered : List (List FileRep) → Type 0
  IsLayered [] = Unit
  IsLayered (c ∷ cs) =
      All (λ x. All (λ y. y.key.seq ≤ x.key.seq) (found (flat cs))) (found c)
      × (distinct (found c) ≡ true)
      × IsLayered cs

  found-append : (fs gs : List FileRep) → found (fs ++ gs) ≡ found fs ++ found gs
  unfolding found
  found-append [] gs = refl
  found-append (f ∷ fs) gs =
      ap (λ xs. to_list (answer f) ++ xs) (found-append fs gs)
      ∙ sym (append_assoc (to_list (answer f)) (found fs) (found gs))

  module _ ⦃e : BigEndian⦄ ⦃k : Kernel⦄ (tables : Tables) (key : SequencedKey) where
    -- The table of a file can be opened, a lookup in it for the key gives the answer, and the answer,
    -- if there is one, has the user key that is asked for.
    pub record IsAnswered (f : FileRep) : Type 0 where
      pub table : SsTable
      pub opened : finsert tables.readable tables.deps f ≡ ok table
      pub returns : get_kv_entry tables.deps tables.memory key table ≡ ok (answer f)
      pub own : (x : KvEntry) → answer f ≡ some x → bytes_eq x.key.user_key key.user_key ≡ true

    answer-Sees : (f : FileRep) → IsAnswered f → (x : KvEntry) → answer f ≡ some x → Sees key x
    answer-Sees f h x e =
        let above : leb x.key.seq key.seq ≡ true =
          get_kv_entry_lem tables.deps tables.memory key h.table x (h.returns ∙ ap ok e) in
        ground (arith, h.own x e, above)

    found-Sees : (fs : List FileRep) → All IsAnswered fs → All (Sees key) (found fs)
    unfolding found
    found-Sees [] h = tt
    found-Sees (f ∷ fs) (h, hs) = go (answer f) (answer-Sees f h) (found-Sees fs hs)
      where
        go :
            (o : Option KvEntry)
            → ((x : KvEntry) → o ≡ some x → Sees key x)
            → All (Sees key) (found fs)
            → All (Sees key) (to_list o ++ found fs)
        go none h hs = hs
        go (some x) h hs = (h x refl, hs)

    -- No answer is newer than the snapshot that the key was made for.
    within_snapshot_lem :
        (snap : ℕ)
        → (snapshot_valid snap ≡ true → key.seq ≡ snap)
        → (o : Option KvEntry) → ((x : KvEntry) → o ≡ some x → Sees key x)
        → within_snapshot snap o ≡ to_list o
    unfolding within_snapshot
    within_snapshot_lem snap q none h = refl
    within_snapshot_lem snap q (some x) h = ground (arith, q, h x refl)

    potiential_results-found :
        (snap : ℕ) (fs : List FileRep)
        → (snapshot_valid snap ≡ true → key.seq ≡ snap)
        → All IsAnswered fs
        → potiential_results tables snap key fs ≡ ok (found fs)
    unfolding potiential_results file_to_async_potiential_ret found
    potiential_results-found snap [] q h = refl
    potiential_results-found snap (f ∷ fs) q (h, hs) =
        let kept = within_snapshot_lem snap q (answer f) (answer-Sees f h) in
        let rest = potiential_results-found snap fs q hs in
        rw h.opened (rw h.returns (rw rest (rw kept refl)))

best_of-member :
    (P : KvEntry → Type 0) (xs : List KvEntry) (x : KvEntry) → All P xs → best_of xs ≡ some x → P x
unfolding best_of best
best_of-member P [] x h e = absurd (cc)
best_of-member P (y ∷ ys) x (h, hs) e = go (best_of ys) (best_of-member P ys x hs) e
  where
    go : (o : Option KvEntry) → (o ≡ some x → P x) → best (some y) o ≡ some x → P x
    go none f e = let q : x ≡ y = cc in rw q h
    go (some z) f e = elim (Bool-cases (ltb y.key.seq z.key.seq)) [
      | inl less ↦ f (ground arith)
      | inr more ↦ let q : x ≡ y = ground arith in rw q h
    ]

-- The memtable is asked first.
first_then :
    (o : Option KvEntry) (rest : Result (Option KvEntry)) (p : Option KvEntry)
    → rest ≡ ok p
    → ((elim o [ none ↦ rest | some x ↦ ok (some x) ]) >>= λ r. ok (visible_value r))
      ≡ ok (visible_value (first_of o p))
unfolding first_of
first_then none rest p h = rw h refl
first_then (some x) rest p h = refl

-- Of two answers of which the first is not older the first is the best.
first_of-best :
    (o p : Option KvEntry)
    → ((x y : KvEntry) → o ≡ some x → p ≡ some y → y.key.seq ≤ x.key.seq)
    → first_of o p ≡ best o p
unfolding first_of best
first_of-best none p h = refl
first_of-best (some x) none h = refl
first_of-best (some x) (some y) h =
    let more : ltb x.key.seq y.key.seq ≡ false = ground (arith, h x y refl refl) in rw more refl

-- The key that `get` asks for.
abbrev pub query_key : {T : Type 0} → Bytes → ℕ → Db T → SequencedKey
query_key user_key snap db =
    make_query_key user_key
      (if snapshot_valid snap then snap else leatest_used_sequence_number db.snapshots) db.snapshots

query_key-seq :
    (user_key : Bytes) (n : ℕ) (c : SnapshotCenter)
    → snapshot_valid n ≡ true
    → (make_query_key user_key n c).seq ≡ n
unfolding make_query_key
query_key-seq user_key n c h = rw h refl

All-front : (P : FileRep → Type 0) (fs gs : List FileRep) → All P (fs ++ gs) → All P fs
All-front P [] gs h = tt
All-front P (f ∷ fs) gs (h, hs) = (h, All-front P fs gs hs)

All-behind : (P : FileRep → Type 0) (fs gs : List FileRep) → All P (fs ++ gs) → All P gs
All-behind P [] gs h = h
All-behind P (f ∷ fs) gs (h, hs) = All-behind P fs gs hs

module _ {T : Type 0} ⦃s : SkipList T⦄ ⦃e : BigEndian⦄ ⦃k : Kernel⦄
    (insert_range : List KvEntry → T)
    (collected : (xs : List KvEntry) → distinct xs ≡ true → s.pairs (insert_range xs) ≡ by_key xs)
    (tables : Tables) (answer : FileRep → Option KvEntry) where
  find_from_level-best :
      (snap : ℕ) (key : SequencedKey) (fs : List FileRep)
      → (snapshot_valid snap ≡ true → key.seq ≡ snap)
      → All (IsAnswered answer tables key) fs
      → distinct (found answer fs) ≡ true
      → find_from_level insert_range tables snap key fs ≡ ok (best_of (found answer fs))
  unfolding find_from_level
  find_from_level-best snap key fs q h d =
      let got = potiential_results-found answer tables key snap fs q h in
      rw got (
        ap ok (
          s.find_last key (insert_range (found answer fs))
          ∙ ap (last_less_equal key) (collected (found answer fs) d)
          ∙ last-by_key key (found answer fs) (found-Sees answer tables key fs h)))

  level_lem :
      (snap : ℕ) (key : SequencedKey) (c : List FileRep) (cs : List (List FileRep))
      (o p : Option KvEntry)
      → find_from_level insert_range tables snap key c ≡ ok o
      → find_from_levels insert_range tables snap key cs ≡ ok p
      → find_from_levels insert_range tables snap key (c ∷ cs) ≡ ok (first_of o p)
  unfolding find_from_levels first_of
  level_lem snap key c cs none p here behind = rw here behind
  level_lem snap key c cs (some x) p here behind = rw here refl

  find_from_levels-best :
      (snap : ℕ) (key : SequencedKey) (cs : List (List FileRep))
      → (snapshot_valid snap ≡ true → key.seq ≡ snap)
      → All (IsAnswered answer tables key) (flat cs)
      → IsLayered answer cs
      → find_from_levels insert_range tables snap key cs ≡ ok (best_of (found answer (flat cs)))
  unfolding IsLayered flat
  find_from_levels-best snap key [] q a h = unfold find_from_levels found best_of in refl
  find_from_levels-best snap key (c ∷ cs) q a (older, d, layered) =
      let P = IsAnswered answer tables key in
      level_lem snap key c cs (best_of (found answer c)) (best_of (found answer (flat cs)))
        (find_from_level-best snap key c q (All-front P c (flat cs) a) d)
        (find_from_levels-best snap key cs q (All-behind P c (flat cs) a) layered)
      ∙ ap ok (
          first_of-best (best_of (found answer c)) (best_of (found answer (flat cs))) (λ x y ex ey.
            best_of-member _ (found answer (flat cs)) y
              (best_of-member _ (found answer c) x older ex) ey)
          ∙ sym (best_of-append (found answer c) (found answer (flat cs)))
          ∙ ap best_of (sym (found-append answer c (flat cs))))

  -- If the table of every file of the version can be opened and asked for the key, and answers with an
  -- entry of the user key or with nothing, then a lookup succeeds: it gives the newest of the version
  -- that the snapshot sees in the memtable and of the answers, and nothing if that is a tomb stone or
  -- there is none. What the memtable has is not older than the answers, no level answers anything
  -- older than the levels behind it, no level has a key twice, and the skip list of the answers of a
  -- level sorts them.
  pub get-best :
      ⦃u : UuidOrder⦄ (user_key : Bytes) (snap : ℕ) (files : List FileRep) (db : Db T)
      → All (IsAnswered answer tables (query_key user_key snap db)) (sort files)
      → IsLayered answer (chunk_by_level (sort files))
      → All
          (λ x. All (λ y. y.key.seq ≤ x.key.seq) (found answer (sort files)))
          (to_list (visible (query_key user_key snap db) (s.pairs db.mem.list)))
      → get insert_range tables user_key snap files db
        ≡ ok (
            visible_value (
              best
                (visible (query_key user_key snap db) (s.pairs db.mem.list))
                (best_of (found answer (sort files)))))
  unfolding get find_from_ssts
  get-best user_key snap files db answered layered newer =
      let taken = if snapshot_valid snap then snap else leatest_used_sequence_number db.snapshots in
      let key = query_key user_key snap db in
      let seen = visible key (s.pairs db.mem.list) in
      let behind = best_of (found answer (sort files)) in
      let same = flat-chunk_by_level (sort files) in
      let from_ssts : find_from_levels insert_range tables taken key (chunk_by_level (sort files))
          ≡ ok behind =
        find_from_levels-best taken key (chunk_by_level (sort files))
          (query_key-seq user_key taken db.snapshots) (rw same answered) layered
        ∙ ap (λ fs. ok (best_of (found answer fs))) same in
      first_then (Memtable.get key db.mem)
        (find_from_levels insert_range tables taken key (chunk_by_level (sort files))) behind
        from_ssts
      ∙ ap (λ o. ok (visible_value (first_of o behind))) (get-visible key db.mem)
      ∙ ap (λ o. ok (visible_value o))
          (first_of-best seen behind (λ x y ex ey.
            best_of-member _ (found answer (sort files)) y (to_list-member _ seen x newer ex) ey))
