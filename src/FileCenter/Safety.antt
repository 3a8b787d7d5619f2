-- ===== src/FileCenter/Safety.antt =====
-- The pointers that the map of a file center of util/file_center.cc holds.
use frenzy_kv.Prelude.{
  ℕ, ◌+◌, ◌≡◌, ◌≤◌, refl, sym, ◌∙◌, arith, List, [], ◌∷◌, ◌++◌, true, false, ◌==◌, Option, none,
  some, All, Bool-cases, ◌-◌, ok, Result, ◌⊎◌, inl, inr,
}
use frenzy_kv.Bytes.{Bytes, bytes_eq, bytes_eq_refl, eq_of_bytes_eq}
use frenzy_kv.FileCenter.{
  Rep, FileCenter, is_sst_name, retrive_level_and_id_from_sst_name, find, erase, new_center,
  get_file, with_count, change_at, ref, deref, new_rep, found_or_new, referred, names_removing,
  erase_all, gc,
}

-- A representation of a name at an address that is referred to at least `k` times.
pub data Sees (k : ℕ) (name : Bytes) (a : ℕ) : List Rep → Type 0 where
  here :
      {r : Rep} {rs : List Rep}
      → r.name ≡ name
      → r.address ≡ a
      → k ≤ r.ref_count
      → Sees k name a (r ∷ rs)
  there : {r : Rep} {rs : List Rep} → Sees k name a rs → Sees k name a (r ∷ rs)

data In (name : Bytes) : List Bytes → Type 0 where
  first : {ns : List Bytes} → In name (name ∷ ns)
  behind : {n : Bytes} {ns : List Bytes} → In name ns → In name (n ∷ ns)

with_count-name : (f : ℕ → ℕ) (b : ℕ) (r : Rep) → (with_count f b r).name ≡ r.name
unfolding with_count
with_count-name f b r = elim (Bool-cases (r.address == b)) [ inl e ↦ rw e refl | inr e ↦ rw e refl ]

with_count-address : (f : ℕ → ℕ) (b : ℕ) (r : Rep) → (with_count f b r).address ≡ r.address
unfolding with_count
with_count-address f b r = elim (Bool-cases (r.address == b)) [
  | inl e ↦ rw e refl
  | inr e ↦ rw e refl
]

change_at-Sees :
    {n : Bytes} {a : ℕ} (f : ℕ → ℕ) (b : ℕ) (rs : List Rep)
    → Sees 0 n a rs
    → Sees 0 n a (change_at f b rs)
unfolding change_at
change_at-Sees f b [] x = elim x [ ]
change_at-Sees f b (r ∷ rs) (here hn ha hk) =
    here (with_count-name f b r ∙ hn) (with_count-address f b r ∙ ha) (omega arith)
change_at-Sees f b (r ∷ rs) (there s) = there (change_at-Sees f b rs s)

-- A new guard refers to what it is made of.
ref_lem :
    {n : Bytes} {a : ℕ} (rs : List Rep) → Sees 0 n a rs → Sees 1 n a (change_at (λ c. c + 1) a rs)
unfolding change_at
ref_lem [] x = elim x [ ]
ref_lem {a = a} (r ∷ rs) (here hn ha hk) =
    let counted : 1 ≤ (with_count (λ c. c + 1) a r).ref_count = unfold with_count in ground arith in
    here (with_count-name (λ c. c + 1) a r ∙ hn) (with_count-address (λ c. c + 1) a r ∙ ha) counted
ref_lem (r ∷ rs) (there s) = there (ref_lem rs s)

append-Sees : {n : Bytes} {a : ℕ} (rs qs : List Rep) → Sees 0 n a rs → Sees 0 n a (rs ++ qs)
append-Sees [] qs x = elim x [ ]
append-Sees (r ∷ rs) qs (here hn ha hk) = here hn ha hk
append-Sees (r ∷ rs) qs (there s) = there (append-Sees rs qs s)

last-Sees : (r : Rep) (rs : List Rep) → Sees 0 r.name r.address (rs ++ r ∷ [])
last-Sees r [] = here refl refl (omega arith)
last-Sees r (q ∷ rs) = there (last-Sees r rs)

-- What a collection does not keep, it names.
referred-Sees :
    {n : Bytes} {a : ℕ} (rs : List Rep)
    → Sees 0 n a rs
    → Sees 0 n a (referred rs) ⊎ In n (names_removing rs)
unfolding referred names_removing
referred-Sees [] x = elim x [ ]
referred-Sees (r ∷ rs) (here hn ha hk) = elim (Bool-cases (r.ref_count == 0)) [
  | inl e ↦ rw e (inr (rw hn first))
  | inr e ↦ rw e (inl (here hn ha hk))
]
referred-Sees (r ∷ rs) (there s) =
    let rest = referred-Sees rs s in
    elim (Bool-cases (r.ref_count == 0)) [
      | inl e ↦ rw e (elim rest [ inl x ↦ inl x | inr x ↦ inr (behind x) ])
      | inr e ↦ rw e (elim rest [ inl x ↦ inl (there x) | inr x ↦ inr x ])
    ]

abbrev pub Seen : List Rep → Bytes × ℕ → Type 0
Seen rs entry = Sees 0 entry.0 entry.1 rs

-- Every pointer in the map of names is to a representation of this name.
unfoldable pub NoDangling : FileCenter → Type 0
NoDangling c = All (Seen c.reps) c.name_rep

All-Seen :
    (rs qs : List Rep) (names : List (Bytes × ℕ))
    → ((n : Bytes) (a : ℕ) → Sees 0 n a rs → Sees 0 n a qs)
    → All (Seen rs) names
    → All (Seen qs) names
All-Seen rs qs [] f h = tt
All-Seen rs qs ((n, a) ∷ names) f (h, hs) = (f n a h, All-Seen rs qs names f hs)

find_lem :
    (rs : List Rep) (name : Bytes) (a : ℕ) (names : List (Bytes × ℕ))
    → All (Seen rs) names
    → find name names ≡ some a
    → Sees 0 name a rs
unfolding find
find_lem rs name a [] h e = ground arith
find_lem rs name a ((n, b) ∷ names) (h, hs) e = elim (Bool-cases (bytes_eq n name)) [
  | inl t ↦
      let here_it : b ≡ a = ground arith in rw (sym here_it) (rw (sym (eq_of_bytes_eq n name t)) h)
  | inr t ↦ let later : find name names ≡ some a = ground arith in find_lem rs name a names hs later
]

-- A representation, or a name that is still to be erased.
abbrev Pending : List Rep → List Bytes → Bytes × ℕ → Type 0
Pending rs ns entry = Sees 0 entry.0 entry.1 rs ⊎ In entry.0 ns

In_lem : (n name : Bytes) (ns : List Bytes) → bytes_eq n name ≡ false → In n (name ∷ ns) → In n ns
In_lem n name ns t first = absurd (ground (arith, t, bytes_eq_refl n))
In_lem n name ns t (behind x) = x

erase_lem :
    (rs : List Rep) (name : Bytes) (ns : List Bytes) (names : List (Bytes × ℕ))
    → All (Pending rs (name ∷ ns)) names
    → All (Pending rs ns) (erase name names)
unfolding erase
erase_lem rs name ns [] h = tt
erase_lem rs name ns ((n, a) ∷ names) (h, hs) =
    let rest = erase_lem rs name ns names hs in
    elim (Bool-cases (bytes_eq n name)) [
      | inl t ↦ rw t rest
      | inr t ↦ rw t (elim h [ inl x ↦ inl x | inr x ↦ inr (In_lem n name ns t x) ], rest)
    ]

erase_all_lem :
    (rs : List Rep) (ns : List Bytes) (names : List (Bytes × ℕ))
    → All (Pending rs ns) names
    → All (Seen rs) (erase_all ns names)
unfolding erase_all
erase_all_lem rs [] [] h = tt
erase_all_lem rs [] ((n, a) ∷ names) (inl x, hs) = (x, erase_all_lem rs [] names hs)
erase_all_lem rs [] ((n, a) ∷ names) (inr x, hs) = elim x [ ]
erase_all_lem rs (n ∷ ns) names h = erase_all_lem rs ns (erase n names) (erase_lem rs n ns names h)

pending_lem :
    (rs : List Rep) (names : List (Bytes × ℕ))
    → All (Seen rs) names
    → All (Pending (referred rs) (names_removing rs)) names
pending_lem rs [] h = tt
pending_lem rs ((n, a) ∷ names) (h, hs) = (referred-Sees rs h, pending_lem rs names hs)

gc_lem : (c : FileCenter) → NoDangling c → NoDangling (gc c)
unfolding gc NoDangling
gc_lem c h =
    erase_all_lem (referred c.reps) (names_removing c.reps) c.name_rep
      (pending_lem c.reps c.name_rep h)

change_lem :
    (f : ℕ → ℕ) (b : ℕ) (c : FileCenter)
    → NoDangling c
    → NoDangling (record c { reps = change_at f b c.reps })
unfolding NoDangling
change_lem f b c h =
    All-Seen c.reps (change_at f b c.reps) c.name_rep (λ n a s. change_at-Sees f b c.reps s) h

new_rep_lem :
    (name : Bytes) (p : ℕ × Bytes) (c : FileCenter)
    → NoDangling c
    → NoDangling (new_rep name (some p) c)
      × Sees 0 name c.next_address (new_rep name (some p) c).reps
unfolding new_rep NoDangling
new_rep_lem name (l, id) c h = (
  (last-Sees _ c.reps, All-Seen c.reps _ c.name_rep (λ n a s. append-Sees c.reps _ s) h),
  last-Sees _ c.reps,
)

module _ (stoi : Bytes → Result ℕ) (uuid : Bytes → Result Bytes) where
  -- The name of a table, from which a level and an id can be read.
  pub record IsReadable (name : Bytes) : Type 0 where
    pub named : is_sst_name name ≡ true
    pub level_and_id : ℕ × Bytes
    pub read : retrive_level_and_id_from_sst_name stoi uuid name ≡ ok (some level_and_id)

  -- What `get_file` of such a name gives.
  pub record Got (name : Bytes) (c : FileCenter) (r : Result (ℕ × FileCenter)) : Type 0 where
    pub address : ℕ
    pub after : FileCenter
    pub returns : r ≡ ok (address, after)
    pub safe : NoDangling after
    pub refers : Sees 1 name address after.reps

  found_lem :
      (name : Bytes) (c : FileCenter) (found : Option ℕ)
      → find name c.name_rep ≡ found
      → IsReadable name
      → NoDangling c
      → Got name c (found_or_new stoi uuid name found c)
  unfolding found_or_new ref NoDangling
  found_lem name c (some a) e n h = record {
    address = a;
    after = ref a c;
    returns = refl;
    safe = change_lem (λ n. n + 1) a c h;
    refers = ref_lem c.reps (find_lem c.reps name a c.name_rep h e);
  }
  found_lem name c none e n h =
      let d = new_rep name (some n.level_and_id) c in
      let (kept, seen) = new_rep_lem name n.level_and_id c h in
      record {
        address = c.next_address;
        after = ref c.next_address d;
        returns = rw n.read refl;
        safe = change_lem (λ n. n + 1) c.next_address d kept;
        refers = ref_lem d.reps seen;
      }

  get_lem :
      (name : Bytes) (c : FileCenter)
      → IsReadable name
      → NoDangling c
      → Got name c (get_file stoi uuid name c)
  unfolding get_file
  get_lem name c n h = rw n.named (found_lem name c (find name c.name_rep) refl n h)

  -- `get_file` of a name that can be read, a copy or the end of a guard, and the collection.
  pub data Step (c : FileCenter) : FileCenter → Type 0 where
    gets :
        (name : Bytes) (a : ℕ) (d : FileCenter)
        → IsReadable name
        → get_file stoi uuid name c ≡ ok (a, d)
        → Step c d
    copies : (a : ℕ) → Step c (ref a c)
    releases : (a : ℕ) → Step c (deref a c)
    collects : Step c (gc c)

  pub data Reach : FileCenter → Type 0 where
    start : Reach new_center
    later : {c d : FileCenter} → Reach c → Step c d → Reach d

  same_lem :
      {name : Bytes} {c d : FileCenter} {a : ℕ} {r : Result (ℕ × FileCenter)}
      → Got name c r
      → r ≡ ok (a, d)
      → NoDangling d
  same_lem {d = d} g e = let same : g.after ≡ d = cc in rw (sym same) g.safe

  step_lem : {c d : FileCenter} → Step c d → NoDangling c → NoDangling d
  step_lem {c} (gets name a d n e) h = same_lem (get_lem name c n h) e
  step_lem {c} (copies a) h = unfold ref in change_lem (λ n. n + 1) a c h
  step_lem {c} (releases a) h = unfold deref in change_lem (λ n. n - 1) a c h
  step_lem {c} collects h = gc_lem c h

  reach_lem : (c : FileCenter) → Reach c → NoDangling c
  reach_lem c start = unfold NoDangling in tt
  reach_lem c (later r s) = step_lem s (reach_lem _ r)

  -- After any steps, collections among them, `get_file` of the name of a table from which a level and
  -- an id can be read succeeds; what its guard points to is a representation of this name, which is
  -- referred to.
  pub get_file-Sees :
      (name : Bytes) (c : FileCenter)
      → Reach c
      → IsReadable name
      → (a : ℕ) × (d : FileCenter) × (get_file stoi uuid name c ≡ ok (a, d)) × Sees 1 name a d.reps
  get_file-Sees name c r n =
      let g = get_lem name c n (reach_lem c r) in (g.address, g.after, g.returns, g.refers)
