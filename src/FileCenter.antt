-- ===== src/FileCenter.antt =====
-- `file_center` of util/file_center.cc: the representations of the files of tables and the map from
-- names to them. A representation has the address that `make_unique` gave it.
use frenzy_kv.Prelude.{
  ℕ, zero, suc, ◌+◌, ◌-◌, List, [], ◌∷◌, ◌++◌, Bool, true, false, not, ◌&&◌, ◌==◌, if◌then◌else◌,
  Result, ok, err, out_of_bounds, exception, ◌>>=◌, ◌>>◌, assert, Option, none, some, length, take,
  drop,
}
use frenzy_kv.Bytes.{Bytes, bytes_eq}
pub mod Safety

pub record Rep : Type 0 where
  pub address : ℕ
  pub name : Bytes
  pub level : ℕ
  pub file_id : Bytes
  pub ref_count : ℕ

pub record FileCenter : Type 0 where
  pub reps : List Rep
  pub name_rep : List (Bytes × ℕ)
  pub next_address : ℕ

abbrev pub new_center : FileCenter
new_center = record { reps = []; name_rep = []; next_address = 0 }

-- "frzkv#"
abbrev pub sst_prefix : Bytes
sst_prefix = 102 ∷ 114 ∷ 122 ∷ 107 ∷ 118 ∷ 35 ∷ []

-- "#.frzkvsst"
abbrev pub sst_suffix : Bytes
sst_suffix = 35 ∷ 46 ∷ 102 ∷ 114 ∷ 122 ∷ 107 ∷ 118 ∷ 115 ∷ 115 ∷ 116 ∷ []

unfoldable pub starts_with : Bytes → Bytes → Bool
starts_with name start = bytes_eq (take (length start) name) start

unfoldable pub ends_with : Bytes → Bytes → Bool
ends_with name end = bytes_eq (drop (length name - length end) name) end

unfoldable pub is_sst_name : Bytes → Bool
is_sst_name name = starts_with name sst_prefix && ends_with name sst_suffix

unfoldable pub onto_first : ℕ → List Bytes → List Bytes
onto_first b [] = (b ∷ []) ∷ []
onto_first b (part ∷ parts) = (b ∷ part) ∷ parts

-- `split("#")`
unfoldable pub split : Bytes → List Bytes
split [] = [] ∷ []
split (b ∷ bs) = let rest = split bs in if b == 35 then [] ∷ rest else onto_first b rest

-- A part that is not there is behind the end of the parts.
unfoldable pub part_at : ℕ → List Bytes → Result Bytes
part_at i [] = err out_of_bounds
part_at zero (part ∷ parts) = ok part
part_at (suc i) (part ∷ parts) = part_at i parts

-- From the first byte that is not '*'.
unfoldable pub without_stars : Bytes → Bytes
without_stars [] = []
without_stars (b ∷ bs) = let rest = without_stars bs in if b == 42 then rest else b ∷ bs

-- `substr` of the first byte that is not '*', which throws if there is none.
unfoldable pub level_part : Bytes → Result Bytes
level_part part =
    let rest = without_stars part in if length rest == 0 then err exception else ok rest

-- `stoi` reads a level and `uuid` makes an id of a string; both may throw. The level is read first.
unfoldable pub retrive_level_and_id_from_sst_name :
    (Bytes → Result ℕ) → (Bytes → Result Bytes) → Bytes → Result (Option (ℕ × Bytes))
retrive_level_and_id_from_sst_name stoi uuid name =
    if is_sst_name name
    then (do
      first_str ← part_at 1 (split name)
      digits ← level_part first_str
      level ← stoi digits
      second_str ← part_at 2 (split name)
      id ← uuid second_str
      ok (some (level, id)))
    else ok none

unfoldable pub find : Bytes → List (Bytes × ℕ) → Option ℕ
find name [] = none
find name ((n, a) ∷ rest) =
    let behind = find name rest in if bytes_eq n name then some a else behind

unfoldable pub erase : Bytes → List (Bytes × ℕ) → List (Bytes × ℕ)
erase name [] = []
erase name ((n, a) ∷ rest) =
    let behind = erase name rest in if bytes_eq n name then behind else (n, a) ∷ behind

unfoldable pub with_count : (ℕ → ℕ) → ℕ → Rep → Rep
with_count change a r = if r.address == a then record r { ref_count = change r.ref_count } else r

-- The reference count of the representation at an address changes.
unfoldable pub change_at : (ℕ → ℕ) → ℕ → List Rep → List Rep
change_at change a [] = []
change_at change a (r ∷ rs) = with_count change a r ∷ change_at change a rs

-- A `file_guard` is made of a representation, and is destructed.
unfoldable pub ref : ℕ → FileCenter → FileCenter
ref a c = record c { reps = change_at (λ n. n + 1) a c.reps }

unfoldable pub deref : ℕ → FileCenter → FileCenter
deref a c = record c { reps = change_at (λ n. n - 1) a c.reps }

unfoldable pub new_rep : Bytes → Option (ℕ × Bytes) → FileCenter → FileCenter
new_rep name none c = c
new_rep name (some (l, id)) c = record {
  reps =
      c.reps
      ++ record { address = c.next_address; name = name; level = l; file_id = id; ref_count = 0 }
        ∷ [];
  name_rep = (name, c.next_address) ∷ c.name_rep;
  next_address = c.next_address + 1;
}

module _ (stoi : Bytes → Result ℕ) (uuid : Bytes → Result Bytes) where
  unfoldable pub found_or_new : Bytes → Option ℕ → FileCenter → Result (ℕ × FileCenter)
  found_or_new name (some a) c = ok (a, ref a c)
  found_or_new name none c = do
    level_and_id_opt ← retrive_level_and_id_from_sst_name stoi uuid name
    ok (c.next_address, ref c.next_address (new_rep name level_and_id_opt c))

  unfoldable pub get_file : Bytes → FileCenter → Result (ℕ × FileCenter)
  get_file name c = assert (is_sst_name name) >> found_or_new name (find name c.name_rep) c

-- The parts of the partition of the representations, each in its order.
unfoldable pub referred : List Rep → List Rep
referred [] = []
referred (r ∷ rs) = let rest = referred rs in if r.ref_count == 0 then rest else r ∷ rest

unfoldable pub names_removing : List Rep → List Bytes
names_removing [] = []
names_removing (r ∷ rs) =
    let rest = names_removing rs in if r.ref_count == 0 then r.name ∷ rest else rest

unfoldable pub erase_all : List Bytes → List (Bytes × ℕ) → List (Bytes × ℕ)
erase_all [] names = names
erase_all (n ∷ ns) names = erase_all ns (erase n names)

-- The files are unlinked as well.
unfoldable pub gc : FileCenter → FileCenter
gc c = record c { reps = referred c.reps; name_rep = erase_all (names_removing c.reps) c.name_rep }
