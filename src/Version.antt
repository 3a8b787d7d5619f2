-- ===== src/Version.antt =====
-- `version_delta` and `version_rep` of include/frenzykv/db/version.h and db/version.cc, and the order
-- of `file_rep` that they sort by.
use frenzy_kv.Prelude.{
  ℕ, ◌≡◌, List, [], ◌∷◌, ◌++◌, Bool, true, false, not, ◌&&◌, ◌||◌, ltb, if◌then◌else◌,
}
pub mod Order
pub mod Files
pub mod Apply
pub mod Center
pub mod Descriptor

-- The order of `toolpex::uuid`, which is 128 bits: a strict total order.
pub record UuidOrder : Type 0 where
  pub less : ℕ → ℕ → Bool
  pub less_irrefl : (a : ℕ) → less a a ≡ false
  pub less_trans : (a b c : ℕ) → less a b ≡ true → less b c ≡ true → less a c ≡ true
  pub less_connected : (a b : ℕ) → less a b ≡ false → less b a ≡ false → a ≡ b

-- What the versions read of a `file_rep`: the level, which is not negative, and the id. A
-- `file_guard` is the file that it points to.
pub record FileRep : Type 0 where
  pub level : ℕ
  pub file_id : ℕ

pub record VersionDelta : Type 0 where
  pub compacted : List FileRep
  pub added : List FileRep

pub record VersionRep : Type 0 where
  pub files : List FileRep
  pub ref_count : ℕ
  pub version_desc_name : List ℕ

unfoldable pub empty_delta : VersionDelta
empty_delta = record { compacted = []; added = [] }

unfoldable pub add_compacted_files : List FileRep → VersionDelta → VersionDelta
add_compacted_files guards d = record d { compacted = d.compacted ++ guards }

unfoldable pub add_new_files : List FileRep → VersionDelta → VersionDelta
add_new_files guards d = record d { added = d.added ++ guards }

unfoldable pub is_nil : List FileRep → Bool
is_nil [] = true
is_nil (x ∷ xs) = false

unfoldable pub is_empty : VersionDelta → Bool
is_empty d = is_nil d.compacted && is_nil d.added

unfoldable pub only_added : VersionDelta → Bool
only_added d = is_nil d.compacted && not (is_nil d.added)

unfoldable pub only_compacted : VersionDelta → Bool
only_compacted d = not (is_nil d.compacted) && is_nil d.added

-- `version_delta::operator+=`
unfoldable pub append_delta : VersionDelta → VersionDelta → VersionDelta
append_delta d other = record {
  compacted = d.compacted ++ other.compacted;
  added = d.added ++ other.added;
}

module _ ⦃u : UuidOrder⦄ where
  unfoldable pub file_less : FileRep → FileRep → Bool
  file_less a b =
      if ltb a.level b.level
      then true
      else (if ltb b.level a.level then false else u.less a.file_id b.file_id)

  -- `std::ranges::sort`
  unfoldable pub insert_sorted : FileRep → List FileRep → List FileRep
  insert_sorted x [] = x ∷ []
  insert_sorted x (y ∷ ys) = elim (file_less x y) [
    | true ↦ x ∷ y ∷ ys
    | false ↦ y ∷ insert_sorted x ys
  ]

  unfoldable pub sort : List FileRep → List FileRep
  sort [] = []
  sort (x ∷ xs) = insert_sorted x (sort xs)

  -- `std::set_difference`
  unfoldable pub set_difference : List FileRep → List FileRep → List FileRep
  set_difference [] ys = []
  set_difference (x ∷ xs) [] = x ∷ xs
  set_difference (x ∷ xs) (y ∷ ys) = elim (file_less x y) [
    | true ↦ x ∷ set_difference xs (y ∷ ys)
    | false ↦ elim (file_less y x) [
      | true ↦ set_difference (x ∷ xs) ys
      | false ↦ set_difference xs ys
    ]
  ]

  -- `version_rep::operator+=`
  unfoldable pub apply : VersionDelta → VersionRep → VersionRep
  apply delta v =
      if is_empty delta
      then v
      else record v { files = delta.added ++ set_difference (sort v.files) (sort delta.compacted) }

-- The copy that a new version starts from has a reference count and a fresh name of its own.
unfoldable pub copy_version : List ℕ → VersionRep → VersionRep
copy_version fresh_name v = record {
  files = v.files;
  ref_count = 0;
  version_desc_name = fresh_name;
}
