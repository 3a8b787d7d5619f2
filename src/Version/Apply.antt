-- ===== src/Version/Apply.antt =====
-- What `version_rep::operator+=` promises of the files of the new version.
use frenzy_kv.Prelude.{◌+◌, ◌-◌, ◌≡◌, refl, arith, List, [], ◌∷◌, true}
use frenzy_kv.Version.{
  UuidOrder, FileRep, VersionDelta, VersionRep, is_nil, is_empty, apply, sort, set_difference,
}
use frenzy_kv.Version.Files.{count, count-append, count-sort, sort-ascending, count-set_difference}

is_nil-nil : (xs : List FileRep) → is_nil xs ≡ true → xs ≡ []
unfolding is_nil
is_nil-nil [] h = refl
is_nil-nil (x ∷ xs) h = ground arith

count_nil : (f : FileRep) (xs : List FileRep) → is_nil xs ≡ true → count f xs ≡ 0
unfolding is_nil count
count_nil f [] h = refl
count_nil f (x ∷ xs) h = ground arith

module _ ⦃u : UuidOrder⦄ where
  -- A file is in the new version as often as the delta adds it, and besides as often as it was in
  -- the old version more than the delta compacts it.
  pub count-apply :
      (f : FileRep) (d : VersionDelta) (v : VersionRep)
      → count f (apply d v).files ≡ count f d.added + (count f v.files - count f d.compacted)
  unfolding apply is_empty
  count-apply f d v = ground (
    arith,
    count_nil f d.added,
    count_nil f d.compacted,
    count-append f d.added (set_difference (sort v.files) (sort d.compacted)),
    count-set_difference f (sort v.files) (sort d.compacted) (sort-ascending v.files)
        (sort-ascending d.compacted),
    count-sort f v.files,
    count-sort f d.compacted,
  )
