-- ===== src/Tests/Versions.antt =====
-- Examples of the theorems on versions and guards.
use frenzy_kv.Prelude.{ℕ, ◌≡◌, refl, sym, [], ◌∷◌, none, some, inl, ok, List}
use frenzy_kv.Version.{
  FileRep, VersionRep, apply, is_empty, is_nil, sort, insert_sorted, set_difference, copy_version,
}
use frenzy_kv.Version.Center.{
  VersionCenter, new_center, load_current_version, add_new_version, current_version, slot, store,
  at_address, ref, deref, increment, decrement, guard_of, set_current, last_node, back,
  set_version_desc_name, successor, emplace_back, add_successor, new_version, emplace_front,
  emplace_all,
}
use frenzy_kv.Version.Center.Counting.{present, files_at}
use frenzy_kv.Version.Center.Invariant.{Inv}
use frenzy_kv.Version.Center.Steps.{Reach, start, later, loads, adds, reads}
use frenzy_kv.Version.Center.Reachable.{Reach-Inv}
use frenzy_kv.Version.Center.Safety.{held_version-files}
use frenzy_kv.Tests.{big_endian, uuid_order, delta}
use frenzy_kv.Compaction.Policy.{Options}
use frenzy_kv.Io.Readable.{Readable, open_readable}
use frenzy_kv.Tests.Files.{kernel}
use frenzy_kv.Tests.Opened.{table_disk}

abbrev first_rep : ℕ → VersionRep
first_rep n = record { files = delta.added; ref_count = n; version_desc_name = 1 ∷ [] }

-- A version is loaded.
abbrev loaded : VersionCenter
loaded = record {
  versions = record { address = 0; rep = first_rep 1 } ∷ [];
  current = some 0;
  held = [];
  lock = none;
  next = 1;
}

loads_it : load_current_version (1 ∷ [], delta) [] new_center ≡ ok loaded
unfolding load_current_version new_center emplace_all set_current emplace_front new_version apply
    is_empty is_nil sort set_difference insert_sorted ref deref at_address increment
loads_it = refl

-- A reader holds it.
abbrev read : VersionCenter
read = record loaded {
  versions = record { address = 0; rep = first_rep 2 } ∷ [];
  held = some 0 ∷ [];
}

reads_it : current_version 0 loaded ≡ read
unfolding current_version guard_of store ref at_address increment
reads_it = refl

-- A writer adds a version, which the reader does not see.
abbrev added : VersionCenter
added = record {
  versions =
      record { address = 0; rep = first_rep 1 }
      ∷ record { address = 1; rep = record (first_rep 2) { version_desc_name = 3 ∷ [] } }
      ∷ [];
  current = some 1;
  held = some 0 ∷ some 1 ∷ [];
  lock = some 1;
  next = 2;
}

adds_it : add_new_version (2 ∷ []) (3 ∷ []) 1 read ≡ ok added
unfolding add_new_version back last_node add_successor successor set_version_desc_name copy_version
    emplace_back set_current guard_of store ref deref at_address increment decrement
adds_it = refl

loaded-Reach : Reach loaded
unfolding new_center
loaded-Reach = later start (loads (1 ∷ [], delta) [] refl loads_it)

read-Reach : Reach read
unfolding slot
read-Reach = later loaded-Reach (rw (sym reads_it) (reads 0 refl refl))

added-Reach : Reach added
unfolding slot
added-Reach = later read-Reach (adds (2 ∷ []) (3 ∷ []) 1 refl refl adds_it)

Reach-Inv_example : Inv added
Reach-Inv_example = Reach-Inv added-Reach

held_version-files_example :
    (files_at 0 added.versions ≡ files_at 0 read.versions)
    × (slot 0 added.held ≡ some 0 → present 0 added.versions ≡ 1)
unfolding slot
held_version-files_example =
    held_version-files 0 0 read-Reach (adds (2 ∷ []) (3 ∷ []) 1 refl refl adds_it) refl (inl refl)

-- Two files are allowed in each of four levels.
abbrev pairs : Options
pairs = record {
  level_file_number = 2 ∷ 2 ∷ 2 ∷ 2 ∷ [];
  level_file_size = 9 ∷ 9 ∷ 9 ∷ 9 ∷ [];
  max_level = 4;
}

-- Three files of level 2 and one of level 3.
abbrev crowded : List FileRep
crowded =
    record { level = 2; file_id = 7 }
    ∷ record { level = 3; file_id = 4 }
    ∷ record { level = 2; file_id = 5 }
    ∷ record { level = 2; file_id = 6 }
    ∷ []

abbrev same_size : FileRep → ℕ
same_size f = 1

-- Every file has the same table.
abbrev readable : FileRep → Readable
readable f = open_readable table_disk
