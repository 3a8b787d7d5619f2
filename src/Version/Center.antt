-- ===== src/Version/Center.antt =====
-- `version_guard`, `mutable_version_guard` and `version_center` of include/frenzykv/db/version.h and
-- db/version.cc. A version is a node with an address, a guard is a slot that holds an address or
-- nothing, and the reference counts are shared through the addresses.
use frenzy_kv.Prelude.{
  ℕ, zero, suc, ◌+◌, ◌-◌, List, [], ◌∷◌, ◌++◌, Option, none, some, Bool, true, false, not, ◌==◌,
  if◌then◌else◌, Result, ok, err, out_of_bounds, assertion, ◌>>=◌, ◌>>◌, assert, map,
}
use frenzy_kv.Version.{
  UuidOrder, FileRep, VersionDelta, VersionRep, empty_delta, apply, copy_version,
}
pub mod Counting
pub mod Garbage
pub mod Steps
pub mod Invariant
pub mod Adding
pub mod Reachable
pub mod Safety

pub record Node : Type 0 where
  pub address : ℕ
  pub rep : VersionRep

-- `held` are the guards of the rest of the program: those behind its end hold nothing. `lock` is
-- the slot of the `mutable_version_guard` that owns the modify mutex. `next` is an address that no
-- version has had.
pub record VersionCenter : Type 0 where
  pub versions : List Node
  pub current : Option ℕ
  pub held : List (Option ℕ)
  pub lock : Option ℕ
  pub next : ℕ

unfoldable pub slot : ℕ → List (Option ℕ) → Option ℕ
slot i [] = none
slot zero (g ∷ gs) = g
slot (suc i) (g ∷ gs) = slot i gs

unfoldable pub store : ℕ → Option ℕ → List (Option ℕ) → List (Option ℕ)
store zero x [] = x ∷ []
store (suc i) x [] = none ∷ store i x []
store zero x (g ∷ gs) = x ∷ gs
store (suc i) x (g ∷ gs) = g ∷ store i x gs

unfoldable pub at_address : (VersionRep → VersionRep) → ℕ → List Node → List Node
at_address f a [] = []
at_address f a (n ∷ ns) =
    let rest = at_address f a ns in
    (if n.address == a then record n { rep = f n.rep } else n) ∷ rest

unfoldable pub increment : VersionRep → VersionRep
increment v = record v { ref_count = v.ref_count + 1 }

unfoldable pub decrement : VersionRep → VersionRep
decrement v = record v { ref_count = v.ref_count - 1 }

-- `if (m_rep) m_rep->ref()`
unfoldable pub ref : Option ℕ → List Node → List Node
ref none ns = ns
ref (some a) ns = at_address increment a ns

-- `if (m_rep) m_rep->deref()`
unfoldable pub deref : Option ℕ → List Node → List Node
deref none ns = ns
deref (some a) ns = at_address decrement a ns

unfoldable pub release : ℕ → VersionCenter → VersionCenter
release i c = record c { versions = deref (slot i c.held) c.versions; held = store i none c.held }

-- The constructor from a pointer and the copy constructor, for the guard in slot `i`.
unfoldable pub guard_of : Option ℕ → ℕ → VersionCenter → VersionCenter
guard_of g i c = record c { versions = ref g c.versions; held = store i g c.held }

unfoldable pub copy_guard : ℕ → ℕ → VersionCenter → VersionCenter
copy_guard i j c = guard_of (slot j c.held) i c

-- `operator=(const version_guard&)` of slot `i` to slot `j`: what `j` holds is read after the
-- release of `i`.
unfoldable pub copy_assign : ℕ → ℕ → VersionCenter → VersionCenter
copy_assign i j c = copy_guard i j (release i c)

-- The move constructor.
unfoldable pub move_guard : ℕ → ℕ → VersionCenter → VersionCenter
move_guard i j c = record c { held = store j none (store i (slot j c.held) c.held) }

-- `operator=(version_guard&&)`
unfoldable pub move_assign : ℕ → ℕ → VersionCenter → VersionCenter
move_assign i j c = move_guard i j (release i c)

unfoldable pub decay_as_immutable : ℕ → ℕ → VersionCenter → VersionCenter
decay_as_immutable i j c = move_guard i j (record c { lock = none })

-- `~mutable_version_guard`
unfoldable pub release_mutable : ℕ → VersionCenter → VersionCenter
release_mutable i c = release i (record c { lock = none })

-- `m_current = { rep }`: the temporary guard takes its reference before the old one is released.
unfoldable pub set_current : ℕ → VersionCenter → VersionCenter
set_current a c = record c {
  versions = deref c.current (ref (some a) c.versions);
  current = some a;
}

unfoldable pub last_node : List Node → Option Node
last_node [] = none
last_node (n ∷ []) = some n
last_node (n ∷ m ∷ ns) = last_node (m ∷ ns)

-- `m_versions.back()`, which an empty list does not have.
unfoldable pub back : List Node → Result Node
back ns = elim (last_node ns) [ none ↦ err out_of_bounds | some n ↦ ok n ]

unfoldable pub set_version_desc_name : List ℕ → VersionRep → VersionRep
set_version_desc_name name v = record v { version_desc_name = name }

-- The new version, its two names being the values of `get_version_descriptor_name`.
unfoldable pub successor : List ℕ → List ℕ → VersionRep → VersionRep
successor first_name name old = set_version_desc_name name (copy_version first_name old)

unfoldable pub emplace_back : VersionRep → VersionCenter → VersionCenter
emplace_back rep c = record c {
  versions = c.versions ++ record { address = c.next; rep = rep } ∷ [];
  next = c.next + 1;
}

-- The new guard is in slot `i` and owns the lock.
unfoldable pub add_successor : VersionRep → ℕ → VersionCenter → VersionCenter
add_successor rep i c =
    let added = set_current c.next (emplace_back rep c) in
    record (guard_of added.current i added) { lock = some i }

unfoldable pub add_new_version : List ℕ → List ℕ → ℕ → VersionCenter → Result VersionCenter
add_new_version first_name name i c = do
  old ← back c.versions
  ok (add_successor (successor first_name name old.rep) i c)

unfoldable pub current_version : ℕ → VersionCenter → VersionCenter
current_version i c = guard_of c.current i c

unfoldable pub is_garbage_in_mem : VersionRep → Bool
is_garbage_in_mem v = v.ref_count == 0

unfoldable pub erase_garbage : List Node → List Node
erase_garbage [] = []
erase_garbage (n ∷ ns) =
    let rest = erase_garbage ns in if is_garbage_in_mem n.rep then rest else n ∷ rest

unfoldable pub out_dated : List Node → List VersionRep
out_dated [] = []
out_dated (n ∷ ns) =
    let rest = out_dated ns in if is_garbage_in_mem n.rep then n.rep ∷ rest else rest

unfoldable pub gc : VersionCenter → VersionCenter
gc c = record c { versions = erase_garbage c.versions }

-- The versions that the callback is called with, and the state after them.
unfoldable pub gc_with : VersionCenter → List VersionRep × VersionCenter
gc_with c = (out_dated c.versions, gc c)

module _ ⦃u : UuidOrder⦄ where
  -- `mutable_version_guard::operator+=`
  unfoldable pub apply_to : VersionDelta → ℕ → VersionCenter → Result VersionCenter
  apply_to delta i c = elim (slot i c.held) [
    | none ↦ err assertion
    | some a ↦ ok (record c { versions = at_address (apply delta) a c.versions })
  ]

  unfoldable pub new_version : List ℕ → VersionDelta → VersionRep
  new_version name delta =
      apply delta (record { files = []; ref_count = 0; version_desc_name = name })

  -- `m_versions.emplace_front(name) += delta`
  unfoldable pub emplace_front : List ℕ × VersionDelta → VersionCenter → VersionCenter
  emplace_front (name, delta) c = record c {
    versions = record { address = c.next; rep = new_version name delta } ∷ c.versions;
    next = c.next + 1;
  }

  unfoldable pub emplace_all : List (List ℕ × VersionDelta) → VersionCenter → VersionCenter
  emplace_all [] c = c
  emplace_all (v ∷ vs) c = emplace_all vs (emplace_front v c)

  -- The names and the deltas are those that the descriptor files give, the current one first.
  unfoldable pub load_current_version :
      List ℕ × VersionDelta → List (List ℕ × VersionDelta) → VersionCenter → Result VersionCenter
  load_current_version (name, delta) others c = elim c.versions [
    | [] ↦ ok (emplace_all others (set_current c.next (emplace_front (name, delta) c)))
    | n ∷ ns ↦ err assertion
  ]

-- `version_center::version_center`
unfoldable pub new_center : VersionCenter
new_center = record { versions = []; current = none; held = []; lock = none; next = 0 }
