-- ===== src/Version/Center/Garbage.antt =====
-- What `erase_if(m_versions, is_garbage_in_mem)` of db/version.cc leaves.
use frenzy_kv.Prelude.{ℕ, ◌≡◌, ◌≤◌, ◌<◌, refl, arith, List, [], ◌∷◌, some, min}
use frenzy_kv.Version.Center.{Node, erase_garbage, is_garbage_in_mem}
use frenzy_kv.Version.Center.Counting.{
  ref_count_at, present, last_address, files_at, ref_count_absent,
}

ruleset erasing = (arith, ref_count_absent)

pub ref_count-erase_garbage :
    (a : ℕ) (ns : List Node) → ref_count_at a (erase_garbage ns) ≡ ref_count_at a ns
unfolding ref_count_at erase_garbage is_garbage_in_mem
ref_count-erase_garbage a [] = refl
ref_count-erase_garbage a (n ∷ ns) = ground (arith, ref_count-erase_garbage a ns)

pub present-erase_garbage_le :
    (a : ℕ) (ns : List Node) → present a (erase_garbage ns) ≤ present a ns
unfolding present erase_garbage is_garbage_in_mem
present-erase_garbage_le a [] = omega arith
present-erase_garbage_le a (n ∷ ns) = ground (arith, present-erase_garbage_le a ns)

-- A version stays if and only if its count is positive.
pub present-erase_garbage :
    (a : ℕ) (ns : List Node)
    → present a ns ≤ 1
    → present a (erase_garbage ns) ≡ min 1 (ref_count_at a ns)
unfolding present erase_garbage is_garbage_in_mem ref_count_at
present-erase_garbage a [] h = omega arith
present-erase_garbage a (n ∷ ns) h =
    ground (arith, present-erase_garbage a ns, present-erase_garbage_le a ns, ref_count_absent a ns)

last_present : (a : ℕ) (ns : List Node) → last_address ns ≡ some a → 0 < present a ns
unfolding last_address present
last_present a [] h = cc
last_present a (n ∷ []) h = ground arith
last_present a (n ∷ m ∷ ns) h = ground (arith, last_present a (m ∷ ns))

pub last_behind :
    (a : ℕ) (n : Node) (ns : List Node) → last_address ns ≡ some a → last_address (n ∷ ns) ≡ some a
unfolding last_address
last_behind a n [] h = cc
last_behind a n (m ∷ ns) h = h

pub last_address-erase_garbage :
    (a : ℕ) (ns : List Node)
    → last_address ns ≡ some a
    → present a ns ≤ 1
    → 0 < ref_count_at a ns
    → last_address (erase_garbage ns) ≡ some a
unfolding last_address present ref_count_at erase_garbage is_garbage_in_mem
last_address-erase_garbage a [] h u r = cc
last_address-erase_garbage a (n ∷ []) h u r = ground arith
last_address-erase_garbage a (n ∷ m ∷ ns) h u r = ground (
  arith,
  last_present a (m ∷ ns),
  last_address-erase_garbage a (m ∷ ns),
  last_behind a n (erase_garbage (m ∷ ns)),
)

pub files_at-erase_garbage :
    (a : ℕ) (ns : List Node)
    → present a ns ≤ 1
    → 0 < ref_count_at a ns
    → files_at a (erase_garbage ns) ≡ files_at a ns
unfolding files_at present ref_count_at erase_garbage is_garbage_in_mem
files_at-erase_garbage a [] u r = refl
files_at-erase_garbage a (n ∷ ns) u r =
    ground (arith, files_at-erase_garbage a ns, ref_count_absent a ns)
