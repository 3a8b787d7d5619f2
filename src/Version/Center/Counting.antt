-- ===== src/Version/Center/Counting.antt =====
-- How the operations of db/version.cc move references: the guards that hold an address, the nodes
-- that stand at it and the reference counts there.
use frenzy_kv.Prelude.{
  ℕ, zero, suc, ◌+◌, ◌-◌, ◌≡◌, ◌≤◌, refl, arith, List, [], ◌∷◌, Option, none, some, false, ◌==◌,
  if◌then◌else◌,
}
use frenzy_kv.Version.{FileRep, VersionRep}
use frenzy_kv.Version.Center.{Node, slot, store, at_address, increment, decrement, ref, deref}

unfoldable pub points : ℕ → Option ℕ → ℕ
points a none = 0
points a (some b) = if b == a then 1 else 0

unfoldable pub refs : ℕ → List (Option ℕ) → ℕ
refs a [] = 0
refs a (g ∷ gs) = points a g + refs a gs

unfoldable pub ref_count_at : ℕ → List Node → ℕ
ref_count_at a [] = 0
ref_count_at a (n ∷ ns) = (if n.address == a then n.rep.ref_count else 0) + ref_count_at a ns

unfoldable pub present : ℕ → List Node → ℕ
present a [] = 0
present a (n ∷ ns) = (if n.address == a then 1 else 0) + present a ns

unfoldable pub last_address : List Node → Option ℕ
last_address [] = none
last_address (n ∷ []) = some n.address
last_address (n ∷ m ∷ ns) = last_address (m ∷ ns)

unfoldable pub files_at : ℕ → List Node → Option (List FileRep)
files_at a [] = none
files_at a (n ∷ ns) = let rest = files_at a ns in if n.address == a then some n.rep.files else rest

pub refs-store :
    (a i : ℕ) (x : Option ℕ) (gs : List (Option ℕ))
    → refs a (store i x gs) + points a (slot i gs) ≡ refs a gs + points a x
unfolding refs store slot points
refs-store a zero x [] = omega arith
refs-store a (suc i) x [] = ground (arith, refs-store a i x [])
refs-store a zero x (g ∷ gs) = omega arith
refs-store a (suc i) x (g ∷ gs) = omega (arith, refs-store a i x gs)

pub slot-store : (i : ℕ) (x : Option ℕ) (gs : List (Option ℕ)) → slot i (store i x gs) ≡ x
unfolding slot store
slot-store zero x [] = refl
slot-store (suc i) x [] = slot-store i x []
slot-store zero x (g ∷ gs) = refl
slot-store (suc i) x (g ∷ gs) = slot-store i x gs

pub slot-store_other :
    (k i : ℕ) (x : Option ℕ) (gs : List (Option ℕ))
    → (k == i) ≡ false
    → slot k (store i x gs) ≡ slot k gs
unfolding slot store
slot-store_other zero zero x gs h = ground arith
slot-store_other (suc k) zero x [] h = refl
slot-store_other (suc k) zero x (g ∷ gs) h = refl
slot-store_other zero (suc i) x [] h = refl
slot-store_other zero (suc i) x (g ∷ gs) h = refl
slot-store_other (suc k) (suc i) x [] h = ground (arith, slot-store_other k i x [])
slot-store_other (suc k) (suc i) x (g ∷ gs) h = ground (arith, slot-store_other k i x gs)

pub points-slot-le : (a i : ℕ) (gs : List (Option ℕ)) → points a (slot i gs) ≤ refs a gs
unfolding refs slot points
points-slot-le a i [] = omega arith
points-slot-le a zero (g ∷ gs) = omega arith
points-slot-le a (suc i) (g ∷ gs) = omega (arith, points-slot-le a i gs)

pub present-at_address :
    (f : VersionRep → VersionRep) (a b : ℕ) (ns : List Node)
    → present a (at_address f b ns) ≡ present a ns
unfolding present at_address
present-at_address f a b [] = refl
present-at_address f a b (n ∷ ns) = ground (arith, present-at_address f a b ns)

pub last_address-at_address :
    (f : VersionRep → VersionRep) (b : ℕ) (ns : List Node)
    → last_address (at_address f b ns) ≡ last_address ns
unfolding last_address at_address
last_address-at_address f b [] = refl
last_address-at_address f b (n ∷ []) = ground arith
last_address-at_address f b (n ∷ m ∷ ns) = ground (arith, last_address-at_address f b (m ∷ ns))

pub ref_count_absent : (a : ℕ) (ns : List Node) → present a ns ≡ 0 → ref_count_at a ns ≡ 0
unfolding present ref_count_at
ref_count_absent a [] h = refl
ref_count_absent a (n ∷ ns) h = ground (arith, ref_count_absent a ns)

increment_count :
    (a b : ℕ) (ns : List Node)
    → ref_count_at a (at_address increment b ns)
      ≡ ref_count_at a ns + (if b == a then present a ns else 0)
unfolding ref_count_at at_address increment present
increment_count a b [] = ground arith
increment_count a b (n ∷ ns) = ground (arith, increment_count a b ns)

decrement_count :
    (a b : ℕ) (ns : List Node)
    → present a ns ≤ 1
    → ref_count_at a (at_address decrement b ns) ≡ ref_count_at a ns - (if b == a then 1 else 0)
unfolding ref_count_at at_address decrement present
decrement_count a b [] h = ground arith
decrement_count a b (n ∷ ns) h = ground (
  arith,
  decrement_count a b ns,
  ref_count_absent a ns,
  ref_count_absent a (at_address decrement b ns),
  present-at_address decrement a b ns,
)

pub ref_count-ref :
    (a : ℕ) (g : Option ℕ) (ns : List Node)
    → points a g ≤ present a ns
    → present a ns ≤ 1
    → ref_count_at a (ref g ns) ≡ ref_count_at a ns + points a g
unfolding ref points
ref_count-ref a none ns h k = omega arith
ref_count-ref a (some b) ns h k = ground (arith, increment_count a b ns)

pub ref_count-deref :
    (a : ℕ) (g : Option ℕ) (ns : List Node)
    → present a ns ≤ 1
    → ref_count_at a (deref g ns) ≡ ref_count_at a ns - points a g
unfolding deref points
ref_count-deref a none ns h = omega arith
ref_count-deref a (some b) ns h = decrement_count a b ns h

pub present-ref : (a : ℕ) (g : Option ℕ) (ns : List Node) → present a (ref g ns) ≡ present a ns
unfolding ref
present-ref a none ns = refl
present-ref a (some b) ns = present-at_address increment a b ns

pub present-deref : (a : ℕ) (g : Option ℕ) (ns : List Node) → present a (deref g ns) ≡ present a ns
unfolding deref
present-deref a none ns = refl
present-deref a (some b) ns = present-at_address decrement a b ns

pub last_address-ref : (g : Option ℕ) (ns : List Node) → last_address (ref g ns) ≡ last_address ns
unfolding ref
last_address-ref none ns = refl
last_address-ref (some b) ns = last_address-at_address increment b ns

pub last_address-deref :
    (g : Option ℕ) (ns : List Node) → last_address (deref g ns) ≡ last_address ns
unfolding deref
last_address-deref none ns = refl
last_address-deref (some b) ns = last_address-at_address decrement b ns
