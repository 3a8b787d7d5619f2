-- ===== src/Version/Center/Invariant.antt =====
-- What holds of a `version_center` of db/version.cc and of the guards after any steps.
use frenzy_kv.Prelude.{
  ℕ, ◌+◌, ◌≡◌, ◌≢◌, ◌≤◌, ◌<◌, refl, arith, List, [], ◌∷◌, ◌++◌, Option, none, some, ◌==◌,
  Bool-cases, inl, inr, eq_of_==,
}
use frenzy_kv.Version.Center.{Node, VersionCenter, slot, store, release, guard_of, move_guard}
use frenzy_kv.Version.Center.Counting.{
  points, refs, ref_count_at, present, last_address, refs-store, slot-store, slot-store_other,
  points-slot-le, ref_count_absent, ref_count-ref, ref_count-deref, present-ref, present-deref,
  last_address-ref, last_address-deref,
}

-- The count of a version is the number of the guards that hold it, no two versions stand at one
-- address, the current version is the last one, and the guard that owns the lock holds it.
pub record Inv (c : VersionCenter) : Type 0 where
  pub counted : (a : ℕ) → ref_count_at a c.versions ≡ points a c.current + refs a c.held
  pub unique : (a : ℕ) → present a c.versions ≤ 1
  pub fresh : (a : ℕ) → c.next ≤ a → present a c.versions ≡ 0
  pub newest : last_address c.versions ≡ c.current
  pub locked : (i : ℕ) → c.lock ≡ some i → slot i c.held ≡ c.current

-- What a guard refers to is there.
pub guarded-present :
    (c : VersionCenter)
    → Inv c
    → (a : ℕ) → 0 < points a c.current + refs a c.held
    → present a c.versions ≡ 1
guarded-present c v a h = ground (arith, v.counted a, v.unique a, ref_count_absent a c.versions)

pub points-le : (a : ℕ) (g : Option ℕ) → points a g ≤ 1
unfolding points
points-le a none = omega arith
points-le a (some b) = ground arith

pub slot-present :
    (c : VersionCenter) → Inv c → (a j : ℕ) → points a (slot j c.held) ≤ present a c.versions
slot-present c v a j = ground (
  arith,
  v.counted a,
  v.unique a,
  ref_count_absent a c.versions,
  points-slot-le a j c.held,
  points-le a (slot j c.held),
)

pub release-Inv : (c : VersionCenter) (i : ℕ) → c.lock ≢ some i → Inv c → Inv (release i c)
unfolding release points
release-Inv c i free v = record {
  counted = λ a. ground (
    arith,
    v.counted a,
    v.unique a,
    ref_count-deref a (slot i c.held) c.versions,
    refs-store a i none c.held,
    points-slot-le a i c.held,
  );
  unique = λ a. ground (arith, v.unique a, present-deref a (slot i c.held) c.versions);
  fresh = λ a h. ground (arith, v.fresh a h, present-deref a (slot i c.held) c.versions);
  newest = ground (arith, v.newest, last_address-deref (slot i c.held) c.versions);
  locked = λ k h. ground (arith, v.locked k h, slot-store_other k i none c.held);
}

pub guard_of-Inv :
    (c : VersionCenter) (g : Option ℕ) (i : ℕ)
    → slot i c.held ≡ none
    → c.lock ≢ some i
    → ((a : ℕ) → points a g ≤ present a c.versions)
    → Inv c
    → Inv (guard_of g i c)
unfolding guard_of points
guard_of-Inv c g i e free live v = record {
  counted = λ a. ground (
    arith,
    v.counted a,
    v.unique a,
    live a,
    ref_count-ref a g c.versions,
    refs-store a i g c.held,
  );
  unique = λ a. ground (arith, v.unique a, present-ref a g c.versions);
  fresh = λ a h. ground (arith, v.fresh a h, present-ref a g c.versions);
  newest = ground (arith, v.newest, last_address-ref g c.versions);
  locked = λ k h. ground (arith, v.locked k h, slot-store_other k i g c.held);
}

pub move_guard-Inv :
    (c : VersionCenter) (i j : ℕ)
    → slot i c.held ≡ none
    → c.lock ≢ some i
    → c.lock ≢ some j
    → Inv c
    → Inv (move_guard i j c)
unfolding move_guard points
move_guard-Inv c i j e free free_j v = record {
  counted = λ a.
      ground
        (arith, v.counted a, refs-store a i x c.held, refs-store a j none (store i x c.held), kept);
  unique = v.unique;
  fresh = v.fresh;
  newest = v.newest;
  locked = λ k h. ground (
    arith,
    v.locked k h,
    slot-store_other k i x c.held,
    slot-store_other k j none (store i x c.held),
  );
}
  where
    x : Option ℕ
    x = slot j c.held

    kept : slot j (store i x c.held) ≡ x
    kept = elim (Bool-cases (j == i)) [
      | inl h ↦ rw (eq_of_== j i h) (slot-store i (slot i c.held) c.held)
      | inr h ↦ slot-store_other j i x c.held h
    ]

pub ref_count_at-append :
    (a : ℕ) (ms ns : List Node) → ref_count_at a (ms ++ ns) ≡ ref_count_at a ms + ref_count_at a ns
unfolding ref_count_at
ref_count_at-append a [] ns = omega arith
ref_count_at-append a (m ∷ ms) ns = omega (arith, ref_count_at-append a ms ns)

pub present-append :
    (a : ℕ) (ms ns : List Node) → present a (ms ++ ns) ≡ present a ms + present a ns
unfolding present
present-append a [] ns = omega arith
present-append a (m ∷ ms) ns = omega (arith, present-append a ms ns)

pub last_address_snoc : (ns : List Node) (n : Node) → last_address (ns ++ n ∷ []) ≡ some n.address
unfolding last_address
last_address_snoc [] n = refl
last_address_snoc (m ∷ []) n = refl
last_address_snoc (m ∷ k ∷ ns) n = last_address_snoc (k ∷ ns) n
