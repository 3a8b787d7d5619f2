-- ===== src/Version/Center/Adding.antt =====
-- Adding a version to the `version_center` of db/version.cc keeps the invariant.
use frenzy_kv.Prelude.{
  ℕ, ◌+◌, ◌≡◌, ◌≤◌, refl, arith, List, [], ◌∷◌, ◌++◌, none, some, ◌==◌, if◌then◌else◌, ok, err,
  Result, sym, ◌>>=◌,
}
use frenzy_kv.Version.{VersionRep, copy_version}
use frenzy_kv.Version.Center.{
  Node, VersionCenter, slot, ref, deref, guard_of, set_current, back, emplace_back, add_new_version,
  successor, add_successor, set_version_desc_name,
}
use frenzy_kv.Version.Center.Counting.{
  points, ref_count_at, present, slot-store, ref_count_absent, ref_count-ref, ref_count-deref,
  present-ref, present-deref, last_address-ref, last_address-deref,
}
use frenzy_kv.Version.Center.Invariant.{
  Inv, points-le, guard_of-Inv, ref_count_at-append, present-append, last_address_snoc,
}

pub current-present :
    (c : VersionCenter) → Inv c → (a : ℕ) → points a c.current ≤ present a c.versions
current-present c v a =
    ground (arith, v.counted a, v.unique a, ref_count_absent a c.versions, points-le a c.current)

-- A new last version without references becomes the current one.
pub added-Inv :
    (rep : VersionRep) (c : VersionCenter)
    → rep.ref_count ≡ 0
    → c.lock ≡ none
    → Inv c
    → Inv (set_current c.next (emplace_back rep c))
unfolding set_current emplace_back points
added-Inv rep c zero_refs free v = record {
  counted = λ a. ground (
    arith,
    v.counted a,
    v.unique a,
    v.fresh a,
    there a,
    counts a,
    ref_count-ref a (some c.next) ns,
    ref_count-deref a c.current (ref (some c.next) ns),
    present-ref a (some c.next) ns,
    points-le a c.current,
  );
  unique = λ a. ground (arith, v.unique a, v.fresh a, there a, kept a);
  fresh = λ a h. ground (arith, v.fresh a, there a, kept a);
  newest = ground (
    arith,
    last_address-deref c.current (ref (some c.next) ns),
    last_address-ref (some c.next) ns,
    last_address_snoc c.versions node,
  );
  locked = λ k h. ground arith;
}
  where
    node : Node
    node = record { address = c.next; rep = rep }

    ns : List Node
    ns = c.versions ++ node ∷ []

    there : (a : ℕ) → present a ns ≡ present a c.versions + (if c.next == a then 1 else 0)
    there a = unfold present in omega (arith, present-append a c.versions (node ∷ []))

    counts : (a : ℕ) → ref_count_at a ns ≡ ref_count_at a c.versions
    counts a = unfold ref_count_at in ground (arith, ref_count_at-append a c.versions (node ∷ []))

    kept : (a : ℕ) → present a (deref c.current (ref (some c.next) ns)) ≡ present a ns
    kept a =
        ground
          (arith, present-deref a c.current (ref (some c.next) ns), present-ref a (some c.next) ns)

pub unlocked-Inv : (c : VersionCenter) → Inv c → Inv (record c { lock = none })
unlocked-Inv c v = record {
  counted = v.counted;
  unique = v.unique;
  fresh = v.fresh;
  newest = v.newest;
  locked = λ i h. cc;
}

-- A guard that an unlocked center hands out as a mutable one.
locked_guard-Inv :
    (c : VersionCenter) (i : ℕ)
    → c.lock ≡ none
    → slot i c.held ≡ none
    → Inv c
    → Inv (record (guard_of c.current i c) { lock = some i })
locked_guard-Inv c i free e v =
    let w = guard_of-Inv c c.current i e (λ h. cc) (current-present c v) v in
    record {
      counted = w.counted;
      unique = w.unique;
      fresh = w.fresh;
      newest = w.newest;
      locked = λ k h. here k (ground arith);
    }
  where
    here : (k : ℕ) → i ≡ k → slot k (guard_of c.current i c).held ≡ (guard_of c.current i c).current
    here k h = unfold guard_of in rw (sym h) (slot-store i c.current c.held)

set_current-lock : (a : ℕ) (c : VersionCenter) → (set_current a c).lock ≡ c.lock
unfolding set_current
set_current-lock a c = refl

set_current-held : (a : ℕ) (c : VersionCenter) → (set_current a c).held ≡ c.held
unfolding set_current
set_current-held a c = refl

add_successor-Inv :
    (rep : VersionRep) (i : ℕ) (c : VersionCenter)
    → rep.ref_count ≡ 0
    → c.lock ≡ none
    → slot i c.held ≡ none
    → Inv c
    → Inv (add_successor rep i c)
unfolding add_successor
add_successor-Inv rep i c zero_refs free e v =
    locked_guard-Inv _ i (unfold set_current emplace_back in free)
      (unfold set_current emplace_back in e) (added-Inv rep c zero_refs free v)

successor-ref_count :
    (first_name name : List ℕ) (old : VersionRep) → (successor first_name name old).ref_count ≡ 0
unfolding successor set_version_desc_name copy_version
successor-ref_count first_name name old = refl

pub add_new_version-Inv :
    (first_name name : List ℕ) (i : ℕ) (c d : VersionCenter)
    → c.lock ≡ none
    → slot i c.held ≡ none
    → add_new_version first_name name i c ≡ ok d
    → Inv c
    → Inv d
unfolding add_new_version
add_new_version-Inv first_name name i c d free e h v = go (back c.versions) h
  where
    go :
        (r : Result Node)
        → (r >>= λ old. ok (add_successor (successor first_name name old.rep) i c)) ≡ ok d
        → Inv d
    go (ok old) h =
        let q : d ≡ add_successor (successor first_name name old.rep) i c = cc in
        rw q (add_successor-Inv _ i c (successor-ref_count first_name name old.rep) free e v)
    go (err x) h = cc
