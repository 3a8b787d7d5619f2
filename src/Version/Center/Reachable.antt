-- ===== src/Version/Center/Reachable.antt =====
-- The invariant of the versions of db/version.cc holds after any steps.
use frenzy_kv.Prelude.{
  ℕ, ◌≡◌, ◌≢◌, refl, arith, List, [], ◌∷◌, Option, none, some, ok, err, sym, ◌∙◌, assertion,
}
use frenzy_kv.Version.{UuidOrder, VersionDelta, VersionRep, apply}
use frenzy_kv.Version.Center.{
  Node, VersionCenter, slot, at_address, release, copy_guard, copy_assign, move_assign,
  decay_as_immutable, release_mutable, set_current, emplace_back, current_version, gc, apply_to,
  erase_garbage, new_center, new_version, emplace_front, emplace_all, load_current_version,
}
use frenzy_kv.Version.Center.Counting.{
  points, refs, ref_count_at, present, last_address, slot-store, present-at_address,
  last_address-at_address,
}
use frenzy_kv.Version.Center.Garbage.{
  ref_count-erase_garbage, present-erase_garbage_le, last_address-erase_garbage, last_behind,
}
use frenzy_kv.Version.Center.Invariant.{
  Inv, slot-present, release-Inv, guard_of-Inv, move_guard-Inv,
}
use frenzy_kv.Version.Center.Steps.{
  Step, loads, adds, applies, decays, releases_mutable, reads, collects, copies, moves,
  copy_assigns, move_assigns, releases, Reach, start, later,
}
use frenzy_kv.Version.Center.Adding.{current-present, added-Inv, unlocked-Inv, add_new_version-Inv}

last_address_cons : (n : Node) (ns : List Node) → last_address (n ∷ ns) ≢ none
unfolding last_address
last_address_cons n [] h = cc
last_address_cons n (m ∷ ns) h = last_address_cons m ns h

nothing_erased : (ns : List Node) → last_address ns ≡ none → last_address (erase_garbage ns) ≡ none
unfolding last_address erase_garbage
nothing_erased [] h = refl
nothing_erased (n ∷ ns) h = absurd (last_address_cons n ns h)

current_kept :
    (c : VersionCenter)
    → Inv c
    → (g : Option ℕ) → c.current ≡ g
    → last_address (erase_garbage c.versions) ≡ g
unfolding points
current_kept c v none h = nothing_erased c.versions (cc)
current_kept c v (some a) h =
    last_address-erase_garbage a c.versions (cc) (v.unique a) (ground (arith, v.counted a))

gc-Inv : (c : VersionCenter) → Inv c → Inv (gc c)
unfolding gc
gc-Inv c v = record {
  counted = λ a. ground (arith, v.counted a, ref_count-erase_garbage a c.versions);
  unique = λ a. ground (arith, v.unique a, present-erase_garbage_le a c.versions);
  fresh = λ a h. ground (arith, v.fresh a, present-erase_garbage_le a c.versions);
  newest = current_kept c v c.current refl;
  locked = v.locked;
}

module _ ⦃u : UuidOrder⦄ where
  apply-ref_count :
      (delta : VersionDelta) (v : VersionRep) → (apply delta v).ref_count ≡ v.ref_count
  unfolding apply
  apply-ref_count delta v = ground arith

  applied-ref_count :
      (delta : VersionDelta) (a b : ℕ) (ns : List Node)
      → ref_count_at a (at_address (apply delta) b ns) ≡ ref_count_at a ns
  unfolding ref_count_at at_address
  applied-ref_count delta a b [] = refl
  applied-ref_count delta a b (n ∷ ns) =
      ground (arith, applied-ref_count delta a b ns, apply-ref_count delta n.rep)

  apply_to-Inv :
      (delta : VersionDelta) (i : ℕ) (c d : VersionCenter)
      → apply_to delta i c ≡ ok d
      → Inv c
      → Inv d
  unfolding apply_to
  apply_to-Inv delta i c d h v = go (slot i c.held) h
    where
      go :
          (g : Option ℕ)
          → (elim g [
            | none ↦ err assertion
            | some a ↦ ok (record c { versions = at_address (apply delta) a c.versions })
          ])
            ≡ ok d
          → Inv d
      go none h = cc
      go (some b) h =
          let q : d ≡ record c { versions = at_address (apply delta) b c.versions } = cc in
          rw q (record {
            counted = λ a. ground (arith, v.counted a, applied-ref_count delta a b c.versions);
            unique =
                λ a. ground (arith, v.unique a, present-at_address (apply delta) a b c.versions);
            fresh =
                λ a h. ground (arith, v.fresh a, present-at_address (apply delta) a b c.versions);
            newest = ground (arith, v.newest, last_address-at_address (apply delta) b c.versions);
            locked = v.locked;
          })

  new_version-ref_count :
      (name : List ℕ) (delta : VersionDelta) → (new_version name delta).ref_count ≡ 0
  unfolding new_version
  new_version-ref_count name delta = apply-ref_count delta _

  emplace_front-Inv :
      (name : List ℕ) (delta : VersionDelta) (c : VersionCenter)
      → c.current ≢ none
      → Inv c
      → Inv (emplace_front (name, delta) c)
  unfolding emplace_front present ref_count_at
  emplace_front-Inv name delta c loaded v = record {
    counted = λ a. ground (arith, v.counted a, new_version-ref_count name delta);
    unique = λ a. ground (arith, v.unique a, v.fresh a);
    fresh = λ a h. ground (arith, v.fresh a);
    newest = go c.current _ refl;
    locked = v.locked;
  }
    where
      go : (g : Option ℕ) (n : Node) → c.current ≡ g → last_address (n ∷ c.versions) ≡ c.current
      go none n h = absurd (loaded h)
      go (some a) n h = last_behind a n c.versions (cc) ∙ sym h

  emplace_all-Inv :
      (others : List (List ℕ × VersionDelta)) (c : VersionCenter)
      → c.current ≢ none
      → Inv c
      → Inv (emplace_all others c)
  unfolding emplace_all
  emplace_all-Inv [] c loaded v = v
  emplace_all-Inv ((name, delta) ∷ others) c loaded v =
      emplace_all-Inv others (emplace_front (name, delta) c) (unfold emplace_front in loaded)
        (emplace_front-Inv name delta c loaded v)

  load-Inv :
      (newest : List ℕ × VersionDelta) (others : List (List ℕ × VersionDelta)) (c d : VersionCenter)
      → c.lock ≡ none
      → load_current_version newest others c ≡ ok d
      → Inv c
      → Inv d
  unfolding load_current_version
  load-Inv (name, delta) others c d free h v = go c.versions refl h
    where
      first : VersionCenter
      first = set_current c.next (emplace_front (name, delta) c)

      go :
          (ns : List Node)
          → c.versions ≡ ns
          → (elim ns [ [] ↦ ok (emplace_all others first) | m ∷ ms ↦ err assertion ]) ≡ ok d
          → Inv d
      go (m ∷ ms) e h = cc
      go [] e h =
          let q : d ≡ emplace_all others first = cc in
          let same : emplace_back (new_version name delta) c ≡ emplace_front (name, delta) c =
            unfold emplace_back emplace_front in rw e refl in
          rw q (
            emplace_all-Inv others first (unfold set_current in λ x. cc) (
              rw (sym same)
                (added-Inv (new_version name delta) c (new_version-ref_count name delta) free v)))

  -- Every step keeps the invariant.
  pub Step-Inv : {c d : VersionCenter} → Step c d → Inv c → Inv d
  unfolding current_version copy_guard copy_assign move_assign decay_as_immutable release_mutable
      release
  Step-Inv {c} {d} (loads newest others free h) v = load-Inv newest others c d free h v
  Step-Inv {c} {d} (adds first_name name i free e h) v =
      add_new_version-Inv first_name name i c d free e h v
  Step-Inv {c} {d} (applies delta i l h) v = apply_to-Inv delta i c d h v
  Step-Inv {c} (decays i j l e) v = move_guard-Inv _ i j e (λ h. cc) (λ h. cc) (unlocked-Inv c v)
  Step-Inv {c} (releases_mutable i l) v = release-Inv _ i (λ h. cc) (unlocked-Inv c v)
  Step-Inv {c} (reads i free e) v = guard_of-Inv c c.current i e (λ h. cc) (current-present c v) v
  Step-Inv {c} (collects free) v = gc-Inv c v
  Step-Inv {c} (copies i j e f) v =
      guard_of-Inv c (slot j c.held) i e f (λ a. slot-present c v a j) v
  Step-Inv {c} (moves i j e f g) v = move_guard-Inv c i j e f g v
  Step-Inv {c} (copy_assigns i j f) v =
      let w = release-Inv c i f v in
      guard_of-Inv (release i c) (slot j (release i c).held) i (slot-store i none c.held) f
        (λ a. slot-present (release i c) w a j) w
  Step-Inv {c} (move_assigns i j f g) v =
      move_guard-Inv (release i c) i j (slot-store i none c.held) f g (release-Inv c i f v)
  Step-Inv {c} (releases i f) v = release-Inv c i f v

  new_center-Inv : Inv new_center
  unfolding new_center ref_count_at points refs present last_address
  new_center-Inv = record {
    counted = λ a. refl;
    unique = λ a. omega arith;
    fresh = λ a h. refl;
    newest = refl;
    locked = λ i h. cc;
  }

  -- In every state that the steps reach, the reference count of a version is the number of the guards
  -- that refer to it, no two versions stand at one address, the current version is the last of the
  -- list, and a mutable guard that owns the lock refers to the current version.
  pub Reach-Inv : {c : VersionCenter} → Reach c → Inv c
  Reach-Inv start = new_center-Inv
  Reach-Inv (later r s) = Step-Inv s (Reach-Inv r)
