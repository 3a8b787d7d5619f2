-- ===== src/Version/Center/Safety.antt =====
-- What a guard promises the code that holds it, in db/version.cc and include/frenzykv/db/version.h.
use frenzy_kv.Prelude.{
  ℕ, ◌+◌, ◌≡◌, ◌≢◌, ◌<◌, ◌⊎◌, inl, inr, refl, sym, arith, List, [], ◌∷◌, ◌++◌, Option, none, some,
  false, ◌==◌, ok, err, Result, ◌>>=◌, ◌∙◌, min, assertion, ap, Bool-cases, eq_of_==,
}
use frenzy_kv.Version.{UuidOrder, VersionDelta, VersionRep, apply}
use frenzy_kv.Version.Center.{
  Node, VersionCenter, slot, ref, deref, at_address, increment, decrement, release, guard_of,
  copy_guard, copy_assign, move_guard, move_assign, decay_as_immutable, release_mutable,
  set_current, back, emplace_back, add_new_version, add_successor, successor, current_version, gc,
  apply_to, load_current_version, emplace_front, emplace_all,
}
use frenzy_kv.Version.Center.Counting.{points, refs, present, files_at, points-slot-le}
use frenzy_kv.Version.Center.Garbage.{present-erase_garbage, files_at-erase_garbage}
use frenzy_kv.Version.Center.Invariant.{Inv, guarded-present}
use frenzy_kv.Version.Center.Steps.{
  Step, loads, adds, applies, decays, releases_mutable, reads, collects, copies, moves,
  copy_assigns, move_assigns, releases, Reach,
}
use frenzy_kv.Version.Center.Reachable.{Step-Inv, Reach-Inv}

files_at-at_address :
    (f : VersionRep → VersionRep)
    → ((v : VersionRep) → (f v).files ≡ v.files)
    → (a b : ℕ) (ns : List Node) → files_at a (at_address f b ns) ≡ files_at a ns
unfolding files_at at_address
files_at-at_address f same a b [] = refl
files_at-at_address f same a b (n ∷ ns) =
    ground (arith, same n.rep, files_at-at_address f same a b ns)

files_at-at_other :
    (f : VersionRep → VersionRep) (a b : ℕ) (ns : List Node)
    → (b == a) ≡ false
    → files_at a (at_address f b ns) ≡ files_at a ns
unfolding files_at at_address
files_at-at_other f a b [] h = refl
files_at-at_other f a b (n ∷ ns) h = ground (arith, files_at-at_other f a b ns)

files_at-ref : (a : ℕ) (g : Option ℕ) (ns : List Node) → files_at a (ref g ns) ≡ files_at a ns
unfolding ref increment
files_at-ref a none ns = refl
files_at-ref a (some b) ns = files_at-at_address increment (λ v. refl) a b ns

files_at-deref : (a : ℕ) (g : Option ℕ) (ns : List Node) → files_at a (deref g ns) ≡ files_at a ns
unfolding deref decrement
files_at-deref a none ns = refl
files_at-deref a (some b) ns = files_at-at_address decrement (λ v. refl) a b ns

files_at-append :
    (a : ℕ) (ms ns : List Node) → present a ns ≡ 0 → files_at a (ms ++ ns) ≡ files_at a ms
unfolding files_at present
files_at-append a [] [] h = refl
files_at-append a [] (n ∷ ns) h = ground (arith, files_at-append a [] ns)
files_at-append a (m ∷ ms) ns h = ground (arith, files_at-append a ms ns h)

module _ (c : VersionCenter) (a : ℕ) where
  release-files : (i : ℕ) → files_at a (release i c).versions ≡ files_at a c.versions
  unfolding release
  release-files i = files_at-deref a (slot i c.held) c.versions

  guard_of-files :
      (g : Option ℕ) (i : ℕ) → files_at a (guard_of g i c).versions ≡ files_at a c.versions
  unfolding guard_of
  guard_of-files g i = files_at-ref a g c.versions

  add_successor-files :
      (rep : VersionRep) (i : ℕ)
      → (c.next == a) ≡ false
      → files_at a (add_successor rep i c).versions ≡ files_at a c.versions
  unfolding add_successor guard_of set_current emplace_back present
  add_successor-files rep i h =
      let node : Node = record { address = c.next; rep = rep } in
      let ns = c.versions ++ node ∷ [] in
      files_at-ref a (some c.next) _
      ∙ files_at-deref a c.current (ref (some c.next) ns)
      ∙ files_at-ref a (some c.next) ns
      ∙ files_at-append a c.versions (node ∷ []) (ground arith)

add_new_version-files :
    (first_name name : List ℕ) (i : ℕ) (c d : VersionCenter) (a : ℕ)
    → (c.next == a) ≡ false
    → add_new_version first_name name i c ≡ ok d
    → files_at a d.versions ≡ files_at a c.versions
unfolding add_new_version
add_new_version-files first_name name i c d a other h = go (back c.versions) h
  where
    go :
        (r : Result Node)
        → (r >>= λ old. ok (add_successor (successor first_name name old.rep) i c)) ≡ ok d
        → files_at a d.versions ≡ files_at a c.versions
    go (ok old) h =
        let q : d ≡ add_successor (successor first_name name old.rep) i c = cc in
        rw q (add_successor-files c a _ i other)
    go (err x) h = cc

-- In a reachable state collecting garbage leaves exactly one version at every address that a
-- guard, the center's own included, refers to, and none elsewhere.
pub present-gc :
    ⦃u : UuidOrder⦄ {c : VersionCenter} (a : ℕ)
    → Reach c
    → present a (gc c).versions ≡ min 1 (points a c.current + refs a c.held)
unfolding gc
present-gc {c} a r =
    let v = Reach-Inv r in
    ground (arith, present-erase_garbage a c.versions (v.unique a), v.counted a)

module _ ⦃u : UuidOrder⦄ where
  apply_to-files :
      (delta : VersionDelta) (i : ℕ) (c d : VersionCenter) (a : ℕ)
      → slot i c.held ≢ some a
      → apply_to delta i c ≡ ok d
      → files_at a d.versions ≡ files_at a c.versions
  unfolding apply_to
  apply_to-files delta i c d a other h = go (slot i c.held) refl h
    where
      differs : (b : ℕ) → slot i c.held ≡ some b → (b == a) ≡ false
      differs b e = elim (Bool-cases (b == a)) [
        | inl same ↦ absurd (other (e ∙ ap some (eq_of_== b a same)))
        | inr h ↦ h
      ]

      go :
          (g : Option ℕ)
          → slot i c.held ≡ g
          → (elim g [
            | none ↦ err assertion
            | some b ↦ ok (record c { versions = at_address (apply delta) b c.versions })
          ])
            ≡ ok d
          → files_at a d.versions ≡ files_at a c.versions
      go none e h = cc
      go (some b) e h =
          let q : d ≡ record c { versions = at_address (apply delta) b c.versions } = cc in
          rw q (files_at-at_other (apply delta) a b c.versions (differs b e))

  loads_nothing-files :
      (newest : List ℕ × VersionDelta) (others : List (List ℕ × VersionDelta)) (c d : VersionCenter)
      (a : ℕ)
      → present a c.versions ≡ 1
      → load_current_version newest others c ≢ ok d
  unfolding load_current_version present
  loads_nothing-files (name, delta) others c d a there h = go c.versions refl h
    where
      go :
          (ns : List Node)
          → c.versions ≡ ns
          → (elim ns [
            | [] ↦ ok (emplace_all others (set_current c.next (emplace_front (name, delta) c)))
            | m ∷ ms ↦ err assertion
          ])
            ≢ ok d
      go (m ∷ ms) e h = cc
      go [] e h = absurd (omega (arith, sym there ∙ ap (present a) e))

  Step-files :
      {c d : VersionCenter} (a : ℕ)
      → Inv c
      → Step c d
      → present a c.versions ≡ 1
      → 0 < points a c.current + refs a c.held
      → (c.lock ≡ none) ⊎ (c.current ≢ some a)
      → files_at a d.versions ≡ files_at a c.versions
  unfolding current_version copy_guard copy_assign move_guard move_assign decay_as_immutable
      release_mutable gc
  Step-files {c} {d} a v (loads newest others l h) there held quiet =
      absurd (loads_nothing-files newest others c d a there h)
  Step-files {c} {d} a v (adds first_name name i l e h) there held quiet =
      add_new_version-files first_name name i c d a (ground (arith, v.fresh a)) h
  Step-files {c} {d} a v (applies delta i l h) there held (inl free) = absurd (cc)
  Step-files {c} {d} a v (applies delta i l h) there held (inr other) =
      apply_to-files delta i c d a (λ e. other (sym (v.locked i l) ∙ e)) h
  Step-files a v (decays i j l e) there held quiet = refl
  Step-files {c} a v (releases_mutable i l) there held quiet =
      release-files (record c { lock = none }) a i
  Step-files {c} a v (reads i l e) there held quiet = guard_of-files c a c.current i
  Step-files {c} a v (collects l) there held quiet =
      files_at-erase_garbage a c.versions (v.unique a) (ground (arith, v.counted a))
  Step-files {c} a v (copies i j e f) there held quiet = guard_of-files c a (slot j c.held) i
  Step-files a v (moves i j e f g) there held quiet = refl
  Step-files {c} a v (copy_assigns i j f) there held quiet =
      guard_of-files (release i c) a (slot j (release i c).held) i ∙ release-files c a i
  Step-files {c} a v (move_assigns i j f g) there held quiet = release-files c a i
  Step-files {c} a v (releases i f) there held quiet = release-files c a i

  slot-held :
      (a k : ℕ) (c : VersionCenter)
      → slot k c.held ≡ some a
      → 0 < points a c.current + refs a c.held
  slot-held a k c e =
      let one : points a (slot k c.held) ≡ 1 = unfold points in rw e (ground arith) in
      omega (arith, one, points-slot-le a k c.held)

  -- What a guard holds has the same files after any step from a reachable state, unless it is the
  -- current version and a mutable guard owns the lock, and is still there as long as the guard
  -- holds it.
  pub held_version-files :
      {c d : VersionCenter} (k a : ℕ)
      → Reach c
      → Step c d
      → slot k c.held ≡ some a
      → (c.lock ≡ none) ⊎ (c.current ≢ some a)
      → (files_at a d.versions ≡ files_at a c.versions)
        × (slot k d.held ≡ some a → present a d.versions ≡ 1)
  held_version-files {c} {d} k a r s e quiet =
      let v = Reach-Inv r in
      let held = slot-held a k c e in
      (
        Step-files a v s (guarded-present c v a held) held quiet,
        λ still. guarded-present d (Step-Inv s v) a (slot-held a k d still),
      )
