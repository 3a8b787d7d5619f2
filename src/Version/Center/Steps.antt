-- ===== src/Version/Center/Steps.antt =====
-- The steps that db/version.cc and include/frenzykv/db/version.h allow on a `version_center` and on
-- the guards of the program. What waits for the modify mutex is a step only while it is free, and
-- only a `mutable_version_guard` that owns it modifies a version.
use frenzy_kv.Prelude.{ℕ, ◌≡◌, ◌≢◌, List, none, some, ok}
use frenzy_kv.Version.{UuidOrder, VersionDelta}
use frenzy_kv.Version.Center.{
  VersionCenter, slot, release, copy_guard, copy_assign, move_guard, move_assign,
  decay_as_immutable, release_mutable, add_new_version, current_version, gc, apply_to,
  load_current_version, new_center,
}

module _ ⦃u : UuidOrder⦄ where
  -- A constructor makes a guard in a slot that holds nothing. A `mutable_version_guard` is not
  -- copied to, released or moved as if it were a `version_guard`.
  pub data Step (c : VersionCenter) : VersionCenter → Type 0 where
    loads :
        {d : VersionCenter} (newest : List ℕ × VersionDelta) (others : List (List ℕ × VersionDelta))
        → c.lock ≡ none
        → load_current_version newest others c ≡ ok d
        → Step c d
    adds :
        {d : VersionCenter} (first_name name : List ℕ) (i : ℕ)
        → c.lock ≡ none
        → slot i c.held ≡ none
        → add_new_version first_name name i c ≡ ok d
        → Step c d
    applies :
        {d : VersionCenter} (delta : VersionDelta) (i : ℕ)
        → c.lock ≡ some i
        → apply_to delta i c ≡ ok d
        → Step c d
    decays : (i j : ℕ) → c.lock ≡ some j → slot i c.held ≡ none → Step c (decay_as_immutable i j c)
    releases_mutable : (i : ℕ) → c.lock ≡ some i → Step c (release_mutable i c)
    reads : (i : ℕ) → c.lock ≡ none → slot i c.held ≡ none → Step c (current_version i c)
    collects : c.lock ≡ none → Step c (gc c)
    copies : (i j : ℕ) → slot i c.held ≡ none → c.lock ≢ some i → Step c (copy_guard i j c)
    moves :
        (i j : ℕ)
        → slot i c.held ≡ none
        → c.lock ≢ some i
        → c.lock ≢ some j
        → Step c (move_guard i j c)
    copy_assigns : (i j : ℕ) → c.lock ≢ some i → Step c (copy_assign i j c)
    move_assigns : (i j : ℕ) → c.lock ≢ some i → c.lock ≢ some j → Step c (move_assign i j c)
    releases : (i : ℕ) → c.lock ≢ some i → Step c (release i c)

  pub data Reach : VersionCenter → Type 0 where
    start : Reach new_center
    later : {c d : VersionCenter} → Reach c → Step c d → Reach d
