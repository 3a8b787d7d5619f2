-- ===== src/WriteBatch/Remove.antt =====
-- `write_batch::remove_from_db`.
use frenzy_kv.Prelude.{
  suc, ◌≡◌, refl, ap, ◌∙◌, sym, List, [], ◌∷◌, ◌++◌, All, arith, length, drop, length-append,
  append-nil, true, false, Bool,
}
use frenzy_kv.Bytes.{Bytes}
use frenzy_kv.Kv.Value.{set_tomb_stone, tomb_stone}
use frenzy_kv.Kv.Entry.{KvEntry}
use frenzy_kv.WriteBatch.{
  WriteBatch, next_seq, has_key, leftovers, kept, stl_style_remove, entomb, remove_from_db,
}

module _ (key : Bytes) where
  abbrev pub Others : List KvEntry → Type 0
  Others = All (λ x. has_key key x ≡ false)

  abbrev pub Matches : List KvEntry → Type 0
  Matches = All (λ x. has_key key x ≡ true)

drop_common {ℓ} :
    {A : Type ℓ} (xs ys zs : List A) → drop (length (xs ++ ys)) (xs ++ zs) ≡ drop (length ys) zs
drop_common [] ys zs = refl
drop_common (x ∷ xs) ys zs = drop_common xs ys zs

module _ (moved_from : KvEntry → KvEntry) (key : Bytes) where
  kept-append : (xs ys : List KvEntry) → Others key xs → kept key (xs ++ ys) ≡ xs ++ kept key ys
  unfolding kept
  kept-append [] ys h = refl
  kept-append (x ∷ xs) ys (h, hs) = rw h (ap (λ t. x ∷ t) (kept-append xs ys hs))

  leftovers-append :
      (xs ys : List KvEntry)
      → Others key xs
      → leftovers moved_from key false (xs ++ ys) ≡ xs ++ leftovers moved_from key false ys
  unfolding leftovers
  leftovers-append [] ys h = refl
  leftovers-append (x ∷ xs) ys (h, hs) = rw h (ap (λ t. x ∷ t) (leftovers-append xs ys hs))

  kept-Matches : (xs : List KvEntry) → Matches key xs → kept key xs ≡ []
  unfolding kept
  kept-Matches [] h = refl
  kept-Matches (x ∷ xs) (h, hs) = rw h (kept-Matches xs hs)

  leftovers-Matches :
      (m : Bool) (xs : List KvEntry) → Matches key xs → leftovers moved_from key m xs ≡ xs
  unfolding leftovers
  leftovers-Matches m [] h = refl
  leftovers-Matches m (x ∷ xs) (h, hs) = rw h (ap (λ t. x ∷ t) (leftovers-Matches true xs hs))

  -- The elements before the first match stay where they are.
  stl-append :
      (xs ys : List KvEntry)
      → Others key xs
      → stl_style_remove moved_from key (xs ++ ys) ≡ stl_style_remove moved_from key ys
  unfolding stl_style_remove
  stl-append xs ys h =
      rw (kept-append xs ys h, leftovers-append xs ys h)
        (drop_common xs (kept key ys) (leftovers moved_from key false ys))

  entries-append :
      (b : WriteBatch) (xs ys : List KvEntry)
      → b.entries ≡ xs ++ ys
      → Others key xs
      → (remove_from_db moved_from key b).entries
        ≡ entomb moved_from key b (xs ++ kept key ys) (stl_style_remove moved_from key ys)
  unfolding remove_from_db
  entries-append b xs ys e h = rw (e, kept-append xs ys h, stl-append xs ys h)

  -- If the entries of the key stand behind all others, the first of them becomes the tomb stone
  -- and the rest of them go.
  pub remove_from_db_last :
      (b : WriteBatch) (xs : List KvEntry) (y : KvEntry) (ys : List KvEntry)
      → b.entries ≡ xs ++ y ∷ ys
      → Others key xs
      → Matches key (y ∷ ys)
      → (remove_from_db moved_from key b).entries ≡ xs ++ record y { value = tomb_stone } ∷ []
  remove_from_db_last b xs y ys e h m =
      entries-append b xs (y ∷ ys) e h
      ∙ rw (kept-Matches (y ∷ ys) m) (
          unfold stl_style_remove entomb set_tomb_stone in
          rw (kept-Matches (y ∷ ys) m, leftovers-Matches false (y ∷ ys) m, append-nil))

  -- If no entry has the key, a tomb stone of it with the next number is appended.
  pub remove_from_db_absent :
      (b : WriteBatch)
      → Others key b.entries
      → (remove_from_db moved_from key b).entries
        ≡ b.entries
          ++ record { key = record { seq = next_seq b; user_key = key }; value = tomb_stone } ∷ []
  remove_from_db_absent b h =
      entries-append b b.entries [] (sym (append-nil b.entries)) h
      ∙ (unfold stl_style_remove kept leftovers entomb in
          ap
            (λ t.
              t
              ++ record { key = record { seq = next_seq b; user_key = key }; value = tomb_stone }
                ∷ [])
            (append-nil b.entries))

  kept-Others : (xs : List KvEntry) → Others key xs → kept key xs ≡ xs
  kept-Others xs h =
      ap (kept key) (sym (append-nil xs)) ∙ kept-append xs [] h ∙ (unfold kept in append-nil xs)

  kept_first :
      (x : KvEntry) (ys : List KvEntry) → has_key key x ≡ true → kept key (x ∷ ys) ≡ kept key ys
  unfolding kept
  kept_first x ys m = rw m

  leftovers_first :
      (x : KvEntry) (ys : List KvEntry)
      → has_key key x ≡ true
      → leftovers moved_from key false (x ∷ ys) ≡ x ∷ leftovers moved_from key true ys
  unfolding leftovers
  leftovers_first x ys m = rw m

  moved_last :
      (ys : List KvEntry) (y : KvEntry)
      → Others key (ys ++ y ∷ [])
      → drop (length ys) (leftovers moved_from key true (ys ++ y ∷ [])) ≡ moved_from y ∷ []
  unfolding leftovers
  moved_last [] y (h, _) = rw h
  moved_last (z ∷ ys) y (h, hs) = rw h (moved_last ys y hs)

  stl_behind :
      (x : KvEntry) (ys : List KvEntry) (y : KvEntry)
      → has_key key x ≡ true
      → Others key (ys ++ y ∷ [])
      → stl_style_remove moved_from key (x ∷ (ys ++ y ∷ [])) ≡ moved_from y ∷ []
  unfolding stl_style_remove
  stl_behind x ys y m h =
      let more : length (ys ++ y ∷ []) ≡ suc (length ys) =
        omega (arith, length-append ys (y ∷ [])) in
      rw
        (
          kept_first x (ys ++ y ∷ []) m,
          kept-Others (ys ++ y ∷ []) h,
          more,
          leftovers_first x (ys ++ y ∷ []) m,
        )
        (moved_last ys y h)

  -- Where an entry of another key stands behind the key's entry, the tomb stone that the batch is
  -- left with is made of the moved-from object in the last place: its key is whatever moving left
  -- there, and the deletion of `key` is not recorded.
  pub remove_from_db_behind :
      (b : WriteBatch) (xs : List KvEntry) (x : KvEntry) (ys : List KvEntry) (y : KvEntry)
      → b.entries ≡ xs ++ x ∷ (ys ++ y ∷ [])
      → Others key xs
      → has_key key x ≡ true
      → Others key (ys ++ y ∷ [])
      → (remove_from_db moved_from key b).entries
        ≡ (xs ++ (ys ++ y ∷ [])) ++ record (moved_from y) { value = tomb_stone } ∷ []
  remove_from_db_behind b xs x ys y e h m k =
      entries-append b xs (x ∷ (ys ++ y ∷ [])) e h
      ∙ rw (kept_first x (ys ++ y ∷ []) m, kept-Others (ys ++ y ∷ []) k, stl_behind x ys y m k)
          (unfold entomb set_tomb_stone in refl)
