-- ===== src/Db/Env/Del.antt =====
-- What del leaves of the environment.
use flatimage.Base.{
  ℕ, ◌≡◌, refl, subst, ◌∙◌, Bool, true, false, Bool-cases, inl, inr, if◌then◌else◌, Option, none,
  some, List, [], ◌∷◌, any,
}
use flatimage.Bytes.{Bytes}
use flatimage.Json.{JsonLibrary}
use flatimage.Text.{Text, text_eq}
use flatimage.Text.Laws.{text_eq_iff}
use flatimage.Reserved.{environment}
use flatimage.Reserved.Layout.{IsImage}
use flatimage.Db.{erase, is_some}
use flatimage.Db.Stored.{IsStored, Fits}
use flatimage.Db.Env.{erase_each, del}
use flatimage.Db.Env.Laws.{Leaves, load-IsStored, save-Leaves}

module _ (lib : JsonLibrary) where
  open lib use {Json}

  erase-object :
      (key : Text) (j : Json)
      → lib.is_object j ≡ true
      → erase lib key j ≡ (is_some (lib.at j key), lib.erase j key)
  unfolding erase
  erase-object key j h = rw (erase, lib.elements_of-object j h, h) refl

  at-erase_each :
      (keys : List Text) (j : Json) (key : Text)
      → lib.is_object j ≡ true
      → lib.at (erase_each lib keys j) key
        ≡ (if any (λ k. text_eq k key) keys then none else lib.at j key)
  unfolding erase_each
  at-erase_each [] j key h = refl
  at-erase_each (k ∷ keys) j key h =
      let rest = at-erase_each keys (lib.erase j k) key (lib.is_object-erase j k h) in
      rw (erase-object k j h) (
        rest ∙ elim (Bool-cases (text_eq k key)) [
          | inl same ↦
              let gone : lib.at (lib.erase j k) key ≡ none =
                subst (λ t. lib.at (lib.erase j k) t ≡ none) ((text_eq_iff k key).0 same)
                  (lib.at-erase j k h) in
              rw (same, gone) (either_none (any (λ k. text_eq k key) keys))
          | inr other ↦
              rw (other, lib.at-erase_ne j k key h (λ e. cc ((text_eq_iff k key).1 e, other))) refl
        ])
    where
      either_none : (b : Bool) → Path (Option Json) (if b then none else none) none
      either_none true = refl
      either_none false = refl

  -- On an image whose environment is an object, and where the result fits the region, del succeeds and
  -- leaves an image whose environment lacks the keys that it was given and has the others as before.
  pub del_lem :
      (base : ℕ) (keys : List Text) (j : Json) (f : Bytes)
      → IsImage base f
      → IsStored lib environment base j f
      → lib.is_object j ≡ true
      → Fits lib environment (erase_each lib keys j)
      → Leaves lib base (erase_each lib keys j) (del lib base keys (some f))
        × ((key : Text)
            → lib.at (erase_each lib keys j) key
              ≡ (if any (λ k. text_eq k key) keys then none else lib.at j key))
  unfolding del
  del_lem base keys j f image stored object fits = (
    rw (load-IsStored lib base j f stored)
        (save-Leaves lib base (erase_each lib keys j) f fits image),
    λ key. at-erase_each keys j key object,
  )
