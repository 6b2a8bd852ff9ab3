-- ===== src/Db/Env/Laws.antt =====
-- The environment of an image: what set and add leave there, what get makes of it.
use flatimage.Base.{
  ℕ, ◌≡◌, refl, ap, ◌∙◌, String, true, Option, none, some, Value, ok, err, List, [],
}
use flatimage.Base.Io.{File}
use flatimage.Bytes.{Bytes}
use flatimage.Json.{JsonLibrary}
use flatimage.Text.{Text}
use flatimage.Reserved.{environment}
use flatimage.Reserved.Layout.{IsImage}
use flatimage.Db.Laws.{lookup}
use flatimage.Db.Stored.{IsStored, Fits, env_write-IsStored, env_read-IsStored}
use flatimage.Db.Env.{map, validate, load, save, on_document, add, set}
use flatimage.Db.Env.Map.{
  assigned, or_else, put_each, text_of, assign_each-put_each, at-put_each, lookup-fill,
  fill-IsDistinct,
}

module _ (lib : JsonLibrary) where
  open lib use {Json}

  pub load-IsStored :
      (base : ℕ) (j : Json) (f : Bytes)
      → IsStored lib environment base j f
      → load lib base (some f) ≡ some (ok j, some f)
  unfolding load
  load-IsStored base j f stored =
      rw (env_read-IsStored lib base j f stored) (ap (λ d. some (ok d, some f)) stored.parses)

  -- The image that a step leaves, with a document in the region of the environment.
  abbrev pub Leaves : ℕ → Json → Option (Value (Unit {0}) × File) → Type 0
  Leaves base j result =
      (g : Bytes) × (result ≡ some (ok tt, some g))
      × IsImage base g
      × IsStored lib environment base j g

  pub save-Leaves :
      (base : ℕ) (j : Json) (f : Bytes)
      → Fits lib environment j
      → IsImage base f
      → Leaves base j (save lib base j (some f))
  unfolding save
  save-Leaves base j f fits image =
      let (g, written, image', stored) = env_write-IsStored lib base j f fits image in
      (g, rw (fits.dumped, written) refl, image', stored)

  pub add-Leaves :
      (base : ℕ) (entries : List Text) (j : Json) (f : Bytes)
      → IsImage base f
      → IsStored lib environment base j f
      → lib.is_object j ≡ true
      → validate entries ≡ ok tt
      → Fits lib environment (put_each lib (map entries) j)
      → Leaves base (put_each lib (map entries) j) (add lib base entries (some f))
        × ((key : Text)
            → lib.at (put_each lib (map entries) j) key
              ≡ or_else (text_of lib (assigned key entries)) (lib.at j key))
  unfolding add on_document lookup
  add-Leaves base entries j f image stored object valid fits =
      let after = put_each lib (map entries) j in
      let (g, saved, image', stored') = save-Leaves base after f fits image in
      (
        (
          g,
          rw (valid, load-IsStored base j f stored, assign_each-put_each lib (map entries) j object)
              saved,
          image',
          stored',
        ),
        λ key.
            at-put_each lib (map entries) j key object (fill-IsDistinct [] entries tt)
            ∙ ap (λ o. or_else (text_of lib o) (lib.at j key)) (lookup-fill key [] entries),
      )

  -- On an image, with entries that are all assignments and a result that fits the region, as does the
  -- empty document, set succeeds, whatever the environment was, and leaves an image whose environment
  -- has, under each key, the first value that the entries assign to it, and no other keys.
  pub set_lem :
      (base : ℕ) (entries : List Text) (f : Bytes)
      → IsImage base f
      → validate entries ≡ ok tt
      → Fits lib environment lib.object
      → Fits lib environment (put_each lib (map entries) lib.object)
      → Leaves base (put_each lib (map entries) lib.object) (set lib base entries (some f))
        × ((key : Text)
            → lib.at (put_each lib (map entries) lib.object) key
              ≡ text_of lib (assigned key entries))
  unfolding set
  set_lem base entries f image valid empty_fits fits =
      let (g, emptied, image', stored) = save-Leaves base lib.object f empty_fits image in
      let (left, at) =
        add-Leaves base entries lib.object g image' stored lib.is_object-object valid fits in
      (
        rw emptied left,
        λ key.
            at key ∙ rw (lib.at-object key) (or_else_nothing (text_of lib (assigned key entries))),
      )
    where
      or_else_nothing : (o : Option Json) → or_else o none ≡ o
      or_else_nothing none = refl
      or_else_nothing (some v) = refl

  -- On an image, where the empty document fits the region, set of entries of which one is no
  -- assignment returns the error of validate, and the environment is the empty document from then on,
  -- whatever it was.
  pub set_invalid :
      (base : ℕ) (entries : List Text) (f : Bytes) (e : String)
      → IsImage base f
      → validate entries ≡ err e
      → Fits lib environment lib.object
      → (g : Bytes) × (set lib base entries (some f) ≡ some (err e, some g))
        × IsImage base g
        × IsStored lib environment base lib.object g
  unfolding set add
  set_invalid base entries f e image invalid fits =
      let (g, emptied, image', stored) = save-Leaves base lib.object f fits image in
      (g, rw (emptied, invalid) refl, image', stored)
