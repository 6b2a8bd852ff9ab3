-- ===== src/Db/Recipe/RoundTrip.antt =====
-- What serialize writes of a recipe, deserialize reads.
use flatimage.Base.{◌≡◌, refl, ap, ◌∙◌, false, Option, none, some, Value, ok, err, List, [], ◌∷◌}
use flatimage.Base.Run
use flatimage.Base.Run.{Run, pure, ◌>>=◌}
use flatimage.Json.{JsonLibrary}
use flatimage.Text.{Text, codes, text_eq}
use flatimage.Db.{with_db, dump, entry}
use flatimage.Db.Laws.{
  Fields, lookup, built, assign-built, text_at-built, texts_at-built, entry-built, entry_missing,
  value_texts-texts, value_texts-null, text_at-null, parsed-dump, from_string-dump,
}
use flatimage.Db.Desktop
use flatimage.Db.Desktop.{Desktop, parse_desktop}
use flatimage.Db.Desktop.RoundTrip as OfDesktop
use flatimage.Db.Desktop.RoundTrip.{IsDesktop, read_back}
use flatimage.Db.Recipe.{
  Recipe, parse_recipe, deserialize, serialize, assign_dependencies, assign_desktop, desktop_of,
  kept, beside,
}

module _ (lib : JsonLibrary) where
  abbrev desktop_document : Desktop → lib.Json
  desktop_document d = built lib (OfDesktop.fields_of lib d)

  -- A desktop entry that the recipe has can be written.
  abbrev pub IsWritable : Value Desktop → Type 0
  IsWritable (err e) = Unit
  IsWritable (ok d) = IsDesktop d × ((t : Text) × (lib.dump (desktop_document d) ≡ ok t))

  abbrev with_dependencies : List Text → Fields (lib.Json) → Fields (lib.Json)
  with_dependencies [] fields = fields
  with_dependencies (name ∷ names) fields =
      (codes "dependencies", lib.texts (name ∷ names)) ∷ fields

  abbrev with_desktop : Value Desktop → Fields (lib.Json) → Fields (lib.Json)
  with_desktop (err e) fields = fields
  with_desktop (ok d) fields = (codes "desktop", desktop_document d) ∷ fields

  abbrev required_fields : Text → List Text → Fields (lib.Json)
  required_fields description packages =
      (codes "packages", lib.texts packages) ∷ (codes "description", lib.text description) ∷ []

  abbrev pub fields_of : Recipe → Fields (lib.Json)
  fields_of r =
      with_desktop r.desktop
        (with_dependencies r.dependencies (required_fields r.description r.packages))

  assign_dependencies-built :
      (names : List Text) (fields : Fields (lib.Json))
      → assign_dependencies lib names (built lib fields)
        ≡ some (ok tt, built lib (with_dependencies names fields))
  unfolding assign_dependencies
  assign_dependencies-built [] fields = refl
  assign_dependencies-built (name ∷ names) fields =
      assign-built lib fields (codes "dependencies") (lib.texts (name ∷ names))

  assign_desktop-built :
      (desktop : Value Desktop) (fields : Fields (lib.Json))
      → IsWritable desktop
      → assign_desktop lib desktop (built lib fields)
        ≡ some (ok tt, built lib (with_desktop desktop fields))
  unfolding assign_desktop beside
  assign_desktop-built (err e) fields h = refl
  assign_desktop-built (ok d) fields (is_desktop, (t, dumped)) =
      rw
        (
          OfDesktop.serialize-built lib d,
          dumped,
          from_string-dump lib (desktop_document d) t dumped,
          assign-built lib fields (codes "desktop") (desktop_document d),
        )
        refl

  serialize-built :
      (r : Recipe)
      → IsWritable r.desktop
      → serialize lib r ≡ some (lib.dump (built lib (fields_of r)))
  unfolding serialize built with_db dump
  serialize-built r h =
      let required = required_fields r.description r.packages in
      rw
        (
          assign-built lib [] (codes "description") (lib.text r.description),
          assign-built lib ((codes "description", lib.text r.description) ∷ []) (codes "packages")
              (lib.texts r.packages),
          assign_dependencies-built r.dependencies required,
          assign_desktop-built r.desktop (with_dependencies r.dependencies required) h,
        )
        refl

  -- The desktop entry of a recipe as it comes back.
  abbrev pub desktop_back : Value Desktop → Value Desktop
  desktop_back (err e) = err "Json element is not a string"
  desktop_back (ok d) = ok (read_back d)

  abbrev recipe : Text → List Text → List Text → Value Desktop → Recipe
  recipe description packages dependencies desktop = record {
    description = description;
    packages = packages;
    dependencies = dependencies;
    desktop = desktop;
  }

  -- The last steps of deserialize.
  abbrev last_steps : Text → List Text → List Text → Run (lib.Json) Recipe
  last_steps description packages dependencies = do
    json ← entry lib (codes "desktop")
    desktop ← desktop_of lib (lib.dump json)
    pure (recipe description packages dependencies desktop)

  desktop_of_null :
      (j : lib.Json)
      → desktop_of lib (lib.dump lib.null) j ≡ some (ok (err "Json element is not a string"), j)
  unfolding desktop_of kept Desktop.deserialize parse_desktop
  desktop_of_null j =
      let refused : Desktop.deserialize lib (codes "null")
          ≡ some (err "Json element is not a string") =
        parsed-dump lib (parse_desktop lib) lib.null (codes "null") lib.dump-null
        ∙ rw (text_at-null lib (codes "name")) refl in
      rw (lib.dump-null, refused) refl

  desktop_of_document :
      (d : Desktop) (j : lib.Json)
      → IsWritable (ok d)
      → desktop_of lib (lib.dump (desktop_document d)) j ≡ some (ok (ok (read_back d)), j)
  unfolding desktop_of kept
  desktop_of_document d j (is_desktop, (t, dumped)) =
      rw (dumped, (OfDesktop.deserialize-serialize lib d t is_desktop dumped).1) refl

  abbrev desktop_field : Value Desktop → Option (lib.Json)
  desktop_field (err e) = none
  desktop_field (ok d) = some (desktop_document d)

  last_steps-built :
      (description : Text) (packages dependencies : List Text) (desktop : Value Desktop)
      (fields : Fields (lib.Json))
      → IsWritable desktop
      → lookup (codes "desktop") fields ≡ desktop_field desktop
      → Run.outcome (last_steps description packages dependencies (built lib fields))
        ≡ some (ok (recipe description packages dependencies (desktop_back desktop)))
  last_steps-built description packages dependencies (err e) fields h found =
      rw
        (
          entry_missing lib fields (codes "desktop") found,
          desktop_of_null (built lib ((codes "desktop", lib.null) ∷ fields)),
        )
        refl
  last_steps-built description packages dependencies (ok d) fields h found =
      rw
        (
          entry-built lib fields (codes "desktop") (desktop_document d) found,
          desktop_of_document d (built lib fields) h,
        )
        refl

  desktop_found :
      (desktop : Value Desktop) (fields : Fields (lib.Json))
      → lookup (codes "desktop") fields ≡ none
      → lookup (codes "desktop") (with_desktop desktop fields) ≡ desktop_field desktop
  unfolding lookup text_eq
  desktop_found (err e) fields h = h
  desktop_found (ok d) fields h = refl

  -- A field other than "desktop".
  other_found :
      (key : Text) (desktop : Value Desktop) (fields : Fields (lib.Json))
      → text_eq (codes "desktop") key ≡ false
      → lookup key (with_desktop desktop fields) ≡ lookup key fields
  unfolding lookup
  other_found key (err e) fields h = refl
  other_found key (ok d) fields h = rw h refl

  parse_built :
      (description : Text) (packages dependencies : List Text) (desktop : Value Desktop)
      → IsWritable desktop
      → Run.outcome (
          parse_recipe lib
            (built lib (fields_of (recipe description packages dependencies desktop))))
        ≡ some (ok (recipe description packages dependencies (desktop_back desktop)))
  unfolding parse_recipe lookup text_eq
  parse_built description packages [] desktop h =
      let required = required_fields description packages in
      let fields = with_desktop desktop required in
      rw
        (
          text_at-built lib fields (codes "description") description
              (other_found (codes "description") desktop required refl),
          texts_at-built lib fields (codes "packages") packages
              (other_found (codes "packages") desktop required refl),
          entry_missing lib fields (codes "dependencies")
              (other_found (codes "dependencies") desktop required refl),
          value_texts-null lib,
        )
        (last_steps-built description packages [] desktop
          ((codes "dependencies", lib.null) ∷ fields) h (desktop_found desktop required refl))
  parse_built description packages (name ∷ names) desktop h =
      let required = with_dependencies (name ∷ names) (required_fields description packages) in
      let fields = with_desktop desktop required in
      rw
        (
          text_at-built lib fields (codes "description") description
              (other_found (codes "description") desktop required refl),
          texts_at-built lib fields (codes "packages") packages
              (other_found (codes "packages") desktop required refl),
          entry-built lib fields (codes "dependencies") (lib.texts (name ∷ names))
              (other_found (codes "dependencies") desktop required refl),
          value_texts-texts lib (name ∷ names),
        )
        (last_steps-built description packages (name ∷ names) desktop fields h
          (desktop_found desktop required refl))

  -- Where the document of a recipe is dumped, and the desktop entry, when the recipe has one, has its
  -- sets in order and is dumped too, serialize returns this text, and deserialize reads the same
  -- recipe from it, one without dependencies and one without a desktop entry included.
  pub deserialize-serialize :
      (r : Recipe) (t : Text)
      → IsWritable r.desktop
      → lib.dump (built lib (fields_of r)) ≡ ok t
      → (serialize lib r ≡ some (ok t))
        × (deserialize lib t
            ≡ some (ok (recipe r.description r.packages r.dependencies (desktop_back r.desktop))))
  unfolding deserialize
  deserialize-serialize r t h dumped = (
    serialize-built r h ∙ ap some dumped,
    parsed-dump lib (parse_recipe lib) (built lib (fields_of r)) t dumped
        ∙ parse_built r.description r.packages r.dependencies r.desktop h,
  )
