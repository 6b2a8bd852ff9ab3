-- ===== src/Db/Recipe.antt =====
-- src/db/recipe.hpp: the class Recipe and its document, which may hold that of a desktop entry.
pub mod RoundTrip
use flatimage.Base.{Option, none, some, Value, ok, err, value_or, String, List, [], ◌∷◌}
use flatimage.Base.Run
use flatimage.Base.Run.{Run, pure, ◌>>=◌, ◌>>◌}
use flatimage.Json.{JsonLibrary}
use flatimage.Text.{Text, codes}
use flatimage.Db.{with_db, parsed, assign, dump, entry, value_texts, text_at, texts_at, from_string}
use flatimage.Db.Desktop
use flatimage.Db.Desktop.{Desktop}

pub record Recipe : Type 0 where
  pub description : Text
  pub packages : List Text
  pub dependencies : List Text
  pub desktop : Value Desktop

module _ (lib : JsonLibrary) where
  -- An expression that stands beside the Db.
  beside {ℓ} : {A : Type ℓ} → Option (Value A) → Run (lib.Json) A
  beside v = Run.looks (λ db. v)

  -- Its result or its error, as a value.
  kept {ℓ} : {A : Type ℓ} → Option (Value A) → Run (lib.Json) (Value A)
  kept none = Run.crash
  kept (some v) = pure v

  -- The `if` at the end of deserialize.
  unfoldable pub desktop_of : Value Text → Run (lib.Json) (Value Desktop)
  unfolding kept
  desktop_of (err e) = pure (err "m_desktop is undefined")
  desktop_of (ok json) = kept (Desktop.deserialize lib json)

  -- The body of deserialize, behind its check for an empty text.
  unfoldable pub parse_recipe : Run (lib.Json) Recipe
  parse_recipe = do
    description ← Run.relabelled (text_at lib (codes "description")) "Missing 'description' field"
    packages ← Run.relabelled (texts_at lib (codes "packages")) "Missing 'packages' field"
    dependencies ← entry lib (codes "dependencies")
    json ← entry lib (codes "desktop")
    desktop ← desktop_of (lib.dump json)
    pure record {
      description = description;
      packages = packages;
      dependencies = value_or (value_texts lib dependencies) [];
      desktop = desktop;
    }

  unfoldable pub deserialize : Text → Option (Value Recipe)
  unfolding parse_recipe
  deserialize = parsed lib parse_recipe

  unfoldable pub assign_dependencies : List Text → Run (lib.Json) (Unit {0})
  assign_dependencies [] = pure tt
  assign_dependencies (name ∷ names) = assign lib (codes "dependencies") (lib.texts (name ∷ names))

  unfoldable pub assign_desktop : Value Desktop → Run (lib.Json) (Unit {0})
  unfolding beside
  assign_desktop (err e) = pure tt
  assign_desktop (ok desktop) = do
    text ← beside (Desktop.serialize lib desktop)
    json ← Run.lift (from_string lib text)
    assign lib (codes "desktop") json

  unfoldable pub serialize : Recipe → Option (Value Text)
  unfolding assign_dependencies assign_desktop
  serialize recipe = with_db lib (ok lib.object) (do
    assign lib (codes "description") (lib.text recipe.description)
    assign lib (codes "packages") (lib.texts recipe.packages)
    assign_dependencies recipe.dependencies
    assign_desktop recipe.desktop
    dump lib)
