-- ===== src/Recipes/Install.antt =====
-- src/parser/cmd/recipe.hpp: load_recipe, info and install, over the files of the host. The process of
-- the package manager and the set-up of the desktop integration are parameters.
use flatimage.Base.{Option, none, some, Value, ok, err, relabel, length, List, [], ◌∷◌, ◌++◌}
use mathlib.Core.Option
use flatimage.Base.Io.{File}
use flatimage.Base.Run
use flatimage.Base.Run.{Run, pure, ◌>>=◌, ◌>>◌}
use flatimage.Json.{JsonLibrary}
use flatimage.Text.{Text, codes}
use flatimage.Text.Numbers.{to_string}
use flatimage.Db.Desktop as OfDesktop
use flatimage.Db.Desktop.{Desktop}
use flatimage.Db.Recipe as OfRecipe
use flatimage.Db.Recipe.{Recipe}
use flatimage.Recipes.{Files, Network}

-- ENUM adds NONE, which is no_distribution here.
pub data Distribution : Type 0 where
  arch alpine blueprint no_distribution : Distribution

-- The switch of install: the program and its first arguments.
unfoldable pub package_manager : Distribution → Value (Text × List Text)
package_manager alpine = ok (
  codes "apk",
  codes "add" ∷ codes "--no-cache" ∷ codes "--update-cache" ∷ codes "--no-progress" ∷ [],
)
package_manager arch =
    ok (codes "pacman", codes "-Syu" ∷ codes "--noconfirm" ∷ codes "--needed" ∷ [])
package_manager blueprint = err "Blueprint does not support recipes"
package_manager no_distribution = err "Unsupported distribution '{}' for recipe installation"

-- The desktop entry of a recipe in place of the one that was found before, where it has one.
abbrev pub last_found : Value Desktop → Value Desktop → Value Desktop
last_found before (ok desktop) = ok desktop
last_found before (err e) = before

abbrev entries : List Text → List Text
entries [] = []
entries (name ∷ names) = (codes "  - " ++ name) ∷ entries names

module _ (lib : JsonLibrary) (network : Network) where
  -- What load_recipe makes of the contents of the file.
  unfoldable pub loaded : Option Text → Option (Value Recipe)
  loaded none = some (err "Recipe '{}' not found locally. Use 'fim-recipe fetch {}' first.")
  loaded (some []) = some (err "Empty json file")
  loaded (some (c ∷ json)) =
      Option.map (λ v. relabel v "Could not parse json file") (OfRecipe.deserialize lib (c ∷ json))

  unfoldable pub load_recipe : Files → Text → Option (Value Recipe)
  load_recipe files recipe = loaded (files (network.path_recipe recipe))

  -- info: the lines that are printed.
  unfoldable pub info : Files → Text → Option (Value (List Text))
  info files recipe = Run.pop (load_recipe files recipe) (λ found. some (
      ok (
        (codes "Recipe: " ++ recipe)
        ∷ (codes "Location: " ++ network.path_recipe recipe)
        ∷ (codes "Description: " ++ found.description)
        ∷ (codes "Package count: " ++ to_string (length found.packages))
        ∷ codes "Packages:"
        ∷ (entries found.packages
            ++ ((codes "Dependencies: " ++ to_string (length found.dependencies))
                ∷ entries found.dependencies)))))

  -- The loop of install.
  unfoldable pub gather :
      Files → List Text → List Text → Value Desktop → Option (Value (List Text × Value Desktop))
  gather files [] packages desktop = some (ok (packages, desktop))
  gather files (recipe ∷ recipes) packages desktop =
      Run.pop (Option.map (λ v. relabel v "Could not load json recipe") (load_recipe files recipe))
        (λ found.
          gather files recipes (packages ++ found.packages) (last_found desktop found.desktop))

  -- The `if` on the desktop entry; `setup` writes the text to a file, and sets it up from there.
  set_up : (Text → Run File (Unit {0})) → Value Desktop → Run File (Unit {0})
  set_up setup (err e) = pure tt
  set_up setup (ok desktop) = do text ← Run.looks (λ f. OfDesktop.serialize lib desktop); setup text

  unfoldable pub install :
      {Code : Type 0}
      → Files
      → Distribution
      → List Text
      → (Text → List Text → Run File Code)
      → (Text → Run File (Unit {0}))
      → Run File Code
  unfolding set_up
  install files distribution recipes callback setup = do
    (packages, desktop) ←
        Run.looks (λ f. gather files recipes [] (err "No desktop integration found"))
    (program, args) ← Run.lift (package_manager distribution)
    exit_code ← callback program (args ++ packages)
    set_up setup desktop
    pure exit_code
