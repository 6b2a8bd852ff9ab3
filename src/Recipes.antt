-- ===== src/Recipes.antt =====
-- src/parser/cmd/recipe.hpp: the recipes that are fetched with their dependencies. The files of the
-- host are a function from paths to contents; wget, the making of directories and the path of a recipe
-- are parameters. A recursion whose names do not come to an end runs out of fuel.
pub mod Diamond
pub mod Install
pub mod Loaded
pub mod Total
use flatimage.Base.{
  ℕ, zero, suc, ◌==◌, ◌||◌, String, Bool, true, false, ◌&&◌, if◌then◌else◌, Option, none, some,
  Value, ok, err, List, [], ◌∷◌, ◌++◌, any,
}
use flatimage.Base.Run
use flatimage.Base.Run.{Run, pure, ◌>>=◌, ◌>>◌}
use flatimage.Json.{JsonLibrary}
use flatimage.Text.{Text, codes, text_eq}
use flatimage.Db.Recipe as OfRecipe
use flatimage.Db.Recipe.{Recipe}

-- What a path leads to, where a file stands there that opens.
abbrev pub Files : Type 0
Files = Text → Option Text

-- exists and is_open agree on a file that can be read.
pub record Network : Type 0 where
  -- get_path_recipe and ns_fs::create_directories for the parent of the path
  pub path_recipe : Text → Text
  pub create_directories : Text → Value (Unit {0})
  -- wget -O path url: an error where the process does not start, and the files as it leaves them.
  pub wget : Text → Text → Files → Value (Unit {0}) × Files

pub record State : Type 0 where
  pub files : Files
  pub dependencies : List Text

-- url_remote without a slash at its end.
unfoldable pub without_slash : Text → Text
without_slash [] = []
without_slash (c ∷ []) = if c == b'/' then [] else c ∷ []
without_slash (c ∷ d ∷ s) = c ∷ without_slash (d ∷ s)

unfoldable pub url_recipe : Text → Text → Text → Text
url_recipe url_remote distribution recipe =
    without_slash url_remote
    ++ codes "/"
    ++ distribution
    ++ codes "/latest/"
    ++ recipe
    ++ codes ".json"

unfoldable pub visited : Text → List Text → Bool
visited recipe names = any (λ name. text_eq name recipe) names

-- The loop over the dependencies of a recipe.
unfoldable pub fetch_each : (Text → Run State (Unit {0})) → List Text → Run State (Unit {0})
fetch_each fetch_one [] = pure tt
fetch_each fetch_one (name ∷ names) = do fetch_one name; fetch_each fetch_one names

module _ (lib : JsonLibrary) (network : Network) where
  -- The deserialize of the contents of the recipe's file.
  unfoldable pub parsed_file : String → Text → Run State Recipe
  parsed_file message recipe state = elim (state.files (network.path_recipe recipe)) [
    | none ↦ Run.fail message state
    | some contents ↦ Run.looked state (OfRecipe.deserialize lib contents)
  ]

  unfoldable pub download : Text → Text → Text → Run State (Unit {0})
  download url_remote distribution recipe state =
      let path = network.path_recipe recipe in
      let (done, files) =
        network.wget path (url_recipe url_remote distribution recipe) state.files in
      some (done, record { files = files; dependencies = state.dependencies })

  exists : Text → State → Bool
  exists recipe state = elim (state.files (network.path_recipe recipe)) [
    | none ↦ false
    | some contents ↦ true
  ]

  -- Either branch of fetch_impl, up to the recipe that it reads.
  unfoldable pub obtain : Text → Text → Bool → Text → Run State Recipe
  unfolding exists
  obtain url_remote distribution use_existing recipe state =
      let fresh =
        (do
          Run.lift (network.create_directories (network.path_recipe recipe))
          download url_remote distribution recipe
          parsed_file "Could not open downloaded recipe file '{}'" recipe)
          state in
      let local = parsed_file "Could not open existing recipe file '{}'" recipe state in
      if use_existing && exists recipe state then local else fresh

  insert : Text → Run State (Unit {0})
  insert recipe state =
      some (ok tt, record { files = state.files; dependencies = recipe ∷ state.dependencies })

  unfoldable pub fetch_impl : Text → Text → Bool → ℕ → Text → Run State (Unit {0})
  unfolding insert
  fetch_impl url_remote distribution use_existing zero recipe state = none
  fetch_impl url_remote distribution use_existing (suc fuel) recipe state =
      let fetch_one = fetch_impl url_remote distribution use_existing fuel in
      let rest =
        (do
          insert recipe
          found ← obtain url_remote distribution use_existing recipe
          fetch_each fetch_one found.dependencies)
          state in
      if visited recipe state.dependencies
      then Run.fail "Cyclic dependency for recipe '{}'" state
      else rest

  -- fetch: the names in the set. Its order is unspecified in the code; here the last one met comes first.
  unfoldable pub fetch : Text → Text → Bool → ℕ → Text → Files → Option (Value (List Text) × State)
  fetch url_remote distribution use_existing fuel recipe files =
      (do
        fetch_impl url_remote distribution use_existing fuel recipe
        Run.looks (λ state. some (ok state.dependencies)))
        record { files = files; dependencies = [] }
