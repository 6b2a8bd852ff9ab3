-- ===== src/Tests/OfRecipes.antt =====
-- The theorem about recipes at four recipes in a diamond.
use flatimage.Base.{
  ◌≡◌, refl, true, if◌then◌else◌, some, none, ok, err, Value, Each, Bool-cases, inl, inr, arith,
  List, [], ◌∷◌, suc,
}
use mathlib.Core.Option.{none-ne-some}
use flatimage.Text.{Text, codes, text_eq}
use flatimage.Db.Laws.{built}
use flatimage.Db.Recipe.{Recipe}
use flatimage.Db.Recipe.RoundTrip as OfRecipe
use flatimage.Db.Recipe as OfRecipeDb
use flatimage.Db.Desktop.{Desktop}
use flatimage.Recipes.{Files, Network, State, fetch, visited, fetch_each}
use flatimage.Recipes.Install.{gather}
use flatimage.Recipes.Loaded.{LoadedAs, packages_of, gather-fetch}
use flatimage.Recipes.Total.{DependsIn, IsReadable, fetch-total}
use flatimage.Recipes.Diamond.{IsLocal, fetch_local, fetch_shared}
use flatimage.Tests.Documents.{documents}
use flatimage.Tests.Library.Codec.{print}

abbrev offline : Network
offline = record {
  path_recipe = λ recipe. recipe;
  create_directories = λ path. ok tt;
  wget = λ path url files. (err "no network", files);
}

abbrev recipe : List Text → Recipe
recipe dependencies = record {
  description = codes "A recipe";
  packages = codes "a-package" ∷ [];
  dependencies = dependencies;
  desktop = err "Json element is not a string";
}

contents : List Text → Text
contents dependencies =
    print (built documents (OfRecipe.fields_of documents (recipe dependencies))) []

local_files : Files
unfolding contents
local_files path =
    if text_eq path (codes "a")
    then some (contents (codes "b" ∷ codes "c" ∷ []))
    else if text_eq path (codes "b")
    then some (contents (codes "d" ∷ []))
    else if text_eq path (codes "c")
    then some (contents (codes "d" ∷ []))
    else if text_eq path (codes "d")
    then some (contents [])
    else none

stands :
    (name : Text) (dependencies : List Text)
    → local_files name ≡ some (contents dependencies)
    → IsLocal documents offline local_files name dependencies
unfolding contents
stands name dependencies h = record {
  contents = contents dependencies;
  content = recipe dependencies;
  is_there = h;
  is_parsed =
      (OfRecipe.deserialize-serialize documents (recipe dependencies) (contents dependencies) tt
        refl).1;
  depends = refl;
}

fetch_shared_example :
    fetch documents offline
      (codes "https://example.org")
      (codes "arch")
      true
      (suc (suc (suc 0)))
      (codes "a")
      local_files
    ≡ some (
      err "Cyclic dependency for recipe '{}'",
      record {
        files = local_files;
        dependencies = codes "c" ∷ codes "d" ∷ codes "b" ∷ codes "a" ∷ [];
      },
    )
unfolding local_files text_eq visited
fetch_shared_example =
    fetch_shared documents offline local_files (codes "https://example.org") (codes "arch")
      (codes "a") (codes "b") (codes "c") (codes "d") 0
      (stands (codes "a") (codes "b" ∷ codes "c" ∷ []) refl)
      (stands (codes "b") (codes "d" ∷ []) refl) (stands (codes "c") (codes "d" ∷ []) refl)
      (stands (codes "d") [] refl) refl refl refl

-- Two recipes that depend on each other.
abbrev circle : List Text
circle = codes "a" ∷ codes "b" ∷ []

circular_files : Files
unfolding contents
circular_files path =
    if text_eq path (codes "a")
    then some (contents (codes "b" ∷ []))
    else if text_eq path (codes "b")
    then some (contents (codes "a" ∷ []))
    else none

reads_as :
    (dependencies : List Text) (text : Text)
    → Each (λ name. visited name circle ≡ true) dependencies
    → some (contents dependencies) ≡ some text
    → (v : Value Recipe) × (OfRecipeDb.deserialize documents text ≡ some v)
      × DependsIn documents offline circle v
unfolding contents
reads_as dependencies text h e =
    let same : contents dependencies ≡ text = cc in
    let parsed =
      (OfRecipe.deserialize-serialize documents (recipe dependencies) (contents dependencies) tt
        refl).1 in
    (ok (recipe dependencies), rw (← same) parsed, h)

circular_files-IsReadable : IsReadable documents offline circle circular_files
unfolding circular_files visited text_eq
circular_files-IsReadable name text member there = elim (Bool-cases (text_eq name (codes "a"))) [
  | inl a ↦ reads_as (codes "b" ∷ []) text (refl, tt) (rw a at there)
  | inr not_a ↦ elim (Bool-cases (text_eq name (codes "b"))) [
    | inl b ↦ reads_as (codes "a" ∷ []) text (refl, tt) (rw (not_a, b) at there)
    | inr not_b ↦ absurd (none-ne-some text (rw (not_a, not_b) at there))
  ]
]

fetch-total_example :
    (v : Value (List Text)) × (s : State) × (fetch documents offline
        (codes "https://example.org")
        (codes "arch")
        true
        3
        (codes "a")
        circular_files
      ≡ some (v, s))
unfolding visited text_eq
fetch-total_example =
    fetch-total documents offline circle (λ r url files m readable. readable)
      (codes "https://example.org") (codes "arch") true 3 (codes "a") circular_files (omega arith)
      refl circular_files-IsReadable

abbrev fetched : State
fetched = record { files = local_files; dependencies = codes "d" ∷ codes "b" ∷ [] }

-- Recipe b depends on d alone.
fetched_b :
    fetch documents offline
      (codes "https://example.org")
      (codes "arch")
      true
      3
      (codes "b")
      local_files
    ≡ some (ok fetched.dependencies, fetched)
unfolding fetch fetch_each visited text_eq local_files
fetched_b =
    rw
      (
        fetch_local documents offline local_files (codes "https://example.org") (codes "arch")
            (codes "b") (codes "d" ∷ []) [] 2 (stands (codes "b") (codes "d" ∷ []) refl) refl,
        fetch_local documents offline local_files (codes "https://example.org") (codes "arch")
            (codes "d") [] (codes "b" ∷ []) 1 (stands (codes "d") [] refl) refl,
      )
      refl

gather-fetch_example :
    (rs : List Recipe) × LoadedAs documents offline local_files (codes "d" ∷ codes "b" ∷ []) rs
    × (last : Value Desktop) × (gather documents offline local_files
          (codes "d" ∷ codes "b" ∷ [])
          []
          (err "none")
        ≡ some (ok (packages_of rs, last)))
gather-fetch_example =
    gather-fetch documents offline (codes "https://example.org") (codes "arch") (codes "b") true 3
      local_files fetched.dependencies fetched (err "none") (λ recipe other url files h. refl)
      fetched_b
