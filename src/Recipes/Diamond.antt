-- ===== src/Recipes/Diamond.antt =====
-- A dependency that two recipes share.
use flatimage.Base.{ℕ, suc, ◌≡◌, refl, ap, Bool, true, false, ◌||◌, some, ok, err, List, [], ◌∷◌}
use flatimage.Json.{JsonLibrary}
use flatimage.Text.{Text, text_eq}
use flatimage.Text.Laws.{text_eq_refl}
use flatimage.Db.Recipe as OfRecipe
use flatimage.Db.Recipe.{Recipe}
use flatimage.Recipes.{
  Files, Network, State, parsed_file, obtain, visited, fetch_each, fetch_impl, fetch, exists,
  insert,
}

second : (x y z : Bool) → y ≡ true → (x || (y || z)) ≡ true
second true y z h = refl
second false y z h = rw h refl

module _ (lib : JsonLibrary) (network : Network) (files : Files) where
  -- The recipe stands in its file, and has these dependencies.
  pub record IsLocal (recipe : Text) (dependencies : List Text) : Type 0 where
    pub contents : Text
    pub content : Recipe
    pub is_there : files (network.path_recipe recipe) ≡ some contents
    pub is_parsed : OfRecipe.deserialize lib contents ≡ some (ok content)
    pub depends : content.dependencies ≡ dependencies

  abbrev pub at_names : List Text → State
  at_names names = record { files = files; dependencies = names }

  module _ (url_remote distribution : Text) where
    -- A recipe that is local and was not met yet: its dependencies come next.
    pub fetch_local :
        (recipe : Text) (dependencies names : List Text) (fuel : ℕ)
        → IsLocal recipe dependencies
        → visited recipe names ≡ false
        → fetch_impl lib network url_remote distribution true (suc fuel) recipe (at_names names)
          ≡ fetch_each
              (fetch_impl lib network url_remote distribution true fuel)
              dependencies
              (at_names (recipe ∷ names))
    unfolding fetch_impl insert obtain exists parsed_file
    fetch_local recipe dependencies names fuel here new =
        rw (new, here.is_there, here.is_parsed)
          (ap
            (λ ds.
              fetch_each (fetch_impl lib network url_remote distribution true fuel) ds
                (at_names (recipe ∷ names)))
            here.depends)

    fetch_visited :
        (recipe : Text) (names : List Text) (fuel : ℕ)
        → visited recipe names ≡ true
        → fetch_impl lib network url_remote distribution true (suc fuel) recipe (at_names names)
          ≡ some (err "Cyclic dependency for recipe '{}'", at_names names)
    unfolding fetch_impl
    fetch_visited recipe names fuel old = rw old refl

    -- Where the files of four different recipes are there, of which the first depends on the second
    -- and the third, and both of these on the fourth, which depends on nothing, fetch with existing
    -- files reports a cyclic dependency, with every fuel from three on, although there is no cycle.
    pub fetch_shared :
        (a b c d : Text) (fuel : ℕ)
        → IsLocal a (b ∷ c ∷ [])
        → IsLocal b (d ∷ [])
        → IsLocal c (d ∷ [])
        → IsLocal d []
        → visited b (a ∷ []) ≡ false
        → visited d (b ∷ a ∷ []) ≡ false
        → visited c (d ∷ b ∷ a ∷ []) ≡ false
        → fetch lib network url_remote distribution true (suc (suc (suc fuel))) a files
          ≡ some (
            err "Cyclic dependency for recipe '{}'",
            record { files = files; dependencies = c ∷ d ∷ b ∷ a ∷ [] },
          )
    unfolding fetch fetch_each visited
    fetch_shared a b c d fuel at_a at_b at_c at_d new_b new_d new_c =
        rw
          (
            fetch_local a (b ∷ c ∷ []) [] (suc (suc fuel)) at_a refl,
            fetch_local b (d ∷ []) (a ∷ []) (suc fuel) at_b new_b,
            fetch_local d [] (b ∷ a ∷ []) fuel at_d new_d,
            fetch_local c (d ∷ []) (d ∷ b ∷ a ∷ []) (suc fuel) at_c new_c,
            fetch_visited d (c ∷ d ∷ b ∷ a ∷ []) fuel (
                second (text_eq c d) (text_eq d d) (text_eq b d || (text_eq a d || false))
                  (text_eq_refl d)),
          )
          refl
