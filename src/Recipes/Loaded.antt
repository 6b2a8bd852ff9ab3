-- ===== src/Recipes/Loaded.antt =====
-- What fetch leaves: the recipes that install can load.
use flatimage.Base.{
  append_assoc, append-nil, ap, sym, ◌++◌, subst, ℕ, zero, suc, ◌≡◌, refl, Bool, true, false, ◌&&◌,
  ◌∙◌, Bool-cases, inl, inr, Option, none, some, Option-cases, Value, ok, err, List, [], ◌∷◌,
  String, arith,
}
use mathlib.Core.Option.{none-ne-some}
use flatimage.Base.Run
use flatimage.Base.Run.{Run}
use flatimage.Json.{JsonLibrary}
use flatimage.Text.{Text, text_eq}
use flatimage.Text.Laws.{text_eq_iff, text_eq_comm, text_eq_refl}
use flatimage.Db.Desktop.{Desktop}
use flatimage.Db.Recipe as OfRecipe
use flatimage.Db.Recipe.{Recipe}
use flatimage.Recipes.{
  url_recipe, Files, Network, State, parsed_file, download, obtain, visited, fetch_each, fetch_impl,
  fetch, exists, insert,
}
use flatimage.Recipes.Install.{load_recipe, loaded, gather, last_found}

-- What holds of a result and of the state behind it, where a step succeeds.
abbrev Post {ℓ κ} : {A : Type ℓ} → (A → State → Type κ) → Option (Value A × State) → Type (ℓ ⊔ κ)
Post {A = A} P r = (a : A) (t : State) → r ≡ some (ok a, t) → P a t

resume-Post {ℓ ℓ' κ κ'} :
    {A : Type ℓ} {B : Type ℓ'} (P : A → State → Type κ) (Q : B → State → Type κ')
    (next : A → Run State B) (r : Option (Value A × State))
    → Post P r
    → ((a : A) (t : State) → P a t → Post Q (next a t))
    → Post Q (Run.resume r next)
resume-Post P Q next none first then b u e = absurd (none-ne-some _ e)
resume-Post P Q next (some (err m, s)) first then b u e = absurd cc
resume-Post P Q next (some (ok a, s)) first then b u e = then a s (first a s refl) b u e

stay-Post {ℓ κ} :
    {A : Type ℓ} (I : State → Type κ) (v : Value A) (s : State)
    → I s
    → Post (λ a t. I t) (some (v, s))
stay-Post I (ok a) s holds b t e = subst I (let same : s ≡ t = cc in same) holds
stay-Post I (err m) s holds b t e = absurd cc

-- The packages of the recipes, one recipe after the other.
abbrev pub packages_of : List Recipe → List Text
packages_of [] = []
packages_of (r ∷ rs) = r.packages ++ packages_of rs

module _ (lib : JsonLibrary) (network : Network) where
  -- The file of a recipe is there and is parsed.
  abbrev IsFound : Files → Text → Type 0
  IsFound files name =
      (contents : Text) × (recipe : Recipe) × (files (network.path_recipe name) ≡ some contents)
      × (OfRecipe.deserialize lib contents ≡ some (ok recipe))

  abbrev AllFound : State → Type 0
  AllFound s = (name : Text) → visited name s.dependencies ≡ true → IsFound s.files name

  abbrev OthersFound : Text → State → Type 0
  OthersFound recipe s =
      (name : Text)
      → visited name s.dependencies ≡ true
      → text_eq name recipe ≡ false
      → IsFound s.files name

  -- wget -O writes one file, and names have paths of their own.
  abbrev pub WritesOne : Type 0
  WritesOne =
      (recipe other url : Text) (files : Files)
      → text_eq other recipe ≡ false
      → (network.wget (network.path_recipe recipe) url files).1 (network.path_recipe other)
        ≡ files (network.path_recipe other)

  parsed-Post :
      (recipe contents : Text) (s : State) (v : Option (Value Recipe))
      → s.files (network.path_recipe recipe) ≡ some contents
      → OfRecipe.deserialize lib contents ≡ v
      → OthersFound recipe s
      → Post (λ r t. AllFound t) (Run.looked s v)
  parsed-Post recipe contents s none there parsed others r t e = absurd (none-ne-some _ e)
  parsed-Post recipe contents s (some (err m)) there parsed others r t e = absurd cc
  parsed-Post recipe contents s (some (ok found)) there parsed others r t e =
      let same : s ≡ t = cc in
      subst AllFound same (λ name seen. elim (Bool-cases (text_eq name recipe)) [
        | inl here ↦
            let e' : name ≡ recipe = (text_eq_iff name recipe).0 here in
            (contents, found, rw e' there, parsed)
        | inr other ↦ others name seen other
      ])

  parsed_file-Post :
      (message : String) (recipe : Text) (s : State)
      → OthersFound recipe s
      → Post (λ r t. AllFound t) (parsed_file lib network message recipe s)
  unfolding parsed_file
  parsed_file-Post message recipe s others r t =
      elim (Option-cases (s.files (network.path_recipe recipe))) [
        | inl missing ↦ rw (missing, parsed_file) (λ e. absurd cc)
        | inr (contents, there) ↦
            rw (there, parsed_file) (parsed-Post recipe contents s _ there refl others r t)
      ]

  module _ (writes : WritesOne) (url_remote distribution : Text) (use_existing : Bool) where
    download-Post :
        (recipe : Text) (s : State)
        → OthersFound recipe s
        → Post
            (λ done t. OthersFound recipe t)
            (download lib network url_remote distribution recipe s)
    unfolding download
    download-Post recipe s others =
        let step =
          network.wget (network.path_recipe recipe) (url_recipe url_remote distribution recipe)
            s.files in
        stay-Post (OthersFound recipe) step.0
          record { files = step.1; dependencies = s.dependencies }
          (λ name seen other.
            let (contents, found, there, parsed) = others name seen other in
            (contents, found, writes recipe name _ s.files other ∙ there, parsed))

    obtain-Post :
        (recipe : Text) (s : State)
        → OthersFound recipe s
        → Post
            (λ r t. AllFound t)
            (obtain lib network url_remote distribution use_existing recipe s)
    unfolding obtain
    obtain-Post recipe s others = elim (Bool-cases (use_existing && exists lib network recipe s)) [
      | inl local ↦ rw local (parsed_file-Post _ recipe s others)
      | inr fresh ↦ rw fresh (
          resume-Post (λ made t. OthersFound recipe t) (λ r t. AllFound t) _
            (Run.lift (network.create_directories (network.path_recipe recipe)) s)
            (stay-Post (OthersFound recipe)
              (network.create_directories (network.path_recipe recipe)) s others)
            (λ made t o.
              resume-Post (λ done u. OthersFound recipe u) (λ r u. AllFound u) _
                (download lib network url_remote distribution recipe t) (download-Post recipe t o)
                (λ done u o'. parsed_file-Post _ recipe u o')))
    ]

    fetch_each-Post :
        (one : Text → Run State (Unit {0}))
        → ((name : Text) (s : State) → AllFound s → Post (λ done t. AllFound t) (one name s))
        → (todo : List Text) (s : State) → AllFound s
        → Post (λ done t. AllFound t) (fetch_each one todo s)
    unfolding fetch_each
    fetch_each-Post one keeps [] s all = stay-Post AllFound (ok tt) s all
    fetch_each-Post one keeps (name ∷ todo) s all =
        resume-Post (λ done t. AllFound t) (λ done t. AllFound t) (λ _. fetch_each one todo)
          (one name s) (keeps name s all) (λ done t all'. fetch_each-Post one keeps todo t all')

    inserted :
        (recipe : Text) (s : State)
        → AllFound s
        → OthersFound recipe record { files = s.files; dependencies = recipe ∷ s.dependencies }
    unfolding visited
    inserted recipe s all name seen other = all name (rw (text_eq_comm recipe name, other) at seen)

    fetch_impl-Post :
        (fuel : ℕ) (recipe : Text) (s : State)
        → AllFound s
        → Post
            (λ done t. AllFound t)
            (fetch_impl lib network url_remote distribution use_existing fuel recipe s)
    unfolding fetch_impl insert
    fetch_impl-Post zero recipe s all = λ done t e. absurd (none-ne-some _ e)
    fetch_impl-Post (suc fuel) recipe s all = elim (Bool-cases (visited recipe s.dependencies)) [
      | inl old ↦ rw old (λ done t e. absurd cc)
      | inr new ↦ rw new (
          resume-Post (λ r t. AllFound t) (λ done t. AllFound t) _ _
            (obtain-Post recipe record { files = s.files; dependencies = recipe ∷ s.dependencies }
              (inserted recipe s all))
            (λ found t all'.
              fetch_each-Post _ (λ name u all''. fetch_impl-Post fuel name u all'')
                found.dependencies t all'))
    ]

  nothing : (files : Files) (name : Text) → visited name [] ≡ true → IsFound files name
  unfolding visited
  nothing files name h = absurd cc

  -- The recipes that load_recipe returns for the names.
  abbrev pub LoadedAs : Files → List Text → List Recipe → Type 0
  LoadedAs files [] [] = Unit
  LoadedAs files [] (r ∷ rs) = ⊥
  LoadedAs files (name ∷ names) [] = ⊥
  LoadedAs files (name ∷ names) (r ∷ rs) =
      (load_recipe lib network files name ≡ some (ok r)) × LoadedAs files names rs

  loaded-found :
      (contents : Text) (recipe : Recipe)
      → OfRecipe.deserialize lib contents ≡ some (ok recipe)
      → loaded lib network (some contents) ≡ some (ok recipe)
  unfolding OfRecipe.deserialize loaded flatimage.Db.parsed
  loaded-found [] recipe h = absurd cc
  loaded-found (c ∷ json) recipe h = rw h refl

  load_recipe-found :
      (files : Files) (name : Text) (found : IsFound files name)
      → load_recipe lib network files name ≡ some (ok found.1)
  unfolding load_recipe
  load_recipe-found files name (contents, recipe, there, parsed) =
      rw there (loaded-found contents recipe parsed)

  gather-found :
      (files : Files) (names packages : List Text) (desktop : Value Desktop)
      → ((name : Text) → visited name names ≡ true → IsFound files name)
      → (rs : List Recipe) × LoadedAs files names rs
        × (last : Value Desktop) × (gather lib network files names packages desktop
            ≡ some (ok (packages ++ packages_of rs, last)))
  unfolding gather visited
  gather-found files [] packages desktop found =
      ([], tt, desktop, ap (λ ps. some (ok (ps, desktop))) (sym (append-nil packages)))
  gather-found files (name ∷ names) packages desktop found =
      let here = found name (rw (text_eq_refl name) refl) in
      let r = here.1 in
      let load = load_recipe-found files name here in
      let (rs, loads, last, gathered) =
        gather-found files names (packages ++ r.packages) (last_found desktop r.desktop)
          (λ other seen. found other (ground arith)) in
      (
        r ∷ rs,
        (load, loads),
        last,
        rw load (
            gathered
            ∙ ap (λ ps. some (ok (ps, last))) (append_assoc packages r.packages (packages_of rs))),
      )

  -- Where wget writes the file that it is given and no other, and names have paths of their own: behind
  -- a fetch that succeeded, load_recipe finds each of the recipes that it returned, and the loop of
  -- install over these gathers the packages of all of them, in their order.
  pub gather-fetch :
      (url_remote distribution recipe : Text) (use_existing : Bool) (fuel : ℕ) (files : Files)
      (names : List Text) (s : State) (desktop : Value Desktop)
      → WritesOne
      → fetch lib network url_remote distribution use_existing fuel recipe files
        ≡ some (ok names, s)
      → (rs : List Recipe) × LoadedAs s.files names rs
        × (last : Value Desktop) × (gather lib network s.files names [] desktop
            ≡ some (ok (packages_of rs, last)))
  unfolding fetch
  gather-fetch url_remote distribution recipe use_existing fuel files names s desktop writes
        fetched =
      gather-found s.files names [] desktop (
        resume-Post (λ done t. AllFound t)
          (λ ns t. (name : Text) → visited name ns ≡ true → IsFound t.files name) _
          (fetch_impl lib network url_remote distribution use_existing fuel recipe
            record { files = files; dependencies = [] })
          (fetch_impl-Post writes url_remote distribution use_existing fuel recipe
            record { files = files; dependencies = [] } (λ name seen. nothing files name seen))
          (λ done t all ns u e.
            let p : t ≡ u = cc in
            let q : t.dependencies ≡ ns = cc in
            subst (λ w. (name : Text) → visited name ns ≡ true → IsFound w.files name) p
              (λ name seen. all name (rw q seen)))
          names s fetched)
