-- ===== src/Recipes/Total.antt =====
-- The recursion of fetch comes to an end where the recipes that it can meet are finitely many.
use flatimage.Base.{
  ℕ, suc, zero, ◌+◌, ◌≤◌, ◌<◌, ◌≡◌, refl, Bool, true, false, ◌&&◌, if◌then◌else◌, Option, some,
  Value, ok, err, String, List, [], ◌∷◌, length, Each, Bool-cases, Option-cases, inl, inr, arith,
}
use flatimage.Base.Run
use flatimage.Base.Run.{Run}
use flatimage.Json.{JsonLibrary}
use flatimage.Text.{Text, text_eq}
use flatimage.Text.Laws.{text_eq_iff, text_eq_comm}
use flatimage.Db.Recipe as OfRecipe
use flatimage.Db.Recipe.{Recipe}
use flatimage.Recipes.{
  Files, Network, State, parsed_file, download, obtain, visited, fetch_each, fetch_impl, fetch,
  exists, insert,
}

-- How many of the names were not met yet.
unseen : List Text → List Text → ℕ
unseen [] seen = 0
unseen (name ∷ names) seen = (if visited name seen then 0 else 1) + unseen names seen

unseen-nil : (names : List Text) → unseen names [] ≡ length names
unfolding unseen visited
unseen-nil [] = refl
unseen-nil (name ∷ names) = omega (arith, unseen-nil names)

unseen-le : (names seen : List Text) (r : Text) → unseen names (r ∷ seen) ≤ unseen names seen
unfolding unseen visited
unseen-le [] seen r = omega arith
unseen-le (name ∷ names) seen r = ground (arith, unseen-le names seen r)

-- A name of the list that is met for the first time.
unseen-lt :
    (names seen : List Text) (r : Text)
    → visited r names ≡ true
    → visited r seen ≡ false
    → unseen names (r ∷ seen) < unseen names seen
unfolding unseen visited
unseen-lt [] seen r h new = cc
unseen-lt (name ∷ names) seen r h new = elim (Bool-cases (text_eq name r)) [
  | inl same ↦
      let e : name ≡ r = (text_eq_iff name r).0 same in
      rw (e, new, (text_eq_iff r r).1 refl) (omega (arith, unseen-le names seen r))
  | inr other ↦
      rw (text_eq_comm r name, other) (omega (arith, unseen-lt names seen r (rw other at h) new))
]

module _ (lib : JsonLibrary) (network : Network) (names : List Text) where
  -- The dependencies of a recipe are among the names.
  abbrev pub DependsIn : Value Recipe → Type 0
  DependsIn (err e) = Unit
  DependsIn (ok recipe) = Each (λ name. visited name names ≡ true) recipe.dependencies

  -- The files of the names are read without an exception that ends the program, and depend on names.
  abbrev pub IsReadable : Files → Type 0
  IsReadable files =
      (recipe contents : Text)
      → visited recipe names ≡ true
      → files (network.path_recipe recipe) ≡ some contents
      → (v : Value Recipe) × (OfRecipe.deserialize lib contents ≡ some v) × DependsIn v

  -- What wget downloads for the names is so, too.
  abbrev pub KeepsReadable : Type 0
  KeepsReadable =
      (recipe url : Text) (files : Files)
      → visited recipe names ≡ true
      → IsReadable files
      → IsReadable (network.wget (network.path_recipe recipe) url files).1

  -- A step that ends, in a state that is readable, with no more unseen names than there were.
  record Ends {ℓ} {A : Type ℓ} (P : Value A → Type 0) (bound : ℕ) (r : Option (Value A × State))
      : Type ℓ where
    value : Value A
    after : State
    ends : r ≡ some (value, after)
    holds : P value
    readable : IsReadable after.files
    below : unseen names after.dependencies ≤ bound

  Ends-le {ℓ} :
      {A : Type ℓ} (P : Value A → Type 0) (m n : ℕ) {r : Option (Value A × State)}
      → m ≤ n
      → Ends P m r
      → Ends P n r
  Ends-le P m n h e = record {
    value = e.value;
    after = e.after;
    ends = e.ends;
    holds = e.holds;
    readable = e.readable;
    below = omega (arith, e.below);
  }

  parsed_file-Ends :
      (message : String) (recipe : Text) (s : State)
      → visited recipe names ≡ true
      → IsReadable s.files
      → Ends DependsIn (unseen names s.dependencies) (parsed_file lib network message recipe s)
  unfolding parsed_file
  parsed_file-Ends message recipe s member readable =
      elim (Option-cases (s.files (network.path_recipe recipe))) [
        | inl missing ↦ record {
          value = err message;
          after = s;
          ends = rw (missing, parsed_file) refl;
          holds = tt;
          readable = readable;
          below = omega arith;
        }
        | inr (contents, there) ↦
            let (v, parsed, depends) = readable recipe contents member there in
            record {
              value = v;
              after = s;
              ends = rw (there, parsed_file, parsed) refl;
              holds = depends;
              readable = readable;
              below = omega arith;
            }
      ]

  -- A step that ends, and then one that ends from wherever the first leads.
  module _ {ℓ κ} {A : Type ℓ} {B : Type κ} (P : Value A → Type 0) (Q : Value B → Type 0) (bound : ℕ)
      (next : A → Run State B)
      (goes_on : (a : A) (s : State)
        → P (ok a)
        → IsReadable s.files
        → unseen names s.dependencies ≤ bound
        → Ends Q bound (next a s))
      (fails : (e : String) → Q (err e)) where
    resume-Ends_at :
        (v : Value A) (s : State)
        → P v
        → IsReadable s.files
        → unseen names s.dependencies ≤ bound
        → Ends Q bound (Run.resume (some (v, s)) next)
    resume-Ends_at (ok a) s p readable below = goes_on a s p readable below
    resume-Ends_at (err e) s p readable below = record {
      value = err e;
      after = s;
      ends = refl;
      holds = fails e;
      readable = readable;
      below = below;
    }

    resume-Ends : (r : Option (Value A × State)) → Ends P bound r → Ends Q bound (Run.resume r next)
    resume-Ends r e = rw e.ends (resume-Ends_at e.value e.after e.holds e.readable e.below)

  abbrev Any {ℓ} : {A : Type ℓ} → Value A → Type 0
  Any v = Unit

  module _ (keeps : KeepsReadable) (url_remote distribution : Text) (use_existing : Bool) where
    download-Ends :
        (recipe : Text) (s : State)
        → visited recipe names ≡ true
        → IsReadable s.files
        → Ends Any
            (unseen names s.dependencies)
            (download lib network url_remote distribution recipe s)
    unfolding download
    download-Ends recipe s member readable = record {
      value = _;
      after = _;
      ends = refl;
      holds = tt;
      readable = keeps recipe _ s.files member readable;
      below = omega arith;
    }

    obtain-Ends :
        (recipe : Text) (s : State)
        → visited recipe names ≡ true
        → IsReadable s.files
        → Ends DependsIn
            (unseen names s.dependencies)
            (obtain lib network url_remote distribution use_existing recipe s)
    unfolding obtain
    obtain-Ends recipe s member readable =
        elim (Bool-cases (use_existing && exists lib network recipe s)) [
          | inl local ↦ rw local (parsed_file-Ends _ recipe s member readable)
          | inr fresh ↦
              let bound = unseen names s.dependencies in
              let parses =
                λ (t : State) (r : IsReadable t.files)
                    (below : unseen names t.dependencies ≤ bound).
                  Ends-le DependsIn _ bound below (parsed_file-Ends _ recipe t member r) in
              rw fresh (
                resume-Ends_at Any DependsIn bound _
                  (λ made t p r below.
                    resume-Ends Any DependsIn bound _ (λ done u q r' below'. parses u r' below')
                      (λ e. tt) (download lib network url_remote distribution recipe t)
                      (Ends-le Any _ bound below (download-Ends recipe t member r)))
                  (λ e. tt) (network.create_directories (network.path_recipe recipe)) s tt readable
                  (omega arith))
        ]

    fetch_each-Ends :
        (one : Text → Run State (Unit {0})) (bound : ℕ)
        → ((name : Text) (s : State)
            → visited name names ≡ true
            → IsReadable s.files
            → unseen names s.dependencies ≤ bound
            → Ends Any bound (one name s))
        → (todo : List Text) (s : State) → Each (λ name. visited name names ≡ true) todo
        → IsReadable s.files
        → unseen names s.dependencies ≤ bound
        → Ends Any bound (fetch_each one todo s)
    unfolding fetch_each
    fetch_each-Ends one bound goes [] s members readable below = record {
      value = ok tt;
      after = s;
      ends = refl;
      holds = tt;
      readable = readable;
      below = below;
    }
    fetch_each-Ends one bound goes (name ∷ todo) s (member, members) readable below =
        resume-Ends Any Any bound (λ _. fetch_each one todo)
          (λ done t p r below'. fetch_each-Ends one bound goes todo t members r below') (λ e. tt)
          (one name s) (goes name s member readable below)

    fetch_impl-Ends :
        (fuel bound : ℕ) (recipe : Text) (s : State)
        → bound < fuel
        → visited recipe names ≡ true
        → IsReadable s.files
        → unseen names s.dependencies ≤ bound
        → Ends Any bound (fetch_impl lib network url_remote distribution use_existing fuel recipe s)
    unfolding fetch_impl insert
    fetch_impl-Ends zero bound recipe s enough member readable below = absurd (omega arith)
    fetch_impl-Ends (suc fuel) bound recipe s enough member readable below =
        elim (Bool-cases (visited recipe s.dependencies)) [
          | inl old ↦ rw old record {
            value = err "Cyclic dependency for recipe '{}'";
            after = s;
            ends = refl;
            holds = tt;
            readable = readable;
            below = below;
          }
          | inr new ↦
              let bound' = unseen names (recipe ∷ s.dependencies) in
              let less = unseen-lt names s.dependencies recipe member new in
              rw new (
                Ends-le Any bound' bound (omega (arith, less)) (
                  resume-Ends DependsIn Any bound' _
                    (λ found t depends r below'.
                      fetch_each-Ends _ bound'
                        (λ name u member' r' below''.
                          fetch_impl-Ends fuel bound' name u (omega (arith, less)) member' r'
                            below'')
                        found.dependencies t depends r below')
                    (λ e. tt) _
                    (obtain-Ends recipe
                      record { files = s.files; dependencies = recipe ∷ s.dependencies } member
                      readable)))
        ]

    -- Where a recipe is among finitely many names, and the files of all these names, those that are
    -- there as well as those that wget leaves, are read without an exception and depend on these names
    -- alone, fetch ends: with every fuel above the number of the names it returns names or an error.
    pub fetch-total :
        (fuel : ℕ) (recipe : Text) (files : Files)
        → length names < fuel
        → visited recipe names ≡ true
        → IsReadable files
        → (v : Value (List Text)) × (s : State) × (fetch lib network url_remote distribution
              use_existing fuel recipe files
            ≡ some (v, s))
    unfolding fetch
    fetch-total fuel recipe files enough member readable =
        let begin =
          fetch_impl-Ends fuel (length names) recipe record { files = files; dependencies = [] }
            enough member readable (omega (arith, unseen-nil names)) in
        let end =
          resume-Ends Any Any (length names)
            (λ _. Run.looks (λ (state : State). some (ok state.dependencies)))
            (λ done t p r below. record {
              value = ok t.dependencies;
              after = t;
              ends = refl;
              holds = tt;
              readable = r;
              below = below;
            })
            (λ e. tt) _ begin in
        (end.value, end.after, end.ends)
