-- ===== src/Db/Env.antt =====
-- src/db/env.hpp: the environment variables of an image, a document in its region. What
-- ns_env::expand makes of a variable in the environment of the process is a parameter.
pub mod Map
pub mod Laws
pub mod Get
pub mod Del
use flatimage.Base.{
  ℕ, String, Bool, true, false, ◌||◌, ◌==◌, if◌then◌else◌, Option, none, some, Value, ok, err,
  value_or, List, [], ◌∷◌, ◌++◌,
}
use mathlib.Core.Option
use flatimage.Base.Io.{File}
use flatimage.Base.Run
use flatimage.Base.Run.{Run, pure, ◌>>=◌, ◌>>◌}
use flatimage.Json.{JsonLibrary}
use flatimage.Text.{Text, text_eq}
use flatimage.Reserved.Text.{env_write, env_read}
use flatimage.Db.{assign, items, value_text, from_string_or_empty}
use flatimage.Db
use flatimage.Db.Laws.{Fields}

add_front : ℕ → Text × Text → Text × Text
add_front c (key, value) = (c ∷ key, value)

-- The parts around the first '='; `none` where there is none.
unfoldable pub assignment : Text → Option (Text × Text)
unfolding add_front
assignment [] = none
assignment (c ∷ s) =
    let rest = Option.map (add_front c) (assignment s) in if c == b'=' then some ([], s) else rest

-- A std::unordered_map keeps the value that a key got first.
unfoldable pub emplace : Text → Text → Fields Text → Fields Text
emplace key value [] = (key, value) ∷ []
emplace key value ((k, v) ∷ fields) =
    let further = emplace key value fields in
    if text_eq k key then (k, v) ∷ fields else (k, v) ∷ further

emplace_some : Option (Text × Text) → Fields Text → Fields Text
emplace_some none fields = fields
emplace_some (some (key, value)) fields = emplace key value fields

-- The entries one after the other; those without '=' are filtered out.
unfoldable pub fill : Fields Text → List Text → Fields Text
unfolding emplace_some
fill fields [] = fields
fill fields (entry ∷ entries) = fill (emplace_some (assignment entry) fields) entries

-- map
abbrev pub map : List Text → Fields Text
map = fill []

abbrev is_assigned : Text → Bool
is_assigned [] = false
is_assigned (c ∷ s) = c == b'=' || is_assigned s

-- validate
unfoldable pub validate : List Text → Value (Unit {0})
validate [] = ok tt
validate (entry ∷ entries) =
    let rest = validate entries in
    if is_assigned entry then rest else err "Variable assignment '{}' is invalid"

add_variable : Text → Value Text → Value (List Text) → Value (List Text)
add_variable key (err e) rest = err e
add_variable key (ok value) (err e) = err e
add_variable key (ok value) (ok variables) = ok ((key ++ (b'=' ∷ value)) ∷ variables)

-- The loop that expands; a variable that does not expand stays.
unfoldable pub expand_each : (Text → Value Text) → List Text → List Text
expand_each expand [] = []
expand_each expand (variable ∷ variables) =
    value_or (expand variable) variable ∷ expand_each expand variables

module _ (lib : JsonLibrary) where
  open lib use {Json}

  -- The loop over the variables to add.
  unfoldable pub assign_each : Fields Text → Run Json (Unit {0})
  assign_each [] = pure tt
  assign_each ((key, value) ∷ fields) = do assign lib key (lib.text value); assign_each fields

  -- The loop over the variables to erase.
  unfoldable pub erase_each : List Text → Json → Json
  erase_each [] j = j
  erase_each (key ∷ keys) j = erase_each keys (Db.erase lib key j).1

  -- ns_db::from_string(Pop(read(...))).value_or(ns_db::Db())
  unfoldable pub load : ℕ → Run File Json
  load base = do text ← Run.looks (env_read base); pure (from_string_or_empty lib text)

  -- Pop(write(..., Pop(db.dump())))
  unfoldable pub save : ℕ → Json → Run File (Unit {0})
  save base j = do text ← Run.lift (lib.dump j); Run.does (env_write base text)

  -- What steps on a document beside the file leave of it.
  on_document : Option (Value (Unit {0}) × Json) → Run File Json
  on_document none = Run.crash
  on_document (some (ok done, j)) = pure j
  on_document (some (err e, j)) = Run.fail e

  unfoldable pub del : ℕ → List Text → Run File (Unit {0})
  unfolding load save
  del base entries = do db ← load base; save base (erase_each entries db)

  unfoldable pub add : ℕ → List Text → Run File (Unit {0})
  unfolding load save on_document
  add base entries = do
    Run.lift (validate entries)
    db ← load base
    j ← on_document (assign_each (map entries) db)
    save base j

  unfoldable pub set : ℕ → List Text → Run File (Unit {0})
  unfolding save
  set base entries = do save base lib.object; add base entries

  -- The loop that merges the keys with the values.
  unfoldable pub merge : List (Text × Json) → Value (List Text)
  unfolding add_variable
  merge [] = ok []
  merge ((key, value) ∷ rest) = add_variable key (value_text lib value) (merge rest)

  unfoldable pub get : (Text → Value Text) → ℕ → Run File (List Text)
  unfolding load
  get expand base = do
    db ← load base
    environment ← Run.lift (merge (items lib db))
    pure (expand_each expand environment)
