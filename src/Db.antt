-- ===== src/Db.antt =====
-- src/db/db.hpp: the database `Db`, whose state is one JSON document. An operation that reaches into
-- the document by reference is a step on it.
pub mod Laws
pub mod Boot
pub mod Desktop
pub mod Recipe
pub mod Portal
pub mod Stored
pub mod Remote
pub mod Env
use flatimage.Base.{
  ℕ, zero, suc, Bool, true, false, ◌||◌, ◌&&◌, if◌then◌else◌, Option, none, some, Value, ok, err,
  relabel, value_or, List, [], ◌∷◌,
}
use mathlib.Core.Option
use flatimage.Base.Run
use flatimage.Base.Run.{Run, ◌>>=◌}
use flatimage.Json.{JsonLibrary}
use flatimage.Text.{Text, text_eq}

module _ {ℓ} {A : Type ℓ} where
  abbrev pub is_some : Option A → Bool
  is_some none = false
  is_some (some a) = true

module _ (lib : JsonLibrary) where
  open lib use {Json}

  is_array : Json → Bool
  is_array j = is_some (lib.elements_of j)

  -- Db::items
  unfoldable pub items : Json → List (Text × Json)
  unfolding is_array
  items j = if lib.is_object j || is_array j then lib.items j else []

  abbrev keys_of : List (Text × Json) → List Text
  keys_of [] = []
  keys_of ((key, value) ∷ rest) = key ∷ keys_of rest

  -- Db::keys
  unfoldable pub keys : Json → List Text
  unfolding is_array
  keys j = if lib.is_object j || is_array j then keys_of (lib.items j) else []

  -- Db::value<std::string>
  unfoldable pub value_text : Json → Value Text
  value_text j = elim (lib.text_of j) [ none ↦ err "Json element is not a string" | some t ↦ ok t ]

  -- The any_of and the transform over the elements, in one pass.
  abbrev pub add_text : Option Text → Value (List Text) → Value (List Text)
  add_text none rest = err "Invalid key type for string array"
  add_text (some t) (err e) = err e
  add_text (some t) (ok ts) = ok (t ∷ ts)

  abbrev pub all_texts : List Json → Value (List Text)
  all_texts [] = ok []
  all_texts (j ∷ js) = add_text (lib.text_of j) (all_texts js)

  -- Db::value<std::vector<std::string>>
  unfoldable pub value_texts : Json → Value (List Text)
  value_texts j = elim (lib.elements_of j) [
    | none ↦ err "Tried to create array with non-array entry"
    | some js ↦ all_texts js
  ]

  -- Db::empty
  unfoldable pub empty : Json → Bool
  empty j = lib.is_empty j

  -- Db::contains
  unfoldable pub contains : Json → Text → Bool
  unfolding is_array
  contains j key = (lib.is_object j || is_array j) && is_some (lib.at j key)

  is_text : Text → Option Text → Bool
  is_text key none = false
  is_text key (some t) = text_eq t key

  -- std::find over the elements of an array.
  find : Text → ℕ → List Json → Option ℕ
  unfolding is_text
  find key n [] = none
  find key n (j ∷ js) =
      let rest = find key (suc n) js in if is_text key (lib.text_of j) then some n else rest

  -- Db::erase
  unfoldable pub erase : Text → Json → Bool × Json
  unfolding find
  erase key j = elim (lib.elements_of j) [
    | some js ↦ elim (find key 0 js) [ none ↦ (false, j) | some n ↦ (true, lib.erase_index j n) ]
    | none ↦ if lib.is_object j then (is_some (lib.at j key), lib.erase j key) else (false, j)
  ]

  -- Db::clear
  abbrev pub clear : Json → Json
  clear j = lib.object

  -- json[key], which turns null into an object and throws on what is neither.
  indexed : Text → Run Json Json
  indexed key j = elim (lib.at j key) [
    | some v ↦ some (ok v, j)
    | none ↦
        if lib.is_object j || lib.is_null j
        then some (ok lib.null, lib.put j key lib.null)
        else none
  ]

  -- Db::operator(), read: the entry, and the document with the entry in it.
  unfoldable pub entry : Text → Run Json Json
  unfolding indexed
  entry key j = if lib.is_object j || empty j then indexed key j else some (ok j, j)

  -- db(key) = value: Db::operator() and Db::operator=; on what is no object a copy is assigned to.
  unfoldable pub assign : Text → Json → Run Json (Unit {0})
  assign key value j =
      if lib.is_object j || empty j
      then if lib.is_object j || lib.is_null j then some (ok tt, lib.put j key value) else none
      else some (ok tt, j)

  -- What a step on the entry leaves of it.
  abbrev within : Text → Json → Option (Value (Unit {0}) × Json) → Option (Value (Unit {0}) × Json)
  within key j none = none
  within key j (some (done, v)) = some (done, lib.put j key v)

  -- db(sub) = value where db refers to a value: what is no object is replaced itself.
  unfoldable pub assign_at : Text → Json → Run Json (Unit {0})
  assign_at sub value v =
      if lib.is_object v || empty v then assign sub value v else some (ok tt, value)

  -- db(key)(sub) = value; on what is no object a copy is assigned to.
  unfoldable pub assign_in : Text → Text → Json → Run Json (Unit {0})
  assign_in key sub value j =
      if lib.is_object j || empty j
      then Run.resume (entry key j) (λ v j'. within key j' (assign_at sub value v))
      else some (ok tt, j)

  -- db(key).value<std::string>()
  unfoldable pub text_at : Text → Run Json Text
  text_at key = do j ← entry key; Run.lift (value_text j)

  -- db(key).value<std::vector<std::string>>()
  unfoldable pub texts_at : Text → Run Json (List Text)
  texts_at key = do j ← entry key; Run.lift (value_texts j)

  -- from_string
  unfoldable pub from_string : Text → Value Json
  from_string [] = err "Empty json data"
  from_string (c ∷ s) = relabel (lib.parse (c ∷ s)) "Could not parse json file"

  -- from_string(...).value_or(ns_db::Db())
  unfoldable pub from_string_or_empty : Text → Json
  from_string_or_empty s = value_or (from_string s) lib.object

  -- db.dump()
  unfoldable pub dump : Run Json Text
  dump j = some (lib.dump j, j)

  -- A function with a Db of its own: what it returns.
  unfoldable pub with_db {ℓ} : {A : Type ℓ} → Value Json → Run Json A → Option (Value A)
  with_db (err e) steps = some (err e)
  with_db (ok j) steps = Run.outcome (steps j)

  -- How each deserialize begins: the check for an empty text, and the Db that the steps read.
  unfoldable pub parsed {ℓ} : {A : Type ℓ} → Run Json A → Text → Option (Value A)
  parsed steps [] = some (err "Empty json data")
  parsed steps (c ∷ s) = with_db (from_string (c ∷ s)) steps
