-- ===== src/Db/Env/Get.antt =====
-- The variables that get makes of a document, and what del leaves of it.
use flatimage.Base.{
  ◌≡◌, Option, none, some, Value, value_or, List, [], ◌∷◌, ◌++◌, Each, map as list_map,
}
use flatimage.Bytes.{Bytes}
use flatimage.Json.{JsonLibrary}
use flatimage.Text.{Text}
use flatimage.Db.Env.{map}
use flatimage.Db.Env.Map.{assigned, text_of}

abbrev pub variable : Text → Text → Text
variable key value = key ++ (b'=' ∷ value)

abbrev pub expanded : (Text → Value Text) → Text → Text
expanded expand v = value_or (expand v) v

Each-map {ℓ} :
    {A B : Type ℓ} (f : A → B) (P : B → Type ℓ) (xs : List A)
    → Each (λ x. P (f x)) xs
    → Each P (list_map f xs)
Each-map f P [] h = tt
Each-map f P (x ∷ xs) h = (h.0, Each-map f P xs h.1)

module _ (lib : JsonLibrary) where
  open lib use {Json}

  some_text : Option Text → Text
  some_text none = []
  some_text (some t) = t

  shown : Text × Json → Text
  unfolding some_text
  shown (key, value) = variable key (some_text (lib.text_of value))

  -- The field is a text that the entries assign.
  abbrev IsAssigned : List Text → Text × Json → Type 0
  IsAssigned entries (key, value) =
      (t : Text) × (assigned key entries ≡ some t) × (value ≡ lib.text t)

  -- A variable of the environment: the expansion of an assignment that counts.
  abbrev pub IsVariable : (Text → Value Text) → List Text → Text → Type 0
  IsVariable expand entries v =
      (key : Text) × (t : Text) × (assigned key entries ≡ some t)
      × (v ≡ expanded expand (variable key t))
