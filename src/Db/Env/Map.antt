-- ===== src/Db/Env/Map.antt =====
-- The variables that a list of entries assigns: the first assignment of a key counts.
use flatimage.Base.{
  ◌≡◌, refl, ap, sym, subst, ◌∙◌, true, false, Bool-cases, inl, inr, if◌then◌else◌, Option, none,
  some, ok, List, [], ◌∷◌,
}
use flatimage.Json.{JsonLibrary}
use flatimage.Text.{Text, text_eq}
use flatimage.Text.Laws.{text_eq_iff, text_eq_comm}
use flatimage.Db.{assign}
use flatimage.Db.Laws.{Fields, lookup}
use flatimage.Db.Env.{assignment, emplace, emplace_some, fill, assign_each}

-- What a list of entries assigns to a key.
unfoldable pub assigned : Text → List Text → Option Text
assigned key [] = none
assigned key (entry ∷ entries) =
    let rest = assigned key entries in
    elim (assignment entry) [ none ↦ rest | some (k, v) ↦ if text_eq k key then some v else rest ]

abbrev pub or_else {ℓ} : {A : Type ℓ} → Option A → Option A → Option A
or_else none b = b
or_else (some a) b = some a

-- No key stands twice.
abbrev pub IsDistinct : Fields Text → Type 0
IsDistinct [] = Unit
IsDistinct ((k, v) ∷ fields) = (lookup k fields ≡ none) × IsDistinct fields

or_else-none {ℓ} : {A : Type ℓ} (a : Option A) → or_else a none ≡ a
or_else-none none = refl
or_else-none (some a) = refl

or_else_assoc {ℓ} :
    {A : Type ℓ} (a b c : Option A) → or_else (or_else a b) c ≡ or_else a (or_else b c)
or_else_assoc none b c = refl
or_else_assoc (some a) b c = refl

one : Text → Text → Text → Option Text
one key k v = if text_eq k key then some v else none

lookup-emplace :
    (key k v : Text) (fields : Fields Text)
    → lookup key (emplace k v fields) ≡ or_else (lookup key fields) (one key k v)
unfolding lookup emplace one
lookup-emplace key k v [] = refl
lookup-emplace key k v ((l, w) ∷ fields) = elim (Bool-cases (text_eq l k)) [
  | inl same ↦ elim (Bool-cases (text_eq l key)) [
    | inl found ↦ rw (same, found) refl
    | inr missed ↦
        let e : text_eq k key ≡ false =
          subst (λ t. text_eq t key ≡ false) ((text_eq_iff l k).0 same) missed in
        rw (same, missed, e) (sym (or_else-none (lookup key fields)))
  ]
  | inr other ↦ elim (Bool-cases (text_eq l key)) [
    | inl found ↦ rw (other, found) refl
    | inr missed ↦ rw (other, missed) (lookup-emplace key k v fields)
  ]
]

emplace-IsDistinct :
    (k v : Text) (fields : Fields Text) → IsDistinct fields → IsDistinct (emplace k v fields)
unfolding emplace lookup one
emplace-IsDistinct k v [] h = (refl, tt)
emplace-IsDistinct k v ((l, w) ∷ fields) h = elim (Bool-cases (text_eq l k)) [
  | inl same ↦ rw same h
  | inr other ↦
      let swapped : text_eq k l ≡ false = text_eq_comm k l ∙ other in
      rw other
        (lookup-emplace l k v fields ∙ rw (h.0, swapped) refl, emplace-IsDistinct k v fields h.1)
]

emplace_some-IsDistinct :
    (o : Option (Text × Text)) (fields : Fields Text)
    → IsDistinct fields
    → IsDistinct (emplace_some o fields)
unfolding emplace_some
emplace_some-IsDistinct none fields h = h
emplace_some-IsDistinct (some (k, v)) fields h = emplace-IsDistinct k v fields h

pub fill-IsDistinct :
    (fields : Fields Text) (entries : List Text)
    → IsDistinct fields
    → IsDistinct (fill fields entries)
unfolding fill
fill-IsDistinct fields [] h = h
fill-IsDistinct fields (entry ∷ entries) h =
    fill-IsDistinct (emplace_some (assignment entry) fields) entries
      (emplace_some-IsDistinct (assignment entry) fields h)

one_of : Text → Option (Text × Text) → Option Text
unfolding one
one_of key none = none
one_of key (some (k, v)) = one key k v

lookup-emplace_some :
    (key : Text) (o : Option (Text × Text)) (fields : Fields Text)
    → lookup key (emplace_some o fields) ≡ or_else (lookup key fields) (one_of key o)
unfolding emplace_some one_of one
lookup-emplace_some key none fields = sym (or_else-none (lookup key fields))
lookup-emplace_some key (some (k, v)) fields = lookup-emplace key k v fields

assigned_entry :
    (key entry : Text) (entries : List Text) (o : Option (Text × Text))
    → assignment entry ≡ o
    → assigned key (entry ∷ entries) ≡ or_else (one_of key o) (assigned key entries)
unfolding assigned one_of one
assigned_entry key entry entries none h = rw (assigned, h) refl
assigned_entry key entry entries (some (k, v)) h = elim (Bool-cases (text_eq k key)) [
  | inl same ↦ rw (assigned, h, same) refl
  | inr other ↦ rw (assigned, h, other) refl
]

-- The map has what the entries assign, behind what it had.
pub lookup-fill :
    (key : Text) (fields : Fields Text) (entries : List Text)
    → lookup key (fill fields entries) ≡ or_else (lookup key fields) (assigned key entries)
unfolding fill assigned
lookup-fill key fields [] = sym (or_else-none (lookup key fields))
lookup-fill key fields (entry ∷ entries) =
    lookup-fill key (emplace_some (assignment entry) fields) entries
    ∙ ap (λ o. or_else o (assigned key entries)) (lookup-emplace_some key (assignment entry) fields)
    ∙ or_else_assoc (lookup key fields) (one_of key (assignment entry)) (assigned key entries)
    ∙ ap (or_else (lookup key fields))
        (sym (assigned_entry key entry entries (assignment entry) refl))

module _ (lib : JsonLibrary) where
  open lib use {Json}

  -- The document in which the fields are put, one after the other.
  unfoldable pub put_each : Fields Text → Json → Json
  put_each [] j = j
  put_each ((k, v) ∷ fields) j = put_each fields (lib.put j k (lib.text v))

  pub is_object-put_each :
      (fields : Fields Text) (j : Json)
      → lib.is_object j ≡ true
      → lib.is_object (put_each fields j) ≡ true
  unfolding put_each
  is_object-put_each [] j h = h
  is_object-put_each ((k, v) ∷ fields) j h =
      is_object-put_each fields (lib.put j k (lib.text v)) (lib.is_object-put j k (lib.text v) h)

  pub assign_each-put_each :
      (fields : Fields Text) (j : Json)
      → lib.is_object j ≡ true
      → assign_each lib fields j ≡ some (ok tt, put_each fields j)
  unfolding assign_each assign put_each
  assign_each-put_each [] j h = refl
  assign_each-put_each ((k, v) ∷ fields) j h = rw h (
      assign_each-put_each fields (lib.put j k (lib.text v)) (lib.is_object-put j k (lib.text v) h))

  abbrev pub text_of : Option Text → Option Json
  text_of none = none
  text_of (some t) = some (lib.text t)

  pub at-put_each :
      (fields : Fields Text) (j : Json) (key : Text)
      → lib.is_object j ≡ true
      → IsDistinct fields
      → lib.at (put_each fields j) key ≡ or_else (text_of (lookup key fields)) (lib.at j key)
  unfolding put_each lookup
  at-put_each [] j key h d = refl
  at-put_each ((k, v) ∷ fields) j key h d =
      let next = lib.put j k (lib.text v) in
      let rest = at-put_each fields next key (lib.is_object-put j k (lib.text v) h) d.1 in
      elim (Bool-cases (text_eq k key)) [
        | inl same ↦
            let e : k ≡ key = (text_eq_iff k key).0 same in
            let unseen : lookup key fields ≡ none = subst (λ t. lookup t fields ≡ none) e d.0 in
            let put_here : lib.at next key ≡ some (lib.text v) =
              subst (λ t. lib.at next t ≡ some (lib.text v)) e (lib.at-put j k (lib.text v) h) in
            rest ∙ rw (unseen, put_here, same) refl
        | inr other ↦
            let kept : lib.at next key ≡ lib.at j key =
              lib.at-put_ne j k key (lib.text v) h (λ e. cc ((text_eq_iff k key).1 e, other)) in
            rest ∙ rw (kept, other) refl
      ]
