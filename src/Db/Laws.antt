-- ===== src/Db/Laws.antt =====
-- The operations of Db on an object that was built from the empty one, key by key.
use flatimage.Base.{
  ◌≡◌, refl, ap, sym, ◌∙◌, true, Bool-cases, inl, inr, if◌then◌else◌, Option, none, some, ok, err,
  List, [], ◌∷◌, map,
}
use flatimage.Base.Run
use flatimage.Base.Run.{Run}
use flatimage.Json.{JsonLibrary}
use flatimage.Text.{Text, text_eq}
use flatimage.Text.Laws.{text_eq_iff}
use flatimage.Db.{
  empty, indexed, entry, assign, value_text, value_texts, all_texts, text_at, texts_at, from_string,
  with_db, parsed,
}

abbrev pub Fields {ℓ} : Type ℓ → Type ℓ
Fields A = List (Text × A)

-- The field that was added last is the first.
unfoldable pub lookup {ℓ} : {A : Type ℓ} → Text → Fields A → Option A
lookup key [] = none
lookup key ((k, v) ∷ fields) =
    let rest = lookup key fields in if text_eq k key then some v else rest

module _ (lib : JsonLibrary) where
  open lib use {Json}

  unfoldable pub built : Fields Json → Json
  built [] = lib.object
  built ((k, v) ∷ fields) = lib.put (built fields) k v

  pub is_object-built : (fields : Fields Json) → lib.is_object (built fields) ≡ true
  unfolding built
  is_object-built [] = lib.is_object-object
  is_object-built ((k, v) ∷ fields) = lib.is_object-put (built fields) k v (is_object-built fields)

  -- A key in the document is the field that was added last under it.
  pub at-built : (fields : Fields Json) (key : Text) → lib.at (built fields) key ≡ lookup key fields
  unfolding built lookup
  at-built [] key = lib.at-object key
  at-built ((k, v) ∷ fields) key = elim (Bool-cases (text_eq k key)) [
    | inl same ↦ rw same (
        ap (lib.at (lib.put (built fields) k v)) (sym ((text_eq_iff k key).0 same))
        ∙ lib.at-put (built fields) k v (is_object-built fields))
    | inr other ↦ rw other (
        lib.at-put_ne (built fields) k key v (is_object-built fields)
          (λ e. cc ((text_eq_iff k key).1 e, other))
        ∙ at-built fields key)
  ]

  pub assign-built :
      (fields : Fields Json) (key : Text) (v : Json)
      → assign lib key v (built fields) ≡ some (ok tt, built ((key, v) ∷ fields))
  unfolding assign built
  assign-built fields key v = rw (is_object-built fields) refl

  pub assign-object :
      (key : Text) (v : Json) → assign lib key v lib.object ≡ some (ok tt, built ((key, v) ∷ []))
  unfolding built
  assign-object key v = assign-built [] key v

  pub entry-built :
      (fields : Fields Json) (key : Text) (v : Json)
      → lookup key fields ≡ some v
      → entry lib key (built fields) ≡ some (ok v, built fields)
  unfolding entry indexed
  entry-built fields key v h = rw (is_object-built fields, indexed, at-built fields key, h) refl

  pub entry_missing :
      (fields : Fields Json) (key : Text)
      → lookup key fields ≡ none
      → entry lib key (built fields) ≡ some (ok lib.null, built ((key, lib.null) ∷ fields))
  unfolding entry indexed built
  entry_missing fields key h =
      rw (is_object-built fields, indexed, at-built fields key, h, is_object-built fields) refl

  pub value_text-text : (t : Text) → value_text lib (lib.text t) ≡ ok t
  unfolding value_text
  value_text-text t = rw (value_text, lib.text_of-text t) refl

  pub value_text-null : value_text lib lib.null ≡ err "Json element is not a string"
  unfolding value_text
  value_text-null = rw (value_text, lib.text_of-null) refl

  pub value_texts-null : value_texts lib lib.null ≡ err "Tried to create array with non-array entry"
  unfolding value_texts
  value_texts-null = rw (value_texts, lib.elements_of-null) refl

  all_texts-map : (ts : List Text) → all_texts lib (map lib.text ts) ≡ ok ts
  all_texts-map [] = refl
  all_texts-map (t ∷ ts) = rw (lib.text_of-text t, all_texts-map ts) refl

  pub value_texts-texts : (ts : List Text) → value_texts lib (lib.texts ts) ≡ ok ts
  unfolding value_texts
  value_texts-texts ts = rw (value_texts, lib.elements_of-texts ts) (all_texts-map ts)

  pub text_at-built :
      (fields : Fields Json) (key t : Text)
      → lookup key fields ≡ some (lib.text t)
      → text_at lib key (built fields) ≡ some (ok t, built fields)
  unfolding text_at
  text_at-built fields key t h = rw (entry-built fields key (lib.text t) h, value_text-text t) refl

  pub texts_at-built :
      (fields : Fields Json) (key : Text) (ts : List Text)
      → lookup key fields ≡ some (lib.texts ts)
      → texts_at lib key (built fields) ≡ some (ok ts, built fields)
  unfolding texts_at
  texts_at-built fields key ts h =
      rw (entry-built fields key (lib.texts ts) h, value_texts-texts ts) refl

  -- What was dumped is read back.
  pub from_string-dump : (j : Json) (t : Text) → lib.dump j ≡ ok t → from_string lib t ≡ ok j
  unfolding from_string
  from_string-dump j [] h = let l = lib.length-dump j [] h in elim l [ ]
  from_string-dump j (c ∷ s) h = rw (lib.parse-dump j (c ∷ s) h) refl

  pub parsed-dump {ℓ} :
      {A : Type ℓ} (steps : Run Json A) (j : Json) (t : Text)
      → lib.dump j ≡ ok t
      → parsed lib steps t ≡ Run.outcome (steps j)
  unfolding parsed with_db
  parsed-dump steps j [] h = let l = lib.length-dump j [] h in elim l [ ]
  parsed-dump steps j (c ∷ s) h = ap (λ v. with_db lib v steps) (from_string-dump j (c ∷ s) h)

  -- null is made an object, whose entry is null.
  pub text_at-null :
      (key : Text)
      → text_at lib key lib.null
        ≡ some (err "Json element is not a string", lib.put lib.null key lib.null)
  unfolding text_at entry indexed empty
  text_at-null key =
      rw
        (
          lib.is_object-null,
          lib.is_empty-null,
          indexed,
          lib.at-null key,
          lib.is_object-null,
          lib.is_null-null,
          value_text-null,
        )
        refl
