-- ===== src/Bindings/Database/Written.antt =====
-- The document that serialize makes of bindings that are numbered: it has each of them under its key.
use flatimage.Base.{
  ℕ, suc, ◌+◌, ◌^◌, ◌≤◌, ◌<◌, ◌≡◌, refl, ap, sym, ◌∙◌, Bool-cases, inl, inr, false, none, some, ok,
  List, [], ◌∷◌, length, arith, Each,
}
use flatimage.Json.{JsonLibrary}
use flatimage.Text.{Text, codes, text_eq}
use flatimage.Text.Laws.{text_eq_iff, text_eq_refl, text_eq_comm}
use flatimage.Text.Numbers.{stoull, to_string, stoull-to_string}
use flatimage.Db.{assign_in, assign_at, assign, empty}
use flatimage.Db.Laws.{Fields, lookup, built, is_object-built, entry-built, entry_missing}
use flatimage.Bindings.{Bind, type_to_word}
use flatimage.Bindings.Numbered.{NumberedFrom}
use flatimage.Bindings.Database.{assign_bind, assign_binds}

module _ (lib : JsonLibrary) where
  open lib use {Json}

  -- What is put under the key of a binding, one field after the other.
  abbrev pub src_of : Bind → Fields Json
  src_of b = (codes "src", lib.text b.path_src) ∷ []

  abbrev pub dst_of : Bind → Fields Json
  dst_of b = (codes "dst", lib.text b.path_dst) ∷ src_of b

  abbrev pub fields_of : Bind → Fields Json
  fields_of b = (codes "type", lib.text (type_to_word b.type)) ∷ dst_of b

  abbrev pub key_of : Bind → Text
  key_of b = to_string b.index

  abbrev pub with_fields : Bind → Fields Json → Fields Json
  with_fields b fields =
      (key_of b, built lib (fields_of b))
      ∷ (key_of b, built lib (dst_of b))
      ∷ (key_of b, built lib (src_of b))
      ∷ (key_of b, lib.null)
      ∷ fields

  unfoldable pub entries : List Bind → Fields Json → Fields Json
  entries [] fields = fields
  entries (b ∷ bs) fields = entries bs (with_fields b fields)

  assign_in_new :
      (key sub : Text) (value : Json) (fields : Fields Json)
      → lookup key fields ≡ none
      → assign_in lib key sub value (built lib fields)
        ≡ some (ok tt, built lib ((key, built lib ((sub, value) ∷ [])) ∷ (key, lib.null) ∷ fields))
  unfolding assign_in assign_at assign built empty
  assign_in_new key sub value fields new =
      rw
        (
          is_object-built lib fields,
          entry_missing lib fields key new,
          lib.is_object-null,
          lib.is_empty-null,
          lib.is_null-null,
          lib.put-null sub value,
        )
        refl

  assign_in_there :
      (key sub : Text) (value : Json) (inner fields : Fields Json)
      → lookup key fields ≡ some (built lib inner)
      → assign_in lib key sub value (built lib fields)
        ≡ some (ok tt, built lib ((key, built lib ((sub, value) ∷ inner)) ∷ fields))
  unfolding assign_in assign_at assign built
  assign_in_there key sub value inner fields there =
      rw
        (
          is_object-built lib fields,
          entry-built lib fields key (built lib inner) there,
          is_object-built lib inner,
        )
        refl

  lookup_here :
      (key : Text) (v : Json) (fields : Fields Json) → lookup key ((key, v) ∷ fields) ≡ some v
  unfolding lookup
  lookup_here key v fields = rw (text_eq_refl key) refl

  assign_bind-built :
      (b : Bind) (fields : Fields Json)
      → lookup (key_of b) fields ≡ none
      → assign_bind lib b (built lib fields) ≡ some (ok tt, built lib (with_fields b fields))
  unfolding assign_bind
  assign_bind-built b fields new =
      let k = key_of b in
      let f1 : Fields Json = (k, built lib (src_of b)) ∷ (k, lib.null) ∷ fields in
      let f2 : Fields Json = (k, built lib (dst_of b)) ∷ f1 in
      rw
        (
          assign_in_new k (codes "src") (lib.text b.path_src) fields new,
          assign_in_there k (codes "dst") (lib.text b.path_dst) (src_of b) f1
              (lookup_here k (built lib (src_of b)) ((k, lib.null) ∷ fields)),
          assign_in_there k (codes "type") (lib.text (type_to_word b.type)) (dst_of b) f2
              (lookup_here k (built lib (dst_of b)) f1),
        )
        refl

  -- No key is that of a binding with this index or a later one.
  abbrev pub IsBelow : ℕ → Fields Json → Type 0
  IsBelow n fields = (i : ℕ) → n ≤ i → i < 2 ^ 64 → lookup (to_string i) fields ≡ none

  to_string-ne :
      (i j : ℕ) → i < 2 ^ 64 → j < 2 ^ 64 → i < j → text_eq (to_string i) (to_string j) ≡ false
  to_string-ne i j hi hj lt = elim (Bool-cases (text_eq (to_string i) (to_string j))) [
    | inl same ↦
        let e = ap stoull ((text_eq_iff (to_string i) (to_string j)).0 same) in
        let e' : some i ≡ some j = sym (stoull-to_string i hi) ∙ e ∙ stoull-to_string j hj in
        absurd (let e'' : i ≡ j = cc in omega (arith, e''))
    | inr other ↦ other
  ]

  to_string-gt : (i j : ℕ) → i < j → j < 2 ^ 64 → text_eq (to_string j) (to_string i) ≡ false
  to_string-gt i j lt hj =
      text_eq_comm (to_string j) (to_string i) ∙ to_string-ne i j (omega arith) hj lt

  with_fields-IsBelow :
      (n : ℕ) (b : Bind) (fields : Fields Json)
      → b.index ≡ n
      → n < 2 ^ 64
      → IsBelow n fields
      → IsBelow (suc n) (with_fields b fields)
  unfolding lookup
  with_fields-IsBelow n b fields e h below i le lt =
      let ne : text_eq (key_of b) (to_string i) ≡ false =
        to_string-ne b.index i (omega (arith, e)) lt (omega (arith, e)) in
      rw ne (below i (omega arith) lt)

  pub assign_binds-built :
      (n : ℕ) (bs : List Bind) (fields : Fields Json)
      → NumberedFrom n bs
      → n + length bs ≤ 2 ^ 64
      → IsBelow n fields
      → assign_binds lib bs (built lib fields) ≡ some (ok tt, built lib (entries bs fields))
  unfolding assign_binds entries
  assign_binds-built n [] fields numbered few below = refl
  assign_binds-built n (b ∷ bs) fields (e, numbered) few below =
      let new = below b.index (omega (arith, e)) (omega (arith, e)) in
      rw (assign_bind-built b fields new) (
        assign_binds-built (suc n) bs (with_fields b fields) numbered (omega arith)
          (with_fields-IsBelow n b fields e (omega arith) below))

  -- A binding that is written is found under its key.
  lookup-entries_below :
      (i n : ℕ) (bs : List Bind) (fields : Fields Json)
      → NumberedFrom n bs
      → i < n
      → n + length bs ≤ 2 ^ 64
      → lookup (to_string i) (entries bs fields) ≡ lookup (to_string i) fields
  unfolding entries lookup
  lookup-entries_below i n [] fields numbered lt few = refl
  lookup-entries_below i n (b ∷ bs) fields (e, numbered) lt few =
      let ne : text_eq (to_string b.index) (to_string i) ≡ false =
        to_string-gt i b.index (omega (arith, e)) (omega (arith, e)) in
      lookup-entries_below i (suc n) bs (with_fields b fields) numbered (omega arith) (omega arith)
      ∙ rw ne refl

  abbrev pub IsStoredIn : Fields Json → Bind → Type 0
  IsStoredIn fields b = lookup (key_of b) fields ≡ some (built lib (fields_of b))

  pub entries-IsStoredIn :
      (n : ℕ) (bs : List Bind) (fields : Fields Json)
      → NumberedFrom n bs
      → n + length bs ≤ 2 ^ 64
      → Each (IsStoredIn (entries bs fields)) bs
  unfolding entries
  entries-IsStoredIn n [] fields numbered few = tt
  entries-IsStoredIn n (b ∷ bs) fields (e, numbered) few = (
    (lookup-entries_below b.index (suc n) bs (with_fields b fields) numbered (omega (arith, e))
          (omega arith)
        ∙ lookup_here (key_of b) (built lib (fields_of b)) _),
    entries-IsStoredIn (suc n) bs (with_fields b fields) numbered (omega arith),
  )
