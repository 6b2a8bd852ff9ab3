-- ===== src/Bindings/Database/RoundTrip.antt =====
-- The bindings that are written are the bindings that are read, as far as their words tell the types.
use flatimage.Base.{
  ℕ, suc, ◌+◌, ◌^◌, ◌≤◌, ◌<◌, ◌≡◌, refl, ap, sym, ◌∙◌, Bool-cases, ◌⊎◌, inl, inr, some, ok, List,
  [], ◌∷◌, ◌++◌, subst, length-append, length, arith, Each,
}
use mathlib.Core.List.{Mem, Mem-prop, mem-cons, mem-cons_self, mem-cons_of_mem, not-mem-nil}
use mathlib.Core.Logic.Or
use mathlib.Core.Option.{some-injective, none-ne-some}
use flatimage.Json.{JsonLibrary}
use flatimage.Text.{Text, codes, text_eq}
use flatimage.Text.Laws.{text_eq_iff}
use flatimage.Text.Numbers.{stoull-to_string}
use flatimage.Db.Laws.{Fields, lookup, built, is_object-built, at-built, text_at-built}
use flatimage.Bindings.{Bind, type_to_word, word_to_type}
use flatimage.Bindings.Numbered.{NumberedFrom, add-NumberedFrom}
use flatimage.Parser.Bind.{BindType}
use flatimage.Bindings.Database.Written.{
  fields_of, key_of, with_fields, entries, IsStoredIn, entries-IsStoredIn, assign_binds-built,
}
use flatimage.Bindings.Database.{
  bind_at, bind_of, collect, deserialize, serialize, or_braces, or_no_binds, db_read, db_write,
  add_bind,
}
use flatimage.Bytes.{Bytes}
use flatimage.Db.{items, with_db, dump}
use flatimage.Db.Laws.{from_string-dump}
use flatimage.Db.Stored.{Fits, text_read-dumped}
use flatimage.Reserved.{bindings}
use flatimage.Reserved.Layout.{IsImage}
use flatimage.Reserved.Text.{bind_write, bind_read}
use native.Mathlib.Bridge.{le_prop}

module _ (lib : JsonLibrary) where
  open lib use {Json}

  -- A field of the document is one of a binding.
  abbrev IsOf : List Bind → Text × Json → Type 0
  IsOf bs field =
      (b : Bind) × Mem b bs × (field.0 ≡ key_of lib b) × (field.1 ≡ built lib (fields_of lib b))

  abbrev pub as_read : Bind → Bind
  as_read b = record {
    index = b.index;
    path_src = b.path_src;
    path_dst = b.path_dst;
    type = word_to_type (type_to_word b.type);
  }

  bind_of-fields :
      (b : Bind)
      → b.index < 2 ^ 64
      → bind_of lib (key_of lib b) (built lib (fields_of lib b))
        ≡ some (ok (some (as_read b)), built lib (fields_of lib b))
  unfolding bind_of bind_at lookup text_eq
  bind_of-fields b small =
      let text = text_at-built lib (fields_of lib b) in
      rw
        (
          text (codes "type") (type_to_word b.type) refl,
          stoull-to_string b.index small,
          text (codes "src") b.path_src refl,
          text (codes "dst") b.path_dst refl,
        )
        refl

  -- What is found under a key is from a binding, or was there before.
  lookup-entries :
      (bs : List Bind) (fields : Fields Json) (key : Text) (v : Json)
      → lookup key (entries lib bs fields) ≡ some v
      → IsOf bs (key, v) ⊎ (lookup key fields ≡ some v)
  unfolding entries lookup
  lookup-entries [] fields key v h = inr h
  lookup-entries (b ∷ bs) fields key v h =
      elim (lookup-entries bs (with_fields lib b fields) key v h) [
        | inl (c, m, same, doc) ↦ inl (c, mem-cons_of_mem b m, same, doc)
        | inr here ↦ elim (Bool-cases (text_eq (key_of lib b) key)) [
          | inl same ↦
              let found : some (built lib (fields_of lib b)) ≡ some v = rw same at here in
              inl (
                b,
                mem-cons_self,
                sym ((text_eq_iff (key_of lib b) key).0 same),
                sym (some-injective (built lib (fields_of lib b)) v found),
              )
          | inr other ↦ inr (rw other at here)
        ]
      ]

  items-IsOf :
      (bs : List Bind) (fields : List (Text × Json))
      → Each (λ field. lookup field.0 (entries lib bs []) ≡ some field.1) fields
      → Each (IsOf bs) fields
  unfolding lookup
  items-IsOf bs [] h = tt
  items-IsOf bs ((key, v) ∷ fields) (here, rest) = (
    (elim (lookup-entries bs [] key v here) [
      | inl of ↦ of
      | inr nowhere ↦ absurd (none-ne-some v nowhere)
    ]),
    items-IsOf bs fields rest,
  )

  -- Each binding that is read is one that was written.
  abbrev pub IsRead : List Bind → Bind → Type 0
  IsRead bs r = (b : Bind) × Mem b bs × (r ≡ as_read b)

  abbrev IsCollected : List (Text × Json) → List Bind → Bind → Type 0
  IsCollected fields rs b =
      Mem (key_of lib b, built lib (fields_of lib b)) fields → Mem (as_read b) rs

  collect-IsOf :
      (bs : List Bind) (fields : List (Text × Json))
      → ((b : Bind) → Mem b bs → b.index < 2 ^ 64)
      → Each (IsOf bs) fields
      → (rs : List Bind) × (collect lib fields ≡ some (ok rs))
        × Each (IsRead bs) rs
        × ((b : Bind) → b.index < 2 ^ 64 → IsCollected fields rs b)
  unfolding collect
  collect-IsOf bs [] small h = ([], refl, tt, λ b lt m. absurd (not-mem-nil m))
  collect-IsOf bs ((key, v) ∷ fields) small ((c, m, same, doc), rest) =
      let (rs, collected, read, back) = collect-IsOf bs fields small rest in
      let here : bind_of lib key v ≡ some (ok (some (as_read c)), v) =
        rw (same, doc) (bind_of-fields c (small c m)) in
      (
        as_read c ∷ rs,
        rw (here, collected) refl,
        ((c, m, refl), read),
        λ b lt at.
            Or.elim Mem-prop (mem-cons.0 at)
              (λ e.
                let same' : key_of lib b ≡ key = ap (λ f. f.0) e in
                let doc' : built lib (fields_of lib b) ≡ v = ap (λ f. f.1) e in
                let there : bind_of lib key v ≡ some (ok (some (as_read b)), v) =
                  rw (← same', ← doc') (bind_of-fields b lt) in
                let agree : as_read b ≡ as_read c = cc (there, here) in rw agree mem-cons_self)
              (λ further. mem-cons_of_mem (as_read c) (back b lt further)),
      )

  NumberedFrom-small :
      (n : ℕ) (bs : List Bind)
      → NumberedFrom n bs
      → n + length bs ≤ 2 ^ 64
      → (b : Bind) → Mem b bs
      → b.index < 2 ^ 64
  NumberedFrom-small n [] numbered few b m = absurd (not-mem-nil m)
  NumberedFrom-small n (c ∷ bs) (e, numbered) few b m =
      Or.elim le_prop (mem-cons.0 m) (λ same. rw same (omega (arith, e)))
        (NumberedFrom-small (suc n) bs numbered (omega arith) b)

  stored-Mem :
      (all bs rs : List Bind)
      → ((b : Bind) → Mem b bs → b.index < 2 ^ 64)
      → Each (IsStoredIn lib (entries lib all [])) bs
      → ((b : Bind)
          → b.index < 2 ^ 64
          → IsCollected (lib.items (built lib (entries lib all []))) rs b)
      → Each (λ b. Mem (as_read b) rs) bs
  stored-Mem all [] rs small stored back = tt
  stored-Mem all (b ∷ bs) rs small (here, stored) back =
      let j = built lib (entries lib all []) in
      (
        back b (small b mem-cons_self) (
            lib.mem-items j (key_of lib b) (built lib (fields_of lib b))
              (is_object-built lib (entries lib all []))
              (at-built lib (entries lib all []) (key_of lib b) ∙ here)),
        stored-Mem all bs rs (λ c m. small c (mem-cons_of_mem b m)) stored back,
      )

  abbrev pub added : List Bind → BindType → Text → Text → Bind
  added bs bind_type src dst = record {
    index = length bs;
    path_src = src;
    path_dst = dst;
    type = bind_type;
  }

  -- The document of the bindings.
  abbrev pub document : List Bind → Json
  document bs = built lib (entries lib bs [])

  items-lookup :
      (fields : Fields Json) (found : List (Text × Json))
      → Each (λ field. lib.at (built lib fields) field.0 ≡ some field.1) found
      → Each (λ field. lookup field.0 fields ≡ some field.1) found
  items-lookup fields [] h = tt
  items-lookup fields ((key, v) ∷ found) (here, rest) =
      (sym (at-built lib fields key) ∙ here, items-lookup fields found rest)

  deserialize-document :
      (bs : List Bind) (t : Text)
      → NumberedFrom 0 bs
      → length bs ≤ 2 ^ 64
      → lib.dump (document bs) ≡ ok t
      → (rs : List Bind) × (deserialize lib t ≡ some (ok rs))
        × Each (IsRead bs) rs
        × Each (λ b. Mem (as_read b) rs) bs
  unfolding deserialize items
  deserialize-document bs t numbered few dumped =
      let j = document bs in
      let is_object = is_object-built lib (entries lib bs []) in
      let small = NumberedFrom-small 0 bs numbered (omega arith) in
      let (rs, collected, read, back) = collect-IsOf bs (lib.items j) small (
        items-IsOf bs (lib.items j)
          (items-lookup (entries lib bs []) (lib.items j) (lib.items-at j is_object))) in
      (
        rs,
        rw (from_string-dump lib j t dumped, is_object) collected,
        read,
        stored-Mem bs bs rs small (entries-IsStoredIn lib 0 bs [] numbered (omega arith)) back,
      )

  or_braces-dump : (j : Json) (t : Text) → lib.dump j ≡ ok t → or_braces lib t ≡ t
  unfolding or_braces
  or_braces-dump j [] h = let l = lib.length-dump j [] h in elim l [ ]
  or_braces-dump j (c ∷ s) h = refl

  -- On an image, for bindings that are numbered from 0 and whose document fits the region, db_write
  -- succeeds, and db_read returns bindings then of which each is one that was written, and which have
  -- each that was written, with the types as their words are read.
  pub db_read-db_write :
      (base : ℕ) (bs : List Bind) (f : Bytes)
      → IsImage base f
      → NumberedFrom 0 bs
      → length bs ≤ 2 ^ 64
      → Fits lib bindings (document bs)
      → (g : Bytes) × (db_write lib base bs (some f) ≡ some (ok tt, some g))
        × IsImage base g
        × (rs : List Bind) × (db_read lib base (some g) ≡ some (ok rs, some g))
        × Each (IsRead bs) rs
        × Each (λ b. Mem (as_read b) rs) bs
  unfolding db_write db_read serialize with_db dump bind_write bind_read lookup built or_no_binds
  db_read-db_write base bs f image numbered few fits =
      let t = fits.text in
      let (g, written, image', back) =
        text_read-dumped lib bindings "Not enough space to fit json data" base (document bs) f fits
          image in
      let (rs, parsed, read, all) = deserialize-document bs t numbered few fits.dumped in
      (
        g,
        rw
            (
              assign_binds-built lib 0 bs [] numbered (omega arith) (λ i le lt. refl),
              fits.dumped,
              written,
            )
            refl,
        image',
        rs,
        rw (back, or_braces-dump (document bs) t fits.dumped, parsed) refl,
        read,
        all,
      )

  -- On an image from which db_read returns bindings that are numbered from 0, fewer than 2^64, where
  -- the document of these and the new one fits the region, add succeeds, and db_read returns bindings
  -- then of which each is one of these or the new one, and which have all of them, where the new one
  -- has the number of these for its index, and the types are as their words are read.
  pub db_read-add_bind :
      (base : ℕ) (bs : List Bind) (type : BindType) (src dst : Text) (f : Bytes)
      → IsImage base f
      → db_read lib base (some f) ≡ some (ok bs, some f)
      → NumberedFrom 0 bs
      → length bs < 2 ^ 64
      → Fits lib bindings (document (bs ++ added bs type src dst ∷ []))
      → (g : Bytes) × (add_bind lib base type src dst (some f) ≡ some (ok tt, some g))
        × IsImage base g
        × (rs : List Bind) × (db_read lib base (some g) ≡ some (ok rs, some g))
        × Each (IsRead (bs ++ added bs type src dst ∷ [])) rs
        × Each (λ b. Mem (as_read b) rs) (bs ++ added bs type src dst ∷ [])
  unfolding add_bind
  db_read-add_bind base bs type src dst f image there numbered few fits =
      let (appended, numbered') = add-NumberedFrom bs type src dst numbered few in
      let all = bs ++ added bs type src dst ∷ [] in
      let counted : length all ≡ length bs + 1 = length-append bs (added bs type src dst ∷ []) in
      let (g, written, image', rs, read, each, have) =
        db_read-db_write base all f image (subst (NumberedFrom 0) appended numbered')
          (omega (arith, counted)) fits in
      (g, rw (there, appended) written, image', rs, read, each, have)
