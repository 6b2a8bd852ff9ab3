-- ===== src/Db/Desktop/RoundTrip.antt =====
-- What serialize writes of a desktop entry, deserialize reads.
use flatimage.Base.{◌≡◌, refl, ap, ◌∙◌, some, Value, ok, err, List, [], ◌∷◌, map}
use flatimage.Base.Run
use flatimage.Base.Run.{resume}
use flatimage.Base.Sets.{insert_all, IsIncreasing, insert_all-append}
use flatimage.Json.{JsonLibrary}
use flatimage.Text.{Text, codes, text_eq, less}
use flatimage.Text.Laws.{less_asymmetric}
use flatimage.Parser.Args.{insert_each}
use flatimage.Parser.Filled.{Ascending, insert_each-map}
use flatimage.Parser.Desktop.{IntegrationItem, item_entries, ordinal}
use flatimage.Parser.Words.{item_name}
use flatimage.Parser.RoundTrip.OfLists.{item_named}
use flatimage.Db.{with_db, dump}
use flatimage.Db.Laws.{
  Fields, lookup, built, assign-built, text_at-built, texts_at-built, entry-built, entry_missing,
  value_text-text, value_text-null, value_texts-texts, parsed-dump,
}
use flatimage.Db.Desktop.{Desktop, parse_desktop, deserialize, serialize, assign_icon}

-- The sets are sets.
pub record IsDesktop (d : Desktop) : Type 0 where
  pub items_ascend : Ascending ordinal 0 d.integrations
  pub categories_increase : IsIncreasing less d.categories

-- An icon that is missing comes back as the error of the JSON element.
unfoldable pub read_back : Desktop → Desktop
read_back d = record {
  name = d.name;
  path_file_icon = icon_back d.path_file_icon;
  integrations = d.integrations;
  categories = d.categories;
}
  where
    icon_back : Value Text → Value Text
    icon_back (ok path) = ok path
    icon_back (err e) = err "Json element is not a string"

module _ (lib : JsonLibrary) where
  abbrev first_fields : Desktop → Fields (lib.Json)
  first_fields d =
      (codes "integrations", lib.texts (map item_name d.integrations))
      ∷ (codes "name", lib.text d.name)
      ∷ []

  abbrev with_icon : Value Text → Fields (lib.Json) → Fields (lib.Json)
  with_icon (err e) fields = fields
  with_icon (ok path) fields = (codes "icon", lib.text path) ∷ fields

  abbrev pub fields_of : Desktop → Fields (lib.Json)
  fields_of d =
      (codes "categories", lib.texts d.categories) ∷ with_icon d.path_file_icon (first_fields d)

  assign_icon-built :
      (icon : Value Text) (fields : Fields (lib.Json))
      → assign_icon lib icon (built lib fields) ≡ some (ok tt, built lib (with_icon icon fields))
  unfolding assign_icon
  assign_icon-built (err e) fields = refl
  assign_icon-built (ok path) fields = assign-built lib fields (codes "icon") (lib.text path)

  pub serialize-built : (d : Desktop) → serialize lib d ≡ some (lib.dump (built lib (fields_of d)))
  unfolding serialize built with_db dump
  serialize-built d =
      rw
        (
          assign-built lib [] (codes "name") (lib.text d.name),
          assign-built lib ((codes "name", lib.text d.name) ∷ []) (codes "integrations")
              (lib.texts (map item_name d.integrations)),
          assign_icon-built d.path_file_icon (first_fields d),
          assign-built lib (with_icon d.path_file_icon (first_fields d)) (codes "categories")
              (lib.texts d.categories),
        )
        refl

  items_back :
      (d : Desktop)
      → IsDesktop d
      → insert_each ordinal item_entries "Could not determine enum entry" []
          (map item_name d.integrations)
        ≡ ok d.integrations
  items_back d h =
      insert_each-map ordinal item_entries item_name "Could not determine enum entry" item_named 0
        [] d.integrations tt h.items_ascend

  categories_back : (d : Desktop) → IsDesktop d → insert_all less [] d.categories ≡ d.categories
  categories_back d h = insert_all-append less less_asymmetric [] d.categories h.categories_increase

  abbrev of_parts : Text → List IntegrationItem → List Text → Value Text → Desktop
  of_parts name items categories icon = record {
    name = name;
    path_file_icon = icon;
    integrations = items;
    categories = categories;
  }

  parse_built :
      (name : Text) (items : List IntegrationItem) (categories : List Text) (icon : Value Text)
      → IsDesktop (of_parts name items categories icon)
      → Run.outcome
          (parse_desktop lib (built lib (fields_of (of_parts name items categories icon))))
        ≡ some (ok (read_back (of_parts name items categories icon)))
  unfolding parse_desktop read_back lookup text_eq
  parse_built name items categories (ok path) h =
      let d = of_parts name items categories (ok path) in
      let fields = fields_of d in
      rw
        (
          text_at-built lib fields (codes "name") name refl,
          entry-built lib fields (codes "icon") (lib.text path) refl,
          entry-built lib fields (codes "integrations") (lib.texts (map item_name items)) refl,
          value_texts-texts lib (map item_name items),
          items_back d h,
          texts_at-built lib fields (codes "categories") categories refl,
          value_text-text lib path,
          categories_back d h,
        )
        refl
  parse_built name items categories (err m) h =
      let d = of_parts name items categories (err m) in
      let fields = (codes "icon", lib.null) ∷ fields_of d in
      rw
        (
          text_at-built lib (fields_of d) (codes "name") name refl,
          entry_missing lib (fields_of d) (codes "icon") refl,
          entry-built lib fields (codes "integrations") (lib.texts (map item_name items)) refl,
          value_texts-texts lib (map item_name items),
          items_back d h,
          texts_at-built lib fields (codes "categories") categories refl,
          value_text-null lib,
          categories_back d h,
        )
        refl

  -- Where the document of a desktop entry whose sets are in order is dumped, serialize returns this
  -- text, and deserialize reads the same entry from it. An icon that is missing stays missing.
  pub deserialize-serialize :
      (d : Desktop) (t : Text)
      → IsDesktop d
      → lib.dump (built lib (fields_of d)) ≡ ok t
      → (serialize lib d ≡ some (ok t)) × (deserialize lib t ≡ some (ok (read_back d)))
  unfolding deserialize
  deserialize-serialize d t h dumped = (
    serialize-built d ∙ ap some dumped,
    parsed-dump lib (parse_desktop lib) (built lib (fields_of d)) t dumped
        ∙ parse_built d.name d.integrations d.categories d.path_file_icon h,
  )
