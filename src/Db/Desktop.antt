-- ===== src/Db/Desktop.antt =====
-- src/db/desktop.hpp: the class Desktop and its document. The sets are lists in their order.
pub mod RoundTrip
use flatimage.Base.{Option, Value, ok, err, value_or, List, [], ◌∷◌, map}
use flatimage.Base.Run
use flatimage.Base.Run.{Run, pure, ◌>>=◌, ◌>>◌}
use flatimage.Base.Sets.{insert_all}
use flatimage.Json.{JsonLibrary}
use flatimage.Text.{Text, codes, less}
use flatimage.Parser.Args.{insert_each}
use flatimage.Parser.Desktop.{IntegrationItem, item_entries, ordinal}
use flatimage.Parser.Words.{item_name}
use flatimage.Db.{with_db, parsed, assign, dump, entry, value_text, value_texts, text_at, texts_at}

pub record Desktop : Type 0 where
  pub name : Text
  pub path_file_icon : Value Text
  pub integrations : List IntegrationItem
  pub categories : List Text

module _ (lib : JsonLibrary) where
  -- The body of deserialize, behind its check for an empty text.
  unfoldable pub parse_desktop : Run (lib.Json) Desktop
  parse_desktop = do
    name ← text_at lib (codes "name")
    icon ← entry lib (codes "icon")
    items ← entry lib (codes "integrations")
    integrations ← Run.lift (
        insert_each ordinal item_entries "Could not determine enum entry" []
          (value_or (value_texts lib items) []))
    categories ← texts_at lib (codes "categories")
    pure record {
      name = name;
      path_file_icon = value_text lib icon;
      integrations = integrations;
      categories = insert_all less [] categories;
    }

  unfoldable pub deserialize : Text → Option (Value Desktop)
  unfolding parse_desktop
  deserialize = parsed lib parse_desktop

  unfoldable pub assign_icon : Value Text → Run (lib.Json) (Unit {0})
  assign_icon (err e) = pure tt
  assign_icon (ok path) = assign lib (codes "icon") (lib.text path)

  unfoldable pub serialize : Desktop → Option (Value Text)
  unfolding assign_icon
  serialize desktop = with_db lib (ok lib.object) (do
    assign lib (codes "name") (lib.text desktop.name)
    assign lib (codes "integrations") (lib.texts (map item_name desktop.integrations))
    assign_icon desktop.path_file_icon
    assign lib (codes "categories") (lib.texts desktop.categories)
    dump lib)
