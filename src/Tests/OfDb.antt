-- ===== src/Tests/OfDb.antt =====
-- The theorems about the databases at short documents.
use flatimage.Base.{any, if◌then◌else◌, ◌≡◌, refl, some, none, Value, ok, err, List, [], ◌∷◌, arith}
use flatimage.Bytes.{Bytes}
use flatimage.Text.{Text, codes, text_eq, less}
use flatimage.Db
use flatimage.Db.Env.Del as OfDel
use flatimage.Db.Desktop.RoundTrip as OfDesktop
use flatimage.Reserved.{environment, remote}
use flatimage.Reserved.Layout.{IsImage}
use flatimage.Db.Laws.{built}
use flatimage.Db.Desktop.{Desktop}
use flatimage.Db.Desktop.RoundTrip.{IsDesktop}
use flatimage.Db.Recipe
use flatimage.Db.Recipe.{Recipe}
use flatimage.Db.Recipe.RoundTrip as OfRecipe
use flatimage.Db.Portal.Daemon as OfDaemon
use flatimage.Db.Portal.{guest}
use flatimage.Db.Remote
use flatimage.Db.Remote.Laws as OfRemote
use flatimage.Db.Stored.{Fits, IsStored}
use flatimage.Db.Env
use flatimage.Db.Env.Laws as OfEnv
use flatimage.Db.Env.Get as OfGet
use flatimage.Parser.Desktop.{entry_item, icon_item}
use flatimage.Tests.Image.{empty_image, empty_image-IsImage}
use flatimage.Tests.Documents.{documents}
use flatimage.Tests.Library.Objects.{remove}
use flatimage.Tests.Library.Codec.{print}

abbrev keep : Text → Value Text
keep v = ok v

abbrev two_entries : List Text
two_entries = codes "A=1" ∷ codes "A=2" ∷ codes "B=" ∷ []

empty-Fits : Fits documents environment (documents.object)
unfolding print
empty-Fits = record { text = print (documents.object) []; dumped = refl; short = omega arith }

-- An image whose environment is the empty document.
emptied :
    OfEnv.Leaves documents 0
      (documents.object)
      (Env.save documents 0 (documents.object) (some empty_image))
emptied =
    OfEnv.save-Leaves documents 0 (documents.object) empty_image empty-Fits empty_image-IsImage

refused_entry : Env.validate (codes "A" ∷ []) ≡ err "Variable assignment '{}' is invalid"
unfolding Env.validate
refused_entry = refl

set_invalid_example :
    (g : Bytes) × (Env.set documents 0 (codes "A" ∷ []) (some empty_image)
      ≡ some (err "Variable assignment '{}' is invalid", some g))
    × IsImage 0 g
    × IsStored documents environment 0 (documents.object) g
set_invalid_example =
    OfEnv.set_invalid documents 0 (codes "A" ∷ []) empty_image "Variable assignment '{}' is invalid"
      empty_image-IsImage refused_entry empty-Fits

entries_erased :
    Fits documents environment (Env.erase_each documents two_entries (documents.object))
unfolding print Env.erase_each Db.erase remove
entries_erased = record { text = print (documents.object) []; dumped = refl; short = omega arith }

del_lem_example :
    OfEnv.Leaves documents 0
      (Env.erase_each documents two_entries (documents.object))
      (Env.del documents 0 two_entries (some emptied.0))
    × ((key : Text)
        → documents.at (Env.erase_each documents two_entries (documents.object)) key ≡ (
            if any (λ k. text_eq k key) two_entries
            then none
            else documents.at (documents.object) key))
del_lem_example =
    OfDel.del_lem documents 0 two_entries (documents.object) emptied.0 emptied.2 emptied.3 refl
      entries_erased

abbrev editor : Desktop
editor = record {
  name = codes "editor";
  path_file_icon = err "m_path_file_icon is undefined";
  integrations = entry_item ∷ icon_item ∷ [];
  categories = codes "Office" ∷ codes "Utility" ∷ [];
}

editor-IsDesktop : IsDesktop editor
unfolding less
editor-IsDesktop = record {
  items_ascend = (omega arith, (omega arith, tt));
  categories_increase = ((refl, tt), (tt, tt));
}

abbrev editor_recipe : Recipe
editor_recipe = record {
  description = codes "An editor";
  packages = codes "editor" ∷ [];
  dependencies = [];
  desktop = ok editor;
}

recipe_example :
    (Recipe.serialize documents editor_recipe
      ≡ some (ok (print (built documents (OfRecipe.fields_of documents editor_recipe)) [])))
    × (Recipe.deserialize documents
          (print (built documents (OfRecipe.fields_of documents editor_recipe)) [])
        ≡ some (
            ok record {
              description = codes "An editor";
              packages = codes "editor" ∷ [];
              dependencies = [];
              desktop = OfRecipe.desktop_back documents (ok editor);
            }))
recipe_example =
    OfRecipe.deserialize-serialize documents editor_recipe
      (print (built documents (OfRecipe.fields_of documents editor_recipe)) [])
      (editor-IsDesktop, (print (built documents (OfDesktop.fields_of documents editor)) [], refl))
      refl

abbrev guest_daemon : OfDaemon.Daemon
guest_daemon = record {
  mode = guest;
  pid_reference = 4711;
  path_bin_daemon = codes "/bin/portal";
  path_fifo_listen = codes "/tmp/daemon/guest.fifo";
}

daemon_example :
    (OfDaemon.serialize documents guest_daemon
      ≡ some (ok (print (built documents (OfDaemon.fields_of documents guest_daemon)) [])))
    × (OfDaemon.deserialize documents
          (print (built documents (OfDaemon.fields_of documents guest_daemon)) [])
        ≡ some (ok guest_daemon))
daemon_example =
    OfDaemon.deserialize-serialize_daemon documents guest_daemon
      (print (built documents (OfDaemon.fields_of documents guest_daemon)) []) (omega arith) refl

abbrev url : Text
url = codes "https://example.org"

url-Fits : Fits documents remote (OfRemote.document documents url)
unfolding print built
url-Fits = record {
  text = print (OfRemote.document documents url) [];
  dumped = refl;
  short = omega arith;
}

get-set_url_example :
    (g : Bytes) × (Remote.set documents 0 url (some empty_image) ≡ some (ok tt, some g))
    × IsImage 0 g
    × (Remote.get documents 0 (some g) ≡ some (ok url, some g))
get-set_url_example = OfRemote.get-set_url documents 0 url empty_image empty_image-IsImage url-Fits
