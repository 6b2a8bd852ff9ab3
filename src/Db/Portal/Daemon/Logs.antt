-- ===== src/Db/Portal/Daemon/Logs.antt =====
-- src/db/portal/daemon.hpp: the class ns_log::Logs. The directory of the logs is made by the program
-- and is no part of the model.
use flatimage.Base.{◌≡◌, refl, ap, ◌∙◌, Option, some, Value, ok, [], ◌∷◌}
use flatimage.Base.Run.{Run, pure, outcome, ◌>>=◌, ◌>>◌}
use flatimage.Json.{JsonLibrary}
use flatimage.Text.{Text, codes, text_eq}
use flatimage.Text.Paths.{◌/◌}
use flatimage.Db.{with_db, parsed, assign, dump, text_at}
use flatimage.Db.Laws.{
  Fields, lookup, built, assign-object, assign-built, text_at-built, parsed-dump,
}

pub record Logs : Type 0 where
  pub path_dir_log : Text
  pub path_file_parent : Text
  pub path_file_child : Text
  pub path_file_grand : Text

-- The constructor of a path; the daemon fills the placeholders.
unfoldable pub logs : Text → Logs
logs path_dir_log = record {
  path_dir_log = path_dir_log;
  path_file_parent = path_dir_log / codes "daemon.log";
  path_file_child = path_dir_log / codes "{}" / codes "child.log";
  path_file_grand = path_dir_log / codes "{}" / codes "grand.log";
}

module _ (lib : JsonLibrary) where
  -- The body of deserialize, behind its check for an empty text.
  parse_logs : Run (lib.Json) Logs
  parse_logs = do
    path_dir_log ← text_at lib (codes "path_dir_log")
    path_file_parent ← text_at lib (codes "path_file_parent")
    path_file_child ← text_at lib (codes "path_file_child")
    path_file_grand ← text_at lib (codes "path_file_grand")
    pure record {
      path_dir_log = path_dir_log;
      path_file_parent = path_file_parent;
      path_file_child = path_file_child;
      path_file_grand = path_file_grand;
    }

  unfoldable pub deserialize : Text → Option (Value Logs)
  unfolding parse_logs
  deserialize = parsed lib parse_logs

  unfoldable pub serialize : Logs → Option (Value Text)
  serialize l = with_db lib (ok lib.object) (do
    assign lib (codes "path_dir_log") (lib.text l.path_dir_log)
    assign lib (codes "path_file_parent") (lib.text l.path_file_parent)
    assign lib (codes "path_file_child") (lib.text l.path_file_child)
    assign lib (codes "path_file_grand") (lib.text l.path_file_grand)
    dump lib)

  abbrev pub fields_of : Logs → Fields (lib.Json)
  fields_of l =
      (codes "path_file_grand", lib.text l.path_file_grand)
      ∷ (codes "path_file_child", lib.text l.path_file_child)
      ∷ (codes "path_file_parent", lib.text l.path_file_parent)
      ∷ (codes "path_dir_log", lib.text l.path_dir_log)
      ∷ []

  serialize-built : (l : Logs) → serialize l ≡ some (lib.dump (built lib (fields_of l)))
  unfolding serialize with_db dump
  serialize-built l = simp (assign-object lib, assign-built lib)

  parse_built :
      (l : Logs) → parse_logs (built lib (fields_of l)) ≡ some (ok l, built lib (fields_of l))
  unfolding parse_logs lookup text_eq
  parse_built l =
      let text = text_at-built lib (fields_of l) in
      simp (
        text (codes "path_dir_log") l.path_dir_log refl,
        text (codes "path_file_parent") l.path_file_parent refl,
        text (codes "path_file_child") l.path_file_child refl,
        text (codes "path_file_grand") l.path_file_grand refl,
      )

  -- Where the document of the paths of the logs is dumped, serialize returns this text, and
  -- deserialize reads the same paths from it.
  pub deserialize-serialize :
      (l : Logs) (t : Text)
      → lib.dump (built lib (fields_of l)) ≡ ok t
      → (serialize l ≡ some (ok t)) × (deserialize t ≡ some (ok l))
  unfolding deserialize
  deserialize-serialize l t dumped = (
    serialize-built l ∙ ap some dumped,
    parsed-dump lib parse_logs (built lib (fields_of l)) t dumped ∙ ap outcome (parse_built l),
  )
