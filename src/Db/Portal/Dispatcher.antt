-- ===== src/Db/Portal/Dispatcher.antt =====
-- src/db/portal/dispatcher.hpp: the class Dispatcher. The directory of the log is made by the program
-- and is no part of the model.
use flatimage.Base.{ℕ, ◌≡◌, refl, ap, ◌∙◌, Option, some, Value, ok, [], ◌∷◌, ◌++◌}
use flatimage.Base.Run.{Run, pure, outcome, ◌>>=◌, ◌>>◌}
use flatimage.Json.{JsonLibrary}
use flatimage.Text.{Text, codes, text_eq}
use flatimage.Text.Numbers.{int_to_string}
use flatimage.Text.Paths.{placeholders_replace, ◌/◌}
use flatimage.Db.{with_db, parsed, assign, dump, text_at}
use flatimage.Db.Laws.{
  Fields, lookup, built, assign-object, assign-built, text_at-built, parsed-dump,
}
use flatimage.Db.Portal.{Mode, host, mode_lower}

pub record Dispatcher : Type 0 where
  pub mode : Mode
  pub path_dir_fifo : Text
  pub path_fifo_daemon : Text
  pub path_file_log : Text

-- The constructor.
unfoldable pub dispatcher : ℕ → Mode → Text → Text → Dispatcher
dispatcher pid mode path_dir_app path_dir_log =
    let instance_dir = path_dir_app / codes "instance" / codes "{}" / codes "portal" in
    record {
      mode = mode;
      path_dir_fifo =
          placeholders_replace (instance_dir / codes "dispatcher" / codes "fifo")
            (int_to_string pid ∷ []);
      path_fifo_daemon =
          placeholders_replace (instance_dir / codes "daemon" / codes "{}.fifo")
            (int_to_string pid ∷ mode_lower mode ∷ []);
      path_file_log = path_dir_log / mode_lower mode / (int_to_string pid ++ codes ".log");
    }

module _ (lib : JsonLibrary) where
  -- The body of deserialize, behind its check for an empty text: the mode is that of Dispatcher().
  parse_dispatcher : Run (lib.Json) Dispatcher
  parse_dispatcher = do
    path_dir_fifo ← text_at lib (codes "path_dir_fifo")
    path_fifo_daemon ← text_at lib (codes "path_fifo_daemon")
    path_file_log ← text_at lib (codes "path_file_log")
    pure record {
      mode = host;
      path_dir_fifo = path_dir_fifo;
      path_fifo_daemon = path_fifo_daemon;
      path_file_log = path_file_log;
    }

  unfoldable pub deserialize : Text → Option (Value Dispatcher)
  unfolding parse_dispatcher
  deserialize = parsed lib parse_dispatcher

  unfoldable pub serialize : Dispatcher → Option (Value Text)
  serialize d = with_db lib (ok lib.object) (do
    assign lib (codes "path_dir_fifo") (lib.text d.path_dir_fifo)
    assign lib (codes "path_fifo_daemon") (lib.text d.path_fifo_daemon)
    assign lib (codes "path_file_log") (lib.text d.path_file_log)
    dump lib)

  abbrev pub fields_of : Dispatcher → Fields (lib.Json)
  fields_of d =
      (codes "path_file_log", lib.text d.path_file_log)
      ∷ (codes "path_fifo_daemon", lib.text d.path_fifo_daemon)
      ∷ (codes "path_dir_fifo", lib.text d.path_dir_fifo)
      ∷ []

  -- Its mode is not written.
  abbrev pub as_host : Dispatcher → Dispatcher
  as_host d = record {
    mode = host;
    path_dir_fifo = d.path_dir_fifo;
    path_fifo_daemon = d.path_fifo_daemon;
    path_file_log = d.path_file_log;
  }

  serialize-built : (d : Dispatcher) → serialize d ≡ some (lib.dump (built lib (fields_of d)))
  unfolding serialize with_db dump
  serialize-built d = simp (assign-object lib, assign-built lib)

  parse_built :
      (d : Dispatcher)
      → parse_dispatcher (built lib (fields_of d)) ≡ some (ok (as_host d), built lib (fields_of d))
  unfolding parse_dispatcher lookup text_eq
  parse_built d =
      let text = text_at-built lib (fields_of d) in
      simp (
        text (codes "path_dir_fifo") d.path_dir_fifo refl,
        text (codes "path_fifo_daemon") d.path_fifo_daemon refl,
        text (codes "path_file_log") d.path_file_log refl,
      )

  -- Where the document of a dispatcher is dumped, serialize returns this text, and deserialize reads
  -- the paths of the dispatcher from it, with HOST for its mode.
  pub deserialize-serialize :
      (d : Dispatcher) (t : Text)
      → lib.dump (built lib (fields_of d)) ≡ ok t
      → (serialize d ≡ some (ok t)) × (deserialize t ≡ some (ok (as_host d)))
  unfolding deserialize
  deserialize-serialize d t dumped = (
    serialize-built d ∙ ap some dumped,
    parsed-dump lib parse_dispatcher (built lib (fields_of d)) t dumped
        ∙ ap outcome (parse_built d),
  )
