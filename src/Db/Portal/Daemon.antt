-- ===== src/Db/Portal/Daemon.antt =====
-- src/db/portal/daemon.hpp: the class Daemon, and the class Logs of its child module.
pub mod Logs
use flatimage.Base.{
  ℕ, ◌<◌, ◌^◌, ◌≡◌, refl, ap, ◌∙◌, Option, none, some, Value, ok, err, List, [], ◌∷◌, ◌++◌,
}
use flatimage.Base.Run
use flatimage.Base.Run.{Run, pure, outcome, ◌>>=◌, ◌>>◌}
use flatimage.Json.{JsonLibrary}
use flatimage.Text.{Text, codes, text_eq, to_upper, enum_from_string}
use flatimage.Text.Numbers.{int_to_string, stoi, stoi-int_to_string}
use flatimage.Text.Paths.{◌/◌}
use flatimage.Db.{with_db, parsed, assign, dump, text_at}
use flatimage.Db.Laws.{
  Fields, lookup, built, assign-object, assign-built, text_at-built, parsed-dump,
}
use flatimage.Db.Portal.{Mode, host, guest, none_mode, mode_entries, mode_name, mode_lower}

pub record Daemon : Type 0 where
  pub mode : Mode
  -- The 32 bits of the pid_t.
  pub pid_reference : ℕ
  pub path_bin_daemon : Text
  pub path_fifo_listen : Text

-- The constructor, in the process with this identifier.
unfoldable pub daemon : ℕ → Mode → Text → Text → Daemon
daemon pid mode path_bin_daemon path_dir_fifo = record {
  mode = mode;
  pid_reference = pid;
  path_bin_daemon = path_bin_daemon;
  path_fifo_listen = path_dir_fifo / codes "daemon" / (mode_lower mode ++ codes ".fifo");
}

-- Try(std::stoi(...))
abbrev try_number : Option ℕ → Value ℕ
try_number none = err "stoi"
try_number (some n) = ok n

module _ (lib : JsonLibrary) where
  -- The body of deserialize, behind its check for an empty text.
  parse_daemon : Run (lib.Json) Daemon
  parse_daemon = do
    digits ← text_at lib (codes "pid_reference")
    pid_reference ← Run.lift (try_number (stoi digits))
    path_bin_daemon ← text_at lib (codes "path_bin_daemon")
    path_fifo_listen ← text_at lib (codes "path_fifo_listen")
    name ← text_at lib (codes "mode")
    mode ← Run.lift (enum_from_string mode_entries name)
    pure record {
      mode = mode;
      pid_reference = pid_reference;
      path_bin_daemon = path_bin_daemon;
      path_fifo_listen = path_fifo_listen;
    }

  unfoldable pub deserialize : Text → Option (Value Daemon)
  unfolding parse_daemon
  deserialize = parsed lib parse_daemon

  unfoldable pub serialize : Daemon → Option (Value Text)
  serialize d = with_db lib (ok lib.object) (do
    assign lib (codes "pid_reference") (lib.text (int_to_string d.pid_reference))
    assign lib (codes "path_bin_daemon") (lib.text d.path_bin_daemon)
    assign lib (codes "path_fifo_listen") (lib.text d.path_fifo_listen)
    assign lib (codes "mode") (lib.text (mode_name d.mode))
    dump lib)

  abbrev pub fields_of : Daemon → Fields (lib.Json)
  fields_of d =
      (codes "mode", lib.text (mode_name d.mode))
      ∷ (codes "path_fifo_listen", lib.text d.path_fifo_listen)
      ∷ (codes "path_bin_daemon", lib.text d.path_bin_daemon)
      ∷ (codes "pid_reference", lib.text (int_to_string d.pid_reference))
      ∷ []

  serialize-built : (d : Daemon) → serialize d ≡ some (lib.dump (built lib (fields_of d)))
  unfolding serialize with_db dump
  serialize-built d = simp (assign-object lib, assign-built lib)

  mode_named : (mode : Mode) → enum_from_string mode_entries (mode_name mode) ≡ ok mode
  unfolding enum_from_string text_eq to_upper
  mode_named host = refl
  mode_named guest = refl
  mode_named none_mode = refl

  parse_built :
      (d : Daemon)
      → d.pid_reference < 2 ^ 32
      → parse_daemon (built lib (fields_of d)) ≡ some (ok d, built lib (fields_of d))
  unfolding parse_daemon lookup text_eq
  parse_built d h =
      let text = text_at-built lib (fields_of d) in
      simp (
        text (codes "pid_reference") (int_to_string d.pid_reference) refl,
        stoi-int_to_string d.pid_reference h,
        text (codes "path_bin_daemon") d.path_bin_daemon refl,
        text (codes "path_fifo_listen") d.path_fifo_listen refl,
        text (codes "mode") (mode_name d.mode) refl,
        mode_named d.mode,
      )

  -- Where the document of a daemon is dumped, whose process identifier has 32 bits, serialize returns
  -- this text, and deserialize reads the same daemon from it.
  pub deserialize-serialize_daemon :
      (d : Daemon) (t : Text)
      → d.pid_reference < 2 ^ 32
      → lib.dump (built lib (fields_of d)) ≡ ok t
      → (serialize d ≡ some (ok t)) × (deserialize t ≡ some (ok d))
  unfolding deserialize
  deserialize-serialize_daemon d t h dumped = (
    serialize-built d ∙ ap some dumped,
    parsed-dump lib parse_daemon (built lib (fields_of d)) t dumped ∙ ap outcome (parse_built d h),
  )
