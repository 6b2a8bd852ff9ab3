-- ===== src/Db/Portal/Message.antt =====
-- src/db/portal/message.hpp: the class Message, with the paths of the FIFOs of one process.
use flatimage.Base.{ℕ, ◌≡◌, refl, ap, ◌∙◌, Option, some, Value, ok, List, [], ◌∷◌}
use flatimage.Base.Run.{Run, pure, outcome, ◌>>=◌, ◌>>◌}
use flatimage.Json.{JsonLibrary}
use flatimage.Text.{Text, codes, text_eq}
use flatimage.Text.Numbers.{int_to_string}
use flatimage.Text.Paths.{placeholders_replace, ◌/◌}
use flatimage.Db.{with_db, parsed, assign, dump, text_at, texts_at}
use flatimage.Db.Laws.{
  Fields, lookup, built, assign-object, assign-built, text_at-built, texts_at-built, parsed-dump,
}

pub record Message : Type 0 where
  pub command : List Text
  pub stdin : Text
  pub stdout : Text
  pub stderr : Text
  pub exit : Text
  pub pid : Text
  pub environment : List Text

fifo_path : ℕ → Text → Text → Text
fifo_path pid path_dir_fifo name =
    placeholders_replace (path_dir_fifo / codes "{}" / name) (int_to_string pid ∷ [])

-- The constructor.
unfoldable pub message : ℕ → List Text → Text → List Text → Message
unfolding fifo_path
message pid command path_dir_fifo environment = record {
  command = command;
  stdin = fifo_path pid path_dir_fifo (codes "stdin.fifo");
  stdout = fifo_path pid path_dir_fifo (codes "stdout.fifo");
  stderr = fifo_path pid path_dir_fifo (codes "stderr.fifo");
  exit = fifo_path pid path_dir_fifo (codes "exit.fifo");
  pid = fifo_path pid path_dir_fifo (codes "pid.fifo");
  environment = environment;
}

module _ (lib : JsonLibrary) where
  -- The body of deserialize, behind its check for an empty text.
  parse_message : Run (lib.Json) Message
  parse_message = do
    command ← texts_at lib (codes "command")
    stdin ← text_at lib (codes "stdin")
    stdout ← text_at lib (codes "stdout")
    stderr ← text_at lib (codes "stderr")
    exit ← text_at lib (codes "exit")
    pid ← text_at lib (codes "pid")
    environment ← texts_at lib (codes "environment")
    pure record {
      command = command;
      stdin = stdin;
      stdout = stdout;
      stderr = stderr;
      exit = exit;
      pid = pid;
      environment = environment;
    }

  unfoldable pub deserialize : Text → Option (Value Message)
  unfolding parse_message
  deserialize = parsed lib parse_message

  unfoldable pub serialize : Message → Option (Value Text)
  serialize m = with_db lib (ok lib.object) (do
    assign lib (codes "command") (lib.texts m.command)
    assign lib (codes "stdin") (lib.text m.stdin)
    assign lib (codes "stdout") (lib.text m.stdout)
    assign lib (codes "stderr") (lib.text m.stderr)
    assign lib (codes "exit") (lib.text m.exit)
    assign lib (codes "pid") (lib.text m.pid)
    assign lib (codes "environment") (lib.texts m.environment)
    dump lib)

  abbrev pub fields_of : Message → Fields (lib.Json)
  fields_of m =
      (codes "environment", lib.texts m.environment)
      ∷ (codes "pid", lib.text m.pid)
      ∷ (codes "exit", lib.text m.exit)
      ∷ (codes "stderr", lib.text m.stderr)
      ∷ (codes "stdout", lib.text m.stdout)
      ∷ (codes "stdin", lib.text m.stdin)
      ∷ (codes "command", lib.texts m.command)
      ∷ []

  serialize-built : (m : Message) → serialize m ≡ some (lib.dump (built lib (fields_of m)))
  unfolding serialize with_db dump
  serialize-built m = simp (assign-object lib, assign-built lib)

  parse_built :
      (m : Message) → parse_message (built lib (fields_of m)) ≡ some (ok m, built lib (fields_of m))
  unfolding parse_message lookup text_eq
  parse_built m =
      let texts = texts_at-built lib (fields_of m) in
      let text = text_at-built lib (fields_of m) in
      simp (
        texts (codes "command") m.command refl,
        text (codes "stdin") m.stdin refl,
        text (codes "stdout") m.stdout refl,
        text (codes "stderr") m.stderr refl,
        text (codes "exit") m.exit refl,
        text (codes "pid") m.pid refl,
        texts (codes "environment") m.environment refl,
      )

  -- Where the document of a message is dumped, serialize returns this text, and deserialize reads the
  -- same message from it.
  pub deserialize-serialize :
      (m : Message) (t : Text)
      → lib.dump (built lib (fields_of m)) ≡ ok t
      → (serialize m ≡ some (ok t)) × (deserialize t ≡ some (ok m))
  unfolding deserialize
  deserialize-serialize m t dumped = (
    serialize-built m ∙ ap some dumped,
    parsed-dump lib parse_message (built lib (fields_of m)) t dumped ∙ ap outcome (parse_built m),
  )
