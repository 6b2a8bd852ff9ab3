-- ===== src/Bindings/Database.antt =====
-- src/db/bind.hpp: the document of the bindings; src/parser/cmd/bind.hpp: the functions that read it
-- from the reserved space and write it back.
pub mod Written
pub mod RoundTrip
use flatimage.Base.{ℕ, Option, none, some, Value, ok, err, value_or, List, [], ◌∷◌}
use flatimage.Base.Io.{File}
use flatimage.Base.Run
use flatimage.Base.Run.{Run, pure, ◌>>=◌, ◌>>◌}
use flatimage.Json.{JsonLibrary}
use flatimage.Text.{Text, codes}
use flatimage.Text.Numbers.{stoull, to_string}
use flatimage.Parser.Bind.{BindType}
use flatimage.Reserved.Text.{bind_write, bind_read}
use flatimage.Db.{items, text_at, assign_in, dump, with_db, from_string}
use flatimage.Bindings.{Bind, push_back, erase, add, type_to_word, word_to_type}

module _ (lib : JsonLibrary) where
  open lib use {Json}

  -- The body of the loop of deserialize behind the type: none where the key is no index.
  unfoldable pub bind_at : Text → Option ℕ → Run Json (Option Bind)
  bind_at type none = pure none
  bind_at type (some index) = do
    path_src ← text_at lib (codes "src")
    path_dst ← text_at lib (codes "dst")
    pure (
        some record {
          index = index;
          path_src = path_src;
          path_dst = path_dst;
          type = word_to_type type;
        })

  unfoldable pub bind_of : Text → Run Json (Option Bind)
  bind_of key = do type ← text_at lib (codes "type"); bind_at type (stoull key)

  abbrev pub with_read : Option Bind → List Bind → List Bind
  with_read none binds = binds
  with_read (some bind) binds = bind ∷ binds

  -- The loop of deserialize.
  unfoldable pub collect : List (Text × Json) → Option (Value (List Bind))
  collect [] = some (ok [])
  collect ((key, value) ∷ rest) =
      Run.pop (Run.outcome (bind_of key value))
        (λ bind. Run.pop (collect rest) (λ binds. some (ok (with_read bind binds))))

  unfoldable pub deserialize : Text → Option (Value (List Bind))
  deserialize raw_json = Run.pop (some (from_string lib raw_json)) (λ db. collect (items lib db))

  unfoldable pub assign_bind : Bind → Run Json (Unit {0})
  assign_bind bind = do
    assign_in lib (to_string bind.index) (codes "src") (lib.text bind.path_src)
    assign_in lib (to_string bind.index) (codes "dst") (lib.text bind.path_dst)
    assign_in lib (to_string bind.index) (codes "type") (lib.text (type_to_word bind.type))

  unfoldable pub assign_binds : List Bind → Run Json (Unit {0})
  assign_binds [] = pure tt
  assign_binds (bind ∷ binds) = do assign_bind bind; assign_binds binds

  -- serialize, and the dump of the Db that it returns.
  unfoldable pub serialize : List Bind → Option (Value Text)
  serialize binds = with_db lib (ok lib.object) (do assign_binds binds; dump lib)

  unfoldable pub or_braces : Text → Text
  or_braces [] = codes "{}"
  or_braces (c ∷ s) = c ∷ s

  -- value_or(Binds{})
  unfoldable pub or_no_binds : Option (Value (List Bind)) → Option (Value (List Bind))
  or_no_binds none = none
  or_no_binds (some v) = some (ok (value_or v []))

  unfoldable pub db_read : ℕ → Run File (List Bind)
  db_read base = do
    reserved_data ← Run.looks (bind_read base)
    Run.looks (λ f. or_no_binds (deserialize (or_braces reserved_data)))

  unfoldable pub db_write : ℕ → List Bind → Run File (Unit {0})
  db_write base binds = do text ← Run.looks (λ f. serialize binds); Run.does (bind_write base text)

  unfoldable pub add_bind : ℕ → BindType → Text → Text → Run File (Unit {0})
  add_bind base bind_type path_src path_dst = do
    binds ← db_read base
    db_write base (add binds bind_type path_src path_dst)

  unfoldable pub del : ℕ → ℕ → Run File (Unit {0})
  del base index = do binds ← db_read base; db_write base (erase binds index)

  -- What is printed: nothing where there are no bindings.
  unfoldable pub list_printed : List Bind → Run File (List Text)
  list_printed [] = pure []
  list_printed (bind ∷ binds) = do
    text ← Run.looks (λ f. serialize (bind ∷ binds))
    pure (text ∷ [])

  unfoldable pub list : ℕ → Run File (List Text)
  list base = do binds ← db_read base; list_printed binds
