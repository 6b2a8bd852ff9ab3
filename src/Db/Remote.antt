-- ===== src/Db/Remote.antt =====
-- src/db/remote.hpp: the URL of the remote, a document in its region.
pub mod Laws
use flatimage.Base.{
  ℕ, Bool, true, false, not, ◌||◌, if◌then◌else◌, Option, none, some, Value, ok, err, List, [], ◌∷◌,
}
use flatimage.Base.Io.{File}
use flatimage.Base.Run
use flatimage.Base.Run.{Run, pure, ◌>>=◌, ◌>>◌}
use flatimage.Json.{JsonLibrary}
use flatimage.Text.{Text, codes}
use flatimage.Reserved.Text.{remote_write, remote_read}
use flatimage.Db.{assign, empty, contains, text_at, with_db, dump, from_string_or_empty}

module _ (lib : JsonLibrary) where
  open lib use {Json}

  unfoldable pub set : ℕ → Text → Run File (Unit {0})
  set base url = do
    json ←
        Run.looks
          (λ f. with_db lib (ok lib.object) (do assign lib (codes "url") (lib.text url); dump lib))
    Run.does (remote_write base json)

  -- The body of get behind the read.
  unfoldable pub url_in : Json → Option (Value Text)
  url_in db =
      if empty lib db || not (contains lib db (codes "url"))
      then some (err "No remote URL configured")
      else Run.outcome (Run.relabelled (text_at lib (codes "url")) "Could not read URL" db)

  unfoldable pub get : ℕ → Run File Text
  get base = do
    text ← Run.looks (remote_read base)
    Run.looks (λ f. url_in (from_string_or_empty lib text))

  unfoldable pub clear : ℕ → Run File (Unit {0})
  clear base = do json ← Run.lift (lib.dump lib.object); Run.does (remote_write base json)
