-- ===== src/Host.antt =====
-- The files and directories of the host by their paths, and what the program does to them with
-- std::filesystem and the streams. An error of std::filesystem carries the name of its function.
pub mod Laws
use flatimage.Base.{
  Bool, true, false, ◌||◌, if◌then◌else◌, Option, none, some, ok, err, List, [], ◌∷◌, any,
}
use flatimage.Base.Run
use flatimage.Base.Run.{Run}
use flatimage.Bytes.{Bytes}
use flatimage.Text.{Text, text_eq}

pub record Host : Type 0 where
  pub files : List (Text × Bytes)
  pub directories : List Text

unfoldable pub contents : Text → List (Text × Bytes) → Option Bytes
contents path [] = none
contents path ((p, content) ∷ files) =
    let others = contents path files in if text_eq p path then some content else others

unfoldable pub without : Text → List (Text × Bytes) → List (Text × Bytes)
without path [] = []
without path ((p, content) ∷ files) =
    let others = without path files in if text_eq p path then others else (p, content) ∷ others

abbrev pub file_at : Text → Host → Option Bytes
file_at path host = contents path host.files

unfoldable pub is_directory : Text → Host → Bool
is_directory path host = any (λ p. text_eq p path) host.directories

abbrev pub is_some : Option Bytes → Bool
is_some none = false
is_some (some content) = true

abbrev pub exists : Text → Host → Bool
exists path host = is_some (file_at path host) || is_directory path host

abbrev pub stored : Text → Bytes → Host → Host
stored path content host = record {
  files = (path, content) ∷ without path host.files;
  directories = host.directories;
}

abbrev pub removed : Text → Host → Host
removed path host = record { files = without path host.files; directories = host.directories }

-- fs::rename of a regular file, to a path on the same file system whose directory is there.
unfoldable pub rename : Text → Text → Run Host (Unit {0})
rename from to host = elim (file_at from host) [
  | none ↦ Run.fail "rename" host
  | some content ↦
      if is_directory to host
      then Run.fail "rename" host
      else some (ok tt, stored to content (removed from host))
]
