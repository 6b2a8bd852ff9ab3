-- ===== src/Layers/Commit.antt =====
-- src/parser/cmd/layers.hpp: commit_mode and commit, on the files and directories of the host by their
-- paths. An error of std::filesystem carries the name of its function.
pub mod Laws
use flatimage.Base.{
  ℕ, Bool, true, false, ◌&&◌, ◌||◌, not, if◌then◌else◌, Option, none, some, Value, ok, err, guard,
  String, List, [], ◌∷◌, ◌++◌, any, length, drop, ◌==◌,
}
use flatimage.Base.Run
use flatimage.Base.Run.{Run, pure, ◌>>=◌, ◌>>◌}
use flatimage.Bytes.{Bytes}
use flatimage.Text.{Text, codes, text_eq, starts_with, from_string}
use flatimage.Text.Paths.{◌/◌}
use flatimage.Host.{
  Host, contents, without, file_at, is_directory, is_some, exists, stored, removed, rename,
}
use flatimage.Layers as OfImage
use flatimage.Layers.Numbering.{find_next_layer_number, layer_name}

abbrev pub is_slash : ℕ → Bool
is_slash c = c == b'/'

-- The part of a path behind its directory, where this is all of its parent.
unfoldable pub is_in : Text → Text → Bool
is_in prefix path = starts_with path prefix && not (any is_slash (drop (length prefix) path))

-- The names of the regular files in a directory.
unfoldable pub filenames : Text → List (Text × Bytes) → List Text
filenames prefix [] = []
filenames prefix ((p, content) ∷ files) =
    let others = filenames prefix files in
    if is_in prefix p then drop (length prefix) p ∷ others else others

-- Pop(add(...)): the image as add leaves it.
abbrev pub appended :
    Text → Host → Option (Value (Unit {0}) × Option Bytes) → Option (Value (Unit {0}) × Host)
appended path host none = none
appended path host (some (done, none)) = some (done, host)
appended path host (some (done, some content)) = some (done, stored path content host)

-- An ofstream that appends makes the file, where there is none and no directory has its name.
unfoldable pub opened : Text → Host → Host
opened path host = elim (file_at path host) [
  | some content ↦ host
  | none ↦ if is_directory path host then host else stored path [] host
]

unfoldable pub add : Text → Text → Run Host (Unit {0})
unfolding opened
add path_file_binary path_file_layer host =
    let host' = opened path_file_binary host in
    appended path_file_binary host'
      (OfImage.add (file_at path_file_binary host') (file_at path_file_layer host'))

-- The fs::remove of the layer's file, which is no directory.
erase_layer : Text → Run Host (Unit {0})
erase_layer path host =
    if is_some (file_at path host)
    then some (ok tt, removed path host)
    else Run.fail "Could not erase layer file '{}'" host

pub data CommitMode : Type 0 where
  binary layer file : CommitMode

unfoldable pub required : String → Option Text → Run Host Text
required message none = Run.fail message
required message (some path) = pure path

unfoldable pub commit_mode : Text → Text → CommitMode → Option Text → Run Host (Unit {0})
unfolding add erase_layer required
commit_mode path_file_binary path_file_layer_tmp binary path_dst = do
  add path_file_binary path_file_layer_tmp
  erase_layer path_file_layer_tmp
commit_mode path_file_binary path_file_layer_tmp layer path_dst = do
  dst ← required "Layer mode requires a destination directory" path_dst
  Run.looks (λ host. some (guard (is_directory dst host) "Destination should be a directory"))
  layer_num ←
      Run.looks
        (λ host. find_next_layer_number (is_directory dst host) (filenames (dst / []) host.files))
  rename path_file_layer_tmp (dst / layer_name layer_num)
commit_mode path_file_binary path_file_layer_tmp file path_dst = do
  dst ← required "File mode requires a destination path" path_dst
  Run.looks (λ host. some (guard (not (exists dst host)) "Destination file already exists"))
  rename path_file_layer_tmp dst

-- parent_path: what stands before the last slash, or the root.
parent_of : Text → Option Text
parent_of [] = none
parent_of (c ∷ s) = elim (parent_of s) [
  | none ↦ if is_slash c then some [] else none
  | some parent ↦ some (c ∷ parent)
]

unfoldable pub parent_path : Text → Text
unfolding parent_of
parent_path path = elim (parent_of path) [
  | none ↦ []
  | some parent ↦ if starts_with path (codes "/") && length parent == 0 then codes "/" else parent
]

-- fs::is_empty of a directory.
unfoldable pub is_empty_directory : Text → Host → Bool
is_empty_directory path host =
    let beneath = λ (p : Text). starts_with p (path / []) && not (text_eq p (path / [])) in
    is_directory path host
    && not (any (λ file. beneath file.0) host.files || any beneath host.directories)

other_directories : Text → List Text → List Text
other_directories path [] = []
other_directories path (p ∷ ps) =
    let others = other_directories path ps in if text_eq p path then others else p ∷ others

-- fs::remove of a directory.
unfoldable pub remove_directory : Text → Host → Host
unfolding other_directories
remove_directory path host =
    if is_empty_directory path host
    then record { files = host.files; directories = other_directories path host.directories }
    else host

-- The body of the loop over the list of files: a file or an empty directory, and then its parent.
unfoldable pub erase_listed : Text → Text → Host → Host
erase_listed path_dir_src line host =
    let path_file_target = path_dir_src / line in
    remove_directory (parent_path path_file_target)
      (remove_directory path_file_target (removed path_file_target host))

unfoldable pub erase_all : Text → List Text → Host → Host
erase_all path_dir_src [] host = host
erase_all path_dir_src (line ∷ lines) host =
    erase_all path_dir_src lines (erase_listed path_dir_src line host)

erase_lines : Text → Text → Run Host (Unit {0})
erase_lines path_dir_src path_file_list host = elim (file_at path_file_list host) [
  | none ↦ Run.fail "Could not open file list for erasing files..." host
  | some list ↦ some (ok tt, erase_all path_dir_src (from_string list b'\n') host)
]

-- commit, where create, which runs mkdwarfs, is what it does to the host.
unfoldable pub commit :
    Run Host (Unit {0}) → Text → Text → Text → Text → CommitMode → Option Text → Run Host (Unit {0})
unfolding erase_lines
commit create path_file_binary path_dir_src path_file_layer_tmp path_file_list_tmp mode path_dst =
    do
      create
      commit_mode path_file_binary path_file_layer_tmp mode path_dst
      erase_lines path_dir_src path_file_list_tmp
