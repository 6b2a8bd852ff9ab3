-- ===== src/Executor/Layers.antt =====
-- src/parser/executor.hpp: the case of `fim-layer`, and src/parser/cmd/layers.hpp: list. What create
-- does to the host with mkdwarfs is a parameter.
use flatimage.Base.{String, some, suc, ℕ, List, [], ◌∷◌, ◌++◌, Option, none}
use flatimage.Base.Run
use flatimage.Base.Run.{Run, pure, ◌>>=◌, ◌>>◌}
use flatimage.Text.{Text, codes}
use flatimage.Text.Numbers.{to_string}
use flatimage.Text.Paths.{◌/◌}
use flatimage.Layers.{Layer}
use flatimage.Host.{Host}
use flatimage.Layers.Commit as Commit
use flatimage.Layers.Commit.{CommitMode, commit}
use flatimage.Parser.Layer as OfLayer

-- Of FlatImage: the paths of the image and of the host's directories, and the layers that were found.
pub record Paths : Type 0 where
  pub path_file_binary : Text
  pub path_dir_upper : Text
  pub host_data_tmp : Text
  pub host_data_layers : Text
  pub layers : List Layer

-- ns_layers::list
unfoldable pub listed_layers : ℕ → List Layer → List Text
listed_layers index [] = []
listed_layers index (layer ∷ layers) =
    (to_string index
      ++ codes ":"
      ++ to_string layer.offset
      ++ codes ":"
      ++ to_string layer.size
      ++ codes ":"
      ++ layer.path)
    ∷ listed_layers (suc index) layers

-- The mode of a commit, and its path.
abbrev pub commit_to : Paths → OfLayer.Commit → CommitMode × Option Text
commit_to paths OfLayer.binary = (Commit.binary, none)
commit_to paths OfLayer.layer = (Commit.layer, some paths.host_data_layers)
commit_to paths (OfLayer.file path_file_dst) = (Commit.file, some path_file_dst)

silently : String → Run Host (Unit {0}) → Run Host (List Text)
silently message step = do Run.relabelled step message; pure []

-- create takes the source, the file of the layer, and the list of files.
unfoldable pub execute_layer :
    (Text → Text → Text → Run Host (Unit {0})) → Paths → OfLayer.CmdLayer → Run Host (List Text)
unfolding silently
execute_layer create paths (OfLayer.add path_file_src) =
    silently "Failed to add layer" (Commit.add paths.path_file_binary path_file_src)
execute_layer create paths (OfLayer.commit to) =
    let tmp = paths.host_data_tmp / codes "layer.tmp" in
    let list = paths.host_data_tmp / codes "compression.list" in
    let (mode, path_dst) = commit_to paths to in
    silently "Failed to commit layer" (
      commit (create paths.path_dir_upper tmp list) paths.path_file_binary paths.path_dir_upper tmp
        list mode path_dst)
execute_layer create paths (OfLayer.create path_dir_src path_file_target) =
    silently "Failed to create layer"
      (create path_dir_src path_file_target (paths.host_data_tmp / codes "compression.list"))
execute_layer create paths OfLayer.list = pure (listed_layers 0 paths.layers)
