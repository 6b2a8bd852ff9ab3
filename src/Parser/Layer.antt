-- ===== src/Parser/Layer.antt =====
-- `fim-layer`: CmdLayer of src/parser/interface.hpp, and its case in `parse` of src/parser/parser.hpp.
use flatimage.Base.{List, [], ◌∷◌}
use flatimage.Text.{Text, codes}
use flatimage.Parser.Args.{Args, ◌>>=◌, ◌>>◌, pure, fail, pop_front, none_left, pop_enum}

pub data CmdLayerOp : Type 0 where
  add_op commit_op create_op list_op none_op : CmdLayerOp

abbrev pub op_entries : List (CmdLayerOp × Text)
op_entries =
    (add_op, codes "ADD")
    ∷ (commit_op, codes "COMMIT")
    ∷ (create_op, codes "CREATE")
    ∷ (list_op, codes "LIST")
    ∷ (none_op, codes "NONE")
    ∷ []

pub data CmdLayerCommitOp : Type 0 where
  binary_commit layer_commit file_commit none_commit : CmdLayerCommitOp

abbrev pub commit_entries : List (CmdLayerCommitOp × Text)
commit_entries =
    (binary_commit, codes "BINARY")
    ∷ (layer_commit, codes "LAYER")
    ∷ (file_commit, codes "FILE")
    ∷ (none_commit, codes "NONE")
    ∷ []

-- The variant of CmdLayer::Commit
pub data Commit : Type 0 where
  binary : Commit
  layer : Commit
  file : Text → Commit

-- The variant `sub_cmd`
pub data CmdLayer : Type 0 where
  add : Text → CmdLayer
  commit : Commit → CmdLayer
  create : Text → Text → CmdLayer
  list : CmdLayer

abbrev pub commit_case : CmdLayerCommitOp → Args Commit
commit_case binary_commit = pure binary
commit_case layer_commit = pure layer
commit_case file_commit = do
  path_file_dst ← pop_front "Missing path for 'file' operation"
  pure (file path_file_dst)
commit_case none_commit = fail "Invalid commit operation"

abbrev pub layer_case : CmdLayerOp → Args CmdLayer
layer_case add_op = do
  path_file_src ← pop_front "add requires exactly one argument (/path/to/file.layer)"
  none_left "{}"
  pure (add path_file_src)
layer_case create_op = do
  path_dir_src ←
      pop_front "create requires exactly two arguments (/path/to/dir /path/to/file.layer)"
  path_file_target ←
      pop_front "create requires exactly two arguments (/path/to/dir /path/to/file.layer)"
  none_left "{}"
  pure (create path_dir_src path_file_target)
layer_case commit_op = do
  op ←
      pop_enum commit_entries "Missing op for 'commit' (binary,layer,file)"
        "Invalid commit operation"
  cmd_commit ← commit_case op
  none_left "Trailing arguments for fim-layer commit: {}"
  pure (commit cmd_commit)
layer_case list_op = do none_left "Trailing arguments for fim-layer list: {}"; pure list
layer_case none_op = fail "Invalid layer operation"

unfoldable pub parse_layer : Args CmdLayer
parse_layer = do
  op ←
      pop_enum op_entries "Missing op for 'fim-layer' (create,add,commit,list)"
        "Invalid layer operation"
  layer_case op
