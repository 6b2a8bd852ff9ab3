-- ===== src/Parser/Remote.antt =====
-- `fim-remote`: CmdRemote of src/parser/interface.hpp, and its case in `parse` of src/parser/parser.hpp.
use flatimage.Base.{List, [], ◌∷◌}
use flatimage.Text.{Text, codes}
use flatimage.Parser.Args.{Args, ◌>>=◌, ◌>>◌, pure, fail, pop_front, none_left, pop_enum}

pub data CmdRemoteOp : Type 0 where
  set_op show_op clear_op none_op : CmdRemoteOp

abbrev pub op_entries : List (CmdRemoteOp × Text)
op_entries =
    (set_op, codes "SET")
    ∷ (show_op, codes "SHOW")
    ∷ (clear_op, codes "CLEAR")
    ∷ (none_op, codes "NONE")
    ∷ []

-- The variant `sub_cmd`
pub data CmdRemote : Type 0 where
  clear : CmdRemote
  set : Text → CmdRemote
  show : CmdRemote

abbrev pub remote_case : CmdRemoteOp → Args CmdRemote
remote_case set_op = do url ← pop_front "Missing URL for 'set' operation"; pure (set url)
remote_case show_op = pure show
remote_case clear_op = pure clear
remote_case none_op = fail "Invalid remote operation"

unfoldable pub parse_remote : Args CmdRemote
parse_remote = do
  op ←
      pop_enum op_entries "Missing op for 'fim-remote' (<set|show|clear>)"
        "Invalid remote operation"
  cmd_remote ← remote_case op
  none_left "Trailing arguments for fim-remote: {}"
  pure cmd_remote
