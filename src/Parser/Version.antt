-- ===== src/Parser/Version.antt =====
-- `fim-version`: CmdVersion of src/parser/interface.hpp, and its case in `parse` of
-- src/parser/parser.hpp.
use flatimage.Base.{List, [], ◌∷◌}
use flatimage.Text.{Text, codes}
use flatimage.Parser.Args.{Args, ◌>>=◌, ◌>>◌, pure, fail, none_left, pop_enum}

pub data CmdVersionOp : Type 0 where
  short_op full_op deps_op none_op : CmdVersionOp

abbrev pub op_entries : List (CmdVersionOp × Text)
op_entries =
    (short_op, codes "SHORT")
    ∷ (full_op, codes "FULL")
    ∷ (deps_op, codes "DEPS")
    ∷ (none_op, codes "NONE")
    ∷ []

-- The variant `sub_cmd`
pub data CmdVersion : Type 0 where
  short full deps : CmdVersion

abbrev pub version_case : CmdVersionOp → Args CmdVersion
version_case short_op = pure short
version_case full_op = pure full
version_case deps_op = pure deps
version_case none_op = fail "Invalid operation for fim-version"

unfoldable pub parse_version : Args CmdVersion
parse_version = do
  op ←
      pop_enum op_entries "Missing op for 'fim-version' (<short|full|deps>)"
        "Invalid version operation"
  cmd ← version_case op
  none_left "Trailing arguments for fim-version: {}"
  pure cmd
