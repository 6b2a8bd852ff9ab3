-- ===== src/Parser/Boot.antt =====
-- `fim-boot`: CmdBoot of src/parser/interface.hpp, and its case in `parse` of src/parser/parser.hpp.
use flatimage.Base.{List, [], ◌∷◌}
use flatimage.Text.{Text, codes}
use flatimage.Parser.Args.{
  Args, ◌>>=◌, ◌>>◌, pure, fail, pop_front, data_of, clear_all, none_left, pop_enum,
}

pub data CmdBootOp : Type 0 where
  set_op show_op clear_op none_op : CmdBootOp

abbrev pub op_entries : List (CmdBootOp × Text)
op_entries =
    (set_op, codes "SET")
    ∷ (show_op, codes "SHOW")
    ∷ (clear_op, codes "CLEAR")
    ∷ (none_op, codes "NONE")
    ∷ []

-- The variant `sub_cmd`
pub data CmdBoot : Type 0 where
  clear : CmdBoot
  set : Text → List Text → CmdBoot
  show : CmdBoot

abbrev pub boot_case : CmdBootOp → Args CmdBoot
boot_case set_op = do
  program ← pop_front "Missing program for 'set' operation"
  args ← data_of
  clear_all
  pure (set program args)
boot_case show_op = pure show
boot_case clear_op = pure clear
boot_case none_op = fail "Invalid boot operation"

unfoldable pub parse_boot : Args CmdBoot
parse_boot = do
  op ← pop_enum op_entries "Missing op for 'fim-boot' (<set|show|clear>)" "Invalid boot operation"
  cmd_boot ← boot_case op
  none_left "Trailing arguments for fim-boot: {}"
  pure cmd_boot
