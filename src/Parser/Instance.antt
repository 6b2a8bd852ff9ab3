-- ===== src/Parser/Instance.antt =====
-- `fim-instance`: CmdInstance of src/parser/interface.hpp, and its case in `parse` of src/parser/parser.hpp.
use flatimage.Base.{ℕ, ◌^◌, List, [], ◌∷◌, all, guard}
use flatimage.Text.{Text, codes, is_digit}
use flatimage.Parser.Args.{
  Args, ◌>>=◌, ◌>>◌, pure, fail, popped, pop_front, data_of, clear_all, some_left, none_left,
  pop_enum, stou,
}

pub data CmdInstanceOp : Type 0 where
  exec_op list_op none_op : CmdInstanceOp

abbrev pub op_entries : List (CmdInstanceOp × Text)
op_entries = (exec_op, codes "EXEC") ∷ (list_op, codes "LIST") ∷ (none_op, codes "NONE") ∷ []

-- The variant `sub_cmd`; the identifier is an int32_t, which no text of digits makes negative.
pub data CmdInstance : Type 0 where
  exec : ℕ → List Text → CmdInstance
  list : CmdInstance

abbrev pub instance_case : CmdInstanceOp → Args CmdInstance
instance_case exec_op = do
  str_id ← pop_front "Missing 'id' argument for 'fim-instance'"
  popped (guard (all is_digit str_id) "Id argument must be a digit")
  some_left "Missing 'cmd' argument for 'fim-instance'"
  id ← popped (stou (2 ^ 31) str_id "Invalid instance ID")
  args ← data_of
  clear_all
  pure (exec id args)
instance_case list_op = pure list
instance_case none_op = fail "Invalid instance operation"

unfoldable pub parse_instance : Args CmdInstance
parse_instance = do
  op ←
      pop_enum op_entries "Missing op for 'fim-instance' (<exec|list>)" "Invalid instance operation"
  cmd ← instance_case op
  none_left "Trailing arguments for fim-instance: {}"
  pure cmd
