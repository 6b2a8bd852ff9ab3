-- ===== src/Parser/Bind.antt =====
-- `fim-bind`: CmdBind of src/parser/interface.hpp with the Type of src/db/bind.hpp, and its case in
-- `parse` of src/parser/parser.hpp.
use flatimage.Base.{ℕ, ◌^◌, List, [], ◌∷◌, all, guard}
use flatimage.Text.{Text, codes, is_digit}
use flatimage.Parser.Args.{
  Args, ◌>>=◌, ◌>>◌, pure, fail, popped, pop_front, none_left, pop_enum, stou,
}

pub data BindType : Type 0 where
  ro rw dev none_type : BindType

abbrev pub type_entries : List (BindType × Text)
type_entries =
    (ro, codes "RO") ∷ (rw, codes "RW") ∷ (dev, codes "DEV") ∷ (none_type, codes "NONE") ∷ []

pub data CmdBindOp : Type 0 where
  add_op del_op list_op none_op : CmdBindOp

abbrev pub op_entries : List (CmdBindOp × Text)
op_entries =
    (add_op, codes "ADD")
    ∷ (del_op, codes "DEL")
    ∷ (list_op, codes "LIST")
    ∷ (none_op, codes "NONE")
    ∷ []

-- The variant `sub_cmd`
pub data CmdBind : Type 0 where
  add : BindType → Text → Text → CmdBind
  del : ℕ → CmdBind
  list : CmdBind

abbrev pub bind_case : CmdBindOp → Args CmdBind
bind_case add_op = do
  type ←
      pop_enum type_entries "Incorrect number of arguments for 'add' (<ro,rw,dev> <src> <dst>)"
        "Invalid bind type"
  path_src ← pop_front "Incorrect number of arguments for 'add' (<ro,rw,dev> <src> <dst>)"
  path_dst ← pop_front "Incorrect number of arguments for 'add' (<ro,rw,dev> <src> <dst>)"
  none_left "{}"
  pure (add type path_src path_dst)
bind_case del_op = do
  str_index ← pop_front "Incorrect number of arguments for 'del' (<index>)"
  popped (guard (all is_digit str_index) "Index argument for 'del' is not a number")
  index ← popped (stou (2 ^ 64) str_index "Invalid index")
  none_left "Incorrect number of arguments for 'del' (<index>)"
  pure (del index)
bind_case list_op = do none_left "'list' command takes no arguments"; pure list
bind_case none_op = fail "Invalid operation for bind"

unfoldable pub parse_bind : Args CmdBind
parse_bind = do
  op ←
      pop_enum op_entries "Missing op for 'fim-bind' command (add,del,list)"
        "Invalid bind operation"
  bind_case op
