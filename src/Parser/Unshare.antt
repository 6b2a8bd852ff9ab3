-- ===== src/Parser/Unshare.antt =====
-- `fim-unshare`: CmdUnshare of src/parser/interface.hpp, and its case in `parse` of src/parser/parser.hpp.
use flatimage.Base.{List, [], ◌∷◌}
use flatimage.Text.{Text, codes, from_string}
use flatimage.Parser.Args.{
  Args, ◌>>=◌, ◌>>◌, pure, fail, popped, relabelled, pop_front, none_left, pop_enum, insert_each,
}
use flatimage.Flags.Unshare.{Unshare, ordinal, entries}

pub data CmdUnshareOp : Type 0 where
  add_op clear_op del_op list_op set_op none_op : CmdUnshareOp

abbrev pub op_entries : List (CmdUnshareOp × Text)
op_entries =
    (add_op, codes "ADD")
    ∷ (clear_op, codes "CLEAR")
    ∷ (del_op, codes "DEL")
    ∷ (list_op, codes "LIST")
    ∷ (set_op, codes "SET")
    ∷ (none_op, codes "NONE")
    ∷ []

-- The variant `sub_cmd`. A std::set is the list of its members, in their order.
pub data CmdUnshare : Type 0 where
  add : List Unshare → CmdUnshare
  clear : CmdUnshare
  del : List Unshare → CmdUnshare
  list : CmdUnshare
  set : List Unshare → CmdUnshare

unfoldable pub process_unshares : Args (List Unshare)
process_unshares = do
  arg ← pop_front "No arguments for '{}' command"
  popped (insert_each ordinal entries "Invalid unshare option" [] (from_string arg b','))

abbrev pub unshare_case : CmdUnshareOp → Args CmdUnshare
unshare_case set_op = do
  unshares ← relabelled process_unshares "Failed to process unshare options"
  pure (set unshares)
unshare_case add_op = do
  unshares ← relabelled process_unshares "Failed to process unshare options"
  pure (add unshares)
unshare_case del_op = do
  unshares ← relabelled process_unshares "Failed to process unshare options"
  pure (del unshares)
unshare_case list_op = pure list
unshare_case clear_op = pure clear
unshare_case none_op = fail "Invalid operation for unshare"

unfoldable pub parse_unshare : Args CmdUnshare
parse_unshare = do
  op ←
      pop_enum op_entries "Missing op for fim-unshare (add,clear,del,list,set)"
        "Invalid unshare operation"
  cmd_unshare ← unshare_case op
  none_left "Trailing arguments for fim-unshare: {}"
  pure cmd_unshare
