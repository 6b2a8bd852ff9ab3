-- ===== src/Parser/Perms.antt =====
-- `fim-perms`: CmdPerms of src/parser/interface.hpp, and its case in `parse` of src/parser/parser.hpp.
use flatimage.Base.{List, [], ◌∷◌}
use flatimage.Text.{Text, codes, from_string}
use flatimage.Parser.Args.{
  Args, ◌>>=◌, ◌>>◌, pure, fail, popped, relabelled, pop_front, none_left, pop_enum, insert_each,
}
use flatimage.Flags.Permission.{Permission, ordinal, entries}

pub data CmdPermsOp : Type 0 where
  add_op clear_op del_op list_op set_op none_op : CmdPermsOp

abbrev pub op_entries : List (CmdPermsOp × Text)
op_entries =
    (add_op, codes "ADD")
    ∷ (clear_op, codes "CLEAR")
    ∷ (del_op, codes "DEL")
    ∷ (list_op, codes "LIST")
    ∷ (set_op, codes "SET")
    ∷ (none_op, codes "NONE")
    ∷ []

-- The variant `sub_cmd`. A std::set is the list of its members, in their order.
pub data CmdPerms : Type 0 where
  add : List Permission → CmdPerms
  clear : CmdPerms
  del : List Permission → CmdPerms
  list : CmdPerms
  set : List Permission → CmdPerms

unfoldable pub process_permissions : Args (List Permission)
process_permissions = do
  arg ← pop_front "No arguments for '{}' command"
  popped (insert_each ordinal entries "Invalid permission" [] (from_string arg b','))

abbrev pub permissions_case : CmdPermsOp → Args CmdPerms
permissions_case set_op = do
  permissions ← relabelled process_permissions "Failed to process permissions"
  pure (set permissions)
permissions_case add_op = do
  permissions ← relabelled process_permissions "Failed to process permissions"
  pure (add permissions)
permissions_case del_op = do
  permissions ← relabelled process_permissions "Failed to process permissions"
  pure (del permissions)
permissions_case list_op = pure list
permissions_case clear_op = pure clear
permissions_case none_op = fail "Invalid operation for permissions"

unfoldable pub parse_perms : Args CmdPerms
parse_perms = do
  op ←
      pop_enum op_entries "Missing op for fim-perms (add,del,list,set,clear)"
        "Invalid perms operation"
  cmd_perms ← permissions_case op
  none_left "Trailing arguments for fim-perms: {}"
  pure cmd_perms
