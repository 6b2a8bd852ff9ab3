-- ===== src/Parser/Env.antt =====
-- `fim-env`: CmdEnv of src/parser/interface.hpp, and its case in `parse` of src/parser/parser.hpp.
use flatimage.Base.{List, [], ◌∷◌}
use flatimage.Text.{Text, codes}
use flatimage.Parser.Args.{
  Args, ◌>>=◌, ◌>>◌, pure, fail, relabelled, data_of, clear_all, some_left, none_left, pop_enum,
}

pub data CmdEnvOp : Type 0 where
  add_op clear_op del_op list_op set_op none_op : CmdEnvOp

abbrev pub op_entries : List (CmdEnvOp × Text)
op_entries =
    (add_op, codes "ADD")
    ∷ (clear_op, codes "CLEAR")
    ∷ (del_op, codes "DEL")
    ∷ (list_op, codes "LIST")
    ∷ (set_op, codes "SET")
    ∷ (none_op, codes "NONE")
    ∷ []

-- The variant `sub_cmd`
pub data CmdEnv : Type 0 where
  add : List Text → CmdEnv
  clear : CmdEnv
  del : List Text → CmdEnv
  list : CmdEnv
  set : List Text → CmdEnv

unfoldable pub process_variables : Args (List Text)
process_variables = do some_left "Missing arguments for '{}'"; out ← data_of; clear_all; pure out

abbrev pub env_case : CmdEnvOp → Args CmdEnv
unfolding process_variables
env_case set_op = do
  variables ← relabelled process_variables "Failed to process variables"
  pure (set variables)
env_case add_op = do
  variables ← relabelled process_variables "Failed to process variables"
  pure (add variables)
env_case del_op = do
  variables ← relabelled process_variables "Failed to process variables"
  pure (del variables)
env_case list_op = pure list
env_case clear_op = pure clear
env_case none_op = fail "Invalid operation for environment"

unfoldable pub parse_env : Args CmdEnv
parse_env = do
  op ←
      pop_enum op_entries "Missing op for 'fim-env' (add,del,list,set,clear)"
        "Invalid env operation"
  cmd_env ← env_case op
  none_left "Trailing arguments for fim-env: {}"
  pure cmd_env
