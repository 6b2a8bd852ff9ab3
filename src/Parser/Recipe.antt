-- ===== src/Parser/Recipe.antt =====
-- `fim-recipe`: CmdRecipe of src/parser/interface.hpp, and its case in `parse` of src/parser/parser.hpp.
use flatimage.Base.{not, List, [], ◌∷◌, length, ◌==◌, guard}
use flatimage.Text.{Text, codes, split}
use flatimage.Parser.Args.{
  Args, ◌>>=◌, ◌>>◌, pure, fail, popped, relabelled, pop_front, none_left, pop_enum,
}

pub data CmdRecipeOp : Type 0 where
  fetch_op info_op install_op none_op : CmdRecipeOp

abbrev pub op_entries : List (CmdRecipeOp × Text)
op_entries =
    (fetch_op, codes "FETCH")
    ∷ (info_op, codes "INFO")
    ∷ (install_op, codes "INSTALL")
    ∷ (none_op, codes "NONE")
    ∷ []

-- The variant `sub_cmd`
pub data CmdRecipe : Type 0 where
  fetch : List Text → CmdRecipe
  info : List Text → CmdRecipe
  install : List Text → CmdRecipe

unfoldable pub parse_recipes : Args (List Text)
parse_recipes = do
  arg ← pop_front "Missing recipe for operation"
  popped (guard (not (length (split arg b',') == 0)) "Recipe argument is empty")
  pure (split arg b',')

abbrev pub recipe_case : CmdRecipeOp → Args CmdRecipe
recipe_case fetch_op = do recipes ← relabelled parse_recipes "Invalid recipes"; pure (fetch recipes)
recipe_case info_op = do recipes ← relabelled parse_recipes "Invalid recipes"; pure (info recipes)
recipe_case install_op = do
  recipes ← relabelled parse_recipes "Invalid recipes"
  pure (install recipes)
recipe_case none_op = fail "Invalid recipe operation"

unfoldable pub parse_recipe : Args CmdRecipe
parse_recipe = do
  op ←
      pop_enum op_entries "Missing op for 'fim-recipe' (<fetch|info|install>)"
        "Invalid recipe operation"
  cmd_recipe ← recipe_case op
  none_left "Trailing arguments for fim-recipe: {}"
  pure cmd_recipe
