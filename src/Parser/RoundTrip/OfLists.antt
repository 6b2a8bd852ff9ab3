-- ===== src/Parser/RoundTrip/OfLists.antt =====
-- `fim-recipe` and `fim-desktop`, which take lists.
use flatimage.Base.{
  suc, ◌<◌, ◌≡◌, List, [], ◌∷◌, map, length, refl, ok, ap, arith, ◌∙◌, relabel, Value, ◌==◌, false,
  true, not, ◌&&◌, Bool, guard, any, ltb,
}
use flatimage.Text.{Text, codes, starts_with, text_eq, to_upper, enum_from_string}
use flatimage.Text.Joined.{join, AllWords, IsWord, split-join}
use flatimage.Parser.Filled.{insert_each-map}
use flatimage.Parser.Desktop
use flatimage.Parser.Recipe
use flatimage.Parser.Command.{
  parse, returned, fim_command_from_string, CmdType, desktop_cmd, recipe_cmd,
}
use flatimage.Parser.Words.{
  item_name, desktop_words, AllItems, DesktopItems, recipe_words, RecipeNames,
}
use flatimage.Parser.Args.{insert_each, popped, proceed, pure, none_left, ◌>>◌}

recipes_read :
    (rs : List Text)
    → 0 < length rs
    → AllWords rs
    → Recipe.parse_recipes (join rs ∷ []) ≡ ok (rs, [])
unfolding Recipe.parse_recipes
recipes_read [] n h = elim n [ ]
recipes_read (r ∷ rs) n h =
    ap
      (λ words.
        proceed (popped (guard (not (length words == 0)) "Recipe argument is empty") [])
          (λ u. pure words))
      (split-join (r ∷ rs) h)
    ∙ ap (λ b. proceed (popped (guard (not b) "Recipe argument is empty") []) (λ u. pure (r ∷ rs)))
        (let e : (suc (length rs) == 0) ≡ false = ground arith in e)

abbrev with_recipes : (List Text → Recipe.CmdRecipe) → Value (List Text × List Text) → Value CmdType
with_recipes cmd v =
    returned
      (proceed (proceed (relabel v "Invalid recipes") (λ recipes. pure (cmd recipes)))
        (λ cmd_recipe. none_left "Trailing arguments for fim-recipe: {}" >> pure cmd_recipe))
      recipe_cmd

-- Every fim-recipe command of one or more recipe names (none empty or with a comma) is read back.
pub parse-recipe_words :
    (argv0 : Text) (c : Recipe.CmdRecipe)
    → RecipeNames c
    → parse (argv0 ∷ codes "fim-recipe" ∷ recipe_words c) ≡ ok (recipe_cmd c)
unfolding parse fim_command_from_string starts_with text_eq to_upper enum_from_string
    Recipe.parse_recipe
parse-recipe_words argv0 (Recipe.fetch rs) h =
    ap (with_recipes Recipe.fetch) (recipes_read rs h.0 h.1)
parse-recipe_words argv0 (Recipe.info rs) h =
    ap (with_recipes Recipe.info) (recipes_read rs h.0 h.1)
parse-recipe_words argv0 (Recipe.install rs) h =
    ap (with_recipes Recipe.install) (recipes_read rs h.0 h.1)

items_words : (is : List Desktop.IntegrationItem) → AllWords (map item_name is)
items_words [] = tt
items_words (i ∷ is) = (item_word i, items_words is)
  where
    item_word : (i : Desktop.IntegrationItem) → IsWord (item_name i)
    item_word Desktop.entry_item = ground arith
    item_word Desktop.mimetype_item = ground arith
    item_word Desktop.icon_item = ground arith
    item_word Desktop.none_item = ground arith

pub item_named :
    (i : Desktop.IntegrationItem) → enum_from_string Desktop.item_entries (item_name i) ≡ ok i
unfolding enum_from_string text_eq to_upper
item_named Desktop.entry_item = refl
item_named Desktop.mimetype_item = refl
item_named Desktop.icon_item = refl
item_named Desktop.none_item = refl

any_none :
    (is : List Desktop.IntegrationItem) → AllItems is → any (λ i. Desktop.ordinal i == 3) is ≡ false
any_none [] h = refl
any_none (i ∷ is) h = ground (arith, any_none is h.1, h.0)

and_false : (b : Bool) → (b && false) ≡ false
and_false true = refl
and_false false = refl

abbrev with_items : Value (List Desktop.IntegrationItem) → Value CmdType
with_items v =
    returned
      (proceed
        (proceed (popped v []) λ set_enable.
          popped (
            guard (not (ltb 1 (length set_enable) && any (λ i. Desktop.ordinal i == 3) set_enable))
              "'none' option should not be used with others")
          >> pure (Desktop.enable set_enable))
        (λ cmd. none_left "Trailing arguments for fim-desktop: {}" >> pure cmd))
      desktop_cmd

-- Every fim-desktop command, the items to enable a set without NONE, is read back.
pub parse-desktop_words :
    (argv0 : Text) (c : Desktop.CmdDesktop)
    → DesktopItems c
    → parse (argv0 ∷ codes "fim-desktop" ∷ desktop_words c) ≡ ok (desktop_cmd c)
unfolding parse fim_command_from_string starts_with text_eq to_upper enum_from_string
    Desktop.parse_desktop
parse-desktop_words argv0 Desktop.clean h = refl
parse-desktop_words argv0 (Desktop.dump (Desktop.icon path)) h = refl
parse-desktop_words argv0 (Desktop.dump Desktop.entry) h = refl
parse-desktop_words argv0 (Desktop.dump Desktop.mimetype) h = refl
parse-desktop_words argv0 (Desktop.setup path) h = refl
parse-desktop_words argv0 (Desktop.enable items) h =
    ap
      (λ words.
        with_items
          (insert_each Desktop.ordinal Desktop.item_entries "Invalid integration item" [] words))
      (split-join (map item_name items) (items_words items))
    ∙ ap with_items (
        insert_each-map Desktop.ordinal Desktop.item_entries item_name "Invalid integration item"
          item_named 0 [] items tt h.0)
    ∙ ap
        (λ b.
          returned
            (proceed
              (proceed (popped (guard (not b) "'none' option should not be used with others") [])
                λ u. pure (Desktop.enable items))
              (λ cmd. none_left "Trailing arguments for fim-desktop: {}" >> pure cmd))
            desktop_cmd)
        (ap (λ b. ltb 1 (length items) && b) (any_none items h.1)
          ∙ and_false (ltb 1 (length items)))
