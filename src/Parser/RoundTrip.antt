-- ===== src/Parser/RoundTrip.antt =====
-- `parse` reads the command lines back as the commands that they are for.
mod OfPerms
mod OfUnshare
mod OfSimple
pub mod OfLists
mod OfNumbers
use flatimage.Base.{
  ℕ, zero, suc, ◌≤◌, ◌<◌, ◌^◌, ◌≡◌, ◌≢◌, List, [], ◌∷◌, map, length, refl, ok, ap, arith, ◌∙◌,
  String, relabel, Value, ◌==◌, false, true, not, guard, all, any, ltb, inl, inr, Bool-cases,
}
use flatimage.Text.{
  Text, codes, starts_with, text_eq, to_upper, enum_from_string, from_string, split, is_digit,
}
use flatimage.Text.Joined.{join, AllWords, IsWord, NoComma, from_string-join, split-join}
use flatimage.Parser.Filled.{Ascending, digits, insert_each-map, all-digits, stou-digits}
use flatimage.Reserved.Small.{OverlayType, bwrap, overlayfs, unionfs, none_type}
use flatimage.Parser.Perms
use flatimage.Parser.Env
use flatimage.Parser.Desktop
use flatimage.Parser.Layer
use flatimage.Parser.Bind
use flatimage.Parser.Switches
use flatimage.Parser.Boot
use flatimage.Parser.Remote
use flatimage.Parser.Recipe
use flatimage.Parser.Instance
use flatimage.Parser.Overlay
use flatimage.Parser.Unshare
use flatimage.Parser.Version
use flatimage.Parser.Command.{
  parse, returned, fim_command_from_string, parse_help, CmdType, root_cmd, exec_cmd, perms_cmd,
  env_cmd, desktop_cmd, layer_cmd, bind_cmd, notify_cmd, casefold_cmd, boot_cmd, remote_cmd,
  recipe_cmd, instance_cmd, overlay_cmd, unshare_cmd, version_cmd, none_cmd, exit_cmd,
}
use flatimage.Flags.Permission
use flatimage.Flags.Unshare as Shares
use flatimage.Parser.Words.{
  perms_words, words, Sayable, PermsSet, unshare_words, UnshareSet, env_words, EnvSome, item_name,
  desktop_words, AllItems, layer_words, bind_words, BindFits, notify_words, casefold_words,
  boot_words, remote_words, recipe_words, RecipeNames, instance_words, InstanceFits, overlay_words,
  version_words,
}
use flatimage.Parser.Args.{
  insert_each, stou, insert, popped, proceed, pure, none_left, ◌>>◌, to_number,
}
use flatimage.Parser.RoundTrip.OfPerms.{parse-perms_words}
use flatimage.Parser.RoundTrip.OfUnshare.{parse-unshare_words}
use flatimage.Parser.RoundTrip.OfSimple.{
  parse-env_words, parse-layer_words, parse-notify_words, parse-casefold_words, parse-boot_words,
  parse-remote_words, parse-overlay_words, parse-version_words,
}
use flatimage.Parser.RoundTrip.OfLists.{parse-recipe_words, parse-desktop_words}
use flatimage.Parser.RoundTrip.OfNumbers.{parse-bind_words, parse-instance_words}

-- Every command of the program can be given on the command line: `parse` of the words for a command
-- returns this command. The conditions are that sets are in their order (as a std::set is) and do not
-- ask to enable NONE, that numbers fit their types, and that lists which may not be empty are not, with
-- no recipe name that is empty or has a comma.
pub parse-words : (argv0 : Text) (c : CmdType) → Sayable c → parse (argv0 ∷ words c) ≡ ok c
unfolding parse fim_command_from_string starts_with text_eq parse_help
parse-words argv0 (root_cmd program args) h = refl
parse-words argv0 (exec_cmd program args) h = refl
parse-words argv0 (perms_cmd c) h = parse-perms_words argv0 c h
parse-words argv0 (env_cmd c) h = parse-env_words argv0 c h
parse-words argv0 (desktop_cmd c) h = parse-desktop_words argv0 c h
parse-words argv0 (layer_cmd c) h = parse-layer_words argv0 c
parse-words argv0 (bind_cmd c) h = parse-bind_words argv0 c h
parse-words argv0 (notify_cmd c) h = parse-notify_words argv0 c
parse-words argv0 (casefold_cmd c) h = parse-casefold_words argv0 c
parse-words argv0 (boot_cmd c) h = parse-boot_words argv0 c
parse-words argv0 (remote_cmd c) h = parse-remote_words argv0 c
parse-words argv0 (recipe_cmd c) h = parse-recipe_words argv0 c h
parse-words argv0 (instance_cmd c) h = parse-instance_words argv0 c h
parse-words argv0 (overlay_cmd c) h = parse-overlay_words argv0 c
parse-words argv0 (unshare_cmd c) h = parse-unshare_words argv0 c h
parse-words argv0 (version_cmd c) h = parse-version_words argv0 c
parse-words argv0 none_cmd h = refl
parse-words argv0 exit_cmd h = refl
