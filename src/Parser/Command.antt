-- ===== src/Parser/Command.antt =====
-- FimCommand, CmdType and `parse` of src/parser/parser.hpp.
use flatimage.Base.{any, List, [], ◌∷◌, if◌then◌else◌, Value, ok, err, ◌>>=◌, relabel, String}
use flatimage.Text.{Text, codes, starts_with, text_eq}
use flatimage.Parser.Perms.{CmdPerms, parse_perms}
use flatimage.Parser.Env.{CmdEnv, parse_env}
use flatimage.Parser.Desktop.{CmdDesktop, parse_desktop}
use flatimage.Parser.Layer.{CmdLayer, parse_layer}
use flatimage.Parser.Bind.{CmdBind, parse_bind}
use flatimage.Parser.Switches.{CmdNotify, parse_notify, CmdCaseFold, parse_casefold}
use flatimage.Parser.Boot.{CmdBoot, parse_boot}
use flatimage.Parser.Remote.{CmdRemote, parse_remote}
use flatimage.Parser.Recipe.{CmdRecipe, parse_recipe}
use flatimage.Parser.Instance.{CmdInstance, parse_instance}
use flatimage.Parser.Overlay.{CmdOverlay, parse_overlay}
use flatimage.Parser.Unshare.{CmdUnshare, parse_unshare}
use flatimage.Parser.Version.{CmdVersion, parse_version}

pub data FimCommand : Type 0 where
  none_command exec_command root_command perms_command env_command desktop_command layer_command
        bind_command notify_command casefold_command boot_command remote_command recipe_command
        instance_command overlay_command unshare_command version_command help_command :
      FimCommand

-- The comparisons of fim_command_from_string, in their order.
abbrev pub commands : List (Text × FimCommand)
commands =
    (codes "fim-bind", bind_command)
    ∷ (codes "fim-boot", boot_command)
    ∷ (codes "fim-casefold", casefold_command)
    ∷ (codes "fim-desktop", desktop_command)
    ∷ (codes "fim-env", env_command)
    ∷ (codes "fim-exec", exec_command)
    ∷ (codes "fim-help", help_command)
    ∷ (codes "fim-instance", instance_command)
    ∷ (codes "fim-layer", layer_command)
    ∷ (codes "fim-notify", notify_command)
    ∷ (codes "fim-overlay", overlay_command)
    ∷ (codes "fim-perms", perms_command)
    ∷ (codes "fim-recipe", recipe_command)
    ∷ (codes "fim-remote", remote_command)
    ∷ (codes "fim-root", root_command)
    ∷ (codes "fim-unshare", unshare_command)
    ∷ (codes "fim-version", version_command)
    ∷ []

find_command : List (Text × FimCommand) → Text → Value FimCommand
find_command [] str = err "Unknown command: {}"
find_command ((word, command) ∷ rest) str =
    if text_eq str word then ok command else find_command rest str

unfoldable pub fim_command_from_string : Text → Value FimCommand
unfolding find_command
fim_command_from_string str = find_command commands str

-- The variant CmdType. CmdRoot and CmdExec are a program and its arguments.
pub data CmdType : Type 0 where
  root_cmd : Text → List Text → CmdType
  exec_cmd : Text → List Text → CmdType
  perms_cmd : CmdPerms → CmdType
  env_cmd : CmdEnv → CmdType
  desktop_cmd : CmdDesktop → CmdType
  layer_cmd : CmdLayer → CmdType
  bind_cmd : CmdBind → CmdType
  notify_cmd : CmdNotify → CmdType
  casefold_cmd : CmdCaseFold → CmdType
  boot_cmd : CmdBoot → CmdType
  remote_cmd : CmdRemote → CmdType
  recipe_cmd : CmdRecipe → CmdType
  instance_cmd : CmdInstance → CmdType
  overlay_cmd : CmdOverlay → CmdType
  unshare_cmd : CmdUnshare → CmdType
  version_cmd : CmdVersion → CmdType
  none_cmd exit_cmd : CmdType

-- The topics of the case HELP, whose texts are printed and not modelled.
abbrev pub topics : List Text
topics =
    codes "bind"
    ∷ codes "boot"
    ∷ codes "casefold"
    ∷ codes "desktop"
    ∷ codes "env"
    ∷ codes "exec"
    ∷ codes "instance"
    ∷ codes "layer"
    ∷ codes "notify"
    ∷ codes "overlay"
    ∷ codes "perms"
    ∷ codes "recipe"
    ∷ codes "remote"
    ∷ codes "root"
    ∷ codes "unshare"
    ∷ codes "version"
    ∷ []

-- The case HELP, which looks at one argument and not at what follows it.
unfoldable pub parse_help : List Text → Value CmdType
parse_help [] = ok exit_cmd
parse_help (help_topic ∷ args) =
    if any (text_eq help_topic) topics
    then ok exit_cmd
    else err "Invalid argument for help command: {}"

module _ {ℓ} {A : Type ℓ} where
  -- The command that a case returns, without the arguments it has left.
  abbrev pub returned : Value (A × List Text) → (A → CmdType) → Value CmdType
  returned (ok (a, args)) f = ok (f a)
  returned (err e) f = err e

-- The cases EXEC and ROOT: a program, and all that is left as its arguments.
abbrev pub program_with : (Text → List Text → CmdType) → String → List Text → Value CmdType
program_with cmd e [] = err e
program_with cmd e (program ∷ args) = ok (cmd program args)

-- The switch of parse
abbrev pub parse_case : FimCommand → List Text → Value CmdType
parse_case exec_command args =
    program_with exec_cmd "Incorrect number of arguments for fim-exec" args
parse_case root_command args =
    program_with root_cmd "Incorrect number of arguments for fim-root" args
parse_case perms_command args = returned (parse_perms args) perms_cmd
parse_case env_command args = returned (parse_env args) env_cmd
parse_case desktop_command args = returned (parse_desktop args) desktop_cmd
parse_case layer_command args = returned (parse_layer args) layer_cmd
parse_case bind_command args = returned (parse_bind args) bind_cmd
parse_case notify_command args = returned (parse_notify args) notify_cmd
parse_case casefold_command args = returned (parse_casefold args) casefold_cmd
parse_case boot_command args = returned (parse_boot args) boot_cmd
parse_case remote_command args = returned (parse_remote args) remote_cmd
parse_case recipe_command args = returned (parse_recipe args) recipe_cmd
parse_case instance_command args = returned (parse_instance args) instance_cmd
parse_case overlay_command args = returned (parse_overlay args) overlay_cmd
parse_case unshare_command args = returned (parse_unshare args) unshare_cmd
parse_case version_command args = returned (parse_version args) version_cmd
parse_case help_command args = parse_help args
parse_case none_command args = err "Unknown command"

-- `parse` of the argument vector, the name of the program in front.
unfoldable pub parse : List Text → Value CmdType
parse (argv0 ∷ cmd_str ∷ args) =
    if starts_with cmd_str (codes "fim-")
    then ((relabel (fim_command_from_string cmd_str) "Invalid fim command") >>= λ cmd.
        parse_case cmd args)
    else ok none_cmd
parse _ = ok none_cmd
