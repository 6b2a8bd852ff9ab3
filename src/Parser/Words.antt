-- ===== src/Parser/Words.antt =====
-- Command lines for the commands: a description of what `parse` reads, independent of its code.
use flatimage.Base.{◌<◌, ◌^◌, List, [], ◌∷◌, map, length}
use flatimage.Text.{Text, codes}
use flatimage.Text.Joined.{join, AllWords}
use flatimage.Parser.Filled.{Ascending, digits}
use flatimage.Reserved.Small.{bwrap, overlayfs, unionfs, none_type}
use flatimage.Parser.Perms
use flatimage.Parser.Env
use flatimage.Parser.Desktop
use flatimage.Parser.Layer
use flatimage.Parser.Bind
use flatimage.Parser.Switches
use flatimage.Parser.Boot
use flatimage.Parser.Remote
use flatimage.Parser.Recipe
use flatimage.Parser.Instance
use flatimage.Parser.Overlay
use flatimage.Parser.Unshare
use flatimage.Parser.Version
use flatimage.Parser.Command.{
  CmdType, root_cmd, exec_cmd, perms_cmd, env_cmd, desktop_cmd, layer_cmd, bind_cmd, notify_cmd,
  casefold_cmd, boot_cmd, remote_cmd, recipe_cmd, instance_cmd, overlay_cmd, unshare_cmd,
  version_cmd, none_cmd, exit_cmd,
}
use flatimage.Flags.Permission
use flatimage.Flags.Unshare as Shares

abbrev pub perms_words : Perms.CmdPerms → List Text
perms_words (Perms.add ps) = codes "add" ∷ join (map Permission.name ps) ∷ []
perms_words Perms.clear = codes "clear" ∷ []
perms_words (Perms.del ps) = codes "del" ∷ join (map Permission.name ps) ∷ []
perms_words Perms.list = codes "list" ∷ []
perms_words (Perms.set ps) = codes "set" ∷ join (map Permission.name ps) ∷ []

-- A std::set of permissions is in its order.
abbrev pub PermsSet : Perms.CmdPerms → Type 0
PermsSet (Perms.add ps) = Ascending Permission.ordinal 0 ps
PermsSet (Perms.del ps) = Ascending Permission.ordinal 0 ps
PermsSet (Perms.set ps) = Ascending Permission.ordinal 0 ps
PermsSet _ = Unit

abbrev pub unshare_words : Unshare.CmdUnshare → List Text
unshare_words (Unshare.add us) = codes "add" ∷ join (map Shares.name us) ∷ []
unshare_words Unshare.clear = codes "clear" ∷ []
unshare_words (Unshare.del us) = codes "del" ∷ join (map Shares.name us) ∷ []
unshare_words Unshare.list = codes "list" ∷ []
unshare_words (Unshare.set us) = codes "set" ∷ join (map Shares.name us) ∷ []

abbrev pub UnshareSet : Unshare.CmdUnshare → Type 0
UnshareSet (Unshare.add us) = Ascending Shares.ordinal 0 us
UnshareSet (Unshare.del us) = Ascending Shares.ordinal 0 us
UnshareSet (Unshare.set us) = Ascending Shares.ordinal 0 us
UnshareSet _ = Unit

abbrev pub env_words : Env.CmdEnv → List Text
env_words (Env.add vs) = codes "add" ∷ vs
env_words Env.clear = codes "clear" ∷ []
env_words (Env.del vs) = codes "del" ∷ vs
env_words Env.list = codes "list" ∷ []
env_words (Env.set vs) = codes "set" ∷ vs

-- There is at least one variable.
abbrev pub EnvSome : Env.CmdEnv → Type 0
EnvSome (Env.add vs) = 0 < length vs
EnvSome (Env.del vs) = 0 < length vs
EnvSome (Env.set vs) = 0 < length vs
EnvSome _ = Unit

abbrev pub item_name : Desktop.IntegrationItem → Text
item_name Desktop.entry_item = codes "ENTRY"
item_name Desktop.mimetype_item = codes "MIMETYPE"
item_name Desktop.icon_item = codes "ICON"
item_name Desktop.none_item = codes "NONE"

abbrev pub desktop_words : Desktop.CmdDesktop → List Text
desktop_words Desktop.clean = codes "clean" ∷ []
desktop_words (Desktop.dump (Desktop.icon path)) = codes "dump" ∷ codes "icon" ∷ path ∷ []
desktop_words (Desktop.dump Desktop.entry) = codes "dump" ∷ codes "entry" ∷ []
desktop_words (Desktop.dump Desktop.mimetype) = codes "dump" ∷ codes "mimetype" ∷ []
desktop_words (Desktop.enable items) = codes "enable" ∷ join (map item_name items) ∷ []
desktop_words (Desktop.setup path) = codes "setup" ∷ path ∷ []

-- NONE stands alone: the other items are those below it.
abbrev pub AllItems : List Desktop.IntegrationItem → Type 0
AllItems [] = Unit
AllItems (i ∷ is) = (Desktop.ordinal i < 3) × AllItems is

-- The items to enable are a set, in its order, without NONE.
abbrev pub DesktopItems : Desktop.CmdDesktop → Type 0
DesktopItems (Desktop.enable items) = Ascending Desktop.ordinal 0 items × AllItems items
DesktopItems _ = Unit

abbrev pub layer_words : Layer.CmdLayer → List Text
layer_words (Layer.add path) = codes "add" ∷ path ∷ []
layer_words (Layer.commit Layer.binary) = codes "commit" ∷ codes "binary" ∷ []
layer_words (Layer.commit Layer.layer) = codes "commit" ∷ codes "layer" ∷ []
layer_words (Layer.commit (Layer.file path)) = codes "commit" ∷ codes "file" ∷ path ∷ []
layer_words (Layer.create dir path) = codes "create" ∷ dir ∷ path ∷ []
layer_words Layer.list = codes "list" ∷ []

abbrev pub type_word : Bind.BindType → Text
type_word Bind.ro = codes "ro"
type_word Bind.rw = codes "rw"
type_word Bind.dev = codes "dev"
type_word Bind.none_type = codes "none"

abbrev pub bind_words : Bind.CmdBind → List Text
bind_words (Bind.add type src dst) = codes "add" ∷ type_word type ∷ src ∷ dst ∷ []
bind_words (Bind.del index) = codes "del" ∷ digits 20 index ∷ []
bind_words Bind.list = codes "list" ∷ []

-- The index is a uint64_t.
abbrev pub BindFits : Bind.CmdBind → Type 0
BindFits (Bind.del index) = index < 2 ^ 64
BindFits _ = Unit

abbrev pub notify_words : Switches.CmdNotify → List Text
notify_words (Switches.notify Switches.on_notify) = codes "on" ∷ []
notify_words (Switches.notify Switches.off_notify) = codes "off" ∷ []
notify_words (Switches.notify Switches.no_notify) = codes "none" ∷ []

abbrev pub casefold_words : Switches.CmdCaseFold → List Text
casefold_words (Switches.casefold Switches.on_fold) = codes "on" ∷ []
casefold_words (Switches.casefold Switches.off_fold) = codes "off" ∷ []
casefold_words (Switches.casefold Switches.no_fold) = codes "none" ∷ []

abbrev pub boot_words : Boot.CmdBoot → List Text
boot_words Boot.clear = codes "clear" ∷ []
boot_words (Boot.set program args) = codes "set" ∷ program ∷ args
boot_words Boot.show = codes "show" ∷ []

abbrev pub remote_words : Remote.CmdRemote → List Text
remote_words Remote.clear = codes "clear" ∷ []
remote_words (Remote.set url) = codes "set" ∷ url ∷ []
remote_words Remote.show = codes "show" ∷ []

abbrev pub recipe_words : Recipe.CmdRecipe → List Text
recipe_words (Recipe.fetch rs) = codes "fetch" ∷ join rs ∷ []
recipe_words (Recipe.info rs) = codes "info" ∷ join rs ∷ []
recipe_words (Recipe.install rs) = codes "install" ∷ join rs ∷ []

-- There is a recipe, and no recipe is empty or has a comma.
abbrev pub RecipeNames : Recipe.CmdRecipe → Type 0
RecipeNames (Recipe.fetch rs) = (0 < length rs) × AllWords rs
RecipeNames (Recipe.info rs) = (0 < length rs) × AllWords rs
RecipeNames (Recipe.install rs) = (0 < length rs) × AllWords rs

abbrev pub instance_words : Instance.CmdInstance → List Text
instance_words (Instance.exec id args) = codes "exec" ∷ digits 10 id ∷ args
instance_words Instance.list = codes "list" ∷ []

-- The identifier is an int32_t, and there is a command.
abbrev pub InstanceFits : Instance.CmdInstance → Type 0
InstanceFits (Instance.exec id args) = (id < 2 ^ 31) × (0 < length args)
InstanceFits Instance.list = Unit

abbrev pub overlay_words : Overlay.CmdOverlay → List Text
overlay_words (Overlay.set bwrap) = codes "set" ∷ codes "bwrap" ∷ []
overlay_words (Overlay.set overlayfs) = codes "set" ∷ codes "overlayfs" ∷ []
overlay_words (Overlay.set unionfs) = codes "set" ∷ codes "unionfs" ∷ []
overlay_words (Overlay.set none_type) = codes "set" ∷ codes "none" ∷ []
overlay_words Overlay.show = codes "show" ∷ []

abbrev pub version_words : Version.CmdVersion → List Text
version_words Version.short = codes "short" ∷ []
version_words Version.full = codes "full" ∷ []
version_words Version.deps = codes "deps" ∷ []

-- The arguments of the program for a command.
abbrev pub words : CmdType → List Text
words (root_cmd program args) = codes "fim-root" ∷ program ∷ args
words (exec_cmd program args) = codes "fim-exec" ∷ program ∷ args
words (perms_cmd c) = codes "fim-perms" ∷ perms_words c
words (env_cmd c) = codes "fim-env" ∷ env_words c
words (desktop_cmd c) = codes "fim-desktop" ∷ desktop_words c
words (layer_cmd c) = codes "fim-layer" ∷ layer_words c
words (bind_cmd c) = codes "fim-bind" ∷ bind_words c
words (notify_cmd c) = codes "fim-notify" ∷ notify_words c
words (casefold_cmd c) = codes "fim-casefold" ∷ casefold_words c
words (boot_cmd c) = codes "fim-boot" ∷ boot_words c
words (remote_cmd c) = codes "fim-remote" ∷ remote_words c
words (recipe_cmd c) = codes "fim-recipe" ∷ recipe_words c
words (instance_cmd c) = codes "fim-instance" ∷ instance_words c
words (overlay_cmd c) = codes "fim-overlay" ∷ overlay_words c
words (unshare_cmd c) = codes "fim-unshare" ∷ unshare_words c
words (version_cmd c) = codes "fim-version" ∷ version_words c
words none_cmd = []
words exit_cmd = codes "fim-help" ∷ []

-- What the types of the commands have by construction, and what a command line cannot say: a list of
-- no variables, of no recipes, or of no command words, and a recipe name that is empty or has a comma.
abbrev pub Sayable : CmdType → Type 0
Sayable (perms_cmd c) = PermsSet c
Sayable (env_cmd c) = EnvSome c
Sayable (desktop_cmd c) = DesktopItems c
Sayable (bind_cmd c) = BindFits c
Sayable (recipe_cmd c) = RecipeNames c
Sayable (instance_cmd c) = InstanceFits c
Sayable (unshare_cmd c) = UnshareSet c
Sayable _ = Unit
