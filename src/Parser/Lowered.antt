-- ===== src/Parser/Lowered.antt =====
-- The operation behind a command is read without regard to case.
use flatimage.Base.{◌≡◌, ap, List, ◌∷◌, map, relabel, String, Bool, true, false}
use flatimage.Text.{Text, to_lower}
use flatimage.Text.Laws.{enum_from_string-to_lower}
use flatimage.Parser.Args.{Args, ◌>>=◌, proceed, popped, pop_enum}
use flatimage.Parser.Command.{
  FimCommand, perms_command, env_command, desktop_command, layer_command, bind_command,
  notify_command, casefold_command, boot_command, remote_command, recipe_command, instance_command,
  overlay_command, unshare_command, version_command, perms_cmd, env_cmd, desktop_cmd, layer_cmd,
  bind_cmd, notify_cmd, casefold_cmd, boot_cmd, remote_cmd, recipe_cmd, instance_cmd, overlay_cmd,
  unshare_cmd, version_cmd, exec_command, root_command, help_command, none_command, returned,
  parse_case,
}
use flatimage.Parser.Perms.{parse_perms}
use flatimage.Parser.Env.{parse_env}
use flatimage.Parser.Desktop.{parse_desktop}
use flatimage.Parser.Layer.{parse_layer}
use flatimage.Parser.Bind.{parse_bind}
use flatimage.Parser.Switches.{parse_notify}
use flatimage.Parser.Switches.{parse_casefold}
use flatimage.Parser.Boot.{parse_boot}
use flatimage.Parser.Remote.{parse_remote}
use flatimage.Parser.Recipe.{parse_recipe}
use flatimage.Parser.Instance.{parse_instance}
use flatimage.Parser.Overlay.{parse_overlay}
use flatimage.Parser.Unshare.{parse_unshare}
use flatimage.Parser.Version.{parse_version}

pop_enum-to_lower :
    {A B : Type 0} (entries : List (A × Text)) (missing invalid : String) (k : A → Args B)
    (word : Text) (args : List Text)
    → (pop_enum entries missing invalid >>= k) (map to_lower word ∷ args)
      ≡ (pop_enum entries missing invalid >>= k) (word ∷ args)
pop_enum-to_lower entries missing invalid k word args =
    ap (λ v. proceed (popped (relabel v invalid) args) k) (enum_from_string-to_lower entries word)

-- The commands whose first argument is an operation.
abbrev pub takes_operation : FimCommand → Bool
takes_operation exec_command = false
takes_operation root_command = false
takes_operation help_command = false
takes_operation none_command = false
takes_operation _ = true

perms_lowered :
    (word : Text) (args : List Text)
    → parse_perms (map to_lower word ∷ args) ≡ parse_perms (word ∷ args)
unfolding parse_perms
perms_lowered word args = pop_enum-to_lower _ "" _ _ word args

env_lowered :
    (word : Text) (args : List Text)
    → parse_env (map to_lower word ∷ args) ≡ parse_env (word ∷ args)
unfolding parse_env
env_lowered word args = pop_enum-to_lower _ "" _ _ word args

desktop_lowered :
    (word : Text) (args : List Text)
    → parse_desktop (map to_lower word ∷ args) ≡ parse_desktop (word ∷ args)
unfolding parse_desktop
desktop_lowered word args = pop_enum-to_lower _ "" _ _ word args

layer_lowered :
    (word : Text) (args : List Text)
    → parse_layer (map to_lower word ∷ args) ≡ parse_layer (word ∷ args)
unfolding parse_layer
layer_lowered word args = pop_enum-to_lower _ "" _ _ word args

bind_lowered :
    (word : Text) (args : List Text)
    → parse_bind (map to_lower word ∷ args) ≡ parse_bind (word ∷ args)
unfolding parse_bind
bind_lowered word args = pop_enum-to_lower _ "" _ _ word args

notify_lowered :
    (word : Text) (args : List Text)
    → parse_notify (map to_lower word ∷ args) ≡ parse_notify (word ∷ args)
unfolding parse_notify
notify_lowered word args = pop_enum-to_lower _ "" _ _ word args

casefold_lowered :
    (word : Text) (args : List Text)
    → parse_casefold (map to_lower word ∷ args) ≡ parse_casefold (word ∷ args)
unfolding parse_casefold
casefold_lowered word args = pop_enum-to_lower _ "" _ _ word args

boot_lowered :
    (word : Text) (args : List Text)
    → parse_boot (map to_lower word ∷ args) ≡ parse_boot (word ∷ args)
unfolding parse_boot
boot_lowered word args = pop_enum-to_lower _ "" _ _ word args

remote_lowered :
    (word : Text) (args : List Text)
    → parse_remote (map to_lower word ∷ args) ≡ parse_remote (word ∷ args)
unfolding parse_remote
remote_lowered word args = pop_enum-to_lower _ "" _ _ word args

recipe_lowered :
    (word : Text) (args : List Text)
    → parse_recipe (map to_lower word ∷ args) ≡ parse_recipe (word ∷ args)
unfolding parse_recipe
recipe_lowered word args = pop_enum-to_lower _ "" _ _ word args

instance_lowered :
    (word : Text) (args : List Text)
    → parse_instance (map to_lower word ∷ args) ≡ parse_instance (word ∷ args)
unfolding parse_instance
instance_lowered word args = pop_enum-to_lower _ "" _ _ word args

overlay_lowered :
    (word : Text) (args : List Text)
    → parse_overlay (map to_lower word ∷ args) ≡ parse_overlay (word ∷ args)
unfolding parse_overlay
overlay_lowered word args = pop_enum-to_lower _ "" _ _ word args

unshare_lowered :
    (word : Text) (args : List Text)
    → parse_unshare (map to_lower word ∷ args) ≡ parse_unshare (word ∷ args)
unfolding parse_unshare
unshare_lowered word args = pop_enum-to_lower _ "" _ _ word args

version_lowered :
    (word : Text) (args : List Text)
    → parse_version (map to_lower word ∷ args) ≡ parse_version (word ∷ args)
unfolding parse_version
version_lowered word args = pop_enum-to_lower _ "" _ _ word args

-- The first argument of every command that takes an operation may be written in lower case: `parse`
-- does the same with it, whatever follows, also where it returns an error.
pub parse_case-to_lower :
    (c : FimCommand) (word : Text) (args : List Text)
    → takes_operation c ≡ true
    → parse_case c (map to_lower word ∷ args) ≡ parse_case c (word ∷ args)
parse_case-to_lower perms_command word args h =
    ap (λ v. returned v perms_cmd) (perms_lowered word args)
parse_case-to_lower env_command word args h = ap (λ v. returned v env_cmd) (env_lowered word args)
parse_case-to_lower desktop_command word args h =
    ap (λ v. returned v desktop_cmd) (desktop_lowered word args)
parse_case-to_lower layer_command word args h =
    ap (λ v. returned v layer_cmd) (layer_lowered word args)
parse_case-to_lower bind_command word args h =
    ap (λ v. returned v bind_cmd) (bind_lowered word args)
parse_case-to_lower notify_command word args h =
    ap (λ v. returned v notify_cmd) (notify_lowered word args)
parse_case-to_lower casefold_command word args h =
    ap (λ v. returned v casefold_cmd) (casefold_lowered word args)
parse_case-to_lower boot_command word args h =
    ap (λ v. returned v boot_cmd) (boot_lowered word args)
parse_case-to_lower remote_command word args h =
    ap (λ v. returned v remote_cmd) (remote_lowered word args)
parse_case-to_lower recipe_command word args h =
    ap (λ v. returned v recipe_cmd) (recipe_lowered word args)
parse_case-to_lower instance_command word args h =
    ap (λ v. returned v instance_cmd) (instance_lowered word args)
parse_case-to_lower overlay_command word args h =
    ap (λ v. returned v overlay_cmd) (overlay_lowered word args)
parse_case-to_lower unshare_command word args h =
    ap (λ v. returned v unshare_cmd) (unshare_lowered word args)
parse_case-to_lower version_command word args h =
    ap (λ v. returned v version_cmd) (version_lowered word args)
parse_case-to_lower exec_command word args h = cc
parse_case-to_lower root_command word args h = cc
parse_case-to_lower help_command word args h = cc
parse_case-to_lower none_command word args h = cc
