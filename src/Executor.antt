-- ===== src/Executor.antt =====
-- src/parser/executor.hpp: the commands that execute_command carries out on the reserved space, and
-- the functions of src/parser/cmd/unshare.hpp that it calls. The value is what is printed, line by line.
pub mod Instances
pub mod Laws
pub mod Layers
pub mod Line
pub mod Sandbox
pub mod Start
use flatimage.Base.{
  ℕ, Bool, true, false, if◌then◌else◌, String, Option, none, some, Value, ok, err, List, [], ◌∷◌,
  map,
}
use flatimage.Base.Io.{File, Io}
use flatimage.Base.Run
use flatimage.Base.Run.{Run, pure, ◌>>=◌, ◌>>◌}
use flatimage.Json.{JsonLibrary}
use flatimage.Text.{Text, codes}
use flatimage.Reserved.Small.{
  notify_write, casefold_write, overlay_write, OverlayType, bwrap, overlayfs, unionfs, none_type,
}
use flatimage.Reserved.Text.{boot_write, boot_read}
use flatimage.Flags
use flatimage.Flags.Permission.{permissions_class}
use flatimage.Flags.Unshare.{unshares_class}
use flatimage.Parser.Perms as Perms
use flatimage.Parser.Env as OfEnv
use flatimage.Parser.Boot as OfBoot
use flatimage.Parser.Remote as OfRemote
use flatimage.Parser.Bind as OfBind
use flatimage.Parser.Overlay as Overlay
use flatimage.Parser.Unshare as Unshare
use flatimage.Parser.Switches.{
  CmdNotify, CmdNotifySwitch, on_notify, off_notify, no_notify, notify, CmdCaseFold,
  CmdCaseFoldSwitch, on_fold, off_fold, no_fold, casefold,
}
use flatimage.Db.Boot
use flatimage.Db.Boot.{Boot}
use flatimage.Db.Env
use flatimage.Db.Remote
use flatimage.Bindings.Database

-- Pop(step, message), with nothing printed.
quietly : String → Io (Unit {0}) → Run File (List Text)
quietly message step = do Run.relabelled (Run.does step) message; pure []

quiet : String → Run File (Unit {0}) → Run File (List Text)
quiet message step = do Run.relabelled step message; pure []

unfoldable pub execute_perms : ℕ → Perms.CmdPerms → Run File (List Text)
unfolding quietly
execute_perms base (Perms.add ps) =
    quietly "Failed to add permissions" (Flags.add permissions_class base ps)
execute_perms base Perms.clear =
    quietly "Failed to clear permissions" (Flags.set_all permissions_class base false)
execute_perms base (Perms.del ps) =
    quietly "Failed to delete permissions" (Flags.del permissions_class base ps)
execute_perms base Perms.list =
    Run.relabelled (Run.looks (λ f. some (Flags.to_strings permissions_class base f)))
      "Failed to stringfy permissions"
execute_perms base (Perms.set ps) =
    quietly "Failed to set permissions" (Flags.set permissions_class base ps)

unfoldable pub execute_unshare : ℕ → Unshare.CmdUnshare → Run File (List Text)
unfolding quietly
execute_unshare base (Unshare.set us) =
    quietly "Failed to set unshare options" (Flags.set unshares_class base us)
execute_unshare base (Unshare.add us) =
    quietly "Failed to add unshare options" (Flags.add unshares_class base us)
execute_unshare base (Unshare.del us) =
    quietly "Failed to delete unshare options" (Flags.del unshares_class base us)
execute_unshare base Unshare.clear =
    quietly "Failed to clear unshare options" (Flags.clear unshares_class base)
execute_unshare base Unshare.list =
    Run.relabelled (Run.looks (λ f. some (Flags.to_strings unshares_class base f)))
      "Failed to list unshare options"

-- A bool as the uint8_t that write takes.
abbrev is_on : CmdNotifySwitch → ℕ
is_on on_notify = 1
is_on _ = 0

abbrev folds : CmdCaseFoldSwitch → ℕ
folds on_fold = 1
folds _ = 0

unfoldable pub execute_notify : ℕ → CmdNotify → Run File (List Text)
unfolding quietly
execute_notify base (notify status) =
    quietly "Failed to write notify status" (notify_write base (is_on status))

unfoldable pub execute_casefold : ℕ → CmdCaseFold → Run File (List Text)
unfolding quietly
execute_casefold base (casefold status) =
    quietly "Failed to write casefold status" (casefold_write base (folds status))

abbrev overlay_name : OverlayType → Text
overlay_name bwrap = codes "BWRAP"
overlay_name overlayfs = codes "OVERLAYFS"
overlay_name unionfs = codes "UNIONFS"
overlay_name none_type = codes "NONE"

-- `show` prints the type of the filesystem that the start has set up.
unfoldable pub execute_overlay : ℕ → OverlayType → Overlay.CmdOverlay → Run File (List Text)
unfolding quietly
execute_overlay base mounted (Overlay.set type) =
    quietly "Failed to set overlay type" (overlay_write base type)
execute_overlay base mounted Overlay.show = pure (overlay_name mounted ∷ [])

module _ (lib : JsonLibrary) where
  unfoldable pub execute_env : (Text → Value Text) → ℕ → OfEnv.CmdEnv → Run File (List Text)
  unfolding quiet
  execute_env expand base (OfEnv.add vs) = quiet "Failed to add variables" (Env.add lib base vs)
  execute_env expand base OfEnv.clear = quiet "Failed to clear variables" (Env.set lib base [])
  execute_env expand base (OfEnv.del vs) = quiet "Failed to delete variables" (Env.del lib base vs)
  execute_env expand base OfEnv.list =
      Run.relabelled (Env.get lib expand base) "Failed to list variables"
  execute_env expand base (OfEnv.set vs) = quiet "Failed to set variables" (Env.set lib base vs)

  -- The text of a boot command.
  serialized : Boot → Run File Text
  serialized boot =
      Run.relabelled (Run.looks (λ f. Boot.serialize lib boot))
        "Failed to serialize boot configuration"

  write_boot : String → ℕ → Boot → Run File (List Text)
  unfolding serialized
  write_boot message base boot = do
    text ← serialized boot
    Run.relabelled (Run.does (boot_write base text)) message
    pure []

  -- or_default
  unfoldable pub boot_or_default : Option (Value Boot) → Option (Value Boot)
  boot_or_default none = none
  boot_or_default (some (ok boot)) = some (ok boot)
  boot_or_default (some (err e)) = some (ok record { program = []; args = [] })

  -- bash where no program was set.
  abbrev pub or_bash : Boot → Boot
  or_bash boot = record { program = program_or_bash boot.program; args = boot.args }
    where
      program_or_bash : Text → Text
      program_or_bash [] = codes "bash"
      program_or_bash (c ∷ s) = c ∷ s

  unfoldable pub execute_boot : ℕ → OfBoot.CmdBoot → Run File (List Text)
  unfolding write_boot boot_or_default serialized
  execute_boot base OfBoot.clear =
      write_boot "Failed to clear boot configuration" base record { program = []; args = [] }
  execute_boot base (OfBoot.set program args) =
      write_boot "Failed to set boot configuration" base record { program = program; args = args }
  execute_boot base OfBoot.show = do
    data_ ← Run.relabelled (Run.looks (boot_read base)) "Failed to read boot configuration"
    boot ← Run.looks (λ f. boot_or_default (Boot.deserialize lib data_))
    text ← serialized (or_bash boot)
    pure (text ∷ [])

  unfoldable pub execute_bind : ℕ → OfBind.CmdBind → Run File (List Text)
  unfolding quiet
  execute_bind base (OfBind.add type path_src path_dst) =
      quiet "Failed to add binding" (Database.add_bind lib base type path_src path_dst)
  execute_bind base (OfBind.del index) =
      quiet "Failed to delete binding" (Database.del lib base index)
  execute_bind base OfBind.list = Run.relabelled (Database.list lib base) "Failed to list bindings"

  unfoldable pub execute_remote : ℕ → OfRemote.CmdRemote → Run File (List Text)
  unfolding quiet
  execute_remote base OfRemote.clear = quiet "Failed to clear remote URL" (Remote.clear lib base)
  execute_remote base (OfRemote.set url) =
      quiet "Failed to set remote URL" (Remote.set lib base url)
  execute_remote base OfRemote.show = do
    url ← Run.relabelled (Remote.get lib base) "Failed to get remote URL"
    pure (url ∷ [])
