-- ===== src/Executor/Line.antt =====
-- src/parser/executor.hpp: execute_command from the command line on. What it does for the commands
-- that work outside of the reserved space is a parameter.
use flatimage.Base.{ℕ, ◌≡◌, refl, true, ◌&&◌, all, some, Value, ok, relabel, List, [], ◌∷◌}
use flatimage.Base.Io.{File}
use flatimage.Base.Run
use flatimage.Base.Run.{Run, pure, ◌>>=◌}
use flatimage.Bytes.{Bytes}
use flatimage.Json.{JsonLibrary}
use flatimage.Text.{Text}
use flatimage.Reserved.Layout.{IsImage}
use flatimage.Reserved.Small.{OverlayType}
use flatimage.Flags.{member, contains}
use flatimage.Flags.Laws.{is_proper}
use flatimage.Flags
use flatimage.Flags.Contract
use flatimage.Flags.Refine.{FlagsAfter}
use flatimage.Flags.Permission.{Permission, permissions_class}
use flatimage.Flags.Permission as Permissions
use flatimage.Flags.Permission.Lawful.{permissions_class_laws}
use flatimage.Parser.Command.{
  CmdType, perms_cmd, env_cmd, bind_cmd, notify_cmd, casefold_cmd, boot_cmd, remote_cmd,
  overlay_cmd, unshare_cmd, parse,
}
use flatimage.Parser.Filled.{Ascending}
use flatimage.Parser.Perms as Perms
use flatimage.Parser.Words.{words}
use flatimage.Parser.RoundTrip.{parse-words}
use flatimage.Executor.{
  quietly, execute_perms, execute_env, execute_bind, execute_notify, execute_casefold, execute_boot,
  execute_remote, execute_overlay, execute_unshare,
}

-- The host's part: what expands a variable, the mounted overlay type, and the other commands.
pub record Rest : Type 0 where
  pub expand : Text → Value Text
  pub mounted : OverlayType
  pub other : CmdType → Run File (List Text)

module _ (lib : JsonLibrary) (rest : Rest) (base : ℕ) where
  -- The chain of std::get_if.
  unfoldable pub execute : CmdType → Run File (List Text)
  execute (perms_cmd c) = execute_perms base c
  execute (env_cmd c) = execute_env lib rest.expand base c
  execute (bind_cmd c) = execute_bind lib base c
  execute (notify_cmd c) = execute_notify base c
  execute (casefold_cmd c) = execute_casefold base c
  execute (boot_cmd c) = execute_boot lib base c
  execute (remote_cmd c) = execute_remote lib base c
  execute (overlay_cmd c) = execute_overlay base rest.mounted c
  execute (unshare_cmd c) = execute_unshare base c
  execute c = rest.other c

  unfoldable pub execute_command : List Text → Run File (List Text)
  execute_command argv = do
    variant_cmd ← Run.lift (relabel (parse argv) "Could not parse arguments")
    execute variant_cmd

  -- The command line `fim-perms set` and the image that it leaves.
  pub set_line-done :
      (argv0 : Text) (ps : List Permission) (f : Bytes)
      → Ascending Permissions.ordinal 0 ps
      → (after : FlagsAfter permissions_class base f
          (member permissions_class ps)
          (Flags.set permissions_class base ps (some f)))
      → execute_command (argv0 ∷ words (perms_cmd (Perms.set ps))) (some f)
        ≡ some (ok [], some after.g)
  unfolding execute_command execute execute_perms quietly
  set_line-done argv0 ps f ordered after =
      rw (parse-words argv0 (perms_cmd (Perms.set ps)) ordered, after.done) refl

  -- On an image, for permissions in their order without ALL and NONE, the command line
  -- `fim-perms set` with their names, separated by commas, succeeds and prints nothing, and afterwards
  -- the image contains exactly these permissions.
  pub contains-set_line :
      (argv0 : Text) (ps : List Permission) (f : Bytes)
      → IsImage base f
      → Ascending Permissions.ordinal 0 ps
      → all (is_proper permissions_class) ps ≡ true
      → (g : Bytes) × (execute_command (argv0 ∷ words (perms_cmd (Perms.set ps))) (some f)
          ≡ some (ok [], some g))
        × IsImage base g
        × ((p : Permission)
            → contains permissions_class base p (some g)
              ≡ (is_proper permissions_class p && member permissions_class ps p))
  contains-set_line argv0 ps f image ordered proper =
      let after =
        Contract.set_lem permissions_class permissions_class_laws base f ps image proper in
      (after.g, set_line-done argv0 ps f ordered after, after.image, after.flags)
