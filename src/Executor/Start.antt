-- ===== src/Executor/Start.antt =====
-- src/parser/executor.hpp: f_bwrap with its second try, and the commands that start the sandbox, the
-- boot command among them. The desktop integration, whose errors f_bwrap discards, is left out; the
-- process that a start creates is a parameter.
pub mod Booted
pub mod Retried
use flatimage.Base.{
  ℕ, ◌==◌, ◌&&◌, Bool, true, false, if◌then◌else◌, Value, ok, value_or, relabel, List, [], ◌∷◌,
  ◌++◌,
}
use flatimage.Base.Io.{File}
use flatimage.Base.Run
use flatimage.Base.Run.{Run, pure, ◌>>=◌}
use flatimage.Json.{JsonLibrary}
use flatimage.Text.{Text, codes}
use flatimage.Reserved.Small.{OverlayType, unionfs}
use flatimage.Reserved.Text.{boot_read}
use flatimage.Db.Boot as Boots
use flatimage.Db.Boot.{Boot}
use flatimage.Parser.Command.{CmdType, root_cmd, exec_cmd, none_cmd, parse}
use flatimage.Bwrap.{Host}
use flatimage.Bwrap.Start.{Programs, Command}
use flatimage.Executor.{boot_or_default}
use flatimage.Executor.Sandbox.{Config, is_bwrap, f_bwrap_impl}

-- The ints are their 32-bit patterns.
pub record BwrapRunRet : Type 0 where
  pub code : ℕ
  pub syscall_nr : ℕ
  pub errno_nr : ℕ

-- The configuration, with `is_root` set or not, for the first and for the second try; the number of
-- the call mount; the process; the commands that start no sandbox.
pub record Launcher : Type 0 where
  pub fim : Bool → Config
  pub again : Bool → Config
  pub sys_mount : ℕ
  pub runs : Command → Run File BwrapRunRet
  pub other : CmdType → Run File ℕ

abbrev pub with_overlay_type : OverlayType → Config → Config
with_overlay_type type fim = record fim { overlay_type = type }

-- The program of a boot command, expanded; bash where it has none.
unfoldable pub program_of : (Text → Value Text) → Text → Text
program_of expand [] = codes "bash"
program_of expand (c ∷ s) = value_or (expand (c ∷ s)) (c ∷ s)

-- argv + 1 up to argv + argc
abbrev pub from_argv : List Text → List Text
from_argv [] = []
from_argv (argv0 ∷ args) = args

module _ (lib : JsonLibrary) (machine : Host) (programs : Programs) (l : Launcher) (base : ℕ) where
  -- One try: f_bwrap_impl up to the end of the process.
  unfoldable pub attempt : Config → Text → List Text → Run File BwrapRunRet
  attempt fim program args =
      Run.relabelled
        (do command ← f_bwrap_impl lib machine programs fim base program args; l.runs command)
        "Failed to execute bwrap"

  unfoldable pub f_bwrap : Bool → Text → List Text → Run File ℕ
  f_bwrap is_root program args = do
    bwrap_run_ret ← attempt (l.fim is_root) program args
    let retry = (do
      ret ← attempt (with_overlay_type unionfs (l.again is_root)) program args
      pure ret.code) in
        if is_bwrap (Config.overlay_type (l.fim is_root)) && bwrap_run_ret.syscall_nr == l.sys_mount
        then retry
        else pure bwrap_run_ret.code

  unfoldable pub start_boot : List Text → Run File ℕ
  start_boot argv = do
    data_ ← Run.relabelled (Run.looks (boot_read base)) "Failed to read boot configuration"
    boot ← Run.looks (λ f. boot_or_default lib (Boots.deserialize lib data_))
    f_bwrap false (program_of machine.expand boot.program) (boot.args ++ from_argv argv)

  unfoldable pub start : List Text → CmdType → Run File ℕ
  start argv (exec_cmd program args) = f_bwrap false program args
  start argv (root_cmd program args) = f_bwrap true program args
  start argv none_cmd = start_boot argv
  start argv c = l.other c

  unfoldable pub start_command : List Text → Run File ℕ
  start_command argv = do
    variant_cmd ← Run.lift (relabel (parse argv) "Could not parse arguments")
    start argv variant_cmd
