-- ===== src/Executor/Sandbox.antt =====
-- src/parser/executor.hpp: f_bwrap_impl, which starts a program in the sandbox with what the image's
-- reserved space says. Waiting, mounting and the start of the portal are the host's.
pub mod Granted
pub mod Prepared
pub mod Unchanged
use flatimage.Base.{
  ℕ, ◌≡◌, refl, Bool, true, false, ◌&&◌, not, if◌then◌else◌, all, Option, none, some, Value, ok,
  err, relabel, List, [], ◌∷◌, ◌++◌,
}
use flatimage.Base.Io.{File}
use flatimage.Base.Run
use flatimage.Base.Run.{Run, pure, ◌>>=◌, ◌>>◌}
use flatimage.Bytes.{Bytes}
use flatimage.Json.{JsonLibrary}
use flatimage.Text.{Text, codes}
use flatimage.Reserved.Layout.{IsImage}
use flatimage.Reserved.Small.{OverlayType, bwrap}
use flatimage.Flags.{member, contains}
use flatimage.Flags.Laws.{is_proper}
use flatimage.Flags.Permission as Permissions
use flatimage.Flags.Permission.{Permission, permissions_class}
use flatimage.Flags.Unshare.{Unshare, unshares_class}
use flatimage.Bindings.{Bind}
use flatimage.Bindings.Database.{db_read}
use flatimage.Db.Env
use flatimage.Db.Portal.{host}
use flatimage.Db.Portal.Dispatcher as OfDispatcher
use flatimage.Db.Portal.Daemon as OfDaemon
use flatimage.Db.Portal.Daemon.Logs as OfLogs
use flatimage.Parser.Command.{perms_cmd}
use flatimage.Parser.Filled.{Ascending}
use flatimage.Parser.Perms as Perms
use flatimage.Parser.Words.{words}
use flatimage.Executor.Line.{Rest, execute_command, contains-set_line}
use flatimage.Bwrap.{
  Host, Overlay, UserData, Bwrap, construct, set_overlay, with_bind_ro, with_binds,
}
use flatimage.Bwrap.Permissions.{with_bind_gpu}
use flatimage.Bwrap.Start.{Programs, Command, when, run}

-- Of the configuration `fim` and of the steps that the host takes: where fusermount3 is found, whether
-- the data directory comes free, and the user.
pub record Config : Type 0 where
  pub fusermount : Value Text
  pub wait_busy : Value (Unit {0})
  pub user : Value UserData
  pub is_casefold : Bool
  pub overlay_type : OverlayType
  pub path_dir_ciopfs : Text
  pub path_dir_mount : Text
  pub overlay : Overlay
  pub runtime_host : Text
  pub pid : ℕ
  pub path_dir_app : Text
  pub path_dir_log : Text
  pub portal_daemon : Text
  pub daemon_guest : OfDaemon.Daemon
  pub logs_guest : OfLogs.Logs

abbrev pub is_bwrap : OverlayType → Bool
is_bwrap bwrap = true
is_bwrap _ = false

unfoldable pub root_dir : Config → Text
root_dir fim =
    if fim.is_casefold && not (is_bwrap fim.overlay_type)
    then fim.path_dir_ciopfs
    else fim.path_dir_mount

-- The permissions and the unshare options that the image has.
abbrev pub permitted : ℕ → File → Permission → Bool
permitted base file p = contains permissions_class base p file

abbrev pub unshared : ℕ → File → Unshare → Bool
unshared base file u = contains unshares_class base u file

-- The sandbox before its start.
unfoldable pub prepare :
    Host
    → Config
    → (Permission → Bool)
    → UserData
    → List Bind
    → Text
    → List Text
    → List Text
    → Bwrap
prepare machine fim has user binds program args environment =
    let b1 = construct machine user (root_dir fim) program args environment in
    let b2 = when (is_bwrap fim.overlay_type) (set_overlay fim.overlay) b1 in
    let b3 = with_binds machine binds (with_bind_ro (codes "/") fim.runtime_host b2) in
    when (has Permissions.gpu) (with_bind_gpu machine) b3

module _ (lib : JsonLibrary) where
  -- or_default
  unfoldable pub or_empty : Option (Value (List Text) × File) → Option (Value (List Text))
  or_empty none = none
  or_empty (some (ok vs, file)) = some (ok vs)
  or_empty (some (err e, file)) = some (ok [])

  unfoldable pub f_bwrap_impl : Host → Programs → Config → ℕ → Text → List Text → Run File Command
  unfolding or_empty
  f_bwrap_impl machine programs fim base program args = do
    fusermount ← Run.lift (relabel fim.fusermount "Could not find 'fusermount3'")
    Run.lift fim.wait_busy
    environment ← Run.looks (λ file. or_empty (Env.get lib machine.expand base file))
    user ← Run.lift fim.user
    binds ← Run.relabelled (db_read lib base) "Failed to configure bindings"
    Run.looks (λ file. Run.outcome (
        run lib machine programs (permitted base file) (unshared base file) fim.portal_daemon
          (OfDispatcher.dispatcher fim.pid host fim.path_dir_app fim.path_dir_log) fim.daemon_guest
          fim.logs_guest
          (prepare machine fim (permitted base file) user binds program args environment)))
