-- ===== src/Bwrap/Start.antt =====
-- src/bwrap/bwrap.hpp: Bwrap::run up to the start of the sandbox, and the call of the process. The
-- searches of programs, the test of bwrap, the pipe and the portal daemon's file are given by the host.
use flatimage.Base.{ℕ, Bool, true, false, Option, none, some, Value, ok, err, List, [], ◌∷◌, ◌++◌}
use flatimage.Base.Run
use flatimage.Base.Run.{Run, pure, ◌>>=◌, ◌>>◌}
use flatimage.Json.{JsonLibrary}
use flatimage.Text.{Text, codes}
use flatimage.Text.Numbers.{to_string}
use flatimage.Db.Portal.Dispatcher as OfDispatcher
use flatimage.Db.Portal.Daemon as OfDaemon
use flatimage.Db.Portal.Daemon.Logs as OfLogs
use flatimage.Flags.Permission as Permissions
use flatimage.Flags.Unshare as Unshares
use flatimage.Bwrap.{Host, Overlay, Bwrap, push}
use flatimage.Bwrap.Permissions.{
  bind_home, bind_media, bind_audio, bind_wayland, bind_xorg, bind_dbus_user, bind_dbus_system,
  bind_udev, bind_input, bind_usb, bind_network, bind_shm, bind_optical, bind_dev, setenv,
}

abbrev pub when : Bool → (Bwrap → Bwrap) → Bwrap → Bwrap
when true step b = step b
when false step b = b

-- The permissions, in the order of the code, with `contains` of the set.
unfoldable pub bind_permissions : Host → (Permissions.Permission → Bool) → Bwrap → Bwrap
bind_permissions host has b0 =
    let b1 = when (has Permissions.home) (bind_home host) b0 in
    let b2 = when (has Permissions.media) bind_media b1 in
    let b3 = when (has Permissions.audio) bind_audio b2 in
    let b4 = when (has Permissions.wayland) (bind_wayland host) b3 in
    let b5 = when (has Permissions.xorg) (bind_xorg host) b4 in
    let b6 = when (has Permissions.dbus_user) (bind_dbus_user host) b5 in
    let b7 = when (has Permissions.dbus_system) bind_dbus_system b6 in
    let b8 = when (has Permissions.udev) bind_udev b7 in
    let b9 = when (has Permissions.input) bind_input b8 in
    let b10 = when (has Permissions.usb) bind_usb b9 in
    let b11 = when (has Permissions.network) bind_network b10 in
    let b12 = when (has Permissions.shm) bind_shm b11 in
    let b13 = when (has Permissions.optical) (bind_optical host) b12 in
    when (has Permissions.dev) bind_dev b13

unfoldable pub unshare_namespaces : (Unshares.Unshare → Bool) → Bwrap → Bwrap
unshare_namespaces has b0 =
    let b1 = when (has Unshares.user) (push (codes "--unshare-user-try" ∷ [])) b0 in
    let b2 = when (has Unshares.ipc) (push (codes "--unshare-ipc" ∷ [])) b1 in
    let b3 = when (has Unshares.pid) (push (codes "--unshare-pid" ∷ [])) b2 in
    let b4 = when (has Unshares.net) (push (codes "--unshare-net" ∷ [])) b3 in
    let b5 = when (has Unshares.uts) (push (codes "--unshare-uts" ∷ [])) b4 in
    when (has Unshares.cgroup) (push (codes "--unshare-cgroup-try" ∷ [])) b5

-- Insertion at the front of m_args.
unfoldable pub push_front : List Text → Bwrap → Bwrap
push_front more b = record {
  path_file_program = b.path_file_program;
  program_args = b.program_args;
  program_env = b.program_env;
  overlay = b.overlay;
  path_dir_root = b.path_dir_root;
  path_dir_xdg_runtime = b.path_dir_xdg_runtime;
  args = more ++ b.args;
  is_root = b.is_root;
}

unfoldable pub overlay_args : List Text → Overlay → List Text
overlay_args [] o = codes "--overlay" ∷ o.upper ∷ o.work ∷ codes "/" ∷ []
overlay_args (layer ∷ layers) o = codes "--overlay-src" ∷ layer ∷ overlay_args layers o

-- Bwrap::overlay
unfoldable pub overlay : Overlay → Bwrap → Bwrap
overlay o = push_front (overlay_args o.layers o)

-- The `if` on m_overlay.
unfoldable pub mount_root : Bwrap → Bwrap
mount_root b = elim b.overlay [
  | some o ↦ overlay o b
  | none ↦ push_front (codes "--bind" ∷ b.path_dir_root ∷ codes "/" ∷ []) b
]

-- What search_path finds for bash, the bwrap that test_and_setup settles on for what it finds for
-- bwrap, the descriptor of the pipe, and whether the daemon's file exists.
pub record Programs : Type 0 where
  pub bash : Value Text
  pub bwrap : Value Text
  pub test_and_setup : Text → Value Text
  pub pipe : Value ℕ
  pub daemon_exists : Value Bool

-- The process that run starts, with its arguments and its environment.
pub record Command : Type 0 where
  pub program : Text
  pub arguments : List Text
  pub environment : List Text

unfoldable pub quoted : Text → Text
quoted path = b'"' ∷ path ++ (b'"' ∷ [])

abbrev quoted_args : Text
quoted_args = codes " \"$@\""

unfoldable pub command : Text → Text → ℕ → Text → Bwrap → Command
unfolding quoted
command bash bwrap pipe_end daemon b = record {
  program = bash;
  arguments =
      (codes "-c" ∷ (quoted bwrap ++ quoted_args) ∷ codes "--" ∷ [])
      ++ (codes "--error-fd" ∷ to_string pipe_end ∷ [])
      ++ b.args
      ++ (bash
          ∷ codes "-c"
          ∷ (codes "&>/dev/null nohup "
              ++ quoted daemon
              ++ codes " & disown; "
              ++ quoted b.path_file_program
              ++ quoted_args)
          ∷ codes "--"
          ∷ [])
      ++ b.program_args;
  environment = b.program_env;
}

module _ (lib : JsonLibrary) where
  -- Pop of a serialize.
  popped : Option (Value Text) → Run Bwrap Text
  popped text = Run.looks (λ b. text)

  changes : (Bwrap → Bwrap) → Run Bwrap (Unit {0})
  changes step b = some (ok tt, step b)

  exists_or : Value Bool → Run Bwrap (Unit {0})
  exists_or (err e) = Run.fail e
  exists_or (ok true) = pure tt
  exists_or (ok false) = Run.fail "Missing portal daemon to run binary file path"

  unfoldable pub run :
      Host
      → Programs
      → (Permissions.Permission → Bool)
      → (Unshares.Unshare → Bool)
      → Text
      → OfDispatcher.Dispatcher
      → OfDaemon.Daemon
      → OfLogs.Logs
      → Run Bwrap Command
  unfolding popped changes exists_or
  run host programs permissions unshares path_file_daemon dispatcher daemon logs = do
    changes (bind_permissions host permissions)
    changes (unshare_namespaces unshares)
    bash ← Run.lift programs.bash
    found ← Run.lift programs.bwrap
    bwrap ← Run.lift (programs.test_and_setup found)
    pipe_end ← Run.lift programs.pipe
    dispatcher_text ← popped (OfDispatcher.serialize lib dispatcher)
    daemon_text ← popped (OfDaemon.serialize lib daemon)
    logs_text ← popped (OfLogs.serialize lib logs)
    changes (push (setenv ∷ codes "FIM_DISPATCHER_CFG" ∷ dispatcher_text ∷ []))
    changes (push (setenv ∷ codes "FIM_DAEMON_CFG" ∷ daemon_text ∷ []))
    changes (push (setenv ∷ codes "FIM_DAEMON_LOG" ∷ logs_text ∷ []))
    exists_or programs.daemon_exists
    changes mount_root
    Run.looks (λ b. some (ok (command bash bwrap pipe_end path_file_daemon b)))
