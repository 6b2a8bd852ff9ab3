-- ===== src/Bwrap/Expected.antt =====
-- The command line that the sandbox is to be started with, argument by argument. Nothing here uses the
-- functions of src/bwrap/bwrap.hpp that build it.
use flatimage.Base.{
  ℕ, zero, suc, ◌==◌, Bool, true, false, not, ◌&&◌, ◌||◌, if◌then◌else◌, Option, none, some,
  value_or, List, [], ◌∷◌, ◌++◌,
}
use flatimage.Text.{Text, codes, starts_with}
use flatimage.Text.Numbers.{to_string}
use flatimage.Text.Paths.{◌/◌}
use flatimage.Bindings.{Bind}
use flatimage.Parser.Bind.{BindType, ro, dev}
use flatimage.Flags.Permission as Permissions
use flatimage.Flags.Permission.{Permission}
use flatimage.Flags.Unshare as Unshares
use flatimage.Flags.Unshare.{Unshare}
use flatimage.Reserved.Small.{OverlayType, bwrap}
use flatimage.Bwrap.{Host, Overlay, UserData}
use flatimage.Bwrap.Start.{Command}

-- An option with a path on the host and the same path in the sandbox.
abbrev pub both : Text → Text → List Text
both option path = option ∷ path ∷ path ∷ []

abbrev pub bind_try : Text
bind_try = codes "--bind-try"

abbrev pub dev_bind_try : Text
dev_bind_try = codes "--dev-bind-try"

abbrev pub ro_bind_try : Text
ro_bind_try = codes "--ro-bind-try"

abbrev pub setenv : Text
setenv = codes "--setenv"

-- The part of a text in front of the first such character, or all of it.
unfoldable pub before : ℕ → Text → Text
before c [] = []
before c (x ∷ s) = let rest = before c s in if x == c then [] else x ∷ rest

-- The part of a text from the first such character on; all of it, where there is none.
unfoldable pub found_onward : ℕ → Text → Option Text
found_onward c [] = none
found_onward c (x ∷ s) = let rest = found_onward c s in if x == c then some (x ∷ s) else rest

unfoldable pub onward : ℕ → Text → Text
onward c s = elim (found_onward c s) [ none ↦ s | some rest ↦ rest ]

-- The optical drives from a number on, until one has neither device.
unfoldable pub drives : Host → ℕ → ℕ → List Text
drives host zero i = []
drives host (suc n) i =
    let here =
      (if host.exists (codes "/dev/sr" ++ to_string i)
        then both dev_bind_try (codes "/dev/sr" ++ to_string i)
        else [])
      ++ (if host.exists (codes "/dev/sg" ++ to_string i)
          then both dev_bind_try (codes "/dev/sg" ++ to_string i)
          else []) in
    let further = drives host n (suc i) in
    if not (host.exists (codes "/dev/sr" ++ to_string i))
      && not (host.exists (codes "/dev/sg" ++ to_string i))
    then []
    else here ++ further

-- What a permission grants: the arguments that stand for it, in a sandbox that is root's or not, with
-- this XDG_RUNTIME_DIR. `all` and `gpu` are none that run looks at.
unfoldable pub granted : Host → Bool → Text → Permission → List Text
granted host root xdg Permissions.home =
    if root
    then []
    else elim (host.getenv (codes "HOME")) [ none ↦ [] | some dir ↦ both bind_try dir ]
granted host root xdg Permissions.media =
    both bind_try (codes "/media")
    ++ both bind_try (codes "/run/media")
    ++ both bind_try (codes "/mnt")
granted host root xdg Permissions.audio =
    both bind_try (xdg / codes "pulse/native")
    ++ (setenv ∷ codes "PULSE_SERVER" ∷ (codes "unix:" ++ (xdg / codes "pulse/native")) ∷ [])
    ++ both bind_try (xdg / codes "pipewire-0")
    ++ both dev_bind_try (codes "/dev/dsp")
    ++ both bind_try (codes "/dev/snd")
    ++ both bind_try (codes "/proc/asound")
granted host root xdg Permissions.wayland = elim (host.getenv (codes "WAYLAND_DISPLAY")) [
  | none ↦ []
  | some display ↦ both bind_try (xdg / display) ++ setenv ∷ codes "WAYLAND_DISPLAY" ∷ display ∷ []
]
granted host root xdg Permissions.xorg = elim (host.getenv (codes "DISPLAY")) [
  | none ↦ []
  | some display ↦ elim (host.getenv (codes "XAUTHORITY")) [
    | none ↦ []
    | some file ↦
        both ro_bind_try file
        ++ setenv ∷ codes "XAUTHORITY" ∷ file ∷ setenv ∷ codes "DISPLAY" ∷ display ∷ []
  ]
]
granted host root xdg Permissions.dbus_user =
    elim (host.getenv (codes "DBUS_SESSION_BUS_ADDRESS")) [
      | none ↦ []
      | some address ↦
          setenv
          ∷ codes "DBUS_SESSION_BUS_ADDRESS"
          ∷ address
          ∷ both bind_try (before b',' (onward b'/' address))
    ]
granted host root xdg Permissions.dbus_system = both bind_try (codes "/run/dbus/system_bus_socket")
granted host root xdg Permissions.udev = both bind_try (codes "/run/udev")
granted host root xdg Permissions.input =
    both dev_bind_try (codes "/dev/input") ++ both dev_bind_try (codes "/dev/uinput")
granted host root xdg Permissions.usb =
    both dev_bind_try (codes "/dev/bus/usb") ++ both dev_bind_try (codes "/dev/usb")
granted host root xdg Permissions.network =
    both ro_bind_try (codes "/etc/host.conf")
    ++ both ro_bind_try (codes "/etc/hosts")
    ++ both ro_bind_try (codes "/etc/nsswitch.conf")
    ++ both ro_bind_try (codes "/etc/resolv.conf")
granted host root xdg Permissions.shm = both dev_bind_try (codes "/dev/shm")
granted host root xdg Permissions.optical = drives host 256 0
granted host root xdg Permissions.dev = both dev_bind_try (codes "/dev")
granted host root xdg _ = []

-- The permissions that run looks at, in its order.
abbrev pub bound : List Permission
bound =
    Permissions.home ∷ Permissions.media ∷ Permissions.audio ∷ Permissions.wayland
    ∷ Permissions.xorg ∷ Permissions.dbus_user ∷ Permissions.dbus_system ∷ Permissions.udev
    ∷ Permissions.input ∷ Permissions.usb ∷ Permissions.network ∷ Permissions.shm
    ∷ Permissions.optical ∷ Permissions.dev ∷ []

-- What those of them that are given grant.
unfoldable pub all_granted : Host → Bool → Text → (Permission → Bool) → List Permission → List Text
all_granted host root xdg has [] = []
all_granted host root xdg has (p ∷ ps) =
    (if has p then granted host root xdg p else []) ++ all_granted host root xdg has ps

-- The namespaces, in the order of run, and the options that stand for them.
abbrev pub namespaces : List (Unshare × Text)
namespaces =
    (Unshares.user, codes "--unshare-user-try")
    ∷ (Unshares.ipc, codes "--unshare-ipc")
    ∷ (Unshares.pid, codes "--unshare-pid")
    ∷ (Unshares.net, codes "--unshare-net")
    ∷ (Unshares.uts, codes "--unshare-uts")
    ∷ (Unshares.cgroup, codes "--unshare-cgroup-try")
    ∷ []

unfoldable pub all_unshared : (Unshare → Bool) → List (Unshare × Text) → List Text
all_unshared has [] = []
all_unshared has ((u, option) ∷ rest) = (if has u then option ∷ [] else []) ++ all_unshared has rest

-- The configuration of the portal.
abbrev pub portal_args : Text → Text → Text → List Text
portal_args dispatcher daemon logs =
    setenv
    ∷ codes "FIM_DISPATCHER_CFG"
    ∷ dispatcher
    ∷ setenv
    ∷ codes "FIM_DAEMON_CFG"
    ∷ daemon
    ∷ setenv
    ∷ codes "FIM_DAEMON_LOG"
    ∷ logs
    ∷ []

unfoldable pub sources : List Text → List Text
sources [] = []
sources (layer ∷ layers) = codes "--overlay-src" ∷ layer ∷ sources layers

-- What stands in front: the layers from the first one on and the directories to write, or the root.
unfoldable pub root_args : Option Overlay → Text → List Text
root_args none root = codes "--bind" ∷ root ∷ codes "/" ∷ []
root_args (some o) root = sources o.layers ++ codes "--overlay" ∷ o.upper ∷ o.work ∷ codes "/" ∷ []

-- bash, which runs bwrap with its options and, in the sandbox, bash, which starts the daemon of the
-- portal and then the program with its arguments.
abbrev pub expected : Text → Text → ℕ → Text → Text → List Text → List Text → List Text → Command
expected bash path_bwrap pipe_end daemon program options args environment = record {
  program = bash;
  arguments =
      codes "-c"
      ∷ (codes "\"" ++ path_bwrap ++ codes "\" \"$@\"")
      ∷ codes "--"
      ∷ codes "--error-fd"
      ∷ to_string pipe_end
      ∷ (options
          ++ bash
            ∷ codes "-c"
            ∷ (codes "&>/dev/null nohup \""
                ++ daemon
                ++ codes "\" & disown; \""
                ++ program
                ++ codes "\" \"$@\"")
            ∷ codes "--"
            ∷ args);
  environment = environment;
}

-- What f_bwrap_impl gives the sandbox before its start.
unfoldable pub runtime_dir : Host → Text
runtime_dir host = elim (host.getenv (codes "XDG_RUNTIME_DIR")) [
  | none ↦ codes "/run/user/" ++ to_string host.getuid
  | some dir ↦ dir
]

abbrev pub option_of : BindType → Text
option_of ro = codes "--ro-bind-try"
option_of dev = codes "--dev-bind-try"
option_of _ = codes "--bind-try"

-- The bindings of the image, in their order.
unfoldable pub bound_paths : Host → List Bind → List Text
bound_paths host [] = []
bound_paths host (bind ∷ binds) =
    option_of bind.type
    ∷ value_or (host.expand bind.path_src) bind.path_src
    ∷ value_or (host.expand bind.path_dst) bind.path_dst
    ∷ bound_paths host binds

unfoldable pub has_part : Text → Text → Bool
has_part [] word = starts_with [] word
has_part (c ∷ s) word = starts_with (c ∷ s) word || has_part s word

-- The devices of the permission GPU.
unfoldable pub nvidia_devices : List Text → List Text
unfolding has_part
nvidia_devices [] = []
nvidia_devices (name ∷ names) =
    (if has_part name (codes "nvidia") then both dev_bind_try (codes "/dev" / name) else [])
    ++ nvidia_devices names

abbrev pub gpu_devices : Host → List Text
gpu_devices host = both dev_bind_try (codes "/dev/dri") ++ nvidia_devices host.dev_entries

unfoldable pub prepared_args : Host → UserData → Text → List Bind → Bool → List Text
prepared_args host user runtime_host binds has_gpu =
    (setenv
      ∷ codes "USER"
      ∷ user.name
      ∷ codes "--uid"
      ∷ to_string user.uid
      ∷ codes "--gid"
      ∷ to_string user.gid
      ∷ setenv
      ∷ codes "HOME"
      ∷ user.path_dir_home
      ∷ setenv
      ∷ codes "SHELL"
      ∷ user.path_file_shell
      ∷ codes "--dev"
      ∷ codes "/dev"
      ∷ codes "--proc"
      ∷ codes "/proc"
      ∷ codes "--bind"
      ∷ codes "/tmp"
      ∷ codes "/tmp"
      ∷ codes "--bind"
      ∷ codes "/sys"
      ∷ codes "/sys"
      ∷ bind_try
      ∷ codes "/etc/group"
      ∷ codes "/etc/group"
      ∷ bind_try
      ∷ user.path_file_passwd
      ∷ codes "/etc/passwd"
      ∷ setenv
      ∷ codes "XDG_RUNTIME_DIR"
      ∷ runtime_dir host
      ∷ ro_bind_try
      ∷ codes "/"
      ∷ runtime_host
      ∷ [])
    ++ bound_paths host binds
    ++ (if has_gpu then gpu_devices host else [])

abbrev pub environment_of : Host → List Text → List Text
environment_of host environment =
    environment ++ (codes "TERM=xterm" ∷ []) ++ (codes "XDG_RUNTIME_DIR=" ++ runtime_dir host) ∷ []

-- The overlay and the root directory, which the type of the overlay decides.
unfoldable pub overlay_of : OverlayType → Overlay → Option Overlay
overlay_of bwrap o = some o
overlay_of _ o = none

unfoldable pub root_of : OverlayType → Bool → Text → Text → Text
root_of bwrap is_casefold ciopfs mount = mount
root_of _ true ciopfs mount = ciopfs
root_of _ false ciopfs mount = mount
