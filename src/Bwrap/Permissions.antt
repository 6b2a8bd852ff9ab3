-- ===== src/Bwrap/Permissions.antt =====
-- src/bwrap/bwrap.hpp: the methods that bind what a permission grants. GPU is granted by with_bind_gpu,
-- whose links between libraries, files below the root directory, are not modelled.
use flatimage.Base.{
  ℕ, zero, suc, Bool, not, ◌&&◌, ◌||◌, ◌==◌, if◌then◌else◌, Option, none, some, List, [], ◌∷◌, ◌++◌,
}
use flatimage.Text.{Text, codes, starts_with}
use flatimage.Text.Numbers.{to_string}
use flatimage.Text.Paths.{◌/◌}
use flatimage.Bwrap.{Host, Bwrap, push}

-- ns_vector::push_back(m_args, option, path, path)
abbrev pub same : Text → Text → List Text
same option path = option ∷ path ∷ path ∷ []

abbrev pub bind_try : Text
bind_try = codes "--bind-try"

abbrev pub dev_bind_try : Text
dev_bind_try = codes "--dev-bind-try"

abbrev pub ro_bind_try : Text
ro_bind_try = codes "--ro-bind-try"

abbrev pub setenv : Text
setenv = codes "--setenv"

unfoldable pub bind_home : Host → Bwrap → Bwrap
bind_home host b =
    if b.is_root
    then b
    else elim (host.getenv (codes "HOME")) [ none ↦ b | some dir ↦ push (same bind_try dir) b ]

unfoldable pub bind_media : Bwrap → Bwrap
bind_media b =
    push (same bind_try (codes "/mnt"))
      (push (same bind_try (codes "/run/media")) (push (same bind_try (codes "/media")) b))

unfoldable pub bind_audio : Bwrap → Bwrap
bind_audio b =
    let pulse = b.path_dir_xdg_runtime / codes "pulse/native" in
    let pipewire = b.path_dir_xdg_runtime / codes "pipewire-0" in
    let b1 = push (same bind_try pulse) b in
    let b2 = push (setenv ∷ codes "PULSE_SERVER" ∷ (codes "unix:" ++ pulse) ∷ []) b1 in
    let b3 = push (same bind_try pipewire) b2 in
    let b4 = push (same dev_bind_try (codes "/dev/dsp")) b3 in
    let b5 = push (same bind_try (codes "/dev/snd")) b4 in
    push (same bind_try (codes "/proc/asound")) b5

unfoldable pub bind_wayland : Host → Bwrap → Bwrap
bind_wayland host b = elim (host.getenv (codes "WAYLAND_DISPLAY")) [
  | none ↦ b
  | some display ↦
      push (setenv ∷ codes "WAYLAND_DISPLAY" ∷ display ∷ [])
        (push (same bind_try (b.path_dir_xdg_runtime / display)) b)
]

unfoldable pub bind_xorg : Host → Bwrap → Bwrap
bind_xorg host b = elim (host.getenv (codes "DISPLAY")) [
  | none ↦ b
  | some display ↦ elim (host.getenv (codes "XAUTHORITY")) [
    | none ↦ b
    | some xauthority ↦ push (setenv ∷ codes "DISPLAY" ∷ display ∷ []) (
        push (setenv ∷ codes "XAUTHORITY" ∷ xauthority ∷ []) (push (same ro_bind_try xauthority) b))
  ]
]

-- From the first '/' on; all of a text without one.
from_slash : Text → Option Text
from_slash [] = none
from_slash (c ∷ s) = let rest = from_slash s in if c == b'/' then some (c ∷ s) else rest

unfoldable pub erase_to_slash : Text → Text
unfolding from_slash
erase_to_slash s = elim (from_slash s) [ none ↦ s | some rest ↦ rest ]

-- Up to the first ','.
unfoldable pub erase_from_comma : Text → Text
erase_from_comma [] = []
erase_from_comma (c ∷ s) = let rest = erase_from_comma s in if c == b',' then [] else c ∷ rest

unfoldable pub bind_dbus_user : Host → Bwrap → Bwrap
bind_dbus_user host b = elim (host.getenv (codes "DBUS_SESSION_BUS_ADDRESS")) [
  | none ↦ b
  | some address ↦
      push (same bind_try (erase_from_comma (erase_to_slash address)))
        (push (setenv ∷ codes "DBUS_SESSION_BUS_ADDRESS" ∷ address ∷ []) b)
]

unfoldable pub bind_dbus_system : Bwrap → Bwrap
bind_dbus_system = push (same bind_try (codes "/run/dbus/system_bus_socket"))

unfoldable pub bind_udev : Bwrap → Bwrap
bind_udev = push (same bind_try (codes "/run/udev"))

unfoldable pub bind_input : Bwrap → Bwrap
bind_input b =
    push (same dev_bind_try (codes "/dev/uinput")) (push (same dev_bind_try (codes "/dev/input")) b)

unfoldable pub bind_usb : Bwrap → Bwrap
bind_usb b =
    push (same dev_bind_try (codes "/dev/usb")) (push (same dev_bind_try (codes "/dev/bus/usb")) b)

unfoldable pub bind_network : Bwrap → Bwrap
bind_network b =
    let b1 = push (same ro_bind_try (codes "/etc/host.conf")) b in
    let b2 = push (same ro_bind_try (codes "/etc/hosts")) b1 in
    let b3 = push (same ro_bind_try (codes "/etc/nsswitch.conf")) b2 in
    push (same ro_bind_try (codes "/etc/resolv.conf")) b3

unfoldable pub bind_shm : Bwrap → Bwrap
bind_shm = push (same dev_bind_try (codes "/dev/shm"))

unfoldable pub sr : ℕ → Text
sr i = codes "/dev/sr" ++ to_string i

unfoldable pub sg : ℕ → Text
sg i = codes "/dev/sg" ++ to_string i

-- f_bind
unfoldable pub bind_device : Host → Text → Bwrap → Bwrap
bind_device host path b = if host.exists path then push (same dev_bind_try path) b else b

-- The loop, with so many numbers to go.
unfoldable pub optical_loop : Host → ℕ → ℕ → Bwrap → Bwrap
optical_loop host zero i b = b
optical_loop host (suc n) i b =
    let bound = bind_device host (sg i) (bind_device host (sr i) b) in
    let further = optical_loop host n (suc i) bound in
    if not (host.exists (sr i)) && not (host.exists (sg i)) then bound else further

unfoldable pub bind_optical : Host → Bwrap → Bwrap
bind_optical host = optical_loop host 256 0

unfoldable pub bind_dev : Bwrap → Bwrap
bind_dev = push (same dev_bind_try (codes "/dev"))

unfoldable pub contains : Text → Text → Bool
contains [] word = starts_with [] word
contains (c ∷ s) word = starts_with (c ∷ s) word || contains s word

-- The devices of symlink_nvidia.
unfoldable pub bind_nvidia : List Text → Bwrap → Bwrap
unfolding contains
bind_nvidia [] b = b
bind_nvidia (name ∷ names) b =
    let bound = bind_nvidia names (push (same dev_bind_try (codes "/dev" / name)) b) in
    let skipped = bind_nvidia names b in if contains name (codes "nvidia") then bound else skipped

unfoldable pub with_bind_gpu : Host → Bwrap → Bwrap
with_bind_gpu host b = bind_nvidia host.dev_entries (push (same dev_bind_try (codes "/dev/dri")) b)
