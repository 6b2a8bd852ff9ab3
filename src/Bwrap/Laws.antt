-- ===== src/Bwrap/Laws.antt =====
-- The arguments of the sandbox: what the permissions and the unshared namespaces add, and where.
pub mod Command
use flatimage.Base.{
  ℕ, zero, suc, ◌≡◌, refl, ap, sym, ◌∙◌, Bool, true, false, not, ◌&&◌, if◌then◌else◌, Option, none,
  some, Option-cases, Bool-cases, inl, inr, List, [], ◌∷◌, ◌++◌, append_assoc, append-nil,
}
use flatimage.Text.{Text, codes}
use flatimage.Text.Paths.{◌/◌}
use flatimage.Flags.Permission as Permissions
use flatimage.Flags.Permission.{Permission}
use flatimage.Flags.Unshare as Unshares
use flatimage.Flags.Unshare.{Unshare}
use flatimage.Bwrap.{Host, Bwrap, push}
use flatimage.Bwrap.Permissions.{
  bind_home, bind_media, bind_audio, bind_wayland, bind_xorg, bind_dbus_user, bind_dbus_system,
  bind_udev, bind_input, bind_usb, bind_network, bind_shm, bind_optical, bind_dev, erase_from_comma,
  erase_to_slash, sr, sg, bind_device, optical_loop,
}
use flatimage.Bwrap.Expected.{
  both, bind_try, dev_bind_try, ro_bind_try, setenv, drives, granted, before, found_onward, onward,
}
use flatimage.Bwrap.Start.{when, bind_permissions, unshare_namespaces}

pub push-nil : (b : Bwrap) → push [] b ≡ b
unfolding push
push-nil b = λ i. record {
  path_file_program = b.path_file_program;
  program_args = b.program_args;
  program_env = b.program_env;
  overlay = b.overlay;
  path_dir_root = b.path_dir_root;
  path_dir_xdg_runtime = b.path_dir_xdg_runtime;
  args = append-nil b.args i;
  is_root = b.is_root;
}

pub push-push : (xs ys : List Text) (b : Bwrap) → push ys (push xs b) ≡ push (xs ++ ys) b
unfolding push
push-push xs ys b = λ i. record {
  path_file_program = b.path_file_program;
  program_args = b.program_args;
  program_env = b.program_env;
  overlay = b.overlay;
  path_dir_root = b.path_dir_root;
  path_dir_xdg_runtime = b.path_dir_xdg_runtime;
  args = append_assoc b.args xs ys i;
  is_root = b.is_root;
}

-- The bindings of one permission.
bind_one : Host → Permission → Bwrap → Bwrap
bind_one host Permissions.home = bind_home host
bind_one host Permissions.media = bind_media
bind_one host Permissions.audio = bind_audio
bind_one host Permissions.wayland = bind_wayland host
bind_one host Permissions.xorg = bind_xorg host
bind_one host Permissions.dbus_user = bind_dbus_user host
bind_one host Permissions.dbus_system = bind_dbus_system
bind_one host Permissions.udev = bind_udev
bind_one host Permissions.input = bind_input
bind_one host Permissions.usb = bind_usb
bind_one host Permissions.network = bind_network
bind_one host Permissions.shm = bind_shm
bind_one host Permissions.optical = bind_optical host
bind_one host Permissions.dev = bind_dev
bind_one host _ = push []

-- A step that adds arguments, behind arguments.
behind :
    (xs rest : List Text) (step : Bwrap → Bwrap)
    → ((b : Bwrap) → step b ≡ push rest b)
    → (b : Bwrap) → step (push xs b) ≡ push (xs ++ rest) b
behind xs rest step h b = h (push xs b) ∙ push-push xs rest b

pub optical_loop-drives :
    (host : Host) (n i : ℕ) (b : Bwrap) → optical_loop host n i b ≡ push (drives host n i) b
unfolding optical_loop drives bind_device push sg sr
optical_loop-drives host zero i b = sym (push-nil b)
optical_loop-drives host (suc n) i b =
    let loop = optical_loop host n (suc i) in
    let rest = drives host n (suc i) in
    let ih = optical_loop-drives host n (suc i) in
    let behind_sg = behind (both dev_bind_try (sg i)) rest loop ih in
    elim (Bool-cases (host.exists (sr i))) [
      | inl has_sr ↦ elim (Bool-cases (host.exists (sg i))) [
        | inl has_sg ↦
            rw (has_sr, has_sg)
              (behind (both dev_bind_try (sr i)) (both dev_bind_try (sg i) ++ rest)
                (λ c. loop (push (both dev_bind_try (sg i)) c)) behind_sg b)
        | inr no_sg ↦ rw (has_sr, no_sg) (behind (both dev_bind_try (sr i)) rest loop ih b)
      ]
      | inr no_sr ↦ elim (Bool-cases (host.exists (sg i))) [
        | inl has_sg ↦ rw (no_sr, has_sg) (behind_sg b)
        | inr no_sg ↦ rw (no_sr, no_sg) (sym (push-nil b))
      ]
    ]

-- A step under a condition.
unless_push :
    (c : Bool) (xs : List Text) (b step : Bwrap)
    → step ≡ push xs b
    → (if c then b else step) ≡ push (if c then [] else xs) b
unless_push true xs b step h = sym (push-nil b)
unless_push false xs b step h = h

-- A step on a variable that is set.
set_push :
    (o : Option Text) (args : Text → List Text) (b : Bwrap) (step : Text → Bwrap)
    → ((t : Text) → step t ≡ push (args t) b)
    → (elim o [ none ↦ b | some t ↦ step t ]) ≡ push (elim o [ none ↦ [] | some t ↦ args t ]) b
set_push none args b step h = sym (push-nil b)
set_push (some t) args b step h = h t

bind_one-granted :
    (host : Host) (p : Permission) (b : Bwrap)
    → bind_one host p b ≡ push (granted host b.is_root b.path_dir_xdg_runtime p) b
unfolding bind_one granted bind_home bind_media bind_audio bind_wayland bind_xorg bind_dbus_user
    bind_dbus_system bind_udev bind_input bind_usb bind_network bind_shm bind_optical bind_dev
    before erase_from_comma onward erase_to_slash found_onward
bind_one-granted host Permissions.home b =
    unless_push b.is_root
      (elim (host.getenv (codes "HOME")) [ none ↦ [] | some dir ↦ both bind_try dir ]) b
      (elim (host.getenv (codes "HOME")) [ none ↦ b | some dir ↦ push (both bind_try dir) b ])
      (set_push (host.getenv (codes "HOME")) (both bind_try) b (λ dir. push (both bind_try dir) b)
        (λ dir. refl))
bind_one-granted host Permissions.media b = simp push-push
bind_one-granted host Permissions.audio b = simp push-push refl
bind_one-granted host Permissions.wayland b =
    let xdg = b.path_dir_xdg_runtime in
    let shown : Text → List Text = λ display. setenv ∷ codes "WAYLAND_DISPLAY" ∷ display ∷ [] in
    set_push (host.getenv (codes "WAYLAND_DISPLAY"))
      (λ display. both bind_try (xdg / display) ++ shown display) b
      (λ display. push (shown display) (push (both bind_try (xdg / display)) b))
      (λ display. push-push (both bind_try (xdg / display)) (shown display) b)
bind_one-granted host Permissions.xorg b =
    set_push (host.getenv (codes "DISPLAY")) _ b _
      (λ display. set_push (host.getenv (codes "XAUTHORITY")) _ b _ (λ file. simp push-push))
bind_one-granted host Permissions.dbus_user b =
    let bus : Text → List Text =
      λ address. setenv ∷ codes "DBUS_SESSION_BUS_ADDRESS" ∷ address ∷ [] in
    let path : Text → List Text =
      λ address. both bind_try (erase_from_comma (erase_to_slash address)) in
    set_push (host.getenv (codes "DBUS_SESSION_BUS_ADDRESS"))
      (λ address. bus address ++ path address) b
      (λ address. push (path address) (push (bus address) b))
      (λ address. push-push (bus address) (path address) b)
bind_one-granted host Permissions.dbus_system b = refl
bind_one-granted host Permissions.udev b = refl
bind_one-granted host Permissions.input b = simp push-push
bind_one-granted host Permissions.usb b = simp push-push
bind_one-granted host Permissions.network b = simp push-push
bind_one-granted host Permissions.shm b = refl
bind_one-granted host Permissions.optical b = optical_loop-drives host 256 0 b
bind_one-granted host Permissions.dev b = refl
bind_one-granted host Permissions.all b = refl
bind_one-granted host Permissions.gpu b = refl
bind_one-granted host Permissions.none b = refl
