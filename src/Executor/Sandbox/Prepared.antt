-- ===== src/Executor/Sandbox/Prepared.antt =====
-- The sandbox that f_bwrap_impl prepares: its members, written out.
use flatimage.Base.{
  ◌≡◌, refl, ap, sym, ◌∙◌, Bool, true, false, Bool-cases, inl, inr, if◌then◌else◌, not, ◌&&◌, none,
  List, [], ◌∷◌, ◌==◌,
}
use flatimage.Text.{Text, codes}
use flatimage.Text.Paths.{◌/◌}
use flatimage.Reserved.Small.{OverlayType, bwrap, overlayfs, unionfs, none_type}
use flatimage.Flags.Permission as Permissions
use flatimage.Flags.Permission.{Permission}
use flatimage.Bindings.{Bind}
use flatimage.Bwrap.{
  Host, UserData, Overlay, Bwrap, push, with_binds, with_bind_ro, set_overlay, construct,
  set_xdg_runtime_dir, xdg_runtime_dir,
}
use flatimage.Bwrap.Permissions.{with_bind_gpu, bind_nvidia, contains}
use flatimage.Bwrap.Start.{when}
use flatimage.Bwrap.Expected.{
  both, dev_bind_try, bound_paths, has_part, nvidia_devices, gpu_devices, runtime_dir,
  prepared_args, environment_of, overlay_of, root_of,
}
use flatimage.Bwrap.Laws.{push-nil, push-push}
use flatimage.Bwrap.Laws.Command.{when-push}
use flatimage.Executor.Sandbox.{Config, is_bwrap, root_dir, prepare}

with_binds-bound_paths :
    (host : Host) (binds : List Bind) (b : Bwrap)
    → with_binds host binds b ≡ push (bound_paths host binds) b
unfolding with_binds bound_paths
with_binds-bound_paths host [] b = sym (push-nil b)
with_binds-bound_paths host (bind ∷ binds) b =
    with_binds-bound_paths host binds _ ∙ push-push _ (bound_paths host binds) b

bind_nvidia-nvidia_devices :
    (names : List Text) (b : Bwrap) → bind_nvidia names b ≡ push (nvidia_devices names) b
unfolding bind_nvidia nvidia_devices contains has_part
bind_nvidia-nvidia_devices [] b = sym (push-nil b)
bind_nvidia-nvidia_devices (name ∷ names) b = elim (Bool-cases (has_part name (codes "nvidia"))) [
  | inl here ↦ rw here (
      bind_nvidia-nvidia_devices names _
      ∙ push-push (both dev_bind_try (codes "/dev" / name)) (nvidia_devices names) b)
  | inr other ↦ rw other (bind_nvidia-nvidia_devices names b)
]

with_bind_gpu-gpu_devices :
    (host : Host) (b : Bwrap) → with_bind_gpu host b ≡ push (gpu_devices host) b
unfolding with_bind_gpu
with_bind_gpu-gpu_devices host b =
    bind_nvidia-nvidia_devices host.dev_entries _ ∙ push-push _ (nvidia_devices host.dev_entries) b

when-set_overlay :
    (t : OverlayType) (o : Overlay) (b : Bwrap)
    → b.overlay ≡ none
    → when (is_bwrap t) (set_overlay o) b ≡ record b { overlay = overlay_of t o }
unfolding set_overlay overlay_of
when-set_overlay bwrap o b h = refl
when-set_overlay overlayfs o b h = ap (λ v. record b { overlay = v }) h
when-set_overlay unionfs o b h = ap (λ v. record b { overlay = v }) h
when-set_overlay none_type o b h = ap (λ v. record b { overlay = v }) h

root_dir-root_of :
    (t : OverlayType) (c : Bool) (ciopfs mount : Text)
    → (if c && not (is_bwrap t) then ciopfs else mount) ≡ root_of t c ciopfs mount
unfolding root_of
root_dir-root_of bwrap true ciopfs mount = refl
root_dir-root_of bwrap false ciopfs mount = refl
root_dir-root_of overlayfs true ciopfs mount = refl
root_dir-root_of overlayfs false ciopfs mount = refl
root_dir-root_of unionfs true ciopfs mount = refl
root_dir-root_of unionfs false ciopfs mount = refl
root_dir-root_of none_type true ciopfs mount = refl
root_dir-root_of none_type false ciopfs mount = refl

abbrev pub prepared :
    Host → Config → Bool → UserData → List Bind → Text → List Text → List Text → Bwrap
prepared machine fim has_gpu user binds program args environment = record {
  path_file_program = program;
  program_args = args;
  program_env = environment_of machine environment;
  overlay = overlay_of fim.overlay_type fim.overlay;
  path_dir_root = root_of fim.overlay_type fim.is_casefold fim.path_dir_ciopfs fim.path_dir_mount;
  path_dir_xdg_runtime = runtime_dir machine;
  args = prepared_args machine user fim.runtime_host binds has_gpu;
  is_root = user.uid == 0;
}

module _ (machine : Host) (fim : Config) (user : UserData) (program : Text)
    (args environment : List Text) where
  -- With the root directory and the overlay as the code chooses them.
  constructed : Text → Bwrap
  constructed root = record (construct machine user root program args environment) {
    overlay = overlay_of fim.overlay_type fim.overlay;
  }

  pub prepare-prepared :
      (has : Permission → Bool) (binds : List Bind)
      → prepare machine fim has user binds program args environment
        ≡ prepared machine fim (has Permissions.gpu) user binds program args environment
  unfolding prepare root_dir constructed prepared_args construct set_xdg_runtime_dir xdg_runtime_dir
      runtime_dir with_bind_ro push
  prepare-prepared has binds =
      let root =
        if fim.is_casefold && not (is_bwrap fim.overlay_type)
        then fim.path_dir_ciopfs
        else fim.path_dir_mount in
      let b1 = construct machine user root program args environment in
      let b2 = when (is_bwrap fim.overlay_type) (set_overlay fim.overlay) b1 in
      let b3 = with_binds machine binds (with_bind_ro (codes "/") fim.runtime_host b2) in
      let gpu = if has Permissions.gpu then gpu_devices machine else [] in
      let rest : Bwrap → Bwrap = λ b.
        push gpu (push (bound_paths machine binds) (with_bind_ro (codes "/") fim.runtime_host b)) in
      when-push (has Permissions.gpu) (gpu_devices machine) (with_bind_gpu machine) b3
        (with_bind_gpu-gpu_devices machine b3)
      ∙ ap (push gpu)
          (with_binds-bound_paths machine binds (with_bind_ro (codes "/") fim.runtime_host b2))
      ∙ ap rest (when-set_overlay fim.overlay_type fim.overlay b1 refl)
      ∙ ap (λ r. rest (constructed r))
          (root_dir-root_of fim.overlay_type fim.is_casefold fim.path_dir_ciopfs fim.path_dir_mount)
