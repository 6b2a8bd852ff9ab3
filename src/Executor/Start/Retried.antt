-- ===== src/Executor/Start/Retried.antt =====
-- f_bwrap with its second try, on a host whose processes leave the image as it is.
use flatimage.Base.{
  ℕ, ◌≡◌, refl, Bool, Bool-cases, inl, inr, true, false, if◌then◌else◌, ◌&&◌, ◌==◌, some, ok, List,
}
use flatimage.Bytes.{Bytes}
use flatimage.Json.{JsonLibrary}
use flatimage.Text.{Text}
use flatimage.Reserved.Small.{OverlayType, bwrap, unionfs}
use flatimage.Bindings.{Bind}
use flatimage.Bindings.Database.{db_read}
use flatimage.Db.Env
use flatimage.Flags.Permission.{Permission}
use flatimage.Flags.Unshare.{Unshare}
use flatimage.Bwrap.{Host}
use flatimage.Bwrap.Start.{Programs, Command}
use flatimage.Executor.Sandbox.{Config, permitted, unshared, or_empty}
use flatimage.Executor.Sandbox.Granted.{IsReady, started, f_bwrap_impl_lem}
use flatimage.Executor.Start.{Launcher, BwrapRunRet, attempt, f_bwrap}

abbrev is_layered : OverlayType → Bool
is_layered bwrap = true
is_layered _ = false

module _ (lib : JsonLibrary) (machine : Host) (programs : Programs) (l : Launcher) (base : ℕ)
    (is_root : Bool) (ends : Command → BwrapRunRet) (first : IsReady lib (l.fim is_root) programs)
    (second : IsReady lib (record (l.again is_root) { overlay_type = unionfs }) programs)
    (environment_ : List Text) (binds : List Bind) where
  -- The process for the first try and that for the second, which has no overlay of bwrap.
  module _ (program : Text) (args : List Text) (has : Permission → Bool)
      (options : Unshare → Bool) where
    abbrev pub first_process : Command
    first_process =
        started lib machine programs (l.fim is_root) first base program args environment_ binds has
          options

    abbrev pub second_process : Command
    second_process =
        started lib machine programs (record (l.again is_root) { overlay_type = unionfs }) second
          base program args environment_ binds has options

    -- The exit code of the second process, where the first has the overlay of bwrap and fails to mount.
    abbrev pub exit_code : ℕ
    exit_code =
        if is_layered (Config.overlay_type (l.fim is_root))
          && (ends first_process).syscall_nr == l.sys_mount
        then (ends second_process).code
        else (ends first_process).code

  module _ (program : Text) (args : List Text) (f : Bytes)
      (leaves : (c : Command) (h : Bytes) → l.runs c (some h) ≡ some (ok (ends c), some h))
      (got : or_empty lib (Env.get lib machine.expand base (some f)) ≡ some (ok environment_))
      (is_read : db_read lib base (some f) ≡ some (ok binds, some f)) where
    attempt_lem :
        (fim : Config) (ready : IsReady lib fim programs)
        → attempt lib machine programs l base fim program args (some f)
          ≡ some (
            ok (
                ends (
                  started lib machine programs fim ready base program args environment_ binds
                    (permitted base (some f))
                    (unshared base (some f)))),
            some f,
          )
    unfolding attempt
    attempt_lem fim ready =
        rw
          (
            f_bwrap_impl_lem lib machine programs fim ready base program args environment_ binds f
                got is_read,
            leaves,
          )
          refl

    -- Where the host is ready for both tries, the processes end, leaving the image as it is, and the
    -- environment and the bindings of the image are read, f_bwrap returns the exit code of a first
    -- sandbox, or, where this one has the overlay of bwrap and fails in the call mount, that of a second
    -- one, with the same permissions, bindings, options and program, on the root directory of the
    -- configuration in place of the overlay; `started` lists the arguments of both one by one.
    pub f_bwrap-exit_code :
        f_bwrap lib machine programs l base is_root program args (some f)
        ≡ some
            (ok (exit_code program args (permitted base (some f)) (unshared base (some f))), some f)
    unfolding f_bwrap
    f_bwrap-exit_code =
        let c1 = first_process program args (permitted base (some f)) (unshared base (some f)) in
        let layered = is_layered (Config.overlay_type (l.fim is_root)) in
        rw (attempt_lem (l.fim is_root) first)
          (elim (Bool-cases (layered && (ends c1).syscall_nr == l.sys_mount)) [
            | inl retried ↦
                rw
                  (
                    retried,
                    attempt_lem (record (l.again is_root) { overlay_type = unionfs }) second,
                  )
                  refl
            | inr once ↦ rw once refl
          ])
