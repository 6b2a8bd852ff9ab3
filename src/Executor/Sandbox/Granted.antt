-- ===== src/Executor/Sandbox/Granted.antt =====
-- From the command line of permissions to the arguments of the sandbox that a later start runs.
use flatimage.Base.{
  ℕ, ◌≡◌, ap, ◌∙◌, true, all, ◌&&◌, Bool, some, ok, ◌++◌, ◌==◌, inl, inr, List, [], ◌∷◌,
}
use flatimage.Base.Run
use flatimage.Bytes.{Bytes}
use flatimage.Json.{JsonLibrary}
use flatimage.Text.{Text}
use flatimage.Reserved.{Region, permissions, environment, bindings, unshare}
use flatimage.Reserved.Layout.{IsImage}
use flatimage.Flags.{member, contains}
use flatimage.Flags as Flags
use flatimage.Flags.Contract
use flatimage.Flags.Laws.{is_proper}
use flatimage.Flags.Refine.{FlagsAfter}
use flatimage.Flags.Permission as Permissions
use flatimage.Flags.Permission.{Permission, permissions_class}
use flatimage.Flags.Permission.Lawful.{permissions_class_laws}
use flatimage.Flags.Unshare.{Unshare, unshares_class}
use flatimage.Parser.Command.{perms_cmd}
use flatimage.Parser.Filled.{Ascending}
use flatimage.Parser.Perms as Perms
use flatimage.Parser.Words.{words}
use flatimage.Bindings.{Bind}
use flatimage.Bindings.Database.{db_read}
use flatimage.Db.Env
use flatimage.Db.Portal.{host}
use flatimage.Db.Portal.Dispatcher as OfDispatcher
use flatimage.Db.Portal.Daemon as OfDaemon
use flatimage.Db.Portal.Daemon.Logs as OfLogs
use flatimage.Bwrap.{Host, UserData}
use flatimage.Bwrap.Start.{Programs, Command, run}
use flatimage.Bwrap.Expected.{
  expected, root_args, overlay_of, root_of, prepared_args, all_granted, runtime_dir, bound,
  all_unshared, namespaces, portal_args, environment_of,
}
use flatimage.Executor.Sandbox.Prepared.{prepared, prepare-prepared}
use flatimage.Bwrap.Laws.Command.{AreFound, run_lem}
use flatimage.Executor.Line.{Rest, execute_command, set_line-done}
use flatimage.Executor.Sandbox.{Config, permitted, unshared, or_empty, f_bwrap_impl}
use flatimage.Executor.Sandbox.Unchanged.{IsSame, contains-same, get-same, db_read-same}

module _ (lib : JsonLibrary) where
  -- The host is ready for a start, with these values of its steps.
  pub record IsReady (fim : Config) (programs : Programs) : Type 0 where
    pub fusermount : Text
    pub user : UserData
    pub bash : Text
    pub bwrap : Text
    pub pipe_end : ℕ
    pub dispatcher : Text
    pub daemon : Text
    pub logs : Text
    pub fusermount_found : fim.fusermount ≡ ok fusermount
    pub free : fim.wait_busy ≡ ok tt
    pub user_configured : fim.user ≡ ok user
    pub found : AreFound programs bash bwrap pipe_end
    pub dispatches :
        OfDispatcher.serialize lib
          (OfDispatcher.dispatcher fim.pid host fim.path_dir_app fim.path_dir_log)
        ≡ some (ok dispatcher)
    pub daemon_text : OfDaemon.serialize lib fim.daemon_guest ≡ some (ok daemon)
    pub logs_text : OfLogs.serialize lib fim.logs_guest ≡ some (ok logs)

  module _ (machine : Host) (programs : Programs) (fim : Config) (ready : IsReady fim programs)
      (base : ℕ) (program : Text) (args environment_ : List Text) (binds : List Bind) where
    -- The process that starts the sandbox, for permissions and unshare options.
    abbrev pub started : (Permission → Bool) → (Unshare → Bool) → Command
    started has unshares =
        expected ready.bash ready.bwrap ready.pipe_end fim.portal_daemon program
          (root_args (overlay_of fim.overlay_type fim.overlay)
              (root_of fim.overlay_type fim.is_casefold fim.path_dir_ciopfs fim.path_dir_mount)
            ++ (prepared_args machine ready.user fim.runtime_host binds (has Permissions.gpu)
                ++ (all_granted machine (ready.user.uid == 0) (runtime_dir machine) has bound
                    ++ all_unshared unshares namespaces
                    ++ portal_args ready.dispatcher ready.daemon ready.logs)))
          args (environment_of machine environment_)

    -- The start with the permissions ps, the rest as in the image f.
    abbrev pub restarted : List Permission → Bytes → Command
    restarted ps f =
        started (λ p. is_proper permissions_class p && member permissions_class ps p)
          (unshared base (some f))

    pub f_bwrap_impl_lem :
        (f : Bytes)
        → or_empty lib (Env.get lib (machine.expand) base (some f)) ≡ some (ok environment_)
        → db_read lib base (some f) ≡ some (ok binds, some f)
        → f_bwrap_impl lib machine programs fim base program args (some f)
          ≡ some (ok (started (permitted base (some f)) (unshared base (some f))), some f)
    unfolding f_bwrap_impl
    f_bwrap_impl_lem f got read =
        let has = permitted base (some f) in
        let options = unshared base (some f) in
        let d = OfDispatcher.dispatcher fim.pid host fim.path_dir_app fim.path_dir_log in
        let b =
          prepared machine fim (has Permissions.gpu) ready.user binds program args environment_ in
        simp (ready.fusermount_found, ready.free, got, ready.user_configured, read)
          (ap (λ v. Run.looked (some f) (Run.outcome v))
            (ap
                (run lib machine programs has options fim.portal_daemon d fim.daemon_guest
                  fim.logs_guest)
                (prepare-prepared machine fim ready.user program args environment_ has binds)
              ∙ run_lem lib machine programs has options fim.portal_daemon ready.bash ready.bwrap
                  ready.pipe_end d fim.daemon_guest fim.logs_guest ready.dispatcher ready.daemon
                  ready.logs b ready.found ready.dispatches ready.daemon_text ready.logs_text))

  module _ (rest : Rest) (machine : Host) (programs : Programs) (fim : Config)
      (ready : IsReady fim programs) (base : ℕ) (program : Text) (args environment_ : List Text)
      (binds : List Bind) where
    -- On an image whose environment and bindings are read, and on a host where a start finds what it
    -- looks for, the command line `fim-perms set` with permissions in their order, without ALL and
    -- NONE, succeeds, and f_bwrap_impl on the image that it leaves starts the sandbox with exactly
    -- these permissions, and with the environment, the bindings and the unshare options from before;
    -- `restarted` lists the arguments one by one.
    pub f_bwrap_impl-set_line :
        (argv0 : Text) (ps : List Permission) (f : Bytes)
        → IsImage base f
        → Ascending Permissions.ordinal 0 ps
        → all (is_proper permissions_class) ps ≡ true
        → or_empty lib (Env.get lib (machine.expand) base (some f)) ≡ some (ok environment_)
        → db_read lib base (some f) ≡ some (ok binds, some f)
        → (g : Bytes) × (execute_command lib rest base
              (argv0 ∷ words (perms_cmd (Perms.set ps)))
              (some f)
            ≡ some (ok [], some g))
          × (f_bwrap_impl lib machine programs fim base program args (some g)
              ≡ some (
                ok (restarted machine programs fim ready base program args environment_ binds ps f),
                some g,
              ))
    f_bwrap_impl-set_line argv0 ps f image ordered proper got read =
        (after.g, set_line-done lib rest base argv0 ps f ordered after, launch)
      where
        after :
            FlagsAfter permissions_class base f
              (member permissions_class ps)
              (Flags.set permissions_class base ps (some f))
        after = Contract.set_lem permissions_class permissions_class_laws base f ps image proper

        same : (r : Region) → ¬ (permissions ≡ r) → IsSame base f after.g image r
        same r differs = elim (after.others r) [ inl p ↦ absurd (differs p) | inr e ↦ e ]

        launch :
            f_bwrap_impl lib machine programs fim base program args (some after.g)
            ≡ some (
              ok (restarted machine programs fim ready base program args environment_ binds ps f),
              some after.g,
            )
        launch =
            f_bwrap_impl_lem machine programs fim ready base program args environment_ binds after.g
              (get-same base f after.g image lib machine.expand (same environment (λ e. absurd cc))
                ∙ got)
              (db_read-same base f after.g image lib binds (same bindings (λ e. absurd cc)) read)
            ∙ ap (λ h. some (ok h, some after.g))
                (λ i.
                  started machine programs fim ready base program args environment_ binds
                    (λ p. after.flags p i)
                    (λ u.
                      contains-same base f after.g image unshares_class
                        (same unshare (λ e. absurd cc)) u i))
