-- ===== src/Bwrap/Laws/Command.antt =====
-- The whole command line of the sandbox.
use flatimage.Base.{
  ℕ, ◌≡◌, refl, ap, sym, ◌∙◌, Bool, true, false, if◌then◌else◌, Option, none, some, ok, List, [],
  ◌∷◌, ◌++◌, append_assoc,
}
use flatimage.Json.{JsonLibrary}
use flatimage.Text.{Text, codes}
use flatimage.Db.Portal.Dispatcher as OfDispatcher
use flatimage.Db.Portal.Daemon as OfDaemon
use flatimage.Db.Portal.Daemon.Logs as OfLogs
use flatimage.Flags.Permission.{Permission}
use flatimage.Flags.Unshare.{Unshare}
use flatimage.Bwrap.{Host, Overlay, Bwrap, push}
use flatimage.Bwrap.Expected.{
  setenv, granted, bound, all_granted, namespaces, all_unshared, portal_args, sources, root_args,
  expected,
}
use flatimage.Bwrap.Start.{
  when, bind_permissions, unshare_namespaces, push_front, overlay_args, overlay, mount_root,
  Programs, command, quoted, run,
}
use flatimage.Bwrap.Laws.{push-nil, push-push, bind_one, bind_one-granted}

bind_each : Host → (Permission → Bool) → List Permission → Bwrap → Bwrap
bind_each host has [] b = b
bind_each host has (p ∷ ps) b = bind_each host has ps (when (has p) (bind_one host p) b)

pub when-push :
    (c : Bool) (xs : List Text) (step : Bwrap → Bwrap) (b : Bwrap)
    → step b ≡ push xs b
    → when c step b ≡ push (if c then xs else []) b
when-push true xs step b h = h
when-push false xs step b h = sym (push-nil b)

bind_each-granted :
    (host : Host) (has : Permission → Bool) (ps : List Permission) (b : Bwrap)
    → bind_each host has ps b ≡ push (all_granted host b.is_root b.path_dir_xdg_runtime has ps) b
unfolding bind_each all_granted push
bind_each-granted host has [] b = sym (push-nil b)
bind_each-granted host has (p ∷ ps) b =
    let xs = granted host b.is_root b.path_dir_xdg_runtime p in
    let here = if has p then xs else [] in
    ap (bind_each host has ps)
      (when-push (has p) xs (bind_one host p) b (bind_one-granted host p b))
    ∙ bind_each-granted host has ps (push here b)
    ∙ push-push here (all_granted host b.is_root b.path_dir_xdg_runtime has ps) b

bind_permissions-granted :
    (host : Host) (has : Permission → Bool) (b : Bwrap)
    → bind_permissions host has b
      ≡ push (all_granted host b.is_root b.path_dir_xdg_runtime has bound) b
unfolding bind_permissions bind_each bind_one
bind_permissions-granted host has b = bind_each-granted host has bound b

unshare_each : (Unshare → Bool) → List (Unshare × Text) → Bwrap → Bwrap
unshare_each has [] b = b
unshare_each has ((u, option) ∷ rest) b =
    unshare_each has rest (when (has u) (push (option ∷ [])) b)

unshare_each-unshared :
    (has : Unshare → Bool) (rest : List (Unshare × Text)) (b : Bwrap)
    → unshare_each has rest b ≡ push (all_unshared has rest) b
unfolding unshare_each all_unshared
unshare_each-unshared has [] b = sym (push-nil b)
unshare_each-unshared has ((u, option) ∷ rest) b =
    let here = if has u then option ∷ [] else [] in
    ap (unshare_each has rest) (when-push (has u) (option ∷ []) (push (option ∷ [])) b refl)
    ∙ unshare_each-unshared has rest (push here b)
    ∙ push-push here (all_unshared has rest) b

unshare_namespaces-unshared :
    (has : Unshare → Bool) (b : Bwrap)
    → unshare_namespaces has b ≡ push (all_unshared has namespaces) b
unfolding unshare_namespaces unshare_each
unshare_namespaces-unshared has b = unshare_each-unshared has namespaces b

overlay_args-sources :
    (layers : List Text) (o : Overlay)
    → overlay_args layers o
      ≡ sources layers ++ codes "--overlay" ∷ o.upper ∷ o.work ∷ codes "/" ∷ []
unfolding overlay_args sources
overlay_args-sources [] o = refl
overlay_args-sources (layer ∷ layers) o =
    ap (λ args. codes "--overlay-src" ∷ layer ∷ args) (overlay_args-sources layers o)

mount_root-root_args :
    (b : Bwrap) → mount_root b ≡ push_front (root_args b.overlay b.path_dir_root) b
unfolding mount_root root_args overlay
mount_root-root_args b = mount b.overlay
  where
    mount :
        (o : Option Overlay)
        → (elim o [
          | some o ↦ push_front (overlay_args o.layers o) b
          | none ↦ push_front (codes "--bind" ∷ b.path_dir_root ∷ codes "/" ∷ []) b
        ])
          ≡ push_front (root_args o b.path_dir_root) b
    mount none = refl
    mount (some o) = ap (λ args. push_front args b) (overlay_args-sources o.layers o)

command-expected :
    (bash path_bwrap : Text) (pipe_end : ℕ) (daemon : Text) (b : Bwrap)
    → command bash path_bwrap pipe_end daemon b
      ≡ expected bash path_bwrap pipe_end daemon b.path_file_program b.args b.program_args
          b.program_env
unfolding command quoted
command-expected bash path_bwrap pipe_end daemon b = simp append_assoc refl

-- The programs are there: what each of the searches and tests finds.
pub record AreFound (programs : Programs) (bash bwrap : Text) (pipe_end : ℕ) : Type 0 where
  pub found : Text
  pub bash_found : programs.bash ≡ ok bash
  pub bwrap_found : programs.bwrap ≡ ok found
  pub bwrap_tested : programs.test_and_setup found ≡ ok bwrap
  pub pipe_opened : programs.pipe ≡ ok pipe_end
  pub daemon_there : programs.daemon_exists ≡ ok true

abbrev variable : Text → Text → List Text
variable name text = setenv ∷ name ∷ text ∷ []

pushed :
    (g u : List Text) (dispatcher daemon logs : Text) (b : Bwrap)
    → push (variable (codes "FIM_DAEMON_LOG") logs) (
        push
          (variable (codes "FIM_DAEMON_CFG") daemon)
          (push (variable (codes "FIM_DISPATCHER_CFG") dispatcher) (push u (push g b))))
      ≡ push (g ++ u ++ portal_args dispatcher daemon logs) b
pushed g u dispatcher daemon logs b = simp (push-push, append_assoc)

module _ (lib : JsonLibrary) where
  -- Where the programs are found and the configuration of the portal is serialized, run starts bash
  -- with bwrap, whose arguments are the layers of the overlay (or the root directory, without one),
  -- then those that were there, then those of the given permissions and no other, in the order of
  -- run, then the options of the namespaces to unshare, and at last the configuration of the portal;
  -- in the sandbox, bash starts the daemon and then the program with its arguments and its environment.
  pub run_lem :
      (host : Host) (programs : Programs) (permissions : Permission → Bool)
      (unshares : Unshare → Bool) (path_file_daemon bash bwrap : Text) (pipe_end : ℕ)
      (dispatcher : OfDispatcher.Dispatcher) (daemon : OfDaemon.Daemon) (logs : OfLogs.Logs)
      (dispatcher_text daemon_text logs_text : Text) (b : Bwrap)
      → AreFound programs bash bwrap pipe_end
      → OfDispatcher.serialize lib dispatcher ≡ some (ok dispatcher_text)
      → OfDaemon.serialize lib daemon ≡ some (ok daemon_text)
      → OfLogs.serialize lib logs ≡ some (ok logs_text)
      → run lib host programs permissions unshares path_file_daemon dispatcher daemon logs b ≡ (
          let options =
            root_args b.overlay b.path_dir_root
            ++ (b.args
                ++ (all_granted host b.is_root b.path_dir_xdg_runtime permissions bound
                    ++ all_unshared unshares namespaces
                    ++ portal_args dispatcher_text daemon_text logs_text)) in
          some (
            ok (
                expected bash bwrap pipe_end path_file_daemon b.path_file_program options
                  b.program_args b.program_env),
            record b { args = options },
          ))
  unfolding run push push_front
  run_lem host programs permissions unshares path_file_daemon bash bwrap pipe_end dispatcher daemon
        logs dispatcher_text daemon_text logs_text b found h_dispatcher h_daemon h_logs =
      let g = all_granted host b.is_root b.path_dir_xdg_runtime permissions bound in
      let u = all_unshared unshares namespaces in
      let all = g ++ u ++ portal_args dispatcher_text daemon_text logs_text in
      rw
        (
          bind_permissions-granted host permissions b,
          unshare_namespaces-unshared unshares (push g b),
          found.bash_found,
          found.bwrap_found,
          found.bwrap_tested,
          found.pipe_opened,
          h_dispatcher,
          h_daemon,
          h_logs,
          found.daemon_there,
          pushed g u dispatcher_text daemon_text logs_text b,
          mount_root-root_args (push all b),
          command-expected,
        )
        refl
