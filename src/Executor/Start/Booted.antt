-- ===== src/Executor/Start/Booted.antt =====
-- From the command line that sets the boot command to the process that a start without a command runs.
use flatimage.Base.{
  ℕ, ◌≡◌, refl, ap, ◌∙◌, false, some, Value, ok, err, value_or, String, List, [], ◌∷◌, ◌++◌,
}
use flatimage.Bytes.{Bytes}
use flatimage.Json.{JsonLibrary}
use flatimage.Text.{Text, codes}
use flatimage.Reserved.{boot, environment, bindings, permissions, unshare}
use flatimage.Reserved.Layout.{IsImage}
use flatimage.Reserved.Small.{unionfs}
use flatimage.Bindings.{Bind}
use flatimage.Bindings.Database.{db_read}
use flatimage.Db.Boot.{Boot}
use flatimage.Db.Env
use flatimage.Db.Stored.{Fits}
use flatimage.Flags.Permission.{permissions_class}
use flatimage.Flags.Unshare.{unshares_class}
use flatimage.Parser.Boot as OfBoot
use flatimage.Parser.Command.{boot_cmd}
use flatimage.Parser.Plain.{is_fim, parse-none}
use flatimage.Parser.Words.{words}
use flatimage.Parser.RoundTrip.{parse-words}
use flatimage.Bwrap.{Host}
use flatimage.Bwrap.Start.{Programs, Command}
use flatimage.Executor.{boot_or_default}
use flatimage.Executor.Laws.{document, BootAfter, set_lem}
use flatimage.Executor.Line.{Rest, execute, execute_command}
use flatimage.Executor.Sandbox.{permitted, unshared, or_empty}
use flatimage.Executor.Sandbox.Granted.{IsReady}
use flatimage.Executor.Sandbox.Unchanged.{contains-same, get-same, db_read-same}
use flatimage.Executor.Start.{Launcher, BwrapRunRet, start, start_boot, start_command, program_of}
use flatimage.Executor.Start.Retried.{exit_code, f_bwrap-exit_code}

-- What is run for the program of a boot command: bash for an empty one, what it expands to, or the
-- program itself where it does not expand.
pub data Boots (expand : Text → Value Text) : Text → Text → Type 0 where
  bash : Boots expand [] (codes "bash")
  expanded : {c : ℕ} {s path : Text} → expand (c ∷ s) ≡ ok path → Boots expand (c ∷ s) path
  as_it_is : {c : ℕ} {s : Text} {e : String} → expand (c ∷ s) ≡ err e → Boots expand (c ∷ s) (c ∷ s)

program_of-Boots :
    (expand : Text → Value Text) (program : Text) → Boots expand program (program_of expand program)
unfolding program_of
program_of-Boots expand [] = bash
program_of-Boots expand (c ∷ s) = kept (expand (c ∷ s)) refl
  where
    kept : (v : Value Text) → expand (c ∷ s) ≡ v → Boots expand (c ∷ s) (value_or v (c ∷ s))
    kept (ok path) h = expanded h
    kept (err e) h = as_it_is h

module _ (lib : JsonLibrary) (rest : Rest) (machine : Host) (programs : Programs) (l : Launcher)
    (base : ℕ) (ends : Command → BwrapRunRet) (first : IsReady lib (l.fim false) programs)
    (second : IsReady lib (record (l.again false) { overlay_type = unionfs }) programs)
    (environment_ : List Text) (binds : List Bind) where
  -- On an image whose environment and bindings are read, where the document of a boot command fits its
  -- region, on a host that is ready for both tries and whose processes leave the image as it is, the
  -- command line `fim-boot set` succeeds, and a start with other arguments, the first of which does not
  -- begin with fim-, or with none, runs the program of the boot command then (expanded; bash for an
  -- empty one) in the sandbox, with the arguments of the boot command and the other ones behind them,
  -- and with the permissions, the options, the environment and the bindings from before, and returns the
  -- exit code: that of the first process, or of the second, where the first fails to mount an overlay.
  pub start_command-set_line :
      (argv0 argv0' : Text) (b : Boot) (more : List Text) (f : Bytes)
      → IsImage base f
      → Fits lib boot (document lib b)
      → is_fim (argv0' ∷ more) ≡ false
      → ((c : Command) (h : Bytes) → l.runs c (some h) ≡ some (ok (ends c), some h))
      → or_empty lib (Env.get lib machine.expand base (some f)) ≡ some (ok environment_)
      → db_read lib base (some f) ≡ some (ok binds, some f)
      → (g : Bytes) × (program : Text) × Boots machine.expand b.program program
        × (execute_command lib rest base
              (argv0 ∷ words (boot_cmd (OfBoot.set b.program b.args)))
              (some f)
            ≡ some (ok [], some g))
        × IsImage base g
        × (start_command lib machine programs l base (argv0' ∷ more) (some g)
            ≡ some (
              ok (
                  exit_code lib machine programs l base false ends first second environment_ binds
                    program
                    (b.args ++ more)
                    (permitted base (some f))
                    (unshared base (some f))),
              some g,
            ))
  unfolding execute_command execute start_command start start_boot boot_or_default
  start_command-set_line argv0 argv0' b more f image fits plain leaves got is_read =
      let after : BootAfter lib base b f = set_lem lib base b f image fits in
      let g = after.g in
      let program = program_of machine.expand b.program in
      let got_g =
        get-same base f g image lib machine.expand (after.others environment (λ e. absurd cc))
        ∙ got in
      let read_g =
        db_read-same base f g image lib binds (after.others bindings (λ e. absurd cc)) is_read in
      let runs =
        f_bwrap-exit_code lib machine programs l base false ends first second environment_ binds
          program (b.args ++ more) g leaves got_g read_g in
      (
        g,
        program,
        program_of-Boots machine.expand b.program,
        rw (parse-words argv0 (boot_cmd (OfBoot.set b.program b.args)) tt) after.done,
        after.image,
        rw ((parse-none (argv0' ∷ more)).1 plain, after.is_read, after.parses)
            (runs
              ∙ ap (λ c. some (ok c, some g))
                  (λ i.
                    exit_code lib machine programs l base false ends first second environment_ binds
                      program (b.args ++ more)
                      (λ p.
                        contains-same base f g image permissions_class
                          (after.others permissions (λ e. absurd cc)) p i)
                      (λ u.
                        contains-same base f g image unshares_class
                          (after.others unshare (λ e. absurd cc)) u i))),
      )
