-- ===== src/Tests/OfStart.antt =====
-- Starts of the sandbox from an image of zeros.
use flatimage.Base.{◌≡◌, refl, if◌then◌else◌, some, ok, false, List, [], ◌∷◌}
use flatimage.Bytes.{Bytes}
use flatimage.Text.{Text, codes, text_eq, starts_with}
use flatimage.Reserved.Layout.{IsImage}
use flatimage.Reserved.Small.{unionfs}
use flatimage.Parser.Boot as OfBoot
use flatimage.Parser.Command.{boot_cmd}
use flatimage.Parser.Words.{words}
use flatimage.Bwrap.Expected.{root_args, sources, overlay_of}
use flatimage.Bwrap.Start.{Command}
use flatimage.Executor.Line.{execute_command}
use flatimage.Executor.Sandbox.Granted.{IsReady}
use flatimage.Executor.Start.{BwrapRunRet, Launcher, with_overlay_type, f_bwrap, start_command}
use flatimage.Executor.Start.Booted.{Boots, start_command-set_line}
use flatimage.Executor.Start.Retried.{f_bwrap-exit_code}
use flatimage.Tests.Image.{empty_image, empty_image-IsImage}
use flatimage.Tests.Documents.{documents}
use flatimage.Tests.OfBwrap.{desk, programs}
use flatimage.Tests.OfExecutor.{alone, args, boot-Fits}
use flatimage.Tests.OfSandbox.{fim, ready}
use flatimage.Tests.Zeros.{get-zeros, db_read-zeros}

abbrev no_mount : BwrapRunRet
no_mount = record { code = 1; syscall_nr = 165; errno_nr = 1 }

abbrev done : BwrapRunRet
done = record { code = 7; syscall_nr = 0; errno_nr = 0 }

-- A process that mounts no layers.
abbrev ends : List Text → BwrapRunRet
ends (c ∷ script ∷ dashes ∷ option ∷ pipe_end ∷ word ∷ rest) =
    if text_eq word (codes "--bind") then done else no_mount
ends _ = no_mount

abbrev launcher : Launcher
launcher = record {
  fim = λ is_root. fim;
  again = λ is_root. fim;
  sys_mount = 165;
  runs = λ c f. some (ok (ends (Command.arguments c)), f);
  other = λ c f. some (ok 0, f);
}

abbrev ready_again : IsReady documents (with_overlay_type unionfs fim) programs
ready_again = record {
  fusermount = ready.fusermount;
  user = ready.user;
  bash = ready.bash;
  bwrap = ready.bwrap;
  pipe_end = ready.pipe_end;
  dispatcher = ready.dispatcher;
  daemon = ready.daemon;
  logs = ready.logs;
  fusermount_found = refl;
  free = refl;
  user_configured = refl;
  found = ready.found;
  dispatches = ready.dispatches;
  daemon_text = ready.daemon_text;
  logs_text = ready.logs_text;
}

abbrev ends_of : Command → BwrapRunRet
ends_of c = ends (Command.arguments c)

f_bwrap-exit_code_example :
    f_bwrap documents desk programs launcher 0 false (codes "/bin/bash") [] (some empty_image)
    ≡ some (ok 7, some empty_image)
unfolding root_args sources overlay_of text_eq
f_bwrap-exit_code_example =
    f_bwrap-exit_code documents desk programs launcher 0 false ends_of ready ready_again [] []
      (codes "/bin/bash") [] empty_image (λ c h. refl) (get-zeros (λ v. ok v)) db_read-zeros

-- The boot command has no program, and the argument of the start stands behind its own.
start_command-set_line_example :
    (g : Bytes) × (program : Text) × Boots (λ v. ok v) [] program
    × (execute_command documents alone 0
          (codes "app" ∷ words (boot_cmd (OfBoot.set [] args)))
          (some empty_image)
        ≡ some (ok [], some g))
    × IsImage 0 g
    × (start_command documents desk programs launcher 0 (codes "app" ∷ codes "x.txt" ∷ []) (some g)
        ≡ some (ok 7, some g))
unfolding starts_with root_args sources overlay_of text_eq
start_command-set_line_example =
    start_command-set_line documents alone desk programs launcher 0 ends_of ready ready_again [] []
      (codes "app") (codes "app") record { program = []; args = args } (codes "x.txt" ∷ [])
      empty_image empty_image-IsImage boot-Fits refl (λ c h. refl) (get-zeros (λ v. ok v))
      db_read-zeros
