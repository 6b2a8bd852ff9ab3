-- ===== src/Tests/OfSandbox.antt =====
-- A start of the sandbox from an image of zeros after a command line that gives permissions.
use flatimage.Base.{◌≡◌, refl, some, ok, false, [], ◌∷◌, arith}
use flatimage.Bytes.{Bytes}
use flatimage.Text.{Text, codes}
use flatimage.Reserved.Small.{bwrap}
use flatimage.Parser.Command.{perms_cmd}
use flatimage.Parser.Perms as Perms
use flatimage.Parser.Words.{words}
use flatimage.Db.Laws.{built}
use flatimage.Db.Portal.{host}
use flatimage.Db.Portal.Dispatcher as OfDispatcher
use flatimage.Db.Portal.Daemon as OfDaemon
use flatimage.Db.Portal.Daemon.Logs as OfLogs
use flatimage.Bwrap.Laws.Command.{AreFound}
use flatimage.Executor.Line.{execute_command}
use flatimage.Executor.Sandbox.{Config, f_bwrap_impl}
use flatimage.Executor.Sandbox.Granted.{IsReady, restarted, f_bwrap_impl-set_line}
use flatimage.Tests.Image.{empty_image, empty_image-IsImage}
use flatimage.Tests.Documents.{documents}
use flatimage.Tests.Library.Codec.{print}
use flatimage.Tests.OfBwrap.{desk, user, programs, daemon, logs, daemon_text, logs_text}
use flatimage.Tests.OfExecutor.{alone, home_and_network}
use flatimage.Tests.Zeros.{get-zeros, db_read-zeros}

abbrev pub fim : Config
fim = record {
  fusermount = ok (codes "/bin/fusermount3");
  wait_busy = ok tt;
  user = ok user;
  is_casefold = false;
  overlay_type = bwrap;
  path_dir_ciopfs = codes "/c";
  path_dir_mount = codes "/m";
  overlay = record { layers = codes "/l/0" ∷ []; upper = codes "/upper"; work = codes "/work" };
  runtime_host = codes "/tmp/fim/run/host";
  pid = 7;
  path_dir_app = codes "/a";
  path_dir_log = codes "/log";
  portal_daemon = codes "/portal";
  daemon_guest = daemon;
  logs_guest = logs;
}

abbrev pub dispatcher : OfDispatcher.Dispatcher
dispatcher = OfDispatcher.dispatcher 7 host (codes "/a") (codes "/log")

abbrev pub dispatcher_text : Text
dispatcher_text = print (built documents (OfDispatcher.fields_of documents dispatcher)) []

abbrev pub there : AreFound programs (codes "/bin/bash") (codes "/bin/bwrap") 3
there = record {
  found = codes "/bin/bwrap";
  bash_found = refl;
  bwrap_found = refl;
  bwrap_tested = refl;
  pipe_opened = refl;
  daemon_there = refl;
}

abbrev pub ready : IsReady documents fim programs
ready = record {
  fusermount = codes "/bin/fusermount3";
  user = user;
  bash = codes "/bin/bash";
  bwrap = codes "/bin/bwrap";
  pipe_end = 3;
  dispatcher = dispatcher_text;
  daemon = daemon_text;
  logs = logs_text;
  fusermount_found = refl;
  free = refl;
  user_configured = refl;
  found = there;
  dispatches = (OfDispatcher.deserialize-serialize documents dispatcher dispatcher_text refl).0;
  daemon_text =
      (OfDaemon.deserialize-serialize_daemon documents daemon daemon_text (omega arith) refl).0;
  logs_text = (OfLogs.deserialize-serialize documents logs logs_text refl).0;
}

f_bwrap_impl-set_line_example :
    (g : Bytes) × (execute_command documents alone 0
        (codes "app" ∷ words (perms_cmd (Perms.set home_and_network)))
        (some empty_image)
      ≡ some (ok [], some g))
    × (f_bwrap_impl documents desk programs fim 0 (codes "/bin/bash") [] (some g)
        ≡ some (
          ok (
              restarted documents desk programs fim ready 0
                (codes "/bin/bash")
                []
                []
                []
                home_and_network
                empty_image),
          some g,
        ))
f_bwrap_impl-set_line_example =
    f_bwrap_impl-set_line documents alone desk programs fim ready 0 (codes "/bin/bash") [] [] []
      (codes "app") home_and_network empty_image empty_image-IsImage
      (omega arith, (omega arith, tt)) refl (get-zeros (λ v. ok v)) db_read-zeros
