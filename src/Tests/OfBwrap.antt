-- ===== src/Tests/OfBwrap.antt =====
-- The theorems about the sandbox for a user with two permissions.
use flatimage.Base.{
  ◌++◌, arith, if◌then◌else◌, ◌≡◌, refl, Bool, true, false, some, none, ok, [], ◌∷◌,
}
use flatimage.Text.{Text, codes, text_eq}
use flatimage.Db.Laws.{built}
use flatimage.Db.Portal.{host as host_mode, guest}
use flatimage.Db.Portal.Dispatcher as OfDispatcher
use flatimage.Db.Portal.Daemon as OfDaemon
use flatimage.Db.Portal.Daemon.Logs as OfLogs
use flatimage.Flags.Permission as Permissions
use flatimage.Flags.Unshare as Unshares
use flatimage.Bwrap.{Host, Bwrap, UserData, construct, set_overlay, push}
use flatimage.Bwrap.Permissions.{bind_optical}
use flatimage.Bwrap.Start.{Programs, run}
use flatimage.Bwrap.Expected.{
  root_args, all_granted, bound, all_unshared, namespaces, portal_args, expected,
}
use flatimage.Bwrap.Laws.Command as OfCommand
use flatimage.Bwrap.Optical as OfOptical
use flatimage.Tests.Documents.{documents}
use flatimage.Tests.Library.Codec.{print}

-- A host with one optical drive.
abbrev pub desk : Host
desk = record {
  getenv = λ name. if text_eq name (codes "HOME") then some (codes "/home/u") else none;
  getuid = 1000;
  exists = λ path. text_eq path (codes "/dev/sr0");
  expand = λ v. ok v;
  dev_entries = [];
}

abbrev pub user : UserData
user = record {
  uid = 1000;
  gid = 1000;
  name = codes "u";
  path_dir_home = codes "/home/u";
  path_file_shell = codes "/bin/bash";
  path_file_bashrc = codes "/tmp/bashrc";
  path_file_passwd = codes "/tmp/passwd";
}

abbrev layered : Bwrap
layered =
    set_overlay
      record {
        layers = codes "/l/0" ∷ codes "/l/1" ∷ [];
        upper = codes "/upper";
        work = codes "/work";
      }
      (construct desk user (codes "/root") (codes "/bin/bash") [] [])

abbrev home_and_network : Permissions.Permission → Bool
home_and_network Permissions.home = true
home_and_network Permissions.network = true
home_and_network _ = false

abbrev no_unshares : Unshares.Unshare → Bool
no_unshares _ = false

abbrev pub programs : Programs
programs = record {
  bash = ok (codes "/bin/bash");
  bwrap = ok (codes "/bin/bwrap");
  test_and_setup = λ path. ok path;
  pipe = ok 3;
  daemon_exists = ok true;
}

abbrev dispatcher : OfDispatcher.Dispatcher
dispatcher = record {
  mode = guest;
  path_dir_fifo = codes "/f";
  path_fifo_daemon = codes "/d";
  path_file_log = codes "/g";
}

abbrev pub daemon : OfDaemon.Daemon
daemon = record {
  mode = host_mode;
  pid_reference = 7;
  path_bin_daemon = codes "/b";
  path_fifo_listen = codes "/l";
}

abbrev pub logs : OfLogs.Logs
logs = OfLogs.logs (codes "/logs")

abbrev dispatcher_text : Text
dispatcher_text = print (built documents (OfDispatcher.fields_of documents dispatcher)) []

abbrev pub daemon_text : Text
daemon_text = print (built documents (OfDaemon.fields_of documents daemon)) []

abbrev pub logs_text : Text
logs_text = print (built documents (OfLogs.fields_of documents logs)) []

run_lem_example :
    run documents desk programs home_and_network no_unshares
      (codes "/portal")
      dispatcher
      daemon
      logs
      layered
    ≡ (let options =
          root_args layered.overlay layered.path_dir_root
          ++ (layered.args
              ++ (all_granted desk layered.is_root layered.path_dir_xdg_runtime home_and_network
                    bound
                  ++ all_unshared no_unshares namespaces
                  ++ portal_args dispatcher_text daemon_text logs_text)) in
        some (
          ok (
              expected
                (codes "/bin/bash")
                (codes "/bin/bwrap")
                3
                (codes "/portal")
                layered.path_file_program
                options
                layered.program_args
                layered.program_env),
          record layered { args = options },
        ))
run_lem_example =
    OfCommand.run_lem documents desk programs home_and_network no_unshares (codes "/portal")
      (codes "/bin/bash") (codes "/bin/bwrap") 3 dispatcher daemon logs dispatcher_text daemon_text
      logs_text layered
      record {
        found = codes "/bin/bwrap";
        bash_found = refl;
        bwrap_found = refl;
        bwrap_tested = refl;
        pipe_opened = refl;
        daemon_there = refl;
      }
      (OfDispatcher.deserialize-serialize documents dispatcher dispatcher_text refl).0
      (OfDaemon.deserialize-serialize_daemon documents daemon daemon_text (omega arith) refl).0
      (OfLogs.deserialize-serialize documents logs logs_text refl).0

-- A host on which every device is there.
abbrev library_host : Host
library_host = record {
  getenv = λ name. none;
  getuid = 1000;
  exists = λ path. true;
  expand = λ v. ok v;
  dev_entries = [];
}

bind_optical-sequential_example :
    bind_optical library_host layered ≡ push (OfOptical.all_drives library_host 256 0) layered
bind_optical-sequential_example =
    OfOptical.bind_optical-sequential library_host (λ i h. refl) (λ i h. refl) layered
