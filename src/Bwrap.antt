-- ===== src/Bwrap.antt =====
-- src/bwrap/bwrap.hpp: the class Bwrap, which builds the command line of the sandbox. The environment
-- and the files of the host are a record of functions.
pub mod Permissions
pub mod Start
pub mod Laws
pub mod Expected
pub mod Optical
use flatimage.Base.{
  ℕ, zero, Bool, true, false, ◌==◌, if◌then◌else◌, Option, none, some, Value, ok, value_or, List,
  [], ◌∷◌, ◌++◌,
}
use flatimage.Text.{Text, codes}
use flatimage.Text.Numbers.{to_string}
use flatimage.Bindings.{Bind}
use flatimage.Parser.Bind.{BindType, ro, rw, dev, none_type}

-- std::getenv, getuid, std::filesystem::exists (false on an error), ns_env::expand, and the names in
-- /dev.
pub record Host : Type 0 where
  pub getenv : Text → Option Text
  pub getuid : ℕ
  pub exists : Text → Bool
  pub expand : Text → Value Text
  pub dev_entries : List Text

pub record Overlay : Type 0 where
  pub layers : List Text
  pub upper : Text
  pub work : Text

-- User::UserData
pub record UserData : Type 0 where
  pub uid : ℕ
  pub gid : ℕ
  pub name : Text
  pub path_dir_home : Text
  pub path_file_shell : Text
  pub path_file_bashrc : Text
  pub path_file_passwd : Text

-- UserData::operator std::string
unfoldable pub passwd_entry : UserData → Text
passwd_entry user =
    user.name
    ++ codes ":x:"
    ++ to_string user.uid
    ++ codes ":"
    ++ to_string user.gid
    ++ codes ":"
    ++ user.name
    ++ codes ":"
    ++ user.path_dir_home
    ++ codes ":"
    ++ user.path_file_shell

-- The members of the class, without the logs.
pub record Bwrap : Type 0 where
  pub path_file_program : Text
  pub program_args : List Text
  pub program_env : List Text
  pub overlay : Option Overlay
  pub path_dir_root : Text
  pub path_dir_xdg_runtime : Text
  pub args : List Text
  pub is_root : Bool

-- ns_vector::push_back(m_args, ...)
unfoldable pub push : List Text → Bwrap → Bwrap
push more b = record {
  path_file_program = b.path_file_program;
  program_args = b.program_args;
  program_env = b.program_env;
  overlay = b.overlay;
  path_dir_root = b.path_dir_root;
  path_dir_xdg_runtime = b.path_dir_xdg_runtime;
  args = b.args ++ more;
  is_root = b.is_root;
}

-- The value of XDG_RUNTIME_DIR that set_xdg_runtime_dir takes.
unfoldable pub xdg_runtime_dir : Host → Text
xdg_runtime_dir host = elim (host.getenv (codes "XDG_RUNTIME_DIR")) [
  | none ↦ codes "/run/user/" ++ to_string host.getuid
  | some dir ↦ dir
]

-- Bwrap::set_xdg_runtime_dir
unfoldable pub set_xdg_runtime_dir : Host → Bwrap → Bwrap
set_xdg_runtime_dir host b =
    push (codes "--setenv" ∷ codes "XDG_RUNTIME_DIR" ∷ xdg_runtime_dir host ∷ []) record {
      path_file_program = b.path_file_program;
      program_args = b.program_args;
      program_env = b.program_env ++ (codes "XDG_RUNTIME_DIR=" ++ xdg_runtime_dir host) ∷ [];
      overlay = b.overlay;
      path_dir_root = b.path_dir_root;
      path_dir_xdg_runtime = xdg_runtime_dir host;
      args = b.args;
      is_root = b.is_root;
    }

abbrev user_args : UserData → List Text
user_args user =
    codes "--setenv"
    ∷ codes "USER"
    ∷ user.name
    ∷ codes "--uid"
    ∷ to_string user.uid
    ∷ codes "--gid"
    ∷ to_string user.gid
    ∷ codes "--setenv"
    ∷ codes "HOME"
    ∷ user.path_dir_home
    ∷ codes "--setenv"
    ∷ codes "SHELL"
    ∷ user.path_file_shell
    ∷ []

abbrev system_args : List Text
system_args =
    codes "--dev"
    ∷ codes "/dev"
    ∷ codes "--proc"
    ∷ codes "/proc"
    ∷ codes "--bind"
    ∷ codes "/tmp"
    ∷ codes "/tmp"
    ∷ codes "--bind"
    ∷ codes "/sys"
    ∷ codes "/sys"
    ∷ codes "--bind-try"
    ∷ codes "/etc/group"
    ∷ codes "/etc/group"
    ∷ []

-- The constructor. BASHRC_FILE, which it sets in the environment of the process, is not modelled.
unfoldable pub construct : Host → UserData → Text → Text → List Text → List Text → Bwrap
construct host user path_dir_root path_file_program program_args program_env =
    set_xdg_runtime_dir host (
      push (codes "--bind-try" ∷ user.path_file_passwd ∷ codes "/etc/passwd" ∷ []) (
        push system_args (
          push (user_args user) record {
            path_file_program = path_file_program;
            program_args = program_args;
            program_env = program_env ++ codes "TERM=xterm" ∷ [];
            overlay = none;
            path_dir_root = path_dir_root;
            path_dir_xdg_runtime = [];
            args = [];
            is_root = user.uid == 0;
          })))

-- Bwrap::set_overlay
unfoldable pub set_overlay : Overlay → Bwrap → Bwrap
set_overlay layers b = record {
  path_file_program = b.path_file_program;
  program_args = b.program_args;
  program_env = b.program_env;
  overlay = some layers;
  path_dir_root = b.path_dir_root;
  path_dir_xdg_runtime = b.path_dir_xdg_runtime;
  args = b.args;
  is_root = b.is_root;
}

-- Bwrap::with_bind
unfoldable pub with_bind : Text → Text → Bwrap → Bwrap
with_bind src dst = push (codes "--bind-try" ∷ src ∷ dst ∷ [])

-- Bwrap::with_bind_ro
unfoldable pub with_bind_ro : Text → Text → Bwrap → Bwrap
with_bind_ro src dst = push (codes "--ro-bind-try" ∷ src ∷ dst ∷ [])

abbrev pub bind_option : BindType → Text
bind_option dev = codes "--dev-bind-try"
bind_option ro = codes "--ro-bind-try"
bind_option _ = codes "--bind-try"

-- Bwrap::with_binds
unfoldable pub with_binds : Host → List Bind → Bwrap → Bwrap
with_binds host [] b = b
with_binds host (bind ∷ binds) b = with_binds host binds (
    push
      (bind_option bind.type
        ∷ value_or (host.expand bind.path_src) bind.path_src
        ∷ value_or (host.expand bind.path_dst) bind.path_dst
        ∷ [])
      b)
