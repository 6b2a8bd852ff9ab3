-- ===== src/Executor/Instances.antt =====
-- src/filesystems/utils.hpp: get_instances, and src/parser/executor.hpp: the case of `fim-instance`. The
-- entries of the directory, the processes that run and the start of fim_portal are the host's.
pub mod Laws
use flatimage.Base.{
  ℕ, zero, suc, ◌^◌, ◌≤◌, ◌<◌, ◌≡◌, refl, Bool, true, false, ◌&&◌, not, if◌then◌else◌, Option, none,
  some, Value, ok, err, List, [], ◌∷◌, ◌++◌, ◌==◌, ltb, leb, any, length, Each, Bool-cases, inl,
  inr, arith,
}
use flatimage.Base.Run
use flatimage.Json.{JsonLibrary}
use flatimage.Text.{Text, codes}
use flatimage.Text.Numbers.{stoi, to_string}
use flatimage.Parser.Instance.{CmdInstance, exec, list}
use flatimage.Db.Portal.{guest}
use flatimage.Db.Portal.Dispatcher as OfDispatcher

pub record Instance : Type 0 where
  pub pid : ℕ
  pub path : Text

abbrev is_slash : ℕ → Bool
is_slash c = c == b'/'

-- path::filename
unfoldable pub filename : Text → Text
filename [] = []
filename (c ∷ s) =
    let behind = filename s in if any is_slash s then behind else if is_slash c then s else c ∷ s

-- Catch(std::stoi(…)).value_or(0)
abbrev pid_or_zero : Option ℕ → ℕ
pid_or_zero none = 0
pid_or_zero (some pid) = pid

unfoldable pub f_pid : Text → ℕ
f_pid path = pid_or_zero (stoi (filename path))

-- The filters, where an int is its 32 bits.
unfoldable pub is_active : (ℕ → Bool) → ℕ → ℕ → Bool
is_active in_proc getpid pid = (ltb 0 pid && ltb pid (2 ^ 31)) && in_proc pid && not (pid == getpid)

unfoldable pub active : (ℕ → Bool) → ℕ → List Text → List Instance
active in_proc getpid [] = []
active in_proc getpid (path ∷ paths) =
    let others = active in_proc getpid paths in
    if is_active in_proc getpid (f_pid path)
    then record { pid = f_pid path; path = path } ∷ others
    else others

-- std::ranges::sort by the pid.
unfoldable pub insert : Instance → List Instance → List Instance
insert i [] = i ∷ []
insert i (j ∷ js) = let rest = insert i js in if leb i.pid j.pid then i ∷ j ∷ js else j ∷ rest

unfoldable pub sort : List Instance → List Instance
sort [] = []
sort (i ∷ is) = insert i (sort is)

unfoldable pub get_instances : (ℕ → Bool) → ℕ → List Text → List Instance
get_instances in_proc getpid paths = sort (active in_proc getpid paths)

-- vector::at, which throws behind the end.
unfoldable pub instance_at : List Instance → ℕ → Option Instance
instance_at [] n = none
instance_at (i ∷ is) zero = some i
instance_at (i ∷ is) (suc n) = instance_at is n

-- What the case does: fim_portal with its variable FIM_DISPATCHER_CFG and its arguments, or lines.
pub data Action : Type 0 where
  portal : Text → List Text → Action
  printed : List Text → Action

unfoldable pub listed : ℕ → List Instance → List Text
listed n [] = []
listed n (i ∷ is) = (to_string n ++ codes ":" ++ filename i.path) ∷ listed (suc n) is

module _ (lib : JsonLibrary) (path_dir_app path_dir_log : Text) where
  unfoldable pub configured : List Text → Option (Value Text) → Option (Value Action)
  configured args none = none
  configured args (some (err e)) = some (err e)
  configured args (some (ok text)) = some (ok (portal text args))

  unfoldable pub enter : List Text → Option Instance → Option (Value Action)
  unfolding configured
  enter args none = none
  enter args (some instance_) = configured args (
      OfDispatcher.serialize lib
        (OfDispatcher.dispatcher instance_.pid guest path_dir_app path_dir_log))

  unfoldable pub execute_instance : List Instance → CmdInstance → Option (Value Action)
  execute_instance instances (exec id args) =
      if length instances == 0
      then some (err "No instances are running")
      else if leb (length instances) id
      then some (err "Instance index out of bounds")
      else enter args (instance_at instances id)
  execute_instance instances list = some (ok (printed (listed 0 instances)))
