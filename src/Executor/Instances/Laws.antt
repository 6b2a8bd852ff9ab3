-- ===== src/Executor/Instances/Laws.antt =====
-- src/filesystems/utils.hpp: the order of get_instances, and src/parser/executor.hpp: what
-- `fim-instance exec` does with it.
use flatimage.Base.{
  ℕ, ◌≤◌, ◌≡◌, refl, Bool, true, some, err, ◌++◌, List, [], ◌∷◌, ◌==◌, length, Each, Bool-cases,
  inl, inr, le→leb, String,
}
use flatimage.Json.{JsonLibrary}
use flatimage.Text.{Text, codes}
use flatimage.Text.Numbers.{int_to_string}
use flatimage.Text.Paths.{◌/◌, placeholders_replace}
use flatimage.Db.Laws.{built}
use flatimage.Parser.Instance.{exec}
use flatimage.Db.Portal.Dispatcher as OfDispatcher
use flatimage.Executor.Instances.{Instance, f_pid, is_active, execute_instance}

-- The instance is one of a running process that is not the own, and its directory has its name.
abbrev pub IsRunning : (ℕ → Bool) → ℕ → Instance → Type 0
IsRunning in_proc getpid i = (is_active in_proc getpid i.pid ≡ true) × (i.pid ≡ f_pid i.path)

abbrev AtLeast : ℕ → List Instance → Type 0
AtLeast n = Each (λ i. n ≤ i.pid)

-- In ascending order of the process identifiers.
abbrev pub IsSorted : List Instance → Type 0
IsSorted [] = Unit
IsSorted (i ∷ is) = AtLeast i.pid is × IsSorted is

module _ (lib : JsonLibrary) (path_dir_app path_dir_log : Text) where
  -- The document of the dispatcher for an instance: its paths, written out.
  abbrev pub document_for : ℕ → lib.Json
  document_for pid = built lib (
      (
        codes "path_file_log",
        lib.text (path_dir_log / codes "guest" / (int_to_string pid ++ codes ".log")),
      )
      ∷ (
        codes "path_fifo_daemon",
        lib.text (
            placeholders_replace
              (path_dir_app
                / codes "instance"
                / codes "{}"
                / codes "portal"
                / codes "daemon"
                / codes "{}.fifo")
              (int_to_string pid ∷ codes "guest" ∷ [])),
      )
      ∷ (
        codes "path_dir_fifo",
        lib.text (
            placeholders_replace
              (path_dir_app
                / codes "instance"
                / codes "{}"
                / codes "portal"
                / codes "dispatcher"
                / codes "fifo")
              (int_to_string pid ∷ [])),
      )
      ∷ [])

  -- At an index that is not below the number of instances, nothing is started and an error is returned.
  execute-exec_out_of_bounds :
      (is : List Instance) (id : ℕ) (args : List Text)
      → length is ≤ id
      → (e : String) × (execute_instance lib path_dir_app path_dir_log is (exec id args)
          ≡ some (err e))
  unfolding execute_instance
  execute-exec_out_of_bounds is id args h = elim (Bool-cases (length is == 0)) [
    | inl empty ↦ ("No instances are running", rw empty refl)
    | inr some_run ↦ ("Instance index out of bounds", rw (some_run, le→leb (length is) id h) refl)
  ]
