-- ===== src/Parser/Plain.antt =====
-- Which command lines are no command of FlatImage's own.
use flatimage.Base.{
  ◌≡◌, ◌≢◌, ◌↔◌, refl, List, [], ◌∷◌, Value, ok, err, String, Bool, false, Bool-cases, inl, inr,
  relabel, ◌>>=◌, any,
}
use flatimage.Text.{Text, codes, starts_with, text_eq}
use flatimage.Parser.Command.{
  CmdType, none_cmd, exec_cmd, root_cmd, perms_cmd, env_cmd, desktop_cmd, layer_cmd, bind_cmd,
  notify_cmd, casefold_cmd, boot_cmd, remote_cmd, recipe_cmd, instance_cmd, overlay_cmd,
  unshare_cmd, version_cmd, FimCommand, exec_command, root_command, help_command, none_command,
  perms_command, env_command, desktop_command, layer_command, bind_command, notify_command,
  casefold_command, boot_command, remote_command, recipe_command, instance_command, overlay_command,
  unshare_command, version_command, fim_command_from_string, parse, parse_case, parse_help,
  program_with, returned, topics,
}

returned-ne :
    {A : Type 0} (v : Value (A × List Text)) (f : A → CmdType)
    → ((a : A) → f a ≢ none_cmd)
    → returned v f ≢ ok none_cmd
returned-ne (ok (a, args)) f h e = h a (cc e)
returned-ne (err m) f h e = cc e

program_with-ne :
    (cmd : Text → List Text → CmdType) (m : String) (args : List Text)
    → ((p : Text) (rest : List Text) → cmd p rest ≢ none_cmd)
    → program_with cmd m args ≢ ok none_cmd
program_with-ne cmd m [] h e = cc e
program_with-ne cmd m (p ∷ args) h e = h p args (cc e)

parse_help-ne : (args : List Text) → parse_help args ≢ ok none_cmd
unfolding parse_help
parse_help-ne [] e = cc e
parse_help-ne (topic ∷ args) e = elim (Bool-cases (any (text_eq topic) topics)) [
  | inl h ↦ cc (e, h)
  | inr h ↦ cc (e, h)
]

parse_case-ne : (c : FimCommand) (args : List Text) → parse_case c args ≢ ok none_cmd
parse_case-ne exec_command args = program_with-ne exec_cmd _ args (λ p rest e. cc e)
parse_case-ne root_command args = program_with-ne root_cmd _ args (λ p rest e. cc e)
parse_case-ne help_command args = parse_help-ne args
parse_case-ne none_command args = λ e. cc e
parse_case-ne perms_command args = returned-ne _ perms_cmd (λ a e. cc e)
parse_case-ne env_command args = returned-ne _ env_cmd (λ a e. cc e)
parse_case-ne desktop_command args = returned-ne _ desktop_cmd (λ a e. cc e)
parse_case-ne layer_command args = returned-ne _ layer_cmd (λ a e. cc e)
parse_case-ne bind_command args = returned-ne _ bind_cmd (λ a e. cc e)
parse_case-ne notify_command args = returned-ne _ notify_cmd (λ a e. cc e)
parse_case-ne casefold_command args = returned-ne _ casefold_cmd (λ a e. cc e)
parse_case-ne boot_command args = returned-ne _ boot_cmd (λ a e. cc e)
parse_case-ne remote_command args = returned-ne _ remote_cmd (λ a e. cc e)
parse_case-ne recipe_command args = returned-ne _ recipe_cmd (λ a e. cc e)
parse_case-ne instance_command args = returned-ne _ instance_cmd (λ a e. cc e)
parse_case-ne overlay_command args = returned-ne _ overlay_cmd (λ a e. cc e)
parse_case-ne unshare_command args = returned-ne _ unshare_cmd (λ a e. cc e)
parse_case-ne version_command args = returned-ne _ version_cmd (λ a e. cc e)

-- The first argument begins with fim-.
abbrev pub is_fim : List Text → Bool
is_fim (argv0 ∷ cmd_str ∷ args) = starts_with cmd_str (codes "fim-")
is_fim _ = false

started-ne :
    (v : Value FimCommand) (args : List Text) → (v >>= λ cmd. parse_case cmd args) ≢ ok none_cmd
started-ne (ok c) args e = parse_case-ne c args e
started-ne (err m) args e = cc e

-- `parse` returns CmdNone, on which the boot program is run, exactly on the command lines whose first
-- argument does not begin with fim-, or which have none: a mistyped command is never run as a program.
pub parse-none : (argv : List Text) → (parse argv ≡ ok none_cmd) ↔ (is_fim argv ≡ false)
unfolding parse
parse-none [] = ((λ h. refl), (λ h. refl))
parse-none (argv0 ∷ []) = ((λ h. refl), (λ h. refl))
parse-none (argv0 ∷ cmd_str ∷ args) = elim (Bool-cases (starts_with cmd_str (codes "fim-"))) [
  | inl e ↦ rw e (
    (λ h.
        absurd
          (started-ne (relabel (fim_command_from_string cmd_str) "Invalid fim command") args h)),
    (λ h. cc h),
  )
  | inr e ↦ rw e ((λ h. refl), (λ h. refl))
]
