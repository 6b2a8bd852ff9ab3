-- ===== src/Parser/Switches.antt =====
-- `fim-notify` and `fim-casefold`: CmdNotify and CmdCaseFold of src/parser/interface.hpp, and their
-- cases in `parse` of src/parser/parser.hpp.
use flatimage.Base.{List, [], ◌∷◌}
use flatimage.Text.{Text, codes}
use flatimage.Parser.Args.{Args, ◌>>=◌, ◌>>◌, pure, some_left, none_left, pop_enum}

pub data CmdNotifySwitch : Type 0 where
  on_notify off_notify no_notify : CmdNotifySwitch

abbrev pub notify_entries : List (CmdNotifySwitch × Text)
notify_entries =
    (on_notify, codes "ON") ∷ (off_notify, codes "OFF") ∷ (no_notify, codes "NONE") ∷ []

pub data CmdCaseFoldSwitch : Type 0 where
  on_fold off_fold no_fold : CmdCaseFoldSwitch

abbrev pub casefold_entries : List (CmdCaseFoldSwitch × Text)
casefold_entries = (on_fold, codes "ON") ∷ (off_fold, codes "OFF") ∷ (no_fold, codes "NONE") ∷ []

pub data CmdNotify : Type 0 where
  notify : CmdNotifySwitch → CmdNotify

pub data CmdCaseFold : Type 0 where
  casefold : CmdCaseFoldSwitch → CmdCaseFold

unfoldable pub parse_notify : Args CmdNotify
parse_notify = do
  status ←
      pop_enum notify_entries "Incorrect number of arguments for 'fim-notify' (<on|off>)"
        "Invalid notify switch"
  none_left "{}"
  pure (notify status)

unfoldable pub parse_casefold : Args CmdCaseFold
parse_casefold = do
  some_left "{}"
  status ←
      pop_enum casefold_entries "Incorrect number of arguments for 'fim-casefold' (<on|off>)"
        "Invalid casefold switch"
  none_left "Trailing arguments for fim-casefold: {}"
  pure (casefold status)
