-- ===== src/Parser/Desktop.antt =====
-- `fim-desktop`: CmdDesktop of src/parser/interface.hpp with IntegrationItem of src/db/desktop.hpp, and
-- its case in `parse` of src/parser/parser.hpp.
use flatimage.Base.{ℕ, not, ◌&&◌, List, [], ◌∷◌, any, length, ltb, ◌==◌, guard}
use flatimage.Text.{Text, codes, split}
use flatimage.Parser.Args.{
  Args, ◌>>=◌, ◌>>◌, pure, fail, popped, pop_front, none_left, pop_enum, insert_each,
}

pub data CmdDesktopOp : Type 0 where
  clean_op dump_op enable_op setup_op none_op : CmdDesktopOp

abbrev pub op_entries : List (CmdDesktopOp × Text)
op_entries =
    (clean_op, codes "CLEAN")
    ∷ (dump_op, codes "DUMP")
    ∷ (enable_op, codes "ENABLE")
    ∷ (setup_op, codes "SETUP")
    ∷ (none_op, codes "NONE")
    ∷ []

pub data CmdDesktopDump : Type 0 where
  entry_dump icon_dump mimetype_dump none_dump : CmdDesktopDump

abbrev pub dump_entries : List (CmdDesktopDump × Text)
dump_entries =
    (entry_dump, codes "ENTRY")
    ∷ (icon_dump, codes "ICON")
    ∷ (mimetype_dump, codes "MIMETYPE")
    ∷ (none_dump, codes "NONE")
    ∷ []

pub data IntegrationItem : Type 0 where
  entry_item mimetype_item icon_item none_item : IntegrationItem

abbrev pub item_entries : List (IntegrationItem × Text)
item_entries =
    (entry_item, codes "ENTRY")
    ∷ (mimetype_item, codes "MIMETYPE")
    ∷ (icon_item, codes "ICON")
    ∷ (none_item, codes "NONE")
    ∷ []

abbrev pub ordinal : IntegrationItem → ℕ
ordinal entry_item = 0
ordinal mimetype_item = 1
ordinal icon_item = 2
ordinal none_item = 3

-- The variant of CmdDesktop::Dump
pub data Dump : Type 0 where
  icon : Text → Dump
  entry : Dump
  mimetype : Dump

-- The variant `sub_cmd`. A std::set is the list of its members, in their order.
pub data CmdDesktop : Type 0 where
  clean : CmdDesktop
  dump : Dump → CmdDesktop
  enable : List IntegrationItem → CmdDesktop
  setup : Text → CmdDesktop

abbrev pub dump_case : CmdDesktopDump → Args Dump
dump_case icon_dump = do
  path_file_icon ← pop_front "Missing argument for 'icon' /path/to/dump/file"
  pure (icon path_file_icon)
dump_case entry_dump = pure entry
dump_case mimetype_dump = pure mimetype
dump_case none_dump = fail "Invalid desktop dump operation"

abbrev pub desktop_case : CmdDesktopOp → Args CmdDesktop
desktop_case setup_op = do
  path_file_setup ← pop_front "Missing argument for 'setup' (/path/to/file.json)"
  pure (setup path_file_setup)
desktop_case enable_op = do
  arg ← pop_front "Missing arguments for 'enable' (entry,mimetype,icon,none)"
  set_enable ←
      popped (insert_each ordinal item_entries "Invalid integration item" [] (split arg b','))
  popped (
      guard
        (not (ltb 1 (length set_enable) && any (λ i. ordinal i == ordinal none_item) set_enable))
        "'none' option should not be used with others")
  pure (enable set_enable)
desktop_case dump_op = do
  op_dump ←
      pop_enum dump_entries "Missing arguments for 'dump' (entry,mimetype,icon)"
        "Invalid dump operation"
  dumped ← dump_case op_dump
  pure (dump dumped)
desktop_case clean_op = pure clean
desktop_case none_op = fail "Invalid desktop operation"

unfoldable pub parse_desktop : Args CmdDesktop
parse_desktop = do
  op ←
      pop_enum op_entries "Missing op for 'fim-desktop' (enable,setup,clean,dump)"
        "Invalid desktop operation"
  cmd ← desktop_case op
  none_left "Trailing arguments for fim-desktop: {}"
  pure cmd
