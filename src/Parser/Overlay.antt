-- ===== src/Parser/Overlay.antt =====
-- `fim-overlay`: CmdOverlay of src/parser/interface.hpp, and its case in `parse` of src/parser/parser.hpp.
use flatimage.Base.{List, [], ◌∷◌}
use flatimage.Text.{Text, codes}
use flatimage.Parser.Args.{Args, ◌>>=◌, ◌>>◌, pure, fail, none_left, pop_enum}
use flatimage.Reserved.Small.{OverlayType, bwrap, overlayfs, unionfs, none_type}

pub data CmdOverlayOp : Type 0 where
  set_op show_op none_op : CmdOverlayOp

abbrev pub op_entries : List (CmdOverlayOp × Text)
op_entries = (set_op, codes "SET") ∷ (show_op, codes "SHOW") ∷ (none_op, codes "NONE") ∷ []

abbrev pub type_entries : List (OverlayType × Text)
type_entries =
    (bwrap, codes "BWRAP")
    ∷ (overlayfs, codes "OVERLAYFS")
    ∷ (unionfs, codes "UNIONFS")
    ∷ (none_type, codes "NONE")
    ∷ []

-- The variant `sub_cmd`
pub data CmdOverlay : Type 0 where
  set : OverlayType → CmdOverlay
  show : CmdOverlay

abbrev pub overlay_case : CmdOverlayOp → Args CmdOverlay
overlay_case set_op = do
  overlay ← pop_enum type_entries "Missing argument for 'set'" "Invalid overlay type"
  pure (set overlay)
overlay_case show_op = pure show
overlay_case none_op = fail "Invalid operation for fim-overlay"

unfoldable pub parse_overlay : Args CmdOverlay
parse_overlay = do
  op ← pop_enum op_entries "Missing op for 'fim-overlay' (<set|show>)" "Invalid overlay operation"
  cmd ← overlay_case op
  none_left "Trailing arguments for fim-overlay: {}"
  pure cmd
