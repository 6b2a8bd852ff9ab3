-- ===== src/Db/Portal.antt =====
-- src/db/portal: what the processes of the portal tell each other.
pub mod Message
pub mod Dispatcher
pub mod Daemon
use flatimage.Base.{List, [], ◌∷◌}
use flatimage.Text.{Text, codes}

-- ENUM(Mode, HOST, GUEST) of src/db/portal/daemon.hpp, which adds NONE
pub data Mode : Type 0 where
  host guest none_mode : Mode

abbrev pub mode_entries : List (Mode × Text)
mode_entries = (host, codes "HOST") ∷ (guest, codes "GUEST") ∷ (none_mode, codes "NONE") ∷ []

-- The conversion to std::string.
abbrev pub mode_name : Mode → Text
mode_name host = codes "HOST"
mode_name guest = codes "GUEST"
mode_name none_mode = codes "NONE"

-- Mode::lower
abbrev pub mode_lower : Mode → Text
mode_lower host = codes "host"
mode_lower guest = codes "guest"
mode_lower none_mode = codes "none"
