-- ===== src/Flags/Unshare.antt =====
-- src/reserved/unshare.hpp: the enumeration, its masks, and the class over them.
pub mod Lawful
use flatimage.Base.{ℕ, ◌^◌, List, [], ◌∷◌}
use flatimage.Reserved.{unshare}
use flatimage.Text.{Text, codes}
use flatimage.Flags.{Flagset}

-- ENUM(Unshare, ...), which adds NONE
pub data Unshare : Type 0 where
  all user ipc pid net uts cgroup none : Unshare

abbrev pub ordinal : Unshare → ℕ
ordinal all = 0
ordinal user = 1
ordinal ipc = 2
ordinal pid = 3
ordinal net = 4
ordinal uts = 5
ordinal cgroup = 6
ordinal none = 7

abbrev pub name : Unshare → Text
name all = codes "ALL"
name user = codes "USER"
name ipc = codes "IPC"
name pid = codes "PID"
name net = codes "NET"
name uts = codes "UTS"
name cgroup = codes "CGROUP"
name none = codes "NONE"

abbrev pub entries : List (Unshare × Text)
entries =
    (all, name all)
    ∷ (user, name user)
    ∷ (ipc, name ipc)
    ∷ (pid, name pid)
    ∷ (net, name net)
    ∷ (uts, name uts)
    ∷ (cgroup, name cgroup)
    ∷ (none, name none)
    ∷ []

-- Bits{1} << 0, Bits{1} << 1, ...
abbrev pub masks : List (Unshare × ℕ)
masks =
    (user, 2 ^ 0) ∷ (ipc, 2 ^ 1) ∷ (pid, 2 ^ 2) ∷ (net, 2 ^ 3) ∷ (uts, 2 ^ 4) ∷ (cgroup, 2 ^ 5) ∷ []

abbrev pub unshares_class : Flagset
unshares_class = record {
  Flag = Unshare;
  ordinal = ordinal;
  all_flag = all;
  none_flag = none;
  name = name;
  masks = masks;
  sizeof_bits = 2;
  region = unshare;
  not_found = "Unshare option '{}' not found";
  invalid_none = "Invalid unshare option 'NONE'";
  all_with_others = "Unshare option 'all' should not be used with others";
}
