-- ===== src/Reserved.antt =====
-- src/reserved/reserved.hpp: the layout of the reserved space, and the two functions through which
-- every component reads and writes its field. `base` stands for FIM_RESERVED_OFFSET, a uint32_t that
-- the build patches into the binary. A file that opens is taken to have no device errors.
pub mod Layout
pub mod Access
pub mod Text
pub mod TextLaws
pub mod Small
pub mod SmallLaws
pub mod Icon
pub mod IconSetup
use flatimage.Base.{
  ℕ, ◌+◌, ◌*◌, ◌-◌, ◌%◌, ◌^◌, Bool, List, length, replicate, ltb, if◌then◌else◌, none, some, Value,
  ok, err,
}
use flatimage.Base.Io.{File, Io}
use flatimage.Bytes.{Bytes, write_at, read_at}

-- operator""_kib and operator""_mib of src/common.hpp
abbrev pub kib : ℕ → ℕ
kib n = n * 1024

abbrev pub mib : ℕ → ℕ
mib n = n * 1048576

-- The fields of the struct `Reserved`, in the order of the layout.
pub data Region : Type 0 where
  permissions notify overlay casefold desktop boot icon : Region
  environment bindings remote unshare : Region

-- fim_reserved_offset_*_end: each region begins where the one above it ends.
abbrev permissions_end : ℕ
permissions_end = 0 + 8

abbrev notify_end : ℕ
notify_end = permissions_end + 1

abbrev overlay_end : ℕ
overlay_end = notify_end + 1

abbrev casefold_end : ℕ
casefold_end = overlay_end + 1

abbrev desktop_end : ℕ
desktop_end = casefold_end + kib 4

abbrev boot_end : ℕ
boot_end = desktop_end + kib 8

abbrev icon_end : ℕ
icon_end = boot_end + mib 1

abbrev environment_end : ℕ
environment_end = icon_end + mib 1

abbrev bindings_end : ℕ
bindings_end = environment_end + mib 1

abbrev remote_end : ℕ
remote_end = bindings_end + kib 4

abbrev unshare_end : ℕ
unshare_end = remote_end + 2

abbrev pub offset_begin : Region → ℕ
offset_begin permissions = 0
offset_begin notify = permissions_end
offset_begin overlay = notify_end
offset_begin casefold = overlay_end
offset_begin desktop = casefold_end
offset_begin boot = desktop_end
offset_begin icon = boot_end
offset_begin environment = icon_end
offset_begin bindings = environment_end
offset_begin remote = bindings_end
offset_begin unshare = remote_end

abbrev pub offset_end : Region → ℕ
offset_end permissions = permissions_end
offset_end notify = notify_end
offset_end overlay = overlay_end
offset_end casefold = casefold_end
offset_end desktop = desktop_end
offset_end boot = boot_end
offset_end icon = icon_end
offset_end environment = environment_end
offset_end bindings = bindings_end
offset_end remote = remote_end
offset_end unshare = unshare_end

-- FIM_RESERVED_SIZE, as deploy/flatimage.sh exports it.
abbrev pub fim_reserved_size : ℕ
fim_reserved_size = mib 4

-- uint64_t subtraction.
abbrev pub sub_u64 : ℕ → ℕ → ℕ
sub_u64 a b = (a + 2 ^ 64 - b) % 2 ^ 64

write_open : File → ℕ → ℕ → Bytes → Value (Unit {0}) × File
write_open none offset size data_ = (err "Failed to open input file", none)
write_open (some f) offset size data_ =
    (ok tt, some (write_at offset data_ (write_at offset (replicate size 0) f)))

-- ns_reserved::write
unfoldable pub write : ℕ → ℕ → Bytes → Io (Unit {0})
unfolding write_open
write offset_begin offset_end data_ f =
    let size = sub_u64 offset_end offset_begin in
    if ltb size (length data_)
    then (err "Size of data exceeds available space", f)
    else write_open f offset_begin size data_

read_open : Bytes → ℕ → ℕ → Value Bytes
read_open f offset len = elim (read_at offset len f) [
  | none ↦ err "Failed to read data from binary file"
  | some d ↦ ok d
]

-- ns_reserved::read; the count that it returns is the length of the bytes.
unfoldable pub read : ℕ → ℕ → File → Value Bytes
unfolding read_open
read offset len none = err "Failed to open input file"
read offset len (some f) = read_open f offset len
