-- ===== src/Reserved/Small.antt =====
-- src/reserved/notify.hpp, casefold.hpp and overlay.hpp: the regions of one byte.
use flatimage.Base.{String, ℕ, ◌+◌, ◌==◌, not, if◌then◌else◌, Value, ok, err, ◌>>=◌}
use flatimage.Base.Io
use flatimage.Base.Io.{File, Io}
use flatimage.Bytes.{to_bytes, from_bytes}
use flatimage.Reserved.{
  Region, notify, casefold, overlay, offset_begin, offset_end, sub_u64, write, read,
}

unfoldable pub byte_write : Region → String → ℕ → ℕ → Io (Unit {0})
byte_write r message base value =
    if not (sub_u64 (base + offset_end r) (base + offset_begin r) == 1)
    then Io.fail message
    else write (base + offset_begin r) (base + offset_end r) (to_bytes 1 value)

unfoldable pub byte_read : Region → ℕ → File → Value ℕ
byte_read r base file = do bytes ← read (base + offset_begin r) 1 file; ok (from_bytes bytes)

-- ns_notify::write of a uint8_t
unfoldable pub notify_write : ℕ → ℕ → Io (Unit {0})
unfolding byte_write
notify_write = byte_write notify "Incorrect number of bytes to write notification flag: {} vs {}"

unfoldable pub notify_read : ℕ → File → Value ℕ
unfolding byte_read
notify_read = byte_read notify

-- ns_casefold::write
unfoldable pub casefold_write : ℕ → ℕ → Io (Unit {0})
unfolding byte_write
casefold_write =
    byte_write casefold "Incorrect number of bytes to write notification flag: {} vs {}"

-- ns_casefold::read; a read that succeeds has counted its one byte.
unfoldable pub casefold_read : ℕ → File → Value ℕ
unfolding byte_read
casefold_read = byte_read casefold

-- ENUM(OverlayType, BWRAP, OVERLAYFS, UNIONFS), which adds NONE
pub data OverlayType : Type 0 where
  bwrap overlayfs unionfs none_type : OverlayType

-- The switch of ns_overlay::write.
abbrev pub mask_of : OverlayType → Value ℕ
mask_of bwrap = ok 2
mask_of overlayfs = ok 4
mask_of unionfs = ok 8
mask_of none_type = err "Invalid overlay option"

unfoldable pub overlay_write : ℕ → OverlayType → Io (Unit {0})
unfolding byte_write
overlay_write base type =
    Io.and_then (Io.reads (λ _. mask_of type))
      (byte_write overlay "Incorrect number of bytes to write overlay mask: {} vs {}" base)

-- The switch of ns_overlay::read.
abbrev pub type_of : ℕ → Value OverlayType
type_of mask =
    if mask == 2
    then ok bwrap
    else if mask == 4
    then ok overlayfs
    else if mask == 8
    then ok unionfs
    else err "Invalid overlay option"

unfoldable pub overlay_read : ℕ → File → Value OverlayType
unfolding byte_read
overlay_read base file = do mask ← byte_read overlay base file; type_of mask
