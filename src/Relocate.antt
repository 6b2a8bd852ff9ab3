-- ===== src/Relocate.antt =====
-- src/boot/relocate.hpp: the executables that are copied out of the image, up to the check of the
-- offset behind them. The names of the tools, which the build embeds, are an argument; the making of
-- directories and links, permissions, the environment and the start of the copy are left out.
pub mod Written
use flatimage.Base.{
  ℕ, ◌+◌, ◌-◌, ◌%◌, ◌^◌, Bool, true, false, not, if◌then◌else◌, Option, none, some, Value, ok, err,
  List, [], ◌∷◌, ltb, ◌==◌,
}
use flatimage.Base.Run
use flatimage.Base.Run.{Run, pure, ◌>>=◌, ◌>>◌}
use flatimage.Bytes.{Bytes, read_at, from_bytes}
use flatimage.Text.{Text, codes}
use flatimage.Text.Paths.{◌/◌}
use flatimage.Host.{Host, file_at, exists, stored}
use flatimage.Elf.{skip_elf_header, copy_binary}

unless : Bool → Run Host (Unit {0}) → Run Host (Unit {0})
unless true step = pure tt
unless false step = step

-- f_write_from_header: the offset behind the executable.
unfoldable pub f_write_from_header : Bytes → Text → Text → ℕ → Run Host ℕ
unfolding unless
f_write_from_header buffer self path_file offset_beg = do
  size ← Run.looks (λ host. skip_elf_header (file_at self host) offset_beg)
  λ host.
      unless (exists path_file host)
        (copy_binary buffer self path_file offset_beg ((size + offset_beg) % 2 ^ 64)) host
  pure ((size + offset_beg) % 2 ^ 64)

-- What tellg says behind a seek to an offset, which fails where this is no std::streamoff.
abbrev pub told : ℕ → ℕ
told offset = if ltb offset (2 ^ 63) then offset else 2 ^ 64 - 1

-- The `else` of f_write_from_offset; none where the vector has no room for its size.
unfoldable pub write_blob : Bytes → Text → ℕ → ℕ → Run Host ℕ
write_blob f path_file offset_beg size host =
    if ltb size (2 ^ 63)
    then elim (read_at (offset_beg + 8) size f) [
      | none ↦ Run.fail "Could not read binary" host
      | some buffer ↦ some (ok (told (offset_beg + 8 + size)), stored path_file buffer host)
    ]
    else none

-- f_write_from_offset, on the image that file_binary reads.
unfoldable pub f_write_from_offset : Bytes → Text → ℕ → Run Host ℕ
f_write_from_offset f path_file offset_beg host = elim (read_at offset_beg 8 f) [
  | none ↦ Run.fail "Could not read binary size" host
  | some size_bytes ↦
      let size = from_bytes size_bytes in
      let written = write_blob f path_file offset_beg size host in
      if exists path_file host
      then some (ok (told ((offset_beg + size + 8) % 2 ^ 64)), host)
      else written
]

-- The loop over the tools.
unfoldable pub write_tools : Bytes → Text → List Text → ℕ → Run Host ℕ
write_tools f app_bin [] offset_end = pure offset_end
write_tools f app_bin (tool ∷ tools) offset_end = do
  offset_end' ← f_write_from_offset f (app_bin / tool) offset_end
  write_tools f app_bin tools offset_end'

-- The stream that is opened before the first executable is written.
opened : Option Bytes → Run Host Bytes
opened none = Run.fail "Could not open flatimage binary file"
opened (some f) = pure f

checked : ℕ → ℕ → Run Host ℕ
checked offset offset_end host =
    if offset_end == offset
    then some (ok offset_end, host)
    else Run.fail "Broken image actual offset({}) != offset({})" host

-- relocate_impl: the offset that goes into FIM_OFFSET.
unfoldable pub relocate_impl : Bytes → Text → Text → List Text → ℕ → Run Host ℕ
unfolding opened checked
relocate_impl buffer self app_bin tools offset = do
  self_end ← Run.looks (λ host. skip_elf_header (file_at self host) 0)
  f ← (λ host. opened (file_at self host) host)
  offset_end ← f_write_from_header buffer self (app_bin / codes "fim_boot") 0
  offset_end' ← write_tools f app_bin tools offset_end
  checked offset offset_end'
