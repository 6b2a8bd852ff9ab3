-- ===== src/Elf.antt =====
-- src/lib/elf.hpp: the end of an executable by its header, and the copy of a section of a file.
pub mod Copied
use flatimage.Base.{
  ℕ, zero, suc, ◌+◌, ◌-◌, ◌*◌, ◌%◌, ◌^◌, min, Bool, true, false, not, if◌then◌else◌, Option, none,
  some, Value, ok, err, List, [], ◌∷◌, ◌++◌, length, take, drop, ltb, leb, ◌==◌,
}
use flatimage.Base.Io.{File}
use flatimage.Base.Run
use flatimage.Base.Run.{Run}
use flatimage.Bytes.{Bytes, read_at, from_bytes}
use flatimage.Text.{Text, codes, text_eq}
use flatimage.Host.{Host, file_at, is_directory, stored}

-- ELFMAG
abbrev pub elf_magic : Bytes
elf_magic = 127 ∷ codes "ELF"

-- A field of Elf64_Ehdr, of 64 bytes.
abbrev pub field : ℕ → ℕ → Bytes → ℕ
field offset size header = from_bytes (take size (drop offset header))

abbrev pub e_shoff : Bytes → ℕ
e_shoff = field 40 8

abbrev pub e_ehsize : Bytes → ℕ
e_ehsize = field 52 2

abbrev pub e_shnum : Bytes → ℕ
e_shnum = field 60 2

-- none where the product of the two uint16_t overflows an int.
unfoldable pub end_of_header : Bytes → Option (Value ℕ)
end_of_header header =
    let sections = e_ehsize header * e_shnum header in
    if not (text_eq (take 4 header) elf_magic)
    then some (err "'{}' not an elf file")
    else if ltb sections (2 ^ 31)
    then some (ok ((e_shoff header + sections) % 2 ^ 64))
    else none

-- The offset is a long for fseek.
unfoldable pub skip_elf_header : File → ℕ → Option (Value ℕ)
skip_elf_header none offset = some (err "Could not open file '{}': {}")
skip_elf_header (some f) offset =
    if leb (2 ^ 63) offset
    then some (err "Could not seek in file '{}': {}")
    else elim (read_at offset 64 f) [
      | none ↦ some (err "Could not read elf header")
      | some header ↦ end_of_header header
    ]

-- size_buf
abbrev pub size_buf : ℕ
size_buf = 4096

-- The loop of copy_binary, from a position of the input: what a read does not fill stays in the buffer.
unfoldable pub copy_chunks : ℕ → Bytes → ℕ → ℕ → Bytes → Bytes → Option Bytes
copy_chunks zero f_in position size buffer f_out = none
copy_chunks (suc fuel) f_in position size buffer f_out =
    let read_size = min size_buf size in
    let got = take read_size (drop position f_in) in
    let filled = got ++ drop (length got) buffer in
    let rest =
      copy_chunks fuel f_in (position + read_size) (size - read_size) filled
        (f_out ++ take read_size filled) in
    if size == 0 then some f_out else rest

abbrev pub written : Text → Host → Option Bytes → Option (Value (Unit {0}) × Host)
written path host none = none
written path host (some content) = some (ok tt, stored path content host)

-- copy_binary, with what the buffer holds at first. The size is a uint64_t; as many rounds as it says
-- are enough, and one more.
unfoldable pub copy_binary : Bytes → Text → Text → ℕ → ℕ → Run Host (Unit {0})
copy_binary buffer path_file_input path_file_output first second host =
    elim (file_at path_file_input host) [
      | none ↦ Run.fail "Failed to open in file {}" host
      | some f_in ↦
          let size = (second + 2 ^ 64 - first) % 2 ^ 64 in
          if is_directory path_file_output host
          then Run.fail "Failed to open out file {}" host
          else written path_file_output host (copy_chunks (suc size) f_in first size buffer [])
    ]
