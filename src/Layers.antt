-- ===== src/Layers.antt =====
-- src/filesystems/layers.hpp (`Layers::push_binary`), src/filesystems/dwarfs.hpp (`is_dwarfs`) and
-- src/parser/cmd/layers.hpp (`add`): the DwarFS layers that are appended to the image, each behind its
-- size in eight bytes.
pub mod Appended
pub mod Scan
pub mod Loop
pub mod Commit
pub mod Numbering
use flatimage.Base.{
  ℕ, zero, suc, ◌+◌, ◌%◌, ◌^◌, Bool, false, not, List, [], ◌∷◌, ◌++◌, length, take, drop, Option,
  none, some, Value, ok, err, ◌==◌, if◌then◌else◌,
}
use mathlib.Core.Option
use flatimage.Base.Io.{File}
use flatimage.Bytes.{Bytes, read_at, to_bytes, from_bytes}
use flatimage.Text.{Text, text_eq, codes}

-- struct Layer
pub record Layer : Type 0 where
  pub path : Text
  pub offset : ℕ
  pub size : ℕ

abbrev pub dwarfs_magic : Bytes
dwarfs_magic = codes "DWARFS"

-- ns_dwarfs::is_dwarfs
unfoldable pub is_dwarfs : File → ℕ → Bool
is_dwarfs none offset = false
is_dwarfs (some f) offset = elim (read_at offset 6 f) [
  | none ↦ false
  | some header ↦ text_eq header dwarfs_magic
]

-- The loop of `push_binary`; the fuel counts its rounds, and `none` means that it ran out. The offset
-- is a uint64_t, so both of its sums wrap.
unfoldable pub scan : ℕ → Text → Bytes → ℕ → List Layer → Option (List Layer)
scan zero path f offset layers = none
scan (suc fuel) path f offset layers = elim (read_at offset 8 f) [
  | none ↦ some layers
  | some size_bytes ↦
      let size_fs = from_bytes size_bytes in
      let begin = (offset + 8) % 2 ^ 64 in
      let rest =
        scan fuel path f ((begin + size_fs) % 2 ^ 64)
          (layers ++ record { path = path; offset = begin; size = size_fs } ∷ []) in
      if size_fs == 0
      then some layers
      else if not (is_dwarfs (some f) begin)
      then some layers
      else rest
]

-- Layers::push_binary; a file that does not open fails the first read. seekg fails from 2^63 on, where
-- the model reads; no file is that large.
unfoldable pub push_binary : ℕ → Text → File → ℕ → List Layer → Option (List Layer)
push_binary fuel path none offset layers = some layers
push_binary fuel path (some f) offset layers = scan fuel path f offset layers

-- The loop of `add`: `chunk` bytes at a time, and once more for what is left.
copy_loop : ℕ → ℕ → Bytes → Bytes → Option Bytes
copy_loop zero chunk layer binary = none
copy_loop (suc fuel) chunk [] binary = some binary
copy_loop (suc fuel) chunk (b ∷ layer) binary =
    copy_loop fuel chunk (drop chunk (b ∷ layer)) (binary ++ take chunk (b ∷ layer))

-- sizeof(buff)
abbrev pub buffer_size : ℕ
buffer_size = 8192

add_open : Bytes → File → Option (Value (Unit {0}) × File)
add_open binary none = some (err "Failed to open input file '{}'", some binary)
add_open binary (some layer) =
    Option.map (λ out. (ok tt, some out))
      (copy_loop (suc (length layer)) buffer_size layer (binary ++ to_bytes 8 (length layer)))

-- ns_layers::add on the image and the layer's file; `none` would mean that the loop does not end
-- within as many rounds as the layer has bytes.
unfoldable pub add : File → File → Option (Value (Unit {0}) × File)
unfolding add_open copy_loop
add none layer = some (err "Failed to open output file '{}'", none)
add (some binary) layer = add_open binary layer
