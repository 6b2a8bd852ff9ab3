-- ===== src/Bytes.antt =====
-- A file as its bytes, and what the streams of the program do with it: std::fstream::seekp, write,
-- seekg and read (src/reserved/reserved.hpp, src/filesystems/layers.hpp, src/lib/elf.hpp).
-- A byte is a number; that it is below 256 is stated where a proof depends on it.
pub mod Access
pub mod Endian
use flatimage.Base.{
  ℕ, zero, suc, ◌+◌, ◌*◌, ◌/◌, ◌%◌, Option, none, some, List, [], ◌∷◌, Bool, false, true, ◌==◌,
  if◌then◌else◌,
}
use mathlib.Core.Option

abbrev pub Bytes : Type 0
Bytes = List ℕ

-- file.write(data, size) where the file position stands: bytes are replaced, or appended at the end.
unfoldable pub overwrite : Bytes → Bytes → Bytes
overwrite [] f = f
overwrite (x ∷ d) [] = x ∷ overwrite d []
overwrite (x ∷ d) (y ∷ f) = x ∷ overwrite d f

-- file.seekp(offset); file.write(data, size). A gap behind the end of the file reads as zeros, and
-- a write of no bytes leaves the file alone.
unfoldable pub write_at : ℕ → Bytes → Bytes → Bytes
write_at n [] f = f
write_at zero (x ∷ d) f = overwrite (x ∷ d) f
write_at (suc n) (x ∷ d) [] = 0 ∷ write_at n (x ∷ d) []
write_at (suc n) (x ∷ d) (y ∷ f) = y ∷ write_at n (x ∷ d) f

-- file.seekg(offset); file.read(data, size): fails unless all the bytes are there.
unfoldable pub read_at : ℕ → ℕ → Bytes → Option Bytes
read_at zero zero f = some []
read_at zero (suc l) [] = none
read_at zero (suc l) (x ∷ f) = Option.map (λ r. x ∷ r) (read_at zero l f)
read_at (suc n) zero f = some []
read_at (suc n) (suc l) [] = none
read_at (suc n) (suc l) (x ∷ f) = read_at n (suc l) f

-- reinterpret_cast<char*>(&x) of a `size`-byte unsigned integer on a little-endian machine.
unfoldable pub to_bytes : ℕ → ℕ → Bytes
to_bytes zero x = []
to_bytes (suc size) x = x % 256 ∷ to_bytes size (x / 256)

-- The unsigned integer that the bytes stand for.
unfoldable pub from_bytes : Bytes → ℕ
from_bytes [] = 0
from_bytes (b ∷ bs) = b + 256 * from_bytes bs

-- std::string(char const*): the bytes before the first NUL; `none` where the buffer has no NUL and
-- the read would leave it.
unfoldable pub c_string : Bytes → Option Bytes
c_string [] = none
c_string (b ∷ bs) =
    let rest = Option.map (λ r. b ∷ r) (c_string bs) in if b == 0 then some [] else rest
