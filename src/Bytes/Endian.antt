-- ===== src/Bytes/Endian.antt =====
-- Integers through their bytes, and strings through a buffer padded with zeros.
use flatimage.Base.{
  ℕ, zero, suc, ◌/◌, ◌^◌, ◌<◌, ◌≡◌, refl, ap, some, [], ◌∷◌, ◌++◌, length, replicate, arith,
}
use flatimage.Bytes.{Bytes, to_bytes, from_bytes, c_string}
use native.Mathlib.Nat.{pow-suc}

pub length-to_bytes : (size x : ℕ) → length (to_bytes size x) ≡ size
unfolding to_bytes
length-to_bytes zero x = refl
length-to_bytes (suc size) x = ap suc (length-to_bytes size (x / 256))

pub from_bytes-to_bytes : (size x : ℕ) → x < 256 ^ size → from_bytes (to_bytes size x) ≡ x
unfolding to_bytes from_bytes
from_bytes-to_bytes zero x h = omega arith
from_bytes-to_bytes (suc size) x h =
    omega (arith, from_bytes-to_bytes size (x / 256) (omega (arith, pow-suc 256 size)))

abbrev pub HasNoNul : Bytes → Type 0
HasNoNul [] = Unit
HasNoNul (b ∷ bs) = (0 < b) × HasNoNul bs

-- A text without NUL in a buffer with at least one zero behind it is read back whole.
pub c_string-padded :
    (s : Bytes) (k : ℕ) → HasNoNul s → c_string (s ++ replicate (suc k) 0) ≡ some s
unfolding c_string replicate
c_string-padded [] k h = refl
c_string-padded (b ∷ s) k h = ground (arith, c_string-padded s k h.1)
