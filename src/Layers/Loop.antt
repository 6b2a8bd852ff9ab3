-- ===== src/Layers/Loop.antt =====
-- A size field with which the offset of `push_binary` wraps round to where it was.
use flatimage.Base.{ℕ, zero, suc, ◌+◌, ◌-◌, ◌%◌, ◌^◌, ◌<◌, ◌≡◌, refl, true, List, none, some, arith}
use flatimage.Bytes.{Bytes, read_at, from_bytes}
use flatimage.Text.{Text}
use flatimage.Layers.{Layer, is_dwarfs, scan, push_binary}

-- Where the image has the size 2^64 - 8 at an offset below 2^64 - 8, in front of a DwarFS identifier,
-- `push_binary` from this offset does not end:
-- no number of rounds is enough, since each round returns to the same offset with one more layer.
pub push_binary_diverges :
    (fuel : ℕ) (path : Text) (f size_bytes : Bytes) (offset : ℕ) (layers : List Layer)
    → read_at offset 8 f ≡ some size_bytes
    → from_bytes size_bytes ≡ 2 ^ 64 - 8
    → offset + 8 < 2 ^ 64
    → is_dwarfs (some f) (offset + 8) ≡ true
    → push_binary fuel path (some f) offset layers ≡ none
unfolding push_binary scan
push_binary_diverges zero path f size_bytes offset layers found huge small magic = refl
push_binary_diverges (suc fuel) path f size_bytes offset layers found huge small magic =
    rw (found, scan, huge, begins, magic, back)
      (push_binary_diverges fuel path f size_bytes offset _ found huge small magic)
  where
    begins : (offset + 8) % 2 ^ 64 ≡ offset + 8
    begins = omega arith

    back : (offset + 8 + (2 ^ 64 - 8)) % 2 ^ 64 ≡ offset
    back = omega arith
