-- ===== src/Tests/Image.antt =====
-- An image for the runs.
use flatimage.Base.{ℕ, replicate, length-replicate, arith}
use flatimage.Bytes.{Bytes}
use flatimage.Reserved.{mib}
use flatimage.Reserved.Layout.{IsImage}

-- An image whose reserved space is all zeros.
abbrev pub empty_image : Bytes
empty_image = replicate (mib 4) 0

pub empty_image-IsImage : IsImage 0 empty_image
empty_image-IsImage = record {
  base_fits = omega arith;
  space_fits = omega (arith, length-replicate {A = ℕ} (mib 4) 0);
}
