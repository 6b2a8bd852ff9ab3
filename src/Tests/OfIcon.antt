-- ===== src/Tests/OfIcon.antt =====
-- The theorems about the icon at an image.
use flatimage.Base.{
  ◌+◌, ◌-◌, ◌++◌, ℕ, ◌^◌, ◌-◌, ◌≡◌, refl, [], ◌∷◌, length, replicate, length-replicate, leb,
  if◌then◌else◌, some, none, ok, err, arith,
}
use flatimage.Bytes.{Bytes, to_bytes}
use flatimage.Reserved.{icon, offset_begin, offset_end, read}
use flatimage.Text.{codes}
use flatimage.Reserved.Icon.{Icon, IsIcon, data_size, icon_write, icon_read, icon_read-icon_write}
use flatimage.Reserved.IconSetup.{make_icon, make_icon_overflow}
use flatimage.Tests.Image.{empty_image, empty_image-IsImage}

abbrev small_icon : Icon
small_icon = record {
  m_ext = b'p' ∷ b'n' ∷ b'g' ∷ 0 ∷ [];
  m_data = replicate data_size 7;
  m_size = 100;
}

small_icon-IsIcon : IsIcon small_icon
small_icon-IsIcon = record {
  ext_size = refl;
  data_fills = length-replicate {A = ℕ} data_size 7;
  size_fits = omega arith;
}

icon_read-icon_write_example :
    ((icon_write 0 small_icon (some empty_image)).0 ≡ ok tt)
    × (icon_read 0 (icon_write 0 small_icon (some empty_image)).1 ≡ ok small_icon)
    × (length (small_icon.m_ext ++ (small_icon.m_data ++ to_bytes 8 100))
        ≡ offset_end icon - offset_begin icon)
    × (read
          (0 + offset_begin icon)
          (offset_end icon - offset_begin icon)
          (icon_write 0 small_icon (some empty_image)).1
        ≡ ok (small_icon.m_ext ++ (small_icon.m_data ++ to_bytes 8 100)))
icon_read-icon_write_example =
    icon_read-icon_write 0 small_icon empty_image empty_image-IsImage small_icon-IsIcon

-- One byte more than m_data has.
abbrev too_large : Bytes
too_large = replicate (2 ^ 20 - 11) 1

make_icon_overflow_example :
    make_icon 0 (codes "png") too_large
    ≡ (if leb (2 ^ 20) (length too_large) then some (err "File is too large, '{}' bytes") else none)
make_icon_overflow_example =
    make_icon_overflow 0 (codes "png") too_large (omega arith)
      (omega (arith, length-replicate {A = ℕ} (2 ^ 20 - 11) 1))
