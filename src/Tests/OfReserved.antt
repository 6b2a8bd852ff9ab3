-- ===== src/Tests/OfReserved.antt =====
-- The theorems about the reserved space at an image.
use flatimage.Base.{◌+◌, ◌≤◌, ◌≡◌, ◌⊎◌, ◌↔◌, inr, length, replicate, some, ok, arith}
use flatimage.Bytes.{Bytes}
use flatimage.Reserved.{boot, icon, bindings, offset_begin, offset_end, mib, write, read}
use flatimage.Reserved.Layout.{size, IsImage, regions_disjoint}
use flatimage.Reserved.Access.{padded, read-write, read-write_outside, read-write_ne, write-IsImage}
use flatimage.Reserved.Text.{text_write, text_read}
use flatimage.Reserved.TextLaws.{text_read-text_write}
use flatimage.Text.{Text, codes}
use flatimage.Tests.Image.{empty_image, empty_image-IsImage}

abbrev json : Text
json = codes "{\"bind\":[]}"

read-write_example :
    read
      (0 + offset_begin boot)
      (size boot)
      (write (0 + offset_begin boot) (0 + offset_end boot) json (some empty_image)).1
    ≡ ok (padded boot json)
read-write_example = read-write 0 boot json empty_image empty_image-IsImage (omega arith)

read-write_outside_example :
    read (mib 4) 100 (write (0 + offset_begin boot) (0 + offset_end boot) json (some empty_image)).1
    ≡ read (mib 4) 100 (some empty_image)
read-write_outside_example =
    read-write_outside 0 boot json empty_image (mib 4) 100 empty_image-IsImage (inr (omega arith))

read-write_ne_example :
    read
      (0 + offset_begin icon)
      (size icon)
      (write (0 + offset_begin boot) (0 + offset_end boot) json (some empty_image)).1
    ≡ read (0 + offset_begin icon) (size icon) (some empty_image)
read-write_ne_example = read-write_ne 0 boot icon json empty_image empty_image-IsImage (λ e. cc e)

write-IsImage_example :
    (g : Bytes) × ((write (0 + offset_begin boot) (0 + offset_end boot) json (some empty_image)).1
      ≡ some g)
    × IsImage 0 g
    × (length g ≡ length empty_image)
    × (((write (0 + offset_begin boot) (0 + offset_end boot) json (some empty_image)).0 ≡ ok tt)
        ↔ (length json ≤ size boot))
write-IsImage_example = write-IsImage 0 boot json empty_image empty_image-IsImage

regions_disjoint_example :
    (offset_end boot ≤ offset_begin icon) ⊎ (offset_end icon ≤ offset_begin boot)
regions_disjoint_example = regions_disjoint boot icon (λ e. cc e)

text_read-text_write_example :
    ((text_write bindings "" 0 json (some empty_image)).0 ≡ ok tt)
    × (text_read bindings 0 (text_write bindings "" 0 json (some empty_image)).1 ≡ some (ok json))
text_read-text_write_example =
    text_read-text_write bindings "" 0 json empty_image empty_image-IsImage (omega arith)
      (ground arith)

abbrev too_long : Text
too_long = replicate (mib 2) b'x'
