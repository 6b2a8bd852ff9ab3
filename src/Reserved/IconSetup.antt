-- ===== src/Reserved/IconSetup.antt =====
-- src/parser/cmd/desktop.hpp, the part of `setup` that puts the bytes of an image file into the struct
-- Icon. The format of the file, by its extension, is the argument `str_ext`.
use flatimage.Base.{
  ℕ, ◌+◌, ◌-◌, ◌^◌, ◌≤◌, ◌<◌, ◌≡◌, refl, ◌++◌, length, take, replicate, leb, le→leb, lt→leb_false,
  length-append, length-take, length-replicate, if◌then◌else◌, Option, some, none, Value, ok, err,
  arith,
}
use flatimage.Bytes.{Bytes}
use flatimage.Reserved.{icon, offset_begin, offset_end, sub_u64}
use flatimage.Reserved.Layout.{size, size_lem}
use flatimage.Reserved.Icon.{Icon, IsIcon, data_size, take_front}
use flatimage.Text.{Text}

-- The two calls of memcpy into a struct of zeros; `none` is a copy behind the end of m_data.
abbrev pub copy_image : Text → Bytes → Option (Value Icon)
copy_image str_ext image =
    if leb (length image) data_size
    then some (
        ok record {
          m_ext = take 3 str_ext ++ replicate (4 - length (take 3 str_ext)) 0;
          m_data = image ++ replicate (data_size - length image) 0;
          m_size = length image;
        })
    else none

unfoldable pub make_icon : ℕ → Text → Bytes → Option (Value Icon)
make_icon base str_ext image =
    if leb (sub_u64 (base + offset_end icon) (base + offset_begin icon)) (length image)
    then some (err "File is too large, '{}' bytes")
    else copy_image str_ext image

-- Where the reserved space begins below 2^32, an image file that fits m_data gives a struct Icon whose first m_size bytes of data are the file's.
pub make_icon-IsIcon :
    (base : ℕ) (str_ext : Text) (image : Bytes)
    → base < 2 ^ 32
    → length image ≤ data_size
    → (i : Icon) × (make_icon base str_ext image ≡ some (ok i))
      × IsIcon i
      × (take i.m_size i.m_data ≡ image)
unfolding make_icon
make_icon-IsIcon base str_ext image small fits = (
  record {
    m_ext = take 3 str_ext ++ replicate (4 - length (take 3 str_ext)) 0;
    m_data = image ++ replicate (data_size - length image) 0;
    m_size = length image;
  },
  rw
      (
        size_lem base icon small,
        lt→leb_false (size icon) (length image) (omega arith),
        le→leb (length image) data_size fits,
      )
      refl,
  record {
    ext_size = omega (
      arith,
      length-append (take 3 str_ext) (replicate (4 - length (take 3 str_ext)) 0),
      length-replicate {A = ℕ} (4 - length (take 3 str_ext)) 0,
      length-take 3 str_ext,
    );
    data_fills = omega (
      arith,
      length-append image (replicate (data_size - length image) 0),
      length-replicate {A = ℕ} (data_size - length image) 0,
    );
    size_fits = omega (arith, fits);
  },
  take_front (length image) image (replicate (data_size - length image) 0) refl,
)

-- Where the reserved space begins below 2^32, an image file that is longer than m_data, by at most
-- eleven bytes, passes the check of its size, and is
-- copied behind the end of m_data; a longer file is refused.
pub make_icon_overflow :
    (base : ℕ) (str_ext : Text) (image : Bytes)
    → base < 2 ^ 32
    → data_size < length image
    → make_icon base str_ext image
      ≡ (if leb (2 ^ 20) (length image) then some (err "File is too large, '{}' bytes") else none)
unfolding make_icon
make_icon_overflow base str_ext image small long =
    rw (size_lem base icon small, lt→leb_false (length image) data_size long) refl
