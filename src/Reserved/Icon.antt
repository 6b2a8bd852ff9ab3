-- ===== src/Reserved/Icon.antt =====
-- src/reserved/icon.hpp: the icon of the desktop integration, a packed struct that fills its region.
use flatimage.Base.{
  ℕ, zero, suc, ◌+◌, ◌-◌, ◌^◌, ◌<◌, ◌≡◌, refl, ap, ◌∙◌, [], ◌∷◌, ◌++◌, length, take, drop, ltb,
  length-append, if◌then◌else◌, some, Value, ok, ◌>>=◌, arith,
}
use flatimage.Base.Io
use flatimage.Base.Io.{File, Io}
use flatimage.Bytes.{Bytes, to_bytes, from_bytes}
use flatimage.Bytes.Endian.{length-to_bytes, from_bytes-to_bytes}
use flatimage.Reserved.{icon, offset_begin, offset_end, sub_u64, write, read}
use flatimage.Reserved.Layout.{IsImage, size_lem}
use flatimage.Reserved.Access.{padded_exact, read-write, write_fits}

-- sizeof(m_data)
abbrev pub data_size : ℕ
data_size = 2 ^ 20 - 12

-- struct Icon
pub record Icon : Type 0 where
  pub m_ext : Bytes
  pub m_data : Bytes
  pub m_size : ℕ

-- The bytes of the packed struct, and the struct of the bytes.
abbrev pub as_bytes : Icon → Bytes
as_bytes i = i.m_ext ++ (i.m_data ++ to_bytes 8 i.m_size)

abbrev pub of_bytes : Bytes → Icon
of_bytes bytes = record {
  m_ext = take 4 bytes;
  m_data = take data_size (drop 4 bytes);
  m_size = from_bytes (drop data_size (drop 4 bytes));
}

-- ns_icon::write; sizeof(Icon) is 2^20.
unfoldable pub icon_write : ℕ → Icon → Io (Unit {0})
icon_write base i =
    let space_available = sub_u64 (base + offset_end icon) (base + offset_begin icon) in
    if ltb space_available (2 ^ 20)
    then Io.fail "Not enough space to fit icon data: {} vs {}"
    else write (base + offset_begin icon) (base + offset_end icon) (as_bytes i)

-- ns_icon::read
unfoldable pub icon_read : ℕ → File → Value Icon
icon_read base file = do
  let begin = base + offset_begin icon
  bytes ← read begin (sub_u64 (base + offset_end icon) begin) file
  ok (of_bytes bytes)

-- The fields have the sizes of the struct's.
pub record IsIcon (i : Icon) : Type 0 where
  pub ext_size : length i.m_ext ≡ 4
  pub data_fills : length i.m_data ≡ data_size
  pub size_fits : i.m_size < 2 ^ 64

pub take_front : (n : ℕ) (a b : Bytes) → length a ≡ n → take n (a ++ b) ≡ a
unfolding take
take_front zero [] b h = refl
take_front zero (x ∷ a) b h = absurd (omega arith)
take_front (suc n) [] b h = absurd (omega arith)
take_front (suc n) (x ∷ a) b h = ap (λ t. x ∷ t) (take_front n a b (omega arith))

drop_front : (n : ℕ) (a b : Bytes) → length a ≡ n → drop n (a ++ b) ≡ b
unfolding drop
drop_front zero [] b h = refl
drop_front zero (x ∷ a) b h = absurd (omega arith)
drop_front (suc n) [] b h = absurd (omega arith)
drop_front (suc n) (x ∷ a) b h = drop_front n a b (omega arith)

of_bytes-as_bytes : (i : Icon) → IsIcon i → of_bytes (as_bytes i) ≡ i
of_bytes-as_bytes i h =
    rw
      (
        take_front 4 i.m_ext (i.m_data ++ to_bytes 8 i.m_size) h.ext_size,
        drop_front 4 i.m_ext (i.m_data ++ to_bytes 8 i.m_size) h.ext_size,
        take_front data_size i.m_data (to_bytes 8 i.m_size) h.data_fills,
        drop_front data_size i.m_data (to_bytes 8 i.m_size) h.data_fills,
        from_bytes-to_bytes 8 i.m_size (omega (arith, h.size_fits)),
      )
      refl

length-as_bytes : (i : Icon) → IsIcon i → length (as_bytes i) ≡ 2 ^ 20
length-as_bytes i h = omega (
  arith,
  length-append i.m_ext (i.m_data ++ to_bytes 8 i.m_size),
  length-append i.m_data (to_bytes 8 i.m_size),
  length-to_bytes 8 i.m_size,
  h.ext_size,
  h.data_fills,
)

-- On an image, the icon that is written is the one that is read; its extension, its data and its size
-- fill the region exactly: they are as long as it is, and are what the region holds.
pub icon_read-icon_write :
    (base : ℕ) (i : Icon) (f : Bytes)
    → IsImage base f
    → IsIcon i
    → ((icon_write base i (some f)).0 ≡ ok tt)
      × (icon_read base (icon_write base i (some f)).1 ≡ ok i)
      × (length (i.m_ext ++ (i.m_data ++ to_bytes 8 i.m_size))
          ≡ offset_end icon - offset_begin icon)
      × (read
            (base + offset_begin icon)
            (offset_end icon - offset_begin icon)
            (icon_write base i (some f)).1
          ≡ ok (i.m_ext ++ (i.m_data ++ to_bytes 8 i.m_size)))
unfolding icon_write icon_read
icon_read-icon_write base i f image h =
    let fills = length-as_bytes i h in
    let held =
      read-write base icon (as_bytes i) f image (omega arith)
      ∙ ap ok (padded_exact icon (as_bytes i) (omega arith)) in
    rw (size_lem base icon image.base_fits) (
      rw (write_fits base icon (as_bytes i) f image.base_fits (omega arith)),
      ap (λ v. v >>= λ bytes. ok (of_bytes bytes)) held ∙ ap ok (of_bytes-as_bytes i h),
      fills,
      held,
    )
