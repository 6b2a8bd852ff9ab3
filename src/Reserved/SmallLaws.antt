-- ===== src/Reserved/SmallLaws.antt =====
-- The regions of one byte, written and read.
use flatimage.Base.{
  ◌⊎◌, inl, inr, ◌>>=◌, subst, ℕ, ◌+◌, ◌<◌, ◌≤◌, ◌≡◌, ◌≢◌, refl, ap, ◌∙◌, String, length, some, ok,
  err, arith,
}
use flatimage.Bytes.{Bytes, to_bytes, from_bytes}
use flatimage.Bytes.Endian.{length-to_bytes, from_bytes-to_bytes}
use flatimage.Reserved.{Region, notify, casefold, overlay, offset_begin, offset_end, write, read}
use flatimage.Reserved.Layout.{size, IsImage, size_lem}
use flatimage.Reserved.Access.{padded, padded_exact, read-write, write_fits}
use flatimage.Reserved.Small.{
  byte_write, byte_read, notify_write, notify_read, casefold_write, casefold_read, OverlayType,
  bwrap, overlayfs, unionfs, none_type, mask_of, type_of, overlay_write, overlay_read,
}

-- A byte through a region of one byte.
module _ (r : Region) (one : size r ≡ 1) (base : ℕ) (f : Bytes) (image : IsImage base f) where
  byte_write_eq :
      (message : String) (value : ℕ)
      → byte_write r message base value (some f)
        ≡ write (base + offset_begin r) (base + offset_end r) (to_bytes 1 value) (some f)
  unfolding byte_write
  byte_write_eq message value = rw (size_lem base r image.base_fits, one)

  one_byte : (value : ℕ) → length (to_bytes 1 value) ≤ size r
  one_byte value = omega (arith, length-to_bytes 1 value)

  read_byte :
      (value : ℕ)
      → read
          (base + offset_begin r)
          1
          (write (base + offset_begin r) (base + offset_end r) (to_bytes 1 value) (some f)).1
        ≡ ok (to_bytes 1 value)
  read_byte value =
      subst
        (λ k.
          read (base + offset_begin r) k
            (write (base + offset_begin r) (base + offset_end r) (to_bytes 1 value) (some f)).1
          ≡ ok (padded r (to_bytes 1 value)))
        one (read-write base r (to_bytes 1 value) f image (one_byte value))
      ∙ ap ok (padded_exact r (to_bytes 1 value) (omega (arith, length-to_bytes 1 value)))

  byte_read-byte_write :
      (message : String) (value : ℕ)
      → value < 256
      → ((byte_write r message base value (some f)).0 ≡ ok tt)
        × (byte_read r base (byte_write r message base value (some f)).1 ≡ ok value)
  unfolding byte_read
  byte_read-byte_write message value h = rw (byte_write_eq message value) (
    rw (write_fits base r (to_bytes 1 value) f image.base_fits (one_byte value)),
    ap (λ m. m >>= λ bytes. ok (from_bytes bytes)) (read_byte value)
        ∙ ap ok (from_bytes-to_bytes 1 value h),
  )

-- On an image, the notification flag that is written is the one that is read, as a uint8_t.
pub notify_read-notify_write :
    (base value : ℕ) (f : Bytes)
    → IsImage base f
    → value < 256
    → ((notify_write base value (some f)).0 ≡ ok tt)
      × (notify_read base (notify_write base value (some f)).1 ≡ ok value)
unfolding notify_write notify_read
notify_read-notify_write base value f image h =
    byte_read-byte_write notify refl base f image _ value h

-- On an image, the case folding flag that is written is the one that is read, as a uint8_t.
pub casefold_read-casefold_write :
    (base value : ℕ) (f : Bytes)
    → IsImage base f
    → value < 256
    → ((casefold_write base value (some f)).0 ≡ ok tt)
      × (casefold_read base (casefold_write base value (some f)).1 ≡ ok value)
unfolding casefold_write casefold_read
casefold_read-casefold_write base value f image h =
    byte_read-byte_write casefold refl base f image _ value h

-- An overlay type through its mask.
module _ (base : ℕ) (type : OverlayType) (mask : ℕ) (f : Bytes) (image : IsImage base f) where
  through :
      mask_of type ≡ ok mask
      → type_of mask ≡ ok type
      → mask < 256
      → ((overlay_write base type (some f)).0 ≡ ok tt)
        × (overlay_read base (overlay_write base type (some f)).1 ≡ ok type)
  unfolding overlay_write overlay_read
  through masked typed small =
      let (wrote, found) =
        byte_read-byte_write overlay refl base f image
          "Incorrect number of bytes to write overlay mask: {} vs {}" mask small in
      rw masked (wrote, rw found typed)

-- On an image, the overlay type that is written is the one that is read; NONE is refused, and the file
-- is left alone.
pub overlay_read-overlay_write :
    (base : ℕ) (type : OverlayType) (f : Bytes)
    → IsImage base f
    → ((type ≡ none_type)
        × (overlay_write base type (some f) ≡ (err "Invalid overlay option", some f)))
      ⊎ ((type ≢ none_type)
          × ((overlay_write base type (some f)).0 ≡ ok tt)
          × (overlay_read base (overlay_write base type (some f)).1 ≡ ok type))
unfolding overlay_write overlay_read
overlay_read-overlay_write base none_type f image = inl (refl, refl)
overlay_read-overlay_write base bwrap f image =
    let (wrote, found) = through base bwrap 2 f image refl refl (omega arith) in
    inr (cc, wrote, found)
overlay_read-overlay_write base overlayfs f image =
    let (wrote, found) = through base overlayfs 4 f image refl refl (omega arith) in
    inr (cc, wrote, found)
overlay_read-overlay_write base unionfs f image =
    let (wrote, found) = through base unionfs 8 f image refl refl (omega arith) in
    inr (cc, wrote, found)
