-- ===== src/Reserved/Access.antt =====
-- What ns_reserved::write and ns_reserved::read do to the bytes of an image.
use flatimage.Base.{
  ℕ, ◌+◌, ◌-◌, ◌^◌, ◌≤◌, ◌<◌, ◌≡◌, ◌≢◌, ◌⊎◌, ◌↔◌, inl, inr, refl, ap, ◌∙◌, some, ◌++◌, length,
  replicate, length-append, append-nil, length-replicate, arith, le→ltb_false, lt→ltb, ok, err,
  subst, Value,
}
use flatimage.Base.Io.{File}
use native.Mathlib.Decide.{dec_lt}
use flatimage.Bytes.{Bytes, write_at, read_at}
use flatimage.Bytes.Access.{
  length-write_at, read_at-write_at_self, read_at-write_at_before, read_at-write_at_after,
  write_at-write_at, overwrite-replicate,
}
use flatimage.Reserved.{Region, offset_begin, offset_end, write, read, read_open}
use flatimage.Reserved.Layout.{size, IsImage, regions_disjoint, region_bounds, size_lem}

-- The bytes of a region that holds `d`: the data, then zeros up to the region's end.
abbrev pub padded : Region → Bytes → Bytes
padded r d = d ++ replicate (size r - length d) 0

pub length-padded : (r : Region) (d : Bytes) → length d ≤ size r → length (padded r d) ≡ size r
length-padded r d h = omega (
  arith,
  length-append d (replicate (size r - length d) 0),
  length-replicate {A = ℕ} (size r - length d) 0,
)

-- Data of exactly the region's size stands there with nothing behind it.
pub padded_exact : (r : Region) (d : Bytes) → length d ≡ size r → padded r d ≡ d
unfolding replicate
padded_exact r d e =
    ap (λ k. d ++ replicate k 0) (let z : size r - length d ≡ 0 = omega arith in z) ∙ append-nil d

-- The image that a successful write of a region leaves.
abbrev pub written : ℕ → Region → Bytes → Bytes → Bytes
written base r d f = write_at (base + offset_begin r) (padded r d) f

module _ (base : ℕ) (r : Region) (d f : Bytes) (small : base < 2 ^ 32) where
  -- Data that fits is written, and the rest of the region is cleared.
  pub write_fits :
      length d ≤ size r
      → write (base + offset_begin r) (base + offset_end r) d (some f)
        ≡ (ok tt, some (written base r d f))
  unfolding write
  write_fits fits = rw (
    size_lem base r small,
    le→ltb_false (size r) (length d) fits,
    write_at-write_at (base + offset_begin r) d (replicate (size r) 0) f (rw length-replicate fits),
    overwrite-replicate d (size r) fits,
  )

  -- Data that does not fit is refused, and the file is left alone.
  pub write_too_long :
      size r < length d
      → write (base + offset_begin r) (base + offset_end r) d (some f)
        ≡ (err "Size of data exceeds available space", some f)
  unfolding write
  write_too_long long = rw (size_lem base r small, lt→ltb (size r) (length d) long)

-- A read that finds its bytes returns them.
pub read-eq-ok : (m l : ℕ) (f d : Bytes) → read_at m l f ≡ some d → read m l (some f) ≡ ok d
unfolding read
read-eq-ok m l f d h = rw (h, read_open)

-- A read depends on the file through its window alone.
read_eq :
    (m l : ℕ) (f g : Bytes) → read_at m l f ≡ read_at m l g → read m l (some f) ≡ read m l (some g)
unfolding read
read_eq m l f g h = rw (read_open, h)

module _ (base : ℕ) (r : Region) (d f : Bytes) where
  read-written :
      length d ≤ size r
      → read (base + offset_begin r) (size r) (some (written base r d f)) ≡ ok (padded r d)
  read-written fits = read-eq-ok _ _ _ _ (
      subst (λ k. read_at (base + offset_begin r) k (written base r d f) ≡ some (padded r d))
        (length-padded r d fits) (read_at-write_at_self (base + offset_begin r) (padded r d) f))

  written_in_space :
      IsImage base f → length d ≤ size r → base + offset_begin r + length (padded r d) ≤ length f
  written_in_space image fits =
      omega (arith, image.space_fits, length-padded r d fits, region_bounds r)

  length-written : IsImage base f → length d ≤ size r → length (written base r d f) ≡ length f
  length-written image fits = length-write_at _ (padded r d) f (written_in_space image fits)

  read_at-written :
      (m l : ℕ)
      → IsImage base f
      → length d ≤ size r
      → (m + l ≤ base + offset_begin r) ⊎ (base + offset_end r ≤ m)
      → read_at m l (written base r d f) ≡ read_at m l f
  read_at-written m l image fits (inl before) =
      read_at-write_at_before m l _ (padded r d) f before
        (omega (arith, written_in_space image fits))
  read_at-written m l image fits (inr after) =
      read_at-write_at_after m l _ (padded r d) f
        (omega (arith, length-padded r d fits, region_bounds r)) (written_in_space image fits)

-- Whether the data fits, with the outcome of the write.
module _ (base : ℕ) (r : Region) (d f : Bytes) (image : IsImage base f) where
  abbrev after : Value (Unit {0}) × File
  after = write (base + offset_begin r) (base + offset_end r) d (some f)

  write-cases :
      ((length d ≤ size r) × (after ≡ (ok tt, some (written base r d f))))
      ⊎ ((size r < length d) × (after ≡ (err "Size of data exceeds available space", some f)))
  write-cases = elim (dec_lt (size r) (length d)) [
    | yes long ↦ inr (long, write_too_long base r d f image.base_fits long)
    | no fits ↦ inl (omega arith, write_fits base r d f image.base_fits (omega arith))
  ]

-- On an image, a region that was written with data that fits is read back as the data, followed by
-- zeros up to the end of the region.
pub read-write :
    (base : ℕ) (r : Region) (d f : Bytes)
    → IsImage base f
    → length d ≤ size r
    → read
        (base + offset_begin r)
        (size r)
        (write (base + offset_begin r) (base + offset_end r) d (some f)).1
      ≡ ok (padded r d)
read-write base r d f image fits =
    rw (write_fits base r d f image.base_fits fits) (read-written base r d f fits)

-- A write of a region, whether it succeeds or is refused, changes no window of the image that lies
-- wholly in front of the region or wholly behind it: the executables in front of the reserved space,
-- the layers behind it, and every other region.
pub read-write_outside :
    (base : ℕ) (r : Region) (d f : Bytes) (m l : ℕ)
    → IsImage base f
    → (m + l ≤ base + offset_begin r) ⊎ (base + offset_end r ≤ m)
    → read m l (write (base + offset_begin r) (base + offset_end r) d (some f)).1
      ≡ read m l (some f)
read-write_outside base r d f m l image apart = elim (write-cases base r d f image) [
  | inl (fits, e) ↦ rw e (read_eq m l _ f (read_at-written base r d f m l image fits apart))
  | inr (long, e) ↦ rw e
]

-- A write of one region, whether it succeeds or is refused, leaves every other region as it was.
pub read-write_ne :
    (base : ℕ) (r s : Region) (d f : Bytes)
    → IsImage base f
    → r ≢ s
    → read
        (base + offset_begin s)
        (size s)
        (write (base + offset_begin r) (base + offset_end r) d (some f)).1
      ≡ read (base + offset_begin s) (size s) (some f)
read-write_ne base r s d f image ne =
    read-write_outside base r d f _ _ image
      (omega (arith, regions_disjoint r s ne, region_bounds s))

-- A write of a region of an image leaves an image of the same length, whether it succeeds or is
-- refused, and it is refused exactly when the data is longer than the region.
pub write-IsImage :
    (base : ℕ) (r : Region) (d f : Bytes)
    → IsImage base f
    → (g : Bytes) × ((write (base + offset_begin r) (base + offset_end r) d (some f)).1 ≡ some g)
      × IsImage base g
      × (length g ≡ length f)
      × (((write (base + offset_begin r) (base + offset_end r) d (some f)).0 ≡ ok tt)
          ↔ (length d ≤ size r))
write-IsImage base r d f image = elim (write-cases base r d f image) [
  | inl (fits, e) ↦
      let n = length-written base r d f image fits in
      (
        written base r d f,
        rw e,
        record { base_fits = image.base_fits; space_fits = omega (arith, image.space_fits) },
        n,
        (λ _. fits, λ _. rw e),
      )
  | inr (long, e) ↦ (f, rw e, image, refl, (λ h. cc (e, h), λ h. absurd (omega arith)))
]
