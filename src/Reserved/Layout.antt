-- ===== src/Reserved/Layout.antt =====
-- The layout: sizes of the regions, their order, and the bytes that they leave alone.
use flatimage.Base.{
  Bool-cases, ==_iff, ==_self, inl, inr, sym, ap, ◌∙◌, ◌==◌, if◌then◌else◌, ℕ, ◌+◌, ◌-◌, ◌^◌, ◌≤◌,
  ◌<◌, ◌≡◌, ◌≢◌, ◌⊎◌, refl, length, arith,
}
use flatimage.Bytes.{Bytes}
use flatimage.Reserved.{
  Region, permissions, notify, overlay, casefold, desktop, boot, icon, environment, bindings,
  remote, unshare, offset_begin, offset_end, fim_reserved_size, sub_u64,
}

abbrev pub size : Region → ℕ
size r = offset_end r - offset_begin r

-- An image whose reserved space is whole: `base` is a uint32_t, and the space lies in the file.
pub record IsImage (base : ℕ) (f : Bytes) : Type 0 where
  pub base_fits : base < 2 ^ 32
  pub space_fits : base + fim_reserved_size ≤ length f

-- Different regions of the reserved space do not overlap.
pub regions_disjoint :
    (r s : Region) → r ≢ s → (offset_end r ≤ offset_begin s) ⊎ (offset_end s ≤ offset_begin r)
regions_disjoint permissions permissions h = absurd (h refl)
regions_disjoint _ _ h = ground arith

-- Every region lies in the reserved space, strictly, as the static_assert wants it.
pub region_bounds :
    (r : Region) → (offset_begin r < offset_end r) × (offset_end r < fim_reserved_size)
region_bounds permissions = omega arith
region_bounds _ = omega arith

-- The size that the code computes for a region.
pub size_lem :
    (base : ℕ) (r : Region)
    → base < 2 ^ 32
    → sub_u64 (base + offset_end r) (base + offset_begin r) ≡ size r
size_lem base permissions h = omega arith
size_lem base _ h = omega arith

-- The region that begins at an offset.
region_at : ℕ → Region
region_at n =
    if n == offset_begin permissions
    then permissions
    else if n == offset_begin notify
    then notify
    else if n == offset_begin overlay
    then overlay
    else if n == offset_begin casefold
    then casefold
    else if n == offset_begin desktop
    then desktop
    else if n == offset_begin boot
    then boot
    else if n == offset_begin icon
    then icon
    else if n == offset_begin environment
    then environment
    else if n == offset_begin bindings
    then bindings
    else if n == offset_begin remote
    then remote
    else unshare

region_at-offset_begin : (r : Region) → region_at (offset_begin r) ≡ r
unfolding region_at
region_at-offset_begin permissions = refl
region_at-offset_begin _ = refl

pub Region-cases : (r s : Region) → (r ≡ s) ⊎ (r ≢ s)
Region-cases r s = elim (Bool-cases (offset_begin r == offset_begin s)) [
  | inl e ↦ inl (
      sym (region_at-offset_begin r)
      ∙ ap region_at ((==_iff (offset_begin r) (offset_begin s)).0 e)
      ∙ region_at-offset_begin s)
  | inr e ↦ inr (λ same. cc (e, ==_self (offset_begin r), same))
]
