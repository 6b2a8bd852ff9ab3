-- ===== src/Bwrap/Optical.antt =====
-- The loop over optical drives stops early, and misses none where the devices are sequential.
use flatimage.Base.{
  ℕ, zero, suc, ◌≡◌, refl, ap, sym, ◌∙◌, true, false, if◌then◌else◌, Bool-cases, inl, inr, List, [],
  ◌++◌,
}
use mathlib.Core.Bool.{false≢true}
use flatimage.Text.{Text}
use flatimage.Bwrap.{Host, Bwrap, push}
use flatimage.Bwrap.Permissions.{same, dev_bind_try, sr, sg, bind_optical}
use flatimage.Bwrap.Expected.{drives}
use flatimage.Bwrap.Laws.{optical_loop-drives}

-- The arguments for a device that exists.
abbrev pub of_device : Host → Text → List Text
of_device host path = if host.exists path then same dev_bind_try path else []

-- The devices of all the drives from a number on, so many of them.
unfoldable pub all_drives : Host → ℕ → ℕ → List Text
all_drives host zero i = []
all_drives host (suc n) i =
    (of_device host (sr i) ++ of_device host (sg i)) ++ all_drives host n (suc i)

-- A device with a number above 0 stands only beside the one below it.
abbrev pub IsSequential : Host → (ℕ → Text) → Type 0
IsSequential host device =
    (i : ℕ) → host.exists (device (suc i)) ≡ true → host.exists (device i) ≡ true

next_absent :
    (host : Host) (device : ℕ → Text) (i : ℕ)
    → IsSequential host device
    → host.exists (device i) ≡ false
    → host.exists (device (suc i)) ≡ false
next_absent host device i h absent = elim (Bool-cases (host.exists (device (suc i)))) [
  | inl there ↦ absurd (false≢true (sym absent ∙ h i there))
  | inr gone ↦ gone
]

module _ (host : Host) (h_sr : IsSequential host sr) (h_sg : IsSequential host sg) where
  all_absent :
      (n i : ℕ) → host.exists (sr i) ≡ false → host.exists (sg i) ≡ false → all_drives host n i ≡ []
  unfolding all_drives
  all_absent zero i no_sr no_sg = refl
  all_absent (suc n) i no_sr no_sg =
      rw (no_sr, no_sg)
        (all_absent n (suc i) (next_absent host sr i h_sr no_sr) (next_absent host sg i h_sg no_sg))

  drives-all_drives : (n i : ℕ) → drives host n i ≡ all_drives host n i
  unfolding drives all_drives sr sg
  drives-all_drives zero i = refl
  drives-all_drives (suc n) i =
      let rest = drives-all_drives n (suc i) in
      elim (Bool-cases (host.exists (sr i))) [
        | inl has_sr ↦
            rw has_sr (ap (λ xs. (same dev_bind_try (sr i) ++ of_device host (sg i)) ++ xs) rest)
        | inr no_sr ↦ elim (Bool-cases (host.exists (sg i))) [
          | inl has_sg ↦ rw (no_sr, has_sg) (ap (λ xs. same dev_bind_try (sg i) ++ xs) rest)
          | inr no_sg ↦
              rw (no_sr, no_sg)
                (sym (
                  all_absent n (suc i) (next_absent host sr i h_sr no_sr)
                    (next_absent host sg i h_sg no_sg)))
        ]
      ]

  -- Where the devices of optical drives are sequential, bind_optical binds every device /dev/sr0 to
  -- /dev/sr255 and /dev/sg0 to /dev/sg255 that exists, in the order of the numbers, and nothing else.
  pub bind_optical-sequential : (b : Bwrap) → bind_optical host b ≡ push (all_drives host 256 0) b
  unfolding bind_optical
  bind_optical-sequential b =
      optical_loop-drives host 256 0 b ∙ ap (λ xs. push xs b) (drives-all_drives 256 0)
