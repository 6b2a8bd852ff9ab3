-- ===== src/Reserved/TextLaws.antt =====
-- Texts through their regions.
use flatimage.Base.{
  ℕ, suc, ◌+◌, ◌-◌, ◌≤◌, ◌<◌, ◌≡◌, ap, ◌∙◌, String, length, le→leb, lt→leb_false, replicate, ◌++◌,
  some, ok, err, arith,
}
use mathlib.Core.Option
use flatimage.Bytes.{Bytes, c_string}
use flatimage.Bytes.Endian.{HasNoNul, c_string-padded}
use flatimage.Reserved.{Region, offset_begin, offset_end, write}
use flatimage.Reserved.Layout.{size, IsImage, size_lem}
use flatimage.Reserved.Access.{padded, read-write, write_fits}
use flatimage.Reserved.Text.{text_write, text_read, text_in}
use flatimage.Text.{Text}

module _ (r : Region) (message : String) (base : ℕ) (t : Text) (f : Bytes)
    (image : IsImage base f) where
  pub fits_write :
      length t < size r
      → text_write r message base t (some f)
        ≡ write (base + offset_begin r) (base + offset_end r) t (some f)
  unfolding text_write
  fits_write h = rw (size_lem base r image.base_fits, lt→leb_false (size r) (length t) h)

  padded_nul : length t < size r → HasNoNul t → c_string (padded r t) ≡ some t
  padded_nul h n =
      ap (λ k. c_string (t ++ replicate k 0))
        (let e : size r - length t ≡ suc (size r - length t - 1) = omega arith in e)
      ∙ c_string-padded t (size r - length t - 1) n

-- On an image, a text that is shorter than its region and has no NUL is written without an error, and
-- reading the region gives the same text: the read stays inside its buffer.
pub text_read-text_write :
    (r : Region) (message : String) (base : ℕ) (t : Text) (f : Bytes)
    → IsImage base f
    → length t < size r
    → HasNoNul t
    → ((text_write r message base t (some f)).0 ≡ ok tt)
      × (text_read r base (text_write r message base t (some f)).1 ≡ some (ok t))
unfolding text_read text_in
text_read-text_write r message base t f image short no_nul =
    rw (fits_write r message base t f image short) (
      rw (write_fits base r t f image.base_fits (omega arith)),
      rw (size_lem base r image.base_fits) (
          ap text_in (read-write base r t f image (omega arith))
          ∙ ap (Option.map ok) (padded_nul r message base t f image short no_nul)),
    )

-- On an image, a text that fills its region, or is longer, is refused with the message, and the file is left alone.
pub text_write_too_long :
    (r : Region) (message : String) (base : ℕ) (t : Text) (f : Bytes)
    → IsImage base f
    → size r ≤ length t
    → text_write r message base t (some f) ≡ (err message, some f)
unfolding text_write
text_write_too_long r message base t f image long =
    rw (size_lem base r image.base_fits, le→leb (size r) (length t) long)
