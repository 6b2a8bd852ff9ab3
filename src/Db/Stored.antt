-- ===== src/Db/Stored.antt =====
-- A document in a region of an image: it is written, and what is read is parsed.
use flatimage.Base.{
  ℕ, ◌+◌, ◌≢◌, ◌<◌, ◌≡◌, refl, ap, sym, ◌∙◌, String, length, lt→leb_false, some, ok,
}
use flatimage.Bytes.{Bytes}
use flatimage.Json.{JsonLibrary}
use flatimage.Text.{Text}
use flatimage.Reserved.{Region, environment, offset_begin, offset_end, write, read}
use flatimage.Reserved.Layout.{IsImage, size, size_lem}
use flatimage.Reserved.Access.{write-IsImage, read-write_ne}
use flatimage.Reserved.Text.{text_write, text_read, env_write, env_read}
use flatimage.Reserved.TextLaws.{fits_write, text_read-text_write}
use flatimage.Db.{from_string_or_empty}
use flatimage.Db.Laws.{from_string-dump}

-- A text that is written leaves the other regions as they were.
pub text_write-others :
    (r : Region) (message : String) (base : ℕ) (t : Text) (f g : Bytes)
    → IsImage base f
    → length t < size r
    → text_write r message base t (some f) ≡ (ok tt, some g)
    → (s : Region) → r ≢ s
    → read (base + offset_begin s) (size s) (some g)
      ≡ read (base + offset_begin s) (size s) (some f)
text_write-others r message base t f g image short written s ne =
    let after : some g ≡ (write (base + offset_begin r) (base + offset_end r) t (some f)).1 =
      ap (λ step. step.1) (sym written ∙ fits_write r message base t f image short) in
    ap (read (base + offset_begin s) (size s)) after ∙ read-write_ne base r s t f image ne

module _ (lib : JsonLibrary) where
  open lib use {Json}

  -- The region holds a text that parses to the document, or none that parses, for the empty one.
  pub record IsStored (r : Region) (base : ℕ) (j : Json) (f : Bytes) : Type 0 where
    pub text : Text
    pub is_read : text_read r base (some f) ≡ some (ok text)
    pub parses : from_string_or_empty lib text ≡ j

  -- A document that is dumped to a text shorter than the region.
  pub record Fits (r : Region) (j : Json) : Type 0 where
    pub text : Text
    pub dumped : lib.dump j ≡ ok text
    pub short : length text < size r

  parse_dumped : (j : Json) (t : Text) → lib.dump j ≡ ok t → from_string_or_empty lib t ≡ j
  unfolding from_string_or_empty
  parse_dumped j t h = rw (from_string-dump lib j t h) refl

  -- A document that fits is written, and its text is read back.
  pub text_read-dumped :
      (r : Region) (message : String) (base : ℕ) (j : Json) (f : Bytes) (fits : Fits r j)
      → IsImage base f
      → (g : Bytes) × (text_write r message base fits.text (some f) ≡ (ok tt, some g))
        × IsImage base g
        × (text_read r base (some g) ≡ some (ok fits.text))
  text_read-dumped r message base j f fits image =
      let t = fits.text in
      let (done, back) =
        text_read-text_write r message base t f image fits.short
          (lib.dump-HasNoNul j t fits.dumped) in
      let (g, left, image', n, sizes) = write-IsImage base r t f image in
      let after : (text_write r message base t (some f)).1 ≡ some g =
        ap (λ step. step.1) (fits_write r message base t f image fits.short) ∙ left in
      (g, (λ i. (done i, after i)), image', ap (text_read r base) (sym after) ∙ back)

  -- It stands in its region from then on.
  pub text_write-IsStored :
      (r : Region) (message : String) (base : ℕ) (j : Json) (f : Bytes) (fits : Fits r j)
      → IsImage base f
      → (g : Bytes) × (text_write r message base fits.text (some f) ≡ (ok tt, some g))
        × IsImage base g
        × IsStored r base j g
  text_write-IsStored r message base j f fits image =
      let (g, written, image', back) = text_read-dumped r message base j f fits image in
      (
        g,
        written,
        image',
        record { text = fits.text; is_read = back; parses = parse_dumped j fits.text fits.dumped },
      )

  -- The environment's own write and read do what those of the other regions do.
  pub env_write-IsStored :
      (base : ℕ) (j : Json) (f : Bytes) (fits : Fits environment j)
      → IsImage base f
      → (g : Bytes) × (env_write base fits.text (some f) ≡ (ok tt, some g))
        × IsImage base g
        × IsStored environment base j g
  unfolding env_write
  env_write-IsStored base j f fits image =
      let (g, written, image', stored) = text_write-IsStored environment "" base j f fits image in
      let same = sym (fits_write environment "" base fits.text f image fits.short) ∙ written in
      (
        g,
        rw
            (
              size_lem base environment image.base_fits,
              lt→leb_false (size environment) (length fits.text) fits.short,
              same,
            )
            refl,
        image',
        stored,
      )

  pub env_read-IsStored :
      (base : ℕ) (j : Json) (g : Bytes) (stored : IsStored environment base j g)
      → env_read base (some g) ≡ some (ok stored.text)
  unfolding env_read
  env_read-IsStored base j g stored = rw stored.is_read refl
