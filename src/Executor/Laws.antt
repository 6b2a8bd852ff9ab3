-- ===== src/Executor/Laws.antt =====
-- Commands one after the other: what one sets, the next one shows.
use flatimage.Base.{ℕ, ◌+◌, ◌≢◌, ◌≡◌, refl, some, ok, List, [], ◌∷◌}
use flatimage.Bytes.{Bytes}
use flatimage.Json.{JsonLibrary}
use flatimage.Text.{Text}
use flatimage.Reserved.{Region, boot, offset_begin, read}
use flatimage.Reserved.Layout.{IsImage, size}
use flatimage.Reserved.Text.{boot_write, boot_read}
use flatimage.Parser.Boot as OfBoot
use flatimage.Db.Boot as Boots
use flatimage.Db.Boot.{Boot}
use flatimage.Db.Laws.{built}
use flatimage.Db.Stored.{Fits, text_read-dumped, text_write-others}
use flatimage.Executor.{execute_boot, write_boot, serialized, or_bash, boot_or_default}

module _ (lib : JsonLibrary) where
  open lib use {Json}

  abbrev pub document : Boot → Json
  document b = built lib (Boots.fields_of lib b)

  -- `fim-boot set` where the document fits its region, and what the image holds then.
  pub record BootAfter (base : ℕ) (b : Boot) (f : Bytes) : Type 0 where
    pub g : Bytes
    pub text : Text
    pub done : execute_boot lib base (OfBoot.set b.program b.args) (some f) ≡ some (ok [], some g)
    pub image : IsImage base g
    pub is_read : boot_read base (some g) ≡ some (ok text)
    pub parses : Boots.deserialize lib text ≡ some (ok b)
    pub others :
        (r : Region)
        → boot ≢ r
        → read (base + offset_begin r) (size r) (some g)
          ≡ read (base + offset_begin r) (size r) (some f)

  pub set_lem :
      (base : ℕ) (b : Boot) (f : Bytes)
      → IsImage base f
      → Fits lib boot (document b)
      → BootAfter base b f
  unfolding execute_boot write_boot serialized boot_write boot_read
  set_lem base b f image fits =
      let (g, written, image', back) =
        text_read-dumped lib boot "Not enough space to fit json data" base (document b) f fits
          image in
      let (serialized_b, read_b) = Boots.deserialize-serialize lib b fits.text fits.dumped in
      record {
        g = g;
        text = fits.text;
        done = rw (serialized_b, written) refl;
        image = image';
        is_read = back;
        parses = read_b;
        others = λ r ne.
            text_write-others boot "Not enough space to fit json data" base fits.text f g image
              fits.short written r ne;
      }

  -- On an image, where the document of a boot command fits its region, and that of the command with
  -- bash for a program that is empty is dumped, `fim-boot set` succeeds and prints nothing, and
  -- `fim-boot show` prints the latter document then and leaves the file alone.
  pub show-set :
      (base : ℕ) (program : Text) (args : List Text) (shown : Text) (f : Bytes)
      → IsImage base f
      → Fits lib boot (document record { program = program; args = args })
      → lib.dump (document (or_bash lib record { program = program; args = args })) ≡ ok shown
      → (g : Bytes) × (execute_boot lib base (OfBoot.set program args) (some f)
          ≡ some (ok [], some g))
        × IsImage base g
        × (execute_boot lib base OfBoot.show (some g) ≡ some (ok (shown ∷ []), some g))
  unfolding execute_boot serialized boot_or_default
  show-set base program args shown f image fits dumped =
      let b : Boot = record { program = program; args = args } in
      let after = set_lem base b f image fits in
      let serialized_shown = (Boots.deserialize-serialize lib (or_bash lib b) shown dumped).0 in
      (after.g, after.done, after.image, rw (after.is_read, after.parses, serialized_shown) refl)
