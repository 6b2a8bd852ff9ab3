-- ===== src/Db/Boot.antt =====
-- src/db/boot.hpp: the class Boot and its document.
use flatimage.Base.{◌≡◌, refl, ap, ◌∙◌, Option, some, Value, ok, List, [], ◌∷◌}
use flatimage.Base.Run.{Run, pure, ◌>>=◌, ◌>>◌}
use flatimage.Json.{JsonLibrary}
use flatimage.Text.{Text, codes, text_eq}
use flatimage.Db.{with_db, parsed, assign, dump, text_at, texts_at}
use flatimage.Db.Laws.{
  Fields, lookup, built, assign-built, text_at-built, texts_at-built, parsed-dump,
}

pub record Boot : Type 0 where
  pub program : Text
  pub args : List Text

module _ (lib : JsonLibrary) where
  -- The body of deserialize, behind its check for an empty text.
  parse_boot : Run (lib.Json) Boot
  parse_boot = do
    program ← text_at lib (codes "program")
    args ← texts_at lib (codes "args")
    pure record { program = program; args = args }

  unfoldable pub deserialize : Text → Option (Value Boot)
  unfolding parse_boot
  deserialize = parsed lib parse_boot

  unfoldable pub serialize : Boot → Option (Value Text)
  serialize boot = with_db lib (ok lib.object) (do
    assign lib (codes "program") (lib.text boot.program)
    assign lib (codes "args") (lib.texts boot.args)
    dump lib)

  abbrev pub fields_of : Boot → Fields (lib.Json)
  fields_of boot =
      (codes "args", lib.texts boot.args) ∷ (codes "program", lib.text boot.program) ∷ []

  serialize-built : (boot : Boot) → serialize boot ≡ some (lib.dump (built lib (fields_of boot)))
  unfolding serialize built with_db dump
  serialize-built boot =
      rw
        (
          assign-built lib [] (codes "program") (lib.text boot.program),
          assign-built lib ((codes "program", lib.text boot.program) ∷ []) (codes "args")
              (lib.texts boot.args),
        )
        refl

  -- Where the document of a boot command is dumped, serialize returns this text, and deserialize reads
  -- the same command from it.
  pub deserialize-serialize :
      (boot : Boot) (t : Text)
      → lib.dump (built lib (fields_of boot)) ≡ ok t
      → (serialize boot ≡ some (ok t)) × (deserialize t ≡ some (ok boot))
  unfolding deserialize parse_boot lookup text_eq
  deserialize-serialize boot t h = (
    serialize-built boot ∙ ap some h,
    parsed-dump lib parse_boot (built lib (fields_of boot)) t h
        ∙ rw
            (
              text_at-built lib (fields_of boot) (codes "program") boot.program refl,
              texts_at-built lib (fields_of boot) (codes "args") boot.args refl,
            )
            refl,
  )
