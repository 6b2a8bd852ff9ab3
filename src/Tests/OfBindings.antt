-- ===== src/Tests/OfBindings.antt =====
-- The theorems about bindings at a short list.
use flatimage.Base.{
  ap, ◌∙◌, some, ok, Each, ◌≡◌, refl, List, [], ◌∷◌, ◌++◌, length, take, drop, arith,
}
use flatimage.Text.{codes}
use flatimage.Parser.Bind.{ro, rw, dev}
use mathlib.Core.List.{Mem, not-mem-nil}
use flatimage.Bytes.{Bytes}
use flatimage.Reserved.{bindings}
use flatimage.Reserved.Layout.{IsImage}
use flatimage.Db.Laws.{built}
use flatimage.Db.Stored.{Fits}
use flatimage.Text.Numbers.{to_string}
use flatimage.Bindings.Database
use flatimage.Bindings.Database.Written.{entries}
use flatimage.Bindings.Database.RoundTrip.{
  document, IsRead, as_read, db_read-db_write, db_read-add_bind,
}
use flatimage.Tests.Image.{empty_image, empty_image-IsImage}
use flatimage.Tests.Documents.{documents}
use flatimage.Tests.Library.Codec.{print}
use flatimage.Bindings
use flatimage.Bindings.{Bind, renumber, erase, word_to_type, type_to_word}
use flatimage.Bindings.Numbered
use flatimage.Bindings.Numbered.{NumberedFrom}
use flatimage.Bindings.TypeWords.{word_to_type-type_to_word, read_back}

abbrev two_binds : List Bind
two_binds =
    record { index = 0; path_src = codes "/home"; path_dst = codes "/home"; type = ro }
    ∷ record { index = 1; path_src = codes "/dev/fuse"; path_dst = codes "/dev/fuse"; type = dev }
    ∷ []

erase_lem_example :
    (erase two_binds 0 ≡ renumber 0 (take 0 two_binds ++ drop 1 two_binds))
    × NumberedFrom 0 (erase two_binds 0)
erase_lem_example = Numbered.erase_lem two_binds 0 (refl, (refl, tt))

add-NumberedFrom_example :
    (Bindings.add two_binds rw (codes "/tmp") (codes "/tmp")
      ≡ two_binds
        ++ record {
          index = length two_binds;
          path_src = codes "/tmp";
          path_dst = codes "/tmp";
          type = rw;
        }
          ∷ [])
    × NumberedFrom 0 (Bindings.add two_binds rw (codes "/tmp") (codes "/tmp"))
add-NumberedFrom_example =
    Numbered.add-NumberedFrom two_binds rw (codes "/tmp") (codes "/tmp") (refl, (refl, tt))
      (omega arith)

word_to_type-type_to_word_example : word_to_type (type_to_word dev) ≡ read_back dev
word_to_type-type_to_word_example = word_to_type-type_to_word dev

abbrev tmp_bind : Bind
tmp_bind = record { index = 0; path_src = codes "/tmp"; path_dst = codes "/mnt"; type = rw }

tmp-Fits : Fits documents bindings (document documents (tmp_bind ∷ []))
unfolding print built entries to_string
tmp-Fits = record {
  text = print (document documents (tmp_bind ∷ [])) [];
  dumped = refl;
  short = omega arith;
}

nothing-Fits : Fits documents bindings (document documents [])
unfolding print built entries
nothing-Fits = record {
  text = print (document documents []) [];
  dumped = refl;
  short = omega arith;
}

none_read : (rs : List Bind) → Each (IsRead documents []) rs → rs ≡ []
none_read [] h = refl
none_read (r ∷ rs) ((b, m, same), h) = absurd (not-mem-nil m)

-- An image whose bindings are the empty document.
unbound : (g : Bytes) × IsImage 0 g × (Database.db_read documents 0 (some g) ≡ some (ok [], some g))
unbound =
    let (g, written, image, rs, read, each, all) =
      db_read-db_write documents 0 [] empty_image empty_image-IsImage tt (omega arith)
        nothing-Fits in
    (g, image, read ∙ ap (λ bs. some (ok bs, some g)) (none_read rs each))

db_read-add_bind_example :
    (g : Bytes) × (Database.add_bind documents 0 rw (codes "/tmp") (codes "/mnt") (some unbound.0)
      ≡ some (ok tt, some g))
    × IsImage 0 g
    × (rs : List Bind) × (Database.db_read documents 0 (some g) ≡ some (ok rs, some g))
    × Each (IsRead documents (tmp_bind ∷ [])) rs
    × Each (λ b. Mem (as_read documents b) rs) (tmp_bind ∷ [])
db_read-add_bind_example =
    db_read-add_bind documents 0 [] rw (codes "/tmp") (codes "/mnt") unbound.0 unbound.1 unbound.2
      tt (omega arith) tmp-Fits
