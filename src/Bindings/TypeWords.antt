-- ===== src/Bindings/TypeWords.antt =====
-- The types of bindings through the words of the database.
use flatimage.Base.{◌≡◌, refl}
use flatimage.Text.{text_eq}
use flatimage.Parser.Bind.{BindType, ro, rw, dev, none_type}
use flatimage.Bindings.{type_to_word, word_to_type}

-- What is read for a type that was written.
abbrev pub read_back : BindType → BindType
read_back ro = ro
read_back rw = rw
read_back _ = none_type

-- The types ro and rw are read back from their words, and every other type, dev too, is read as NONE.
pub word_to_type-type_to_word : (t : BindType) → word_to_type (type_to_word t) ≡ read_back t
unfolding word_to_type text_eq
word_to_type-type_to_word ro = refl
word_to_type-type_to_word rw = refl
word_to_type-type_to_word dev = refl
word_to_type-type_to_word none_type = refl
