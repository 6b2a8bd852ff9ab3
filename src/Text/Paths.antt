-- ===== src/Text/Paths.antt =====
-- placeholders_replace of src/std/string.hpp, which src/std/filesystem.hpp calls for paths, and
-- std::filesystem::path's operator/.
use flatimage.Base.{
  ◌==◌, ◌&&◌, if◌then◌else◌, Bool, true, false, Option, none, some, List, [], ◌∷◌, ◌++◌,
}
use mathlib.Core.Option
use flatimage.Text.{Text}

-- str.find("{}") and str.replace at what it finds.
replace_first : Text → Text → Option Text
replace_first [] r = none
replace_first (a ∷ []) r = none
replace_first (a ∷ b ∷ s) r =
    let later = Option.map (λ t. a ∷ t) (replace_first (b ∷ s) r) in
    if a == b'{' && b == b'}' then some (r ++ s) else later

-- The loop: each argument goes where "{}" is found first, until none is found.
unfoldable pub placeholders_replace : Text → List Text → Text
unfolding replace_first
placeholders_replace str [] = str
placeholders_replace str (r ∷ rs) = elim (replace_first str r) [
  | none ↦ str
  | some next ↦ placeholders_replace next rs
]

unfoldable pub ends_in_slash : Text → Bool
ends_in_slash [] = true
ends_in_slash (c ∷ []) = c == b'/'
ends_in_slash (c ∷ d ∷ s) = ends_in_slash (d ∷ s)

unfoldable pub is_absolute : Text → Bool
is_absolute [] = false
is_absolute (c ∷ s) = c == b'/'

-- No separator goes behind an empty path or one that ends in a separator, and an absolute path on the
-- right takes the place of the left one.
infixl 60 ◌/◌
unfoldable pub ◌/◌ : Text → Text → Text
unfolding ends_in_slash is_absolute
path / name =
    if is_absolute name
    then name
    else if ends_in_slash path
    then path ++ name
    else path ++ (b'/' ∷ name)
