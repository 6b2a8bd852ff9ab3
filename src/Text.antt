-- ===== src/Text.antt =====
-- Texts as lists of byte values: src/std/string.hpp, src/std/vector.hpp and src/std/enum.hpp, as far
-- as the commands and the reserved space use them.
pub mod Laws
pub mod Joined
pub mod Numbers
pub mod Paths
use Prim.Native.Char.{code}
use flatimage.Base.{
  ℕ, ◌+◌, ◌-◌, String, Bool, true, false, ◌&&◌, List, [], ◌∷◌, ◌++◌, map, ltb, leb, ◌==◌,
  if◌then◌else◌, Value, ok, err,
}

abbrev pub Text : Type 0
Text = List ℕ

-- The bytes of an ASCII literal.
abbrev pub codes : String → Text
codes String.[] = []
codes (String.◌∷◌ c s) = code c ∷ codes s

unfoldable pub text_eq : Text → Text → Bool
text_eq [] [] = true
text_eq (x ∷ xs) (y ∷ ys) = x == y && text_eq xs ys
text_eq _ _ = false

-- std::string's operator<
unfoldable pub less : Text → Text → Bool
less xs [] = false
less [] (y ∷ ys) = true
less (x ∷ xs) (y ∷ ys) = let rest = less xs ys in if x == y then rest else ltb x y

-- toupper and tolower in the C locale
unfoldable pub to_upper : ℕ → ℕ
to_upper c = if leb b'a' c && leb c b'z' then c - 32 else c

unfoldable pub to_lower : ℕ → ℕ
to_lower c = if leb b'A' c && leb c b'Z' then c + 32 else c

unfoldable pub starts_with : Text → Text → Bool
starts_with s [] = true
starts_with [] (p ∷ ps) = false
starts_with (c ∷ s) (p ∷ ps) = c == p && starts_with s ps

-- isdigit, for std::ranges::all_of
abbrev pub is_digit : ℕ → Bool
is_digit c = leb b'0' c && leb c b'9'

getline_loop : ℕ → Text → Text → List Text
getline_loop delimiter [] [] = []
getline_loop delimiter (t ∷ token) [] = (t ∷ token) ∷ []
getline_loop delimiter token (c ∷ s) =
    let next = getline_loop delimiter [] s in
    let longer = getline_loop delimiter (token ++ c ∷ []) s in
    if c == delimiter then token ∷ next else longer

-- ns_vector::from_string: the tokens that std::getline reads, so no last empty one.
unfoldable pub from_string : Text → ℕ → List Text
unfolding getline_loop
from_string t delimiter = getline_loop delimiter [] t

split_loop : ℕ → Text → Text → List Text
split_loop delimiter token [] = token ∷ []
split_loop delimiter token (c ∷ s) =
    let next = split_loop delimiter [] s in
    let longer = split_loop delimiter (token ++ c ∷ []) s in
    if c == delimiter then token ∷ next else longer

-- std::views::split: all the parts, and none of an empty text.
unfoldable pub split : Text → ℕ → List Text
unfolding split_loop
split [] delimiter = []
split (c ∷ s) delimiter = split_loop delimiter [] (c ∷ s)

module _ {ℓ} {A : Type ℓ} where
  enum_find : List (A × Text) → Text → Value A
  enum_find [] s = err "Could not determine enum entry"
  enum_find ((a, name) ∷ entries) s = if text_eq s name then ok a else enum_find entries s

  -- The `from_string` that ENUM defines, over the enumerators with their names, NONE last.
  unfoldable pub enum_from_string : List (A × Text) → Text → Value A
  unfolding enum_find
  enum_from_string entries s = enum_find entries (map to_upper s)
