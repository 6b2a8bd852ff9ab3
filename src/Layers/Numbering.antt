-- ===== src/Layers/Numbering.antt =====
-- src/parser/cmd/layers.hpp: find_next_layer_number, over the names of the regular files in the
-- directory, and the name of the next layer. An int is its 32 bits.
pub mod Fresh
use flatimage.Base.{
  ℕ, suc, zero, ◌+◌, ◌-◌, ◌%◌, ◌^◌, Bool, true, false, ◌&&◌, ◌||◌, not, if◌then◌else◌, Option, none,
  some, Value, ok, err, List, [], ◌∷◌, ◌++◌, length, drop, replicate, max, ltb, leb, ◌==◌,
}
use flatimage.Text.{Text, codes, starts_with, is_digit}
use flatimage.Text.Numbers.{stoi, to_string}

-- [0-9]+\.layer at the beginning of a text.
digits_then_layer : Text → Bool
digits_then_layer [] = false
digits_then_layer (c ∷ s) =
    let further = digits_then_layer s in is_digit c && (starts_with s (codes ".layer") || further)

-- layer-[0-9]+\.layer at the beginning of a text.
layer_at : Text → Bool
layer_at s = starts_with s (codes "layer-") && digits_then_layer (drop 6 s)

-- std::regex_search: anywhere in the text.
unfoldable pub is_layer : Text → Bool
unfolding layer_at digits_then_layer
is_layer [] = false
is_layer (c ∷ s) = layer_at (c ∷ s) || is_layer s

-- substr(0, find('.')): all of the text where no point is found.
unfoldable pub until_point : Text → Text
until_point [] = []
until_point (c ∷ s) = let rest = c ∷ until_point s in if c == b'.' then [] else rest

-- The transform by std::stoi; none where it throws.
unfoldable pub layer_number : Text → Option ℕ
layer_number name = stoi (until_point (drop 6 name))

abbrev pub with_number : Option ℕ → Option (List ℕ) → Option (List ℕ)
with_number none ns = none
with_number (some n) none = none
with_number (some n) (some ns) = some (n ∷ ns)

unfoldable pub layer_numbers : List Text → Option (List ℕ)
layer_numbers [] = some []
layer_numbers (name ∷ names) =
    let others = layer_numbers names in
    if is_layer name then with_number (layer_number name) others else others

-- Signed numbers in their order.
unfoldable pub biased : ℕ → ℕ
biased n = (n + 2 ^ 31) % 2 ^ 32

unfoldable pub highest : ℕ → List ℕ → ℕ
highest m [] = m
highest m (n ∷ ns) = highest (max m (biased n)) ns

-- The conversion of a biased int to a uint64_t.
unfoldable pub to_u64 : ℕ → ℕ
to_u64 b = if leb (2 ^ 31) b then b - 2 ^ 31 else 2 ^ 64 - (2 ^ 31 - b)

-- next of a list that is empty, or of its greatest; none where the sum overflows an int.
unfoldable pub next_number : List ℕ → Option (Value ℕ)
next_number [] = some (ok 0)
next_number (n ∷ ns) =
    let next = highest (biased n) ns + 1 in
    if next == 2 ^ 32
    then none
    else if ltb (2 ^ 31 + 999) next
    then some (err "Maximum number of layers exceeded")
    else some (ok (to_u64 next))

numbered : Option (List ℕ) → Option (Value ℕ)
numbered none = some (err "stoi")
numbered (some ns) = next_number ns

-- The error of a number that does not parse is that of std::stoi.
unfoldable pub find_next_layer_number : Bool → List Text → Option (Value ℕ)
unfolding numbered
find_next_layer_number is_directory names =
    if is_directory
    then numbered (layer_numbers names)
    else some (err "Layers directory is missing or not a directory")

-- std::format("layer-{:03d}.layer")
unfoldable pub layer_name : ℕ → Text
layer_name n =
    let digits = to_string n in
    codes "layer-" ++ (replicate (3 - length digits) b'0' ++ (digits ++ codes ".layer"))
