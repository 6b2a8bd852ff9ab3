-- ===== src/Tests/OfLayers.antt =====
-- The theorems about layers at small images.
use flatimage.Base.{
  if◌then◌else◌, drop, replicate, ◌+◌, ◌≡◌, refl, length, [], ◌∷◌, ◌++◌, some, none, ok, arith,
}
use flatimage.Bytes.{Bytes, to_bytes, from_bytes, read_at}
use flatimage.Text.Numbers.{stoi, to_string}
use flatimage.Text.Paths.{◌/◌}
use flatimage.Layers.Numbering.{
  find_next_layer_number, layer_numbers, is_layer, layer_number, until_point, next_number, highest,
  biased, to_u64, layer_name,
}
use flatimage.Host.{Host, file_at, contents, is_directory}
use flatimage.Layers.Commit.{filenames, is_in, layer, commit_mode}
use flatimage.Layers.Commit.Laws.{commit_mode-layer}
use flatimage.Text.{Text, text_eq, starts_with, codes}
use flatimage.Layers.{is_dwarfs, push_binary, add as add_layer}
use flatimage.Layers.Appended.{entries, placed}
use flatimage.Layers.Scan.{push_binary-entries, push_binary-add}
use flatimage.Layers.Loop.{push_binary_diverges}

abbrev binary : Bytes
binary = 127 ∷ b'E' ∷ b'L' ∷ b'F' ∷ []

abbrev first_layer : Bytes
first_layer = codes "DWARFS one"

abbrev second_layer : Bytes
second_layer = codes "DWARFS second"

push_binary-entries_example :
    push_binary 3
      (codes "bin")
      (some (binary ++ entries (first_layer ∷ second_layer ∷ [])))
      (length binary)
      []
    ≡ some ([] ++ placed (codes "bin") (length binary) (first_layer ∷ second_layer ∷ []))
unfolding to_bytes
push_binary-entries_example =
    push_binary-entries 3 (codes "bin") binary (first_layer ∷ second_layer ∷ []) []
      ((codes " one", refl), ((codes " second", refl), tt)) (omega arith) (omega arith)

push_binary-add_example :
    (b : Bytes) × (add_layer (some (binary ++ entries (first_layer ∷ []))) (some second_layer)
      ≡ some (ok tt, some b))
    × (push_binary (length (first_layer ∷ []) + 2) (codes "bin") (some b) (length binary) []
        ≡ some (
            placed (codes "bin") (length binary) (first_layer ∷ [])
            ++ record {
              path = codes "bin";
              offset = length (binary ++ entries (first_layer ∷ [])) + 8;
              size = length second_layer;
            }
              ∷ []))
unfolding to_bytes
push_binary-add_example =
    push_binary-add (codes "bin") binary (first_layer ∷ []) second_layer ((codes " one", refl), tt)
      (codes " second", refl) (omega arith)

abbrev wrapping : Bytes
wrapping = 248 ∷ 255 ∷ 255 ∷ 255 ∷ 255 ∷ 255 ∷ 255 ∷ 255 ∷ codes "DWARFS"

read_at-wrapping : read_at 0 8 wrapping ≡ some (248 ∷ 255 ∷ 255 ∷ 255 ∷ 255 ∷ 255 ∷ 255 ∷ 255 ∷ [])
unfolding read_at
read_at-wrapping = refl

push_binary_diverges_example : push_binary 1000 (codes "bin") (some wrapping) 0 [] ≡ none
unfolding read_at from_bytes is_dwarfs text_eq
push_binary_diverges_example =
    push_binary_diverges 1000 (codes "bin") wrapping _ 0 [] read_at-wrapping refl (omega arith) refl

abbrev layer_host : Host
layer_host = record {
  files = (codes "/t", codes "new") ∷ (codes "/l/layer-007.layer", codes "old") ∷ [];
  directories = codes "/l" ∷ [];
}

commit_mode-layer_example :
    (file_at (codes "/l" / layer_name 8) layer_host ≡ none)
    × (after : Host) × (commit_mode (codes "/bin") (codes "/t") layer (some (codes "/l")) layer_host
        ≡ some (ok tt, after))
    × ((path : Text)
        → file_at path after ≡ (
            if text_eq (codes "/l" / layer_name 8) path
            then some (codes "new")
            else if text_eq (codes "/t") path
            then none
            else file_at path layer_host))
unfolding is_directory contents text_eq filenames is_in starts_with find_next_layer_number
    layer_numbers is_layer layer_number until_point stoi next_number highest biased to_u64
    layer_name to_string ◌/◌ drop replicate
commit_mode-layer_example =
    commit_mode-layer (codes "/bin") (codes "/t") (codes "/l") (codes "new") layer_host 8 refl refl
      refl (omega arith) refl
