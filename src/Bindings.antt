-- ===== src/Bindings.antt =====
-- src/db/bind.hpp (Bind, Binds, and the words for the types in `serialize` and `deserialize`) and the
-- index that `add` of src/parser/cmd/bind.hpp gives to a binding. The list is that of Binds::m_binds.
pub mod Database
pub mod Numbered
pub mod TypeWords
use flatimage.Base.{ℕ, suc, ◌+◌, ◌-◌, ◌%◌, ◌^◌, List, [], ◌∷◌, ◌++◌, max, ◌==◌, if◌then◌else◌}
use flatimage.Text.{Text, codes, text_eq}
use flatimage.Parser.Bind.{BindType, ro, rw, dev, none_type}

pub record Bind : Type 0 where
  pub index : ℕ
  pub path_src : Text
  pub path_dst : Text
  pub type : BindType

-- Binds::push_back
abbrev pub push_back : List Bind → Bind → List Bind
push_back binds bind = binds ++ bind ∷ []

-- std::erase_if
unfoldable pub erase_if_index : ℕ → List Bind → List Bind
erase_if_index index [] = []
erase_if_index index (bind ∷ binds) =
    let others = erase_if_index index binds in if bind.index == index then others else bind ∷ others

-- The loop at the end of `erase`.
unfoldable pub renumber : ℕ → List Bind → List Bind
renumber i [] = []
renumber i (bind ∷ binds) =
    record { index = i; path_src = bind.path_src; path_dst = bind.path_dst; type = bind.type }
    ∷ renumber (suc i) binds

-- Binds::erase
unfoldable pub erase : List Bind → ℕ → List Bind
erase binds index = renumber 0 (erase_if_index index binds)

highest : ℕ → List Bind → ℕ
highest m [] = m
highest m (bind ∷ binds) = highest (max m bind.index) binds

-- get_highest_index, where -1 is returned as a uint64_t.
unfoldable pub get_highest_index : List Bind → ℕ
unfolding highest
get_highest_index [] = 2 ^ 64 - 1
get_highest_index (bind ∷ binds) = highest bind.index binds

-- The list that `add` writes.
unfoldable pub add : List Bind → BindType → Text → Text → List Bind
add binds bind_type path_src path_dst = push_back binds record {
  index = (get_highest_index binds + 1) % 2 ^ 64;
  path_src = path_src;
  path_dst = path_dst;
  type = bind_type;
}

-- The word that serialize writes for a type.
abbrev pub type_to_word : BindType → Text
type_to_word ro = codes "ro"
type_to_word rw = codes "rw"
type_to_word _ = codes "dev"

-- The comparisons of deserialize, in their order.
unfoldable pub word_to_type : Text → BindType
word_to_type type =
    if text_eq type (codes "ro")
    then ro
    else if text_eq type (codes "rw")
    then rw
    else if text_eq type (codes "rw")
    then dev
    else none_type
