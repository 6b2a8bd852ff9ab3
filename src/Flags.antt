-- ===== src/Flags.antt =====
-- src/reserved/permissions.hpp and src/reserved/unshare.hpp: two classes of one text, `Permissions`
-- and `Unshares`, over an enumeration, its masks and a region. `Flagset` has what differs between the
-- two; the functions below are the methods. A std::set of flags is the list of its members.
pub mod Laws
pub mod Refine
pub mod Contract
pub mod Permission
pub mod Unshare
use Prim.Native.Nat.{bit_and, bit_or}
use flatimage.Base.{
  ℕ, ◌+◌, ◌-◌, ◌*◌, ◌^◌, String, Bool, true, false, not, ◌||◌, List, [], ◌∷◌, map, length, any, ltb,
  ◌==◌, if◌then◌else◌, Option, none, some, Value, ok, err, guard, ◌>>=◌, ◌>>◌, value_or,
}
use flatimage.Base.Io
use flatimage.Base.Io.{File, Io}
use flatimage.Bytes.{to_bytes, from_bytes}
use flatimage.Reserved.{Region, offset_begin, offset_end, sub_u64, write, read}
use flatimage.Text.{Text, less, to_lower}

pub record Flagset : Type 1 where
  pub Flag : Type 0
  -- the value of the enumerator, by which the flags are compared
  pub ordinal : Flag → ℕ
  pub all_flag : Flag
  pub none_flag : Flag
  -- the name that the conversion to std::string gives
  pub name : Flag → Text
  -- the std::map of masks, in the order of its keys
  pub masks : List (Flag × ℕ)
  -- sizeof(Bits)
  pub sizeof_bits : ℕ
  pub region : Region
  pub not_found : String
  pub invalid_none : String
  pub all_with_others : String

module _ (F : Flagset) where
  open F use {
    Flag, ordinal, all_flag, none_flag, name, masks, sizeof_bits, region, not_found, invalid_none,
    all_with_others,
  }

  abbrev pub is : Flag → Flag → Bool
  is a b = ordinal a == ordinal b

  abbrev find_in : List (Flag × ℕ) → Flag → Option ℕ
  find_in [] flag = none
  find_in ((f, mask) ∷ rest) flag = if is f flag then some mask else find_in rest flag

  -- masks.find(flag)
  unfoldable pub find : Flag → Option ℕ
  find flag = find_in masks flag

  -- std::set::contains
  abbrev pub member : List Flag → Flag → Bool
  member flags flag = any (λ f. is f flag) flags

  -- `~mask`, in a word of sizeof(Bits) bytes
  abbrev complement : ℕ → ℕ
  complement mask = 2 ^ (8 * sizeof_bits) - 1 - mask

  unfoldable pub bit_set : ℕ → Flag → Bool → Value ℕ
  bit_set bits flag value = elim (find flag) [
    | none ↦ err not_found
    | some mask ↦ ok (if value then bit_or bits mask else bit_and bits (complement mask))
  ]

  -- std::set<std::string>::insert
  insert_name : Text → List Text → List Text
  insert_name s [] = s ∷ []
  insert_name s (t ∷ ts) =
      if less s t then s ∷ t ∷ ts else if less t s then t ∷ insert_name s ts else t ∷ ts

  strings_loop : ℕ → List (Flag × ℕ) → List Text → List Text
  strings_loop bits [] out = out
  strings_loop bits ((flag, mask) ∷ rest) out =
      strings_loop bits rest
        (if bit_and bits mask == 0 then out else insert_name (map to_lower (name flag)) out)

  unfoldable pub bits_to_strings : ℕ → List Text
  unfolding insert_name strings_loop
  bits_to_strings bits = strings_loop bits masks []

  -- the free functions `write` and `read`
  unfoldable pub write_bits : ℕ → ℕ → Io (Unit {0})
  write_bits base bits =
      write (base + offset_begin region) (base + offset_end region) (to_bytes sizeof_bits bits)

  unfoldable pub read_bits : ℕ → File → Value ℕ
  read_bits base file = do
    let begin = base + offset_begin region
    guard (sizeof_bits == sub_u64 (base + offset_end region) begin)
        "Trying to read an exceeding number of bytes: {} vs {}"
    bytes ← read begin sizeof_bits file
    ok (from_bytes bytes)

  -- the loop of set_permissions
  unfoldable pub set_each : ℕ → List Flag → Bool → Value ℕ
  set_each bits [] value = ok bits
  set_each bits (flag ∷ flags) value = do
    bits' ← bit_set bits flag value
    set_each bits' flags value

  -- set_permissions, set_unshares; `all` is the call of set_all(true).
  pub set_flags_with : Io (Unit {0}) → ℕ → ℕ → List Flag → Bool → Io (Unit {0})
  set_flags_with all base bits flags value =
      if member flags none_flag
      then Io.fail invalid_none
      else if member flags all_flag
      then (if ltb 1 (length flags) then Io.fail all_with_others else all)
      else (Io.and_then (Io.reads (λ _. set_each bits flags value)) (write_bits base))

  unfoldable pub keys_but_all : List (Flag × ℕ) → List Flag
  keys_but_all [] = []
  keys_but_all ((f, mask) ∷ rest) =
      let others = keys_but_all rest in if is f all_flag then others else f ∷ others

  -- set_all calls set_permissions with the keys of the masks but ALL, so the call for ALL is not made
  -- again, and what stands for it here is not reached.
  unfoldable pub set_all : ℕ → Bool → Io (Unit {0})
  unfolding set_flags_with keys_but_all
  set_all base value = set_flags_with (Io.fail "unreachable") base 0 (keys_but_all masks) value

  unfoldable pub set_flags : ℕ → ℕ → List Flag → Bool → Io (Unit {0})
  unfolding set_flags_with
  set_flags base = set_flags_with (set_all base true) base

  unfoldable pub set : ℕ → List Flag → Io (Unit {0})
  set base flags = set_flags base 0 flags true

  unfoldable pub add : ℕ → List Flag → Io (Unit {0})
  add base flags = Io.and_then (Io.reads (read_bits base)) λ bits. set_flags base bits flags true

  unfoldable pub del : ℕ → List Flag → Io (Unit {0})
  del base flags = Io.and_then (Io.reads (read_bits base)) λ bits. set_flags base bits flags false

  -- Unshares::clear
  unfoldable pub clear : ℕ → Io (Unit {0})
  clear base = write_bits base 0

  unfoldable pub contains : ℕ → Flag → File → Bool
  contains base flag file =
      if is flag none_flag || is flag all_flag
      then false
      else (let bits = value_or (read_bits base file) 0 in
          elim (find flag) [ none ↦ false | some mask ↦ not (bit_and bits mask == 0) ])

  unfoldable pub to_strings : ℕ → File → Value (List Text)
  to_strings base file = do bits ← read_bits base file; ok (bits_to_strings bits)
