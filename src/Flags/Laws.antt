-- ===== src/Flags/Laws.antt =====
-- What the two flag sets have in common, and what the loops over flags do to single bits.
use flatimage.Base.{
  ℕ, ◌-◌, ◌*◌, ◌^◌, ◌<◌, ◌≡◌, refl, ◌∙◌, Bool, true, false, not, ◌||◌, List, [], ◌∷◌, all, arith,
  ◌==◌, if◌then◌else◌, some, ok,
}
use Prim.Native.Nat.{bit_and, bit_or}
use flatimage.Bits.{bit, bit_set_on, bit_set_off}
use flatimage.Reserved.Layout.{size}
use flatimage.Flags.{Flagset, is, find, member, bit_set, set_each, keys_but_all}

-- Neither ALL nor NONE.
abbrev pub is_proper : (F : Flagset) → Flagset.Flag F → Bool
is_proper F flag = not (is F flag F.all_flag || is F flag F.none_flag)

-- Each proper flag has a bit of its own in the word, which the region holds exactly.
pub record FlagsetLaws (F : Flagset) : Type 0 where
  pub index : F.Flag → ℕ
  pub index_fits : (flag : F.Flag) → is_proper F flag ≡ true → index flag < 8 * F.sizeof_bits
  pub index_eq :
      (a b : F.Flag) → is_proper F a ≡ true → is_proper F b ≡ true → (index a == index b) ≡ is F b a
  pub find_lem : (flag : F.Flag) → is_proper F flag ≡ true → find F flag ≡ some (2 ^ index flag)
  pub size_lem : size F.region ≡ F.sizeof_bits
  pub keys_proper : all (is_proper F) (keys_but_all F F.masks) ≡ true
  pub keys_all :
      (flag : F.Flag) → is_proper F flag ≡ true → member F (keys_but_all F F.masks) flag ≡ true

-- Whether a flag counts as set after `flags` got `value` in a word where it was `before`.
abbrev pub updated : (F : Flagset) → List (Flagset.Flag F) → Bool → Flagset.Flag F → ℕ → ℕ
updated F flags value p before = if member F flags p then (if value then 1 else 0) else before

module _ (F : Flagset) (L : FlagsetLaws F) where
  -- The bit of p in `bits'` is as the update of `bits` wants it.
  abbrev pub Updates : ℕ → List F.Flag → Bool → ℕ → Type 0
  Updates bits flags value bits' =
      (p : F.Flag)
      → is_proper F p ≡ true
      → bit (L.index p) bits' ≡ updated F flags value p (bit (L.index p) bits)

  bit-bit_set :
      (bits : ℕ) (f : F.Flag) (value : Bool)
      → is_proper F f ≡ true
      → (bits' : ℕ) × (bit_set F bits f value ≡ ok bits')
        × ((p : F.Flag)
            → is_proper F p ≡ true
            → bit (L.index p) bits'
              ≡ (if is F f p then (if value then 1 else 0) else bit (L.index p) bits))
  unfolding bit_set
  bit-bit_set bits f true pf = (
    bit_or bits (2 ^ L.index f),
    rw (bit_set, L.find_lem f pf),
    (λ p pp. bit_set_on (L.index p) (L.index f) bits ∙ rw (L.index_eq p f pp pf)),
  )
  bit-bit_set bits f false pf = (
    bit_and bits (2 ^ (8 * F.sizeof_bits) - 1 - 2 ^ L.index f),
    rw (bit_set, L.find_lem f pf),
    (λ p pp.
        bit_set_off (8 * F.sizeof_bits) (L.index p) (L.index f) bits (L.index_fits p pp)
          (L.index_fits f pf)
        ∙ rw (L.index_eq p f pp pf)),
  )

  -- The loop over the flags succeeds on proper flags, and gives exactly these the value.
  pub set_each_lem :
      (bits : ℕ) (flags : List F.Flag) (value : Bool)
      → all (is_proper F) flags ≡ true
      → (bits' : ℕ) × (set_each F bits flags value ≡ ok bits') × Updates bits flags value bits'
  unfolding set_each
  set_each_lem bits [] value h = (bits, refl, (λ p pp. refl))
  set_each_lem bits (f ∷ flags) value h =
      let (bits1, e1, u1) = bit-bit_set bits f value (ground arith) in
      let (bits2, e2, u2) = set_each_lem bits1 flags value (ground arith) in
      (bits2, rw e1 e2, (λ p pp. u2 p pp ∙ ground (arith, u1 p pp)))
