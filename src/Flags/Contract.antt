-- ===== src/Flags/Contract.antt =====
-- The methods of the two classes, as what `contains` reports after them.
use flatimage.Base.{
  ℕ, ◌≡◌, ◌∙◌, Bool, true, false, not, ◌||◌, ◌&&◌, List, [], ◌∷◌, all, length, arith, ltb, ◌==◌,
  if◌then◌else◌, some, err, ==_self, Bool-cases, inl, inr,
}
use flatimage.Base.Io.{File}
use flatimage.Bits.{bit}
use flatimage.Bytes.{Bytes}
use flatimage.Reserved.Layout.{IsImage}
use flatimage.Flags.{
  Flagset, is, member, set_flags, set_flags_with, set_all, set, add, del, clear, contains,
}
use flatimage.Flags.Laws.{is_proper, FlagsetLaws}
use flatimage.Flags.Refine.{
  FlagsAfter, contains_lem, respec, if_or, if_and_not, clear_word, or_false, read_bits_within,
  set_flags_lem, set_flags_with_lem, write_bits_lem,
}

-- On an image, `set` of proper flags (neither ALL nor NONE) succeeds, and afterwards exactly these
-- flags are contained; the other regions of the reserved space are as before.
pub set_lem :
    (F : Flagset) (L : FlagsetLaws F) (base : ℕ) (f : Bytes) (flags : List (Flagset.Flag F))
    → IsImage base f
    → all (is_proper F) flags ≡ true
    → FlagsAfter F base f (member F flags) (set F base flags (some f))
unfolding set
set_lem F L base f flags image proper =
    respec (member F flags) (set_flags_lem F L base f image 0 flags true proper) (λ p pp.
      if_or (member F flags p) (bit (L.index p) 0 == 1)
      ∙ rw (clear_word (L.index p)) (or_false (member F flags p)))

-- On an image, `add` of proper flags succeeds, and afterwards a flag is contained exactly when it was
-- added or was contained before; the other regions of the reserved space are as before.
pub add_lem :
    (F : Flagset) (L : FlagsetLaws F) (base : ℕ) (f : Bytes) (flags : List (Flagset.Flag F))
    → IsImage base f
    → all (is_proper F) flags ≡ true
    → FlagsAfter F base f
        (λ p. member F flags p || contains F base p (some f))
        (add F base flags (some f))
unfolding add
add_lem F L base f flags image proper =
    let (bits, e) = read_bits_within F L base f image in
    rw e (
      respec _ (set_flags_lem F L base f image bits flags true proper) (λ p pp.
        if_or (member F flags p) (bit (L.index p) bits == 1)
        ∙ rw (contains_lem F L base f p pp, e)))

-- On an image, `del` of proper flags succeeds, and afterwards a flag is contained exactly when it was
-- contained before and is not among the deleted; the other regions of the reserved space are as before.
pub del_lem :
    (F : Flagset) (L : FlagsetLaws F) (base : ℕ) (f : Bytes) (flags : List (Flagset.Flag F))
    → IsImage base f
    → all (is_proper F) flags ≡ true
    → FlagsAfter F base f
        (λ p. not (member F flags p) && contains F base p (some f))
        (del F base flags (some f))
unfolding del
del_lem F L base f flags image proper =
    let (bits, e) = read_bits_within F L base f image in
    rw e (
      respec _ (set_flags_lem F L base f image bits flags false proper) (λ p pp.
        if_and_not (member F flags p) (bit (L.index p) bits == 1)
        ∙ rw (contains_lem F L base f p pp, e)))

-- On an image, `set_all` succeeds, and afterwards every proper flag is contained, or none is, as its
-- argument says; the other regions of the reserved space are as before.
pub set_all_lem :
    (F : Flagset) (L : FlagsetLaws F) (base : ℕ) (f : Bytes) (value : Bool)
    → IsImage base f
    → FlagsAfter F base f (λ p. value) (set_all F base value (some f))
unfolding set_all
set_all_lem F L base f value image =
    respec _ (set_flags_with_lem F L base f image _ 0 _ value L.keys_proper)
      (λ p pp. rw (L.keys_all p pp))

-- On an image, where ALL is not NONE, `set`, `add` and `del` of ALL alone are each the same call: all of them grant every
-- proper flag, `del` too.
pub del_all :
    (F : Flagset) (L : FlagsetLaws F) (base : ℕ) (f : Bytes)
    → IsImage base f
    → is F F.all_flag F.none_flag ≡ false
    → FlagsAfter F base f (λ p. true) (set F base (F.all_flag ∷ []) (some f))
      × FlagsAfter F base f (λ p. true) (add F base (F.all_flag ∷ []) (some f))
      × FlagsAfter F base f (λ p. true) (del F base (F.all_flag ∷ []) (some f))
unfolding set add del set_flags set_flags_with
del_all F L base f image apart =
    let (bits, e) = read_bits_within F L base f image in
    let granted = set_all_lem F L base f true image in
    rw (e, apart, ==_self) (granted, granted, granted)

-- NONE among the flags of `set`, `add` or `del`, which all end in this call, is refused, and so is ALL
-- beside another flag; the file is left as it is.
pub set_flags_refused :
    (F : Flagset) (base : ℕ) (file : File) (bits : ℕ) (flags : List (Flagset.Flag F)) (value : Bool)
    → (member F flags F.none_flag || (member F flags F.all_flag && ltb 1 (length flags))) ≡ true
    → set_flags F base bits flags value file
      ≡ (err (if member F flags F.none_flag then F.invalid_none else F.all_with_others), file)
unfolding set_flags set_flags_with
set_flags_refused F base file bits flags value h = elim (Bool-cases (member F flags F.none_flag)) [
  | inl e ↦ rw e
  | inr e ↦
      let whole : member F flags F.all_flag ≡ true = ground arith in
      let many : ltb 1 (length flags) ≡ true = ground arith in rw (e, whole, many)
]

-- On an image, `clear` succeeds and afterwards no proper flag is contained, and `set_all(false)` has
-- the same effect; the other regions of the reserved space are as before.
pub clear_lem :
    (F : Flagset) (L : FlagsetLaws F) (base : ℕ) (f : Bytes)
    → IsImage base f
    → FlagsAfter F base f (λ p. false) (clear F base (some f))
      × FlagsAfter F base f (λ p. false) (set_all F base false (some f))
unfolding clear
clear_lem F L base f image = (
  write_bits_lem F L base f image 0 (λ p. false) (λ p pp. clear_word (L.index p)),
  set_all_lem F L base f false image,
)
