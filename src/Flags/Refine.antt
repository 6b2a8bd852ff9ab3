-- ===== src/Flags/Refine.antt =====
-- The two classes as sets of flags kept in the image: which flags `contains` reports after each
-- method.
use flatimage.Base.{
  ℕ, zero, suc, ◌+◌, ◌*◌, ◌^◌, ◌<◌, ◌≡◌, refl, ap, sym, ◌∙◌, subst, Bool, true, false, not, ◌||◌,
  ◌&&◌, List, [], ◌∷◌, all, length, arith, ◌==◌, if◌then◌else◌, some, Value, ok, value_or, ==_self,
  Bool-cases, inl, inr, ◌≤◌, ◌⊎◌,
}
use flatimage.Base.Io
use flatimage.Base.Io.{File}
use flatimage.Bits.{bit, bit-lt, bit-zero, bit_and-pow, bit-from_bytes, pow_pos}
use flatimage.Bytes.{Bytes, to_bytes, from_bytes}
use flatimage.Bytes.Access.{read_at_within}
use flatimage.Bytes.Endian.{length-to_bytes}
use flatimage.Reserved.{Region, offset_begin, offset_end, sub_u64, write, read}
use flatimage.Reserved.Layout.{size, IsImage, size_lem, region_bounds, Region-cases}
use flatimage.Reserved.Access.{padded_exact, read-eq-ok, read-write, read-write_ne, write-IsImage}
use flatimage.Flags.{
  Flagset, is, member, set_flags, set_flags_with, contains, read_bits, write_bits,
}
use flatimage.Flags.Laws.{is_proper, FlagsetLaws, updated, set_each_lem}

-- `(bits & mask) != 0` tests the bit of the mask.
mask_test : (b m : ℕ) → b < 2 → 0 < m → not (b * m == 0) ≡ (b == 1)
mask_test zero m h p = ground arith
mask_test (suc zero) m h p = ground arith
mask_test (suc (suc b)) m h p = absurd (omega arith)

module _ (F : Flagset) (L : FlagsetLaws F) (base : ℕ) (f : Bytes) where
  pub contains_lem :
      (p : F.Flag)
      → is_proper F p ≡ true
      → contains F base p (some f) ≡ (bit (L.index p) (value_or (read_bits F base (some f)) 0) == 1)
  unfolding contains
  contains_lem p pp =
      rw (special, L.find_lem p pp, bit_and-pow)
        (mask_test (bit (L.index p) word) (2 ^ L.index p) (bit-lt (L.index p) word)
          (pow_pos (L.index p)))
    where
      word : ℕ
      word = value_or (read_bits F base (some f)) 0

      special : (is F p F.none_flag || is F p F.all_flag) ≡ false
      special = ground arith

module _ (F : Flagset) (L : FlagsetLaws F) (base : ℕ) (f : Bytes) (image : IsImage base f) where
  -- The two sizes that the code compares, before it reads a word, are equal.
  sizes_agree :
      (F.sizeof_bits == sub_u64 (base + offset_end F.region) (base + offset_begin F.region)) ≡ true
  sizes_agree = rw (size_lem base F.region image.base_fits, L.size_lem) (==_self F.sizeof_bits)

  -- A word that was written is read back, up to the bits that the word has.
  read_bits-write_bits :
      (bits : ℕ)
      → read_bits F base (write_bits F base bits (some f)).1
        ≡ ok (from_bytes (to_bytes F.sizeof_bits bits))
  unfolding read_bits write_bits
  read_bits-write_bits bits = rw (sizes_agree, word)
    where
      fits : length (to_bytes F.sizeof_bits bits) ≡ size F.region
      fits = length-to_bytes F.sizeof_bits bits ∙ sym L.size_lem

      word :
          read
            (base + offset_begin F.region)
            F.sizeof_bits
            (write
              (base + offset_begin F.region)
              (base + offset_end F.region)
              (to_bytes F.sizeof_bits bits)
              (some f)).1
          ≡ ok (to_bytes F.sizeof_bits bits)
      word =
          subst
            (λ k.
              read (base + offset_begin F.region) k
                (write (base + offset_begin F.region) (base + offset_end F.region)
                  (to_bytes F.sizeof_bits bits) (some f)).1
              ≡ ok (to_bytes F.sizeof_bits bits))
            L.size_lem
            (read-write base F.region (to_bytes F.sizeof_bits bits) f image (omega (arith, fits))
              ∙ ap ok (padded_exact F.region _ fits))

-- ALL and NONE are never contained.
contains_special :
    (F : Flagset) (base : ℕ) (g : Bytes) (p : Flagset.Flag F)
    → is_proper F p ≡ false
    → contains F base p (some g) ≡ false
unfolding contains
contains_special F base g p h = rw special
  where
    special : (is F p F.none_flag || is F p F.all_flag) ≡ true
    special = ground arith

on_proper :
    (F : Flagset) (base : ℕ) (g : Bytes) (spec : Flagset.Flag F → Bool) (p : Flagset.Flag F)
    → (is_proper F p ≡ true → contains F base p (some g) ≡ spec p)
    → contains F base p (some g) ≡ (is_proper F p && spec p)
on_proper F base g spec p right = elim (Bool-cases (is_proper F p)) [
  | inl e ↦ rw e (right e)
  | inr e ↦ rw e (contains_special F base g p e)
]

and_same : (b c d : Bool) → (b ≡ true → c ≡ d) → (b && c) ≡ (b && d)
and_same true c d h = h refl
and_same false c d h = refl

⊎-map_right : {A B : Type 0} → A ⊎ (A → ⊥) → ((A → ⊥) → B) → A ⊎ B
⊎-map_right (inl a) f = inl a
⊎-map_right (inr n) f = inr (f n)

-- The outcome of a method: it succeeds, leaves an image whose other regions are as before, and the
-- flags that `contains` reports then are those of `spec`.
pub record FlagsAfter (F : Flagset) (base : ℕ) (f : Bytes) (spec : Flagset.Flag F → Bool)
    (result : Value (Unit {0}) × File) : Type 0 where
  pub g : Bytes
  pub done : result ≡ (ok tt, some g)
  pub image : IsImage base g
  pub others :
      (s : Region)
      → (Flagset.region F ≡ s)
        ⊎ (read (base + offset_begin s) (size s) (some g)
            ≡ read (base + offset_begin s) (size s) (some f))
  pub flags : (p : Flagset.Flag F) → contains F base p (some g) ≡ (is_proper F p && spec p)

module _ (F : Flagset) (L : FlagsetLaws F) (base : ℕ) (f : Bytes) (image : IsImage base f) where
  -- Writing a word whose bits are those of `spec`.
  pub write_bits_lem :
      (bits : ℕ) (spec : F.Flag → Bool)
      → ((p : F.Flag) → is_proper F p ≡ true → (bit (L.index p) bits == 1) ≡ spec p)
      → FlagsAfter F base f spec (write_bits F base bits (some f))
  unfolding write_bits
  write_bits_lem bits spec right =
      let (g, e, still, len, fits) =
        write-IsImage base F.region (to_bytes F.sizeof_bits bits) f image in
      let done : write_bits F base bits (some f) ≡ (ok tt, some g) = λ i. (fits.1 room i, e i) in
      record {
        g = g;
        done = done;
        image = still;
        others = λ s. ⊎-map_right (Region-cases F.region s) λ ne.
            subst
              (λ h.
                read (base + offset_begin s) (size s) h
                ≡ read (base + offset_begin s) (size s) (some f))
              e (read-write_ne base F.region s (to_bytes F.sizeof_bits bits) f image ne);
        flags = λ p. on_proper F base g spec p λ pp.
            contains_lem F L base g p pp
            ∙ ap (λ v. bit (L.index p) (value_or v 0) == 1)
                (ap (λ r. read_bits F base r.1) (sym done)
                  ∙ read_bits-write_bits F L base f image bits)
            ∙ ap (λ b. b == 1) (bit-from_bytes F.sizeof_bits (L.index p) bits (L.index_fits p pp))
            ∙ right p pp;
      }
    where
      room : length (to_bytes F.sizeof_bits bits) ≤ size F.region
      room = omega (arith, length-to_bytes F.sizeof_bits bits, L.size_lem)

no_special :
    (F : Flagset) (flags : List (Flagset.Flag F))
    → all (is_proper F) flags ≡ true
    → (member F flags F.none_flag ≡ false) × (member F flags F.all_flag ≡ false)
no_special F [] h = (refl, refl)
no_special F (f ∷ flags) h =
    let t : all (is_proper F) flags ≡ true = ground arith in ground (arith, no_special F flags t)

-- How the bit of a flag, as a Boolean, changes.
updated_test :
    (F : Flagset) (flags : List (Flagset.Flag F)) (value : Bool) (p : Flagset.Flag F) (b : ℕ)
    → (updated F flags value p b == 1) ≡ (if member F flags p then value else b == 1)
updated_test F flags true p b = elim (Bool-cases (member F flags p)) [ inl e ↦ rw e | inr e ↦ rw e ]
updated_test F flags false p b = elim (Bool-cases (member F flags p)) [
  | inl e ↦ rw e
  | inr e ↦ rw e
]

module _ (F : Flagset) (L : FlagsetLaws F) (base : ℕ) (f : Bytes) (image : IsImage base f) where
  -- set_permissions on proper flags.
  pub set_flags_with_lem :
      (all_call : Io.Io (Unit {0})) (bits : ℕ) (flags : List F.Flag) (value : Bool)
      → all (is_proper F) flags ≡ true
      → FlagsAfter F base f
          (λ p. if member F flags p then value else bit (L.index p) bits == 1)
          (set_flags_with F all_call base bits flags value (some f))
  unfolding set_flags_with
  set_flags_with_lem all_call bits flags value proper =
      let (no_none, no_all) = no_special F flags proper in
      let (bits', e, u) = set_each_lem F L bits flags value proper in
      rw (no_none, no_all, e)
        (write_bits_lem F L base f image bits' _
          (λ p pp. ap (λ b. b == 1) (u p pp) ∙ updated_test F flags value p _))

pub respec :
    {F : Flagset} {base : ℕ} {f : Bytes} {spec : Flagset.Flag F → Bool}
    {result : Value (Unit {0}) × File} (spec' : Flagset.Flag F → Bool)
    → FlagsAfter F base f spec result
    → ((p : Flagset.Flag F) → is_proper F p ≡ true → spec p ≡ spec' p)
    → FlagsAfter F base f spec' result
respec {F = F} {spec = spec} spec' a same = record {
  g = a.g;
  done = a.done;
  image = a.image;
  others = a.others;
  flags = λ p. a.flags p ∙ and_same (is_proper F p) (spec p) (spec' p) (same p);
}

pub if_or : (b c : Bool) → (if b then true else c) ≡ (b || c)
if_or true c = refl
if_or false c = refl

pub if_and_not : (b c : Bool) → (if b then false else c) ≡ (not b && c)
if_and_not true c = refl
if_and_not false c = refl

pub or_false : (b : Bool) → (b || false) ≡ b
or_false true = refl
or_false false = refl

pub clear_word : (i : ℕ) → (bit i 0 == 1) ≡ false
clear_word i = ground (arith, bit-zero i)

module _ (F : Flagset) (L : FlagsetLaws F) (base : ℕ) (f : Bytes) (image : IsImage base f) where
  -- A word can be read from an image.
  pub read_bits_within : (bits : ℕ) × (read_bits F base (some f) ≡ ok bits)
  unfolding read_bits
  read_bits_within =
      let (d, e, n) =
        read_at_within (base + offset_begin F.region) F.sizeof_bits f
          (omega (arith, image.space_fits, region_bounds F.region, L.size_lem)) in
      (from_bytes d, rw (sizes_agree F L base f image, read-eq-ok _ _ f d e))

  pub set_flags_lem :
      (bits : ℕ) (flags : List F.Flag) (value : Bool)
      → all (is_proper F) flags ≡ true
      → FlagsAfter F base f
          (λ p. if member F flags p then value else bit (L.index p) bits == 1)
          (set_flags F base bits flags value (some f))
  unfolding set_flags
  set_flags_lem = set_flags_with_lem F L base f image _
