-- ===== src/Parser/Filled.antt =====
-- Sets and numbers that the arguments name.
use flatimage.Base.{
  ℕ, zero, suc, ◌+◌, ◌-◌, ◌*◌, ◌/◌, ◌%◌, ◌^◌, ◌≤◌, ◌<◌, ◌≡◌, refl, ap, sym, ◌∙◌, List, [], ◌∷◌,
  ◌++◌, append_assoc, append-nil, true, all, all-append, map, arith, length, length-append, lt→ltb,
  le→ltb_false, String, ok,
}
use native.Mathlib.Nat.{pow-suc}
use flatimage.Text.{Text, enum_from_string, is_digit}
use flatimage.Parser.Args.{insert, insert_each, to_number, stou}

module _ {A : Type 0} (ordinal : A → ℕ) where
  -- A set in its order, from `lo` on.
  abbrev pub Ascending : ℕ → List A → Type 0
  Ascending lo [] = Unit
  Ascending lo (a ∷ rest) = (lo ≤ ordinal a) × Ascending (suc (ordinal a)) rest

  abbrev Below : ℕ → List A → Type 0
  Below n [] = Unit
  Below n (b ∷ bs) = (ordinal b < n) × Below n bs

  Below-le : (m n : ℕ) (bs : List A) → m ≤ n → Below m bs → Below n bs
  Below-le m n [] h b = tt
  Below-le m n (b ∷ bs) h l = (omega (arith, l.0), Below-le m n bs h l.1)

  Below-append : (n : ℕ) (bs : List A) (a : A) → Below n bs → ordinal a < n → Below n (bs ++ a ∷ [])
  Below-append n [] a b h = (h, tt)
  Below-append n (b ∷ bs) a l h = (l.0, Below-append n bs a l.1 h)

  insert_last : (a : A) (bs : List A) → Below (ordinal a) bs → insert ordinal a bs ≡ bs ++ a ∷ []
  unfolding insert
  insert_last a [] l = refl
  insert_last a (b ∷ bs) l =
      rw
        (
          le→ltb_false (ordinal a) (ordinal b) (omega (arith, l.0)),
          lt→ltb (ordinal b) (ordinal a) l.0,
        )
        (ap (λ t. b ∷ t) (insert_last a bs l.1))

  -- The loop over the names of a set that is in its order ends with the set.
  pub insert_each-map :
      (entries : List (A × Text)) (name : A → Text) (e : String)
      → ((a : A) → enum_from_string entries (name a) ≡ ok a)
      → (lo : ℕ) (found rest : List A) → Below lo found
      → Ascending lo rest
      → insert_each ordinal entries e found (map name rest) ≡ ok (found ++ rest)
  unfolding insert_each
  insert_each-map entries name e named lo found [] b up = ap ok (sym (append-nil found))
  insert_each-map entries name e named lo found (a ∷ rest) b up =
      rw (insert_each, named a, insert_last a found (Below-le lo (ordinal a) found up.0 b))
        (insert_each-map entries name e named (suc (ordinal a)) (found ++ a ∷ []) rest
          (Below-append (suc (ordinal a)) found a
            (Below-le lo (suc (ordinal a)) found (omega (arith, up.0)) b) (omega arith))
          up.1)
      ∙ ap ok (append_assoc found (a ∷ []) rest)

-- A number in so many decimal digits.
abbrev pub digits : ℕ → ℕ → Text
digits zero n = []
digits (suc k) n = digits k (n / 10) ++ (b'0' + n % 10) ∷ []

to_number-append :
    (n : ℕ) (s : Text) (c : ℕ) → to_number n (s ++ c ∷ []) ≡ to_number n s * 10 + (c - b'0')
unfolding to_number
to_number-append n [] c = refl
to_number-append n (d ∷ s) c = to_number-append (n * 10 + (d - b'0')) s c

to_number-digits : (k n : ℕ) → n < 10 ^ k → to_number 0 (digits k n) ≡ n
unfolding to_number
to_number-digits zero n h = omega arith
to_number-digits (suc k) n h =
    to_number-append 0 (digits k (n / 10)) (b'0' + n % 10)
    ∙ omega (arith, to_number-digits k (n / 10) (omega (arith, pow-suc 10 k)))

pub all-digits : (k n : ℕ) → all is_digit (digits k n) ≡ true
all-digits zero n = refl
all-digits (suc k) n =
    all-append is_digit (digits k (n / 10)) (b'0' + n % 10) (all-digits k (n / 10)) (ground arith)

stou_nonempty :
    (bound : ℕ) (s : Text) (e : String)
    → 0 < length s
    → to_number 0 s < bound
    → stou bound s e ≡ ok (to_number 0 s)
unfolding stou
stou_nonempty bound [] e h l = elim h [ ]
stou_nonempty bound (c ∷ s) e h l = rw (lt→ltb (to_number 0 (c ∷ s)) bound l)

length-digits : (k n : ℕ) → length (digits k n) ≡ k
length-digits zero n = refl
length-digits (suc k) n =
    omega
      (arith, length-append (digits k (n / 10)) ((b'0' + n % 10) ∷ []), length-digits k (n / 10))

-- Decimal digits are read as the number, where it is below the bound.
pub stou-digits :
    (k bound n : ℕ) (e : String) → 0 < k → n < 10 ^ k → n < bound → stou bound (digits k n) e ≡ ok n
stou-digits k bound n e p h l =
    let value = to_number-digits k n h in
    stou_nonempty bound (digits k n) e (omega (arith, length-digits k n)) (omega (arith, value))
    ∙ ap ok value
