-- ===== src/Text/Numbers.antt =====
-- std::stoull, std::stoi and std::to_string. `none` is where they throw; an int is its 32 bits.
use flatimage.Base.{
  ℕ, zero, suc, ◌+◌, ◌-◌, ◌*◌, ◌/◌, ◌%◌, ◌^◌, ◌≤◌, ◌<◌, ◌≡◌, refl, ap, ◌∙◌, Bool, true, false, ◌&&◌,
  ◌||◌, if◌then◌else◌, Option, none, some, [], ◌∷◌, ◌++◌, ◌==◌, ltb, leb, all, all-append, lt→ltb,
  le→leb, Bool-cases, inl, inr, arith,
}
use native.Mathlib.Nat.{pow-suc}
use flatimage.Text.{Text, is_digit}

-- isspace in the C locale
abbrev is_space : ℕ → Bool
is_space c = c == 32 || (leb 9 c && leb c 13)

skip_spaces : Text → Text
skip_spaces [] = []
skip_spaces (c ∷ s) = let rest = skip_spaces s in if is_space c then rest else c ∷ s

-- The number that the digits at the front are.
number_in : ℕ → Text → ℕ
number_in n [] = n
number_in n (c ∷ s) = let more = number_in (n * 10 + (c - b'0')) s in if is_digit c then more else n

digits_in : Text → Option ℕ
digits_in [] = none
digits_in (c ∷ s) = if is_digit c then some (number_in 0 (c ∷ s)) else none

-- Whether a minus stands there, and the number behind the sign.
signed_in : Text → Bool × Option ℕ
signed_in [] = (false, none)
signed_in (c ∷ s) =
    if c == b'-'
    then (true, digits_in s)
    else if c == b'+'
    then (false, digits_in s)
    else (false, digits_in (c ∷ s))

-- A number of 64 bits; a minus negates it in these.
unsigned_value : Bool × Option ℕ → Option ℕ
unsigned_value (minus, none) = none
unsigned_value (minus, some n) =
    if ltb n (2 ^ 64) then some (if minus then (2 ^ 64 - n) % 2 ^ 64 else n) else none

unfoldable pub stoull : Text → Option ℕ
unfolding skip_spaces signed_in digits_in number_in unsigned_value
stoull s = unsigned_value (signed_in (skip_spaces s))

int_value : Bool × Option ℕ → Option ℕ
int_value (minus, none) = none
int_value (false, some n) = if ltb n (2 ^ 31) then some n else none
int_value (true, some n) = if leb n (2 ^ 31) then some ((2 ^ 32 - n) % 2 ^ 32) else none

unfoldable pub stoi : Text → Option ℕ
unfolding skip_spaces signed_in digits_in number_in int_value
stoi s = int_value (signed_in (skip_spaces s))

-- A number of at most so many digits.
decimal : ℕ → ℕ → Text
decimal zero n = []
decimal (suc k) n =
    let front = decimal k (n / 10) in
    if ltb n 10 then (b'0' + n) ∷ [] else front ++ (b'0' + n % 10) ∷ []

-- std::to_string of a size_t, which has 20 digits at most.
unfoldable pub to_string : ℕ → Text
unfolding decimal
to_string n = decimal 20 n

-- std::to_string of an int.
unfoldable pub int_to_string : ℕ → Text
int_to_string n = if ltb n (2 ^ 31) then to_string n else b'-' ∷ to_string (2 ^ 32 - n)

number_in-append :
    (n : ℕ) (s : Text) (c : ℕ)
    → all is_digit s ≡ true
    → is_digit c ≡ true
    → number_in n (s ++ c ∷ []) ≡ number_in n s * 10 + (c - b'0')
unfolding number_in
number_in-append n [] c h d = rw d
number_in-append n (x ∷ s) c h d = ground (arith, number_in-append (n * 10 + (x - b'0')) s c)

all_digits : (k n : ℕ) → all is_digit (decimal k n) ≡ true
unfolding decimal
all_digits zero n = refl
all_digits (suc k) n = elim (Bool-cases (ltb n 10)) [
  | inl one ↦ rw one (ground (arith, one))
  | inr more ↦ rw more (
      all-append is_digit (decimal k (n / 10)) (b'0' + n % 10) (all_digits k (n / 10))
        (ground arith))
]

number_in-decimal : (k n : ℕ) → 0 < k → n < 10 ^ k → number_in 0 (decimal k n) ≡ n
unfolding decimal number_in
number_in-decimal zero n p h = elim p [ ]
number_in-decimal (suc k) n p h = elim (Bool-cases (ltb n 10)) [
  | inl one ↦ rw one (ground (arith, one))
  | inr more ↦
      let large : 10 ≤ n = ground (arith, more) in
      let bound : n / 10 < 10 ^ k = omega (arith, pow-suc 10 k) in
      rw more (
        number_in-append 0 (decimal k (n / 10)) (b'0' + n % 10) (all_digits k (n / 10))
          (ground arith)
        ∙ omega (arith, number_in-decimal k (n / 10) (several k bound large) bound))
]
  where
    several : (k : ℕ) → n / 10 < 10 ^ k → 10 ≤ n → 0 < k
    several zero b l = omega arith
    several (suc k) b l = omega arith

-- The digits of a number come first: no space and no sign stands there.
abbrev StartsWithDigit : Text → Type 0
StartsWithDigit [] = ⊥
StartsWithDigit (c ∷ s) = is_digit c ≡ true

StartsWithDigit-append :
    (s : Text) (c : ℕ) → all is_digit s ≡ true → is_digit c ≡ true → StartsWithDigit (s ++ c ∷ [])
StartsWithDigit-append [] c h d = d
StartsWithDigit-append (x ∷ s) c h d = ground (arith, h)

decimal-StartsWithDigit : (k n : ℕ) → StartsWithDigit (decimal (suc k) n)
unfolding decimal
decimal-StartsWithDigit k n = elim (Bool-cases (ltb n 10)) [
  | inl one ↦ rw one (ground (arith, one))
  | inr more ↦ rw more (
      StartsWithDigit-append (decimal k (n / 10)) (b'0' + n % 10) (all_digits k (n / 10))
        (ground arith))
]

signed_in-digits :
    (s : Text) → StartsWithDigit s → signed_in (skip_spaces s) ≡ (false, some (number_in 0 s))
unfolding skip_spaces signed_in digits_in
signed_in-digits [] h = elim h [ ]
signed_in-digits (c ∷ s) h =
    let plain : is_space c ≡ false = ground (arith, h) in
    let no_minus : (c == b'-') ≡ false = ground (arith, h) in
    let no_plus : (c == b'+') ≡ false = ground (arith, h) in rw (plain, no_minus, no_plus, h) refl

signed_in-minus :
    (s : Text)
    → StartsWithDigit s
    → signed_in (skip_spaces (b'-' ∷ s)) ≡ (true, some (number_in 0 s))
unfolding skip_spaces signed_in digits_in
signed_in-minus [] h = elim h [ ]
signed_in-minus (c ∷ s) h = rw h refl

-- A size_t that is printed is read back.
pub stoull-to_string : (n : ℕ) → n < 2 ^ 64 → stoull (to_string n) ≡ some n
unfolding stoull to_string skip_spaces signed_in digits_in unsigned_value
stoull-to_string n h =
    rw
      (
        signed_in-digits (decimal 20 n) (decimal-StartsWithDigit 19 n),
        number_in-decimal 20 n (omega arith) (omega arith),
        lt→ltb n (2 ^ 64) h,
      )
      refl

-- An int that is printed is read back.
pub stoi-int_to_string : (n : ℕ) → n < 2 ^ 32 → stoi (int_to_string n) ≡ some n
unfolding stoi int_to_string to_string int_value
stoi-int_to_string n h = elim (Bool-cases (ltb n (2 ^ 31))) [
  | inl positive ↦
      rw
        (
          positive,
          signed_in-digits (decimal 20 n) (decimal-StartsWithDigit 19 n),
          number_in-decimal 20 n (omega arith) (omega arith),
          positive,
        )
        refl
  | inr negative ↦
      let large : 2 ^ 31 ≤ n = ground (arith, negative) in
      let fits : leb (2 ^ 32 - n) (2 ^ 31) ≡ true = le→leb (2 ^ 32 - n) (2 ^ 31) (omega arith) in
      rw
        (
          negative,
          signed_in-minus (decimal 20 (2 ^ 32 - n)) (decimal-StartsWithDigit 19 (2 ^ 32 - n)),
          number_in-decimal 20 (2 ^ 32 - n) (omega arith) (omega arith),
          fits,
        )
        (ap some (omega arith))
]
