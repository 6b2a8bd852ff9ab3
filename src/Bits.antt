-- ===== src/Bits.antt =====
-- Single bits of a machine word, and what `|=`, `&= ~` and `&` with a one-bit mask do to them. The
-- word is a native number, and `bit k` is its k-th binary digit.
use Prim.Native.Nat.{bit_and, bit_or, digits, bit_and-bitwise, bit_or-bitwise, min, max}
use native.Mathlib.Nat.{pow-suc}
use flatimage.Base.{
  ℕ, zero, suc, ◌+◌, ◌-◌, ◌*◌, ◌/◌, ◌%◌, ◌^◌, ◌≤◌, ◌<◌, ◌≡◌, refl, ap, ◌∙◌, arith, ◌==◌,
  if◌then◌else◌,
}
use flatimage.Bytes.{to_bytes, from_bytes}

unfoldable pub bit : ℕ → ℕ → ℕ
bit zero x = x % 2
bit (suc k) x = bit k (x / 2)

pub bit-lt : (k x : ℕ) → bit k x < 2
unfolding bit
bit-lt zero x = omega arith
bit-lt (suc k) x = bit-lt k (x / 2)

-- The native operations stand for `digits z f`, a recursion on a count of digits to go, which has
-- one step for every operation `f` on digits.
module _ (z : ℕ → ℕ) (f : ℕ → ℕ → ℕ) where
  enough : (m n a b : ℕ) → a ≤ m → a ≤ n → digits z f m a b ≡ digits z f n a b
  enough zero n (suc a) b p q = elim p [ ]
  enough (suc m) zero (suc a) b p q = elim q [ ]
  enough zero zero zero b p q = refl
  enough zero (suc n) zero b p q = refl
  enough (suc m) zero zero b p q = refl
  enough (suc m) (suc n) zero b p q = refl
  enough (suc m) (suc n) (suc a) b p q =
      ap (λ t. t * 2 + f (suc a % 2) (b % 2))
        (enough m n (suc a / 2) (b / 2) (omega arith) (omega arith))

  digits_step :
      (a b : ℕ)
      → z b ≡ z (b / 2) * 2 + f 0 (b % 2)
      → digits z f a a b ≡ digits z f (a / 2) (a / 2) (b / 2) * 2 + f (a % 2) (b % 2)
  digits_step zero b e = e
  digits_step (suc a) b e =
      ap (λ t. t * 2 + f (suc a % 2) (b % 2))
        (enough a (suc a / 2) (suc a / 2) (b / 2) (omega arith) (omega arith))

bit_and_step : (a b : ℕ) → bit_and a b ≡ bit_and (a / 2) (b / 2) * 2 + min (a % 2) (b % 2)
bit_and_step a b = omega (
  arith,
  bit_and-bitwise a b,
  bit_and-bitwise (a / 2) (b / 2),
  digits_step (λ b. zero) min a b (omega arith),
)

bit_or_step : (a b : ℕ) → bit_or a b ≡ bit_or (a / 2) (b / 2) * 2 + max (a % 2) (b % 2)
bit_or_step a b = omega (
  arith,
  bit_or-bitwise a b,
  bit_or-bitwise (a / 2) (b / 2),
  digits_step (λ b. b) max a b (omega arith),
)

bit_and-zero : (n a : ℕ) → a ≤ n → bit_and a 0 ≡ 0
bit_and-zero zero a h =
    omega (arith, bit_and-bitwise a 0, ap (λ t. bit_and t 0) (let e : a ≡ 0 = omega arith in e))
bit_and-zero (suc n) a h = omega (arith, bit_and_step a 0, bit_and-zero n (a / 2) (omega arith))

-- The k-th bit of a union and of an intersection.
bit-bit_or : (k a b : ℕ) → bit k (bit_or a b) ≡ max (bit k a) (bit k b)
unfolding bit
bit-bit_or zero a b = omega (arith, bit_or_step a b)
bit-bit_or (suc k) a b =
    ap (bit k)
      (let e : bit_or a b / 2 ≡ bit_or (a / 2) (b / 2) = omega (arith, bit_or_step a b) in e)
    ∙ bit-bit_or k (a / 2) (b / 2)

bit-bit_and : (k a b : ℕ) → bit k (bit_and a b) ≡ min (bit k a) (bit k b)
unfolding bit
bit-bit_and zero a b = omega (arith, bit_and_step a b)
bit-bit_and (suc k) a b =
    ap (bit k)
      (let e : bit_and a b / 2 ≡ bit_and (a / 2) (b / 2) = omega (arith, bit_and_step a b) in e)
    ∙ bit-bit_and k (a / 2) (b / 2)

pub bit-zero : (k : ℕ) → bit k 0 ≡ 0
unfolding bit
bit-zero zero = refl
bit-zero (suc k) = bit-zero k

-- The mask `Bits{1} << i` has bit i alone.
bit-pow : (k i : ℕ) → bit k (2 ^ i) ≡ (if k == i then 1 else 0)
unfolding bit
bit-pow zero zero = refl
bit-pow zero (suc i) = ground (arith, pow-suc 2 i)
bit-pow (suc k) zero = ground (arith, bit-zero k)
bit-pow (suc k) (suc i) =
    ap (bit k) (let e : 2 ^ suc i / 2 ≡ 2 ^ i = omega (arith, pow-suc 2 i) in e)
    ∙ ground (arith, bit-pow k i)

pub pow_pos : (n : ℕ) → 0 < 2 ^ n
pow_pos zero = omega arith
pow_pos (suc n) = omega (arith, pow-suc 2 n, pow_pos n)

-- The mask `~x` of a w-bit word has the other bits.
bit-complement : (w k x : ℕ) → k < w → x < 2 ^ w → bit k (2 ^ w - 1 - x) ≡ 1 - bit k x
unfolding bit
bit-complement zero k x h p = elim h [ ]
bit-complement (suc w) zero x h p = omega (arith, pow-suc 2 w, pow_pos w)
bit-complement (suc w) (suc k) x h p =
    ap (bit k) (
      let e : (2 ^ suc w - 1 - x) / 2 ≡ 2 ^ w - 1 - x / 2 = omega (arith, pow-suc 2 w, pow_pos w) in
      e)
    ∙ bit-complement w k (x / 2) (omega arith) (omega (arith, pow-suc 2 w))

pow-lt : (i w : ℕ) → i < w → 2 ^ i < 2 ^ w
pow-lt i zero h = elim h [ ]
pow-lt zero (suc w) h = omega (arith, pow-suc 2 w, pow_pos w)
pow-lt (suc i) (suc w) h = omega (arith, pow-suc 2 w, pow-suc 2 i, pow-lt i w (omega arith))

-- bits |= mask
pub bit_set_on : (k i x : ℕ) → bit k (bit_or x (2 ^ i)) ≡ (if k == i then 1 else bit k x)
bit_set_on k i x = ground (arith, bit-bit_or k x (2 ^ i), bit-pow k i, bit-lt k x)

-- bits &= ~mask
pub bit_set_off :
    (w k i x : ℕ)
    → k < w
    → i < w
    → bit k (bit_and x (2 ^ w - 1 - 2 ^ i)) ≡ (if k == i then 0 else bit k x)
bit_set_off w k i x h g = ground (
  arith,
  bit-bit_and k x (2 ^ w - 1 - 2 ^ i),
  bit-complement w k (2 ^ i) h (pow-lt i w g),
  bit-pow k i,
  bit-lt k x,
)

-- bits & mask
pub bit_and-pow : (i x : ℕ) → bit_and x (2 ^ i) ≡ bit i x * 2 ^ i
unfolding bit
bit_and-pow zero x = omega (arith, bit_and_step x 1, bit_and-zero (x / 2) (x / 2) (omega arith))
bit_and-pow (suc i) x =
    bit_and_step x (2 ^ suc i)
    ∙ ap (λ t. bit_and (x / 2) t * 2 + min (x % 2) (2 ^ suc i % 2)) halved
    ∙ omega (arith, pow-suc 2 i, bit_and-pow i (x / 2), doubled)
  where
    halved : 2 ^ suc i / 2 ≡ 2 ^ i
    halved = omega (arith, pow-suc 2 i)

    doubled : bit i (x / 2) * 2 ^ suc i ≡ bit i (x / 2) * 2 ^ i * 2
    doubled = omega (arith, ap (λ t. bit i (x / 2) * t) (pow-suc 2 i))

-- A word survives the trip through its bytes.
pub bit-from_bytes : (s k x : ℕ) → k < 8 * s → bit k (from_bytes (to_bytes s x)) ≡ bit k x
unfolding bit to_bytes from_bytes
bit-from_bytes zero k x h = absurd (omega arith)
bit-from_bytes (suc s) zero x h = omega arith
bit-from_bytes (suc s) (suc zero) x h = omega arith
bit-from_bytes (suc s) (suc (suc zero)) x h = omega arith
bit-from_bytes (suc s) (suc (suc (suc zero))) x h = omega arith
bit-from_bytes (suc s) (suc (suc (suc (suc zero)))) x h = omega arith
bit-from_bytes (suc s) (suc (suc (suc (suc (suc zero))))) x h = omega arith
bit-from_bytes (suc s) (suc (suc (suc (suc (suc (suc zero)))))) x h = omega arith
bit-from_bytes (suc s) (suc (suc (suc (suc (suc (suc (suc zero))))))) x h = omega arith
bit-from_bytes (suc s) (suc (suc (suc (suc (suc (suc (suc (suc k)))))))) x h =
    ap (bit k) whole ∙ bit-from_bytes s k (x / 256) (omega arith) ∙ ap (bit k) (omega arith)
  where
    whole :
        (x % 256 + 256 * from_bytes (to_bytes s (x / 256))) / 2 / 2 / 2 / 2 / 2 / 2 / 2 / 2
        ≡ from_bytes (to_bytes s (x / 256))
    whole = omega arith
