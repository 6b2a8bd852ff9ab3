-- ===== src/Base/Expected.antt =====
-- src/std/expected.hpp: `Value<T>`, and `Pop`, which returns the error of a failed step. An error
-- carries the format text of its message, without the level prefix and with its placeholders unfilled.
use Prim.Native.String.{String}
use mathlib.Core.Bool.{Bool, true, false}

pub data Value {ℓ} (A : Type ℓ) : Type ℓ where
  ok : A → Value A
  err : String → Value A

module _ {ℓ κ} {A : Type ℓ} {B : Type κ} where
  infixl 5 ◌>>=◌
  -- Pop(m)
  abbrev pub ◌>>=◌ : Value A → (A → Value B) → Value B
  err message >>= next = err message
  ok value >>= next = next value

infixl 5 ◌>>◌
abbrev pub ◌>>◌ {ℓ} : {B : Type ℓ} → Value (Unit {0}) → Value B → Value B
done >> next = done >>= λ _. next

module _ {ℓ} {A : Type ℓ} where
  abbrev pub value_or : Value A → A → A
  value_or (ok a) d = a
  value_or (err e) d = d

  -- Pop(m, msg)
  abbrev pub relabel : Value A → String → Value A
  relabel (ok a) msg = ok a
  relabel (err e) msg = err msg

-- return_if(not b, Error(e))
abbrev pub guard : Bool → String → Value (Unit {0})
guard false message = err message
guard true message = ok tt
