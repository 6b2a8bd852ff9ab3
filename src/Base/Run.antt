-- ===== src/Base/Run.antt =====
-- A computation on a state: it returns a value or an error with the state as it leaves it, and `none`
-- where the code reads outside a buffer, an exception that nothing catches ends the program, or fuel
-- runs out.
use mathlib.Core.Option.{Option, none, some}
use Prim.Native.String.{String}
use flatimage.Base.Expected.{Value, ok, err, relabel}
use flatimage.Base.Io.{File, Io}

abbrev pub Run {ℓ κ} : Type ℓ → Type κ → Type (ℓ ⊔ κ)
Run S A = S → Option (Value A × S)

module _ {ℓ κ} {S : Type ℓ} {A : Type κ} where
  abbrev pub pure : A → Run S A
  pure a s = some (ok a, s)

  abbrev pub fail : String → Run S A
  fail e s = some (err e, s)

  abbrev pub crash : Run S A
  crash s = none

  -- A value that is computed beside the state.
  abbrev pub lift : Value A → Run S A
  lift v s = some (v, s)

  -- A step that only looks at the state, and may read outside of it.
  abbrev pub looked : S → Option (Value A) → Option (Value A × S)
  looked s none = none
  looked s (some v) = some (v, s)

  abbrev pub looks : (S → Option (Value A)) → Run S A
  looks look s = looked s (look s)

  -- Pop(m, msg)
  abbrev pub relabelled : Run S A → String → Run S A
  relabelled step message s = relabelled_outcome (step s)
    where
      relabelled_outcome : Option (Value A × S) → Option (Value A × S)
      relabelled_outcome none = none
      relabelled_outcome (some (v, s)) = some (relabel v message, s)

  -- The outcome without the state.
  abbrev pub outcome : Option (Value A × S) → Option (Value A)
  outcome none = none
  outcome (some (v, s)) = some v

module _ {ℓ κ} {A : Type ℓ} {B : Type κ} where
  -- Pop of an outcome, in a function that has no state.
  abbrev pub pop : Option (Value A) → (A → Option (Value B)) → Option (Value B)
  pop none next = none
  pop (some (err e)) next = some (err e)
  pop (some (ok a)) next = next a

-- A step of the reserved space.
abbrev pub does {ℓ} : {A : Type ℓ} → Io A → Run File A
does step f = some (step f)

module _ {ℓ κ μ} {S : Type ℓ} {A : Type κ} {B : Type μ} where
  abbrev pub resume : Option (Value A × S) → (A → Run S B) → Option (Value B × S)
  resume none next = none
  resume (some (ok a, s)) next = next a s
  resume (some (err e, s)) next = some (err e, s)

  infixl 5 ◌>>=◌
  abbrev pub ◌>>=◌ : Run S A → (A → Run S B) → Run S B
  ◌>>=◌ step next s = resume (step s) next

module _ {ℓ κ} {S : Type ℓ} {B : Type κ} where
  infixl 5 ◌>>◌
  abbrev pub ◌>>◌ : Run S (Unit {0}) → Run S B → Run S B
  step >> next = step >>= λ _. next
