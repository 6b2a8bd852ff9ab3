-- ===== src/Base/Io.antt =====
-- A step on the image file: it returns a value or an error, and the file as it leaves it. What was
-- written before an error stays written.
use mathlib.Core.Option.{Option}
use mathlib.Core.List.{List}
use Prim.Native.Nat.{ℕ}
use Prim.Native.String.{String}
use flatimage.Base.Expected.{Value, ok, err}

-- `none` is a file that does not open.
abbrev pub File : Type 0
File = Option (List ℕ)

abbrev pub Io {ℓ} : Type ℓ → Type ℓ
Io A = File → Value A × File

module _ {ℓ} {A : Type ℓ} where
  abbrev pub pure : A → Io A
  pure a f = (ok a, f)

  abbrev pub fail : String → Io A
  fail e f = (err e, f)

  -- A step that only looks at the file.
  abbrev pub reads : (File → Value A) → Io A
  reads r f = (r f, f)

module _ {ℓ κ} {A : Type ℓ} {B : Type κ} where
  abbrev pub continue : Value A × File → (A → Io B) → Value B × File
  continue (ok a, f) k = k a f
  continue (err e, f) k = (err e, f)

  infixl 5 ◌>>=◌
  abbrev pub ◌>>=◌ : Io A → (A → Io B) → Io B
  ◌>>=◌ m k f = continue (m f) k

  -- The same, for a file that has the `>>=` of `Value` in scope.
  abbrev pub and_then : Io A → (A → Io B) → Io B
  and_then m k f = continue (m f) k

infixl 5 ◌>>◌
abbrev pub ◌>>◌ {ℓ} : {B : Type ℓ} → Io (Unit {0}) → Io B → Io B
step >> next = step >>= λ _. next
