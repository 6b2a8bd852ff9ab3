-- ===== src/Parser/Args.antt =====
-- VecArgs of src/parser/parser.hpp, and what the cases of `parse` share. A case of the switch is a step
-- on the arguments that are left: it returns an error, or a value and the arguments behind it.
use flatimage.Base.{
  ℕ, ◌+◌, ◌-◌, ◌*◌, ltb, String, List, [], ◌∷◌, if◌then◌else◌, Value, ok, err, relabel,
}
use flatimage.Base.Expected
use flatimage.Text.{Text, enum_from_string}

abbrev pub Args {ℓ} : Type ℓ → Type ℓ
Args A = List Text → Value (A × List Text)

module _ {ℓ κ} {A : Type ℓ} {B : Type κ} where
  abbrev pub proceed : Value (A × List Text) → (A → Args B) → Value (B × List Text)
  proceed (ok (a, args)) k = k a args
  proceed (err e) k = err e

  infixl 5 ◌>>=◌
  abbrev pub ◌>>=◌ : Args A → (A → Args B) → Args B
  ◌>>=◌ m k args = proceed (m args) k

infixl 5 ◌>>◌
abbrev pub ◌>>◌ {ℓ} : {B : Type ℓ} → Args (Unit {0}) → Args B → Args B
step >> next = step >>= λ _. next

module _ {ℓ} {A : Type ℓ} where
  abbrev pub pure : A → Args A
  pure a args = ok (a, args)

  abbrev pub fail : String → Args A
  fail e args = err e

  -- Pop of a value that does not look at the arguments
  abbrev pub popped : Value A → Args A
  popped (ok a) args = ok (a, args)
  popped (err e) args = err e

  -- Pop(f(), msg) of a step
  abbrev pub relabelled : Args A → String → Args A
  relabelled m msg args = relabel (m args) msg

-- VecArgs::pop_front
abbrev pub pop_front : String → Args Text
pop_front e [] = err e
pop_front e (item ∷ args) = ok (item, args)

-- VecArgs::data
abbrev pub data_of : Args (List Text)
data_of args = ok (args, args)

-- VecArgs::clear
abbrev pub clear_all : Args (Unit {0})
clear_all args = ok (tt, [])

-- return_if(args.empty(), Error(e))
abbrev pub some_left : String → Args (Unit {0})
some_left e [] = err e
some_left e (item ∷ args) = ok (tt, item ∷ args)

-- return_if(not args.empty(), Error(e))
abbrev pub none_left : String → Args (Unit {0})
none_left e [] = ok (tt, [])
none_left e (item ∷ args) = err e

module _ {ℓ} {A : Type ℓ} where
  -- Pop(E::from_string(Pop(args.pop_front<missing>())), invalid)
  abbrev pub pop_enum : List (A × Text) → String → String → Args A
  pop_enum entries missing invalid =
      pop_front missing >>= λ word. popped (relabel (enum_from_string entries word) invalid)

  -- std::set::insert, in the order of the enumeration
  unfoldable pub insert : (A → ℕ) → A → List A → List A
  insert ordinal a [] = a ∷ []
  insert ordinal a (b ∷ bs) =
      let rest = insert ordinal a bs in
      if ltb (ordinal a) (ordinal b)
      then a ∷ b ∷ bs
      else if ltb (ordinal b) (ordinal a)
      then b ∷ rest
      else b ∷ bs

  -- The loops that fill a set with the enumerators that the words name.
  unfoldable pub insert_each :
      (A → ℕ) → List (A × Text) → String → List A → List Text → Value (List A)
  insert_each ordinal entries invalid found [] = ok found
  insert_each ordinal entries invalid found (word ∷ words) =
      Expected.◌>>=◌ (relabel (enum_from_string entries word) invalid)
        λ a. insert_each ordinal entries invalid (insert ordinal a found) words

unfoldable pub to_number : ℕ → Text → ℕ
to_number n [] = n
to_number n (c ∷ s) = to_number (n * 10 + (c - b'0')) s

-- std::stoull and std::stoi on a text of digits, as Try sees them: an error where they throw, on an
-- empty text and on a number that is not below the bound of the type.
unfoldable pub stou : ℕ → Text → String → Value ℕ
stou bound [] e = err e
stou bound (c ∷ s) e = let n = to_number 0 (c ∷ s) in if ltb n bound then ok n else err e
