-- ===== src/Base/Sets.antt =====
-- std::set, as the list of its members in their order.
use mathlib.Core.Path.{◌≡◌, refl, ap, sym, ◌∙◌, subst}
use mathlib.Core.Bool.{Bool, true, false}
use mathlib.Core.List.{List, [], ◌∷◌, ◌++◌, append_assoc, append-nil}
use flatimage.Base.Tests.{if◌then◌else◌}

module _ {ℓ} {A : Type ℓ} (less : A → A → Bool) where
  -- insert: a member that is there stays.
  unfoldable pub insert : A → List A → List A
  insert x [] = x ∷ []
  insert x (y ∷ ys) =
      let further = insert x ys in
      if less x y then x ∷ y ∷ ys else if less y x then y ∷ further else y ∷ ys

  -- Members inserted one after the other.
  unfoldable pub insert_all : List A → List A → List A
  insert_all set [] = set
  insert_all set (x ∷ xs) = insert_all (insert x set) xs

  abbrev pub AllLess : List A → A → Type 0
  AllLess [] x = Unit
  AllLess (y ∷ ys) x = (less y x ≡ true) × AllLess ys x

  abbrev pub AllAbove : A → List A → Type 0
  AllAbove x [] = Unit
  AllAbove x (y ∷ ys) = (less x y ≡ true) × AllAbove x ys

  abbrev pub IsIncreasing : List A → Type 0
  IsIncreasing [] = Unit
  IsIncreasing (x ∷ xs) = AllAbove x xs × IsIncreasing xs

  module _ (asymmetric : (x y : A) → less x y ≡ true → less y x ≡ false) where
    insert_last : (x : A) (set : List A) → AllLess set x → insert x set ≡ set ++ x ∷ []
    unfolding insert
    insert_last x [] h = refl
    insert_last x (y ∷ ys) h = rw (asymmetric y x h.0, h.0) (ap (λ t. y ∷ t) (insert_last x ys h.1))

    below : (x : A) (set xs : List A) → IsIncreasing (set ++ x ∷ xs) → AllLess set x
    below x [] xs h = tt
    below x (y ∷ ys) xs h = (above_head y ys h.0, below x ys xs h.1)
      where
        above_head : (y : A) (ys : List A) → AllAbove y (ys ++ x ∷ xs) → less y x ≡ true
        above_head y [] a = a.0
        above_head y (z ∷ zs) a = above_head y zs a.1

    pub insert_all-append :
        (set xs : List A) → IsIncreasing (set ++ xs) → insert_all set xs ≡ set ++ xs
    unfolding insert_all
    insert_all-append set [] h = sym (append-nil set)
    insert_all-append set (x ∷ xs) h =
        let shifted : (set ++ x ∷ []) ++ xs ≡ set ++ x ∷ xs = append_assoc set (x ∷ []) xs in
        ap (λ s. insert_all s xs) (insert_last x set (below x set xs h))
        ∙ insert_all-append (set ++ x ∷ []) xs (subst IsIncreasing (sym shifted) h)
        ∙ shifted
