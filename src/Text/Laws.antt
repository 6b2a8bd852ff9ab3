-- ===== src/Text/Laws.antt =====
-- Equality of texts, and the case that the enumerations ignore.
use flatimage.Base.{ℕ, ◌≡◌, refl, ◌↔◌, true, false, List, [], ◌∷◌, map, arith}
use flatimage.Text.{Text, less, text_eq, to_upper, to_lower, enum_from_string}

pub text_eq_iff : (s t : Text) → (text_eq s t ≡ true) ↔ (s ≡ t)
unfolding text_eq
text_eq_iff [] [] = ((λ h. refl), (λ h. refl))
text_eq_iff [] (y ∷ t) = ((λ h. cc), (λ h. cc))
text_eq_iff (x ∷ s) [] = ((λ h. cc), (λ h. cc))
text_eq_iff (x ∷ s) (y ∷ t) = ground (arith, text_eq_iff s t)

pub text_eq_refl : (s : Text) → text_eq s s ≡ true
text_eq_refl s = (text_eq_iff s s).1 refl

to_upper-to_lower : (c : ℕ) → to_upper (to_lower c) ≡ to_upper c
unfolding to_upper to_lower
to_upper-to_lower c = ground arith

map-to_upper-to_lower : (s : Text) → map to_upper (map to_lower s) ≡ map to_upper s
map-to_upper-to_lower [] = refl
map-to_upper-to_lower (c ∷ s) = cc (to_upper-to_lower c, map-to_upper-to_lower s)

-- The names of enumerators are read without regard to case.
pub enum_from_string-to_lower {ℓ} :
    {A : Type ℓ} (entries : List (A × Text)) (s : Text)
    → enum_from_string entries (map to_lower s) ≡ enum_from_string entries s
unfolding enum_from_string
enum_from_string-to_lower entries s = rw (map-to_upper-to_lower s)

pub less_asymmetric : (s t : Text) → less s t ≡ true → less t s ≡ false
unfolding less
less_asymmetric [] [] h = refl
less_asymmetric (x ∷ s) [] h = cc h
less_asymmetric [] (y ∷ t) h = refl
less_asymmetric (x ∷ s) (y ∷ t) h = ground (arith, less_asymmetric s t, h)

pub text_eq_comm : (s t : Text) → text_eq s t ≡ text_eq t s
unfolding text_eq
text_eq_comm [] [] = refl
text_eq_comm [] (y ∷ t) = refl
text_eq_comm (x ∷ s) [] = refl
text_eq_comm (x ∷ s) (y ∷ t) = ground (arith, text_eq_comm s t)
