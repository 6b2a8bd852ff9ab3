-- ===== src/Text/Joined.antt =====
-- Lists of words in one text, with commas between them, and numbers in decimal digits.
use flatimage.Base.{
  ℕ, ◌<◌, ◌≡◌, refl, ap, sym, ◌∙◌, List, [], ◌∷◌, ◌++◌, append_assoc, append-nil, ◌==◌, false,
  length,
}
use flatimage.Text.{Text, from_string, split, getline_loop, split_loop}

-- A word is not empty, and has no comma.
abbrev pub NoComma : Text → Type 0
NoComma [] = Unit
NoComma (c ∷ s) = ((c == b',') ≡ false) × NoComma s

abbrev pub IsWord : Text → Type 0
IsWord w = (0 < length w) × NoComma w

abbrev pub AllWords : List Text → Type 0
AllWords [] = Unit
AllWords (w ∷ ws) = IsWord w × AllWords ws

abbrev pub join : List Text → Text
join [] = []
join (w ∷ []) = w
join (w ∷ v ∷ vs) = w ++ (b',' ∷ join (v ∷ vs))

getline_word :
    (token w s : Text)
    → NoComma w
    → getline_loop b',' token (w ++ s) ≡ getline_loop b',' (token ++ w) s
unfolding getline_loop
getline_word token [] s h = rw append-nil
getline_word token (c ∷ w) s h =
    rw (getline_loop, h.0) (getline_word (token ++ c ∷ []) w s h.1)
    ∙ ap (λ t. getline_loop b',' t s) (append_assoc token (c ∷ []) w)

split_word :
    (token w s : Text) → NoComma w → split_loop b',' token (w ++ s) ≡ split_loop b',' (token ++ w) s
unfolding split_loop
split_word token [] s h = rw append-nil
split_word token (c ∷ w) s h =
    rw (split_loop, h.0) (split_word (token ++ c ∷ []) w s h.1)
    ∙ ap (λ t. split_loop b',' t s) (append_assoc token (c ∷ []) w)

getline_last : (w : Text) → 0 < length w → getline_loop b',' w [] ≡ w ∷ []
unfolding getline_loop
getline_last [] h = elim h [ ]
getline_last (c ∷ w) h = refl

getline_comma : (w s : Text) → getline_loop b',' w (b',' ∷ s) ≡ w ∷ getline_loop b',' [] s
unfolding getline_loop
getline_comma w s = refl

-- The words between commas are read back, by `std::getline` ...
pub from_string-join : (ws : List Text) → AllWords ws → from_string (join ws) b',' ≡ ws
unfolding from_string getline_loop
from_string-join [] h = refl
from_string-join (w ∷ []) h =
    ap (getline_loop b',' []) (sym (append-nil w))
    ∙ getline_word [] w [] h.0.1
    ∙ getline_last w h.0.0
from_string-join (w ∷ v ∷ vs) h =
    getline_word [] w (b',' ∷ join (v ∷ vs)) h.0.1
    ∙ getline_comma w (join (v ∷ vs))
    ∙ ap (λ t. w ∷ t) (from_string-join (v ∷ vs) h.1)

split_words :
    (w : Text) (ws : List Text) → AllWords (w ∷ ws) → split_loop b',' [] (join (w ∷ ws)) ≡ w ∷ ws
unfolding split_loop
split_words w [] h = ap (split_loop b',' []) (sym (append-nil w)) ∙ split_word [] w [] h.0.1
split_words w (v ∷ vs) h =
    split_word [] w (b',' ∷ join (v ∷ vs)) h.0.1 ∙ ap (λ t. w ∷ t) (split_words v vs h.1)

split_nonempty : (c : ℕ) (s : Text) → split (c ∷ s) b',' ≡ split_loop b',' [] (c ∷ s)
unfolding split
split_nonempty c s = refl

join_nonempty :
    (w : Text) (ws : List Text) → IsWord w → (c : ℕ) × (s : Text) × (join (w ∷ ws) ≡ c ∷ s)
join_nonempty [] ws h = elim h.0 [ ]
join_nonempty (c ∷ w) [] h = (c, w, refl)
join_nonempty (c ∷ w) (v ∷ vs) h = (c, w ++ (b',' ∷ join (v ∷ vs)), refl)

-- ... and by std::views::split.
pub split-join : (ws : List Text) → AllWords ws → split (join ws) b',' ≡ ws
unfolding split
split-join [] h = refl
split-join (w ∷ ws) h =
    let (c, s, e) = join_nonempty w ws h.0 in
    ap (λ t. split t b',') e
    ∙ split_nonempty c s
    ∙ ap (split_loop b',' []) (sym e)
    ∙ split_words w ws h
