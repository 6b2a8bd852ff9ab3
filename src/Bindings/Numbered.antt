-- ===== src/Bindings/Numbered.antt =====
-- The indices of bindings: they count the bindings from 0, and `add` and `erase` keep it so.
use flatimage.Base.{
  ℕ, zero, suc, ◌+◌, ◌%◌, ◌^◌, ◌≤◌, ◌<◌, ◌≡◌, refl, ap, sym, ◌∙◌, List, [], ◌∷◌, ◌++◌, length, take,
  drop, max, ◌==◌, arith, true, false,
}
use flatimage.Text.{Text}
use flatimage.Parser.Bind.{BindType}
use flatimage.Bindings.{Bind, erase_if_index, renumber, erase, highest, get_highest_index, add}

-- The bindings have the indices i, i + 1, ...
abbrev pub NumberedFrom : ℕ → List Bind → Type 0
NumberedFrom i [] = Unit
NumberedFrom i (bind ∷ binds) = (bind.index ≡ i) × NumberedFrom (suc i) binds

pub renumber-NumberedFrom : (i : ℕ) (binds : List Bind) → NumberedFrom i (renumber i binds)
unfolding renumber
renumber-NumberedFrom i [] = tt
renumber-NumberedFrom i (bind ∷ binds) = (refl, renumber-NumberedFrom (suc i) binds)

-- A list that is numbered already is renumbered to itself.
renumber-numbered : (i : ℕ) (binds : List Bind) → NumberedFrom i binds → renumber i binds ≡ binds
unfolding renumber
renumber-numbered i [] h = refl
renumber-numbered i (bind ∷ binds) h = λ j.
    record {
      index = sym h.0 j;
      path_src = bind.path_src;
      path_dst = bind.path_dst;
      type = bind.type;
    }
    ∷ renumber-numbered (suc i) binds h.1 j

erase_below :
    (i index : ℕ) (binds : List Bind)
    → NumberedFrom i binds
    → index < i
    → erase_if_index index binds ≡ binds
unfolding erase_if_index
erase_below i index [] h l = refl
erase_below i index (bind ∷ binds) h l =
    ground (arith, erase_below (suc i) index binds h.1 (omega arith), h.0)

erase_at :
    (i n : ℕ) (binds : List Bind)
    → NumberedFrom i binds
    → erase_if_index (i + n) binds ≡ take n binds ++ drop (suc n) binds
unfolding erase_if_index take drop
erase_at i zero [] h = refl
erase_at i (suc n) [] h = refl
erase_at i zero (bind ∷ binds) h =
    let here : (bind.index == i + 0) ≡ true = ground (arith, h.0) in
    rw here (erase_below (suc i) (i + 0) binds h.1 (omega arith))
erase_at i (suc n) (bind ∷ binds) h =
    let elsewhere : (bind.index == i + suc n) ≡ false = ground (arith, h.0) in
    rw elsewhere (
      ap (λ t. bind ∷ t)
        (ap (λ k. erase_if_index k binds) (let e : i + suc n ≡ suc i + n = omega arith in e)
          ∙ erase_at (suc i) n binds h.1))

-- On bindings that are numbered from 0, `erase` of an index removes the binding with this index and no
-- other (none where there is no such binding), keeps the order, and numbers the rest from 0 again.
pub erase_lem :
    (binds : List Bind) (index : ℕ)
    → NumberedFrom 0 binds
    → (erase binds index ≡ renumber 0 (take index binds ++ drop (suc index) binds))
      × NumberedFrom 0 (erase binds index)
unfolding erase
erase_lem binds index h = (
  ap (λ k. renumber 0 (erase_if_index k binds)) (let e : index ≡ 0 + index = omega arith in e)
      ∙ ap (renumber 0) (erase_at 0 index binds h),
  renumber-NumberedFrom 0 (erase_if_index index binds),
)

take-drop_beyond : (n : ℕ) (bs : List Bind) → length bs ≤ n → take n bs ++ drop (suc n) bs ≡ bs
unfolding take drop
take-drop_beyond zero [] l = refl
take-drop_beyond zero (b ∷ bs) l = absurd (omega arith)
take-drop_beyond (suc n) [] l = refl
take-drop_beyond (suc n) (b ∷ bs) l = ap (λ t. b ∷ t) (take-drop_beyond n bs (omega arith))

-- On bindings that are numbered from 0, `erase` of an index that no binding has changes nothing.
pub erase_beyond :
    (binds : List Bind) (index : ℕ)
    → NumberedFrom 0 binds
    → length binds ≤ index
    → erase binds index ≡ binds
erase_beyond binds index h absent =
    (erase_lem binds index h).0
    ∙ ap (renumber 0) (take-drop_beyond index binds absent)
    ∙ renumber-numbered 0 binds h

highest-numbered :
    (m : ℕ) (binds : List Bind) → NumberedFrom (suc m) binds → highest m binds ≡ m + length binds
unfolding highest
highest-numbered m [] h = omega arith
highest-numbered m (bind ∷ binds) h =
    ap (λ k. highest k binds) (let e : max m bind.index ≡ suc m = omega (arith, h.0) in e)
    ∙ highest-numbered (suc m) binds h.1
    ∙ omega arith

next_index :
    (binds : List Bind)
    → NumberedFrom 0 binds
    → length binds < 2 ^ 64
    → (get_highest_index binds + 1) % 2 ^ 64 ≡ length binds
unfolding get_highest_index
next_index [] h l = omega arith
next_index (bind ∷ binds) h l =
    ap (λ k. (highest k binds + 1) % 2 ^ 64) h.0 ∙ omega (arith, highest-numbered 0 binds h.1)

numbered-append :
    (i : ℕ) (binds : List Bind) (bind : Bind)
    → NumberedFrom i binds
    → bind.index ≡ i + length binds
    → NumberedFrom i (binds ++ bind ∷ [])
numbered-append i [] bind h e = (omega (arith, e), tt)
numbered-append i (b ∷ binds) bind h e =
    (h.0, numbered-append (suc i) binds bind h.1 (omega (arith, e)))

-- On bindings that are numbered from 0 (fewer than 2^64), `add` puts the binding behind them with the
-- next index, the first binding with 0, and the bindings are numbered from 0 again.
pub add-NumberedFrom :
    (binds : List Bind) (type : BindType) (src dst : Text)
    → NumberedFrom 0 binds
    → length binds < 2 ^ 64
    → (add binds type src dst
        ≡ binds
          ++ record { index = length binds; path_src = src; path_dst = dst; type = type } ∷ [])
      × NumberedFrom 0 (add binds type src dst)
unfolding add
add-NumberedFrom binds type src dst h l =
    let next = next_index binds h l in
    (
      ap (λ k. binds ++ record { index = k; path_src = src; path_dst = dst; type = type } ∷ [])
          next,
      numbered-append 0 binds _ h (omega (arith, next)),
    )
