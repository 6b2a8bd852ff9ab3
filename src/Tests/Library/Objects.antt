-- ===== src/Tests/Library/Objects.antt =====
-- The fields of an object: the member that was put last stands first, and counts.
use flatimage.Base.{
  ◌≡◌, ◌≢◌, refl, sym, subst, ◌∙◌, Bool, true, false, ◌||◌, Bool-cases, inl, inr, if◌then◌else◌,
  Option, none, some, List, [], ◌∷◌, Each, any,
}
use mathlib.Core.List.{Mem, mem-cons_self, mem-cons_of_mem}
use mathlib.Core.Option.{some-injective, none-ne-some}
use mathlib.Core.Bool.{false≢true}
use flatimage.Text.{Text, text_eq}
use flatimage.Text.Laws.{text_eq_iff, text_eq_refl}
use flatimage.Tests.Library.{Doc, Members, end, member}

unfoldable pub find : Text → Members → Option Doc
find key end = none
find key (member k v ms) = let rest = find key ms in if text_eq k key then some v else rest

unfoldable pub remove : Text → Members → Members
remove key end = end
remove key (member k v ms) =
    let rest = remove key ms in if text_eq k key then rest else member k v rest

found :
    (k key : Text) (v : Doc) (ms : Members)
    → text_eq k key ≡ true
    → find key (member k v ms) ≡ some v
unfolding find
found k key v ms same = rw same refl

missed :
    (k key : Text) (v : Doc) (ms : Members)
    → text_eq k key ≡ false
    → find key (member k v ms) ≡ find key ms
unfolding find
missed k key v ms other = rw other refl

seen_in : List Text → Text → Bool
seen_in seen key = any (λ k. text_eq k key) seen

-- The members whose keys were not seen, each key once.
unseen : List Text → Members → List (Text × Doc)
unfolding seen_in
unseen seen end = []
unseen seen (member k v ms) =
    let rest = unseen (k ∷ seen) ms in
    let skip = unseen seen ms in if seen_in seen k then skip else (k, v) ∷ rest

unfoldable pub fields : Members → List (Text × Doc)
unfolding unseen
fields = unseen []

pub find_here : (k : Text) (v : Doc) (ms : Members) → find k (member k v ms) ≡ some v
unfolding find
find_here k v ms = rw (text_eq_refl k) refl

pub find_other :
    (k key : Text) (v : Doc) (ms : Members) → k ≢ key → find key (member k v ms) ≡ find key ms
unfolding find
find_other k key v ms h = elim (Bool-cases (text_eq k key)) [
  | inl same ↦ absurd (h ((text_eq_iff k key).0 same))
  | inr other ↦ rw other refl
]

pub find-remove : (key : Text) (ms : Members) → find key (remove key ms) ≡ none
unfolding find remove
find-remove key end = refl
find-remove key (member k v ms) = elim (Bool-cases (text_eq k key)) [
  | inl same ↦ rw same (find-remove key ms)
  | inr other ↦ rw (other, other) (find-remove key ms)
]

pub find-remove_ne : (k key : Text) (ms : Members) → k ≢ key → find key (remove k ms) ≡ find key ms
unfolding find remove
find-remove_ne k key end h = refl
find-remove_ne k key (member l v ms) h = elim (Bool-cases (text_eq l k)) [
  | inl same ↦
      let other : text_eq l key ≡ false =
        different l key (λ e. h (sym ((text_eq_iff l k).0 same) ∙ e)) in
      rw (same, other) (find-remove_ne k key ms h)
  | inr kept ↦ elim (Bool-cases (text_eq l key)) [
    | inl here ↦ rw (kept, here) refl
    | inr further ↦ rw (kept, further) (find-remove_ne k key ms h)
  ]
]
  where
    different : (l key : Text) → l ≢ key → text_eq l key ≡ false
    different l key h = elim (Bool-cases (text_eq l key)) [
      | inl same ↦ absurd (h ((text_eq_iff l key).0 same))
      | inr other ↦ other
    ]

-- A key that was not seen is not one that was.
unseen_key :
    (seen : List Text) (k key : Text)
    → seen_in seen k ≡ true
    → seen_in seen key ≡ false
    → text_eq k key ≡ false
unfolding seen_in
unseen_key seen k key h g = elim (Bool-cases (text_eq k key)) [
  | inl same ↦ cc (h, g, (text_eq_iff k key).0 same)
  | inr other ↦ other
]

abbrev IsField : List Text → Members → Text × Doc → Type 0
IsField seen ms field = (find field.0 ms ≡ some field.1) × (seen_in seen field.0 ≡ false)

or_false : (a b : Bool) → (a || b) ≡ false → (a ≡ false) × (b ≡ false)
or_false true b h = absurd (false≢true (sym h))
or_false false b h = (refl, h)

-- Behind a member, for fields whose keys are others.
behind :
    (seen : List Text) (k : Text) (v : Doc) (ms : Members) (fs : List (Text × Doc))
    → Each (IsField (k ∷ seen) ms) fs
    → Each (IsField seen (member k v ms)) fs
unfolding find seen_in
behind seen k v ms [] h = tt
behind seen k v ms ((key, d) ∷ fs) h =
    let (other, rest) = or_false (text_eq k key) (seen_in seen key) h.0.1 in
    ((rw other h.0.0, rest), behind seen k v ms fs h.1)

-- Behind a member that is skipped.
behind_seen :
    (seen : List Text) (k : Text) (v : Doc) (ms : Members) (fs : List (Text × Doc))
    → seen_in seen k ≡ true
    → Each (IsField seen ms) fs
    → Each (IsField seen (member k v ms)) fs
unfolding find
behind_seen seen k v ms [] s h = tt
behind_seen seen k v ms ((key, d) ∷ fs) s h =
    let other = unseen_key seen k key s h.0.1 in
    ((rw other h.0.0, h.0.1), behind_seen seen k v ms fs s h.1)

unseen-IsField : (seen : List Text) (ms : Members) → Each (IsField seen ms) (unseen seen ms)
unfolding unseen
unseen-IsField seen end = tt
unseen-IsField seen (member k v ms) = elim (Bool-cases (seen_in seen k)) [
  | inl s ↦ rw s (behind_seen seen k v ms (unseen seen ms) s (unseen-IsField seen ms))
  | inr s ↦ rw s (
    (find_here k v ms, s),
    behind seen k v ms (unseen (k ∷ seen) ms) (unseen-IsField (k ∷ seen) ms),
  )
]

weaken :
    (seen : List Text) (ms : Members) (fs : List (Text × Doc))
    → Each (IsField seen ms) fs
    → Each (λ field. find field.0 ms ≡ some field.1) fs
weaken seen ms [] h = tt
weaken seen ms (f ∷ fs) h = (h.0.0, weaken seen ms fs h.1)

pub fields-find : (ms : Members) → Each (λ field. find field.0 ms ≡ some field.1) (fields ms)
unfolding fields
fields-find ms = weaken [] ms (unseen [] ms) (unseen-IsField [] ms)

mem-unseen :
    (seen : List Text) (ms : Members) (key : Text) (d : Doc)
    → find key ms ≡ some d
    → seen_in seen key ≡ false
    → Mem (key, d) (unseen seen ms)
unfolding find unseen seen_in
mem-unseen seen end key d h s = absurd (none-ne-some d h)
mem-unseen seen (member k v ms) key d h s = elim (Bool-cases (seen_in seen k)) [
  | inl old ↦
      let other = unseen_key seen k key old s in rw old (mem-unseen seen ms key d (further other) s)
  | inr new ↦ elim (Bool-cases (text_eq k key)) [
    | inl same ↦
        let e : d ≡ v = some-injective d v (sym h ∙ here same) in
        rw new (
          subst (λ f. Mem f ((k, v) ∷ unseen (k ∷ seen) ms))
            (λ i. ((text_eq_iff k key).0 same i, sym e i)) mem-cons_self)
    | inr other ↦
        rw new
          (mem-cons_of_mem (k, v) (mem-unseen (k ∷ seen) ms key d (further other) (rw other s)))
  ]
]
  where
    further : text_eq k key ≡ false → find key ms ≡ some d
    further other = sym (missed k key v ms other) ∙ h

    here : text_eq k key ≡ true → find key (member k v ms) ≡ some v
    here same = found k key v ms same

pub mem-fields :
    (ms : Members) (key : Text) (d : Doc) → find key ms ≡ some d → Mem (key, d) (fields ms)
unfolding fields seen_in
mem-fields ms key d h = mem-unseen [] ms key d h refl
