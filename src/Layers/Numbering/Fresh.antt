-- ===== src/Layers/Numbering/Fresh.antt =====
-- The number that find_next_layer_number returns is that of no layer in the directory.
use flatimage.Base.{
  ℕ, suc, zero, ◌+◌, ◌^◌, ◌≤◌, ◌<◌, ◌≡◌, refl, ap, sym, ◌∙◌, Bool, true, false, ◌&&◌, if◌then◌else◌,
  Option, none, some, ok, err, List, [], ◌∷◌, max, ltb, ◌==◌, Bool-cases, Option-cases, inl, inr,
  arith, any, drop, replicate,
}
use mathlib.Core.Option.{some-injective, none-ne-some}
use flatimage.Text.{Text, text_eq, starts_with}
use flatimage.Text.Laws.{text_eq_iff}
use flatimage.Text.Numbers.{stoi, to_string}
use flatimage.Layers.Numbering.{
  with_number, is_layer, until_point, layer_number, layer_numbers, biased, highest, next_number,
  to_u64, find_next_layer_number, layer_name,
}

-- The names of the layers 0 to n - 1 are read as their numbers.
reads_number : ℕ → Option ℕ → Bool
reads_number n none = false
reads_number n (some m) = m == n

all_read : ℕ → Bool
all_read zero = true
all_read (suc n) =
    is_layer (layer_name n) && (reads_number n (layer_number (layer_name n)) && all_read n)

all_names_read : all_read 1000 ≡ true
unfolding all_read reads_number is_layer layer_name layer_number until_point stoi to_string
    starts_with drop replicate
all_names_read = refl

rest_read : (x y z : Bool) → (x && (y && z)) ≡ true → z ≡ true
rest_read x y z h = ground arith

last_read :
    (k : ℕ) (x : Bool) (o : Option ℕ) (z : Bool)
    → (x && (reads_number k o && z)) ≡ true
    → (x ≡ true) × (o ≡ some k)
unfolding reads_number
last_read k x none z h = ground arith
last_read k x (some m) z h = ground arith

name_read :
    (k n : ℕ)
    → all_read k ≡ true
    → n < k
    → (is_layer (layer_name n) ≡ true) × (layer_number (layer_name n) ≡ some n)
unfolding all_read reads_number
name_read zero n h l = elim l [ ]
name_read (suc k) n h l = elim (Bool-cases (n == k)) [
  | inl same ↦
      let e : n ≡ k = ground (arith, same) in
      rw e (last_read k (is_layer (layer_name k)) (layer_number (layer_name k)) (all_read k) h)
  | inr other ↦
      name_read k n
        (rest_read (is_layer (layer_name k)) (reads_number k (layer_number (layer_name k)))
          (all_read k) h)
        (ground (arith, other))
]

-- The name is among the names.
abbrev pub is_among : Text → List Text → Bool
is_among name = any (λ other. text_eq other name)

abbrev has : ℕ → List ℕ → Bool
has n = any (λ m. m == n)

with_number-some :
    (o : Option ℕ) (others : Option (List ℕ)) (ns : List ℕ)
    → with_number o others ≡ some ns
    → (n : ℕ) × (ms : List ℕ) × (o ≡ some n) × (others ≡ some ms) × (n ∷ ms ≡ ns)
with_number-some none others ns h = absurd (none-ne-some ns h)
with_number-some (some n) none ns h = absurd (none-ne-some ns h)
with_number-some (some n) (some ms) ns h = (n, ms, refl, refl, some-injective (n ∷ ms) ns h)

layer_numbers-has :
    (names : List Text) (ns : List ℕ) (n : ℕ)
    → n < 1000
    → is_among (layer_name n) names ≡ true
    → layer_numbers names ≡ some ns
    → has n ns ≡ true
unfolding layer_numbers
layer_numbers-has [] ns n small among h = cc
layer_numbers-has (name ∷ names) ns n small among h = elim (Bool-cases (is_layer name)) [
  | inl layer ↦
      let (m, ms, number, others, all) =
        with_number-some (layer_number name) (layer_numbers names) ns (rw layer at h) in
      elim (Bool-cases (text_eq name (layer_name n))) [
        | inl same ↦
            let e : name ≡ layer_name n = (text_eq_iff name (layer_name n)).0 same in
            let read = (name_read 1000 n all_names_read small).1 in
            let e' : some m ≡ some n = sym number ∙ ap layer_number e ∙ read in
            rw (← all) (ground (arith, some-injective m n e'))
        | inr other ↦
            let further = layer_numbers-has names ms n small (rw other at among) others in
            rw (← all) (ground (arith, further))
      ]
  | inr no_layer ↦ elim (Bool-cases (text_eq name (layer_name n))) [
    | inl same ↦
        let e : name ≡ layer_name n = (text_eq_iff name (layer_name n)).0 same in
        let read = (name_read 1000 n all_names_read small).0 in
        absurd (cc (ap is_layer e, read, no_layer))
    | inr other ↦ layer_numbers-has names ns n small (rw other at among) (rw no_layer at h)
  ]
]

highest-le : (m : ℕ) (ns : List ℕ) → m ≤ highest m ns
unfolding highest
highest-le m [] = omega arith
highest-le m (n ∷ ns) = omega (arith, highest-le (max m (biased n)) ns)

highest-has : (m n : ℕ) (ns : List ℕ) → has n ns ≡ true → biased n ≤ highest m ns
unfolding highest
highest-has m n [] h = cc
highest-has m n (k ∷ ns) h = elim (Bool-cases (k == n)) [
  | inl same ↦
      let e : k ≡ n = ground (arith, same) in
      omega (arith, highest-le (max m (biased k)) ns, ap biased e)
  | inr other ↦ highest-has (max m (biased k)) n ns (rw other at h)
]

-- The number that is next is above every number that is there.
to_u64-lt : (b n : ℕ) → n < 1000 → biased n < b → n < to_u64 b
unfolding biased to_u64
to_u64-lt b n small h = ground arith

above :
    (b n k : ℕ)
    → n < 1000
    → biased n < b
    → (if b == 2 ^ 32
        then none
        else if ltb (2 ^ 31 + 999) b
        then some (err "Maximum number of layers exceeded")
        else some (ok (to_u64 b)))
      ≡ some (ok k)
    → n < k
above b n k small h e = elim (Bool-cases (b == 2 ^ 32)) [
  | inl overflow ↦ absurd (none-ne-some (ok k) (rw overflow at e))
  | inr fits ↦ elim (Bool-cases (ltb (2 ^ 31 + 999) b)) [
    | inl many ↦ absurd (cc (rw (fits, many) at e))
    | inr few ↦
        let e' : to_u64 b ≡ k = cc (rw (fits, few) at e) in omega (arith, e', to_u64-lt b n small h)
  ]
]

next_number-above :
    (n k : ℕ) (ns : List ℕ) → n < 1000 → has n ns ≡ true → next_number ns ≡ some (ok k) → n < k
unfolding next_number
next_number-above n k [] small h e = cc
next_number-above n k (m ∷ ns) small h e =
    above (highest (biased m) ns + 1) n k small
      (let top : biased n ≤ highest (biased m) ns = first_or_later in omega (arith, top)) e
  where
    first_or_later : biased n ≤ highest (biased m) ns
    first_or_later = elim (Bool-cases (m == n)) [
      | inl same ↦
          let e' : m ≡ n = ground (arith, same) in
          omega (arith, highest-le (biased m) ns, ap biased e')
      | inr other ↦ highest-has (biased m) n ns (rw other at h)
    ]

-- The number below 1000 that find_next_layer_number returns is above that of every name in the
-- directory which is a layer's name with a number below 1000, so that no file has its name.
pub find_next_layer_number-fresh :
    (is_directory : Bool) (names : List Text) (k : ℕ)
    → find_next_layer_number is_directory names ≡ some (ok k)
    → k < 1000
    → is_among (layer_name k) names ≡ false
unfolding find_next_layer_number
find_next_layer_number-fresh false names k h small = cc
find_next_layer_number-fresh true names k h small = elim (Option-cases (layer_numbers names)) [
  | inl throws ↦ absurd (cc (rw throws at h))
  | inr (ns, numbers) ↦ elim (Bool-cases (is_among (layer_name k) names)) [
    | inl among ↦ absurd (
        omega (
          arith,
          next_number-above k k ns small (layer_numbers-has names ns k small among numbers)
              (rw numbers at h),
        ))
    | inr fresh ↦ fresh
  ]
]
