-- ===== src/Bytes/Access.antt =====
-- Reads after writes: at the same place, and at places that do not overlap.
use flatimage.Base.{
  ℕ, zero, suc, ◌+◌, ◌-◌, ◌≤◌, ◌<◌, ◌≡◌, refl, ap, ◌∙◌, none, some, [], ◌∷◌, ◌++◌, length,
  replicate, arith,
}
use flatimage.Bytes.{Bytes, overwrite, write_at, read_at}

pub length-overwrite : (d f : Bytes) → length d ≤ length f → length (overwrite d f) ≡ length f
unfolding overwrite
length-overwrite [] f h = refl
length-overwrite (x ∷ d) [] h = elim h [ ]
length-overwrite (x ∷ d) (y ∷ f) h = ap suc (length-overwrite d f (omega arith))

-- A write inside a file keeps its length.
pub length-write_at :
    (n : ℕ) (d f : Bytes) → n + length d ≤ length f → length (write_at n d f) ≡ length f
unfolding write_at
length-write_at zero [] f h = refl
length-write_at (suc n) [] f h = refl
length-write_at zero (x ∷ d) f h = length-overwrite (x ∷ d) f (omega arith)
length-write_at (suc n) (x ∷ d) [] h = absurd (omega arith)
length-write_at (suc n) (x ∷ d) (y ∷ f) h = ap suc (length-write_at n (x ∷ d) f (omega arith))

read_at-overwrite : (d f : Bytes) → read_at 0 (length d) (overwrite d f) ≡ some d
unfolding overwrite read_at
read_at-overwrite [] f = refl
read_at-overwrite (x ∷ d) [] = rw (read_at-overwrite d [])
read_at-overwrite (x ∷ d) (y ∷ f) = rw (read_at-overwrite d f)

read_at-zero : (n : ℕ) (f : Bytes) → read_at n 0 f ≡ some []
unfolding read_at
read_at-zero zero f = refl
read_at-zero (suc n) f = refl

-- What is written is read back, wherever it is written.
pub read_at-write_at_self : (n : ℕ) (d f : Bytes) → read_at n (length d) (write_at n d f) ≡ some d
unfolding write_at read_at
read_at-write_at_self n [] f = read_at-zero n f
read_at-write_at_self zero (x ∷ d) f = read_at-overwrite (x ∷ d) f
read_at-write_at_self (suc n) (x ∷ d) [] = read_at-write_at_self n (x ∷ d) []
read_at-write_at_self (suc n) (x ∷ d) (y ∷ f) = read_at-write_at_self n (x ∷ d) f

-- A read in front of a write does not see it.
pub read_at-write_at_before :
    (m l n : ℕ) (d f : Bytes)
    → m + l ≤ n
    → n ≤ length f
    → read_at m l (write_at n d f) ≡ read_at m l f
unfolding write_at read_at
read_at-write_at_before zero zero n d f h k = refl
read_at-write_at_before (suc m) zero n d f h k = refl
read_at-write_at_before zero (suc l) zero d f h k = absurd (omega arith)
read_at-write_at_before (suc m) (suc l) zero d f h k = absurd (omega arith)
read_at-write_at_before zero (suc l) (suc n) [] f h k = refl
read_at-write_at_before (suc m) (suc l) (suc n) [] f h k = refl
read_at-write_at_before zero (suc l) (suc n) (x ∷ d) [] h k = absurd (omega arith)
read_at-write_at_before (suc m) (suc l) (suc n) (x ∷ d) [] h k = absurd (omega arith)
read_at-write_at_before zero (suc l) (suc n) (x ∷ d) (y ∷ f) h k =
    rw (read_at-write_at_before zero l n (x ∷ d) f (omega arith) (omega arith))
read_at-write_at_before (suc m) (suc l) (suc n) (x ∷ d) (y ∷ f) h k =
    read_at-write_at_before m (suc l) n (x ∷ d) f (omega arith) (omega arith)

read_at-overwrite_after :
    (m l : ℕ) (d f : Bytes)
    → length d ≤ m
    → length d ≤ length f
    → read_at m l (overwrite d f) ≡ read_at m l f
unfolding overwrite read_at
read_at-overwrite_after m l [] f h k = refl
read_at-overwrite_after m l (x ∷ d) [] h k = elim k [ ]
read_at-overwrite_after zero l (x ∷ d) (y ∷ f) h k = absurd (omega arith)
read_at-overwrite_after (suc m) zero (x ∷ d) (y ∷ f) h k = refl
read_at-overwrite_after (suc m) (suc l) (x ∷ d) (y ∷ f) h k =
    read_at-overwrite_after m (suc l) d f (omega arith) (omega arith)

-- A read behind a write does not see it.
pub read_at-write_at_after :
    (m l n : ℕ) (d f : Bytes)
    → n + length d ≤ m
    → n + length d ≤ length f
    → read_at m l (write_at n d f) ≡ read_at m l f
unfolding write_at read_at
read_at-write_at_after m l zero [] f h k = refl
read_at-write_at_after m l (suc n) [] f h k = refl
read_at-write_at_after m l zero (x ∷ d) f h k =
    read_at-overwrite_after m l (x ∷ d) f (omega arith) (omega arith)
read_at-write_at_after m l (suc n) (x ∷ d) [] h k = absurd (omega arith)
read_at-write_at_after zero l (suc n) (x ∷ d) (y ∷ f) h k = absurd (omega arith)
read_at-write_at_after (suc m) zero (suc n) (x ∷ d) (y ∷ f) h k = refl
read_at-write_at_after (suc m) (suc l) (suc n) (x ∷ d) (y ∷ f) h k =
    read_at-write_at_after m (suc l) n (x ∷ d) f (omega arith) (omega arith)

overwrite-overwrite :
    (d e f : Bytes)
    → length d ≤ length e
    → overwrite d (overwrite e f) ≡ overwrite (overwrite d e) f
unfolding overwrite
overwrite-overwrite [] e f h = refl
overwrite-overwrite (x ∷ d) [] f h = elim h [ ]
overwrite-overwrite (x ∷ d) (y ∷ e) [] h =
    ap (λ r. x ∷ r) (overwrite-overwrite d e [] (omega arith))
overwrite-overwrite (x ∷ d) (y ∷ e) (z ∷ f) h =
    ap (λ r. x ∷ r) (overwrite-overwrite d e f (omega arith))

-- A second write at one place, no longer than the first, replaces the head of the first.
pub write_at-write_at :
    (n : ℕ) (d e f : Bytes)
    → length d ≤ length e
    → write_at n d (write_at n e f) ≡ write_at n (overwrite d e) f
unfolding write_at overwrite
write_at-write_at n [] e f h = refl
write_at-write_at n (x ∷ d) [] f h = elim h [ ]
write_at-write_at zero (x ∷ d) (y ∷ e) [] h = overwrite-overwrite (x ∷ d) (y ∷ e) [] h
write_at-write_at zero (x ∷ d) (y ∷ e) (z ∷ f) h = overwrite-overwrite (x ∷ d) (y ∷ e) (z ∷ f) h
write_at-write_at (suc n) (x ∷ d) (y ∷ e) [] h =
    ap (λ r. 0 ∷ r) (write_at-write_at n (x ∷ d) (y ∷ e) [] h)
write_at-write_at (suc n) (x ∷ d) (y ∷ e) (z ∷ f) h =
    ap (λ r. z ∷ r) (write_at-write_at n (x ∷ d) (y ∷ e) f h)

pub overwrite-replicate :
    (d : Bytes) (s : ℕ)
    → length d ≤ s
    → overwrite d (replicate s 0) ≡ d ++ replicate (s - length d) 0
unfolding overwrite replicate
overwrite-replicate [] s h = rw (let e : s - 0 ≡ s = omega arith in e)
overwrite-replicate (x ∷ d) zero h = elim h [ ]
overwrite-replicate (x ∷ d) (suc s) h =
    ap (λ r. x ∷ r)
      (overwrite-replicate d s (omega arith)
        ∙ ap (λ k. d ++ replicate k 0)
            (let e : s - length d ≡ suc s - suc (length d) = omega arith in e))

-- A read inside a file finds what stands there.
pub read_at-append : (p d s : Bytes) → read_at (length p) (length d) (p ++ d ++ s) ≡ some d
unfolding read_at
read_at-append [] [] s = refl
read_at-append [] (x ∷ d) s = rw (read_at-append [] d s)
read_at-append (y ∷ p) [] s = refl
read_at-append (y ∷ p) (x ∷ d) s = read_at-append p (x ∷ d) s

-- A read that would leave the file fails.
pub read_at_beyond : (n l : ℕ) (f : Bytes) → 0 < l → length f < n + l → read_at n l f ≡ none
unfolding read_at
read_at_beyond zero zero f p h = elim p [ ]
read_at_beyond (suc n) zero f p h = elim p [ ]
read_at_beyond zero (suc l) [] p h = refl
read_at_beyond (suc n) (suc l) [] p h = refl
read_at_beyond zero (suc zero) (x ∷ f) p h = absurd (omega arith)
read_at_beyond zero (suc (suc l)) (x ∷ f) p h =
    rw (read_at_beyond zero (suc l) f (omega arith) (omega arith))
read_at_beyond (suc n) (suc l) (x ∷ f) p h = read_at_beyond n (suc l) f p (omega arith)

-- A read that stays in the file succeeds.
pub read_at_within :
    (n l : ℕ) (f : Bytes)
    → n + l ≤ length f
    → (d : Bytes) × (read_at n l f ≡ some d) × (length d ≡ l)
unfolding read_at
read_at_within zero zero f h = ([], refl, refl)
read_at_within (suc n) zero f h = ([], refl, refl)
read_at_within zero (suc l) [] h = absurd (omega arith)
read_at_within (suc n) (suc l) [] h = absurd (omega arith)
read_at_within zero (suc l) (x ∷ f) h =
    let (d, r, e) = read_at_within zero l f (omega arith) in (x ∷ d, rw r, ap suc e)
read_at_within (suc n) (suc l) (x ∷ f) h = read_at_within n (suc l) f (omega arith)
