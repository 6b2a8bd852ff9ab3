-- ===== src/Elf/Copied.antt =====
-- A section that lies in the file is copied as it is, whatever the buffer held.
use flatimage.Base.{
  ℕ, zero, suc, ◌+◌, ◌-◌, ◌%◌, ◌^◌, ◌≤◌, ◌<◌, ◌≡◌, refl, ap, subst, sym, ◌∙◌, min, Bool-cases, inl,
  inr, false, some, ok, [], ◌∷◌, ◌++◌, append_assoc, append-nil, length, take, drop, length-take,
  length-drop, ◌==◌, arith,
}
use flatimage.Bytes.{Bytes}
use flatimage.Text.{Text}
use flatimage.Host.{Host, file_at, is_directory, stored}
use flatimage.Elf.{size_buf, copy_chunks, copy_binary}

pub take-append : (xs ys : Bytes) → take (length xs) (xs ++ ys) ≡ xs
unfolding take
take-append [] ys = refl
take-append (x ∷ xs) ys = ap (λ t. x ∷ t) (take-append xs ys)

take-nil : (k : ℕ) → take {A = ℕ} k [] ≡ []
unfolding take
take-nil zero = refl
take-nil (suc k) = refl

take-take-drop : (n m : ℕ) (xs : Bytes) → n ≤ m → take n xs ++ take (m - n) (drop n xs) ≡ take m xs
unfolding take drop
take-take-drop zero m xs h = ap (λ k. take k xs) (omega arith)
take-take-drop (suc n) zero xs h = elim h [ ]
take-take-drop (suc n) (suc m) [] h = take-nil (suc m - suc n)
take-take-drop (suc n) (suc m) (x ∷ xs) h =
    ap (λ t. x ∷ t)
      (ap (λ k. take n xs ++ take k (drop n xs)) (let e : suc m - suc n ≡ m - n = omega arith in e)
        ∙ take-take-drop n m xs (omega arith))

drop-nil : (k : ℕ) → drop {A = ℕ} k [] ≡ []
unfolding drop
drop-nil zero = refl
drop-nil (suc k) = refl

drop-drop : (n m : ℕ) (xs : Bytes) → drop m (drop n xs) ≡ drop (n + m) xs
unfolding drop
drop-drop zero m xs = ap (λ k. drop k xs) (omega arith)
drop-drop (suc n) m [] = drop-nil m ∙ sym (drop-nil (suc n + m))
drop-drop (suc n) m (x ∷ xs) =
    drop-drop n m xs
    ∙ ap (λ k. drop k (x ∷ xs)) (let e : suc (n + m) ≡ suc n + m = omega arith in e)

copy_chunks_lem :
    (fuel : ℕ) (f_in : Bytes) (position size : ℕ) (buffer f_out : Bytes)
    → size < fuel
    → position + size ≤ length f_in
    → copy_chunks fuel f_in position size buffer f_out
      ≡ some (f_out ++ take size (drop position f_in))
unfolding copy_chunks take
copy_chunks_lem zero f_in position size buffer f_out enough within = absurd (omega arith)
copy_chunks_lem (suc fuel) f_in position size buffer f_out enough within =
    elim (Bool-cases (size == 0)) [
      | inl done ↦
          let e : size ≡ 0 = ground (arith, done) in
          rw done (
            ap some
              (sym (append-nil f_out) ∙ ap (λ k. f_out ++ take k (drop position f_in)) (sym e)))
      | inr more ↦
          let n = min size_buf size in
          let got = take n (drop position f_in) in
          let exact : length got ≡ n =
            length-take n (drop position f_in) ∙ omega (arith, length-drop position f_in) in
          let filled = got ++ drop (length got) buffer in
          let front : take n filled ≡ got =
            subst (λ k. take k filled ≡ got) exact (take-append got (drop (length got) buffer)) in
          let left : 0 < size = ground (arith, more) in
          rw more (
            copy_chunks_lem fuel f_in (position + n) (size - n) filled (f_out ++ take n filled)
              (omega arith) (omega arith)
            ∙ ap some (
                append_assoc f_out (take n filled) _
                ∙ ap (λ t. f_out ++ t)
                    (ap (λ t. t ++ take (size - n) (drop (position + n) f_in)) front
                      ∙ ap (λ t. got ++ take (size - n) t) (sym (drop-drop position n f_in))
                      ∙ take-take-drop n size (drop position f_in) (omega arith))))
    ]

-- A section of a file of fewer than 2^64 bytes is copied as it is, whatever the buffer held at first.
pub copy_binary_lem :
    (buffer f_in : Bytes) (path_file_input path_file_output : Text) (first second : ℕ) (host : Host)
    → file_at path_file_input host ≡ some f_in
    → is_directory path_file_output host ≡ false
    → first ≤ second
    → second ≤ length f_in
    → second < 2 ^ 64
    → copy_binary buffer path_file_input path_file_output first second host
      ≡ some (ok tt, stored path_file_output (take (second - first) (drop first f_in)) host)
unfolding copy_binary
copy_binary_lem buffer f_in path_file_input path_file_output first second host there free le within
      small =
    let size : (second + 2 ^ 64 - first) % 2 ^ 64 ≡ second - first = omega arith in
    rw
      (
        there,
        copy_binary,
        free,
        size,
        copy_chunks_lem (suc (second - first)) f_in first (second - first) buffer [] (omega arith)
            (omega arith),
      )
      refl
