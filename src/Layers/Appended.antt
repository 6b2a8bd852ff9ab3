-- ===== src/Layers/Appended.antt =====
-- `add` and `push_binary` on images that end in layers.
use flatimage.Base.{
  ℕ, zero, suc, ◌+◌, ◌%◌, ◌^◌, ◌<◌, ◌≡◌, refl, ap, sym, ◌∙◌, subst, true, false, List, [], ◌∷◌,
  ◌++◌, length, take, drop, append_assoc, append-nil, length-append, length-drop, take-append-drop,
  some, ok, ◌==◌, arith,
}
use flatimage.Bytes.{Bytes, read_at, to_bytes, from_bytes}
use flatimage.Bytes.Access.{read_at-append}
use flatimage.Bytes.Endian.{length-to_bytes, from_bytes-to_bytes}
use flatimage.Text.{Text}
use flatimage.Text.Laws.{text_eq_refl}
use flatimage.Layers.{Layer, dwarfs_magic, is_dwarfs, scan, copy_loop, buffer_size, add}

-- The bytes that `add` appends for a layer, and those of several layers.
abbrev pub entry : Bytes → Bytes
entry layer = to_bytes 8 (length layer) ++ layer

abbrev pub entries : List Bytes → Bytes
entries [] = []
entries (l ∷ ls) = entry l ++ entries ls

-- A layer's file begins with the identifier of DwarFS.
abbrev pub IsLayer : Bytes → Type 0
IsLayer l = (rest : Bytes) × (l ≡ dwarfs_magic ++ rest)

abbrev pub AllLayers : List Bytes → Type 0
AllLayers [] = Unit
AllLayers (l ∷ ls) = IsLayer l × AllLayers ls

-- Where the layers stand that are appended from `offset` on.
abbrev pub placed : Text → ℕ → List Bytes → List Layer
placed path offset [] = []
placed path offset (l ∷ ls) =
    record { path = path; offset = offset + 8; size = length l }
    ∷ placed path (offset + 8 + length l) ls

-- The copy loop copies.
copy_loop_lem :
    (fuel chunk : ℕ) (layer binary : Bytes)
    → 0 < chunk
    → length layer < fuel
    → copy_loop fuel chunk layer binary ≡ some (binary ++ layer)
unfolding copy_loop
copy_loop_lem zero chunk layer binary p h = elim h [ ]
copy_loop_lem (suc fuel) chunk [] binary p h = rw append-nil
copy_loop_lem (suc fuel) chunk (b ∷ layer) binary p h =
    copy_loop_lem fuel chunk (drop chunk (b ∷ layer)) (binary ++ take chunk (b ∷ layer)) p
      (omega (arith, length-drop chunk (b ∷ layer)))
    ∙ ap some (
        append_assoc binary (take chunk (b ∷ layer)) (drop chunk (b ∷ layer))
        ∙ ap (λ r. binary ++ r) (take-append-drop chunk (b ∷ layer)))

-- For every image and every layer's file that open, `add` ends with success, and the image is the old
-- one followed by the layer's size in eight bytes and the layer's bytes.
pub add-entry :
    (binary layer : Bytes)
    → add (some binary) (some layer) ≡ some (ok tt, some (binary ++ entry layer))
unfolding add
add-entry binary layer =
    rw
      (copy_loop_lem (suc (length layer)) buffer_size layer (binary ++ to_bytes 8 (length layer))
        (omega arith) (omega arith))
      (ap (λ r. some (ok tt, some r)) (append_assoc binary (to_bytes 8 (length layer)) layer))

-- What a read finds behind a prefix of known length.
pub read_behind :
    (p d s : Bytes) (m l : ℕ) → length p ≡ m → length d ≡ l → read_at m l (p ++ (d ++ s)) ≡ some d
read_behind p d s m l e g =
    subst (λ k. read_at k l (p ++ (d ++ s)) ≡ some d) e
      (subst (λ k. read_at (length p) k (p ++ (d ++ s)) ≡ some d) g
        (rw (← (append_assoc p d s)) (read_at-append p d s)))

pub is_dwarfs_found :
    (f : Bytes) (offset : ℕ)
    → read_at offset 6 f ≡ some dwarfs_magic
    → is_dwarfs (some f) offset ≡ true
unfolding is_dwarfs
is_dwarfs_found f offset h = rw (h, is_dwarfs) (text_eq_refl dwarfs_magic)

module _ (path : Text) (p l s : Bytes) where
  abbrev pub image : Bytes
  image = p ++ (entry l ++ s)

  pub size_found : read_at (length p) 8 image ≡ some (to_bytes 8 (length l))
  size_found =
      subst (λ t. read_at (length p) 8 (p ++ t) ≡ some (to_bytes 8 (length l)))
        (sym (append_assoc (to_bytes 8 (length l)) l s))
        (read_behind p (to_bytes 8 (length l)) (l ++ s) (length p) 8 refl
          (length-to_bytes 8 (length l)))

  regroup :
      (rest : Bytes)
      → l ≡ dwarfs_magic ++ rest
      → image ≡ (p ++ to_bytes 8 (length l)) ++ (dwarfs_magic ++ (rest ++ s))
  regroup rest e = ap (λ t. p ++ ((to_bytes 8 (length l) ++ t) ++ s)) e ∙ simp append_assoc

  magic_found : IsLayer l → is_dwarfs (some image) (length p + 8) ≡ true
  magic_found (rest, e) = is_dwarfs_found image (length p + 8) (
      subst (λ t. read_at (length p + 8) 6 t ≡ some dwarfs_magic) (sym (regroup rest e))
        (read_behind (p ++ to_bytes 8 (length l)) dwarfs_magic (rest ++ s) (length p + 8) 6
          (length-append p (to_bytes 8 (length l))
            ∙ ap (λ k. length p + k) (length-to_bytes 8 (length l)))
          refl))

  pub length-image : length image ≡ length p + (8 + length l + length s)
  length-image = omega (
    arith,
    length-append p (entry l ++ s),
    length-append (entry l) s,
    length-append (to_bytes 8 (length l)) l,
    length-to_bytes 8 (length l),
  )

  -- One round of the scan, in front of a layer.
  pub scan_round :
      (fuel : ℕ) (layers : List Layer)
      → IsLayer l
      → length image < 2 ^ 64
      → scan (suc fuel) path image (length p) layers
        ≡ scan fuel path image
            (length p + 8 + length l)
            (layers ++ record { path = path; offset = length p + 8; size = length l } ∷ [])
  unfolding scan
  scan_round fuel layers layer small =
      rw (size_found, scan, sized, begins, magic_found layer, nonzero, ends)
    where
      sized : from_bytes (to_bytes 8 (length l)) ≡ length l
      sized = from_bytes-to_bytes 8 (length l) (omega (arith, length-image))

      begins : (length p + 8) % 2 ^ 64 ≡ length p + 8
      begins = omega (arith, length-image)

      ends : (length p + 8 + length l) % 2 ^ 64 ≡ length p + 8 + length l
      ends = omega (arith, length-image)

      nonempty : 0 < length l
      nonempty = let (rest, e) = layer in omega (arith, ap length e)

      nonzero : (length l == 0) ≡ false
      nonzero = ground (arith, nonempty)
