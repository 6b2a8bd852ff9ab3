-- ===== src/Layers/Scan.antt =====
-- What `push_binary` finds on an image that ends in layers, and after `add` of another.
use flatimage.Base.{
  ℕ, zero, suc, ◌+◌, ◌^◌, ◌<◌, ◌≡◌, ap, sym, ◌∙◌, subst, List, [], ◌∷◌, ◌++◌, length, append_assoc,
  append-nil, length-append, some, ok, arith,
}
use flatimage.Bytes.{Bytes, to_bytes}
use flatimage.Bytes.Access.{read_at_beyond}
use flatimage.Bytes.Endian.{length-to_bytes}
use flatimage.Text.{Text}
use flatimage.Layers.{Layer, scan, push_binary, add}
use flatimage.Layers.Appended.{entry, entries, IsLayer, AllLayers, placed, add-entry, scan_round}

scan_end :
    (fuel : ℕ) (path : Text) (p : Bytes) (layers : List Layer)
    → scan (suc fuel) path p (length p) layers ≡ some layers
unfolding scan
scan_end fuel path p layers = rw (read_at_beyond (length p) 8 p (omega arith) (omega arith), scan)

-- The scan of appended layers finds exactly these, from any list of layers found before.
scan-entries :
    (fuel : ℕ) (path : Text) (p : Bytes) (ls : List Bytes) (layers : List Layer)
    → AllLayers ls
    → length (p ++ entries ls) < 2 ^ 64
    → length ls < fuel
    → scan fuel path (p ++ entries ls) (length p) layers
      ≡ some (layers ++ placed path (length p) ls)
scan-entries zero path p ls layers good small enough = elim enough [ ]
scan-entries (suc fuel) path p [] layers good small enough =
    rw (append-nil, append-nil) (scan_end fuel path p layers)
scan-entries (suc fuel) path p (l ∷ ls) layers good small enough =
    scan_round path p l (entries ls) fuel layers good.0 small
    ∙ subst
        (λ t.
          scan fuel path t (length p + 8 + length l) found
          ≡ some (found ++ placed path (length p + 8 + length l) ls))
        (append_assoc p (entry l) (entries ls))
        (subst
          (λ k.
            scan fuel path ((p ++ entry l) ++ entries ls) k found
            ≡ some (found ++ placed path k ls))
          (length-append p (entry l)
            ∙ omega (arith, length-append (to_bytes 8 (length l)) l, length-to_bytes 8 (length l)))
          (scan-entries fuel path (p ++ entry l) ls found good.1
            (subst (λ t. length t < 2 ^ 64) (sym (append_assoc p (entry l) (entries ls))) small)
            (omega arith)))
    ∙ ap some (append_assoc layers _ (placed path (length p + 8 + length l) ls))
  where
    found : List Layer
    found = layers ++ record { path = path; offset = length p + 8; size = length l } ∷ []

-- On an image of fewer than 2^64 bytes that ends in layers (files that begin with the DwarFS
-- identifier, each behind its size),
-- `push_binary` from where the layers begin ends, and finds exactly these layers, in their order, with
-- their offsets and sizes, behind the layers that it was given; as many rounds are enough as there are
-- layers, and one more.
pub push_binary-entries :
    (fuel : ℕ) (path : Text) (p : Bytes) (ls : List Bytes) (layers : List Layer)
    → AllLayers ls
    → length (p ++ entries ls) < 2 ^ 64
    → length ls < fuel
    → push_binary fuel path (some (p ++ entries ls)) (length p) layers
      ≡ some (layers ++ placed path (length p) ls)
unfolding push_binary
push_binary-entries = scan-entries

entries-append : (ls : List Bytes) (l : Bytes) → entries (ls ++ l ∷ []) ≡ entries ls ++ entry l
entries-append [] l = append-nil (entry l)
entries-append (k ∷ ls) l =
    ap (λ t. entry k ++ t) (entries-append ls l)
    ∙ sym (append_assoc (entry k) (entries ls) (entry l))

AllLayers-append :
    (ls : List Bytes) (l : Bytes) → AllLayers ls → IsLayer l → AllLayers (ls ++ l ∷ [])
AllLayers-append [] l g h = (h, tt)
AllLayers-append (k ∷ ls) l g h = (g.0, AllLayers-append ls l g.1 h)

placed-append :
    (path : Text) (offset : ℕ) (ls : List Bytes) (l : Bytes)
    → placed path offset (ls ++ l ∷ [])
      ≡ placed path offset ls
        ++ record { path = path; offset = offset + length (entries ls) + 8; size = length l } ∷ []
placed-append path offset [] l =
    ap (λ o. record { path = path; offset = o; size = length l } ∷ []) (omega arith)
placed-append path offset (k ∷ ls) l =
    ap (λ t. record { path = path; offset = offset + 8; size = length k } ∷ t)
      (placed-append path (offset + 8 + length k) ls l
        ∙ ap
            (λ o.
              placed path (offset + 8 + length k) ls
              ++ record { path = path; offset = o; size = length l } ∷ [])
            (omega (
              arith,
              length-append (entry k) (entries ls),
              length-append (to_bytes 8 (length k)) k,
              length-to_bytes 8 (length k),
            )))

-- After `add` of a layer to an image that ends in layers, which has fewer than 2^64 bytes then,
-- `push_binary` finds the layers that it found before, unmoved, and the new one as the last.
pub push_binary-add :
    (path : Text) (p : Bytes) (ls : List Bytes) (l : Bytes)
    → AllLayers ls
    → IsLayer l
    → length (p ++ entries (ls ++ l ∷ [])) < 2 ^ 64
    → (binary : Bytes) × (add (some (p ++ entries ls)) (some l) ≡ some (ok tt, some binary))
      × (push_binary (length ls + 2) path (some binary) (length p) []
          ≡ some (
              placed path (length p) ls
              ++ record { path = path; offset = length (p ++ entries ls) + 8; size = length l }
                ∷ []))
push_binary-add path p ls l good layer small = (
  p ++ entries (ls ++ l ∷ []),
  add-entry (p ++ entries ls) l
      ∙ ap (λ t. some (ok tt, some t))
          (append_assoc p (entries ls) (entry l) ∙ ap (λ t. p ++ t) (sym (entries-append ls l))),
  push_binary-entries (length ls + 2) path p (ls ++ l ∷ []) [] (AllLayers-append ls l good layer)
        small (omega (arith, length-append ls (l ∷ [])))
      ∙ ap some (
          placed-append path (length p) ls l
          ∙ ap
              (λ o.
                placed path (length p) ls
                ++ record { path = path; offset = o + 8; size = length l } ∷ [])
              (sym (length-append p (entries ls)))),
)
