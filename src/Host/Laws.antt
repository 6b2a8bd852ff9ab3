-- ===== src/Host/Laws.antt =====
-- What stands at the paths of the host after a file was written or went away.
use flatimage.Base.{
  ◌≡◌, refl, ap, false, if◌then◌else◌, none, some, List, [], ◌∷◌, Bool-cases, inl, inr,
}
use flatimage.Bytes.{Bytes}
use flatimage.Text.{Text, text_eq}
use flatimage.Text.Laws.{text_eq_iff}
use flatimage.Host.{contents, without}

pub contents-without :
    (path other : Text) (files : List (Text × Bytes))
    → text_eq path other ≡ false
    → contents other (without path files) ≡ contents other files
unfolding contents without
contents-without path other [] ne = refl
contents-without path other ((p, content) ∷ files) ne = elim (Bool-cases (text_eq p path)) [
  | inl same ↦
      let e : p ≡ path = (text_eq_iff p path).0 same in
      rw (same, e, ne) (contents-without path other files ne)
  | inr differ ↦ rw differ (
      ap (λ others. if text_eq p other then some content else others)
        (contents-without path other files ne))
]

pub contents-without_self :
    (path : Text) (files : List (Text × Bytes)) → contents path (without path files) ≡ none
unfolding contents without
contents-without_self path [] = refl
contents-without_self path ((p, content) ∷ files) = elim (Bool-cases (text_eq p path)) [
  | inl same ↦ rw same (contents-without_self path files)
  | inr differ ↦ rw (differ, differ) (contents-without_self path files)
]

-- What stands at a path after a file went away.
pub contents_after :
    (path other : Text) (files : List (Text × Bytes))
    → contents other (without path files)
      ≡ (if text_eq path other then none else contents other files)
contents_after path other files = elim (Bool-cases (text_eq path other)) [
  | inl same ↦
      let e : path ≡ other = (text_eq_iff path other).0 same in
      rw same (rw (← e) (contents-without_self path files))
  | inr differ ↦ rw differ (contents-without path other files differ)
]
