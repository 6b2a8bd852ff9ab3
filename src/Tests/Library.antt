-- ===== src/Tests/Library.antt =====
-- A library of JSON documents for the runs: what the development asks of nlohmann::json can be met.
-- Its texts are those of a stack machine, `null` apart.
pub mod Codec
pub mod Objects
use flatimage.Base.{
  ℕ, zero, suc, ◌+◌, Bool, true, false, Option, none, some, Value, ok, List, [], ◌∷◌, map, length,
  ap, ◌∙◌, ◌≡◌, refl, arith,
}
use flatimage.Json.{JsonLibrary}
use flatimage.Text.{Text, codes}

mutual
  pub data Doc : Type 0 where
    null : Doc
    text : Text → Doc
    array : Docs → Doc
    object : Members → Doc

  pub data Docs : Type 0 where
    nil : Docs
    cons : Doc → Docs → Docs

  pub data Members : Type 0 where
    end : Members
    member : Text → Doc → Members → Members

abbrev pub list_of : Docs → List Doc
list_of nil = []
list_of (cons d ds) = d ∷ list_of ds

abbrev pub text_docs : List Text → Docs
text_docs [] = nil
text_docs (t ∷ ts) = cons (text t) (text_docs ts)

pub list_of-text_docs : (ts : List Text) → list_of (text_docs ts) ≡ map text ts
list_of-text_docs [] = refl
list_of-text_docs (t ∷ ts) = ap (λ ds. text t ∷ ds) (list_of-text_docs ts)
