-- ===== src/Db/Remote/Laws.antt =====
-- The URL that set writes, get returns, and clear takes it away.
use flatimage.Base.{ℕ, ◌≡◌, refl, ap, ◌∙◌, Bool-cases, inl, inr, some, ok, err, [], ◌∷◌}
use flatimage.Base.Run
use flatimage.Bytes.{Bytes}
use flatimage.Json.{JsonLibrary}
use flatimage.Text.{Text, codes, text_eq}
use flatimage.Reserved.{remote}
use flatimage.Reserved.Layout.{IsImage}
use flatimage.Reserved.Text.{remote_write, remote_read}
use flatimage.Db.{with_db, dump, contains, empty}
use flatimage.Db.Laws.{
  Fields, lookup, built, assign-object, at-built, is_object-built, text_at-built,
}
use flatimage.Db.Stored.{IsStored, Fits, text_write-IsStored}
use flatimage.Db.Remote.{set, url_in, get, clear}

module _ (lib : JsonLibrary) where
  open lib use {Json}

  abbrev pub document : Text → Json
  document url = built lib ((codes "url", lib.text url) ∷ [])

  url_in-document : (url : Text) → url_in lib (document url) ≡ some (ok url)
  unfolding url_in contains empty lookup text_eq
  url_in-document url =
      let fields : Fields Json = (codes "url", lib.text url) ∷ [] in
      let here : lib.at (document url) (codes "url") ≡ some (lib.text url) =
        at-built lib fields (codes "url") in
      rw
        (
          lib.is_empty-at (document url) (codes "url") (lib.text url) here,
          is_object-built lib fields,
          here,
          text_at-built lib fields (codes "url") url refl,
        )
        refl

  url_in_object : url_in lib lib.object ≡ some (err "No remote URL configured")
  unfolding url_in contains
  url_in_object = elim (Bool-cases (empty lib lib.object)) [
    | inl none_there ↦ rw none_there refl
    | inr some_there ↦ rw (some_there, lib.is_object-object, lib.at-object (codes "url")) refl
  ]

  get-IsStored :
      (base : ℕ) (j : Json) (g : Bytes)
      → IsStored lib remote base j g
      → get lib base (some g) ≡ Run.looked (some g) (url_in lib j)
  unfolding get remote_read
  get-IsStored base j g stored =
      rw stored.is_read (ap (λ d. Run.looked (some g) (url_in lib d)) stored.parses)

  -- On an image, for a URL whose document fits the region, set succeeds, and get returns this URL then.
  pub get-set_url :
      (base : ℕ) (url : Text) (f : Bytes)
      → IsImage base f
      → Fits lib remote (document url)
      → (g : Bytes) × (set lib base url (some f) ≡ some (ok tt, some g))
        × IsImage base g
        × (get lib base (some g) ≡ some (ok url, some g))
  unfolding set remote_write with_db dump
  get-set_url base url f image fits =
      let (g, written, image', stored) =
        text_write-IsStored lib remote "Not enough space to fit remote URL" base (document url) f
          fits image in
      (
        g,
        rw (assign-object lib (codes "url") (lib.text url), fits.dumped) (ap some written),
        image',
        get-IsStored base (document url) g stored ∙ ap (Run.looked (some g)) (url_in-document url),
      )

  -- On an image, where the empty document fits the region, clear succeeds, whatever the region held,
  -- and get reports then that no URL is configured.
  pub get-clear :
      (base : ℕ) (f : Bytes)
      → IsImage base f
      → Fits lib remote lib.object
      → (g : Bytes) × (clear lib base (some f) ≡ some (ok tt, some g))
        × IsImage base g
        × (get lib base (some g) ≡ some (err "No remote URL configured", some g))
  unfolding clear remote_write
  get-clear base f image fits =
      let (g, written, image', stored) =
        text_write-IsStored lib remote "Not enough space to fit remote URL" base lib.object f fits
          image in
      (
        g,
        rw fits.dumped (ap some written),
        image',
        get-IsStored base lib.object g stored ∙ ap (Run.looked (some g)) url_in_object,
      )
