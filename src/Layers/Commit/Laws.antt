-- ===== src/Layers/Commit/Laws.antt =====
-- A commit to a directory of layers takes the place of no file.
use flatimage.Base.{
  ℕ, suc, zero, ◌<◌, ◌≡◌, refl, ap, sym, ◌∙◌, Bool, true, false, ◌&&◌, not, if◌then◌else◌, none,
  some, ok, List, [], ◌∷◌, ◌++◌, append-nil, append_assoc, map, any, length, drop, replicate, ◌==◌,
  Bool-cases, inl, inr, arith,
}
use flatimage.Bytes.{Bytes}
use flatimage.Text.{Text, text_eq, starts_with}
use flatimage.Text.Laws.{text_eq_iff, text_eq_refl}
use flatimage.Text.Numbers.{to_string}
use flatimage.Text.Paths.{◌/◌, ends_in_slash, is_absolute}
use flatimage.Layers.Numbering.{find_next_layer_number, layer_name}
use flatimage.Layers.Numbering.Fresh.{is_among, find_next_layer_number-fresh}
use flatimage.Host.{Host, contents, without, file_at, is_directory, stored, removed, rename}
use flatimage.Host.Laws.{contents-without, contents_after}
use flatimage.Layers.Commit.{
  Host, contents, without, file_at, is_directory, is_in, filenames, stored, removed, rename, layer,
  required, commit_mode, is_slash, erase_listed, erase_all, remove_directory, parent_path,
  is_empty_directory,
}

starts_with-append : (s t : Text) → starts_with (s ++ t) s ≡ true
unfolding starts_with
starts_with-append [] t = refl
starts_with-append (c ∷ s) t = ground (arith, starts_with-append s t)

drop-append : (s t : Text) → drop (length s) (s ++ t) ≡ t
unfolding drop
drop-append [] t = refl
drop-append (c ∷ s) t = drop-append s t

-- A file in the directory has its name among those of the directory.
contents-fresh :
    (prefix name : Text) (files : List (Text × Bytes))
    → any is_slash name ≡ false
    → is_among name (filenames prefix files) ≡ false
    → contents (prefix ++ name) files ≡ none
unfolding contents filenames is_in
contents-fresh prefix name [] no_slash fresh = refl
contents-fresh prefix name ((p, content) ∷ files) no_slash fresh =
    elim (Bool-cases (text_eq p (prefix ++ name))) [
      | inl same ↦
          let e : p ≡ prefix ++ name = (text_eq_iff p (prefix ++ name)).0 same in
          absurd (
            cc (
              rw
                (
                  e,
                  starts_with-append prefix name,
                  drop-append prefix name,
                  no_slash,
                  text_eq_refl name,
                )
                at fresh))
      | inr differ ↦ rw differ (
          contents-fresh prefix name files no_slash
            (later (is_in prefix p) (drop (length prefix) p) (filenames prefix files) fresh))
    ]
  where
    later :
        (b : Bool) (n : Text) (ns : List Text)
        → is_among name (if b then n ∷ ns else ns) ≡ false
        → is_among name ns ≡ false
    later true n ns h = ground (arith, h)
    later false n ns h = h

no_slash : ℕ → Bool
no_slash zero = true
no_slash (suc n) = not (any is_slash (layer_name n)) && no_slash n

no_slash_below : no_slash 1000 ≡ true
unfolding no_slash layer_name to_string drop replicate
no_slash_below = refl

no_slash-at : (k n : ℕ) → no_slash k ≡ true → n < k → any is_slash (layer_name n) ≡ false
unfolding no_slash
no_slash-at zero n h l = elim l [ ]
no_slash-at (suc k) n h l = elim (Bool-cases (n == k)) [
  | inl same ↦
      let e : n ≡ k = ground (arith, same) in
      rw e (first_of (any is_slash (layer_name k)) (no_slash k) h)
  | inr other ↦
      no_slash-at k n (second_of (any is_slash (layer_name k)) (no_slash k) h)
        (ground (arith, other))
]
  where
    first_of : (x y : Bool) → (not x && y) ≡ true → x ≡ false
    first_of x y h = ground arith

    second_of : (x y : Bool) → (not x && y) ≡ true → y ≡ true
    second_of x y h = ground arith

path-layer_name : (dst : Text) (k : ℕ) → dst / layer_name k ≡ (dst / []) ++ layer_name k
unfolding ◌/◌ layer_name is_absolute
path-layer_name dst k = elim (Bool-cases (ends_in_slash dst)) [
  | inl slash ↦ rw slash (ap (λ d. d ++ layer_name k) (sym (append-nil dst)))
  | inr none_there ↦ rw none_there (sym (append_assoc dst (b'/' ∷ []) (layer_name k)))
]

-- Where the destination is a directory, the layer's file is there, and find_next_layer_number returns
-- a number below 1000 whose name no directory has, a commit in the mode LAYER succeeds. No file had
-- the name of the new layer; it has what the layer's file had, which is gone, and every other file is
-- as it was.
pub commit_mode-layer :
    (path_file_binary tmp dst : Text) (content : Bytes) (host : Host) (k : ℕ)
    → is_directory dst host ≡ true
    → file_at tmp host ≡ some content
    → find_next_layer_number true (filenames (dst / []) (host.files)) ≡ some (ok k)
    → k < 1000
    → is_directory (dst / layer_name k) host ≡ false
    → (file_at (dst / layer_name k) host ≡ none)
      × (after : Host) × (commit_mode path_file_binary tmp layer (some dst) host
          ≡ some (ok tt, after))
      × ((path : Text)
          → file_at path after ≡ (
              if text_eq (dst / layer_name k) path
              then some content
              else if text_eq tmp path
              then none
              else file_at path host))
unfolding commit_mode required rename contents
commit_mode-layer path_file_binary tmp dst content host k directory there next small free =
    let fresh =
      find_next_layer_number-fresh true (filenames (dst / []) (host.files)) k next small in
    (
      ap (λ p. contents p (host.files)) (path-layer_name dst k)
          ∙ contents-fresh (dst / []) (layer_name k) (host.files)
              (no_slash-at 1000 k no_slash_below small) fresh,
      stored (dst / layer_name k) content (removed tmp host),
      rw (directory, directory, next, rename, there, free) refl,
      λ path. elim (Bool-cases (text_eq (dst / layer_name k) path)) [
        | inl same ↦ rw same refl
        | inr differ ↦ rw differ (
            contents-without (dst / layer_name k) path (without tmp (host.files)) differ
            ∙ contents_after tmp path (host.files))
      ],
    )

remove_directory-file_at :
    (path other : Text) (host : Host)
    → file_at other (remove_directory path host) ≡ file_at other host
unfolding remove_directory
remove_directory-file_at path other host = elim (Bool-cases (is_empty_directory path host)) [
  | inl gone ↦ rw gone refl
  | inr kept ↦ rw kept refl
]

-- What commit erases behind the new layer: the files of the list, and no other file.
erase_all-file_at :
    (src : Text) (lines : List Text) (host : Host) (path : Text)
    → is_among path (map (λ line. src / line) lines) ≡ false
    → file_at path (erase_all src lines host) ≡ file_at path host
unfolding erase_all erase_listed
erase_all-file_at src [] host path unlisted = refl
erase_all-file_at src (line ∷ lines) host path unlisted =
    let target = src / line in
    let rest = removed target host in
    erase_all-file_at src lines (erase_listed src line host) path (ground (arith, unlisted))
    ∙ remove_directory-file_at (parent_path target) path (remove_directory target rest)
    ∙ remove_directory-file_at target path rest
    ∙ contents-without target path (host.files) (ground (arith, unlisted))
