-- ===== src/Relocate/Written.antt =====
-- What relocate_impl writes out of an image that is built as the boot script builds it: the first
-- executable, then each tool behind its size.
use flatimage.Base.{
  ℕ, ◌+◌, ◌-◌, ◌%◌, ◌^◌, ◌<◌, ◌≡◌, refl, ap, sym, ◌∙◌, subst, Bool-cases, inl, inr, true, false,
  if◌then◌else◌, some, ok, List, [], ◌∷◌, ◌++◌, map, append_assoc, append-nil, length, take, drop,
  length-append, ltb, lt→ltb, ==_self, arith,
}
use flatimage.Bytes.{Bytes, read_at, to_bytes, from_bytes}
use flatimage.Bytes.Endian.{length-to_bytes, from_bytes-to_bytes}
use flatimage.Text.{Text, codes}
use flatimage.Text.Paths.{◌/◌}
use flatimage.Host.{Host, file_at, exists, is_directory, stored}
use flatimage.Layers.Appended.{entry, read_behind, size_found, length-image}
use flatimage.Elf.{skip_elf_header}
use flatimage.Elf.Copied.{take-append, copy_binary_lem}
use flatimage.Relocate.{
  f_write_from_header, told, write_blob, f_write_from_offset, write_tools, relocate_impl,
}

-- A tool with its bytes, and the tools that are written: each one that is not there yet.
abbrev pub Tool : Type 0
Tool = Text × Bytes

abbrev pub name : Tool → Text
name tool = tool.0

abbrev pub blob : Tool → Bytes
blob tool = tool.1

abbrev pub keep_or_store : Text → Bytes → Host → Host
keep_or_store path content host = if exists path host then host else stored path content host

unfoldable pub installed : Text → List Tool → Host → Host
installed app_bin [] host = host
installed app_bin (tool ∷ tools) host =
    installed app_bin tools (keep_or_store (app_bin / name tool) (blob tool) host)

told_small : (l : ℕ) → l < 2 ^ 63 → told l ≡ l
told_small l h = rw (lt→ltb l (2 ^ 63) h) refl

-- One tool, in front of what follows it.
write_tool :
    (p s : Bytes) (path content : Text) (host : Host)
    → length (p ++ (entry content ++ s)) < 2 ^ 63
    → f_write_from_offset (p ++ (entry content ++ s)) path (length p) host
      ≡ some (ok (length (p ++ entry content)), keep_or_store path content host)
unfolding f_write_from_offset write_blob
write_tool p s path content host small =
    let f = p ++ (entry content ++ s) in
    let n = length content in
    let counted = length-image [] p content s in
    let end : length (p ++ entry content) ≡ length p + 8 + n =
      length-append p (entry content)
      ∙ omega (arith, length-append (to_bytes 8 n) content, length-to_bytes 8 n) in
    let sized : from_bytes (to_bytes 8 n) ≡ n = from_bytes-to_bytes 8 n (omega (arith, counted)) in
    let behind : read_at (length p + 8) n f ≡ some content =
      subst (λ t. read_at (length p + 8) n t ≡ some content)
        (append_assoc p (to_bytes 8 n) (content ++ s)
          ∙ ap (λ t. p ++ t) (sym (append_assoc (to_bytes 8 n) content s)))
        (read_behind (p ++ to_bytes 8 n) content s (length p + 8) n
          (length-append p (to_bytes 8 n) ∙ ap (λ k. length p + k) (length-to_bytes 8 n)) refl) in
    let l = length (p ++ entry content) in
    let small' : l < 2 ^ 63 = omega (arith, end, counted) in
    let seeked : told ((length p + n + 8) % 2 ^ 64) ≡ l =
      ap told (let e : (length p + n + 8) % 2 ^ 64 ≡ l = omega (arith, end, counted) in e)
      ∙ told_small l small' in
    let read : told (length p + 8 + n) ≡ l = ap told (sym end) ∙ told_small l small' in
    let fits : ltb n (2 ^ 63) ≡ true = lt→ltb n (2 ^ 63) (omega (arith, counted)) in
    elim (Bool-cases (exists path host)) [
      | inl there ↦ rw (size_found [] p content s, f_write_from_offset, sized, there, seeked) refl
      | inr missing ↦
          rw
            (
              size_found [] p content s,
              f_write_from_offset,
              sized,
              missing,
              fits,
              behind,
              write_blob,
              sized,
              read,
            )
            refl
    ]

abbrev pub bytes_of : List Tool → Bytes
bytes_of [] = []
bytes_of (tool ∷ tools) = entry (blob tool) ++ bytes_of tools

write_tools_lem :
    (p s : Bytes) (app_bin : Text) (tools : List Tool) (host : Host)
    → length (p ++ (bytes_of tools ++ s)) < 2 ^ 63
    → write_tools (p ++ (bytes_of tools ++ s)) app_bin (map name tools) (length p) host
      ≡ some (ok (length (p ++ bytes_of tools)), installed app_bin tools host)
unfolding write_tools installed
write_tools_lem p s app_bin [] host small =
    ap (λ t. some (ok (length t), host)) (sym (append-nil p))
write_tools_lem p s app_bin (tool ∷ tools) host small =
    let e = entry (blob tool) in
    let ts = bytes_of tools in
    let path = app_bin / name tool in
    let next = keep_or_store path (blob tool) host in
    let nested : p ++ ((e ++ ts) ++ s) ≡ p ++ (e ++ (ts ++ s)) =
      ap (λ t. p ++ t) (append_assoc e ts s) in
    let flat : p ++ ((e ++ ts) ++ s) ≡ (p ++ e) ++ (ts ++ s) =
      nested ∙ sym (append_assoc p e (ts ++ s)) in
    let first =
      subst (λ f. f_write_from_offset f path (length p) host ≡ some (ok (length (p ++ e)), next))
        (sym nested)
        (write_tool p (ts ++ s) path (blob tool) host
          (subst (λ f. length f < 2 ^ 63) nested small)) in
    let rest =
      subst
        (λ f.
          write_tools f app_bin (map name tools) (length (p ++ e)) next
          ≡ some (ok (length ((p ++ e) ++ ts)), installed app_bin tools next))
        (sym flat)
        (write_tools_lem (p ++ e) s app_bin tools next
          (subst (λ f. length f < 2 ^ 63) flat small)) in
    rw first
      (rest ∙ ap (λ t. some (ok (length t), installed app_bin tools next)) (append_assoc p e ts))

-- The first executable.
write_header :
    (buffer boot s : Bytes) (self path : Text) (host : Host)
    → file_at self host ≡ some (boot ++ s)
    → skip_elf_header (some (boot ++ s)) 0 ≡ some (ok (length boot))
    → length (boot ++ s) < 2 ^ 63
    → is_directory path host ≡ false
    → f_write_from_header buffer self path 0 host
      ≡ some (ok (length boot), keep_or_store path boot host)
unfolding f_write_from_header drop
write_header buffer boot s self path host there header small free =
    let counted = length-append boot s in
    let size : (length boot + 0) % 2 ^ 64 ≡ length boot = omega (arith, counted) in
    let section : take (length boot - 0) (boot ++ s) ≡ boot =
      ap (λ k. take k (boot ++ s)) (let e : length boot - 0 ≡ length boot = omega arith in e)
      ∙ take-append boot s in
    let copied =
      copy_binary_lem buffer (boot ++ s) self path 0 (length boot) host there free (omega arith)
        (omega (arith, counted)) (omega (arith, counted)) in
    elim (Bool-cases (exists path host)) [
      | inl old ↦ rw (there, header, size, old) refl
      | inr new ↦ rw (there, header, size, new, copied, section) refl
    ]

-- Where the image has fewer than 2^63 bytes and is an executable whose header says where it ends,
-- followed by each tool behind its size, and no directory has the name fim_boot, relocate_impl with the
-- offset behind the tools succeeds with this offset. It has written the executable and each tool whose
-- file was not there yet with exactly its bytes, whatever its buffer held, and has left the files that
-- were there.
pub relocate_impl-installed :
    (buffer boot s : Bytes) (self app_bin : Text) (tools : List Tool) (host : Host)
    → file_at self host ≡ some (boot ++ (bytes_of tools ++ s))
    → skip_elf_header (some (boot ++ (bytes_of tools ++ s))) 0 ≡ some (ok (length boot))
    → length (boot ++ (bytes_of tools ++ s)) < 2 ^ 63
    → is_directory (app_bin / codes "fim_boot") host ≡ false
    → relocate_impl buffer self app_bin (map name tools) (length (boot ++ bytes_of tools)) host
      ≡ some (
        ok (length (boot ++ bytes_of tools)),
        installed app_bin ((codes "fim_boot", boot) ∷ tools) host,
      )
unfolding relocate_impl installed
relocate_impl-installed buffer boot s self app_bin tools host there header small free =
    let path = app_bin / codes "fim_boot" in
    rw
      (
        there,
        header,
        there,
        write_header buffer boot (bytes_of tools ++ s) self path host there header small free,
        write_tools_lem boot s app_bin tools (keep_or_store path boot host) small,
        ==_self (length (boot ++ bytes_of tools)),
      )
      refl
