-- ===== src/Tests/OfRelocate.antt =====
-- The theorem about the relocation at a small image.
use flatimage.Base.{
  ◌≡◌, refl, some, ok, List, [], ◌∷◌, ◌++◌, map, length, replicate, take, drop, arith,
}
use flatimage.Bytes.{Bytes, to_bytes, from_bytes, read_at}
use flatimage.Text.{codes, text_eq}
use flatimage.Text.Paths.{◌/◌}
use flatimage.Host.{Host, contents, is_directory}
use flatimage.Elf.{elf_magic, skip_elf_header, end_of_header}
use flatimage.Relocate.{relocate_impl}
use flatimage.Relocate.Written.{Tool, bytes_of, name, installed, relocate_impl-installed}

-- An executable that is all header.
abbrev boot : Bytes
boot = elf_magic ++ (replicate 36 0 ++ (64 ∷ replicate 11 0 ++ (64 ∷ replicate 11 0)))

abbrev tools : List Tool
tools = (codes "bash", codes "#!bash") ∷ (codes "bwrap", codes "sandbox") ∷ []

abbrev image_host : Host
image_host = record {
  files = (codes "/app.flatimage", boot ++ (bytes_of tools ++ codes "reserved")) ∷ [];
  directories = codes "/i" ∷ [];
}

relocate_impl-installed_example :
    relocate_impl []
      (codes "/app.flatimage")
      (codes "/i")
      (map name tools)
      (length (boot ++ bytes_of tools))
      image_host
    ≡ some (
      ok (length (boot ++ bytes_of tools)),
      installed (codes "/i") ((codes "fim_boot", boot) ∷ tools) image_host,
    )
unfolding contents text_eq is_directory ◌/◌ skip_elf_header end_of_header read_at from_bytes
    to_bytes take drop replicate
relocate_impl-installed_example =
    relocate_impl-installed [] boot (codes "reserved") (codes "/app.flatimage") (codes "/i") tools
      image_host refl refl (omega arith) refl
