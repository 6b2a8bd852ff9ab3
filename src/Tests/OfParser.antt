-- ===== src/Tests/OfParser.antt =====
-- The theorems about `parse` at command lines.
use flatimage.Base.{◌≡◌, ◌↔◌, refl, [], ◌∷◌, ok, map, arith, false}
use flatimage.Text.{codes, to_lower}
use flatimage.Parser.Perms
use flatimage.Parser.Command.{CmdType, perms_cmd, none_cmd, parse, parse_case, remote_command}
use flatimage.Parser.Words.{words}
use flatimage.Parser.RoundTrip.{parse-words}
use flatimage.Parser.Lowered.{parse_case-to_lower}
use flatimage.Parser.Plain.{is_fim, parse-none}
use flatimage.Flags.Permission

abbrev set_permissions : CmdType
set_permissions = perms_cmd (Perms.set (Permission.home ∷ Permission.network ∷ []))

parse-words_example : parse (codes "app" ∷ words set_permissions) ≡ ok set_permissions
parse-words_example = parse-words (codes "app") set_permissions (omega arith, (omega arith, tt))

parse_case-to_lower_example :
    parse_case remote_command (map to_lower (codes "SET") ∷ codes "https://example.org" ∷ [])
    ≡ parse_case remote_command (codes "SET" ∷ codes "https://example.org" ∷ [])
parse_case-to_lower_example =
    parse_case-to_lower remote_command (codes "SET") (codes "https://example.org" ∷ []) refl

parse-none_example :
    (parse (codes "app" ∷ codes "ls" ∷ []) ≡ ok none_cmd)
    ↔ (is_fim (codes "app" ∷ codes "ls" ∷ []) ≡ false)
parse-none_example = parse-none (codes "app" ∷ codes "ls" ∷ [])
