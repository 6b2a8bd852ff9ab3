-- ===== src/Parser/RoundTrip/OfPerms.antt =====
-- `fim-perms` from its command lines.
use flatimage.Base.{◌≡◌, List, [], ◌∷◌, map, refl, ok, ap, arith, ◌∙◌, relabel, Value}
use flatimage.Text.{Text, codes, starts_with, text_eq, to_upper, enum_from_string}
use flatimage.Text.Joined.{join, AllWords, IsWord, from_string-join}
use flatimage.Parser.Filled.{Ascending, insert_each-map}
use flatimage.Parser.Perms
use flatimage.Parser.Command.{parse, returned, fim_command_from_string, CmdType, perms_cmd}
use flatimage.Flags.Permission
use flatimage.Parser.Words.{perms_words, PermsSet}
use flatimage.Parser.Args.{insert_each, popped, proceed, pure, none_left, ◌>>◌}

-- The names of the permissions are words, and stand for them.
permission_words : (ps : List Permission.Permission) → AllWords (map Permission.name ps)
permission_words [] = tt
permission_words (p ∷ ps) = (permission_word p, permission_words ps)
  where
    permission_word : (p : Permission.Permission) → IsWord (Permission.name p)
    permission_word Permission.none = ground arith
    permission_word _ = ground arith

permission_named :
    (p : Permission.Permission) → enum_from_string Permission.entries (Permission.name p) ≡ ok p
unfolding enum_from_string text_eq to_upper
permission_named Permission.none = refl
permission_named _ = refl

permissions_read :
    (ps : List Permission.Permission)
    → Ascending Permission.ordinal 0 ps
    → Perms.process_permissions (join (map Permission.name ps) ∷ []) ≡ ok (ps, [])
unfolding Perms.process_permissions
permissions_read ps up =
    ap
      (λ words.
        popped (insert_each Permission.ordinal Permission.entries "Invalid permission" [] words) [])
      (from_string-join (map Permission.name ps) (permission_words ps))
    ∙ ap (λ v. popped v [])
        (insert_each-map Permission.ordinal Permission.entries Permission.name "Invalid permission"
          permission_named 0 [] ps tt up)

-- What parse does with the permissions that it has read.
abbrev with_permissions :
    (List Permission.Permission → Perms.CmdPerms)
    → Value (List Permission.Permission × List Text)
    → Value CmdType
with_permissions cmd v =
    returned
      (proceed
        (proceed (relabel v "Failed to process permissions")
          (λ permissions. pure (cmd permissions)))
        (λ cmd_perms. none_left "Trailing arguments for fim-perms: {}" >> pure cmd_perms))
      perms_cmd

-- Every fim-perms command, its permissions a set, is read back from its command line.
pub parse-perms_words :
    (argv0 : Text) (c : Perms.CmdPerms)
    → PermsSet c
    → parse (argv0 ∷ codes "fim-perms" ∷ perms_words c) ≡ ok (perms_cmd c)
unfolding parse fim_command_from_string starts_with text_eq to_upper enum_from_string
    Perms.parse_perms
parse-perms_words argv0 Perms.clear h = refl
parse-perms_words argv0 Perms.list h = refl
parse-perms_words argv0 (Perms.add ps) h = ap (with_permissions Perms.add) (permissions_read ps h)
parse-perms_words argv0 (Perms.del ps) h = ap (with_permissions Perms.del) (permissions_read ps h)
parse-perms_words argv0 (Perms.set ps) h = ap (with_permissions Perms.set) (permissions_read ps h)
