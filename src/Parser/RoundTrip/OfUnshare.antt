-- ===== src/Parser/RoundTrip/OfUnshare.antt =====
-- `fim-unshare` from its command lines.
use flatimage.Base.{◌≡◌, List, [], ◌∷◌, map, refl, ok, ap, arith, ◌∙◌, relabel, Value}
use flatimage.Text.{Text, codes, starts_with, text_eq, to_upper, enum_from_string}
use flatimage.Text.Joined.{join, AllWords, IsWord, from_string-join}
use flatimage.Parser.Filled.{Ascending, insert_each-map}
use flatimage.Parser.Unshare
use flatimage.Parser.Command.{parse, returned, fim_command_from_string, CmdType, unshare_cmd}
use flatimage.Flags.Unshare as Shares
use flatimage.Parser.Words.{unshare_words, UnshareSet}
use flatimage.Parser.Args.{insert_each, popped, proceed, pure, none_left, ◌>>◌}

-- The names of the options are words, and stand for them.
share_words : (ps : List Shares.Unshare) → AllWords (map Shares.name ps)
share_words [] = tt
share_words (p ∷ ps) = (share_word p, share_words ps)
  where
    share_word : (p : Shares.Unshare) → IsWord (Shares.name p)
    share_word Shares.none = ground arith
    share_word _ = ground arith

share_named : (p : Shares.Unshare) → enum_from_string Shares.entries (Shares.name p) ≡ ok p
unfolding enum_from_string text_eq to_upper
share_named Shares.none = refl
share_named _ = refl

shares_read :
    (ps : List Shares.Unshare)
    → Ascending Shares.ordinal 0 ps
    → Unshare.process_unshares (join (map Shares.name ps) ∷ []) ≡ ok (ps, [])
unfolding Unshare.process_unshares
shares_read ps up =
    ap
      (λ words.
        popped (insert_each Shares.ordinal Shares.entries "Invalid unshare option" [] words) [])
      (from_string-join (map Shares.name ps) (share_words ps))
    ∙ ap (λ v. popped v [])
        (insert_each-map Shares.ordinal Shares.entries Shares.name "Invalid unshare option"
          share_named 0 [] ps tt up)

-- What parse does with the options that it has read.
abbrev with_shares :
    (List Shares.Unshare → Unshare.CmdUnshare)
    → Value (List Shares.Unshare × List Text)
    → Value CmdType
with_shares cmd v =
    returned
      (proceed
        (proceed (relabel v "Failed to process unshare options") (λ options. pure (cmd options)))
        (λ cmd_unshare. none_left "Trailing arguments for fim-unshare: {}" >> pure cmd_unshare))
      unshare_cmd

-- Every fim-unshare command, its options a set, is read back from its command line.
pub parse-unshare_words :
    (argv0 : Text) (c : Unshare.CmdUnshare)
    → UnshareSet c
    → parse (argv0 ∷ codes "fim-unshare" ∷ unshare_words c) ≡ ok (unshare_cmd c)
unfolding parse fim_command_from_string starts_with text_eq to_upper enum_from_string
    Unshare.parse_unshare
parse-unshare_words argv0 Unshare.clear h = refl
parse-unshare_words argv0 Unshare.list h = refl
parse-unshare_words argv0 (Unshare.add ps) h = ap (with_shares Unshare.add) (shares_read ps h)
parse-unshare_words argv0 (Unshare.del ps) h = ap (with_shares Unshare.del) (shares_read ps h)
parse-unshare_words argv0 (Unshare.set ps) h = ap (with_shares Unshare.set) (shares_read ps h)
