-- ===== src/Parser/RoundTrip/OfNumbers.antt =====
-- `fim-bind` and `fim-instance`, which take numbers.
use flatimage.Base.{ℕ, ◌^◌, ◌≡◌, List, [], ◌∷◌, refl, ok, ap, arith, ◌∙◌, Value, guard, Bool}
use flatimage.Text.{Text, codes, starts_with, text_eq, to_upper, enum_from_string}
use flatimage.Parser.Filled.{digits, all-digits, stou-digits}
use flatimage.Parser.Bind
use flatimage.Parser.Instance
use flatimage.Parser.Command.{
  parse, returned, fim_command_from_string, CmdType, bind_cmd, instance_cmd,
}
use flatimage.Parser.Words.{bind_words, BindFits, instance_words, InstanceFits}
use flatimage.Parser.Args.{
  stou, some_left, data_of, clear_all, ◌>>=◌, popped, proceed, pure, none_left, ◌>>◌,
}

abbrev with_index : Value ℕ → Value CmdType
with_index v =
    returned
      (proceed (popped v []) λ index.
        none_left "Incorrect number of arguments for 'del' (<index>)" >> pure (Bind.del index))
      bind_cmd

-- Every fim-bind command, its index a uint64_t, is read back from its command line.
pub parse-bind_words :
    (argv0 : Text) (c : Bind.CmdBind)
    → BindFits c
    → parse (argv0 ∷ codes "fim-bind" ∷ bind_words c) ≡ ok (bind_cmd c)
unfolding parse fim_command_from_string starts_with text_eq to_upper enum_from_string
    Bind.parse_bind
parse-bind_words argv0 (Bind.add Bind.ro src dst) h = refl
parse-bind_words argv0 (Bind.add Bind.rw src dst) h = refl
parse-bind_words argv0 (Bind.add Bind.dev src dst) h = refl
parse-bind_words argv0 (Bind.add Bind.none_type src dst) h = refl
parse-bind_words argv0 Bind.list h = refl
parse-bind_words argv0 (Bind.del index) h =
    ap
      (λ b.
        returned
          (proceed (popped (guard b "Index argument for 'del' is not a number") []) (λ u. λ args.
            proceed (popped (stou (2 ^ 64) (digits 20 index) "Invalid index") args) (λ i.
              none_left "Incorrect number of arguments for 'del' (<index>)" >> pure (Bind.del i))))
          bind_cmd)
      (all-digits 20 index)
    ∙ ap with_index (stou-digits 20 (2 ^ 64) index "Invalid index" (omega arith) (omega arith) h)

-- What parse does with the identifier that it has read, and with the check of its digits.
abbrev with_exec : Value (Instance.CmdInstance × List Text) → Value CmdType
with_exec v =
    returned (proceed v λ cmd. none_left "Trailing arguments for fim-instance: {}" >> pure cmd)
      instance_cmd

abbrev with_id : List Text → Value ℕ → Value (Instance.CmdInstance × List Text)
with_id args v =
    proceed (popped v args) λ id. data_of >>= λ found. clear_all >> pure (Instance.exec id found)

abbrev with_digits : ℕ → Text → List Text → Bool → Value (Instance.CmdInstance × List Text)
with_digits id arg args b =
    proceed (popped (guard b "Id argument must be a digit") (arg ∷ args)) (λ u.
      some_left "Missing 'cmd' argument for 'fim-instance'" >> λ left.
      with_id left (stou (2 ^ 31) (digits 10 id) "Invalid instance ID"))

-- Every fim-instance command, its identifier an int32_t and its command not empty, is read back.
pub parse-instance_words :
    (argv0 : Text) (c : Instance.CmdInstance)
    → InstanceFits c
    → parse (argv0 ∷ codes "fim-instance" ∷ instance_words c) ≡ ok (instance_cmd c)
unfolding parse fim_command_from_string starts_with text_eq to_upper enum_from_string
    Instance.parse_instance
parse-instance_words argv0 Instance.list h = refl
parse-instance_words argv0 (Instance.exec id []) h = elim h.1 [ ]
parse-instance_words argv0 (Instance.exec id (arg ∷ args)) h =
    ap (λ b. with_exec (with_digits id arg args b)) (all-digits 10 id)
    ∙ ap (λ v. with_exec (with_id (arg ∷ args) v))
        (stou-digits 10 (2 ^ 31) id "Invalid instance ID" (omega arith) (omega (arith, h.0)) h.0)
