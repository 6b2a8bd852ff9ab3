-- ===== src/Tests/Library/Codec.antt =====
-- The texts of the documents.
use flatimage.Base.{
  ℕ, ◌+◌, ◌-◌, ◌<◌, ◌≤◌, ◌≡◌, refl, ap, sym, ◌∙◌, true, if◌then◌else◌, leb, ◌==◌, Value, ok, err,
  List, [], ◌∷◌, ◌++◌, append_assoc, append-nil, length, arith,
}
use flatimage.Bytes.Endian.{HasNoNul}
use flatimage.Text.{Text}
use flatimage.Tests.Library.{Doc, null, text, array, object, Docs, nil, cons, Members, end, member}

abbrev chars : Text → Text → Text
chars [] rest = rest
chars (c ∷ t) rest = (c + 200) ∷ chars t rest

unfoldable mutual
  pub print : Doc → Text → Text
  print null rest = 110 ∷ 117 ∷ 108 ∷ 108 ∷ rest
  print (text t) rest = chars t (2 ∷ rest)
  print (array ds) rest = print_docs ds rest
  print (object ms) rest = print_members ms rest

  pub print_docs : Docs → Text → Text
  print_docs nil rest = 3 ∷ rest
  print_docs (cons d ds) rest = print d (print_docs ds (4 ∷ rest))

  pub print_members : Members → Text → Text
  print_members end rest = 5 ∷ rest
  print_members (member k v ms) rest = print v (print_members ms (chars k (6 ∷ rest)))

-- The word that is being read, and the documents on the stack.
State : Type 0
State = Text × List Doc

add_element : List Doc → List Doc
add_element (array ds ∷ d ∷ stack) = array (cons d ds) ∷ stack
add_element stack = stack

add_member : Text → List Doc → List Doc
add_member k (object ms ∷ v ∷ stack) = object (member k v ms) ∷ stack
add_member k stack = stack

operate : ℕ → Text → List Doc → Text × List Doc
unfolding add_element add_member
operate c word stack =
    if leb 200 c
    then (word ++ (c - 200) ∷ [], stack)
    else if c == 110
    then (word, null ∷ stack)
    else if c == 2
    then ([], text word ∷ stack)
    else if c == 3
    then (word, array nil ∷ stack)
    else if c == 4
    then (word, add_element stack)
    else if c == 5
    then (word, object end ∷ stack)
    else if c == 6
    then ([], add_member word stack)
    else (word, stack)

top : List Doc → Value Doc
top (d ∷ []) = ok d
top _ = err "parse error"

unfoldable pub run : Text → Text → List Doc → Value Doc
unfolding operate top
run [] word stack = top stack
run (c ∷ t) word stack = let (word', stack') = operate c word stack in run t word' stack'

operate_char :
    (c : ℕ) (word : Text) (stack : List Doc)
    → operate (c + 200) word stack ≡ (word ++ c ∷ [], stack)
unfolding operate
operate_char c word stack =
    let large : leb 200 (c + 200) ≡ true = ground arith in
    rw large
      (ap (λ n. (word ++ n ∷ [], stack)) (let back : c + 200 - 200 ≡ c = omega arith in back))

run-chars :
    (t rest word : Text) (stack : List Doc)
    → run (chars t rest) word stack ≡ run rest (word ++ t) stack
unfolding run operate
run-chars [] rest word stack = ap (λ w. run rest w stack) (sym (append-nil word))
run-chars (c ∷ t) rest word stack =
    ap (λ state. run (chars t rest) state.0 state.1) (operate_char c word stack)
    ∙ run-chars t rest (word ++ c ∷ []) stack
    ∙ ap (λ w. run rest w stack) (append_assoc word (c ∷ []) t)

mutual
  unfolding print run operate add_element add_member

  run-print :
      (d : Doc) (rest : Text) (stack : List Doc)
      → run (print d rest) [] stack ≡ run rest [] (d ∷ stack)
  run-print null rest stack = refl
  run-print (text t) rest stack = run-chars t (2 ∷ rest) [] stack
  run-print (array ds) rest stack = run-print_docs ds rest stack
  run-print (object ms) rest stack = run-print_members ms rest stack

  run-print_docs :
      (ds : Docs) (rest : Text) (stack : List Doc)
      → run (print_docs ds rest) [] stack ≡ run rest [] (array ds ∷ stack)
  run-print_docs nil rest stack = refl
  run-print_docs (cons d ds) rest stack =
      run-print d (print_docs ds (4 ∷ rest)) stack ∙ run-print_docs ds (4 ∷ rest) (d ∷ stack)

  run-print_members :
      (ms : Members) (rest : Text) (stack : List Doc)
      → run (print_members ms rest) [] stack ≡ run rest [] (object ms ∷ stack)
  run-print_members end rest stack = refl
  run-print_members (member k v ms) rest stack =
      run-print v (print_members ms (chars k (6 ∷ rest))) stack
      ∙ run-print_members ms (chars k (6 ∷ rest)) (v ∷ stack)
      ∙ run-chars k (6 ∷ rest) [] (object ms ∷ v ∷ stack)

chars-HasNoNul : (t rest : Text) → HasNoNul rest → HasNoNul (chars t rest)
chars-HasNoNul [] rest h = h
chars-HasNoNul (c ∷ t) rest h = (omega arith, chars-HasNoNul t rest h)

mutual
  unfolding print

  print-HasNoNul : (d : Doc) (rest : Text) → HasNoNul rest → HasNoNul (print d rest)
  print-HasNoNul null rest h = (omega arith, (omega arith, (omega arith, (omega arith, h))))
  print-HasNoNul (text t) rest h = chars-HasNoNul t (2 ∷ rest) (omega arith, h)
  print-HasNoNul (array ds) rest h = print_docs-HasNoNul ds rest h
  print-HasNoNul (object ms) rest h = print_members-HasNoNul ms rest h

  print_docs-HasNoNul : (ds : Docs) (rest : Text) → HasNoNul rest → HasNoNul (print_docs ds rest)
  print_docs-HasNoNul nil rest h = (omega arith, h)
  print_docs-HasNoNul (cons d ds) rest h =
      print-HasNoNul d (print_docs ds (4 ∷ rest))
        (print_docs-HasNoNul ds (4 ∷ rest) (omega arith, h))

  print_members-HasNoNul :
      (ms : Members) (rest : Text) → HasNoNul rest → HasNoNul (print_members ms rest)
  print_members-HasNoNul end rest h = (omega arith, h)
  print_members-HasNoNul (member k v ms) rest h =
      print-HasNoNul v (print_members ms (chars k (6 ∷ rest))) (
        print_members-HasNoNul ms (chars k (6 ∷ rest))
          (chars-HasNoNul k (6 ∷ rest) (omega arith, h)))

length-chars : (t rest : Text) → length rest ≤ length (chars t rest)
length-chars [] rest = omega arith
length-chars (c ∷ t) rest = omega (arith, length-chars t rest)

mutual
  unfolding print

  length-print : (d : Doc) (rest : Text) → length rest < length (print d rest)
  length-print null rest = omega arith
  length-print (text t) rest = omega (arith, length-chars t (2 ∷ rest))
  length-print (array ds) rest = length-print_docs ds rest
  length-print (object ms) rest = length-print_members ms rest

  length-print_docs : (ds : Docs) (rest : Text) → length rest < length (print_docs ds rest)
  length-print_docs nil rest = omega arith
  length-print_docs (cons d ds) rest =
      omega (arith, length-print d (print_docs ds (4 ∷ rest)), length-print_docs ds (4 ∷ rest))

  length-print_members : (ms : Members) (rest : Text) → length rest < length (print_members ms rest)
  length-print_members end rest = omega arith
  length-print_members (member k v ms) rest = omega (
    arith,
    length-print v (print_members ms (chars k (6 ∷ rest))),
    length-print_members ms (chars k (6 ∷ rest)),
    length-chars k (6 ∷ rest),
  )

pub run_back : (d : Doc) → run (print d []) [] [] ≡ ok d
unfolding run top
run_back d = run-print d [] []

pub printed-HasNoNul : (d : Doc) → HasNoNul (print d [])
printed-HasNoNul d = print-HasNoNul d [] tt

pub length-printed : (d : Doc) → 0 < length (print d [])
length-printed d = length-print d []
