-- ===== src/Tests/Documents.antt =====
-- The library of JSON documents for the runs.
use flatimage.Base.{
  ℕ, ◌≡◌, refl, ap, sym, ◌∙◌, Bool, true, false, Option, none, some, Value, ok, List, [], subst,
  length, Each, ◌≢◌, ◌<◌, zero, suc, err,
}
use mathlib.Core.Bool.{false≢true}
use mathlib.Core.List.{Mem}
use mathlib.Core.Option.{none-ne-some}
use flatimage.Bytes.Endian.{HasNoNul}
use flatimage.Json.{JsonLibrary}
use flatimage.Text.{Text, codes}
use flatimage.Tests.Library.{
  Doc, null, text, array, object, Docs, nil, cons, end, member, list_of, text_docs,
  list_of-text_docs,
}
use flatimage.Tests.Library.Codec.{print, run, run_back, printed-HasNoNul, length-printed}
use flatimage.Tests.Library.Objects.{
  find, remove, fields, find_here, find_other, find-remove, find-remove_ne, fields-find, mem-fields,
}

abbrev is_null : Doc → Bool
is_null null = true
is_null _ = false

abbrev is_object : Doc → Bool
is_object (object ms) = true
is_object _ = false

abbrev is_empty : Doc → Bool
is_empty null = true
is_empty (array nil) = true
is_empty (object end) = true
is_empty _ = false

abbrev text_of : Doc → Option Text
text_of (text t) = some t
text_of _ = none

abbrev elements_of : Doc → Option (List Doc)
elements_of (array ds) = some (list_of ds)
elements_of _ = none

abbrev at : Doc → Text → Option Doc
at (object ms) k = find k ms
at _ k = none

abbrev put : Doc → Text → Doc → Doc
put (object ms) k v = object (member k v ms)
put null k v = object (member k v end)
put j k v = j

abbrev erase : Doc → Text → Doc
erase (object ms) k = object (remove k ms)
erase j k = j

abbrev without : Docs → ℕ → Docs
without nil n = nil
without (cons d ds) zero = ds
without (cons d ds) (suc n) = cons d (without ds n)

abbrev erase_index : Doc → ℕ → Doc
erase_index (array ds) n = array (without ds n)
erase_index j n = j

abbrev items : Doc → List (Text × Doc)
items (object ms) = fields ms
items _ = []

not_object : {A : Type 0} → false ≡ true → A
not_object h = absurd (false≢true h)

pub at_end : (k : Text) → at (object end) k ≡ none
unfolding find
at_end k = refl

pub printed_null : ok (print null []) ≡ ok (codes "null")
unfolding print
printed_null = refl

pub put_object : (j : Doc) (k : Text) (v : Doc) → is_object j ≡ true → is_object (put j k v) ≡ true
put_object (object ms) k v h = refl
put_object null k v h = not_object h
put_object (text t) k v h = not_object h
put_object (array ds) k v h = not_object h

pub put_at : (j : Doc) (k : Text) (v : Doc) → is_object j ≡ true → at (put j k v) k ≡ some v
put_at (object ms) k v h = find_here k v ms
put_at null k v h = not_object h
put_at (text t) k v h = not_object h
put_at (array ds) k v h = not_object h

pub put_other :
    (j : Doc) (k l : Text) (v : Doc) → is_object j ≡ true → k ≢ l → at (put j k v) l ≡ at j l
put_other (object ms) k l v h ne = find_other k l v ms ne
put_other null k l v h ne = not_object h
put_other (text t) k l v h ne = not_object h
put_other (array ds) k l v h ne = not_object h

pub object_elements : (j : Doc) → is_object j ≡ true → elements_of j ≡ none
object_elements (object ms) h = refl
object_elements null h = refl
object_elements (text t) h = refl
object_elements (array ds) h = not_object h

pub erase_object : (j : Doc) (k : Text) → is_object j ≡ true → is_object (erase j k) ≡ true
erase_object (object ms) k h = refl
erase_object null k h = not_object h
erase_object (text t) k h = not_object h
erase_object (array ds) k h = not_object h

pub erase_at : (j : Doc) (k : Text) → is_object j ≡ true → at (erase j k) k ≡ none
erase_at (object ms) k h = find-remove k ms
erase_at null k h = refl
erase_at (text t) k h = refl
erase_at (array ds) k h = refl

pub erase_other : (j : Doc) (k l : Text) → is_object j ≡ true → k ≢ l → at (erase j k) l ≡ at j l
erase_other (object ms) k l h ne = find-remove_ne k l ms ne
erase_other null k l h ne = refl
erase_other (text t) k l h ne = refl
erase_other (array ds) k l h ne = refl

pub items_at :
    (j : Doc) → is_object j ≡ true → Each (λ field. at j field.0 ≡ some field.1) (items j)
items_at (object ms) h = fields-find ms
items_at null h = tt
items_at (text t) h = tt
items_at (array ds) h = tt

pub mem_items :
    (j : Doc) (k : Text) (v : Doc) → is_object j ≡ true → at j k ≡ some v → Mem (k, v) (items j)
mem_items (object ms) k v h e = mem-fields ms k v e
mem_items null k v h e = not_object h
mem_items (text t) k v h e = not_object h
mem_items (array ds) k v h e = not_object h

pub empty_at : (j : Doc) (k : Text) (v : Doc) → at j k ≡ some v → is_empty j ≡ false
unfolding find
empty_at (object end) k v h = absurd (none-ne-some v h)
empty_at (object (member l w ms)) k v h = refl
empty_at null k v h = absurd (none-ne-some v h)
empty_at (text t) k v h = refl
empty_at (array ds) k v h = absurd (none-ne-some v h)

text_in : Value Text → Text
text_in (ok t) = t
text_in (err e) = []

pub dumped : (d : Doc) (t : Text) → ok (print d []) ≡ ok t → print d [] ≡ t
unfolding text_in
dumped d t h = ap text_in h

pub parse_dump : (d : Doc) (t : Text) → ok (print d []) ≡ ok t → run t [] [] ≡ ok d
parse_dump d t h = ap (λ s. run s [] []) (sym (dumped d t h)) ∙ run_back d

abbrev pub documents : JsonLibrary
documents = record {
  Json = Doc;
  null = null;
  object = object end;
  text = text;
  texts = λ ts. array (text_docs ts);
  is_null = is_null;
  is_object = is_object;
  is_empty = is_empty;
  text_of = text_of;
  elements_of = elements_of;
  at = at;
  put = put;
  erase = erase;
  erase_index = erase_index;
  items = items;
  dump = λ d. ok (print d []);
  parse = λ t. run t [] [];
  is_object-object = refl;
  at-object = λ k. at_end k;
  is_null-null = refl;
  is_object-null = refl;
  put-null = λ k v. refl;
  is_empty-null = refl;
  at-null = λ k. refl;
  dump-null = printed_null;
  text_of-null = refl;
  elements_of-null = refl;
  text_of-text = λ t. refl;
  elements_of-texts = λ ts. ap some (list_of-text_docs ts);
  is_object-put = put_object;
  at-put = put_at;
  at-put_ne = put_other;
  elements_of-object = object_elements;
  is_object-erase = erase_object;
  at-erase = erase_at;
  at-erase_ne = erase_other;
  items-at = items_at;
  mem-items = mem_items;
  is_empty-at = empty_at;
  parse-dump = parse_dump;
  length-dump = λ d t h. subst (λ t. 0 < length t) (dumped d t h) (length-printed d);
  dump-HasNoNul = λ d t h. subst HasNoNul (dumped d t h) (printed-HasNoNul d);
}
