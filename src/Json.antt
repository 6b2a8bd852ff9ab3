-- ===== src/Json.antt =====
-- nlohmann::json, which is no part of the repository: the operations that src/db/db.hpp calls, and
-- what their documentation says of them. The documents are those that a text can hold.
use flatimage.Base.{
  ℕ, ◌<◌, ◌≡◌, ◌≢◌, Bool, true, false, Option, none, some, Value, ok, List, map, length, Each,
}
use mathlib.Core.List.{Mem}
use flatimage.Bytes.Endian.{HasNoNul}
use flatimage.Text.{Text, codes}

pub record JsonLibrary : Type 1 where
  pub Json : Type 0
  pub null : Json
  -- json_t::object()
  pub object : Json
  -- The conversions from std::string and from a range of strings.
  pub text : Text → Json
  pub texts : List Text → Json
  -- is_null, is_object and empty
  pub is_null : Json → Bool
  pub is_object : Json → Bool
  pub is_empty : Json → Bool
  -- is_string and the string; is_array and the elements; find.
  pub text_of : Json → Option Text
  pub elements_of : Json → Option (List Json)
  pub at : Json → Text → Option Json
  -- json[key] = value, erase(key), erase(index) and items()
  pub put : Json → Text → Json → Json
  pub erase : Json → Text → Json
  pub erase_index : Json → ℕ → Json
  pub items : Json → List (Text × Json)
  -- dump(2) and parse, which throw where the text or the document is not UTF-8 or no JSON.
  pub dump : Json → Value Text
  pub parse : Text → Value Json
  pub is_object-object : is_object object ≡ true
  pub at-object : (k : Text) → at object k ≡ none
  pub is_null-null : is_null null ≡ true
  pub is_object-null : is_object null ≡ false
  pub put-null : (k : Text) (v : Json) → put null k v ≡ put object k v
  pub is_empty-null : is_empty null ≡ true
  pub at-null : (k : Text) → at null k ≡ none
  pub dump-null : dump null ≡ ok (codes "null")
  pub text_of-null : text_of null ≡ none
  pub elements_of-null : elements_of null ≡ none
  pub text_of-text : (t : Text) → text_of (text t) ≡ some t
  pub elements_of-texts : (ts : List Text) → elements_of (texts ts) ≡ some (map text ts)
  pub is_object-put :
      (j : Json) (k : Text) (v : Json) → is_object j ≡ true → is_object (put j k v) ≡ true
  pub at-put : (j : Json) (k : Text) (v : Json) → is_object j ≡ true → at (put j k v) k ≡ some v
  pub at-put_ne :
      (j : Json) (k l : Text) (v : Json) → is_object j ≡ true → k ≢ l → at (put j k v) l ≡ at j l
  pub elements_of-object : (j : Json) → is_object j ≡ true → elements_of j ≡ none
  pub is_object-erase : (j : Json) (k : Text) → is_object j ≡ true → is_object (erase j k) ≡ true
  pub at-erase : (j : Json) (k : Text) → is_object j ≡ true → at (erase j k) k ≡ none
  pub at-erase_ne : (j : Json) (k l : Text) → is_object j ≡ true → k ≢ l → at (erase j k) l ≡ at j l
  -- items() of an object has its keys, each with its value.
  pub items-at :
      (j : Json) → is_object j ≡ true → Each (λ field. at j field.0 ≡ some field.1) (items j)
  pub mem-items :
      (j : Json) (k : Text) (v : Json) → is_object j ≡ true → at j k ≡ some v → Mem (k, v) (items j)
  pub is_empty-at : (j : Json) (k : Text) (v : Json) → at j k ≡ some v → is_empty j ≡ false
  pub parse-dump : (j : Json) (t : Text) → dump j ≡ ok t → parse t ≡ ok j
  -- The text that dump gives is not empty, and NUL is escaped in it.
  pub length-dump : (j : Json) (t : Text) → dump j ≡ ok t → 0 < length t
  pub dump-HasNoNul : (j : Json) (t : Text) → dump j ≡ ok t → HasNoNul t
