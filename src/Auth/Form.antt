-- ===== src/Auth/Form.antt =====
-- `application/x-www-form-urlencoded`: the encoder of src/auth/oauth.cpp and the decoder and the
-- field loop of src/auth/challenge.cpp. A character is its byte.
pub mod Laws
pub mod Fields
use mcp_cpp_sdk.Prelude.{
  ℕ, suc, ◌+◌, ◌-◌, ◌*◌, ◌/◌, ◌%◌, Bool, true, false, ◌&&◌, ◌||◌, Option, none, some, List, [], ◌∷◌,
  ◌++◌, map, ◌==◌, within, if◌then◌else◌, get_or, Bytes, codes,
}

abbrev pub Parameter : Type 0
Parameter = Bytes × Bytes

abbrev pub hex_digits_upper : Bytes
hex_digits_upper = codes "0123456789ABCDEF"

abbrev pub is_unreserved : ℕ → Bool
is_unreserved c =
    within b'A' b'Z' c
    || (within b'a' b'z' c
        || (within b'0' b'9' c || (c == b'-' || (c == b'_' || (c == b'.' || c == b'~')))))

unfoldable pub url_encode : Bytes → Bytes
url_encode [] = []
url_encode (c ∷ value) =
    let rest = url_encode value in
    if is_unreserved c
    then c ∷ rest
    else b'%' ∷ get_or hex_digits_upper (c / 16) 0 ∷ get_or hex_digits_upper (c % 16) 0 ∷ rest

abbrev pub is_empty : Bytes → Bool
is_empty [] = true
is_empty (c ∷ cs) = false

-- The loop of `build_form_body`, from the body so far.
unfoldable pub build_from : Bytes → List Parameter → Bytes
unfolding url_encode
build_from body [] = body
build_from body ((key, value) ∷ params) =
    build_from
      ((if is_empty body then body else body ++ b'&' ∷ [])
        ++ (url_encode key ++ b'=' ∷ url_encode value))
      params

unfoldable pub build_form_body : List Parameter → Bytes
unfolding build_from
build_form_body params = build_from [] params

-- `std::string_view::find` of a character.
abbrev pub find : Bytes → ℕ → Option ℕ
find [] c = none
find (x ∷ xs) c =
    if x == c then some 0 else elim (find xs c) [ none ↦ none | some i ↦ some (suc i) ]

abbrev pub to_upper : ℕ → ℕ
to_upper c = if within b'a' b'z' c then c - 32 else c

abbrev pub hex_value : ℕ → Option ℕ
hex_value c = find hex_digits_upper (to_upper c)

-- The character that an escape stands for, of the two characters behind the percent sign.
abbrev pub decode_escape : ℕ → ℕ → Option ℕ
decode_escape h l = elim (hex_value h) [
  | none ↦ none
  | some high ↦ elim (hex_value l) [ none ↦ none | some low ↦ some (high * 16 + low) ]
]

abbrev pub decode_plain : ℕ → ℕ
decode_plain c = if c == b'+' then b' ' else c

unfoldable pub form_decode : Bytes → Bytes
form_decode [] = []
form_decode (c ∷ []) = decode_plain c ∷ []
form_decode (c ∷ d ∷ []) = decode_plain c ∷ form_decode (d ∷ [])
form_decode (c ∷ h ∷ l ∷ text) =
    let plain = decode_plain c ∷ form_decode (h ∷ l ∷ text) in
    let behind = form_decode text in
    if c == b'%'
    then elim (decode_escape h l) [ none ↦ plain | some byte ↦ byte ∷ behind ]
    else plain

-- The fields of a query, which `&` separates; the first argument is the field so far. A query that
-- ends in a separator has no field behind it.
unfoldable pub split_fields : Bytes → Bytes → List Bytes
split_fields [] [] = []
split_fields (x ∷ field) [] = (x ∷ field) ∷ []
split_fields field (c ∷ query) = elim (c == b'&') [
  | true ↦ field ∷ split_fields [] query
  | false ↦ split_fields (field ++ c ∷ []) query
]

-- The name and the value, which the first `=` separates.
unfoldable pub split_equals : Bytes → Option Parameter
split_equals [] = none
split_equals (c ∷ field) = elim (c == b'=') [
  | true ↦ some ([], field)
  | false ↦ elim (split_equals field) [ none ↦ none | some (name, value) ↦ some (c ∷ name, value) ]
]

abbrev pub decode_pair : Option Parameter → List Parameter → List Parameter
decode_pair none rest = rest
decode_pair (some (name, value)) rest = (form_decode name, form_decode value) ∷ rest

-- The decoded fields of a query; a field without `=` is skipped.
unfoldable pub decode_fields : List Bytes → List Parameter
unfolding split_equals form_decode
decode_fields [] = []
decode_fields (field ∷ fields) = decode_pair (split_equals field) (decode_fields fields)
