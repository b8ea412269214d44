-- ===== src/Auth/Form/Fields.antt =====
-- The fields of a form body of src/auth/oauth.cpp are the parameters it was built from, as the loop
-- of `parse_authorization_response` in src/auth/challenge.cpp takes them apart.
use mcp_cpp_sdk.Prelude.{
  ℕ, ◌/◌, ◌%◌, ◌<◌, ◌≡◌, refl, ap, sym, subst, ◌∙◌, Bool, true, false, not, ◌&&◌, some, List, [],
  ◌∷◌, ◌++◌, append_assoc, append-nil, ◌==◌, if◌then◌else◌, get_or, Bytes, All, All-append, arith,
  Bool-cases, inl, inr,
}
use mcp_cpp_sdk.Auth.Form.{
  Parameter, hex_digits_upper, is_unreserved, url_encode, is_empty, build_from, build_form_body,
  split_fields, split_equals, decode_pair, decode_fields,
}
use mcp_cpp_sdk.Auth.Form.Laws.{all_below-holds, form_decode-url_encode}

abbrev pub IsByte : ℕ → Type 0
IsByte c = c < 256

-- None of the characters that structure a form or end a query.
abbrev is_inner : ℕ → Bool
is_inner c = not (c == b'&') && (not (c == b'=') && not (c == b'#'))

abbrev IsInner : ℕ → Type 0
IsInner c = is_inner c ≡ true

abbrev InField : ℕ → Type 0
InField c = (c == b'&') ≡ false

digit-IsInner : (n : ℕ) → n < 16 → IsInner (get_or hex_digits_upper n 0)
digit-IsInner n h = all_below-holds 16 (λ k. is_inner (get_or hex_digits_upper k 0)) refl n h

is_unreserved-IsInner : (c : ℕ) → is_unreserved c ≡ true → IsInner c
is_unreserved-IsInner c h = ground (arith, h)

url_encode-All : (value : Bytes) → All IsByte value → All IsInner (url_encode value)
unfolding url_encode
url_encode-All [] h = tt
url_encode-All (c ∷ value) h = elim (Bool-cases (is_unreserved c)) [
  | inl plain ↦ rw (plain, if◌then◌else◌) (is_unreserved-IsInner c plain, url_encode-All value h.1)
  | inr other ↦
      rw (other, if◌then◌else◌)
        (
          refl,
          (
            digit-IsInner (c / 16) (omega (arith, h.0)),
            (digit-IsInner (c % 16) (omega arith), url_encode-All value h.1),
          ),
        )
]

split_equals-append :
    (name value : Bytes)
    → All IsInner name
    → split_equals (name ++ b'=' ∷ value) ≡ some (name, value)
unfolding split_equals
split_equals-append [] value h = refl
split_equals-append (c ∷ name) value h = ground (arith, h.0, split_equals-append name value h.1)

split_fields-next :
    (field : Bytes) (c : ℕ) (text : Bytes)
    → InField c
    → split_fields field (c ∷ text) ≡ split_fields (field ++ c ∷ []) text
unfolding split_fields
split_fields-next field c text h = rw (split_fields, h) refl

split_fields-append :
    (field text query : Bytes)
    → All InField text
    → split_fields field (text ++ b'&' ∷ query) ≡ (field ++ text) ∷ split_fields [] query
unfolding split_fields
split_fields-append field [] query h = ap (λ f. f ∷ split_fields [] query) (sym (append-nil field))
split_fields-append field (c ∷ text) query h =
    split_fields-next field c (text ++ b'&' ∷ query) h.0
    ∙ split_fields-append (field ++ c ∷ []) text query h.1
    ∙ ap (λ f. f ∷ split_fields [] query) (append_assoc field (c ∷ []) text)

split_fields-last :
    (c : ℕ) (field text : Bytes)
    → All InField text
    → split_fields (c ∷ field) text ≡ (c ∷ (field ++ text)) ∷ []
unfolding split_fields
split_fields-last c field [] h = ap (λ f. (c ∷ f) ∷ []) (sym (append-nil field))
split_fields-last c field (d ∷ text) h =
    split_fields-next (c ∷ field) d text h.0
    ∙ split_fields-last c (field ++ d ∷ []) text h.1
    ∙ ap (λ f. (c ∷ f) ∷ []) (append_assoc field (d ∷ []) text)

abbrev IsBytes : Parameter → Type 0
IsBytes (key, value) = All IsByte key × All IsByte value

abbrev pub AllBytes : List Parameter → Type 0
AllBytes params = All IsBytes params

abbrev pair : Bytes → Bytes → Bytes
pair key value = url_encode key ++ b'=' ∷ url_encode value

-- What the parameters after the first add to the body.
abbrev more : List Parameter → Bytes
more [] = []
more ((key, value) ∷ params) = b'&' ∷ (pair key value ++ more params)

append-nonempty : (field : Bytes) (c : ℕ) (text : Bytes) → is_empty (field ++ c ∷ text) ≡ false
append-nonempty [] c text = refl
append-nonempty (x ∷ field) c text = refl

pair-nonempty : (field key value : Bytes) → is_empty (field ++ pair key value) ≡ false
pair-nonempty field key value =
    subst (λ t. is_empty t ≡ false) (append_assoc field (url_encode key) (b'=' ∷ url_encode value))
      (append-nonempty (field ++ url_encode key) b'=' (url_encode value))

build_from-more :
    (body : Bytes) (params : List Parameter)
    → is_empty body ≡ false
    → build_from body params ≡ body ++ more params
unfolding build_from
build_from-more body [] h = sym (append-nil body)
build_from-more body ((key, value) ∷ params) h =
    rw (h, if◌then◌else◌)
      (build_from-more ((body ++ b'&' ∷ []) ++ pair key value) params
          (pair-nonempty (body ++ b'&' ∷ []) key value)
        ∙ append_assoc (body ++ b'&' ∷ []) (pair key value) (more params)
        ∙ append_assoc body (b'&' ∷ []) (pair key value ++ more params))

Inner-Field : (text : Bytes) → All IsInner text → All InField text
Inner-Field [] h = tt
Inner-Field (c ∷ text) h = (ground (arith, h.0), Inner-Field text h.1)

pair-All : (key value : Bytes) → IsBytes (key, value) → All InField (pair key value)
pair-All key value h =
    All-append InField (url_encode key) (b'=' ∷ url_encode value)
      (Inner-Field (url_encode key) (url_encode-All key h.0))
      (refl, Inner-Field (url_encode value) (url_encode-All value h.1))

split_fields-single :
    (text : Bytes) → is_empty text ≡ false → All InField text → split_fields [] text ≡ text ∷ []
split_fields-single [] e h = ground (arith, e)
split_fields-single (c ∷ text) e h =
    split_fields-next [] c text h.0 ∙ split_fields-last c [] text h.1

split_fields-pair :
    (key value : Bytes)
    → IsBytes (key, value)
    → split_fields [] (pair key value) ≡ pair key value ∷ []
split_fields-pair key value h =
    split_fields-single (pair key value) (pair-nonempty [] key value) (pair-All key value h)

decode_pair-pair :
    (key value : Bytes) (rest : List Parameter)
    → IsBytes (key, value)
    → decode_pair (split_equals (pair key value)) rest ≡ (key, value) ∷ rest
decode_pair-pair key value rest h =
    rw
      (
        split_equals-append (url_encode key) (url_encode value) (url_encode-All key h.0),
        form_decode-url_encode key h.0,
        form_decode-url_encode value h.1,
      )
      refl

decode_fields-pairs :
    (key value : Bytes) (params : List Parameter)
    → IsBytes (key, value)
    → AllBytes params
    → decode_fields (split_fields [] (pair key value ++ more params)) ≡ (key, value) ∷ params
unfolding decode_fields
decode_fields-pairs key value [] h hs =
    ap (λ t. decode_fields (split_fields [] t)) (append-nil (pair key value))
    ∙ ap decode_fields (split_fields-pair key value h)
    ∙ decode_pair-pair key value [] h
decode_fields-pairs key value ((key', value') ∷ params) h hs =
    ap decode_fields (
      split_fields-append [] (pair key value) (pair key' value' ++ more params)
        (pair-All key value h))
    ∙ decode_pair-pair key value _ h
    ∙ ap (λ ps. (key, value) ∷ ps) (decode_fields-pairs key' value' params hs.0 hs.1)

-- The decoded fields of a form body are the parameters that it was built from, in their order, if their
-- keys and values are bytes.
pub decode_fields-build_form_body :
    (params : List Parameter)
    → AllBytes params
    → decode_fields (split_fields [] (build_form_body params)) ≡ params
unfolding build_form_body build_from decode_fields split_fields
decode_fields-build_form_body [] h = refl
decode_fields-build_form_body ((key, value) ∷ params) h =
    ap (λ t. decode_fields (split_fields [] t))
      (build_from-more (pair key value) params (pair-nonempty [] key value))
    ∙ decode_fields-pairs key value params h.0 h.1

-- A body can stand in front of a fragment.
abbrev pub NotHash : ℕ → Type 0
NotHash c = (c == b'#') ≡ false

Inner-NotHash : (text : Bytes) → All IsInner text → All NotHash text
Inner-NotHash [] h = tt
Inner-NotHash (c ∷ text) h = (ground (arith, h.0), Inner-NotHash text h.1)

pair-NotHash : (key value : Bytes) → IsBytes (key, value) → All NotHash (pair key value)
pair-NotHash key value h =
    All-append NotHash (url_encode key) (b'=' ∷ url_encode value)
      (Inner-NotHash (url_encode key) (url_encode-All key h.0))
      (refl, Inner-NotHash (url_encode value) (url_encode-All value h.1))

more-NotHash : (params : List Parameter) → AllBytes params → All NotHash (more params)
more-NotHash [] h = tt
more-NotHash ((key, value) ∷ params) h = (
  refl,
  All-append NotHash (pair key value) (more params) (pair-NotHash key value h.0)
      (more-NotHash params h.1),
)

pub build_form_body-NotHash :
    (params : List Parameter) → AllBytes params → All NotHash (build_form_body params)
unfolding build_form_body build_from
build_form_body-NotHash [] h = tt
build_form_body-NotHash ((key, value) ∷ params) h =
    subst (All NotHash) (sym (build_from-more (pair key value) params (pair-nonempty [] key value)))
      (All-append NotHash (pair key value) (more params) (pair-NotHash key value h.0)
        (more-NotHash params h.1))
