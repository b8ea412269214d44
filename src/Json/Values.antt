-- ===== src/Json/Values.antt =====
-- How the scanner of src/detail/jsonrpc_envelope.hpp skips whitespace and whole values.
use mcp_cpp_sdk.Prelude.{
  ℕ, ◌≡◌, refl, ap, ◌∙◌, true, false, some, [], ◌∷◌, ◌++◌, append_assoc, length-append,
  if◌then◌else◌, Bytes, All, arith,
}
use mcp_cpp_sdk.Json.Syntax.{
  quote, parts_text, Json, scalar, string, array, object, dump, items_text, members_text,
  IsScalarChar, IsJson, IsBlank,
}
use mcp_cpp_sdk.Json.Depth.{outside, opens, closes, other, effect}
use mcp_cpp_sdk.Json.Envelope.{
  is_json_blank, skip_json_whitespace, skip_string_from, skip_json_string, skip_nested, ends_scalar,
  skip_scalar, skip_json_value, same_length,
}
use mcp_cpp_sdk.Json.Scan.{
  skip_string_from-parts, Balanced, skip_nested-opens, skip_nested-last, Balanced-items,
  Balanced-members,
}

-- A text in front of which a number or a literal ends.
abbrev pub Ends : Bytes → Type 0
Ends [] = Unit
Ends (c ∷ text) = ends_scalar c ≡ true

pub Ends-blank : (blank text : Bytes) → All IsBlank blank → Ends text → Ends (blank ++ text)
Ends-blank [] text h e = e
Ends-blank (c ∷ blank) text h e = ground (arith, h.0)

pub skip_json_whitespace-blank :
    (blank text : Bytes)
    → All IsBlank blank
    → skip_json_whitespace (blank ++ text) ≡ skip_json_whitespace text
unfolding skip_json_whitespace
skip_json_whitespace-blank [] text h = refl
skip_json_whitespace-blank (c ∷ blank) text h =
    let skips : is_json_blank c ≡ true = ground (arith, h.0) in
    rw (skips, if◌then◌else◌) (skip_json_whitespace-blank blank text h.1)

skip_scalar-Ends : (text : Bytes) → Ends text → skip_scalar text ≡ text
unfolding skip_scalar
skip_scalar-Ends [] e = refl
skip_scalar-Ends (c ∷ text) e = rw (e, if◌then◌else◌) refl

skip_scalar-append :
    (xs text : Bytes) → All IsScalarChar xs → Ends text → skip_scalar (xs ++ text) ≡ text
unfolding skip_scalar
skip_scalar-append [] text h e = skip_scalar-Ends text e
skip_scalar-append (c ∷ xs) text h e =
    let goes : ends_scalar c ≡ false = ground (arith, h.0) in
    rw (goes, if◌then◌else◌) (skip_scalar-append xs text h.1 e)

skip_nested-value :
    (first last : ℕ) (xs text : Bytes)
    → effect first ≡ opens
    → effect last ≡ closes
    → Balanced xs
    → skip_nested outside 0 ((first ∷ (xs ++ last ∷ [])) ++ text) ≡ some text
skip_nested-value first last xs text ho hc h =
    skip_nested-opens first 0 ((xs ++ last ∷ []) ++ text) ho
    ∙ ap (skip_nested outside 1) (append_assoc xs (last ∷ []) text)
    ∙ h 0 (last ∷ text)
    ∙ skip_nested-last last text hc

-- A value is skipped as a whole.
pub skip_json_value-dump :
    (value : Json) (text : Bytes)
    → IsJson value
    → Ends text
    → skip_json_value (dump value ++ text) ≡ some text
unfolding skip_json_value skip_json_string
skip_json_value-dump (scalar c xs) text h e =
    let plain : effect c ≡ other = ground (arith, h.0) in
    rw (skip_json_value, plain) (ap some (skip_scalar-append (c ∷ xs) text h e))
skip_json_value-dump (string ps) text h e =
    ap (skip_string_from false) (append_assoc (parts_text ps) (quote ∷ []) text)
    ∙ skip_string_from-parts ps text h
skip_json_value-dump (array items) text h e =
    skip_nested-value b'[' b']' (items_text items) text refl refl (Balanced-items items h)
skip_json_value-dump (object members) text h e =
    skip_nested-value b'{' b'}' (members_text members) text refl refl (Balanced-members members h)

pub skip_json_whitespace-dump :
    (value : Json) (text : Bytes)
    → IsJson value
    → skip_json_whitespace (dump value ++ text) ≡ dump value ++ text
unfolding skip_json_whitespace
skip_json_whitespace-dump (scalar c xs) text h =
    let solid : is_json_blank c ≡ false = ground (arith, h.0) in rw (solid, if◌then◌else◌) refl
skip_json_whitespace-dump (string ps) text h = refl
skip_json_whitespace-dump (array items) text h = refl
skip_json_whitespace-dump (object members) text h = refl

pub dump-nonempty : (value : Json) (text : Bytes) → same_length text (dump value ++ text) ≡ false
dump-nonempty (scalar c xs) text = ground (arith, length-append xs text)
dump-nonempty (string ps) text = ground (arith, length-append (parts_text ps ++ quote ∷ []) text)
dump-nonempty (array items) text =
    ground (arith, length-append (items_text items ++ b']' ∷ []) text)
dump-nonempty (object members) text =
    ground (arith, length-append (members_text members ++ b'}' ∷ []) text)
