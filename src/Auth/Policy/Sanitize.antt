-- ===== src/Auth/Policy/Sanitize.antt =====
-- src/auth/metadata_policy.cpp: `sanitize_for_diagnostics`. A position in the text is the suffix that
-- starts there, and the numbers of the decoder are below 2^32 in the source.
pub mod Clean
pub mod Length
use mcp_cpp_sdk.Prelude.{
  ℕ, zero, suc, ◌+◌, ◌*◌, ◌%◌, ◌/◌, Bool, true, false, ◌&&◌, ◌||◌, Option, none, some, List, [],
  ◌∷◌, ◌++◌, ltb, leb, ◌==◌, within, if◌then◌else◌, length, take, Bytes, codes, ◌-◌,
}

pub record Utf8Sequence : Type 0 where
  pub length : ℕ
  pub codepoint : ℕ

abbrev pub ill_formed : Utf8Sequence
ill_formed = record { length = 0; codepoint = 0 }

-- The loop over the continuation bytes, as many as the first argument says.
unfoldable pub continue_with : ℕ → ℕ → Bytes → Option ℕ
continue_with zero codepoint text = some codepoint
continue_with (suc n) codepoint [] = none
continue_with (suc n) codepoint (byte ∷ text) =
    if byte / 64 == 2 then continue_with n (codepoint * 64 + byte % 64) text else none

-- The tests at the end.
abbrev pub check : ℕ → ℕ → Utf8Sequence
check length codepoint =
    if (length == 2 && ltb codepoint 0x80)
      || ((length == 3 && ltb codepoint 0x800) || (length == 4 && ltb codepoint 0x10000))
    then ill_formed
    else if within 0xD800 0xDFFF codepoint || ltb 0x10FFFF codepoint
    then ill_formed
    else record { length = length; codepoint = codepoint }

abbrev pub checked : ℕ → Option ℕ → Utf8Sequence
checked length none = ill_formed
checked length (some codepoint) = check length codepoint

-- The masks of the lead byte are its quotients, as a byte is below 256.
unfoldable pub decode_utf8 : Bytes → Utf8Sequence
unfolding continue_with
decode_utf8 [] = ill_formed
decode_utf8 (lead ∷ text) =
    if ltb lead 0x80
    then record { length = 1; codepoint = lead }
    else if lead / 32 == 6
    then checked 2 (continue_with 1 (lead % 32) text)
    else if lead / 16 == 14
    then checked 3 (continue_with 2 (lead % 16) text)
    else if lead / 8 == 30
    then checked 4 (continue_with 3 (lead % 8) text)
    else ill_formed

unfoldable pub breaks_a_line : ℕ → Bool
breaks_a_line codepoint =
    ltb codepoint 0x20
    || (codepoint == 0x7F
        || (within 0x80 0x9F codepoint || (codepoint == 0x2028 || codepoint == 0x2029)))

unfoldable pub reorders_the_line : ℕ → Bool
reorders_the_line codepoint =
    within 0x202A 0x202E codepoint
    || (within 0x2066 0x2069 codepoint
        || (codepoint == 0x200E || (codepoint == 0x200F || codepoint == 0x061C)))

abbrev pub max_length : ℕ
max_length = 256

abbrev pub question_mark : Bytes
question_mark = codes "?"

abbrev pub space : Bytes
space = codes " "

-- What a round appends for the sequence at the start of the text.
unfoldable pub emit : Utf8Sequence → Bytes → Bytes
unfolding breaks_a_line reorders_the_line
emit decoded text =
    if decoded.length == 0
    then question_mark
    else if breaks_a_line decoded.codepoint || reorders_the_line decoded.codepoint
    then space
    else take decoded.length text

-- The width of the sequence, less the byte that the round starts with.
abbrev pub more_bytes : Utf8Sequence → ℕ
more_bytes decoded = decoded.length - 1

-- The loop: the bytes of the sequence that are left, the size of the text so far, and the rest of the
-- value, to what is appended.
unfoldable pub clean_from : ℕ → ℕ → Bytes → Bytes
unfolding decode_utf8 emit
clean_from left size [] = []
clean_from (suc left) size (byte ∷ value) = clean_from left size value
clean_from zero size (byte ∷ value) =
    let decoded = decode_utf8 (byte ∷ value) in
    let appended = emit decoded (byte ∷ value) in
    let rest = clean_from (more_bytes decoded) (size + length appended) value in
    if ltb max_length (size + suc (more_bytes decoded)) then codes "..." else appended ++ rest

unfoldable pub sanitize_for_diagnostics : Bytes → Bytes
unfolding clean_from
sanitize_for_diagnostics value = clean_from 0 0 value
