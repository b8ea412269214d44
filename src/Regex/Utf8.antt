-- ===== src/Regex/Utf8.antt =====
-- src/core/regex.cpp: `decode_utf8` and the loop that decodes a whole text. A position in the text
-- is the suffix that starts there. `(b & 0xE0) == 0xC0` and its kin are written by division.
pub mod Laws
use mcp_cpp_sdk.Prelude.{
  ℕ, zero, suc, ◌+◌, ◌*◌, ◌/◌, ◌%◌, Bool, not, ◌||◌, Option, none, some, List, [], ◌∷◌, ltb, ◌==◌,
  within, if◌then◌else◌, length, Bytes,
}
use mcp_cpp_sdk.Regex.Ranges.{max_code_point}

abbrev pub replacement_character : ℕ
replacement_character = 0xFFFD

-- `for (i = 1; i < length; ++i)`: `count` bytes are left to read.
pub continuation : ℕ → ℕ → Bytes → Option (ℕ × Bytes)
continuation zero value text = some (value, text)
continuation (suc count) value [] = none
continuation (suc count) value (byte ∷ text) =
    let rest = continuation count (value * 64 + byte % 64) text in
    if not (byte / 64 == 2) then none else rest

abbrev pub is_surrogate : ℕ → Bool
is_surrogate = within 0xD800 0xDFFF

pub check_value : ℕ → Bytes → Option (ℕ × Bytes) → ℕ × Bytes
check_value minimum text none = (replacement_character, text)
check_value minimum text (some (value, rest)) =
    if ltb value minimum || ltb max_code_point value || is_surrogate value
    then (replacement_character, text)
    else (value, rest)

-- A lead byte that announces `count` more; `text` stands behind the lead byte.
pub decode_long : ℕ → ℕ → ℕ → Bytes → ℕ × Bytes
unfolding continuation check_value
decode_long count value minimum text =
    if ltb (length text) count
    then (replacement_character, text)
    else check_value minimum text (continuation count value text)

unfoldable pub decode_utf8 : ℕ → Bytes → ℕ × Bytes
unfolding decode_long
decode_utf8 lead text =
    if ltb lead 0x80
    then (lead, text)
    else if lead / 32 == 6
    then decode_long 1 (lead % 32) 0x80 text
    else if lead / 16 == 14
    then decode_long 2 (lead % 16) 0x800 text
    else if lead / 8 == 30
    then decode_long 3 (lead % 8) 0x10000 text
    else (replacement_character, text)

-- `while (pos < pattern.size())`, on fuel: each round reads at least one byte.
unfoldable pub decode_from : ℕ → Bytes → List ℕ
unfolding decode_utf8
decode_from fuel [] = []
decode_from zero (lead ∷ text) = []
decode_from (suc fuel) (lead ∷ text) =
    let (c, rest) = decode_utf8 lead text in c ∷ decode_from fuel rest

abbrev pub decode_text : Bytes → List ℕ
decode_text text = decode_from (length text) text
