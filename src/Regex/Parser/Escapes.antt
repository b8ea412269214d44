-- ===== src/Regex/Parser/Escapes.antt =====
-- src/core/regex.cpp: `parse_hex`, `parse_unicode_escape`, `parse_escape_atom`, `parse_escape`.
use mcp_cpp_sdk.Prelude.{
  ℕ, zero, suc, ◌+◌, ◌-◌, ◌*◌, ◌%◌, ◌^◌, Bool, false, not, ◌&&◌, ◌||◌, Option, none, some, List,
  ltb, ◌==◌, within, if◌then◌else◌,
}
use mcp_cpp_sdk.Regex.Ranges.{
  Range, max_code_point, complement, digit_ranges, word_ranges, space_ranges,
}
use mcp_cpp_sdk.Regex.Program.{word_boundary, not_word_boundary}
use mcp_cpp_sdk.Regex.Node.{
  Kind, default_node, invalid_hex, code_point_range, invalid_unicode_braces, escape_at_end,
  octal_escape, invalid_control, property_escape, backreference, unknown_escape,
}
use mcp_cpp_sdk.Regex.Machine.{is_word_character}
use mcp_cpp_sdk.Regex.Parser.State.{
  P, ◌>>=◌, ◌>>◌, pure, fail, peek, peek_next, at_end, accept, skip, position, seek, remaining, add,
  add_char, add_class,
}

-- One of the two fields of the source's `ClassAtom` is set: a code point, or a predefined set.
pub data ClassAtom : Type 0 where
  code_point : ℕ → ClassAtom
  set : List Range → ClassAtom

pub hex_digit : ℕ → Option ℕ
hex_digit h =
    if within b'0' b'9' h
    then some (h - b'0')
    else if within b'a' b'f' h
    then some (h - b'a' + 10)
    else if within b'A' b'F' h
    then some (h - b'A' + 10)
    else none

abbrev hex_or_fail : Option ℕ → P ℕ
hex_or_fail none = fail invalid_hex
hex_or_fail (some nibble) = do skip; pure nibble

-- `parse_hex`, with the value so far. A `std::uint32_t` takes up to eight digits.
pub parse_hex_from : ℕ → ℕ → P ℕ
unfolding hex_digit
parse_hex_from zero value = pure value
parse_hex_from (suc digits) value = do
  h ← peek
  nibble ← hex_or_fail (hex_digit h)
  parse_hex_from digits ((value * 16 + nibble) % 2 ^ 32)

abbrev pub parse_hex : ℕ → P ℕ
parse_hex digits = parse_hex_from digits 0

-- `while (!at_end() && peek() != '}')`; at most the characters left are read.
pub parse_braced : ℕ → ℕ → ℕ → P (ℕ × ℕ)
unfolding parse_hex_from
parse_braced zero value digits = pure (value, digits)
parse_braced (suc rounds) value digits = do
  ended ← at_end
  c ← peek
  let go = do
    nibble ← parse_hex 1
    let value' = (value * 16 + nibble) % 2 ^ 32
    let rest = parse_braced rounds value' (digits + 1)
    if ltb 6 (digits + 1) || ltb max_code_point value' then fail code_point_range else rest
  if not ended && not (c == b'}') then go else pure (value, digits)

abbrev low_surrogate : ℕ → Bool
low_surrogate = within 0xDC00 0xDFFF

-- A second `\u` behind a high surrogate: the pair, or the high surrogate alone.
pub parse_low_surrogate : ℕ → P ℕ
parse_low_surrogate value = do
  save ← position
  skip
  skip
  low ← parse_hex 4
  if low_surrogate low
      then pure (0x10000 + (value - 0xD800) * 2 ^ 10 + (low - 0xDC00))
      else (do seek save; pure value)

-- `\u{H...}`, behind the brace.
pub braced_escape : P ℕ
unfolding parse_braced
braced_escape = do
  rounds ← remaining
  (value, digits) ← parse_braced rounds 0 0
  let closing = do closed ← accept b'}'; if closed then pure value else fail invalid_unicode_braces
  if digits == 0 then fail invalid_unicode_braces else closing

-- `\uHHHH`, or a surrogate pair written as two of them.
pub plain_escape : P ℕ
unfolding parse_low_surrogate
plain_escape = do
  value ← parse_hex 4
  c ← peek
  d ← peek_next
  if within 0xD800 0xDBFF value && c == b'\\' && d == b'u'
      then parse_low_surrogate value
      else pure value

pub parse_unicode_escape : P ℕ
unfolding braced_escape plain_escape
parse_unicode_escape = do braced ← accept b'{'; if braced then braced_escape else plain_escape

abbrev code : ℕ → P ClassAtom
code c = pure (code_point c)

-- What stands behind the switch: digits, unknown letters, and escaped punctuation.
pub parse_other_escape : Bool → ℕ → P ClassAtom
parse_other_escape in_class c =
    if within b'1' b'9' c
    then fail (if in_class then octal_escape else backreference)
    else if is_word_character c
    then fail unknown_escape
    else code c

abbrev is_letter : ℕ → Bool
is_letter c = within b'a' b'z' c || within b'A' b'Z' c

pub parse_control : P ClassAtom
parse_control = do
  letter ← peek
  if is_letter letter then (do skip; code (letter % 32)) else fail invalid_control

pub parse_null : P ClassAtom
parse_null = do c ← peek; if within b'0' b'9' c then fail octal_escape else code 0

-- The cases of the switch that read nothing more.
pub simple_escape : ℕ → Option ClassAtom
simple_escape c =
    if c == b'd'
    then some (set digit_ranges)
    else if c == b'D'
    then some (set (complement digit_ranges))
    else if c == b'w'
    then some (set word_ranges)
    else if c == b'W'
    then some (set (complement word_ranges))
    else if c == b's'
    then some (set space_ranges)
    else if c == b'S'
    then some (set (complement space_ranges))
    else if c == b't'
    then some (code_point 0x09)
    else if c == b'n'
    then some (code_point 0x0A)
    else if c == b'v'
    then some (code_point 0x0B)
    else if c == b'f'
    then some (code_point 0x0C)
    else if c == b'r'
    then some (code_point 0x0D)
    else if c == b'-'
    then some (code_point b'-')
    else none

abbrev as_code : P ℕ → P ClassAtom
as_code m = do c ← m; code c

-- The cases that read more or fail.
pub parse_reading_escape : Bool → ℕ → P ClassAtom
unfolding parse_null parse_control parse_hex_from parse_unicode_escape parse_other_escape
parse_reading_escape in_class c =
    if c == b'0'
    then parse_null
    else if c == b'c'
    then parse_control
    else if c == b'x'
    then as_code (parse_hex 2)
    else if c == b'u'
    then as_code parse_unicode_escape
    else if c == b'p' || c == b'P'
    then fail property_escape
    else if c == b'k'
    then fail backreference
    else if c == b'b' && in_class
    then code 0x08
    else parse_other_escape in_class c

pub parse_escape_switch : Bool → ℕ → Option ClassAtom → P ClassAtom
unfolding parse_reading_escape
parse_escape_switch in_class c none = parse_reading_escape in_class c
parse_escape_switch in_class c (some atom) = pure atom

unfoldable pub parse_escape_atom : Bool → P ClassAtom
unfolding simple_escape parse_escape_switch
parse_escape_atom in_class = do
  ended ← at_end
  c ← peek
  let rest = do skip; parse_escape_switch in_class c (simple_escape c)
  if ended then fail escape_at_end else rest

abbrev add_atom : ClassAtom → P ℕ
add_atom (code_point c) = add_char c
add_atom (set ranges) = add_class ranges

unfoldable pub parse_escape : P ℕ
unfolding parse_escape_atom
parse_escape = do
  c ← peek
  let boundary = do
    skip
    add (record default_node {
      kind = Kind.assertion;
      assertion = if c == b'B' then not_word_boundary else word_boundary;
    })
  let other = do atom ← parse_escape_atom false; add_atom atom
  if c == b'b' || c == b'B' then boundary else other
