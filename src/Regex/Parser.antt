-- ===== src/Regex/Parser.antt =====
-- src/core/regex.cpp: `Parser`, and the grammar from `parse` down to `parse_group`. A group nests
-- one level deeper, of which `max_nesting` are allowed: the recursion is on the levels left.
pub mod State
pub mod Escapes
pub mod Classes
use mcp_cpp_sdk.Prelude.{
  ℕ, zero, suc, ◌+◌, ◌*◌, ◌-◌, Bool, true, false, not, ◌&&◌, ◌||◌, Option, none, some, List, [],
  ◌∷◌, ◌++◌, leb, ltb, ◌==◌, within, if◌then◌else◌, length, Bytes,
}
use mcp_cpp_sdk.Regex.Program.{Op, input_start, input_end, word_boundary, not_word_boundary}
use mcp_cpp_sdk.Regex.Node.{
  Kind, Node, default_node, max_repeat_count, max_nesting, Result, ok, err, unmatched_parenthesis,
  unexpected_character, repetition_count, numbers_out_of_order, nothing_to_repeat, nested_too_deep,
  lookahead, lookbehind, group_name, invalid_group, missing_parenthesis, out_of_fuel,
}
use mcp_cpp_sdk.Regex.Machine.{is_word_character}
use State.{
  ParserState, P, ◌>>=◌, ◌>>◌, pure, fail, peek, peek_next, at_end, accept, skip, position, seek,
  remaining, add, add_char,
}
use Escapes.{parse_escape}
use Classes.{parse_class}

-- What a quantifier says: the least and the most copies.
pub record Quantifier : Type 0 where
  pub min : ℕ
  pub max : Option ℕ

-- The loop of `read_number`: the value, and how many digits it took. `max_repeat_count` keeps the
-- value far below the width of its 64 bits.
pub read_number : ℕ → ℕ → ℕ → P (ℕ × ℕ)
read_number zero value digits = pure (value, digits)
read_number (suc rounds) value digits = do
  ended ← at_end
  c ← peek
  let value' = value * 10 + (c - b'0')
  let go = do skip; read_number rounds value' (digits + 1)
  let checked = if ltb max_repeat_count value' then fail repetition_count else go
  if not ended && within b'0' b'9' c then checked else pure (value, digits)

-- Behind `{n,`.
pub read_upper : P (Option ℕ)
unfolding read_number
read_upper = do
  rounds ← remaining
  (value, digits) ← read_number rounds 0 0
  pure (if digits == 0 then none else some value)

abbrev is_below : Option ℕ → ℕ → Bool
is_below none low = false
is_below (some high) low = ltb high low

-- `{n}`, `{n,}` or `{n,m}` behind `{n`; `start` is the place of the brace.
pub close_braces : ℕ → ℕ → Option ℕ → P (Option Quantifier)
close_braces start low high = do
  closed ← accept b'}'
  let result =
      if is_below high low
      then fail numbers_out_of_order
      else pure (some (record { min = low; max = high }))
  if closed then result else (do seek start; pure none)

-- `parse_braces`: nothing, with the position unchanged, when this is no quantifier.
pub parse_braces : P (Option Quantifier)
unfolding read_number read_upper close_braces
parse_braces = do
  start ← position
  skip
  rounds ← remaining
  (low, digits) ← read_number rounds 0 0
  let rest = do
    comma ← accept b','
    high ← if comma then read_upper else pure (some low)
    close_braces start low high
  if digits == 0 then (do seek start; pure none) else rest

abbrev quantifier : ℕ → Option ℕ → Option Quantifier
quantifier low high = some (record { min = low; max = high })

-- The quantifier at this position, if there is one.
pub parse_quantifier : P (Option Quantifier)
unfolding parse_braces
parse_quantifier = do
  c ← peek
  if c == b'*'
      then (do skip; pure (quantifier 0 none))
      else if c == b'+'
      then (do skip; pure (quantifier 1 none))
      else if c == b'?'
      then (do skip; pure (quantifier 0 (some 1)))
      else if c == b'{'
      then parse_braces
      else pure none

abbrev is_assertion : ℕ → ℕ → Bool
is_assertion c d = c == b'^' || c == b'$' || (c == b'\\' && (d == b'b' || d == b'B'))

-- `{` as an atom: a quantifier here has nothing to repeat.
pub parse_brace_atom : P ℕ
unfolding parse_braces
parse_brace_atom = do
  found ← parse_braces
  let literal = do skip; add_char b'{'
  elim found [ some q ↦ fail nothing_to_repeat | none ↦ literal ]

-- `while (!at_end() && (is_word_character(peek()) || peek() == '$'))`
pub skip_name : ℕ → P (Unit {0})
skip_name zero = pure tt
skip_name (suc rounds) = do
  ended ← at_end
  c ← peek
  let more = do skip; skip_name rounds
  if not ended && (is_word_character c || c == b'$') then more else pure tt

-- Behind `(?<`.
pub parse_name : P (Unit {0})
unfolding skip_name
parse_name = do
  start ← position
  rounds ← remaining
  skip_name rounds
  now ← position
  let close = do closed ← accept b'>'; if closed then pure tt else fail group_name
  if now == start then fail group_name else close

-- Behind `(?`.
pub parse_group_kind : P (Unit {0})
unfolding parse_name
parse_group_kind = do
  plain ← accept b':'
  c ← peek
  d ← peek_next
  let named = do angle ← accept b'<'; if angle then parse_name else fail invalid_group
  if plain
      then pure tt
      else if c == b'=' || c == b'!'
      then fail lookahead
      else if c == b'<' && (d == b'=' || d == b'!')
      then fail lookbehind
      else named

module _ (inner : Option (P ℕ)) where
  -- `parse_group`; `inner` parses what a group holds, and there is none at the deepest level.
  parse_group_inside : Option (P ℕ) → P ℕ
  unfolding parse_group_kind
  parse_group_inside none = fail nested_too_deep
  parse_group_inside (some alternation) = do
    skip
    special ← accept b'?'
    if special then parse_group_kind else pure tt
    root ← alternation
    closed ← accept b')'
    if closed then pure root else fail missing_parenthesis

  pub parse_atom : P ℕ
  unfolding parse_group_inside parse_class parse_escape parse_brace_atom
  parse_atom = do
    c ← peek
    if c == b'('
        then parse_group_inside inner
        else if c == b'['
        then (do skip; parse_class)
        else if c == b'.'
        then (do skip; add (record default_node { kind = Kind.any }))
        else if c == b'^' || c == b'$'
        then (do
          skip
          add (record default_node {
            kind = Kind.assertion;
            assertion = if c == b'^' then input_start else input_end;
          }))
        else if c == b'\\'
        then (do skip; parse_escape)
        else if c == b'*' || c == b'+' || c == b'?'
        then fail nothing_to_repeat
        else if c == b'{'
        then parse_brace_atom
        else (do skip; add_char c)

  -- What a repeated atom becomes.
  repeat_atom : Bool → ℕ → Option Quantifier → P ℕ
  repeat_atom assertion atom none = pure atom
  repeat_atom assertion atom (some q) = do
    if assertion then fail nothing_to_repeat else pure tt
    accept b'?'
    add (record default_node { kind = Kind.repeat; children = atom ∷ []; min = q.min; max = q.max })

  pub parse_repeat : P ℕ
  unfolding parse_atom parse_quantifier repeat_atom
  parse_repeat = do
    c ← peek
    d ← peek_next
    atom ← parse_atom
    found ← parse_quantifier
    repeat_atom (is_assertion c d) atom found

  -- The children of a concatenation become one node.
  concat_node : List ℕ → P ℕ
  concat_node [] = add default_node
  concat_node (child ∷ []) = pure child
  concat_node (child ∷ next ∷ children) =
      add (record default_node { kind = Kind.concat; children = child ∷ next ∷ children })

  concat_goes : P Bool
  concat_goes = do ended ← at_end; c ← peek; pure (not ended && not (c == b'|') && not (c == b')'))

  -- The loop of `parse_concat`. Each round reads a character, so the rounds do not run out.
  pub parse_concat_from : ℕ → List ℕ → P ℕ
  unfolding parse_repeat concat_node concat_goes
  parse_concat_from zero children = do
    going ← concat_goes
    if going then fail out_of_fuel else concat_node children
  parse_concat_from (suc rounds) children = do
    going ← concat_goes
    let more = do child ← parse_repeat; parse_concat_from rounds (children ++ child ∷ [])
    if going then more else concat_node children

  pub parse_concat : P ℕ
  unfolding parse_concat_from
  parse_concat = do rounds ← remaining; parse_concat_from rounds []

  alternation_node : List ℕ → P ℕ
  alternation_node (only ∷ []) = pure only
  alternation_node alternatives =
      add (record default_node { kind = Kind.alternation; children = alternatives })

  -- The loop `while (accept('|'))` of `parse_alternation`.
  pub parse_alternatives : ℕ → List ℕ → P ℕ
  unfolding parse_concat alternation_node
  parse_alternatives zero alternatives = do
    another ← accept b'|'
    if another then fail out_of_fuel else alternation_node alternatives
  parse_alternatives (suc rounds) alternatives = do
    another ← accept b'|'
    let more = do next ← parse_concat; parse_alternatives rounds (alternatives ++ next ∷ [])
    if another then more else alternation_node alternatives

  pub parse_alternation_in : P ℕ
  unfolding parse_alternatives
  parse_alternation_in = do
    first ← parse_concat
    rounds ← remaining
    parse_alternatives rounds (first ∷ [])

-- `parse_alternation(depth)`, by the levels that are left of `max_nesting`.
pub parse_alternation : ℕ → P ℕ
unfolding parse_alternation_in
parse_alternation zero = parse_alternation_in none
parse_alternation (suc levels) = parse_alternation_in (some (parse_alternation levels))

unfoldable pub parse : P ℕ
unfolding parse_alternation
parse = do
  root ← parse_alternation max_nesting
  ended ← at_end
  c ← peek
  if ended
      then pure root
      else if c == b')'
      then fail unmatched_parenthesis
      else fail unexpected_character

-- The constructor of `Parser`, on decoded text.
abbrev pub initial : List ℕ → ParserState
initial text = record { text = text; pos = 0; nodes = []; classes = [] }
