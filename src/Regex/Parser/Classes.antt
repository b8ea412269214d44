-- ===== src/Regex/Parser/Classes.antt =====
-- src/core/regex.cpp: `parse_class_atom` and `parse_class`.
use mcp_cpp_sdk.Prelude.{
  ℕ, zero, suc, true, not, ◌&&◌, List, [], ◌∷◌, ◌++◌, ltb, ◌==◌, if◌then◌else◌,
}
use mcp_cpp_sdk.Regex.Ranges.{Range, complement}
use mcp_cpp_sdk.Regex.Node.{missing_bracket, range_out_of_order}
use mcp_cpp_sdk.Regex.Parser.State.{
  P, ◌>>=◌, ◌>>◌, pure, fail, peek, peek_next, at_end, accept, skip, remaining, add_class,
}
use mcp_cpp_sdk.Regex.Parser.Escapes.{ClassAtom, code_point, set, parse_escape_atom}

pub parse_class_atom : P ClassAtom
unfolding parse_escape_atom
parse_class_atom = do
  ended ← at_end
  let plain = do c ← peek; skip; pure (code_point c)
  let atom = do escaped ← accept b'\\'; if escaped then parse_escape_atom true else plain
  if ended then fail missing_bracket else atom

abbrev range : ℕ → ℕ → Range
range a b = record { first = a; last = b }

-- The ranges of one atom alone.
abbrev pub atom_ranges : ClassAtom → List Range
atom_ranges (code_point c) = range c c ∷ []
atom_ranges (set ranges) = ranges

-- The ranges of `low-high`; a set on either side makes the `-` a literal.
pub dashed_ranges : ClassAtom → ClassAtom → P (List Range)
dashed_ranges (code_point low) (code_point high) =
    if ltb high low then fail range_out_of_order else pure (range low high ∷ [])
dashed_ranges low high = pure (atom_ranges low ++ atom_ranges high ++ range b'-' b'-' ∷ [])

-- One round of `while (!accept(']'))`, behind the test.
pub parse_class_item : P (List Range)
unfolding parse_class_atom dashed_ranges
parse_class_item = do
  low ← parse_class_atom
  c ← peek
  d ← peek_next
  let dashed = do skip; high ← parse_class_atom; dashed_ranges low high
  if c == b'-' && not (d == b']') && not (d == 0) then dashed else pure (atom_ranges low)

-- The loop. Each round reads a character, so the characters left are rounds enough; behind the last
-- of them the class is not closed.
pub parse_class_items : ℕ → List Range → P (List Range)
unfolding parse_class_item
parse_class_items zero ranges = do
  closed ← accept b']'
  if closed then pure ranges else fail missing_bracket
parse_class_items (suc rounds) ranges = do
  closed ← accept b']'
  let more = do item ← parse_class_item; parse_class_items rounds (ranges ++ item)
  if closed then pure ranges else more

-- Behind the `[`.
unfoldable pub parse_class : P ℕ
unfolding parse_class_items
parse_class = do
  negated ← accept b'^'
  rounds ← remaining
  ranges ← parse_class_items rounds []
  add_class (if negated then complement ranges else ranges)
