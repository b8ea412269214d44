-- ===== src/Regex/Compiler.antt =====
-- src/core/regex.cpp: `Compiler`, on the node list, and the constructor of `Regex` behind the
-- parser. `compile` recurs on fuel, since a child is found by its index.
pub mod Bounds
pub mod Inside
pub mod Runs
use mcp_cpp_sdk.Prelude.{
  ℕ, zero, suc, ◌+◌, ◌-◌, Bool, true, false, Option, none, some, List, [], ◌∷◌, ◌++◌, leb, ◌==◌,
  if◌then◌else◌, length, get_elem?,
}
use mcp_cpp_sdk.Regex.Program.{Op, char, any, class, split, jump, input_start, match, Instruction}
use mcp_cpp_sdk.Regex.Node.{
  Kind, Node, max_program_size, Result, ok, err, program_too_large, out_of_fuel, ◌>>=◌,
}

abbrev pub Program : Type 0
Program = List Instruction

abbrev pub instruction : Op → ℕ → ℕ → Instruction
instruction op a b = record { op = op; arg1 = a; arg2 = b }

-- The new instruction's index is the size before.
pub emit : Instruction → Program → Result Program
emit i program =
    if leb max_program_size (length program) then err program_too_large else ok (program ++ i ∷ [])

-- `program_[at].arg1 = value`
pub set_arg1 : ℕ → ℕ → Program → Program
set_arg1 at value [] = []
set_arg1 zero value (i ∷ is) = record i { arg1 = value } ∷ is
set_arg1 (suc at) value (i ∷ is) = i ∷ set_arg1 at value is

pub set_arg2 : ℕ → ℕ → Program → Program
set_arg2 at value [] = []
set_arg2 zero value (i ∷ is) = record i { arg2 = value } ∷ is
set_arg2 (suc at) value (i ∷ is) = i ∷ set_arg2 at value is

pub set_all_arg1 : List ℕ → ℕ → Program → Program
unfolding set_arg1
set_all_arg1 [] value program = program
set_all_arg1 (j ∷ js) value program = set_all_arg1 js value (set_arg1 j value program)

pub set_all_arg2 : List ℕ → ℕ → Program → Program
unfolding set_arg2
set_all_arg2 [] value program = program
set_all_arg2 (j ∷ js) value program = set_all_arg2 js value (set_arg2 j value program)

-- A `split` whose first way is the next instruction; the second is patched later.
pub emit_split : Program → Result Program
unfolding emit set_arg1
emit_split program = do
  after ← emit (instruction split 0 0) program
  ok (set_arg1 (length program) (length after) after)

module _ (compile_child : ℕ → Program → Result Program) where
  -- `for (auto child : node.children)`
  pub compile_concat : List ℕ → Program → Result Program
  compile_concat [] program = ok program
  compile_concat (child ∷ children) program = do
    after ← compile_child child program
    compile_concat children after

  -- The alternatives but the last, with the jumps made so far; `node.children.back()` is compiled
  -- behind them, and all jumps go to the end.
  pub compile_alternatives : List ℕ → List ℕ → Program → Result Program
  unfolding emit_split set_all_arg1 set_arg2
  compile_alternatives [] jumps program = ok program
  compile_alternatives (child ∷ []) jumps program = do
    after ← compile_child child program
    ok (set_all_arg1 jumps (length after) after)
  compile_alternatives (child ∷ next ∷ children) jumps program = do
    opened ← emit_split program
    body ← compile_child child opened
    jumped ← emit (instruction jump 0 0) body
    compile_alternatives (next ∷ children) (jumps ++ length body ∷ [])
        (set_arg2 (length program) (length jumped) jumped)

  -- `for (i = 0; i < node.min; ++i)`, which stops when the operand compiles to nothing.
  pub repeat_min : ℕ → ℕ → Program → Result Program
  repeat_min zero child program = ok program
  repeat_min (suc n) child program = do
    after ← compile_child child program
    let rest = repeat_min n child after
    if length after == length program then ok after else rest

  -- The optional copies, with the splits made so far.
  pub repeat_optional : ℕ → ℕ → List ℕ → Program → Result Program
  unfolding emit_split set_all_arg2
  repeat_optional zero child splits program = ok (set_all_arg2 splits (length program) program)
  repeat_optional (suc n) child splits program = do
    opened ← emit_split program
    after ← compile_child child opened
    repeat_optional n child (splits ++ length program ∷ []) after

  -- L1: split L2, L3; L2: child; jump L1; L3:
  pub repeat_unbounded : ℕ → Program → Result Program
  unfolding emit_split set_arg2
  repeat_unbounded child program = do
    opened ← emit_split program
    body ← compile_child child opened
    jumped ← emit (instruction jump (length program) 0) body
    ok (set_arg2 (length program) (length jumped) jumped)

  pub repeat_rest : Option ℕ → ℕ → ℕ → Program → Result Program
  unfolding repeat_unbounded repeat_optional
  repeat_rest none least child program = repeat_unbounded child program
  repeat_rest (some most) least child program = repeat_optional (most - least) child [] program

  -- `node.children.front()`; a repeat node always has one child.
  pub compile_repeat : List ℕ → Node → Program → Result Program
  unfolding repeat_min repeat_rest
  compile_repeat [] node program = ok program
  compile_repeat (child ∷ children) node program = do
    after ← repeat_min node.min child program
    repeat_rest node.max node.min child after

  pub compile_kind : Kind → Node → Program → Result Program
  unfolding compile_concat compile_alternatives compile_repeat emit
  compile_kind Kind.empty node program = ok program
  compile_kind Kind.char node program = emit (instruction char node.code_point 0) program
  compile_kind Kind.any node program = emit (instruction any 0 0) program
  compile_kind Kind.class node program = emit (instruction class node.class_index 0) program
  compile_kind Kind.assertion node program = emit (instruction node.assertion 0 0) program
  compile_kind Kind.concat node program = compile_concat node.children program
  compile_kind Kind.alternation node program = compile_alternatives node.children [] program
  compile_kind Kind.repeat node program = compile_repeat node.children node program

-- An index outside the list compiles to nothing.
pub compile : List Node → ℕ → ℕ → Program → Result Program
unfolding compile_kind
compile nodes zero index program = err out_of_fuel
compile nodes (suc fuel) index program = elim (get_elem? nodes index) [
  | none ↦ ok program
  | some node ↦ compile_kind (compile nodes fuel) node.kind node program
]

-- What the constructor of `Regex` makes of a parsed pattern: the code behind the root, and `match`.
unfoldable pub compile_root : List Node → ℕ → Result Program
unfolding compile emit
compile_root nodes root = do
  program ← compile nodes (length nodes) root []
  emit (instruction match 0 0) program

-- `program->instructions.front().op == Op::eInputStart`
unfoldable pub starts_anchored : Program → Bool
starts_anchored [] = false
starts_anchored (i ∷ is) = elim i.op [ input_start ↦ true | _ ↦ false ]
