-- ===== src/Regex/Machine.antt =====
-- src/core/regex.cpp: `Regex::search`, the breadth-first simulation of the program. The input is the
-- list of its decoded code points: `search` decodes one code point ahead, and the decoder has no
-- effect. A program counter outside the program does nothing here.
pub mod Closure
pub mod Rounds
pub mod Accepts
pub mod Matching
use mcp_cpp_sdk.Prelude.{
  ℕ, zero, suc, ◌+◌, ◌-◌, ◌*◌, Bool, true, false, not, ◌&&◌, ◌||◌, Option, none, some, List, [],
  ◌∷◌, ◌++◌, ltb, ◌==◌, within, if◌then◌else◌, length, get_elem?, get_or, Bytes,
}
use mcp_cpp_sdk.Regex.Ranges
use mcp_cpp_sdk.Regex.Utf8.{decode_text}
use mcp_cpp_sdk.Regex.Program.{
  Op, char, any, class, split, jump, input_start, input_end, word_boundary, not_word_boundary,
  match, Instruction, RegexProgram,
}
use mcp_cpp_sdk.Regex.ThreadList
use mcp_cpp_sdk.Regex.ThreadList.{ThreadList}

unfoldable pub is_word_character : ℕ → Bool
is_word_character c = within b'a' b'z' c || within b'A' b'Z' c || within b'0' b'9' c || c == b'_'

unfoldable pub is_line_terminator : ℕ → Bool
is_line_terminator c = c == b'\n' || c == b'\r' || c == 0x2028 || c == 0x2029

pub record Position : Type 0 where
  pub at_start : Bool
  pub at_end : Bool
  pub previous_is_word : Bool
  pub next_is_word : Bool

abbrev pub xor : Bool → Bool → Bool
xor true b = not b
xor false b = b

-- What one zero-width instruction at `pc` pushes, the top of the stack first.
abbrev pub pushed : Op → Instruction → ℕ → Position → List ℕ
pushed jump i pc here = i.arg1 ∷ []
pushed split i pc here = i.arg1 ∷ i.arg2 ∷ []
pushed input_start i pc here = if here.at_start then (pc + 1) ∷ [] else []
pushed input_end i pc here = if here.at_end then (pc + 1) ∷ [] else []
pushed word_boundary i pc here =
    if xor here.previous_is_word here.next_is_word then (pc + 1) ∷ [] else []
pushed not_word_boundary i pc here =
    if xor here.previous_is_word here.next_is_word then [] else (pc + 1) ∷ []
pushed _ i pc here = []

unfoldable pub pushes : List Instruction → Position → ℕ → List ℕ
pushes program here pc = elim (get_elem? program pc) [ none ↦ [] | some i ↦ pushed i.op i pc here ]

abbrev pub is_match_op : Op → Bool
is_match_op match = true
is_match_op _ = false

pub is_match : List Instruction → ℕ → Bool
is_match program pc = elim (get_elem? program pc) [ none ↦ false | some i ↦ is_match_op i.op ]

-- The state of the `while (!stack.empty())` loop of `add_thread`.
pub record Walk : Type 0 where
  pub stack : List ℕ
  pub list : ThreadList
  pub matched : Bool

-- The loop on fuel; it has ended exactly if the stack of its result is empty.
pub walk_from : List Instruction → Position → ℕ → List ℕ → ThreadList → Bool → Walk
walk_from program here fuel [] t m = record { stack = []; list = t; matched = m }
walk_from program here zero (pc ∷ stack) t m = record { stack = pc ∷ stack; list = t; matched = m }
walk_from program here (suc fuel) (pc ∷ stack) t m = elim (ThreadList.contains t pc) [
  | true ↦ walk_from program here fuel stack t m
  | false ↦
      walk_from program here fuel (pushes program here pc ++ stack) (ThreadList.insert t pc)
        (m || is_match program pc)
]

abbrev pub walk_fuel : List Instruction → ℕ
walk_fuel program = 2 * length program + 1

pub add_thread : List Instruction → Position → ThreadList → ℕ → Walk
unfolding walk_from pushes is_match
add_thread program here t start = walk_from program here (walk_fuel program) (start ∷ []) t false

abbrev pub op_consumes : Op → List (List Ranges.Range) → Instruction → ℕ → Bool
op_consumes char classes i c = i.arg1 == c
op_consumes any classes i c = not (is_line_terminator c)
op_consumes class classes i c = Ranges.contains (get_or classes i.arg1 []) c
op_consumes _ classes i c = false

unfoldable pub consumes : RegexProgram → ℕ → ℕ → Bool
consumes p pc c = elim (get_elem? p.instructions pc) [
  | none ↦ false
  | some i ↦ op_consumes i.op p.classes i c
]

-- The `for` loop over the current threads, from index `i`, with `left` of them to go; the flag says
-- that a match was reached.
pub consume_from : RegexProgram → ℕ → Position → ThreadList → ℕ → ℕ → ThreadList → ThreadList × Bool
consume_from p c after current zero i next = (next, false)
consume_from p c after current (suc left) i next =
    let pc = ThreadList.at current i in
    let walk = add_thread p.instructions after next (pc + 1) in
    elim (consumes p pc c) [
      | true ↦ elim walk.matched [
        | true ↦ (walk.list, true)
        | false ↦ consume_from p c after current left (i + 1) walk.list
      ]
      | false ↦ consume_from p c after current left (i + 1) next
    ]

-- `charge`: what is left of the budget, or nothing.
pub charge : ℕ → ℕ → Option ℕ
charge steps steps_left = if ltb steps_left steps then none else some (steps_left - steps)

abbrev head_is_word : List ℕ → Bool
head_is_word [] = false
head_is_word (c ∷ cs) = is_word_character c

abbrev is_empty : List ℕ → Bool
is_empty [] = true
is_empty (c ∷ cs) = false

-- The position behind `c`, with the code points that follow it.
abbrev pub position_after : ℕ → List ℕ → Position
position_after c following = record {
  at_start = false;
  at_end = is_empty following;
  previous_is_word = is_word_character c;
  next_is_word = head_is_word following;
}

abbrev pub start_position : List ℕ → Position
start_position input = record {
  at_start = true;
  at_end = is_empty input;
  previous_is_word = false;
  next_is_word = head_is_word input;
}

-- One round of the loop over the input, behind its `charge`: `some` when a match was reached.
pub step_char : RegexProgram → ℕ → Position → ThreadList → ThreadList → ThreadList × Bool
unfolding add_thread consume_from
step_char p c after current next =
    let (threads, matched) =
      consume_from p c after current current.count 0 (ThreadList.clear next) in
    let walk = add_thread p.instructions after threads 0 in
    elim matched [
      | true ↦ (threads, true)
      | false ↦ elim p.anchored [ true ↦ (threads, false) | false ↦ (walk.list, walk.matched) ]
    ]

-- `while (current_char)`; the number is what is left of the budget.
pub run_from : RegexProgram → List ℕ → ThreadList → ThreadList → ℕ → Option Bool × ℕ
unfolding step_char charge
run_from p [] current next steps_left = (some false, steps_left)
run_from p (c ∷ following) current next steps_left =
    let (threads, matched) = step_char p c (position_after c following) current next in
    elim (charge (current.count + 1) steps_left) [
      | none ↦ (none, 0)
      | some left ↦ elim matched [
        | true ↦ (some true, left)
        | false ↦ elim (p.anchored && threads.count == 0) [
          | true ↦ (some false, left)
          | false ↦ run_from p following threads current left
        ]
      ]
    ]

pub search_points : RegexProgram → List ℕ → ℕ → Option Bool × ℕ
unfolding run_from
search_points p input steps_left =
    let size = length p.instructions in
    let walk = add_thread p.instructions (start_position input) (ThreadList.sized size) 0 in
    elim (charge size steps_left) [
      | none ↦ (none, 0)
      | some left ↦ elim walk.matched [
        | true ↦ (some true, left)
        | false ↦ run_from p input walk.list (ThreadList.sized size) left
      ]
    ]

-- `Regex::search(input, steps_left)`
unfoldable pub search : RegexProgram → Bytes → ℕ → Option Bool × ℕ
unfolding search_points
search p input steps_left = search_points p (decode_text input) steps_left
