-- ===== src/Regex/Construct.antt =====
-- src/core/regex.cpp: the constructor of `Regex`, and what `search` promises of what it makes.
use mcp_cpp_sdk.Prelude.{
  ℕ, ◌+◌, ◌*◌, ◌≤◌, ◌≡◌, ◌↔◌, refl, subst, Bool, true, some, List, length, Bytes,
}
use mcp_cpp_sdk.Regex.Utf8.{decode_text}
use mcp_cpp_sdk.Regex.Program.{RegexProgram}
use mcp_cpp_sdk.Regex.Machine.{search, start_position}
use mcp_cpp_sdk.Regex.Machine.Rounds.{IsWellFormed}
use mcp_cpp_sdk.Regex.Machine.Accepts.{Finds}
use mcp_cpp_sdk.Regex.Machine.Matching.{search-Finds, search-IsSome}
use mcp_cpp_sdk.Regex.Node.{Result, ok, err, ◌>>=◌}
use mcp_cpp_sdk.Regex.Parser.{initial, parse}
use mcp_cpp_sdk.Regex.Parser.State.{ParserState}
use mcp_cpp_sdk.Regex.Compiler.{compile_root}
use mcp_cpp_sdk.Regex.Compiler.Runs.{stored, compile_root-IsWellFormed}

-- The program of a parsed pattern.
pub build : Bytes → Result (ℕ × ParserState) → Result RegexProgram
build pattern (err e) = err e
build pattern (ok (root, parser)) = do
  program ← compile_root parser.nodes root
  ok (stored pattern parser.classes program)

unfoldable pub regex : Bytes → Result RegexProgram
unfolding build parse compile_root
regex pattern = build pattern (parse (initial (decode_text pattern)))

build-IsWellFormed :
    (pattern : Bytes) (parsed : Result (ℕ × ParserState)) (p : RegexProgram)
    → build pattern parsed ≡ ok p
    → IsWellFormed p
unfolding build
build-IsWellFormed pattern (err e) p h = cc
build-IsWellFormed pattern (ok (root, parser)) p h = finish (compile_root parser.nodes root) refl h
  where
    finish :
        (r : Result (List _))
        → compile_root parser.nodes root ≡ r
        → (r >>= λ program. ok (stored pattern parser.classes program)) ≡ ok p
        → IsWellFormed p
    finish (err e) same k = cc
    finish (ok program) same k =
        subst IsWellFormed (cc)
          (compile_root-IsWellFormed parser.nodes root program pattern parser.classes same)

-- No instruction of a constructed regular expression leads out of its program.
pub regex-IsWellFormed :
    (pattern : Bytes) (p : RegexProgram) → regex pattern ≡ ok p → IsWellFormed p
unfolding regex
regex-IsWellFormed pattern p h =
    build-IsWellFormed pattern (parse (initial (decode_text pattern))) p h

-- A constructed regular expression answers `true` exactly if some run of its program matches
-- somewhere in the input, and within a budget of its size and one step more than that for each code
-- point it always answers.
pub regex-search :
    (pattern input : Bytes) (p : RegexProgram) (steps_left : ℕ)
    → regex pattern ≡ ok p
    → length p.instructions + length (decode_text input) * (length p.instructions + 1) ≤ steps_left
    → (b : Bool) × ((search p input steps_left).0 ≡ some b)
      × ((b ≡ true) ↔ Finds p (start_position (decode_text input)) (decode_text input))
regex-search pattern input p steps_left h room =
    let wf = regex-IsWellFormed pattern p h in
    let (b, e) = search-IsSome p input steps_left wf room in
    (b, e, search-Finds p input steps_left b wf e)
